-- ===== src/Mailbox.antt =====
-- tools/api/internal/mailbox/indexer.go, Indexer.sync and handleMessage, with
-- tools/api/internal/grantee/resolver.go. What a FETCH of the IMAP server yields, parse.ParseRFC822 and NormalizeSubject are parameters.
pub mod Watermark
pub mod Run
pub mod Untouched
pub mod Rising
pub mod Backoff
use balvibot.Prelude.{
  ℕ, ◌+◌, ◌%◌, ◌^◌, Bool, not, ◌&&◌, ◌||◌, Option, none, some, List, [], ◌∷◌, ◌++◌, Str, codes, eqs,
  is_empty, ◌==◌, ltb, if◌then◌else◌,
}
use balvibot.Errors.{Error, Result, ok, err, message, wrap, is_unique_violation}
use balvibot.Store.Schema.{Db, Address, ThreadRow}
use balvibot.Store.Exec.{World, Exec, pure, fail, lift, attempt, or_else, context, ◌>>=◌, ◌>>◌}
use balvibot.Store.Grantees.{lookup_grantee_by_email}
use balvibot.Store.Threads.{
  MailboxState, get_mailbox_state, save_mailbox_state, message_exists_by_id, find_thread_by_refs,
  create_thread, get_thread, set_thread_grantee, touch_thread,
}
use balvibot.Store.Messages.{Message, Attachment, insert_message}
use balvibot.Threading.{extract_ids, thread_candidates}

-- type Result of the resolver: who the message is from, and whether the sender says so
pub record Resolved : Type 0 where
  pub grantee_id : Option Str
  pub from_sender : Bool

abbrev pub no_one : Resolved
no_one = record { grantee_id = none; from_sender = Bool.false }

-- The grantee of the thread.
unfoldable pub inherit : ℕ → Exec Resolved
unfolding ◌>>=◌ get_thread
inherit thread_id = if thread_id == 0 then pure no_one else do
  t ← get_thread thread_id
  pure (record { grantee_id = t.grantee_id; from_sender = Bool.false })

abbrev pub by_sender : ℕ → Option Str → Exec Resolved
by_sender thread_id none = inherit thread_id
by_sender thread_id (some id) = pure (record { grantee_id = some id; from_sender = Bool.true })

-- Resolve
unfoldable pub resolve : Str → ℕ → Exec Resolved
unfolding ◌>>=◌ lookup_grantee_by_email inherit
resolve from_email thread_id =
    if is_empty from_email
    then inherit thread_id
    else do found ← lookup_grantee_by_email from_email; by_sender thread_id found

-- type Parsed
pub record Parsed : Type 0 where
  pub message_id : Str
  pub in_reply_to : Str
  pub references : Str
  pub refs_list : List Str
  pub from_address : Address
  pub to : List Address
  pub cc : List Address
  pub bcc : List Address
  pub subject : Str
  pub date : ℕ
  pub body_text : Str
  pub body_html : Str
  pub attachments : List Attachment

-- What the indexer takes from package parse: ParseRFC822 and NormalizeSubject.
pub record Parser : Type 0 where
  pub parse : Str → Result Parsed
  pub normalize_subject : Str → Str

-- A message that FETCH yields; the id of its envelope is empty where it has none.
pub record Fetched : Type 0 where
  pub uid : ℕ
  pub raw : Str
  pub envelope_id : Str
  pub size : ℕ

abbrev first_or : Str → List Str → Str
first_or s [] = s
first_or s (x ∷ xs) = x

-- The root of a new thread.
unfoldable pub root_of : Parsed → Str
unfolding extract_ids
root_of p = first_or (first_or p.message_id (extract_ids p.in_reply_to)) p.refs_list

-- A thread was found, or the error says that there is none either.
abbrev pub found_after_race : ℕ → Exec ℕ
found_after_race id =
    if id == 0 then fail (message (codes "thread create race: %!w(<nil>)")) else pure id

-- Another writer made the thread: it is looked up by its root.
unfoldable pub lost_race : Str → Exec ℕ
unfolding ◌>>=◌ context find_thread_by_refs
lost_race root = do
  id ← context (codes "thread create race: ") (find_thread_by_refs (root ∷ []))
  found_after_race id

unfoldable pub new_thread : Parser → Parsed → Exec ℕ
unfolding or_else create_thread lost_race root_of is_unique_violation
new_thread parser p =
    or_else (create_thread (root_of p) (parser.normalize_subject p.subject) none p.date)
      (λ e.
        if is_unique_violation e
        then lost_race (root_of p)
        else fail (wrap (codes "create thread: ") e []))
      pure

-- The thread of a message, a new one if there is none.
unfoldable pub thread_of : Parser → Parsed → Exec ℕ
unfolding ◌>>=◌ context thread_candidates find_thread_by_refs new_thread
thread_of parser p = do
  id ←
      context (codes "thread lookup: ")
        (find_thread_by_refs (thread_candidates p.message_id p.in_reply_to p.references))
  if id == 0 then new_thread parser p else pure id

abbrev pub message_of : Str → ℕ → Fetched → Parsed → ℕ → Resolved → Message
message_of folder uid_validity f p thread_id r = record {
  message_id = p.message_id;
  thread_id = thread_id;
  grantee_id = r.grantee_id;
  folder = folder;
  uid = f.uid;
  uid_validity = uid_validity;
  in_reply_to = p.in_reply_to;
  references = p.refs_list;
  from_address = p.from_address;
  to = p.to;
  cc = p.cc;
  bcc = p.bcc;
  subject = p.subject;
  date = p.date;
  body_text = p.body_text;
  body_html = p.body_html;
  size_bytes = f.size;
  attachments = p.attachments;
}

-- PromoteThread, where the sender determined the grantee
abbrev pub promote : ℕ → Bool → Option Str → Exec (Unit {0})
promote thread_id Bool.true (some id) =
    context (codes "promote thread: ") (set_thread_grantee thread_id id)
promote thread_id _ _ = pure tt

module _ (parser : Parser) (folder : Str) (uid_validity : ℕ) where
  -- handleMessage for a message that is parsed
  unfoldable pub index_message : Fetched → Parsed → Exec (Unit {0})
  unfolding ◌>>=◌ context thread_of resolve insert_message set_thread_grantee touch_thread
  index_message f p = do
    thread_id ← thread_of parser p
    r ← context (codes "resolve grantee: ") (resolve p.from_address.email thread_id)
    context (codes "insert: ") (insert_message (message_of folder uid_validity f p thread_id r))
    promote thread_id r.from_sender r.grantee_id
    context (codes "touch thread: ") (touch_thread thread_id p.date)

  -- Whether the message with the id of the envelope is there.
  unfoldable pub is_known : Str → Exec Bool
  unfolding message_exists_by_id
  is_known envelope_id =
      if is_empty envelope_id then pure Bool.false else message_exists_by_id envelope_id

  -- handleMessage
  unfoldable pub handle_message : Fetched → Exec (Unit {0})
  unfolding ◌>>=◌ context is_known index_message
  handle_message f = if is_empty f.raw then fail (message (codes "empty body section")) else do
    known ← is_known f.envelope_id
    if known
        then pure tt
        else do p ← context (codes "parse: ") (lift (parser.parse f.raw)); index_message f p

  abbrev pub higher : ℕ → ℕ → Result (Unit {0}) → ℕ
  higher uid highest (err e) = highest
  higher uid highest (ok u) = if ltb highest uid then uid else highest

  -- The loop over the messages, with the highest UID so far: an error is logged and passed over.
  unfoldable pub index_all : ℕ → List Fetched → Exec ℕ
  unfolding ◌>>=◌ attempt handle_message
  index_all highest [] = pure highest
  index_all highest (f ∷ fs) =
      if f.uid == 0
      then index_all highest fs
      else do r ← attempt (handle_message f); index_all (higher f.uid highest r) fs

-- The UID to start above.
abbrev pub start_uid : ℕ → Option MailboxState → ℕ
start_uid uid_validity none = 0
start_uid uid_validity (some st) = if st.uid_validity == uid_validity then st.last_uid else 0

abbrev pub must_save : ℕ → ℕ → ℕ → Option MailboxState → Bool
must_save uid_validity highest last none = Bool.true
must_save uid_validity highest last (some st) =
    not (highest == last) || not (st.uid_validity == uid_validity)

-- How a FETCH ends: its channel is closed, without an error or with that of a cancelled context, or
-- one of its messages cannot be collected, or closing it fails.
pub data Ending : Type 0 where
  closed : Ending
  cancelled : Ending
  collect_failed : Error → Ending
  close_failed : Error → Ending

-- The messages that a FETCH yields, and its end.
pub record Reply : Type 0 where
  pub messages : List Fetched
  pub ending : Ending

-- What the loop hands on where the FETCH ended well.
unfoldable pub ended_well : Ending → Exec (Unit {0})
ended_well closed = pure tt
ended_well cancelled = pure tt
ended_well (collect_failed e) = fail (wrap (codes "collect message: ") e [])
ended_well (close_failed e) = fail (wrap (codes "fetch close: ") e [])

-- The state is saved where it is new.
unfoldable pub save_highest : Str → ℕ → ℕ → ℕ → Option MailboxState → Exec (Unit {0})
unfolding save_mailbox_state context
save_highest folder uid_validity highest last state =
    if must_save uid_validity highest last state
    then context (codes "save mailbox state: ") (
        save_mailbox_state
          (record { folder = folder; uid_validity = uid_validity; last_uid = highest }))
    else pure tt

-- Indexer.sync, where `fetch n` is what the FETCH of the UIDs `n:*` yields; a UID has 32 bits
unfoldable pub sync : Parser → Str → ℕ → (ℕ → Reply) → Exec (Unit {0})
unfolding ◌>>=◌ get_mailbox_state index_all ended_well save_highest
sync parser folder uid_validity fetch = do
  state ← get_mailbox_state folder
  let last = start_uid uid_validity state
  let reply = fetch ((last + 1) % 2 ^ 32)
  highest ← index_all parser folder uid_validity last reply.messages
  ended_well reply.ending
  save_highest folder uid_validity highest last state
