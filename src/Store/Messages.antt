-- ===== src/Store/Messages.antt =====
-- tools/api/internal/store/store.go: InsertMessage and the rows below a message.
use balvibot.Prelude.{
  ℕ, ◌+◌, Bool, ◌&&◌, Option, none, some, List, [], ◌∷◌, ◌++◌, Str, codes, eqs, citext_eq, to_lower,
  is_empty, ◌==◌, if◌then◌else◌, find_row, any_row,
}
use balvibot.Errors.{Result, ok, err, unique_violation}
use balvibot.Store.Schema.{Db, Address, MessageRow, ReferenceRow, RecipientRow, AttachmentRow}
use balvibot.Store.Exec.{Exec, pure, select, statement, context, now, transaction, ◌>>=◌, ◌>>◌}
use balvibot.Store.Text.{null_str, clean_text}
use balvibot.Store.Approvals.{row_or_none}
use balvibot.Store.Grantees.{has_grantee, foreign_key_violation}

-- type Attachment, before it has a row
pub record Attachment : Type 0 where
  pub filename : Str
  pub mime_type : Str
  pub size_bytes : ℕ
  pub sha256 : Str
  pub path : Str

-- type Message, before it has a row; the date is in Unix seconds
pub record Message : Type 0 where
  pub message_id : Str
  pub thread_id : ℕ
  pub grantee_id : Option Str
  pub folder : Str
  pub uid : ℕ
  pub uid_validity : ℕ
  pub in_reply_to : Str
  pub references : List Str
  pub from_address : Address
  pub to : List Address
  pub cc : List Address
  pub bcc : List Address
  pub subject : Str
  pub date : ℕ
  pub body_text : Str
  pub body_html : Str
  pub size_bytes : ℕ
  pub attachments : List Attachment

-- strings.Join(refs, " ")
join_space : List Str → Str
join_space [] = []
join_space (s ∷ []) = s
join_space (s ∷ t ∷ rest) = s ++ 32 ∷ join_space (t ∷ rest)

unfoldable pub message_row : Message → ℕ → ℕ → MessageRow
unfolding null_str clean_text join_space
message_row m id t = record {
  id = id;
  message_id = m.message_id;
  thread_id = m.thread_id;
  grantee_id = m.grantee_id;
  folder = m.folder;
  uid = m.uid;
  uid_validity = m.uid_validity;
  in_reply_to = null_str (clean_text m.in_reply_to);
  references_raw = null_str (clean_text (join_space m.references));
  from_addr = m.from_address.email;
  from_name = null_str (clean_text m.from_address.name);
  to_addrs = m.to;
  cc_addrs = m.cc;
  subject = null_str (clean_text m.subject);
  date = m.date;
  body_text = null_str (clean_text m.body_text);
  body_html = null_str (clean_text m.body_html);
  size_bytes = m.size_bytes;
  indexed_at = t;
}

abbrev pub grantee_exists : Option Str → Db → Bool
grantee_exists none db = Bool.true
grantee_exists (some g) db = has_grantee g db

-- INSERT … ON CONFLICT(message_id) DO NOTHING RETURNING id: `none` where the message is there; the
-- other UNIQUE and the foreign keys fail
unfoldable pub put_message : Message → ℕ → Db → Result (Option ℕ × Db)
unfolding message_row
put_message m t db =
    if any_row (λ r. eqs r.message_id m.message_id) db.messages
    then ok (none, record db { next_message = db.next_message + 1 })
    else if any_row
        (λ r. eqs r.folder m.folder && r.uid_validity == m.uid_validity && r.uid == m.uid)
        db.messages
    then err unique_violation
    else if any_row (λ r. r.id == m.thread_id) db.threads && grantee_exists m.grantee_id db
    then ok (
      some db.next_message,
      record db {
        messages = db.messages ++ message_row m db.next_message t ∷ [];
        next_message = db.next_message + 1;
      },
    )
    else err foreign_key_violation

unfoldable pub put_reference : ℕ → Str → Db → Result (Unit {0} × Db)
put_reference id ref db =
    let row : ReferenceRow = record { message_id = id; ref = ref } in
    if any_row (λ r. r.message_id == id && eqs r.ref ref) db.message_references
    then ok (tt, db)
    else ok (tt, record db { message_references = db.message_references ++ row ∷ [] })

unfoldable pub put_recipient : ℕ → Str → Str → Option Str → Db → Result (Unit {0} × Db)
put_recipient id kind email name db =
    let row : RecipientRow = record { message_id = id; kind = kind; email = email; name = name } in
    if any_row (λ r. r.message_id == id && eqs r.kind kind && citext_eq r.email email) db.recipients
    then ok (tt, db)
    else ok (tt, record db { recipients = db.recipients ++ row ∷ [] })

unfoldable pub put_attachment : ℕ → Attachment → Db → Result (Unit {0} × Db)
unfolding null_str clean_text
put_attachment id a db =
    let row : AttachmentRow = record {
      id = db.next_attachment;
      message_id = id;
      filename = null_str (clean_text a.filename);
      mime_type = null_str (clean_text a.mime_type);
      size_bytes = a.size_bytes;
      sha256 = a.sha256;
      path = a.path;
    } in
    ok (
      tt,
      record db {
        attachments = db.attachments ++ row ∷ [];
        next_attachment = db.next_attachment + 1;
      },
    )

unfoldable pub insert_references : ℕ → List Str → Exec (Unit {0})
unfolding ◌>>=◌ put_reference clean_text
insert_references id [] = pure tt
insert_references id (ref ∷ refs) =
    let rest = insert_references id refs in
    if is_empty ref then rest else statement (put_reference id (clean_text ref)) >> rest

-- insertRecipients
unfoldable pub insert_recipients : ℕ → Str → List Address → Exec (Unit {0})
unfolding ◌>>=◌ put_recipient clean_text null_str
insert_recipients id kind [] = pure tt
insert_recipients id kind (a ∷ addrs) =
    let rest = insert_recipients id kind addrs in
    if is_empty a.email
    then rest
    else statement
        (put_recipient id kind (clean_text (to_lower a.email)) (null_str (clean_text a.name)))
      >> rest

unfoldable pub insert_attachments : ℕ → List Attachment → Exec (Unit {0})
unfolding ◌>>=◌ put_attachment context
insert_attachments id [] = pure tt
insert_attachments id (a ∷ rest) =
    context (codes "insert attachment: ") (statement (put_attachment id a))
    >> insert_attachments id rest

-- What InsertMessage does once the message's own row is there, up to COMMIT.
unfoldable pub insert_children : Message → ℕ → Exec (ℕ × Bool)
unfolding insert_references insert_recipients insert_attachments
insert_children m id = do
  insert_references id m.references
  insert_recipients id (codes "to") m.to
  insert_recipients id (codes "cc") m.cc
  insert_recipients id (codes "bcc") m.bcc
  insert_attachments id m.attachments
  pure (id, Bool.true)

-- The message is there already: its id.
unfoldable pub fetch_existing : Str → Exec (ℕ × Bool)
unfolding ◌>>=◌
fetch_existing message_id = do
  r ← select λ db. row_or_none (find_row (λ m. eqs m.message_id message_id) db.messages)
  pure (r.id, Bool.false)

abbrev pub inserted_or_there : Message → Option ℕ → Exec (ℕ × Bool)
inserted_or_there m none = fetch_existing m.message_id
inserted_or_there m (some id) = insert_children m id

-- The statements of InsertMessage between BEGIN and COMMIT.
unfoldable pub insert_rows : Message → Exec (ℕ × Bool)
unfolding ◌>>=◌ now put_message insert_children fetch_existing context
insert_rows m = do
  t ← now
  r ← context (codes "insert message: ") (statement (put_message m t))
  inserted_or_there m r

-- InsertMessage
unfoldable pub insert_message : Message → Exec (ℕ × Bool)
unfolding transaction insert_rows
insert_message m = transaction (insert_rows m)
