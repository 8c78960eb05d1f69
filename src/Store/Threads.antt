-- ===== src/Store/Threads.antt =====
-- tools/api/internal/store/store.go: mailbox state, threads, and the messages' identities.
use balvibot.Prelude.{
  ℕ, ◌+◌, Bool, ◌&&◌, Option, none, some, List, [], ◌∷◌, ◌++◌, Str, eqs, ltb, ◌==◌, if◌then◌else◌,
  find_row, update_rows, any_row,
}
use balvibot.Errors.{Error, Result, ok, err, unique_violation, is_no_rows}
use balvibot.Store.Schema.{Db, ThreadRow, MailboxRow}
use balvibot.Store.Exec.{
  Exec, pure, fail, select, statement, or_else, now, transaction, ◌>>=◌, ◌>>◌,
}
use balvibot.Store.Approvals.{row_or_none}
use balvibot.Store.Grantees.{is_unassigned, has_grantee, foreign_key_violation}

-- type MailboxState
pub record MailboxState : Type 0 where
  pub folder : Str
  pub uid_validity : ℕ
  pub last_uid : ℕ

unfoldable pub scan_mailbox : MailboxRow → MailboxState
scan_mailbox r = record { folder = r.folder; uid_validity = r.uid_validity; last_uid = r.last_uid }

unfoldable pub mailbox_of : Str → Db → Option MailboxState
unfolding scan_mailbox
mailbox_of folder db = elim (find_row (λ r. eqs r.folder folder) db.mailboxes) [
  | none ↦ none
  | some r ↦ some (scan_mailbox r)
]

-- GetMailboxState, where no row is `none`
unfoldable pub get_mailbox_state : Str → Exec (Option MailboxState)
unfolding mailbox_of
get_mailbox_state folder = select λ db. ok (mailbox_of folder db)

unfoldable pub put_mailbox : MailboxState → ℕ → Db → Result (Unit {0} × Db)
put_mailbox st t db =
    let hit = λ (r : MailboxRow). eqs r.folder st.folder in
    let row : MailboxRow = record {
      folder = st.folder;
      uid_validity = st.uid_validity;
      last_uid = st.last_uid;
      updated_at = t;
    } in
    ok (
      tt,
      record db {
        mailboxes =
            if any_row hit db.mailboxes
            then update_rows hit (λ r. row) db.mailboxes
            else db.mailboxes ++ row ∷ [];
      },
    )

-- SaveMailboxState
unfoldable pub save_mailbox_state : MailboxState → Exec (Unit {0})
unfolding ◌>>=◌ now put_mailbox
save_mailbox_state st = do t ← now; statement (put_mailbox st t)

-- MessageExistsByID
unfoldable pub message_exists_by_id : Str → Exec Bool
message_exists_by_id message_id =
    select λ db. ok (any_row (λ m. eqs m.message_id message_id) db.messages)

unfoldable pub member : Str → List Str → Bool
member s = any_row (eqs s)

-- LIMIT 1 with no ORDER BY: the first row in the order of the table
abbrev pub thread_by_root : List Str → Db → Option ℕ
thread_by_root refs db = elim (find_row (λ t. member t.root_message_id refs) db.threads) [
  | none ↦ none
  | some t ↦ some t.id
]

abbrev pub thread_by_message : List Str → Db → Option ℕ
thread_by_message refs db = elim (find_row (λ m. member m.message_id refs) db.messages) [
  | none ↦ none
  | some m ↦ some m.thread_id
]

abbrev no_thread : Error → Exec ℕ
no_thread e = if is_no_rows e then pure 0 else fail e

-- FindThreadByRefs, where 0 says that there is none
unfoldable pub find_thread_by_refs : List Str → Exec ℕ
unfolding or_else member is_no_rows
find_thread_by_refs [] = pure 0
find_thread_by_refs (r ∷ refs) =
    or_else (select λ db. row_or_none (thread_by_root (r ∷ refs) db))
      (λ e.
        if is_no_rows e
        then or_else (select λ db. row_or_none (thread_by_message (r ∷ refs) db)) no_thread pure
        else fail e)
      pure

unfoldable pub insert_thread : Str → Str → Option Str → ℕ → Db → Result (ℕ × Db)
insert_thread root subject grantee_id t db =
    let row : ThreadRow = record {
      id = db.next_thread;
      root_message_id = root;
      subject_norm = subject;
      grantee_id = grantee_id;
      first_seen_at = t;
      last_seen_at = t;
    } in
    if any_row (λ x. eqs x.root_message_id root) db.threads
    then err unique_violation
    else ok (
      db.next_thread,
      record db { threads = db.threads ++ row ∷ []; next_thread = db.next_thread + 1 },
    )

-- CreateThread
unfoldable pub create_thread : Str → Str → Option Str → ℕ → Exec ℕ
unfolding insert_thread
create_thread root subject grantee_id t = statement (insert_thread root subject grantee_id t)

unfoldable pub thread_with_id : ℕ → Db → Option ThreadRow
thread_with_id id db = find_row (λ t. t.id == id) db.threads

-- GetThread, which passes sql.ErrNoRows on
unfoldable pub get_thread : ℕ → Exec ThreadRow
unfolding thread_with_id
get_thread id = select λ db. row_or_none (thread_with_id id db)

unfoldable pub claim_thread : ℕ → Str → Db → Result (Unit {0} × Db)
claim_thread id grantee_id db =
    if has_grantee grantee_id db
    then ok (
      tt,
      record db {
        threads =
            update_rows (λ t. t.id == id && is_unassigned t.grantee_id)
              (λ t. record t { grantee_id = some grantee_id }) db.threads;
      },
    )
    else if any_row (λ t. t.id == id && is_unassigned t.grantee_id) db.threads
    then err foreign_key_violation
    else ok (tt, db)

unfoldable pub claim_thread_messages : ℕ → Str → Db → Result (Unit {0} × Db)
claim_thread_messages id grantee_id db =
    if has_grantee grantee_id db
    then ok (
      tt,
      record db {
        messages =
            update_rows (λ m. m.thread_id == id && is_unassigned m.grantee_id)
              (λ m. record m { grantee_id = some grantee_id }) db.messages;
      },
    )
    else if any_row (λ m. m.thread_id == id && is_unassigned m.grantee_id) db.messages
    then err foreign_key_violation
    else ok (tt, db)

-- The statements of SetThreadGrantee between BEGIN and COMMIT.
unfoldable pub assign_thread : ℕ → Str → Exec (Unit {0})
unfolding ◌>>=◌ claim_thread claim_thread_messages
assign_thread id grantee_id = do
  statement (claim_thread id grantee_id)
  statement (claim_thread_messages id grantee_id)

-- SetThreadGrantee
unfoldable pub set_thread_grantee : ℕ → Str → Exec (Unit {0})
unfolding transaction assign_thread
set_thread_grantee id grantee_id = transaction (assign_thread id grantee_id)

abbrev pub greatest : ℕ → ℕ → ℕ
greatest a b = if ltb a b then b else a

unfoldable pub see_thread : ℕ → ℕ → Db → Result (Unit {0} × Db)
see_thread id t db = ok (
  tt,
  record db {
    threads =
        update_rows (λ x. x.id == id) (λ x. record x { last_seen_at = greatest x.last_seen_at t })
          db.threads;
  },
)

-- TouchThread
unfoldable pub touch_thread : ℕ → ℕ → Exec (Unit {0})
unfolding see_thread
touch_thread id t = statement (see_thread id t)
