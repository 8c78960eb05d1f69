-- ===== src/Store/Approvals.antt =====
-- tools/api/internal/store/approvals.go: the queue of actions and the operators.
use balvibot.Prelude.{
  map, count_rows, ℕ, ◌+◌, Bool, not, ◌&&◌, ◌||◌, Option, none, some, List, [], ◌∷◌, ◌++◌, Str,
  codes, eqs, citext_eq, is_empty, ◌==◌, ltb, if◌then◌else◌, where_rows, find_row, update_rows,
  any_row, sort_rows,
}
use balvibot.Errors.{Error, Result, ok, err, not_found, no_rows, driver, message, is_no_rows}
use balvibot.Store.Schema.{Db, ActionRow, UserRow}
use balvibot.Store.Exec.{Exec, pure, fail, select, statement, or_else, now, ◌>>=◌}
use balvibot.Store.Text.{null_str, or_empty}

-- The statuses of an action.
abbrev pub approval_pending : Str
approval_pending = codes "pending"

abbrev pub approval_executed : Str
approval_executed = codes "executed"

abbrev pub approval_failed : Str
approval_failed = codes "failed"

abbrev pub approval_rejected : Str
approval_rejected = codes "rejected"

-- type ApprovalAction
pub record ApprovalAction : Type 0 where
  pub id : ℕ
  pub action : Str
  pub args : Str
  pub metadata : Str
  pub status : Str
  pub requested_by : Str
  pub approved_by : Str
  pub created_at : ℕ
  pub approved_at : Option ℕ
  pub executed_at : Option ℕ
  pub last_error : Str

-- scanAction, over a row that is there
unfoldable pub scan_action : ActionRow → ApprovalAction
scan_action r = record {
  id = r.id;
  action = r.action;
  args = r.args;
  metadata = r.metadata;
  status = r.status;
  requested_by = or_empty r.requested_by;
  approved_by = or_empty r.approved_by;
  created_at = r.created_at;
  approved_at = r.approved_at;
  executed_at = r.executed_at;
  last_error = or_empty r.last_error;
}

-- len(args) == 0 defaults to {}
unfoldable pub raw_or_empty : Str → Str
raw_or_empty b = if is_empty b then codes "{}" else b

-- The server's form of a JSONB value, read from the environment.
unfoldable pub to_jsonb : Str → Exec (Option Str)
to_jsonb s w = (ok (w.jsonb s), w)

abbrev pub new_action : ℕ → Str → Str → Str → Option Str → ℕ → ActionRow
new_action id action args metadata requested_by created_at = record {
  id = id;
  action = action;
  args = args;
  metadata = metadata;
  status = approval_pending;
  requested_by = requested_by;
  approved_by = none;
  created_at = created_at;
  approved_at = none;
  executed_at = none;
  last_error = none;
}

unfoldable pub insert_action : Str → Option Str → Option Str → Option Str → ℕ → Db → Result (ℕ × Db)
insert_action action (some args) (some metadata) requested_by created_at db = ok (
  db.next_action,
  record db {
    actions =
        db.actions ++ new_action db.next_action action args metadata requested_by created_at ∷ [];
    next_action = db.next_action + 1;
  },
)
insert_action action _ _ requested_by created_at db =
    err (driver (codes "invalid input syntax for type json"))

-- EnqueueAction
unfoldable pub enqueue_action : Str → Str → Str → Str → Exec ℕ
unfolding ◌>>=◌ raw_or_empty to_jsonb insert_action now null_str
enqueue_action action args metadata requested_by =
    if is_empty action then fail (message (codes "action required")) else do
      t ← now
      a ← to_jsonb (raw_or_empty args)
      m ← to_jsonb (raw_or_empty metadata)
      statement (insert_action action a m (null_str requested_by) t)

unfoldable pub action_with_id : ℕ → Db → Option ActionRow
action_with_id id db = find_row (λ r. r.id == id) db.actions

-- A single row, or sql.ErrNoRows.
abbrev pub row_or_none : {A : Type 0} → Option A → Result A
row_or_none none = err no_rows
row_or_none (some r) = ok r

-- errors.Is(err, sql.ErrNoRows) turns into ErrNotFound
unfoldable pub missing : {A : Type 0} → Error → Exec A
missing e = if is_no_rows e then fail not_found else fail e

-- GetAction
unfoldable pub get_action : ℕ → Exec ApprovalAction
unfolding or_else missing action_with_id scan_action
get_action id =
    or_else (select λ db. row_or_none (action_with_id id db)) missing (λ r. pure (scan_action r))

abbrev newest_first : ActionRow → ActionRow → Bool
newest_first x y = ltb y.id x.id

-- ListActionsByStatus
unfoldable pub list_actions_by_status : Str → Exec (List ApprovalAction)
unfolding scan_action
list_actions_by_status status = select λ db.
    ok (map scan_action (sort_rows newest_first (where_rows (λ r. eqs r.status status) db.actions)))

-- ListActions
unfoldable pub list_actions : Str → Exec (List ApprovalAction)
unfolding scan_action
list_actions status =
    if is_empty status
    then (select λ db. ok (map scan_action (sort_rows newest_first db.actions)))
    else (select λ db. ok (
        map scan_action
          (sort_rows newest_first (where_rows (λ r. eqs r.status status) db.actions))))

-- requireOneRow, over the number of rows that a statement touched
unfoldable pub require_one_row : ℕ → Exec (Unit {0})
require_one_row n = if n == 0 then fail not_found else pure tt

-- WHERE id = ? AND status = 'pending'
unfoldable pub is_pending : ℕ → ActionRow → Bool
is_pending id r = r.id == id && eqs r.status approval_pending

abbrev pub executed_row : Str → ℕ → ActionRow → ActionRow
executed_row approved_by t r = record r {
  status = approval_executed;
  approved_by = some approved_by;
  approved_at = some t;
  executed_at = some t;
  last_error = none;
}

abbrev pub failed_row : Str → Str → ℕ → ActionRow → ActionRow
failed_row approved_by msg t r = record r {
  status = approval_failed;
  approved_by = some approved_by;
  approved_at = some t;
  last_error = null_str msg;
}

unfoldable pub update_actions : ℕ → (ActionRow → ActionRow) → Db → Result (ℕ × Db)
unfolding is_pending
update_actions id f db = ok (
  count_rows (is_pending id) db.actions,
  record db { actions = update_rows (is_pending id) f db.actions },
)

-- MarkActionExecuted
unfoldable pub mark_action_executed : ℕ → Str → Exec (Unit {0})
unfolding ◌>>=◌ update_actions require_one_row now
mark_action_executed id approved_by = do
  t ← now
  n ← statement (update_actions id (executed_row approved_by t))
  require_one_row n

-- MarkActionFailed
unfoldable pub mark_action_failed : ℕ → Str → Str → Exec (Unit {0})
unfolding ◌>>=◌ update_actions require_one_row now null_str
mark_action_failed id approved_by msg = do
  t ← now
  n ← statement (update_actions id (failed_row approved_by msg t))
  require_one_row n

unfoldable pub upsert_user : Str → Str → Str → ℕ → Db → Result (Unit {0} × Db)
upsert_user email pub_key fingerprint t db =
    let hit = λ (u : UserRow). citext_eq u.email email in
    let row : UserRow = record {
      email = email;
      ssh_public_key = pub_key;
      fingerprint = fingerprint;
      created_at = t;
    } in
    ok (
      tt,
      record db {
        users =
            if any_row hit db.users
            then update_rows hit
                (λ u. record u { ssh_public_key = pub_key; fingerprint = fingerprint }) db.users
            else db.users ++ row ∷ [];
      },
    )

-- UpsertApprovalUser
unfoldable pub upsert_approval_user : Str → Str → Str → Exec (Unit {0})
unfolding ◌>>=◌ upsert_user now
upsert_approval_user email pub_key fingerprint =
    if is_empty email || is_empty pub_key || is_empty fingerprint
    then fail (message (codes "email, public key, and fingerprint required"))
    else do t ← now; statement (upsert_user email pub_key fingerprint t)

unfoldable pub user_with_email : Str → Db → Option UserRow
user_with_email email db = find_row (λ u. citext_eq u.email email) db.users

-- GetApprovalUser
unfoldable pub get_approval_user : Str → Exec UserRow
unfolding or_else missing user_with_email
get_approval_user email = or_else (select λ db. row_or_none (user_with_email email db)) missing pure

unfoldable pub delete_user : Str → Db → Result (ℕ × Db)
delete_user email db =
    let hit = λ (u : UserRow). citext_eq u.email email in
    ok (count_rows hit db.users, record db { users = where_rows (λ u. not (hit u)) db.users })

-- RemoveApprovalUser
unfoldable pub remove_approval_user : Str → Exec (Unit {0})
unfolding ◌>>=◌ delete_user require_one_row
remove_approval_user email = do n ← statement (delete_user email); require_one_row n
