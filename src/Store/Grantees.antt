-- ===== src/Store/Grantees.antt =====
-- tools/api/internal/store/store.go: grantees, their e-mail addresses and their Drive sources.
use balvibot.Prelude.{
  ℕ, Bool, not, ◌&&◌, ◌||◌, Option, none, some, List, [], ◌∷◌, ◌++◌, Str, codes, eqs, citext_eq,
  trim_space, to_lower, is_empty, ltb, ◌==◌, if◌then◌else◌, where_rows, find_row, update_rows,
  any_row, count_rows, sort_rows, map,
}
use balvibot.Errors.{Error, Result, ok, err, driver, message, quote}
use balvibot.Store.Schema.{Db, GranteeRow, EmailRow}
use balvibot.Store.Exec.{
  Exec, pure, fail, select, statement, or_else, now, transaction, ◌>>=◌, ◌>>◌,
}
use balvibot.Store.Text.{null_str, or_empty}
use balvibot.Store.Approvals.{row_or_none, missing, require_one_row}

abbrev pub status_active : Str
status_active = codes "active"

abbrev pub status_paused : Str
status_paused = codes "paused"

abbrev pub source_type_folder : Str
source_type_folder = codes "folder"

abbrev pub source_type_doc : Str
source_type_doc = codes "doc"

-- type Grantee, its e-mail addresses aside
pub record Grantee : Type 0 where
  pub grantee_id : Str
  pub display_name : Str
  pub status : Str
  pub created_at : Option ℕ

abbrev pub or_now : Option ℕ → ℕ → ℕ
or_now none t = t
or_now (some c) t = c

-- The CHECK constraint on grantees.status.
abbrev pub is_grantee_status : Str → Bool
is_grantee_status s = eqs s status_active || eqs s status_paused

abbrev pub check_violation : Error
check_violation = driver (codes "23514")

abbrev pub foreign_key_violation : Error
foreign_key_violation = driver (codes "23503")

abbrev pub has_grantee : Str → Db → Bool
has_grantee id db = any_row (λ g. eqs g.grantee_id id) db.grantees

abbrev pub status_or_active : Str → Str
status_or_active s = if is_empty s then status_active else s

abbrev pub grantee_row : Grantee → Str → ℕ → GranteeRow
grantee_row g status t = record {
  grantee_id = g.grantee_id;
  display_name = null_str g.display_name;
  status = status;
  created_at = or_now g.created_at t;
}

-- INSERT … ON CONFLICT(grantee_id) DO NOTHING; the CHECK is made before the conflict is looked for.
unfoldable pub insert_grantee : GranteeRow → Db → Result (Unit {0} × Db)
insert_grantee row db =
    if not (is_grantee_status row.status)
    then err check_violation
    else if has_grantee row.grantee_id db
    then ok (tt, db)
    else ok (tt, record db { grantees = db.grantees ++ row ∷ [] })

-- EnsureGrantee
unfoldable pub ensure_grantee : Grantee → Exec (Unit {0})
unfolding ◌>>=◌ now insert_grantee null_str
ensure_grantee g =
    if is_empty g.grantee_id
    then fail (message (codes "grantee_id required"))
    else do t ← now; statement (insert_grantee (grantee_row g (status_or_active g.status) t))

-- INSERT … ON CONFLICT(grantee_id) DO UPDATE SET display_name, status
unfoldable pub replace_grantee : GranteeRow → Db → Result (Unit {0} × Db)
replace_grantee row db =
    let hit = λ (g : GranteeRow). eqs g.grantee_id row.grantee_id in
    if not (is_grantee_status row.status)
    then err check_violation
    else if any_row hit db.grantees
    then ok (
      tt,
      record db {
        grantees =
            update_rows hit (λ g. record g { display_name = row.display_name; status = row.status })
              db.grantees;
      },
    )
    else ok (tt, record db { grantees = db.grantees ++ row ∷ [] })

-- UpsertGrantee
unfoldable pub upsert_grantee : Grantee → Exec (Unit {0})
unfolding ◌>>=◌ now replace_grantee null_str
upsert_grantee g =
    if is_empty g.grantee_id
    then fail (message (codes "grantee_id required"))
    else do t ← now; statement (replace_grantee (grantee_row g (status_or_active g.status) t))

unfoldable pub update_status : Str → Str → Db → Result (ℕ × Db)
update_status id status db =
    let hit = λ (g : GranteeRow). eqs g.grantee_id id in
    ok (
      count_rows hit db.grantees,
      record db { grantees = update_rows hit (λ g. record g { status = status }) db.grantees },
    )

-- SetGranteeStatus
unfoldable pub set_grantee_status : Str → Str → Exec (Unit {0})
unfolding ◌>>=◌ update_status require_one_row quote
set_grantee_status id status =
    if not (is_grantee_status status)
    then fail (message (codes "invalid grantee status " ++ quote status))
    else do n ← statement (update_status id status); require_one_row n

unfoldable pub scan_grantee : GranteeRow → Grantee
scan_grantee r = record {
  grantee_id = r.grantee_id;
  display_name = or_empty r.display_name;
  status = r.status;
  created_at = some r.created_at;
}

unfoldable pub grantee_with_id : Str → Db → Option GranteeRow
grantee_with_id id db = find_row (λ g. eqs g.grantee_id id) db.grantees

-- GetGrantee
unfoldable pub get_grantee : Str → Exec Grantee
unfolding or_else missing scan_grantee grantee_with_id
get_grantee id =
    or_else (select λ db. row_or_none (grantee_with_id id db)) missing (λ r. pure (scan_grantee r))

-- The order of byte strings.
unfoldable pub str_lt : Str → Str → Bool
str_lt [] [] = Bool.false
str_lt [] (b ∷ t) = Bool.true
str_lt (a ∷ s) [] = Bool.false
str_lt (a ∷ s) (b ∷ t) = if a == b then str_lt s t else ltb a b

-- ListActiveGrantees
unfoldable pub list_active_grantees : Exec (List Grantee)
unfolding scan_grantee str_lt
list_active_grantees = select λ db. ok (
    map scan_grantee (
      sort_rows (λ x y. str_lt x.grantee_id y.grantee_id)
        (where_rows (λ g. eqs g.status status_active) db.grantees)))

unfoldable pub set_email : Str → Str → Db → Result (Unit {0} × Db)
set_email grantee_id email db =
    let hit = λ (e : EmailRow). citext_eq e.email email in
    let row : EmailRow = record { email = email; grantee_id = grantee_id } in
    if not (has_grantee grantee_id db)
    then err foreign_key_violation
    else ok (
      tt,
      record db {
        grantee_emails =
            if any_row hit db.grantee_emails
            then update_rows hit (λ e. record e { grantee_id = grantee_id }) db.grantee_emails
            else db.grantee_emails ++ row ∷ [];
      },
    )

abbrev pub is_unassigned : Option Str → Bool
is_unassigned none = Bool.true
is_unassigned (some g) = Bool.false

-- UPDATE threads, where a message of the thread comes from `email`
unfoldable pub claim_threads : Str → Str → Db → Result (Unit {0} × Db)
claim_threads grantee_id email db = ok (
  tt,
  record db {
    threads =
        update_rows
          (λ t.
            is_unassigned t.grantee_id
            && any_row (λ m. m.thread_id == t.id && citext_eq m.from_addr email) db.messages)
          (λ t. record t { grantee_id = some grantee_id }) db.threads;
  },
)

abbrev pub is_for : Str → Option Str → Bool
is_for id none = Bool.false
is_for id (some g) = eqs g id

-- UPDATE messages, on the threads of the grantee
unfoldable pub claim_messages : Str → Db → Result (Unit {0} × Db)
claim_messages grantee_id db = ok (
  tt,
  record db {
    messages =
        update_rows
          (λ m.
            is_unassigned m.grantee_id
            && any_row (λ t. t.id == m.thread_id && is_for grantee_id t.grantee_id) db.threads)
          (λ m. record m { grantee_id = some grantee_id }) db.messages;
  },
)

-- The statements of AddGranteeEmail between BEGIN and COMMIT.
unfoldable pub link_email : Str → Str → Exec (Unit {0})
unfolding ◌>>=◌ set_email claim_threads claim_messages
link_email grantee_id email = do
  statement (set_email grantee_id email)
  statement (claim_threads grantee_id email)
  statement (claim_messages grantee_id)

-- AddGranteeEmail
unfoldable pub add_grantee_email : Str → Str → Exec (Unit {0})
unfolding transaction link_email
add_grantee_email grantee_id email =
    let address = to_lower (trim_space email) in
    if is_empty grantee_id || is_empty address
    then fail (message (codes "grantee_id and email required"))
    else transaction (link_email grantee_id address)

unfoldable pub delete_email : Str → Str → Db → Result (ℕ × Db)
delete_email grantee_id email db =
    let hit = λ (e : EmailRow). citext_eq e.email email && eqs e.grantee_id grantee_id in
    ok (
      count_rows hit db.grantee_emails,
      record db { grantee_emails = where_rows (λ e. not (hit e)) db.grantee_emails },
    )

-- RemoveGranteeEmail
unfoldable pub remove_grantee_email : Str → Str → Exec (Unit {0})
unfolding ◌>>=◌ delete_email require_one_row
remove_grantee_email grantee_id email = do
  n ← statement (delete_email grantee_id (to_lower (trim_space email)))
  require_one_row n

-- LookupGranteeByEmail, where no row is `none`
unfoldable pub lookup_grantee_by_email : Str → Exec (Option Str)
lookup_grantee_by_email email = select λ db.
    ok (elim (find_row (λ e. citext_eq e.email (to_lower email)) db.grantee_emails) [
      | none ↦ none
      | some e ↦ some e.grantee_id
    ])
