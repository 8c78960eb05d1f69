-- ===== src/ApprovalServer/Settled.antt =====
-- The queue as it is to be after an approval, row by row and field by field: an account of the two
-- UPDATEs of tools/api/internal/store/approvals.go that stands on its own.
use balvibot.Prelude.{
  map, ℕ, ◌≡◌, refl, ap, Bool, false, Bool-cases, inl, inr, none, some, List, [], ◌∷◌, Str, codes,
  eqs, is_empty, ◌==◌, if◌then◌else◌, update_rows,
}
use balvibot.Store.Schema.{Db, ActionRow}
use balvibot.Store.Approvals.{is_pending, executed_row, failed_row}
use balvibot.Store.Text.{null_str}

-- The row is the action `id`, and its status is `pending`.
abbrev pub is_waiting : ℕ → ActionRow → Bool
is_waiting id r = if eqs r.status (codes "pending") then r.id == id else false

-- The action `id`, where it is pending, is executed: by `email`, approved and executed at `t`, with
-- no error. Every other row is as it was.
abbrev pub executed_by : ℕ → Str → ℕ → ActionRow → ActionRow
executed_by id email t r =
    let executed : ActionRow = record {
      id = r.id;
      action = r.action;
      args = r.args;
      metadata = r.metadata;
      status = codes "executed";
      requested_by = r.requested_by;
      approved_by = some email;
      created_at = r.created_at;
      approved_at = some t;
      executed_at = some t;
      last_error = none;
    } in
    if is_waiting id r then executed else r

-- The action `id`, where it is pending, is failed: by `email` at `t`, with the text of the error,
-- and with the time of execution that it had. Every other row is as it was.
abbrev pub failed_by : ℕ → Str → Str → ℕ → ActionRow → ActionRow
failed_by id email text t r =
    let failed : ActionRow = record {
      id = r.id;
      action = r.action;
      args = r.args;
      metadata = r.metadata;
      status = codes "failed";
      requested_by = r.requested_by;
      approved_by = some email;
      created_at = r.created_at;
      approved_at = some t;
      executed_at = r.executed_at;
      last_error = if is_empty text then none else some text;
    } in
    if is_waiting id r then failed else r

abbrev pub with_actions : List ActionRow → Db → Db
with_actions rows db = record db { actions = rows }

is_pending_lem : (id : ℕ) (r : ActionRow) → is_pending id r ≡ is_waiting id r
unfolding is_pending
is_pending_lem id r = elim (Bool-cases (r.id == id)) [
  | inl e ↦ elim (Bool-cases (eqs r.status (codes "pending"))) [
    | inl s ↦ rw (e, s) refl
    | inr s ↦ rw (e, s) refl
  ]
  | inr e ↦ elim (Bool-cases (eqs r.status (codes "pending"))) [
    | inl s ↦ rw (e, s) refl
    | inr s ↦ rw (e, s) refl
  ]
]

module _ (id : ℕ) (email : Str) (t : ℕ) where
  pub update-executed :
      (rows : List ActionRow)
      → update_rows (is_pending id) (executed_row email t) rows ≡ map (executed_by id email t) rows
  unfolding update_rows
  update-executed [] = refl
  update-executed (r ∷ rows) =
      rw (is_pending_lem id r)
        (ap (λ (l : List ActionRow). executed_by id email t r ∷ l) (update-executed rows))

  pub update-failed :
      (text : Str) (rows : List ActionRow)
      → update_rows (is_pending id) (failed_row email text t) rows
        ≡ map (failed_by id email text t) rows
  unfolding update_rows null_str
  update-failed text [] = refl
  update-failed text (r ∷ rows) =
      rw (is_pending_lem id r)
        (ap (λ (l : List ActionRow). failed_by id email text t r ∷ l) (update-failed text rows))
