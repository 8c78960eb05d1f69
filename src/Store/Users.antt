-- ===== src/Store/Users.antt =====
-- What the operators' table holds after tools/api/internal/store/approvals.go has changed it.
pub mod Directory
pub mod Refined
use balvibot.Prelude.{
  ℕ, ◌≡◌, refl, ap, ◌∙◌, true, false, not, ◌||◌, inl, inr, Bool-cases, some, List, [], ◌∷◌, ◌++◌,
  Str, is_empty, citext_eq, citext_eq_refl, any_row, find_row, update_rows, where_rows, count_rows,
  count-any, find-update, find-append, any-find, none-find, find-removed, find_row-holds,
  if◌then◌else◌,
}
use balvibot.Errors.{ok, err, not_found, no_rows, is_no_rows}
use balvibot.Store.Schema.{UserRow}
use balvibot.Store.Exec.{World, pure, fail, now, statement, select, ◌>>=◌}
use balvibot.Store.Reads.{
  calm, bind-ok, statement-calm, read_row_calm, or_else-err, select_err_calm,
}
use balvibot.Store.Approvals.{
  upsert_user, upsert_approval_user, user_with_email, get_approval_user, delete_user,
  remove_approval_user, require_one_row, missing, row_or_none,
}

-- The operators after UpsertApprovalUser.
unfoldable pub upserted : Str → Str → Str → ℕ → List UserRow → List UserRow
upserted email key fp t users =
    let hit = λ (u : UserRow). citext_eq u.email email in
    let row : UserRow = record {
      email = email;
      ssh_public_key = key;
      fingerprint = fp;
      created_at = t;
    } in
    if any_row hit users
    then update_rows hit (λ u. record u { ssh_public_key = key; fingerprint = fp }) users
    else users ++ row ∷ []

-- The row has this key.
abbrev pub HasKey : Str → Str → UserRow → Type 0
HasKey key fp u = (u.ssh_public_key ≡ key) × (u.fingerprint ≡ fp)

module _ (email key fp : Str) (t : ℕ) where
  pub found_after :
      (users : List UserRow)
      → (u : UserRow) × (find_row (λ u. citext_eq u.email email) (upserted email key fp t users)
          ≡ some u)
        × HasKey key fp u
  unfolding upserted
  found_after users = elim (Bool-cases (any_row (λ u. citext_eq u.email email) users)) [
    | inl h ↦
        let (u, q) = any-find (λ (u : UserRow). citext_eq u.email email) users h in
        (
          record u { ssh_public_key = key; fingerprint = fp },
          rw h (
              find-update (λ (u : UserRow). citext_eq u.email email) (λ u. citext_eq u.email email)
                (λ u. record u { ssh_public_key = key; fingerprint = fp }) users u (λ u. refl) q
              ∙ rw (find_row-holds (λ (u : UserRow). citext_eq u.email email) users u q) refl),
          (refl, refl),
        )
    | inr h ↦ (
      record { email = email; ssh_public_key = key; fingerprint = fp; created_at = t },
      rw h (
          find-append (λ (u : UserRow). citext_eq u.email email) users _
            (none-find (λ (u : UserRow). citext_eq u.email email) users h)
          ∙ unfold find_row in rw (citext_eq_refl email) refl),
      (refl, refl),
    )
  ]

module _ (email key fp : Str) (w : World)
    (given : (is_empty email || is_empty key || is_empty fp) ≡ false) where
  abbrev upserted_world : World
  upserted_world = record w {
    db = record w.db { users = upserted email key fp w.clock w.db.users };
  }

  upserts : upsert_approval_user email key fp (calm w) ≡ (ok tt, calm upserted_world)
  unfolding upsert_approval_user now ◌>>=◌
  upserts = rw given (
      statement-calm (upsert_user email key fp w.clock) w tt upserted_world.db
        (unfold upsert_user upserted in refl))

  -- UpsertApprovalUser of three texts that are not empty, while the database answers, and then
  -- GetApprovalUser of the address: it yields the key and the fingerprint just put, whether the
  -- operator was there before (with another key) or not.
  pub upsert_then_get :
      (u : UserRow) × ((upsert_approval_user email key fp >>= λ _. get_approval_user email) (calm w)
        ≡ (
          ok u,
          calm (record w { db = record w.db { users = upserted email key fp w.clock w.db.users } }),
        ))
      × HasKey key fp u
  unfolding get_approval_user pure
  upsert_then_get =
      let (u, q, k) = found_after email key fp w.clock w.db.users in
      (
        u,
        bind-ok (upsert_approval_user email key fp) (λ _. get_approval_user email) (calm w)
              (calm upserted_world) tt upserts
            ∙ read_row_calm (user_with_email email) missing pure upserted_world u
                (unfold user_with_email in q),
        k,
      )

module _ (email : Str) (w : World)
    (there : any_row (λ u. citext_eq u.email email) w.db.users ≡ true) where
  abbrev removed_world : World
  removed_world = record w {
    db = record w.db { users = where_rows (λ u. not (citext_eq u.email email)) w.db.users };
  }

  removes : remove_approval_user email (calm w) ≡ (ok tt, calm removed_world)
  unfolding remove_approval_user
  removes =
      bind-ok (statement (delete_user email)) require_one_row (calm w) (calm removed_world)
        (count_rows (λ u. citext_eq u.email email) w.db.users)
        (statement-calm (delete_user email) w _ removed_world.db (unfold delete_user in refl))
      ∙ unfold require_one_row pure in
        rw (count-any (λ u. citext_eq u.email email) w.db.users there) refl

  -- RemoveApprovalUser of an operator, while the database answers, and then GetApprovalUser of the
  -- address: there is no such operator.
  pub remove_then_get : (remove_approval_user email >>= λ _. get_approval_user email) (calm w) ≡ (
    err not_found,
    calm (record w {
      db = record w.db { users = where_rows (λ u. not (citext_eq u.email email)) w.db.users };
    }),
  )
  unfolding get_approval_user missing fail is_no_rows
  remove_then_get =
      bind-ok (remove_approval_user email) (λ _. get_approval_user email) (calm w)
        (calm removed_world) tt removes
      ∙ or_else-err (select λ db. row_or_none (user_with_email email db)) missing pure
          (calm removed_world) (calm removed_world) no_rows
          (select_err_calm (λ db. row_or_none (user_with_email email db)) removed_world no_rows
            (unfold user_with_email in
              ap row_or_none (find-removed (λ (u : UserRow). citext_eq u.email email) w.db.users)))
