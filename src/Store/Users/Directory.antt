-- ===== src/Store/Users/Directory.antt =====
-- The table of the operators as a directory from addresses to keys.
use balvibot.Prelude.{
  ℕ, ◌≡◌, refl, sym, ap, ◌∙◌, ◌⊎◌, inl, inr, Bool, true, false, not, Bool-cases, Option, none, some,
  List, [], ◌∷◌, ◌++◌, Str, eqs, eqs_iff, citext_eq, to_lower, any_row, find_row, update_rows,
  where_rows, find-removed, arith, if◌then◌else◌,
}
use balvibot.Store.Schema.{Db, UserRow}
use balvibot.Store.Exec.{Exec}
use balvibot.Store.Approvals.{upsert_approval_user, user_with_email, remove_approval_user}
use balvibot.Store.Users.{upserted, HasKey, found_after}

-- The key and the fingerprint that an address has.
abbrev pub Directory : Type 0
Directory = Str → Option (Str × Str)

-- A change of the operators.
pub data Change : Type 0 where
  put : Str → Str → Str → Change
  drop : Str → Change

-- What a change is to do; addresses are the same up to the case of their letters.
abbrev pub changed : Change → Directory → Directory
changed (put email key fp) d e = if citext_eq email e then some (key, fp) else d e
changed (drop email) d e = if citext_eq email e then none else d e

unfoldable pub apply_change : Change → Exec (Unit {0})
unfolding upsert_approval_user remove_approval_user
apply_change (put email key fp) = upsert_approval_user email key fp
apply_change (drop email) = remove_approval_user email

abbrev pub keys_of : Option UserRow → Option (Str × Str)
keys_of none = none
keys_of (some u) = some (u.ssh_public_key, u.fingerprint)

-- The directory that the table holds.
abbrev pub directory : Db → Directory
directory db e = keys_of (user_with_email e db)

module _ {A : Type 0} (key hit : A → Bool) (apart : (a : A) → key a ≡ true → hit a ≡ false) where
  find-where : (xs : List A) → find_row key (where_rows (λ a. not (hit a)) xs) ≡ find_row key xs
  unfolding find_row where_rows
  find-where [] = refl
  find-where (a ∷ xs) = ground (arith, apart a, find-where xs)

  find-others :
      (f : A → A) (xs : List A)
      → ((a : A) → key (f a) ≡ key a)
      → find_row key (update_rows hit f xs) ≡ find_row key xs
  unfolding find_row update_rows
  find-others f [] same = refl
  find-others f (a ∷ xs) same = ground (arith, apart a, same a, find-others f xs same)

module _ {A : Type 0} (key : A → Bool) (row : A) (other : key row ≡ false) where
  find-appended : (xs : List A) → find_row key (xs ++ row ∷ []) ≡ find_row key xs
  unfolding find_row
  find-appended [] = rw other refl
  find-appended (a ∷ xs) = ground (arith, find-appended xs)

same_user :
    (a b : Str) (db : Db) → citext_eq a b ≡ true → user_with_email b db ≡ user_with_email a db
unfolding user_with_email citext_eq
same_user a b db h =
    ap (λ l. find_row (λ u. eqs (to_lower u.email) l) db.users)
      (sym ((eqs_iff (to_lower a) (to_lower b)).0 h))

-- A row of one address is no row of another.
apart_rows :
    (a b : Str) (u : UserRow)
    → citext_eq a b ≡ false
    → citext_eq u.email b ≡ true
    → citext_eq u.email a ≡ false
unfolding citext_eq
apart_rows a b u differ h = cases (Bool-cases (eqs (to_lower u.email) (to_lower a)))
  where
    equal : eqs (to_lower u.email) (to_lower a) ≡ true → eqs (to_lower a) (to_lower b) ≡ true
    equal q = (eqs_iff (to_lower a) (to_lower b)).1 (
        sym ((eqs_iff (to_lower u.email) (to_lower a)).0 q)
        ∙ (eqs_iff (to_lower u.email) (to_lower b)).0 h)

    both : eqs (to_lower a) (to_lower b) ≡ true → ⊥
    both q = cc

    cases :
        (eqs (to_lower u.email) (to_lower a) ≡ true) ⊎ (eqs (to_lower u.email) (to_lower a) ≡ false)
        → eqs (to_lower u.email) (to_lower a) ≡ false
    cases (inl q) = absurd (both (equal q))
    cases (inr q) = q

module _ (email : Str) (db : Db) where
  abbrev pub without : Db
  without = record db { users = where_rows (λ u. not (citext_eq u.email email)) db.users }

  gone : user_with_email email without ≡ none
  unfolding user_with_email
  gone = find-removed (λ (u : UserRow). citext_eq u.email email) db.users

  pub directory-drop : (e : Str) → directory without e ≡ changed (drop email) (directory db) e
  directory-drop e = cases (Bool-cases (citext_eq email e))
    where
      cases :
          (citext_eq email e ≡ true) ⊎ (citext_eq email e ≡ false)
          → directory without e ≡ (if citext_eq email e then none else directory db e)
      cases (inl h) = rw h (ap keys_of (same_user email e without h ∙ gone))
      cases (inr h) = rw h (
          ap keys_of (
            unfold user_with_email in
            find-where (λ (u : UserRow). citext_eq u.email e) (λ u. citext_eq u.email email)
              (λ u q. apart_rows email e u h q) db.users))

module _ (email key fp : Str) (t : ℕ) (db : Db) where
  abbrev pub with_user : Db
  with_user = record db { users = upserted email key fp t db.users }

  other_address :
      (e : Str) → citext_eq email e ≡ false → user_with_email e with_user ≡ user_with_email e db
  unfolding user_with_email upserted
  other_address e h = cases (Bool-cases (any_row (λ u. citext_eq u.email email) db.users))
    where
      cases :
          (any_row (λ u. citext_eq u.email email) db.users ≡ true)
            ⊎ (any_row (λ u. citext_eq u.email email) db.users ≡ false)
          → find_row (λ u. citext_eq u.email e) (upserted email key fp t db.users)
            ≡ find_row (λ u. citext_eq u.email e) db.users
      cases (inl q) = rw q (
          find-others (λ (u : UserRow). citext_eq u.email e) (λ u. citext_eq u.email email)
            (λ u p. apart_rows email e u h p)
            (λ u. record u { ssh_public_key = key; fingerprint = fp }) db.users (λ u. refl))
      cases (inr q) = rw q (
          find-appended (λ (u : UserRow). citext_eq u.email e)
            (record { email = email; ssh_public_key = key; fingerprint = fp; created_at = t }) h
            db.users)

  there :
      (u : UserRow)
      → find_row (λ u. citext_eq u.email email) (upserted email key fp t db.users) ≡ some u
      → user_with_email email with_user ≡ some u
  unfolding user_with_email
  there u h = h

  pub directory-put :
      (e : Str) → directory with_user e ≡ changed (put email key fp) (directory db) e
  directory-put e = cases (Bool-cases (citext_eq email e)) (found_after email key fp t db.users)
    where
      cases :
          (citext_eq email e ≡ true) ⊎ (citext_eq email e ≡ false)
          → (u : UserRow) × (find_row
                (λ u. citext_eq u.email email)
                (upserted email key fp t db.users)
              ≡ some u)
            × HasKey key fp u
          → directory with_user e ≡ (if citext_eq email e then some (key, fp) else directory db e)
      cases (inl h) (u, found, (k, f)) =
          rw h (ap keys_of (same_user email e with_user h ∙ there u found) ∙ same_keys u k f)
        where
          same_keys :
              (u : UserRow)
              → u.ssh_public_key ≡ key
              → u.fingerprint ≡ fp
              → keys_of (some u) ≡ some (key, fp)
          same_keys u k f = cc
      cases (inr h) found = rw h (ap keys_of (other_address e h))
