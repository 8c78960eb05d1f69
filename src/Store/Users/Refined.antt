-- ===== src/Store/Users/Refined.antt =====
-- The operators' table is the directory that the calls on it make.
use balvibot.Prelude.{
  ℕ, codes, ◌≡◌, refl, sym, ap, ◌∙◌, ◌⊎◌, inl, inr, Bool, true, false, not, ◌||◌, Bool-cases,
  Option, some, List, [], ◌∷◌, Str, is_empty, citext_eq, any_row, where_rows, count_rows, count-any,
  ◌==◌, arith, if◌then◌else◌,
}
use mathlib.Core.Path.{subst}
use balvibot.Errors.{Error, Result, ok, err, message, not_found}
use balvibot.Store.Schema.{Db, UserRow}
use balvibot.Store.Exec.{
  World, pure, fail, now, statement, statement_cases, settle, continue, ◌>>=◌,
}
use balvibot.Store.Approvals.{
  upsert_user, upsert_approval_user, delete_user, remove_approval_user, require_one_row,
}
use balvibot.Store.Users.{upserted}
use balvibot.Store.Users.Directory.{
  Directory, Change, put, drop, changed, apply_change, directory, without, directory-drop,
  with_user, directory-put,
}

-- After a call: its change is in the directory where it succeeded, and otherwise the directory is what it was.
abbrev pub After : Change → Directory → Result (Unit {0}) × World → Type 0
After c d (ok u, w) = (e : Str) → directory w.db e ≡ changed c d e
After c d (err x, w) = (e : Str) → directory w.db e ≡ d e

upsert_effect :
    (email key fp : Str) (t : ℕ) (db : Db)
    → upsert_user email key fp t db ≡ ok (tt, with_user email key fp t db)
unfolding upsert_user upserted
upsert_effect email key fp t db = refl

put-After :
    (email key fp : Str) (w : World)
    → After (put email key fp) (directory w.db) (apply_change (put email key fp) w)
unfolding apply_change upsert_approval_user now fail ◌>>=◌
put-After email key fp w =
    cases (is_empty email || is_empty key || is_empty fp)
      (statement_cases (upsert_user email key fp w.clock) w)
  where
    insert : World → Result (Unit {0}) × World
    insert = statement (upsert_user email key fp w.clock)

    cases :
        (b : Bool)
        → ((e : Error) × (rest : List (Option Error)) × (insert w
              ≡ (err e, record w { outages = rest })))
          ⊎ ((rest : List (Option Error)) × (insert w
                ≡ settle (record w { outages = rest }) (upsert_user email key fp w.clock w.db)))
        → After (put email key fp) (directory w.db) (
            (if b
                then fail (message (codes "email, public key, and fingerprint required"))
                else (now >>= λ t. statement (upsert_user email key fp t)))
              w)
    cases true h = λ e. refl
    cases false (inl (x, rest, q)) =
        subst (After (put email key fp) (directory w.db)) (sym q) (λ e. refl)
    cases false (inr (rest, q)) =
        subst (After (put email key fp) (directory w.db))
          (sym (
            q
            ∙ ap (settle (record w { outages = rest })) (upsert_effect email key fp w.clock w.db)))
          (directory-put email key fp w.clock w.db)

delete_effect :
    (email : Str) (db : Db)
    → delete_user email db
      ≡ ok (count_rows (λ u. citext_eq u.email email) db.users, without email db)
unfolding delete_user
delete_effect email db = refl

where_none :
    {A : Type 0} (hit : A → Bool) (xs : List A)
    → any_row hit xs ≡ false
    → where_rows (λ a. not (hit a)) xs ≡ xs
unfolding any_row where_rows
where_none hit [] h = refl
where_none hit (a ∷ xs) h = ground (arith, where_none hit xs)

module _ (email : Str) (w : World) where
  abbrev is_hit : UserRow → Bool
  is_hit u = citext_eq u.email email

  -- Where no row has the address, taking it away changes nothing.
  drop_none :
      (db : Db)
      → (count_rows is_hit db.users == 0) ≡ true
      → (e : Str) → directory (without email db) e ≡ directory db e
  drop_none db z e = cases (Bool-cases (any_row is_hit db.users))
    where
      both :
          (count_rows is_hit db.users == 0) ≡ true → (count_rows is_hit db.users == 0) ≡ false → ⊥
      both p q = cc

      cases :
          (any_row is_hit db.users ≡ true) ⊎ (any_row is_hit db.users ≡ false)
          → directory (without email db) e ≡ directory db e
      cases (inl q) = absurd (both z (count-any is_hit db.users q))
      cases (inr q) = ap (λ l. directory (record db { users = l }) e) (where_none is_hit db.users q)

  counted :
      (n : ℕ) (rest : List (Option Error))
      → n ≡ count_rows is_hit w.db.users
      → After
          (drop email)
          (directory w.db)
          (require_one_row n (record w { db = without email w.db; outages = rest }))
  unfolding require_one_row fail pure
  counted n rest q = cases (n == 0) refl
    where
      cases :
          (b : Bool)
          → (n == 0) ≡ b
          → After (drop email) (directory w.db) (
              (if b then fail not_found else pure tt)
                (record w { db = without email w.db; outages = rest }))
      cases true z = drop_none w.db (ap (λ k. k == 0) (sym q) ∙ z)
      cases false z = directory-drop email w.db

  drop-After : After (drop email) (directory w.db) (apply_change (drop email) w)
  unfolding apply_change remove_approval_user ◌>>=◌
  drop-After = cases (statement_cases (delete_user email) w)
    where
      cases :
          ((e : Error) × (rest : List (Option Error)) × (statement (delete_user email) w
                ≡ (err e, record w { outages = rest })))
            ⊎ ((rest : List (Option Error)) × (statement (delete_user email) w
                  ≡ settle (record w { outages = rest }) (delete_user email w.db)))
          → After
              (drop email)
              (directory w.db)
              (continue require_one_row (statement (delete_user email) w))
      cases (inl (e, rest, q)) =
          subst (λ r. After (drop email) (directory w.db) (continue require_one_row r)) (sym q)
            (λ e. refl)
      cases (inr (rest, q)) =
          subst (λ r. After (drop email) (directory w.db) (continue require_one_row r))
            (sym (q ∙ ap (settle (record w { outages = rest })) (delete_effect email w.db)))
            (counted (count_rows is_hit w.db.users) rest refl)

effect : (c : Change) (w : World) → After c (directory w.db) (apply_change c w)
effect (put email key fp) w = put-After email key fp w
effect (drop email) w = drop-After email w

abbrev pub succeeded : Change → Result (Unit {0}) → List Change → List Change
succeeded c (ok u) done = c ∷ done
succeeded c (err e) done = done

-- The changes one after the other, errors passed over, with those that succeeded.
unfoldable pub apply_all : List Change → World → List Change × World
unfolding apply_change
apply_all [] w = ([], w)
apply_all (c ∷ cs) w =
    let (done, w') = apply_all cs (apply_change c w).1 in
    (succeeded c (apply_change c w).0 done, w')

-- The directory after changes that all succeed.
abbrev pub replay : List Change → Directory → Directory
replay [] d = d
replay (c ∷ cs) d = replay cs (changed c d)

changed_same :
    (c : Change) (d d' : Directory)
    → ((e : Str) → d e ≡ d' e)
    → (e : Str) → changed c d e ≡ changed c d' e
changed_same (put email key fp) d d' h e = cases (citext_eq email e)
  where
    cases : (b : Bool) → (if b then some (key, fp) else d e) ≡ (if b then some (key, fp) else d' e)
    cases true = refl
    cases false = h e
changed_same (drop email) d d' h e = cases (citext_eq email e)
  where
    cases : (b : Bool) → (if b then Option.none else d e) ≡ (if b then Option.none else d' e)
    cases true = refl
    cases false = h e

replay_same :
    (cs : List Change) (d d' : Directory)
    → ((e : Str) → d e ≡ d' e)
    → (e : Str) → replay cs d e ≡ replay cs d' e
replay_same [] d d' h = h
replay_same (c ∷ cs) d d' h = replay_same cs (changed c d) (changed c d') (changed_same c d d' h)

-- After any changes of the operators, of which some fail, the table holds the directory that the
-- changes that succeeded make of the one before: each address, in whatever case its letters are, has the
-- key and the fingerprint that were put last for it, none where it was taken away last, and otherwise what it
-- had before.
pub operators_refine :
    (cs : List Change) (w : World) (e : Str)
    → directory (apply_all cs w).1.db e ≡ replay (apply_all cs w).0 (directory w.db) e
unfolding apply_all
operators_refine [] w e = refl
operators_refine (c ∷ cs) w e =
    step (apply_change c w) (effect c w) (operators_refine cs (apply_change c w).1 e)
  where
    step :
        (r : Result (Unit {0}) × World)
        → After c (directory w.db) r
        → directory (apply_all cs r.1).1.db e ≡ replay (apply_all cs r.1).0 (directory r.1.db) e
        → directory (apply_all cs r.1).1.db e
          ≡ replay (succeeded c r.0 (apply_all cs r.1).0) (directory w.db) e
    step (ok u, w') h ih =
        ih ∙ replay_same (apply_all cs w').0 (directory w'.db) (changed c (directory w.db)) h e
    step (err x, w') h ih =
        ih ∙ replay_same (apply_all cs w').0 (directory w'.db) (directory w.db) h e
