-- ===== src/Store/Linked.antt =====
-- AddGranteeEmail of tools/api/internal/store/store.go: what it leaves behind.
use mathlib.Core.Path.{subst}
use balvibot.Prelude.{
  ◌≡◌, refl, ◌∙◌, ◌⊎◌, inl, inr, Bool, true, false, Bool-cases, not, ◌||◌, ◌&&◌, Option, none, some,
  List, [], ◌∷◌, ◌++◌, Str, citext_eq, citext_eq_refl, is_empty, to_lower, trim_space, find_row,
  update_rows, any_row, ◌==◌, if◌then◌else◌, All, All-from_IsIn, IsIn-All, All-update, find-append,
  none-find, codes,
}
use balvibot.Errors.{Result, ok, err, message}
use balvibot.Store.Schema.{Db, EmailRow, ThreadRow, MessageRow}
use balvibot.Store.Exec.{World, statement}
use balvibot.Store.Gives.{Gives, Gives-statement, Gives-bind, ok_pair}
use balvibot.Store.Grantees.{
  has_grantee, is_unassigned, is_for, foreign_key_violation, set_email, claim_threads,
  claim_messages, link_email, add_grantee_email,
}
use balvibot.Store.Atomic.{AllOrNothing, guarded-AllOrNothing}

abbrev IsAssigned : Option Str → Type 0
IsAssigned o = (g : Str) × (o ≡ some g)

-- The row of the address names the grantee.
abbrev pub HasLink : Str → Str → Db → Type 0
HasLink id address db =
    (e : EmailRow) × (find_row (λ (r : EmailRow). citext_eq r.email address) db.grantee_emails
      ≡ some e)
    × (e.grantee_id ≡ id)

abbrev comes_from : Str → List MessageRow → ThreadRow → Bool
comes_from address messages t =
    any_row (λ m. m.thread_id == t.id && citext_eq m.from_addr address) messages

-- A thread with a message from the address has a grantee.
abbrev pub ThreadsClaimed : Str → Db → Type 0
ThreadsClaimed address db =
    All (λ (t : ThreadRow). IsAssigned t.grantee_id ⊎ (comes_from address db.messages t ≡ false))
      db.threads

abbrev is_in_thread_of : Str → List ThreadRow → MessageRow → Bool
is_in_thread_of id threads m = any_row (λ t. t.id == m.thread_id && is_for id t.grantee_id) threads

-- A message in a thread of the grantee has a grantee.
abbrev pub MessagesClaimed : Str → Db → Type 0
MessagesClaimed id db =
    All (λ (m : MessageRow). IsAssigned m.grantee_id ⊎ (is_in_thread_of id db.threads m ≡ false))
      db.messages

abbrev pub Linked : Str → Str → Db → Type 0
Linked id address db = HasLink id address db × ThreadsClaimed address db × MessagesClaimed id db

any-update :
    {A : Type 0} (p hit : A → Bool) (f : A → A)
    → ((x : A) → p (f x) ≡ p x)
    → (xs : List A) → any_row p (update_rows hit f xs) ≡ any_row p xs
unfolding any_row update_rows
any-update p hit f same [] = refl
any-update p hit f same (x ∷ xs) = rw (any-update p hit f same xs) (row (hit x))
  where
    row :
        (b : Bool)
        → (if p (if b then f x else x) then true else any_row p xs)
          ≡ (if p x then true else any_row p xs)
    row true = rw (same x) refl
    row false = refl

IsAssigned-or :
    (o : Option Str) (b : Bool) → (is_unassigned o && b) ≡ false → IsAssigned o ⊎ (b ≡ false)
IsAssigned-or none b h = inr h
IsAssigned-or (some g) b h = inl (g, refl)

trivially : {A : Type 0} (xs : List A) → All (λ _. Unit {0}) xs
trivially [] = tt
trivially (x ∷ xs) = (tt, trivially xs)

module _ (id address : Str) where
  abbrev is_address : EmailRow → Bool
  is_address e = citext_eq e.email address

  abbrev relinked : EmailRow → EmailRow
  relinked e = record e { grantee_id = id }

  abbrev Found : List EmailRow → Type 0
  Found xs = (e : EmailRow) × (find_row is_address xs ≡ some e) × (e.grantee_id ≡ id)

  find-relinked :
      (xs : List EmailRow)
      → any_row is_address xs ≡ true
      → Found (update_rows is_address relinked xs)
  unfolding find_row any_row update_rows
  find-relinked [] h = absurd (false_true h)
    where
      false_true : Bool.false ≡ true → ⊥
      false_true h = cc
  find-relinked (x ∷ xs) h = elim (Bool-cases (is_address x)) [
    | inl e ↦ (relinked x, rw (e, e) refl, refl)
    | inr e ↦ let (r, found, same) = find-relinked xs (rw e at h) in (r, rw (e, e) found, same)
  ]

  set-HasLink :
      (xs : List EmailRow)
      → Found (
          if any_row is_address xs
          then update_rows is_address relinked xs
          else xs ++ record { email = address; grantee_id = id } ∷ [])
  unfolding find_row
  set-HasLink xs = elim (Bool-cases (any_row is_address xs)) [
    | inl e ↦ rw e (find-relinked xs e)
    | inr e ↦ rw e (
      record { email = address; grantee_id = id },
      find-append is_address xs _ (none-find is_address xs e) ∙ rw (citext_eq_refl address) refl,
      refl,
    )
  ]

  threads_claimed :
      (threads : List ThreadRow) (messages : List MessageRow)
      → All
          (λ (t : ThreadRow). IsAssigned t.grantee_id ⊎ (comes_from address messages t ≡ false))
          (update_rows
            (λ t. is_unassigned t.grantee_id && comes_from address messages t)
            (λ t. record t { grantee_id = some id })
            threads)
  threads_claimed threads messages =
      All-update (λ _. Unit {0}) _ _ _ threads (λ t _ e. inl (id, refl))
        (λ t _ e. IsAssigned-or t.grantee_id (comes_from address messages t) e) (trivially threads)

  messages_claimed :
      (threads : List ThreadRow) (messages : List MessageRow)
      → All
          (λ (m : MessageRow). IsAssigned m.grantee_id ⊎ (is_in_thread_of id threads m ≡ false))
          (update_rows
            (λ m. is_unassigned m.grantee_id && is_in_thread_of id threads m)
            (λ m. record m { grantee_id = some id })
            messages)
  messages_claimed threads messages =
      All-update (λ _. Unit {0}) _ _ _ messages (λ m _ e. inl (id, refl))
        (λ m _ e. IsAssigned-or m.grantee_id (is_in_thread_of id threads m) e) (trivially messages)

  still_claimed :
      (threads : List ThreadRow) (messages : List MessageRow) (hit : MessageRow → Bool)
      → All
          (λ (t : ThreadRow). IsAssigned t.grantee_id ⊎ (comes_from address messages t ≡ false))
          threads
      → All
          (λ (t : ThreadRow).
            IsAssigned t.grantee_id
            ⊎ (comes_from address
                  (update_rows hit (λ m. record m { grantee_id = some id }) messages)
                  t
                ≡ false))
          threads
  still_claimed threads messages hit all = All-from_IsIn _ threads λ t m.
      rw
        (any-update (λ (r : MessageRow). r.thread_id == t.id && citext_eq r.from_addr address) hit
          (λ r. record r { grantee_id = some id }) (λ r. refl) messages)
        (IsIn-All _ t threads all m)

  Gives-set_email : Gives (λ _. Unit) (λ _. HasLink id address) (statement (set_email id address))
  unfolding set_email
  Gives-set_email = Gives-statement _ _ λ db p a db' e. set_given db a db' (has_grantee id db) e
    where
      after : Db → Db
      after db = record db {
        grantee_emails =
            if any_row is_address db.grantee_emails
            then update_rows is_address relinked db.grantee_emails
            else db.grantee_emails ++ record { email = address; grantee_id = id } ∷ [];
      }

      set_given :
          (db : Db) (a : Unit {0}) (db' : Db) (b : Bool)
          → ◌≡◌ {A = Result (Unit {0} × Db)}
              (if not b then err foreign_key_violation else ok (tt, after db))
              (ok (a, db'))
          → HasLink id address db'
      set_given db a db' true e =
          subst (HasLink id address) (ok_pair tt a (after db) db' e).1
            (set-HasLink db.grantee_emails)
      set_given db a db' false e = absurd (no_ok e)
        where
          no_ok : ◌≡◌ {A = Result (Unit {0} × Db)} (err foreign_key_violation) (ok (a, db')) → ⊥
          no_ok e = cc

  Gives-claim_threads :
      Gives
        (HasLink id address)
        (λ _ db. HasLink id address db × ThreadsClaimed address db)
        (statement (claim_threads id address))
  unfolding claim_threads
  Gives-claim_threads = Gives-statement _ _ λ db p a db' e.
      subst (λ (d : Db). HasLink id address d × ThreadsClaimed address d) (ok_pair tt a _ db' e).1
        (p, threads_claimed db.threads db.messages)

  Gives-claim_messages :
      Gives
        (λ db. HasLink id address db × ThreadsClaimed address db)
        (λ _. Linked id address)
        (statement (claim_messages id))
  unfolding claim_messages
  Gives-claim_messages = Gives-statement _ _ λ db p a db' e.
      subst (Linked id address) (ok_pair tt a _ db' e).1
        (p.0, still_claimed db.threads db.messages _ p.1, messages_claimed db.threads db.messages)

  Gives-link : Gives (λ _. Unit) (λ _. Linked id address) (link_email id address)
  unfolding link_email
  Gives-link =
      Gives-bind (λ _. HasLink id address) _ (statement (set_email id address)) _ Gives-set_email
        λ _.
          Gives-bind (λ _ db. HasLink id address db × ThreadsClaimed address db) _
            (statement (claim_threads id address)) _ Gives-claim_threads (λ _. Gives-claim_messages)

-- AddGranteeEmail, whatever statements fail. Where it answers without an error, the address in lower
-- case and without space around it names the grantee, every thread with a message from it has a grantee,
-- and so has every message in a thread of this grantee. Where it answers an error, the tables are as they were, but for the counters of the ids.
pub add_grantee_email-AllOrNothing :
    (id email : Str) (w : World)
    → AllOrNothing
        (λ _. Linked id (to_lower (trim_space email)))
        w.db
        (add_grantee_email id email w)
unfolding add_grantee_email
add_grantee_email-AllOrNothing id email w =
    guarded-AllOrNothing _ (is_empty id || is_empty (to_lower (trim_space email)))
      (message (codes "grantee_id and email required"))
      (link_email id (to_lower (trim_space email))) w (Gives-link id (to_lower (trim_space email)))
