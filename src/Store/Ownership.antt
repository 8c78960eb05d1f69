-- ===== src/Store/Ownership.antt =====
-- A thread or message that has a grantee keeps it: AddGranteeEmail and SetThreadGrantee of
-- tools/api/internal/store/store.go claim only what is unassigned.
use balvibot.Prelude.{
  ℕ, ◌≡◌, refl, sym, ◌∙◌, inl, inr, Bool, true, false, Bool-cases, not, ◌||◌, ◌&&◌, Option, none,
  some, List, [], ◌∷◌, Str, is_empty, to_lower, trim_space, update_rows, any_row, ◌==◌,
  if◌then◌else◌,
}
use balvibot.Errors.{Result, ok, err}
use balvibot.Store.Schema.{Db, ThreadRow, MessageRow}
use balvibot.Store.Exec.{World, statement}
use balvibot.Store.Keeps.{
  Keeps, Leaves, Keeps-fail, Keeps-if, Keeps-bind, Keeps-statement, Keeps-transaction,
}
use balvibot.Store.Grantees.{
  foreign_key_violation, is_unassigned, has_grantee, set_email, claim_threads, claim_messages,
  link_email, add_grantee_email,
}
use balvibot.Store.Threads.{claim_thread, claim_thread_messages, assign_thread, set_thread_grantee}

some_is_not_none : (id : Str) → ¬ (Option.some id ≡ none)
some_is_not_none id h = cc

-- The rows in their order, where each is as it was, or it had no grantee and has now `id`.
module _ {Row : Type 0} (grantee : Row → Option Str) (assign : Option Str → Row → Row) where
  pub data Claims (id : Str) : List Row → List Row → Type 0 where
    nothing : Claims id [] []
    same : (r : Row) (rs rs' : List Row) → Claims id rs rs' → Claims id (r ∷ rs) (r ∷ rs')
    claimed :
        (r : Row) (rs rs' : List Row)
        → grantee r ≡ none
        → Claims id rs rs'
        → Claims id (r ∷ rs) (assign (some id) r ∷ rs')

  pub Claims-refl : (id : Str) (rs : List Row) → Claims id rs rs
  Claims-refl id [] = nothing
  Claims-refl id (r ∷ rs) = same r rs rs (Claims-refl id rs)

  module _ (id : Str) (p : Row → Bool) (free : (r : Row) → p r ≡ true → grantee r ≡ none)
      (assigned : (r : Row) → grantee (assign (some id) r) ≡ some id) where
    update_row :
        (r : Row) (rs rs' : List Row) (b : Bool)
        → p r ≡ b
        → Claims id rs rs'
        → Claims id (r ∷ rs) ((if b then assign (some id) r else r) ∷ rs')
    update_row r rs rs' true e c = claimed r rs rs' (free r e) c
    update_row r rs rs' false e c = same r rs rs' c

    not_again : (r : Row) → p (assign (some id) r) ≡ false
    not_again r = elim (Bool-cases (p (assign (some id) r))) [
      | inr e ↦ e
      | inl e ↦ absurd (some_is_not_none id (sym (assigned r) ∙ free (assign (some id) r) e))
    ]

    pub Claims-update :
        (old rs : List Row) → Claims id old rs → Claims id old (update_rows p (assign (some id)) rs)
    unfolding update_rows
    Claims-update _ _ nothing = nothing
    Claims-update _ _ (same r rs rs' c) =
        update_row r rs (update_rows p (assign (some id)) rs') (p r) refl (Claims-update rs rs' c)
    Claims-update _ _ (claimed r rs rs' e c) =
        rw (not_again r)
          (claimed r rs (update_rows p (assign (some id)) rs') e (Claims-update rs rs' c))

abbrev pub with_thread_grantee : Option Str → ThreadRow → ThreadRow
with_thread_grantee o t = record t { grantee_id = o }

abbrev pub with_message_grantee : Option Str → MessageRow → MessageRow
with_message_grantee o m = record m { grantee_id = o }

-- Threads and messages between two states of the tables.
abbrev pub ClaimedBy : Str → Db → Db → Type 0
ClaimedBy id old db =
    Claims (λ (t : ThreadRow). t.grantee_id) with_thread_grantee id old.threads db.threads
    × Claims (λ (m : MessageRow). m.grantee_id) with_message_grantee id old.messages db.messages

first_holds : (a b : Bool) → (a && b) ≡ true → a ≡ true
first_holds true b h = refl
first_holds false b h = cc

second_holds : (a b : Bool) → (a && b) ≡ true → b ≡ true
second_holds true b h = h
second_holds false b h = cc

is_free : (o : Option Str) → is_unassigned o ≡ true → o ≡ none
is_free none h = refl
is_free (some g) h = cc

Leaves-if :
    {A : Type 0} (P : Db → Type 0) (b : Bool) (r s : Result (A × Db))
    → Leaves P r
    → Leaves P s
    → Leaves P (if b then r else s)
Leaves-if P true r s p q = p
Leaves-if P false r s p q = q

module _ (id : Str) (old : Db) where
  Keeps-link : (email : Str) → Keeps (ClaimedBy id old) (link_email id email)
  unfolding link_email set_email claim_threads claim_messages
  Keeps-link email =
      Keeps-bind (statement (set_email id email)) _
        (Keeps-statement (set_email id email)
          λ db q. Leaves-if (ClaimedBy id old) (not (has_grantee id db)) _ _ tt q)
        λ _.
          Keeps-bind (statement (claim_threads id email)) _
            (Keeps-statement (claim_threads id email) λ db q. (
              Claims-update (λ (t : ThreadRow). t.grantee_id) with_thread_grantee id _
                  (λ r h. is_free r.grantee_id (first_holds _ _ h)) (λ r. refl) old.threads
                  db.threads q.0,
              q.1,
            ))
            λ _. Keeps-statement (claim_messages id) λ db q. (
              q.0,
              Claims-update (λ (m : MessageRow). m.grantee_id) with_message_grantee id _
                  (λ r h. is_free r.grantee_id (first_holds _ _ h)) (λ r. refl) old.messages
                  db.messages q.1,
            )

  Keeps-assign : (thread : ℕ) → Keeps (ClaimedBy id old) (assign_thread thread id)
  unfolding assign_thread claim_thread claim_thread_messages
  Keeps-assign thread =
      Keeps-bind (statement (claim_thread thread id)) _
        (Keeps-statement (claim_thread thread id) λ db q.
          Leaves-if (ClaimedBy id old) (has_grantee id db) _ _
            (
              Claims-update (λ (t : ThreadRow). t.grantee_id) with_thread_grantee id _
                  (λ r h. is_free r.grantee_id (second_holds _ _ h)) (λ r. refl) old.threads
                  db.threads q.0,
              q.1,
            )
            (Leaves-if {A = Unit {0}} (ClaimedBy id old)
              (any_row (λ (t : ThreadRow). t.id == thread && is_unassigned t.grantee_id) db.threads)
              (err foreign_key_violation) (ok (tt, db)) tt q))
        λ _. Keeps-statement (claim_thread_messages thread id) λ db q.
          Leaves-if (ClaimedBy id old) (has_grantee id db) _ _
            (
              q.0,
              Claims-update (λ (m : MessageRow). m.grantee_id) with_message_grantee id _
                  (λ r h. is_free r.grantee_id (second_holds _ _ h)) (λ r. refl) old.messages
                  db.messages q.1,
            )
            (Leaves-if {A = Unit {0}} (ClaimedBy id old)
              (any_row (λ (m : MessageRow). m.thread_id == thread && is_unassigned m.grantee_id)
                db.messages)
              (err foreign_key_violation) (ok (tt, db)) tt q)

-- AddGranteeEmail, whatever statements fail: every thread and message keeps its place and its
-- contents, and its grantee if it had one; where it had none it may get the one that is named.
pub add_grantee_email-Claims :
    (id email : Str) (w : World) → ClaimedBy id w.db (add_grantee_email id email w).1.db
unfolding add_grantee_email
add_grantee_email-Claims id email w =
    (Keeps-if (is_empty id || is_empty (to_lower (trim_space email))) _ _ (λ _. Keeps-fail _)
        λ _.
          Keeps-transaction (link_email id (to_lower (trim_space email))) (λ _ _ h. h)
            (Keeps-link id w.db _)).at
      w (Claims-refl _ _ id w.db.threads, Claims-refl _ _ id w.db.messages)

-- SetThreadGrantee, whatever statements fail: every thread and message keeps its place and its
-- contents, and its grantee if it had one; where it had none it may get the one that is named.
pub set_thread_grantee-Claims :
    (thread : ℕ) (id : Str) (w : World) → ClaimedBy id w.db (set_thread_grantee thread id w).1.db
unfolding set_thread_grantee
set_thread_grantee-Claims thread id w =
    (Keeps-transaction (assign_thread thread id) (λ _ _ h. h) (Keeps-assign id w.db thread)).at w
      (Claims-refl _ _ id w.db.threads, Claims-refl _ _ id w.db.messages)
