-- ===== src/Store/Keeps.antt =====
-- What a chain of calls keeps: one rule for each way to build an `Exec`. A relation `R a` to a
-- database `a` is such a property too.
use balvibot.Prelude.{
  ◌≡◌, refl, Bool, true, false, List, [], ◌∷◌, Option, none, some, if◌then◌else◌, Str,
}
use balvibot.Errors.{Error, Result, ok, err}
use balvibot.Store.Schema.{Db}
use balvibot.Store.Exec.{
  World, Exec, pure, fail, lift, attempt, settle, run, statement, select, roll_back, rolled_to,
  continue, branch, ◌>>=◌, or_else, context, now, ping, committed, transaction,
}

pub record Keeps (P : Db → Type 0) {A : Type 0} (m : Exec A) : Type 0 where
  pub at : (w : World) → P w.db → P (m w).1.db

-- `P` holds of the tables that a statement leaves.
abbrev pub Leaves : {A : Type 0} → (Db → Type 0) → Result (A × Db) → Type 0
Leaves P (ok (a, db)) = P db
Leaves P (err e) = Unit

read-Leaves :
    {A : Type 0} (P : Db → Type 0) (db : Db) (r : Result A)
    → P db
    → Leaves P (elim r as (λ _. Result (A × Db)) [ ok a ↦ ok (a, db) | err e ↦ err e ])
read-Leaves P db (ok a) h = h
read-Leaves P db (err e) h = tt

roll_back-keeps :
    {A : Type 0} (P : Db → Type 0) (db : Db) (r : Result A × World)
    → ((new : Db) → P (rolled_to db new))
    → P r.1.db
    → P (roll_back db r).1.db
roll_back-keeps P db (ok a, w) h k = k
roll_back-keeps P db (err e, w) h k = h w.db

module _ {A : Type 0} (P : Db → Type 0) where
  settle-keeps : (w : World) (r : Result (A × Db)) → P w.db → Leaves P r → P (settle w r).1.db
  settle-keeps w (ok (a, db)) h k = k
  settle-keeps w (err e) h k = h

  run-keeps :
      (f : Db → Result (A × Db)) (w : World) (o : List (Option Error))
      → P w.db
      → Leaves P (f w.db)
      → P (run f w o).1.db
  run-keeps f w [] h k = settle-keeps _ (f w.db) h k
  run-keeps f w (none ∷ rest) h k = settle-keeps _ (f w.db) h k
  run-keeps f w (some e ∷ rest) h k = h

module _ {P : Db → Type 0} {A : Type 0} where
  pub Keeps-pure : (value : A) → Keeps P (pure value)
  unfolding pure
  Keeps-pure value = record { at = λ _ kept. kept }

  pub Keeps-fail : (e : Error) → Keeps P (fail {A = A} e)
  unfolding fail
  Keeps-fail e = record { at = λ w h. h }

  pub Keeps-lift : (r : Result A) → Keeps P (lift r)
  unfolding lift
  Keeps-lift r = record { at = λ w h. h }

  pub Keeps-attempt : (m : Exec A) → Keeps P m → Keeps P (attempt m)
  unfolding attempt
  Keeps-attempt m k = record { at = λ w h. k.at w h }

  -- A statement keeps what its effect on the tables keeps.
  pub Keeps-statement :
      (f : Db → Result (A × Db)) → ((db : Db) → P db → Leaves P (f db)) → Keeps P (statement f)
  unfolding statement
  Keeps-statement f k = record { at = λ w h. run-keeps P f w w.outages h (k w.db h) }

module _ {P : Db → Type 0} {A B : Type 0} where
  branch-keeps :
      (h : Error → Exec B) (k : A → Exec B) (r : Result A × World)
      → ((e : Error) → Keeps P (h e))
      → ((a : A) → r.0 ≡ ok a → Keeps P (k a))
      → P r.1.db
      → P (branch h k r).1.db
  branch-keeps h k (ok a, w) kh kk p = (kk a refl).at w p
  branch-keeps h k (err e, w) kh kk p = (kh e).at w p

  pub Keeps-or_else :
      (m : Exec A) (h : Error → Exec B) (k : A → Exec B)
      → Keeps P m
      → ((e : Error) → Keeps P (h e))
      → ((a : A) → Keeps P (k a))
      → Keeps P (or_else m h k)
  unfolding or_else
  Keeps-or_else m h k km kh kk = record {
    at = λ w p. branch-keeps h k (m w) kh (λ a _. kk a) (km.at w p);
  }

  continue-keeps :
      (k : A → Exec B) (r : Result A × World)
      → ((a : A) → Keeps P (k a))
      → P r.1.db
      → P (continue k r).1.db
  continue-keeps k (ok a, w) kk p = (kk a).at w p
  continue-keeps k (err e, w) kk p = p

  pub Keeps-bind :
      (m : Exec A) (k : A → Exec B) → Keeps P m → ((a : A) → Keeps P (k a)) → Keeps P (m >>= k)
  unfolding ◌>>=◌
  Keeps-bind m k km kk = record { at = λ w p. continue-keeps k (m w) kk (km.at w p) }

-- A test on values that the calls before have read; each branch may use its outcome.
pub Keeps-if :
    {P : Db → Type 0} {A : Type 0} (test : Bool) (this that : Exec A)
    → (test ≡ true → Keeps P this)
    → (test ≡ false → Keeps P that)
    → Keeps P (if test then this else that)
Keeps-if true this that k l = k refl
Keeps-if false this that k l = l refl

module _ {P : Db → Type 0} where
  pub Keeps-ping : Keeps P ping
  unfolding ping
  Keeps-ping = Keeps-statement (λ db. ok (tt, db)) (λ db h. h)

  pub Keeps-now : Keeps P now
  unfolding now
  Keeps-now = record { at = λ w h. h }

  pub Keeps-select : {A : Type 0} (f : Db → Result A) → Keeps P (select f)
  unfolding select
  Keeps-select f = Keeps-statement _ (λ db h. read-Leaves P db (f db) h)

  pub Keeps-context : {A : Type 0} (s : Str) (m : Exec A) → Keeps P m → Keeps P (context s m)
  unfolding context
  Keeps-context s m k = Keeps-or_else m _ pure k (λ e. Keeps-fail _) Keeps-pure

  Keeps-committed : {A : Type 0} (m : Exec A) → Keeps P m → Keeps P (committed m)
  unfolding committed
  Keeps-committed m k =
      Keeps-bind ping _ Keeps-ping
        λ _. Keeps-bind m _ k λ a. Keeps-bind ping _ Keeps-ping λ _. Keeps-pure a

  -- Of what does not depend on the counters of the ids.
  pub Keeps-transaction :
      {A : Type 0} (m : Exec A)
      → ((old new : Db) → P old → P (rolled_to old new))
      → Keeps P m
      → Keeps P (transaction m)
  unfolding transaction
  Keeps-transaction m stays k = record {
    at = λ w h.
        roll_back-keeps P w.db (committed m w) (λ new. stays w.db new h)
          ((Keeps-committed m k).at w h);
  }
