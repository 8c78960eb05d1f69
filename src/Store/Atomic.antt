-- ===== src/Store/Atomic.antt =====
-- The transactions of tools/api/internal/store/store.go: all of it or nothing.
use balvibot.Prelude.{◌≡◌, refl, Bool, true, false, if◌then◌else◌}
use balvibot.Errors.{Error, Result, ok, err}
use balvibot.Store.Schema.{Db}
use balvibot.Store.Exec.{World, Exec, fail, roll_back, rolled_to, committed, transaction}
use balvibot.Store.Gives.{Fits, Gives, Gives-transaction}

-- A call that succeeds leaves tables of which `Q` holds with its value, and one that fails leaves
-- the tables as they were, where the counters of the ids alone may have moved.
abbrev pub AllOrNothing : {A : Type 0} → (A → Db → Type 0) → Db → Result A × World → Type 0
AllOrNothing Q old (ok a, w) = Q a w.db
AllOrNothing Q old (err e, w) = w.db ≡ rolled_to old w.db

module _ {A : Type 0} (Q : A → Db → Type 0) where
  rolled_back :
      (old : Db) (r : Result A × World)
      → Fits Q (roll_back old r)
      → AllOrNothing Q old (roll_back old r)
  rolled_back old (ok a, w) q = q
  rolled_back old (err e, w) q = refl

  pub transaction-AllOrNothing :
      (m : Exec A) (w : World) → Gives (λ _. Unit) Q m → AllOrNothing Q w.db (transaction m w)
  unfolding transaction
  transaction-AllOrNothing m w g =
      rolled_back w.db (committed m w) ((Gives-transaction Q m g).at w tt)

  pub guarded-AllOrNothing :
      (b : Bool) (e : Error) (m : Exec A) (w : World)
      → Gives (λ _. Unit) Q m
      → AllOrNothing Q w.db ((if b then fail e else transaction m) w)
  unfolding fail
  guarded-AllOrNothing true e m w g = refl
  guarded-AllOrNothing false e m w g = transaction-AllOrNothing m w g
