-- ===== src/Store/Returns.antt =====
-- Calls that return a value whatever statements fail, and what holds of it.

use balvibot.Prelude.{◌≡◌, refl, Bool, true, false, if◌then◌else◌}
use balvibot.Errors.{Error, Result, ok, err}
use balvibot.Store.Exec.{World, Exec, pure, or_else, branch, continue, ◌>>=◌}

-- The result is a value of which `Q` holds.
abbrev pub IsOk : {A : Type 0} → (A → Type 0) → Result A → Type 0
IsOk Q (ok a) = Q a
IsOk Q (err e) = ⊥

pub record Returns {A : Type 0} (Q : A → Type 0) (m : Exec A) : Type 0 where
  pub at : (w : World) → IsOk Q (m w).0

module _ {A : Type 0} {Q : A → Type 0} where
  pub Returns-pure : (a : A) → Q a → Returns Q (pure a)
  unfolding pure
  Returns-pure a q = record { at = λ w. q }

  pub Returns-if :
      (test : Bool) (this that : Exec A)
      → (test ≡ true → Returns Q this)
      → (test ≡ false → Returns Q that)
      → Returns Q (if test then this else that)
  Returns-if true this that k l = k refl
  Returns-if false this that k l = l refl

module _ {A B : Type 0} {Q : B → Type 0} where
  branch-IsOk :
      (h : Error → Exec B) (k : A → Exec B) (r : Result A × World)
      → ((e : Error) → Returns Q (h e))
      → ((a : A) → Returns Q (k a))
      → IsOk Q (branch h k r).0
  branch-IsOk h k (ok a, w) rh rk = (rk a).at w
  branch-IsOk h k (err e, w) rh rk = (rh e).at w

  pub Returns-or_else :
      (m : Exec A) (h : Error → Exec B) (k : A → Exec B)
      → ((e : Error) → Returns Q (h e))
      → ((a : A) → Returns Q (k a))
      → Returns Q (or_else m h k)
  unfolding or_else
  Returns-or_else m h k rh rk = record { at = λ w. branch-IsOk h k (m w) rh rk }

  continue-IsOk :
      (P : A → Type 0) (k : A → Exec B) (r : Result A × World)
      → IsOk P r.0
      → ((a : A) → P a → Returns Q (k a))
      → IsOk Q (continue k r).0
  continue-IsOk P k (ok a, w) p rk = (rk a p).at w
  continue-IsOk P k (err e, w) p rk = absurd p

  pub Returns-bind :
      (P : A → Type 0) (m : Exec A) (k : A → Exec B)
      → Returns P m
      → ((a : A) → P a → Returns Q (k a))
      → Returns Q (m >>= k)
  unfolding ◌>>=◌
  Returns-bind P m k r rk = record { at = λ w. continue-IsOk P k (m w) (r.at w) rk }
