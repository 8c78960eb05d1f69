-- ===== src/Store/Gives.antt =====
-- What holds of the tables after a call that returns a value.
use mathlib.Core.Path.{subst}
use balvibot.Prelude.{◌≡◌, refl, Option, none, some, List, [], ◌∷◌, Str}
use balvibot.Errors.{Error, Result, ok, err}
use balvibot.Store.Schema.{Db}
use balvibot.Store.Exec.{
  World, Exec, pure, fail, settle, run, statement, select, roll_back, continue, branch, ◌>>=◌,
  or_else, context, ping, committed, transaction,
}
use balvibot.Store.Keeps.{Keeps}

abbrev pub Fits : {A : Type 0} → (A → Db → Type 0) → Result A × World → Type 0
Fits Q (ok a, w) = Q a w.db
Fits Q (err e, w) = Unit

-- From tables of which `P` holds, the call leaves tables of which `Q` holds with its value.
pub record Gives (P : Db → Type 0) {A : Type 0} (Q : A → Db → Type 0) (m : Exec A) : Type 0 where
  pub at : (w : World) → P w.db → Fits Q (m w)

pub ok_pair :
    {A B : Type 0} (a a' : A) (b b' : B)
    → ◌≡◌ {A = Result (A × B)} (ok (a, b)) (ok (a', b'))
    → (a ≡ a') × (b ≡ b')
ok_pair a a' b b' e = (cc, cc)

ok-ne-err : {A : Type 0} (a : A) (x : Error) → err x ≡ ok a → ⊥
ok-ne-err a x e = cc

module _ {A : Type 0} where
  kept : (P : Db → Type 0) (r : Result A × World) → P r.1.db → Fits (λ _. P) r
  kept P (ok a, w) p = p
  kept P (err e, w) p = tt

  settled :
      (Q : A → Db → Type 0) (w : World) (r : Result (A × Db))
      → ((a : A) (db : Db) → r ≡ ok (a, db) → Q a db)
      → Fits Q (settle w r)
  settled Q w (ok (a, db)) h = h a db refl
  settled Q w (err e) h = tt

module _ {P : Db → Type 0} {A : Type 0} where
  pub Gives-pure : (Q : A → Db → Type 0) (a : A) → ((db : Db) → P db → Q a db) → Gives P Q (pure a)
  unfolding pure
  Gives-pure Q a h = record { at = λ w p. h w.db p }

  pub Gives-fail : (Q : A → Db → Type 0) (e : Error) → Gives P Q (fail e)
  unfolding fail
  Gives-fail Q e = record { at = λ w p. tt }

  pub Gives-Keeps : (m : Exec A) → Keeps P m → Gives P (λ _. P) m
  Gives-Keeps m k = record { at = λ w p. kept P (m w) (k.at w p) }

  pub Gives-statement :
      (Q : A → Db → Type 0) (f : Db → Result (A × Db))
      → ((db : Db) → P db → (a : A) (db' : Db) → f db ≡ ok (a, db') → Q a db')
      → Gives P Q (statement f)
  unfolding statement
  Gives-statement Q f h = record { at = λ w p. cases w w.outages p }
    where
      cases : (w : World) (o : List (Option Error)) → P w.db → Fits Q (run f w o)
      cases w [] p = settled Q _ (f w.db) (h w.db p)
      cases w (none ∷ rest) p = settled Q _ (f w.db) (h w.db p)
      cases w (some e ∷ rest) p = tt

  pub Gives-select :
      (Q : A → Db → Type 0) (f : Db → Result A)
      → ((db : Db) → P db → (a : A) → f db ≡ ok a → Q a db)
      → Gives P Q (select f)
  unfolding select
  Gives-select Q f h = Gives-statement Q _ (λ db p a db' e. read db p (f db) refl a db' e)
    where
      read :
          (db : Db)
          → P db
          → (r : Result A) → f db ≡ r
          → (a : A) (db' : Db)
          → elim r as (λ _. Result (A × Db)) [ ok a ↦ ok (a, db) | err e ↦ err e ] ≡ ok (a, db')
          → Q a db'
      read db p (ok b) q a db' e =
          let (ea, ed) = ok_pair b a db db' e in
          subst (Q a) ed (subst (λ x. Q x db) ea (h db p b q))
      read db p (err x) q a db' e = absurd (ok-ne-err (a, db') x e)

module _ {A B : Type 0} where
  continued :
      (R : A → Db → Type 0) (Q : B → Db → Type 0) (k : A → Exec B) (r : Result A × World)
      → Fits R r
      → ((a : A) → Gives (R a) Q (k a))
      → Fits Q (continue k r)
  continued R Q k (ok a, w) p h = (h a).at w p
  continued R Q k (err e, w) p h = tt

  branched :
      (R : A → Db → Type 0) (Q : B → Db → Type 0) (h : Error → Exec B) (k : A → Exec B)
      (r : Result A × World)
      → Fits R r
      → ((e : Error) → Gives (λ _. Unit) Q (h e))
      → ((a : A) → Gives (R a) Q (k a))
      → Fits Q (branch h k r)
  branched R Q h k (ok a, w) p gh gk = (gk a).at w p
  branched R Q h k (err e, w) p gh gk = (gh e).at w tt

module _ {P : Db → Type 0} {A B : Type 0} where
  pub Gives-bind :
      (R : A → Db → Type 0) (Q : B → Db → Type 0) (m : Exec A) (k : A → Exec B)
      → Gives P R m
      → ((a : A) → Gives (R a) Q (k a))
      → Gives P Q (m >>= k)
  unfolding ◌>>=◌
  Gives-bind R Q m k g h = record { at = λ w p. continued R Q k (m w) (g.at w p) h }

  pub Gives-or_else :
      (R : A → Db → Type 0) (Q : B → Db → Type 0) (m : Exec A) (h : Error → Exec B) (k : A → Exec B)
      → Gives P R m
      → ((e : Error) → Gives (λ _. Unit) Q (h e))
      → ((a : A) → Gives (R a) Q (k a))
      → Gives P Q (or_else m h k)
  unfolding or_else
  Gives-or_else R Q m h k g gh gk = record { at = λ w p. branched R Q h k (m w) (g.at w p) gh gk }

module _ {A : Type 0} where
  rolled :
      (Q : A → Db → Type 0) (db : Db) (r : Result A × World) → Fits Q r → Fits Q (roll_back db r)
  rolled Q db (ok a, w) q = q
  rolled Q db (err e, w) q = tt

Gives-ping : (R : Db → Type 0) → Gives R (λ _. R) ping
unfolding ping
Gives-ping R = Gives-statement _ _ (λ db r a db' e. subst R (ok_pair tt a db db' e).1 r)

module _ {P : Db → Type 0} {A : Type 0} where
  pub Gives-context :
      (Q : A → Db → Type 0) (s : Str) (m : Exec A) → Gives P Q m → Gives P Q (context s m)
  unfolding context
  Gives-context Q s m g =
      Gives-or_else Q Q m _ pure g (λ e. Gives-fail Q _) (λ a. Gives-pure Q a (λ db q. q))

  pub Gives-transaction :
      (Q : A → Db → Type 0) (m : Exec A) → Gives P Q m → Gives P Q (transaction m)
  unfolding transaction committed
  Gives-transaction Q m g = record {
    at = λ w p. rolled Q w.db (committed m w) (
        (Gives-bind (λ _. P) Q ping _ (Gives-ping P)
            (λ _. Gives-bind Q Q m _ g (λ a.
              Gives-bind (λ _. Q a) Q ping _ (Gives-ping (Q a))
                (λ _. Gives-pure Q a (λ db q. q))))).at
          w p);
  }

module _ {P : Db → Type 0} {A B : Type 0} where
  continue-given :
      (R : A → Type 0) (k : A → Exec B) (r : Result A × World)
      → P r.1.db
      → Fits (λ a db. R a) r
      → ((a : A) → R a → Keeps P (k a))
      → P (continue k r).1.db
  continue-given R k (ok a, w) p q h = (h a q).at w p
  continue-given R k (err e, w) p q h = p

  -- A chain keeps what its first call keeps, and its rest with a value of which `R` holds.
  pub Keeps-given :
      (R : A → Type 0) (m : Exec A) (k : A → Exec B)
      → Keeps P m
      → Gives P (λ a db. R a) m
      → ((a : A) → R a → Keeps P (k a))
      → Keeps P (m >>= k)
  unfolding ◌>>=◌
  Keeps-given R m k kept gives h = record {
    at = λ w p. continue-given R k (m w) (kept.at w p) (gives.at w p) h;
  }
