-- ===== src/Store/Calmly.antt =====
-- Calls that succeed while the database answers, and what they leave.
use mathlib.Core.Path.{subst}
use balvibot.Prelude.{◌≡◌, refl, sym, Bool, true, false, Option, List, [], ◌∷◌, Str, if◌then◌else◌}
use balvibot.Errors.{Error, Result, ok, err}
use balvibot.Store.Schema.{Db}
use balvibot.Store.Exec.{
  World, Exec, pure, settle, run, statement, select, roll_back, continue, branch, ◌>>=◌, or_else,
  now, context, ping, committed, transaction,
}

-- A value, with no outage ahead and tables of which `Q` holds.
abbrev pub Achieved : {A : Type 0} → (A → Db → Type 0) → Result A × World → Type 0
Achieved Q (ok a, w) = (w.outages ≡ []) × Q a w.db
Achieved Q (err e, w) = ⊥

-- With no outage ahead, and from tables of which `P` holds, the call succeeds.
pub record Calmly (P : Db → Type 0) {A : Type 0} (Q : A → Db → Type 0) (m : Exec A) : Type 0 where
  pub at : (w : World) → w.outages ≡ [] → P w.db → Achieved Q (m w)

module _ {A : Type 0} (Q : A → Db → Type 0) where
  settled :
      (w : World) (r : Result (A × Db)) (a : A) (db : Db)
      → w.outages ≡ []
      → r ≡ ok (a, db)
      → Q a db
      → Achieved Q (settle w r)
  settled w r a db c e q = subst (λ r. Achieved Q (settle w r)) (sym e) (c, q)

  ran :
      (f : Db → Result (A × Db)) (w : World) (o : List (Option Error)) (a : A) (db : Db)
      → o ≡ []
      → f w.db ≡ ok (a, db)
      → Q a db
      → Achieved Q (run f w o)
  ran f w [] a db c e q = settled (record w { outages = [] }) (f w.db) a db refl e q
  ran f w (x ∷ o) a db c e q = absurd (no_nil c)
    where
      no_nil : x ∷ o ≡ [] → ⊥
      no_nil h = cc

  rolled : (db : Db) (r : Result A × World) → Achieved Q r → Achieved Q (roll_back db r)
  rolled db (ok a, w) h = h
  rolled db (err e, w) h = h

module _ {A B : Type 0} (R : A → Db → Type 0) (Q : B → Db → Type 0) where
  continued :
      (k : A → Exec B) (r : Result A × World)
      → Achieved R r
      → ((a : A) → Calmly (R a) Q (k a))
      → Achieved Q (continue k r)
  continued k (ok a, w) (c, p) h = (h a).at w c p
  continued k (err e, w) p h = absurd p

  branched :
      (h : Error → Exec B) (k : A → Exec B) (r : Result A × World)
      → Achieved R r
      → ((a : A) → Calmly (R a) Q (k a))
      → Achieved Q (branch h k r)
  branched h k (ok a, w) (c, p) g = (g a).at w c p
  branched h k (err e, w) p g = absurd p

weakened :
    {A : Type 0} (R Q : A → Db → Type 0) (r : Result A × World)
    → Achieved R r
    → ((a : A) (db : Db) → R a db → Q a db)
    → Achieved Q r
weakened R Q (ok a, w) (c, p) h = (c, h a w.db p)
weakened R Q (err e, w) p h = absurd p

module _ {P : Db → Type 0} {A : Type 0} where
  pub Calmly-pure :
      (Q : A → Db → Type 0) (a : A) → ((db : Db) → P db → Q a db) → Calmly P Q (pure a)
  unfolding pure
  Calmly-pure Q a h = record { at = λ w c p. (c, h w.db p) }

  -- What holds before the call may be used to show what it does.
  pub Calmly-given :
      (Q : A → Db → Type 0) (m : Exec A) → ((db : Db) → P db → Calmly P Q m) → Calmly P Q m
  Calmly-given Q m h = record { at = λ w c p. (h w.db p).at w c p }

  pub Calmly-weaken :
      (R Q : A → Db → Type 0) (m : Exec A)
      → Calmly P R m
      → ((a : A) (db : Db) → R a db → Q a db)
      → Calmly P Q m
  Calmly-weaken R Q m g h = record { at = λ w c p. weakened R Q (m w) (g.at w c p) h }

  pub Calmly-from :
      (P' : Db → Type 0) (Q : A → Db → Type 0) (m : Exec A)
      → Calmly P' Q m
      → ((db : Db) → P db → P' db)
      → Calmly P Q m
  Calmly-from P' Q m g h = record { at = λ w c p. g.at w c (h w.db p) }

  pub Calmly-statement :
      (Q : A → Db → Type 0) (f : Db → Result (A × Db))
      → ((db : Db) → P db → (a : A) × (db' : Db) × (f db ≡ ok (a, db')) × Q a db')
      → Calmly P Q (statement f)
  unfolding statement
  Calmly-statement Q f h = record {
    at = λ w c p. let (a, db, e, q) = h w.db p in ran Q f w w.outages a db c e q;
  }

  pub Calmly-select :
      (Q : A → Db → Type 0) (f : Db → Result A)
      → ((db : Db) → P db → (a : A) × (f db ≡ ok a) × Q a db)
      → Calmly P Q (select f)
  unfolding select
  Calmly-select Q f h = Calmly-statement Q _ λ db p. let (a, e, q) = h db p in (a, db, rw e refl, q)

  pub Calmly-if :
      (Q : A → Db → Type 0) (test : Bool) (this that : Exec A)
      → (test ≡ true → Calmly P Q this)
      → (test ≡ false → Calmly P Q that)
      → Calmly P Q (if test then this else that)
  Calmly-if Q true this that k l = k refl
  Calmly-if Q false this that k l = l refl

module _ {P : Db → Type 0} where
  pub Calmly-ping : Calmly P (λ _. P) ping
  unfolding ping
  Calmly-ping = Calmly-statement _ _ (λ db p. (tt, db, refl, p))

  pub Calmly-now : Calmly P (λ _. P) now
  unfolding now
  Calmly-now = record { at = λ w c p. (c, p) }

module _ {P : Db → Type 0} {A B : Type 0} where
  pub Calmly-bind :
      (R : A → Db → Type 0) (Q : B → Db → Type 0) (m : Exec A) (k : A → Exec B)
      → Calmly P R m
      → ((a : A) → Calmly (R a) Q (k a))
      → Calmly P Q (m >>= k)
  unfolding ◌>>=◌
  Calmly-bind R Q m k g h = record { at = λ w c p. continued R Q k (m w) (g.at w c p) h }

  pub Calmly-or_else :
      (R : A → Db → Type 0) (Q : B → Db → Type 0) (m : Exec A) (h : Error → Exec B) (k : A → Exec B)
      → Calmly P R m
      → ((a : A) → Calmly (R a) Q (k a))
      → Calmly P Q (or_else m h k)
  unfolding or_else
  Calmly-or_else R Q m h k g gk = record { at = λ w c p. branched R Q h k (m w) (g.at w c p) gk }

module _ {P : Db → Type 0} {A : Type 0} where
  pub Calmly-context :
      (Q : A → Db → Type 0) (s : Str) (m : Exec A) → Calmly P Q m → Calmly P Q (context s m)
  unfolding context
  Calmly-context Q s m g = Calmly-or_else Q Q m _ pure g (λ a. Calmly-pure Q a (λ db q. q))

  pub Calmly-transaction :
      (Q : A → Db → Type 0) (m : Exec A) → Calmly P Q m → Calmly P Q (transaction m)
  unfolding transaction committed
  Calmly-transaction Q m g =
      let body : Calmly P Q (committed m) =
        Calmly-bind (λ _. P) Q ping _ Calmly-ping
          (λ _. Calmly-bind Q Q m _ g (λ a.
            Calmly-bind (λ _. Q a) Q ping _ Calmly-ping (λ _. Calmly-pure Q a (λ db q. q)))) in
      record { at = λ w c p. rolled Q w.db (committed m w) (body.at w c p) }
