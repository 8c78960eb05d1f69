-- ===== src/Store/Reads.antt =====
-- What comes of a read: an error, or what stands in the tables, which stay as they are.
use mathlib.Core.Path.{subst}
use balvibot.Prelude.{
  sym, ◌≡◌, refl, ◌⊎◌, inl, inr, ◌∙◌, Option, none, some, List, [], ◌∷◌, ap, Bool-cases,
}
use balvibot.Errors.{Error, Result, ok, err, not_found, is_no_rows}
use balvibot.Store.Schema.{Db}
use balvibot.Store.Exec.{
  World, Exec, pure, fail, settle, branch, statement, select, or_else, ◌>>=◌, continue,
}
use balvibot.Store.Keeps.{Keeps}
use balvibot.Store.Approvals.{row_or_none, missing}

-- The world after one more statement.
abbrev pub spent : World → List (Option Error) → World
spent w rest = record w { outages = rest }

-- A call that reads: it fails, or it returns a value of which `P` holds; the tables stay.
abbrev pub Reads : {A : Type 0} → (A → Type 0) → World → Result A × World → Type 0
Reads {A} P w r =
    ((e : Error) × (rest : List (Option Error)) × (r ≡ (err e, spent w rest)))
    ⊎ ((a : A) × (rest : List (Option Error)) × P a × (r ≡ (ok a, spent w rest)))

module _ {A : Type 0} (f : Db → Result A) where
  settled :
      (w : World) (rest : List (Option Error)) (r : Result A) (q : Result (A × Db))
      → f w.db ≡ r
      → q ≡ elim r as (λ _. Result (A × Db)) [ ok a ↦ ok (a, w.db) | err e ↦ err e ]
      → Reads (λ a. f w.db ≡ ok a) w (settle (spent w rest) q)
  settled w rest (ok a) q h e = inr (a, rest, h, rw e)
  settled w rest (err x) q h e = inl (x, rest, rw e)

  cases :
      (w : World) (o : List (Option Error))
      → w.outages ≡ o
      → Reads (λ a. f w.db ≡ ok a) w (select f w)
  unfolding select
  cases w [] h = rw h (settled w [] (f w.db) _ refl refl)
  cases w (none ∷ rest) h = rw h (settled w rest (f w.db) _ refl refl)
  cases w (some e ∷ rest) h = inl (e, rest, rw h)

  pub select_cases : (w : World) → Reads (λ a. f w.db ≡ ok a) w (select f w)
  select_cases w = cases w w.outages refl

pub or_else-ok :
    {A B : Type 0} (m : Exec A) (h : Error → Exec B) (k : A → Exec B) (w w' : World) (a : A)
    → m w ≡ (ok a, w')
    → or_else m h k w ≡ k a w'
unfolding or_else
or_else-ok m h k w w' a e = ap (branch h k) e

pub or_else-err :
    {A B : Type 0} (m : Exec A) (h : Error → Exec B) (k : A → Exec B) (w w' : World) (x : Error)
    → m w ≡ (err x, w')
    → or_else m h k w ≡ h x w'
unfolding or_else
or_else-err m h k w w' x e = ap (branch h k) e

pub bind-ok :
    {A B : Type 0} (m : Exec A) (k : A → Exec B) (w w' : World) (a : A)
    → m w ≡ (ok a, w')
    → (m >>= k) w ≡ k a w'
unfolding ◌>>=◌
bind-ok m k w w' a e = ap (continue k) e

pub bind-err :
    {A B : Type 0} (m : Exec A) (k : A → Exec B) (w w' : World) (x : Error)
    → m w ≡ (err x, w')
    → (m >>= k) w ≡ (err x, w')
unfolding ◌>>=◌
bind-err m k w w' x e = ap (continue k) e

module _ {A B : Type 0} (P : A → Type 0) (Q : B → Type 0) (m : Exec A) (w : World) where
  -- A read whose outcome is looked at by two reads.
  pub Reads-or_else :
      (h : Error → Exec B) (k : A → Exec B)
      → Reads P w (m w)
      → ((e : Error) (rest : List (Option Error)) → Reads Q w (h e (spent w rest)))
      → ((a : A) (rest : List (Option Error)) → P a → Reads Q w (k a (spent w rest)))
      → Reads Q w (or_else m h k w)
  Reads-or_else h k (inl (e, rest, q)) rh rk =
      subst (Reads Q w) (sym (or_else-err m h k w (spent w rest) e q)) (rh e rest)
  Reads-or_else h k (inr (a, rest, p, q)) rh rk =
      subst (Reads Q w) (sym (or_else-ok m h k w (spent w rest) a q)) (rk a rest p)

missing_lem :
    {A : Type 0} (e : Error) (w : World) → (e' : Error) × (missing {A = A} e w ≡ (err e', w))
unfolding missing fail
missing_lem e w = elim (Bool-cases (is_no_rows e)) [ inl h ↦ (not_found, rw h) | inr h ↦ (e, rw h) ]

pub row_found : {A : Type 0} (o : Option A) (r : A) → row_or_none o ≡ ok r → o ≡ some r
row_found none r h = cc
row_found (some a) r h = cc

-- A row by its key, as a value of the program.
pub read_row_cases :
    {A B : Type 0} (find : Db → Option A) (scan : A → B) (w : World)
    → Reads
        (λ b. (r : A) × (find w.db ≡ some r) × (b ≡ scan r))
        w
        (or_else (select λ db. row_or_none (find db)) missing (λ r. pure (scan r)) w)
unfolding pure
read_row_cases {A} {B} find scan w = elim (select_cases (λ db. row_or_none (find db)) w) [
  | inl (e, rest, h) ↦
      let (e', q) = missing_lem {A = B} e (spent w rest) in
      inl (e', rest, or_else-err _ missing (λ r. pure (scan r)) w (spent w rest) e h ∙ q)
  | inr (r, rest, found, h) ↦ inr (
    scan r,
    rest,
    (r, row_found (find w.db) r found, refl),
    or_else-ok _ missing (λ r. pure (scan r)) w (spent w rest) r h,
  )
]

-- The world with no outage ahead.
abbrev pub calm : World → World
calm w = spent w []

pub select-calm :
    {A : Type 0} (f : Db → Result A) (w : World) (a : A)
    → f w.db ≡ ok a
    → select f (calm w) ≡ (ok a, calm w)
unfolding select
select-calm f w a e = rw e

pub statement-calm :
    {A : Type 0} (f : Db → Result (A × Db)) (w : World) (a : A) (db : Db)
    → f w.db ≡ ok (a, db)
    → statement f (calm w) ≡ (ok a, calm (record w { db = db }))
unfolding statement
statement-calm f w a db e = rw e

-- A row that is there is read.
pub read_row_calm :
    {A B : Type 0} (find : Db → Option A) (h : Error → Exec B) (k : A → Exec B) (w : World) (r : A)
    → find w.db ≡ some r
    → or_else (select λ db. row_or_none (find db)) h k (calm w) ≡ k r (calm w)
read_row_calm find h k w r e =
    or_else-ok _ h k (calm w) (calm w) r
      (select-calm (λ db. row_or_none (find db)) w r (ap row_or_none e))

pub select_err_calm :
    {A : Type 0} (f : Db → Result A) (w : World) (e : Error)
    → f w.db ≡ err e
    → select f (calm w) ≡ (err e, calm w)
unfolding select
select_err_calm f w x e = rw e refl

-- A chain that goes on with what it has read keeps what each way to go on keeps.
pub Keeps-read :
    {P : Db → Type 0} {A B : Type 0} (f : Db → Result A) (h : Error → Exec B) (k : A → Exec B)
    → ((e : Error) → Keeps P (h e))
    → ((db : Db) → P db → (a : A) → f db ≡ ok a → Keeps P (k a))
    → Keeps P (or_else (select f) h k)
Keeps-read {P} f h k kh kk = record {
  at = λ w p. elim (select_cases f w) [
    | inl (e, rest, q) ↦
        subst (λ r. P r.1.db) (sym (or_else-err (select f) h k w (spent w rest) e q))
          ((kh e).at (spent w rest) p)
    | inr (a, rest, found, q) ↦
        subst (λ r. P r.1.db) (sym (or_else-ok (select f) h k w (spent w rest) a q))
          ((kk w.db p a found).at (spent w rest) p)
  ];
}
