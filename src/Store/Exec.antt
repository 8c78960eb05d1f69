-- ===== src/Store/Exec.antt =====
-- Calls of the database: tools/api/internal/store/store.go, exec, query, queryRow, and
-- transactions. Each statement may fail, as the environment decides, and a statement that fails
-- changes nothing.
use balvibot.Prelude.{ℕ, ◌≡◌, refl, ◌⊎◌, inl, inr, Option, none, some, List, [], ◌∷◌, Str}
use balvibot.Errors.{Error, Result, ok, err, wrap}
use balvibot.Store.Schema.{Db}

-- What the store's methods run against. `outages` says of each further statement (BEGIN and COMMIT
-- count too) whether it fails, and how; past its end none fails. `jsonb` is the server's form of a
-- JSONB value, or `none` for text that the server does not take.
pub record World : Type 0 where
  pub db : Db
  pub clock : ℕ
  pub outages : List (Option Error)
  pub jsonb : Str → Option Str

abbrev pub Exec : Type 0 → Type 0
Exec A = World → Result A × World

-- The tables `old`, with the counters of the ids as they are in `new`: a sequence of PostgreSQL does
-- not go back when a transaction does.
abbrev pub rolled_to : Db → Db → Db
rolled_to old new = record old {
  next_source = new.next_source;
  next_thread = new.next_thread;
  next_message = new.next_message;
  next_attachment = new.next_attachment;
  next_action = new.next_action;
  next_note = new.next_note;
}

module _ {A : Type 0} where
  unfoldable pub pure : A → Exec A
  pure a w = (ok a, w)

  unfoldable pub fail : Error → Exec A
  fail e w = (err e, w)

  unfoldable pub lift : Result A → Exec A
  lift r w = (r, w)

  -- The call with its error as a value, for code that looks at `err`.
  unfoldable pub attempt : Exec A → Exec (Result A)
  attempt m w = let (r, w') = m w in (ok r, w')

  abbrev pub settle : World → Result (A × Db) → Result A × World
  settle w (ok (a, db)) = (ok a, record w { db = db })
  settle w (err e) = (err e, w)

  abbrev pub run : (Db → Result (A × Db)) → World → List (Option Error) → Result A × World
  run f w [] = settle (record w { outages = [] }) (f w.db)
  run f w (none ∷ rest) = settle (record w { outages = rest }) (f w.db)
  run f w (some e ∷ rest) = (err e, record w { outages = rest })

  -- One statement that reads and writes.
  unfoldable pub statement : (Db → Result (A × Db)) → Exec A
  statement f w = run f w w.outages

  -- One statement that only reads.
  unfoldable pub select : (Db → Result A) → Exec A
  unfolding statement
  select f = statement λ db. elim (f db) [ ok a ↦ ok (a, db) | err e ↦ err e ]

  abbrev pub roll_back : Db → Result A × World → Result A × World
  roll_back db (ok a, w) = (ok a, w)
  roll_back db (err e, w) = (err e, record w { db = rolled_to db w.db })

abbrev pub continue : {A B : Type 0} → (A → Exec B) → Result A × World → Result B × World
continue f (ok a, w) = f a w
continue f (err e, w) = (err e, w)

infixl 10 ◌>>=◌ ◌>>◌
unfoldable pub ◌>>=◌ : {A B : Type 0} → Exec A → (A → Exec B) → Exec B
unfolding pure fail lift attempt statement select
◌>>=◌ m f w = continue f (m w)

abbrev pub ◌>>◌ : {A B : Type 0} → Exec A → Exec B → Exec B
m >> n = m >>= λ _. n

abbrev pub branch :
    {A B : Type 0} → (Error → Exec B) → (A → Exec B) → Result A × World → Result B × World
branch h k (ok a, w) = k a w
branch h k (err e, w) = h e w

-- `a, err := m; if err != nil { h } ; k`, where the error is not just passed on.
unfoldable pub or_else : {A B : Type 0} → Exec A → (Error → Exec B) → (A → Exec B) → Exec B
unfolding ◌>>=◌
or_else m h k w = branch h k (m w)

-- `if err != nil { return fmt.Errorf("text: %w", err) }`
unfoldable pub context : {A : Type 0} → Str → Exec A → Exec A
unfolding or_else
context s m = or_else m (λ e. fail (wrap s e [])) pure

-- time.Now().Unix()
unfoldable pub now : Exec ℕ
now w = (ok w.clock, w)

-- s.db.BeginTx, tx.Commit
unfoldable pub ping : Exec (Unit {0})
unfolding statement
ping = statement λ db. ok (tt, db)

unfoldable pub committed : {A : Type 0} → Exec A → Exec A
unfolding ◌>>=◌ ping
committed body = do ping; a ← body; ping; pure a

-- tx := BeginTx(); defer tx.Rollback(); body; tx.Commit()
unfoldable pub transaction : {A : Type 0} → Exec A → Exec A
unfolding committed
transaction body w = roll_back w.db (committed body w)

pub statement_cases :
    {A : Type 0} (f : Db → Result (A × Db)) (w : World)
    → ((e : Error) × (rest : List (Option Error)) × (statement f w
          ≡ (err e, record w { outages = rest })))
      ⊎ ((rest : List (Option Error)) × (statement f w
            ≡ settle (record w { outages = rest }) (f w.db)))
unfolding statement
statement_cases f w = cases w.outages refl
  where
    cases :
        (o : List (Option Error))
        → w.outages ≡ o
        → ((e : Error) × (rest : List (Option Error)) × (run f w w.outages
              ≡ (err e, record w { outages = rest })))
          ⊎ ((rest : List (Option Error)) × (run f w w.outages
                ≡ settle (record w { outages = rest }) (f w.db)))
    cases [] h = inr ([], rw h)
    cases (none ∷ rest) h = inr (rest, rw h)
    cases (some e ∷ rest) h = inl (e, rest, rw h)
