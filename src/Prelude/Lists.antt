-- ===== src/Prelude/Lists.antt =====
-- Lists with lengths and positions over the native numbers, and tests as functions into `Bool`.
use Prim.Native.Nat.{ℕ, zero, suc, ◌+◌}
use mathlib.Core.Path.{◌≡◌, refl, sym, ap, ◌∙◌}
use mathlib.Core.Logic.{◌≢◌, inl, inr}
use mathlib.Core.Bool.{Bool, true, false, not}
use mathlib.Core.Option.{Option, none, some}
use mathlib.Core.List.{List, [], ◌∷◌, ◌++◌}
use native.Mathlib.Omega.{arith}
use balvibot.Prelude.Tests.{Bool-cases, if◌then◌else◌, ◌==◌}

module _ {ℓ} {A : Type ℓ} where
  abbrev pub length : List A → ℕ
  length [] = 0
  length (x ∷ xs) = suc (length xs)

  abbrev pub take : ℕ → List A → List A
  take zero xs = []
  take (suc n) [] = []
  take (suc n) (x ∷ xs) = x ∷ take n xs

  abbrev pub head? : List A → Option A
  head? [] = none
  head? (x ∷ xs) = some x

  -- The rows on which a test holds, in order.
  unfoldable pub where_rows : (A → Bool) → List A → List A
  where_rows p [] = []
  where_rows p (x ∷ xs) = let rest = where_rows p xs in if p x then x ∷ rest else rest

  unfoldable pub find_row : (A → Bool) → List A → Option A
  find_row p [] = none
  find_row p (x ∷ xs) = if p x then some x else find_row p xs

  -- Every row on which a test holds is replaced by its image.
  unfoldable pub update_rows : (A → Bool) → (A → A) → List A → List A
  update_rows p f [] = []
  update_rows p f (x ∷ xs) = (if p x then f x else x) ∷ update_rows p f xs

  unfoldable pub any_row : (A → Bool) → List A → Bool
  any_row p [] = false
  any_row p (x ∷ xs) = if p x then true else any_row p xs

  unfoldable pub count_rows : (A → Bool) → List A → ℕ
  count_rows p [] = 0
  count_rows p (x ∷ xs) = let rest = count_rows p xs in if p x then suc rest else rest

  unfoldable pub insert_row : (A → A → Bool) → A → List A → List A
  insert_row before x [] = x ∷ []
  insert_row before x (y ∷ ys) = if before y x then y ∷ insert_row before x ys else x ∷ y ∷ ys

  -- ORDER BY, where `before x y` says that the row `x` stands above `y`.
  unfoldable pub sort_rows : (A → A → Bool) → List A → List A
  unfolding insert_row
  sort_rows before [] = []
  sort_rows before (x ∷ xs) = insert_row before x (sort_rows before xs)

  abbrev pub All {κ} : (A → Type κ) → List A → Type κ
  All P [] = Unit
  All P (x ∷ xs) = P x × All P xs

  pub append_nil : (xs : List A) → xs ≡ xs ++ []
  append_nil [] = refl
  append_nil (x ∷ xs) = ap (λ l. x ∷ l) (append_nil xs)

  pub append_assoc : (xs ys zs : List A) → (xs ++ ys) ++ zs ≡ xs ++ (ys ++ zs)
  append_assoc [] ys zs = refl
  append_assoc (x ∷ xs) ys zs = ap (λ l. x ∷ l) (append_assoc xs ys zs)

  pub length-append : (xs ys : List A) → length (xs ++ ys) ≡ length xs + length ys
  length-append [] ys = omega arith
  length-append (x ∷ xs) ys = omega (arith, length-append xs ys)

module _ {ℓ} {A : Type ℓ} (p : A → Bool) where
  pub count-any : (xs : List A) → any_row p xs ≡ true → (count_rows p xs == 0) ≡ false
  unfolding any_row count_rows
  count-any [] h = cc
  count-any (x ∷ xs) h = ground (arith, count-any xs)

module _ {ℓ} {A : Type ℓ} (key hit : A → Bool) (f : A → A) where
  -- The first row with a key stays the first row with it when some rows are replaced by rows with
  -- the same key.
  pub find-update :
      (xs : List A) (x : A)
      → ((a : A) → key (f a) ≡ key a)
      → find_row key xs ≡ some x
      → find_row key (update_rows hit f xs) ≡ some (if hit x then f x else x)
  unfolding find_row update_rows
  find-update [] x same h = cc
  find-update (a ∷ xs) x same h = ground (arith, same a, find-update xs x same)

module _ {ℓ} {A : Type ℓ} (key : A → Bool) where
  pub find_row-holds : (xs : List A) (x : A) → find_row key xs ≡ some x → key x ≡ true
  unfolding find_row
  find_row-holds [] x h = cc
  find_row-holds (a ∷ xs) x h = ground (arith, find_row-holds xs x)

  pub find-any :
      (test : A → Bool) (xs : List A) (x : A)
      → find_row key xs ≡ some x
      → test x ≡ true
      → any_row test xs ≡ true
  unfolding find_row any_row
  find-any test [] x h t = cc
  find-any test (a ∷ xs) x h t = ground (arith, find-any test xs x)

  pub count-none : (xs : List A) → any_row key xs ≡ false → count_rows key xs ≡ 0
  unfolding any_row count_rows
  count-none [] h = refl
  count-none (a ∷ xs) h = ground (arith, count-none xs)

  pub update-none : (f : A → A) (xs : List A) → any_row key xs ≡ false → update_rows key f xs ≡ xs
  unfolding any_row update_rows
  update-none f [] h = refl
  update-none f (a ∷ xs) h = ground (arith, update-none f xs)

  pub find-append :
      (xs ys : List A) → find_row key xs ≡ none → find_row key (xs ++ ys) ≡ find_row key ys
  unfolding find_row
  find-append [] ys h = refl
  find-append (a ∷ xs) ys h = ground (arith, find-append xs ys)

  pub any-find : (xs : List A) → any_row key xs ≡ true → (x : A) × (find_row key xs ≡ some x)
  unfolding any_row find_row
  any-find [] h = absurd (not_true h)
    where
      not_true : Bool.false ≢ true
      not_true h = cc
  any-find (a ∷ xs) h = elim (Bool-cases (key a)) [
    | inl e ↦ (a, rw e refl)
    | inr e ↦ let (x, q) = any-find xs (sym (rw e refl) ∙ h) in (x, rw e q)
  ]

  pub none-find : (xs : List A) → any_row key xs ≡ false → find_row key xs ≡ none
  unfolding any_row find_row
  none-find [] h = refl
  none-find (a ∷ xs) h = ground (arith, none-find xs)

module _ {ℓ} {A : Type ℓ} (key : A → Bool) where
  pub find-removed : (xs : List A) → find_row key (where_rows (λ x. not (key x)) xs) ≡ none
  unfolding find_row where_rows
  find-removed [] = refl
  find-removed (a ∷ xs) = ground (arith, find-removed xs)

module _ {ℓ} {A : Type ℓ} (hit : A → Bool) where
  -- Rows that an update does not hit are left in their order.
  pub where-update :
      (f : A → A) (xs : List A)
      → ((a : A) → hit a ≡ true → hit (f a) ≡ true)
      → where_rows (λ x. not (hit x)) (update_rows hit f xs) ≡ where_rows (λ x. not (hit x)) xs
  unfolding where_rows update_rows
  where-update f [] keeps = refl
  where-update f (a ∷ xs) keeps = ground (arith, keeps a, where-update f xs)

  pub where-append :
      (xs : List A) (a : A)
      → hit a ≡ true
      → where_rows (λ x. not (hit x)) (xs ++ a ∷ []) ≡ where_rows (λ x. not (hit x)) xs
  unfolding where_rows
  where-append [] a h = rw h refl
  where-append (x ∷ xs) a h = ground (arith, where-append xs a)
