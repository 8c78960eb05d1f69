-- ===== src/Prelude/Members.antt =====
-- What stands in a list, and what holds of all that stands in it.
use mathlib.Core.Path.{◌≡◌, refl, sym, ap, ◌∙◌, subst}
use mathlib.Core.Logic.{◌⊎◌, inl, inr}
use mathlib.Core.Option.{Option, some}
use mathlib.Core.Bool.{Bool, true, false}
use mathlib.Core.List.{List, [], ◌∷◌, ◌++◌}
use balvibot.Prelude.Tests.{Bool-cases, if◌then◌else◌}
use balvibot.Prelude.Lists.{All, where_rows, find_row, any_row, update_rows, insert_row, sort_rows}

module _ {A : Type 0} where
  -- The value stands in the list.
  abbrev pub IsIn : A → List A → Type 0
  IsIn x [] = ⊥
  IsIn x (y ∷ ys) = (x ≡ y) ⊎ IsIn x ys

module _ {κ} {A : Type 0} (P : A → Type κ) where
  pub All-from_IsIn : (xs : List A) → ((x : A) → IsIn x xs → P x) → All P xs
  All-from_IsIn [] h = tt
  All-from_IsIn (x ∷ xs) h = (h x (inl refl), All-from_IsIn xs (λ y m. h y (inr m)))

  pub IsIn-All : (x : A) (xs : List A) → All P xs → IsIn x xs → P x
  IsIn-All x [] all m = absurd m
  IsIn-All x (y ∷ ys) (p, all) (inl e) = subst P (sym e) p
  IsIn-All x (y ∷ ys) (p, all) (inr m) = IsIn-All x ys all m

  pub All-append : (xs ys : List A) → All P xs → All P ys → All P (xs ++ ys)
  All-append [] ys h k = k
  All-append (x ∷ xs) ys (p, h) k = (p, All-append xs ys h k)

module _ {κ} {A : Type 0} (P Q : A → Type κ) (hit : A → Bool) (f : A → A) where
  -- What holds of every row after an update, by what held of the rows before it.
  pub All-update :
      (xs : List A)
      → ((x : A) → P x → hit x ≡ true → Q (f x))
      → ((x : A) → P x → hit x ≡ false → Q x)
      → All P xs
      → All Q (update_rows hit f xs)
  unfolding update_rows
  All-update [] changed same h = tt
  All-update (x ∷ xs) changed same (p, h) = (row (Bool-cases (hit x)), All-update xs changed same h)
    where
      row : (hit x ≡ true) ⊎ (hit x ≡ false) → Q (if hit x then f x else x)
      row (inl e) = rw e (changed x p e)
      row (inr e) = rw e (same x p e)

module _ {A : Type 0} (p : A → Bool) where
  pub IsIn-where : (x : A) (xs : List A) → IsIn x (where_rows p xs) → IsIn x xs × (p x ≡ true)
  unfolding where_rows
  IsIn-where x [] m = absurd m
  IsIn-where x (y ∷ ys) m = row (Bool-cases (p y)) (IsIn-where x ys) m
    where
      row :
          (p y ≡ true) ⊎ (p y ≡ false)
          → (IsIn x (where_rows p ys) → IsIn x ys × (p x ≡ true))
          → IsIn x (if p y then y ∷ where_rows p ys else where_rows p ys)
          → IsIn x (y ∷ ys) × (p x ≡ true)
      row (inl c) ih m = elim (rw c at m) [
        | inl e ↦ (inl e, rw e c)
        | inr r ↦ (inr (ih r).0, (ih r).1)
      ]
      row (inr c) ih m = let r : IsIn x (where_rows p ys) = (rw c at m) in (inr (ih r).0, (ih r).1)

module _ {A : Type 0} (before : A → A → Bool) where
  IsIn-insert : (x y : A) (xs : List A) → IsIn x (insert_row before y xs) → IsIn x (y ∷ xs)
  unfolding insert_row
  IsIn-insert x y [] m = m
  IsIn-insert x y (z ∷ zs) m = row (Bool-cases (before z y)) (IsIn-insert x y zs) m
    where
      row :
          (before z y ≡ true) ⊎ (before z y ≡ false)
          → (IsIn x (insert_row before y zs) → IsIn x (y ∷ zs))
          → IsIn x (if before z y then z ∷ insert_row before y zs else y ∷ z ∷ zs)
          → IsIn x (y ∷ z ∷ zs)
      row (inl c) ih m = elim (rw c at m) [
        | inl e ↦ inr (inl e)
        | inr r ↦ elim (ih r) [ inl e ↦ inl e | inr q ↦ inr (inr q) ]
      ]
      row (inr c) ih m = rw c at m

  pub IsIn-sort : (x : A) (xs : List A) → IsIn x (sort_rows before xs) → IsIn x xs
  unfolding sort_rows
  IsIn-sort x [] m = m
  IsIn-sort x (y ∷ ys) m = elim (IsIn-insert x y (sort_rows before ys) m) [
    | inl e ↦ inl e
    | inr r ↦ inr (IsIn-sort x ys r)
  ]

module _ {A : Type 0} where
  pub where-IsIn :
      (p : A → Bool) (x : A) (xs : List A) → IsIn x xs → p x ≡ true → IsIn x (where_rows p xs)
  unfolding where_rows
  where-IsIn p x [] m e = m
  where-IsIn p x (y ∷ ys) (inl q) e = rw (sym (ap p q) ∙ e) (inl q)
  where-IsIn p x (y ∷ ys) (inr m) e = row (Bool-cases (p y)) (where-IsIn p x ys m e)
    where
      row :
          (p y ≡ true) ⊎ (p y ≡ false)
          → IsIn x (where_rows p ys)
          → IsIn x (if p y then y ∷ where_rows p ys else where_rows p ys)
      row (inl c) r = rw c (inr r)
      row (inr c) r = rw c r

  insert-IsIn :
      (before : A → A → Bool) (x y : A) (xs : List A)
      → IsIn x (y ∷ xs)
      → IsIn x (insert_row before y xs)
  unfolding insert_row
  insert-IsIn before x y [] m = m
  insert-IsIn before x y (z ∷ zs) m = row (Bool-cases (before z y)) m (insert-IsIn before x y zs)
    where
      row :
          (before z y ≡ true) ⊎ (before z y ≡ false)
          → IsIn x (y ∷ z ∷ zs)
          → (IsIn x (y ∷ zs) → IsIn x (insert_row before y zs))
          → IsIn x (if before z y then z ∷ insert_row before y zs else y ∷ z ∷ zs)
      row (inl c) (inl e) ih = rw c (inr (ih (inl e)))
      row (inl c) (inr (inl e)) ih = rw c (inl e)
      row (inl c) (inr (inr m)) ih = rw c (inr (ih (inr m)))
      row (inr c) m ih = rw c m

  pub sort-IsIn :
      (before : A → A → Bool) (x : A) (xs : List A) → IsIn x xs → IsIn x (sort_rows before xs)
  unfolding sort_rows
  sort-IsIn before x [] m = m
  sort-IsIn before x (y ∷ ys) (inl e) = insert-IsIn before x y (sort_rows before ys) (inl e)
  sort-IsIn before x (y ∷ ys) (inr m) =
      insert-IsIn before x y (sort_rows before ys) (inr (sort-IsIn before x ys m))

module _ {A : Type 0} where
  pub any-IsIn : (p : A → Bool) (x : A) (xs : List A) → IsIn x xs → p x ≡ true → any_row p xs ≡ true
  unfolding any_row
  any-IsIn p x [] m e = absurd m
  any-IsIn p x (y ∷ ys) (inl q) e = rw (sym (ap p q) ∙ e) refl
  any-IsIn p x (y ∷ ys) (inr m) e = rest (p y) (any-IsIn p x ys m e)
    where
      rest : (b : Bool) → any_row p ys ≡ true → (if b then true else any_row p ys) ≡ true
      rest true h = refl
      rest false h = h

module _ {A : Type 0} (p : A → Bool) where
  pub find-IsIn : (x : A) (xs : List A) → find_row p xs ≡ some x → IsIn x xs
  unfolding find_row
  find-IsIn x [] h = absurd (no_row h)
    where
      no_row : Option.none ≡ some x → ⊥
      no_row h = cc
  find-IsIn x (y ∷ ys) h = row (Bool-cases (p y)) (find-IsIn x ys)
    where
      same : ◌≡◌ {A = Option A} (some y) (some x) → x ≡ y
      same e = cc

      row : (p y ≡ true) ⊎ (p y ≡ false) → (find_row p ys ≡ some x → IsIn x ys) → IsIn x (y ∷ ys)
      row (inl e) ih = inl (same (rw e at h))
      row (inr e) ih = inr (ih (rw e at h))
