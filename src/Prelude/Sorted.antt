-- ===== src/Prelude/Sorted.antt =====
-- Rows in descending order of a number that no two of them share.
use Prim.Native.Nat.{ℕ, zero, suc, ◌<◌, ◌≤◌}
use mathlib.Core.Path.{◌≡◌, refl, sym, ap, ◌∙◌}
use mathlib.Core.Logic.{◌≢◌, inl, inr}
use mathlib.Core.Bool.{Bool, true, false, ◌&&◌}
use mathlib.Core.List.{List, [], ◌∷◌, ◌++◌}
use native.Mathlib.Omega.{arith}
use balvibot.Prelude.Tests.{ltb, Bool-cases, ltb→lt, ltb→ge, if◌then◌else◌}
use balvibot.Prelude.Lists.{All, length, take, where_rows, insert_row, sort_rows}

module _ {A : Type 0} (key : A → ℕ) where
  abbrev pub newer : A → A → Bool
  newer x y = ltb (key y) (key x)

  -- All rows have a smaller number than `n`.
  abbrev pub AreBelow : ℕ → List A → Type 0
  AreBelow n xs = All (λ y. key y < n) xs

  abbrev pub IsDescending : List A → Type 0
  IsDescending [] = Unit
  IsDescending (x ∷ xs) = AreBelow (key x) xs × IsDescending xs

  abbrev pub AreDistinct : List A → Type 0
  AreDistinct [] = Unit
  AreDistinct (x ∷ xs) = All (λ y. key y ≢ key x) xs × AreDistinct xs

  below_all : (m n : ℕ) (xs : List A) → m ≤ n → AreBelow m xs → AreBelow n xs
  below_all m n [] le h = tt
  below_all m n (x ∷ xs) le h = (omega (arith, le, h.0), below_all m n xs le h.1)

  insert-AreBelow :
      (n : ℕ) (x : A) (ys : List A) → key x < n → AreBelow n ys → AreBelow n (insert_row newer x ys)
  unfolding insert_row
  insert-AreBelow n x [] lt h = (lt, tt)
  insert-AreBelow n x (y ∷ ys) lt h = elim (Bool-cases (newer y x)) [
    | inl e ↦ rw e (h.0, insert-AreBelow n x ys lt h.1)
    | inr e ↦ rw e (lt, h)
  ]

  smaller : (a b : ℕ) → a ≤ b → a ≢ b → a < b
  smaller a b le ne = ground (arith, le, ne)

  insert-IsDescending :
      (x : A) (ys : List A)
      → All (λ y. key y ≢ key x) ys
      → IsDescending ys
      → IsDescending (insert_row newer x ys)
  unfolding insert_row
  insert-IsDescending x [] d h = (tt, tt)
  insert-IsDescending x (y ∷ ys) d h = elim (Bool-cases (newer y x)) [
    | inl e ↦
        rw e (insert-AreBelow (key y) x ys (ltb→lt _ _ e) h.0, insert-IsDescending x ys d.1 h.1)
    | inr e ↦
        let lt : key y < key x = smaller (key y) (key x) (ltb→ge _ _ e) d.0 in
        rw e ((lt, below_all (key y) (key x) ys (omega (arith, lt)) h.0), h)
  ]

  All-insert :
      (P : A → Type 0) (x : A) (ys : List A) → P x → All P ys → All P (insert_row newer x ys)
  unfolding insert_row
  All-insert P x [] p h = (p, tt)
  All-insert P x (y ∷ ys) p h = elim (Bool-cases (newer y x)) [
    | inl e ↦ rw e (h.0, All-insert P x ys p h.1)
    | inr e ↦ rw e (p, h)
  ]

  pub All-sort : (P : A → Type 0) (xs : List A) → All P xs → All P (sort_rows newer xs)
  unfolding sort_rows
  All-sort P [] h = tt
  All-sort P (x ∷ xs) h = All-insert P x (sort_rows newer xs) h.0 (All-sort P xs h.1)

  pub sort-IsDescending : (xs : List A) → AreDistinct xs → IsDescending (sort_rows newer xs)
  unfolding sort_rows
  sort-IsDescending [] d = tt
  sort-IsDescending (x ∷ xs) d =
      insert-IsDescending x (sort_rows newer xs) (All-sort (λ y. key y ≢ key x) xs d.0)
        (sort-IsDescending xs d.1)

  insert_first : (x : A) (zs : List A) → AreBelow (key x) zs → insert_row newer x zs ≡ x ∷ zs
  unfolding insert_row
  insert_first x [] h = refl
  insert_first x (z ∷ zs) h = ground (arith, h.0)

  where-AreBelow :
      (p : A → Bool) (n : ℕ) (xs : List A) → AreBelow n xs → AreBelow n (where_rows p xs)
  unfolding where_rows
  where-AreBelow p n [] h = tt
  where-AreBelow p n (x ∷ xs) h = elim (Bool-cases (p x)) [
    | inl e ↦ rw e (h.0, where-AreBelow p n xs h.1)
    | inr e ↦ rw e (where-AreBelow p n xs h.1)
  ]

  module _ (p : A → Bool) where
    abbrev insert_if : Bool → A → List A → List A
    insert_if true x ys = insert_row newer x ys
    insert_if false x ys = ys

    head_below :
        (x y : A) (ys : List A)
        → newer y x ≡ false
        → All (λ y. key y ≢ key x) (y ∷ ys)
        → IsDescending (y ∷ ys)
        → AreBelow (key x) (y ∷ ys)
    head_below x y ys n d h =
        let lt : key y < key x = smaller (key y) (key x) (ltb→ge _ _ n) d.0 in
        (lt, below_all (key y) (key x) ys (omega (arith, lt)) h.0)

    where-insert :
        (x : A) (ys : List A) (b : Bool)
        → p x ≡ b
        → All (λ y. key y ≢ key x) ys
        → IsDescending ys
        → where_rows p (insert_row newer x ys) ≡ insert_if b x (where_rows p ys)
    unfolding insert_row where_rows
    where-insert x [] true e d h = rw e refl
    where-insert x [] false e d h = rw e refl
    where-insert x (y ∷ ys) true e d h = elim (Bool-cases (newer y x)) [
      | inl n ↦ elim (Bool-cases (p y)) [
        | inl q ↦ rw (n, q) (rw n (ap (λ l. y ∷ l) (where-insert x ys true e d.1 h.1)))
        | inr q ↦ rw (n, q) (where-insert x ys true e d.1 h.1)
      ]
      | inr n ↦
          rw (n, e)
            (sym (
              insert_first x (where_rows p (y ∷ ys))
                (where-AreBelow p (key x) (y ∷ ys) (head_below x y ys n d h))))
    ]
    where-insert x (y ∷ ys) false e d h = elim (Bool-cases (newer y x)) [
      | inl n ↦ elim (Bool-cases (p y)) [
        | inl q ↦ rw (n, q) (ap (λ l. y ∷ l) (where-insert x ys false e d.1 h.1))
        | inr q ↦ rw (n, q) (where-insert x ys false e d.1 h.1)
      ]
      | inr n ↦ rw (n, e) refl
    ]

    -- Choosing rows and sorting them may change places.
    pub where-sort :
        (xs : List A)
        → AreDistinct xs
        → where_rows p (sort_rows newer xs) ≡ sort_rows newer (where_rows p xs)
    unfolding where_rows sort_rows
    where-sort [] d = refl
    where-sort (x ∷ xs) d =
        where-insert x (sort_rows newer xs) (p x) refl (All-sort (λ y. key y ≢ key x) xs d.0)
          (sort-IsDescending xs d.1)
        ∙ chosen (p x) (where-sort xs d.1)
      where
        chosen :
            (b : Bool)
            → where_rows p (sort_rows newer xs) ≡ sort_rows newer (where_rows p xs)
            → insert_if b x (where_rows p (sort_rows newer xs))
              ≡ sort_rows newer (if b then x ∷ where_rows p xs else where_rows p xs)
        chosen true e = ap (insert_row newer x) e
        chosen false e = e

  pub where-IsDescending :
      (p : A → Bool) (xs : List A) → IsDescending xs → IsDescending (where_rows p xs)
  unfolding where_rows
  where-IsDescending p [] h = tt
  where-IsDescending p (x ∷ xs) h = elim (Bool-cases (p x)) [
    | inl e ↦ rw e (where-AreBelow p (key x) xs h.0, where-IsDescending p xs h.1)
    | inr e ↦ rw e (where-IsDescending p xs h.1)
  ]

  pub all_below : (n : ℕ) (xs : List A) → AreBelow n xs → where_rows (λ x. ltb (key x) n) xs ≡ xs
  unfolding where_rows
  all_below n [] h = refl
  all_below n (x ∷ xs) h = ground (arith, h.0, all_below n xs h.1)

  above_gone :
      (n : ℕ) (x : A) (xs : List A)
      → n ≤ key x
      → where_rows (λ y. ltb (key y) n) (x ∷ xs) ≡ where_rows (λ y. ltb (key y) n) xs
  unfolding where_rows
  above_gone n x xs le = ground (arith, le)

  abbrev pub last_key : A → List A → ℕ
  last_key x [] = key x
  last_key x (y ∷ ys) = last_key y ys

  abbrev pub drop : ℕ → List A → List A
  drop zero xs = xs
  drop (suc n) [] = []
  drop (suc n) (x ∷ xs) = drop n xs

  pub last_le :
      (n : ℕ) (x : A) (xs : List A) → IsDescending (x ∷ xs) → last_key x (take n xs) ≤ key x
  last_le zero x xs h = omega arith
  last_le (suc n) x [] h = omega arith
  last_le (suc n) x (y ∷ ys) h = omega (arith, last_le n y ys h.1, h.0.0)

  -- What is left after a page of `suc n` rows is the rows below its last one.
  pub rest_of_page :
      (n : ℕ) (x : A) (xs : List A)
      → IsDescending (x ∷ xs)
      → where_rows (λ y. ltb (key y) (last_key x (take n xs))) (x ∷ xs) ≡ drop n xs
  rest_of_page zero x xs h = above_gone (key x) x xs (omega arith) ∙ all_below (key x) xs h.0
  rest_of_page (suc n) x [] h = above_gone (key x) x [] (omega arith) ∙ unfold where_rows in refl
  rest_of_page (suc n) x (y ∷ ys) h =
      above_gone (last_key y (take n ys)) x (y ∷ ys) (omega (arith, last_le n y ys h.1, h.0.0))
      ∙ rest_of_page n y ys h.1

  pub take-drop : (n : ℕ) (xs : List A) → take n xs ++ drop n xs ≡ xs
  take-drop zero xs = refl
  take-drop (suc n) [] = refl
  take-drop (suc n) (x ∷ xs) = ap (λ l. x ∷ l) (take-drop n xs)

  pub last_positive :
      (n : ℕ) (x : A) (xs : List A) → All (λ y. 0 < key y) (x ∷ xs) → 0 < last_key x (take n xs)
  last_positive zero x xs h = h.0
  last_positive (suc n) x [] h = h.0
  last_positive (suc n) x (y ∷ ys) h = last_positive n y ys h.1

  pub length-drop : (n : ℕ) (xs : List A) → length (drop n xs) ≤ length xs
  length-drop zero xs = omega arith
  length-drop (suc n) [] = omega arith
  length-drop (suc n) (x ∷ xs) = omega (arith, length-drop n xs)

  pub All-where : (P : A → Type 0) (p : A → Bool) (xs : List A) → All P xs → All P (where_rows p xs)
  unfolding where_rows
  All-where P p [] h = tt
  All-where P p (x ∷ xs) h = elim (Bool-cases (p x)) [
    | inl e ↦ rw e (h.0, All-where P p xs h.1)
    | inr e ↦ rw e (All-where P p xs h.1)
  ]

  pub where-AreDistinct :
      (p : A → Bool) (xs : List A) → AreDistinct xs → AreDistinct (where_rows p xs)
  unfolding where_rows
  where-AreDistinct p [] d = tt
  where-AreDistinct p (x ∷ xs) d = elim (Bool-cases (p x)) [
    | inl e ↦ rw e (All-where (λ y. key y ≢ key x) p xs d.0, where-AreDistinct p xs d.1)
    | inr e ↦ rw e (where-AreDistinct p xs d.1)
  ]

pub where-where :
    {A : Type 0} (p q : A → Bool) (xs : List A)
    → where_rows (λ x. p x && q x) xs ≡ where_rows q (where_rows p xs)
unfolding where_rows
where-where p q [] = refl
where-where p q (x ∷ xs) = ground (arith, where-where p q xs)

pub where_implied :
    {A : Type 0} (p q : A → Bool) (xs : List A)
    → ((x : A) → q x ≡ true → p x ≡ true)
    → where_rows q (where_rows p xs) ≡ where_rows q xs
unfolding where_rows
where_implied p q [] h = refl
where_implied p q (x ∷ xs) h = ground (arith, h x, where_implied p q xs h)

pub where-holds :
    {A : Type 0} (p : A → Bool) (xs : List A) → All (λ x. p x ≡ true) (where_rows p xs)
unfolding where_rows
where-holds p [] = tt
where-holds p (x ∷ xs) = elim (Bool-cases (p x)) [
  | inl e ↦ rw e (e, where-holds p xs)
  | inr e ↦ rw e (where-holds p xs)
]
