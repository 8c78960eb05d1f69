-- ===== src/Store/Paged.antt =====
-- One page of a list, as the queries of tools/api/internal/store cut it from the rows that they read.
use balvibot.Prelude.{
  All, Bool, IsIn, IsIn-sort, IsIn-where, All-from_IsIn, where_rows, sort_rows, if◌then◌else◌, ℕ,
  zero, suc, ◌≡◌, refl, ap, ◌<◌, ◌≤◌, true, false, List, [], ◌∷◌, ◌++◌, length, take, map, ltb,
  last_key, arith,
}
use balvibot.Store.Docs.{last_or, page_of}

module _ {A B : Type 0} (f : A → B) where
  length-map : (xs : List A) → length (map f xs) ≡ length xs
  length-map [] = refl
  length-map (x ∷ xs) = ap suc (length-map xs)

  take-map : (k : ℕ) (xs : List A) → take k (map f xs) ≡ map f (take k xs)
  take-map zero xs = refl
  take-map (suc k) [] = refl
  take-map (suc k) (x ∷ xs) = ap (λ l. f x ∷ l) (take-map k xs)

  pub map-append : (xs ys : List A) → map f (xs ++ ys) ≡ map f xs ++ map f ys
  map-append [] ys = refl
  map-append (x ∷ xs) ys = ap (λ l. f x ∷ l) (map-append xs ys)

module _ {A : Type 0} where
  take_all : (k : ℕ) (xs : List A) → length xs ≤ k → take k xs ≡ xs
  take_all zero [] le = refl
  take_all (suc k) [] le = refl
  take_all zero (x ∷ xs) le = absurd (no_room (length xs) le)
    where
      no_room : (n : ℕ) → ¬ (suc n ≤ 0)
      no_room n h = omega (arith, h)
  take_all (suc k) (x ∷ xs) le = ap (λ l. x ∷ l) (take_all k xs (omega (arith, le)))

  take-take : (k : ℕ) (xs : List A) → take k (take (suc k) xs) ≡ take k xs
  take-take zero xs = refl
  take-take (suc k) [] = refl
  take-take (suc k) (x ∷ xs) = ap (λ l. x ∷ l) (take-take k xs)

  length-take : (k : ℕ) (xs : List A) → k ≤ length xs → length (take k xs) ≡ k
  length-take zero xs le = refl
  length-take (suc k) [] le = omega (arith, le)
  length-take (suc k) (x ∷ xs) le = ap suc (length-take k xs (omega (arith, le)))

module _ {A B : Type 0} (key : A → ℕ) (key' : B → ℕ) (scan : A → B)
    (same : (a : A) → key' (scan a) ≡ key a) where
  last_scanned :
      (n : ℕ) (x : A) (xs : List A) → last_or n (map key' (map scan (x ∷ xs))) ≡ last_key key x xs
  last_scanned n x [] = same x
  last_scanned n x (y ∷ ys) = last_scanned (key' (scan x)) y ys

  -- The rows that the query returns fit on the page.
  pub page_short :
      (lim : ℕ) (rows : List A)
      → length rows ≤ lim
      → page_of key' lim (map scan (take (suc lim) rows)) ≡ (map scan rows, 0)
  unfolding page_of
  page_short lim rows le =
      rw
        (
          take_all (suc lim) rows (omega (arith, le)),
          length-map scan rows,
          not_less lim (length rows) le,
        )
        refl
    where
      not_less : (a b : ℕ) → b ≤ a → ltb a b ≡ false
      not_less a b h = ground (arith, h)

  -- There are more, and the cursor is the number of the last one on the page.
  pub page_long :
      (n : ℕ) (x : A) (xs : List A)
      → n < length xs
      → page_of key' (suc n) (map scan (take (suc (suc n)) (x ∷ xs)))
        ≡ (map scan (x ∷ take n xs), last_key key x (take n xs))
  unfolding page_of
  page_long n x xs lt =
      rw
        (
          length-map scan (take (suc n) xs),
          length-take (suc n) xs (omega (arith, lt)),
          less n,
          take-map scan n (take (suc n) xs),
          take-take n xs,
        )
        (ap with_cursor (last_scanned 0 x (take n xs)))
    where
      less : (n : ℕ) → ltb (suc n) (suc (suc n)) ≡ true
      less n = ground arith

      with_cursor : ℕ → List B × ℕ
      with_cursor k = (scan x ∷ map scan (take n xs), k)

module _ {A B : Type 0} (P : A → Type 0) (Q : B → Type 0) (f : A → B)
    (each : (a : A) → P a → Q (f a)) where
  All-map : (xs : List A) → All P xs → All Q (map f xs)
  All-map [] h = tt
  All-map (x ∷ xs) (p, h) = (each x p, All-map xs h)

module _ {A : Type 0} (P : A → Type 0) where
  All-take : (k : ℕ) (xs : List A) → All P xs → All P (take k xs)
  All-take zero xs h = tt
  All-take (suc k) [] h = tt
  All-take (suc k) (x ∷ xs) (p, h) = (p, All-take k xs h)

  All-page_of : (key : A → ℕ) (limit : ℕ) (xs : List A) → All P xs → All P (page_of key limit xs).0
  unfolding page_of
  All-page_of key limit xs h = cases (ltb limit (length xs))
    where
      cases :
          (b : Bool)
          → All P
              (if◌then◌else◌ {A = List A × ℕ} b
                (take limit xs, last_or 0 (map key (take limit xs)))
                (xs, 0)).0
      cases true = All-take limit xs h
      cases false = h

-- A page of rows that are picked and sorted: what a picked row gives holds of the page.
module _ {A B : Type 0} (P : A → Type 0) (Q : B → Type 0) (scan : A → B) (before : A → A → Bool)
    (pick : A → Bool) (each : (a : A) → P a → Q (scan a)) where
  pub page_holds :
      (key : B → ℕ) (limit more : ℕ) (rows : List A)
      → ((a : A) → IsIn a rows → pick a ≡ true → P a)
      → All Q (page_of key limit (map scan (take more (sort_rows before (where_rows pick rows))))).0
  page_holds key limit more rows picked = All-page_of Q key limit _ (
      All-map P Q scan each _ (
        All-take P more _ (
          All-from_IsIn P (sort_rows before (where_rows pick rows)) λ a m.
            let (within, hit) =
              IsIn-where pick a rows (IsIn-sort before a (where_rows pick rows) m) in
            picked a within hit)))
