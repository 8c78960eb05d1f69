-- ===== src/Store/Text/Clean.antt =====
-- cleanText of tools/api/internal/store/store.go: what PostgreSQL does not take is gone.
use balvibot.Prelude.{
  ℕ, zero, suc, ◌≢◌, ◌-◌, Bool, true, false, inl, inr, Bool-cases, [], ◌∷◌, ◌++◌, All, Str, ◌==◌,
  arith, if◌then◌else◌,
}
use balvibot.Store.Text.{rune_len, replacement, to_valid_utf8, strip_nul, clean_text}

abbrev pub IsNonZero : ℕ → Type 0
IsNonZero c = c ≢ 0

strip_nul-IsNonZero : (s : Str) → All IsNonZero (strip_nul s)
unfolding strip_nul
strip_nul-IsNonZero [] = tt
strip_nul-IsNonZero (c ∷ s) = elim (Bool-cases (c == 0)) [
  | inl e ↦ rw e (strip_nul-IsNonZero s)
  | inr e ↦ rw e ((λ z. ground (arith, e, z)), strip_nul-IsNonZero s)
]

to_valid-IsNonZero :
    (left : ℕ) (bad : Bool) (s : Str) → All IsNonZero s → All IsNonZero (to_valid_utf8 left bad s)
unfolding to_valid_utf8
to_valid-IsNonZero left bad [] h = tt
to_valid-IsNonZero (suc left) bad (c ∷ s) h = (h.0, to_valid-IsNonZero left false s h.1)
to_valid-IsNonZero zero bad (c ∷ s) h =
    put (rune_len (c ∷ s) == 0) bad _
      (to_valid-IsNonZero (rune_len (c ∷ s) - 1) (rune_len (c ∷ s) == 0) s h.1)
  where
    put :
        (b bad : Bool) (rest : Str)
        → All IsNonZero rest
        → All IsNonZero ((if b then (if bad then [] else replacement) else c ∷ []) ++ rest)
    put true true rest k = k
    put true false rest k = (λ e. ground arith, (λ e. ground arith, (λ e. ground arith, k)))
    put false bad rest k = (h.0, k)

-- The text that cleanText returns holds no zero byte, whatever bytes it is given.
pub clean_text-IsNonZero : (s : Str) → All IsNonZero (clean_text s)
unfolding clean_text
clean_text-IsNonZero s = to_valid-IsNonZero 0 false (strip_nul s) (strip_nul-IsNonZero s)
