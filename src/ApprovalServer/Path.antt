-- ===== src/ApprovalServer/Path.antt =====
-- The id of an action in a path.
use balvibot.Prelude.{
  digits_value, unsigned, max_int64, ℕ, ◌≡◌, refl, sym, ap, ◌∙◌, ◌<◌, ◌≤◌, ◌*◌, ◌+◌, ◌-◌, some, [],
  ◌∷◌, ◌++◌, All, Str, IsDigit, itoa, itoa-IsDigit, itoa_last, value, value-itoa, arith,
}
use mathlib.Core.Path.{subst}
use balvibot.ApprovalServer.{strip_plus, positive_int64, parse_id}

digits_value_lem : (n : ℕ) (s : Str) → All IsDigit s → digits_value n s ≡ some (value n s)
unfolding digits_value
digits_value_lem n [] h = refl
digits_value_lem n (c ∷ s) h = ground (arith, h.0, digits_value_lem (n * 10 + (c - 48)) s h.1)

no_plus : (s : Str) → All IsDigit s → strip_plus s ≡ s
unfolding strip_plus
no_plus [] h = refl
no_plus (c ∷ s) h = ground (arith, h.0)

unsigned_last : (s : Str) (c : ℕ) → unsigned (s ++ c ∷ []) ≡ digits_value 0 (s ++ c ∷ [])
unfolding unsigned
unsigned_last [] c = refl
unsigned_last (d ∷ s) c = refl

unsigned-itoa : (n : ℕ) → unsigned (itoa n) ≡ some n
unsigned-itoa n =
    let (s, c, e) = itoa_last n in
    subst (λ t. unsigned t ≡ digits_value 0 t) (sym e) (unsigned_last s c)
    ∙ digits_value_lem 0 (itoa n) (itoa-IsDigit n)
    ∙ ap some (value-itoa n)

in_range : (n : ℕ) → 0 < n → n ≤ max_int64 → positive_int64 (some n) ≡ some n
in_range n low high = ground (arith, low, high)

-- An id from 1 to the largest int64 is read back from its decimal form.
pub parse_id-itoa : (id : ℕ) → 0 < id → id ≤ max_int64 → parse_id (itoa id) ≡ some id
unfolding parse_id
parse_id-itoa id low high =
    ap (λ s. positive_int64 (unsigned s)) (no_plus (itoa id) (itoa-IsDigit id))
    ∙ ap positive_int64 (unsigned-itoa id)
    ∙ in_range id low high
