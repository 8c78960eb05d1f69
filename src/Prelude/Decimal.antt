-- ===== src/Prelude/Decimal.antt =====
-- strconv.Itoa and the verb %d on numbers from 0 on.
use Prim.Native.Nat.{ℕ, zero, suc, ◌+◌, ◌-◌, ◌*◌, ◌/◌, ◌%◌, ◌<◌, ◌≤◌}
use mathlib.Core.Path.{◌≡◌, refl, sym, ap, ◌∙◌}
use mathlib.Core.List.{[], ◌∷◌, ◌++◌}
use mathlib.Core.Bool.{◌&&◌}
use mathlib.Core.Option.{Option, none, some}
use native.Mathlib.Omega.{arith}
use balvibot.Prelude.Bytes.{Str, codes}
use balvibot.Prelude.Lists.{All}
use balvibot.Prelude.Tests.{leb, ltb, if◌then◌else◌, Bool-cases, ltb→lt, ltb→ge}
use mathlib.Core.Logic.{inl, inr}

-- The digits of `n`, on fuel above `n`.
digits : ℕ → ℕ → Str
digits zero n = []
digits (suc f) n =
    (let more = digits f (n / 10) in if ltb n 10 then [] else more) ++ (48 + n % 10) ∷ []

unfoldable pub itoa : ℕ → Str
unfolding digits
itoa n = digits (suc n) n

-- The number that a string of digits stands for, after `acc`.
abbrev pub value : ℕ → Str → ℕ
value acc [] = acc
value acc (c ∷ s) = value (acc * 10 + (c - 48)) s

value-append : (acc c : ℕ) (s : Str) → value acc (s ++ c ∷ []) ≡ value acc s * 10 + (c - 48)
value-append acc c [] = refl
value-append acc c (d ∷ s) = value-append (acc * 10 + (d - 48)) c s

value-digits : (f n : ℕ) → n < f → value 0 (digits f n) ≡ n
unfolding digits
value-digits zero n h = elim h [ ]
value-digits (suc f) n h = elim (Bool-cases (ltb n 10)) [
  | inl e ↦ rw e (omega (arith, ltb→lt n 10 e))
  | inr e ↦ rw e (
      value-append 0 (48 + n % 10) (digits f (n / 10))
      ∙ omega (arith, value-digits f (n / 10) (ground arith), ltb→ge n 10 e))
]

pub value-itoa : (n : ℕ) → value 0 (itoa n) ≡ n
unfolding itoa
value-itoa n = value-digits (suc n) n (omega arith)

-- The last digit is always there.
pub itoa_last : (n : ℕ) → (s : Str) × (c : ℕ) × (itoa n ≡ s ++ c ∷ [])
unfolding itoa digits
itoa_last n = ((let more = digits n (n / 10) in if ltb n 10 then [] else more), 48 + n % 10, refl)

pub itoa-injective : (m n : ℕ) → itoa m ≡ itoa n → m ≡ n
unfolding itoa
itoa-injective m n e =
    sym (value-digits (suc m) m (omega arith))
    ∙ ap (value 0) e
    ∙ value-digits (suc n) n (omega arith)

abbrev pub IsDigit : ℕ → Type 0
IsDigit c = (48 ≤ c) × (c ≤ 57)

All-append : (s t : Str) → All IsDigit s → All IsDigit t → All IsDigit (s ++ t)
All-append [] t hs ht = ht
All-append (c ∷ s) t hs ht = (hs.0, All-append s t hs.1 ht)

digits-IsDigit : (f n : ℕ) → All IsDigit (digits f n)
unfolding digits
digits-IsDigit zero n = tt
digits-IsDigit (suc f) n = elim (Bool-cases (ltb n 10)) [
  | inl e ↦ rw e ((omega arith, omega arith), tt)
  | inr e ↦ rw e (
      All-append (digits f (n / 10)) _ (digits-IsDigit f (n / 10)) ((omega arith, omega arith), tt))
]

pub itoa-IsDigit : (n : ℕ) → All IsDigit (itoa n)
unfolding itoa
itoa-IsDigit n = digits-IsDigit (suc n) n

itoa_large : itoa 9223372036854775807 ≡ codes "9223372036854775807"
unfolding itoa
itoa_large = refl

abbrev pub max_int64 : ℕ
max_int64 = 9223372036854775807

-- The value of a string of digits, if it is one.
unfoldable pub digits_value : ℕ → Str → Option ℕ
digits_value n [] = some n
digits_value n (c ∷ s) =
    let rest = digits_value (n * 10 + (c - 48)) s in if leb 48 c && leb c 57 then rest else none

unfoldable pub unsigned : Str → Option ℕ
unfolding digits_value
unsigned [] = none
unsigned (c ∷ s) = digits_value 0 (c ∷ s)
