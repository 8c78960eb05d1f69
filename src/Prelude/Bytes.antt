-- ===== src/Prelude/Bytes.antt =====
-- Go strings and byte slices: lists of bytes, with the operations of package strings that the
-- program uses. Folding of case and trimming of space are those of the ASCII range.
use Prim.Native.Nat.{ℕ, ◌+◌}
use Prim.Native.Char.{code}
use Prim.Native.String.{String}
use mathlib.Core.Path.{◌≡◌, refl}
use mathlib.Core.Logic.{◌↔◌}
use mathlib.Core.Bool.{Bool, true, false, ◌&&◌, ◌||◌}
use mathlib.Core.List.{List, [], ◌∷◌, ◌++◌, reverse, map}
use native.Mathlib.Omega.{arith}
use balvibot.Prelude.Tests.{◌==◌, leb, if◌then◌else◌}

abbrev pub Str : Type 0
Str = List ℕ

-- The bytes of a literal.
abbrev pub codes : String → Str
codes String.[] = []
codes (String.◌∷◌ c s) = code c ∷ codes s

-- s == t
unfoldable pub eqs : Str → Str → Bool
eqs [] [] = true
eqs [] (b ∷ t) = false
eqs (a ∷ s) [] = false
eqs (a ∷ s) (b ∷ t) = if a == b then eqs s t else false

pub eqs_iff : (s t : Str) → (eqs s t ≡ true) ↔ (s ≡ t)
unfolding eqs
eqs_iff [] [] = (λ _. refl, λ _. refl)
eqs_iff [] (b ∷ t) = (λ h. cc, λ h. cc)
eqs_iff (a ∷ s) [] = (λ h. cc, λ h. cc)
eqs_iff (a ∷ s) (b ∷ t) =
    (λ h. ground (arith, (eqs_iff s t).0), λ h. ground (arith, (eqs_iff s t).1))

pub eqs_refl : (s : Str) → eqs s s ≡ true
eqs_refl s = (eqs_iff s s).1 refl

abbrev pub is_empty : Str → Bool
is_empty [] = true
is_empty (c ∷ s) = false

-- unicode.IsSpace on the ASCII range
unfoldable pub is_space : ℕ → Bool
is_space c = c == 32 || (leb 9 c && leb c 13)

unfoldable pub trim_left : Str → Str
trim_left [] = []
trim_left (c ∷ s) = if is_space c then trim_left s else c ∷ s

-- strings.TrimSpace
unfoldable pub trim_space : Str → Str
unfolding trim_left is_space
trim_space s = reverse (trim_left (reverse (trim_left s)))

unfoldable pub lower : ℕ → ℕ
lower c = if leb b'A' c && leb c b'Z' then c + 32 else c

-- strings.ToLower
unfoldable pub to_lower : Str → Str
unfolding lower
to_lower = map lower

lower_idem : (c : ℕ) → lower (lower c) ≡ lower c
unfolding lower
lower_idem c = ground arith

pub to_lower_idem : (s : Str) → to_lower (to_lower s) ≡ to_lower s
unfolding to_lower
to_lower_idem [] = refl
to_lower_idem (c ∷ s) = cc (lower_idem c, to_lower_idem s)

-- Equality of two values of a CITEXT column.
unfoldable pub citext_eq : Str → Str → Bool
citext_eq s t = eqs (to_lower s) (to_lower t)

pub citext_eq_refl : (s : Str) → citext_eq s s ≡ true
unfolding citext_eq
citext_eq_refl s = eqs_refl (to_lower s)

abbrev pub extend : ℕ → List Str → List Str
extend c [] = (c ∷ []) ∷ []
extend c (p ∷ ps) = (c ∷ p) ∷ ps

-- strings.Split, where the separator is one byte
unfoldable pub split : ℕ → Str → List Str
split sep [] = [] ∷ []
split sep (c ∷ s) = let rest = split sep s in if c == sep then [] ∷ rest else extend c rest

-- strings.Join
unfoldable pub join : Str → List Str → Str
join sep [] = []
join sep (p ∷ []) = p
join sep (p ∷ q ∷ ps) = p ++ (sep ++ join sep (q ∷ ps))
