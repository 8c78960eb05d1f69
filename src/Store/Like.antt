-- ===== src/Store/Like.antt =====
-- The string functions of PostgreSQL that tools/api/internal/store/queries.go asks for: SUBSTR and
-- ILIKE, over strings in UTF-8.
use balvibot.Prelude.{
  ℕ, zero, suc, ◌/◌, ◌≡◌, refl, Bool, true, false, [], ◌∷◌, ◌++◌, Str, codes, to_lower, is_empty,
  ◌==◌, if◌then◌else◌,
}

-- The bytes that go on with a character of UTF-8 are passed over.
drop_continuation : Str → Str
drop_continuation [] = []
drop_continuation (c ∷ s) = if c / 64 == 2 then drop_continuation s else c ∷ s

-- SUBSTR(s, 1, n) of a string in UTF-8: its first n characters
unfoldable pub take_chars : ℕ → Str → Str
take_chars n [] = []
take_chars zero (c ∷ s) = if c / 64 == 2 then c ∷ take_chars zero s else []
take_chars (suc n) (c ∷ s) = if c / 64 == 2 then c ∷ take_chars (suc n) s else c ∷ take_chars n s

-- The test holds of the string, or of what is left of it behind some of its bytes.
suffix_holds : (Str → Bool) → Str → Bool
suffix_holds test [] = test []
suffix_holds test (c ∷ s) = if test (c ∷ s) then true else suffix_holds test s

-- The next byte is this one, and the rest is as asked.
abbrev next_is : ℕ → (Str → Bool) → Str → Bool
next_is c rest [] = false
next_is c rest (b ∷ s) = if b == c then rest s else false

-- The next character is any one, and the rest is as asked.
abbrev any_next : (Str → Bool) → Str → Bool
any_next rest [] = false
any_next rest (b ∷ s) = rest (drop_continuation s)

-- Whether the whole string matches the pattern of LIKE: `%` is any string, `_` any one character,
-- and `\` takes what follows it (`escaped`) as it is.
like : (escaped : Bool) → Str → Str → Bool
unfolding suffix_holds drop_continuation
like escaped [] s = is_empty s
like true (c ∷ p) s = next_is c (like false p) s
like false (c ∷ p) s =
    if c == b'%'
    then suffix_holds (like false p) s
    else if c == b'_'
    then any_next (like false p) s
    else if c == 92
    then like true p s
    else next_is c (like false p) s

-- column ILIKE '%' || pattern || '%'
unfoldable pub ilike_contains : Str → Str → Bool
unfolding like
ilike_contains p s = like false (b'%' ∷ to_lower p ++ b'%' ∷ []) (to_lower s)

ilike_test :
    (ilike_contains (codes "A_c") (codes "xxabcx") ≡ true)
    × (ilike_contains (codes "a%z") (codes "say fizz") ≡ true)
    × (ilike_contains (codes "50\\%") (codes "500") ≡ false)
    × (ilike_contains (codes "50\\%") (codes "a 50% off") ≡ true)
unfolding ilike_contains to_lower
ilike_test = (refl, refl, refl, refl)
