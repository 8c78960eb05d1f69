-- ===== src/Json/Compact.antt =====
-- json.Compact of package encoding/json, with and without the escapes of HTML characters.
pub mod Bytes
pub mod Stable
use balvibot.Prelude.{
  ℕ, zero, suc, ◌+◌, ◌/◌, ◌%◌, ◌≡◌, refl, Bool, true, false, ◌&&◌, ◌||◌, Option, none, some, List,
  [], ◌∷◌, ◌++◌, Str, codes, ◌==◌, ltb, if◌then◌else◌,
}
use balvibot.Json.Scanner.{State, Frame, Step, begin_value, keep, skip, bad, step, is_complete}

abbrev pub prepend : ℕ → Option Str → Option Str
prepend c none = none
prepend c (some s) = some (c ∷ s)

-- The loop of appendCompact, from a state of the scanner; `none` is a syntax error.
unfoldable pub compact_from : State → List Frame → Str → Option Str
unfolding step is_complete
compact_from st frames [] = if is_complete st frames then some [] else none
compact_from st frames (c ∷ s) = elim (step st frames c) [
  | keep st' frames' ↦ prepend c (compact_from st' frames' s)
  | skip st' frames' ↦ compact_from st' frames' s
  | bad ↦ none
]

-- json.Compact
unfoldable pub compact : Str → Option Str
unfolding compact_from
compact s = compact_from begin_value [] s

abbrev hex_digit : ℕ → ℕ
hex_digit n = if ltb n 10 then 48 + n else 87 + n

-- The bytes that the encoder writes as an escape: those that mean something in HTML.
unfoldable pub is_html : ℕ → Bool
is_html c = c == b'<' || c == b'>' || c == b'&'

abbrev pub escape_byte : ℕ → Str
escape_byte c =
    if is_html c
    then 92 ∷ b'u' ∷ b'0' ∷ b'0' ∷ hex_digit (c / 16) ∷ hex_digit (c % 16) ∷ []
    else c ∷ []

-- U+2028 or U+2029 behind the byte 0xe2 that starts it.
unfoldable pub is_separator : ℕ → Str → Bool
is_separator c (a ∷ b ∷ s) = c == 0xe2 && a == 0x80 && (b == 0xa8 || b == 0xa9)
is_separator c _ = false

abbrev pub last_digit : Str → ℕ
last_digit (a ∷ b ∷ s) = 48 + b % 16
last_digit _ = 48

-- `left` bytes of a character that was escaped whole are still to be passed over.
unfoldable pub escape_from : ℕ → Str → Str
unfolding is_html is_separator
escape_from left [] = []
escape_from (suc left) (c ∷ s) = escape_from left s
escape_from zero (c ∷ s) =
    if is_separator c s
    then 92 ∷ b'u' ∷ b'2' ∷ b'0' ∷ b'2' ∷ last_digit s ∷ escape_from 2 s
    else escape_byte c ++ escape_from 0 s

-- The escapes that appendCompact makes with escapeHTML in text that is compact.
unfoldable pub escape_html : Str → Str
unfolding escape_from
escape_html s = escape_from 0 s

compact_object :
    compact (codes "{\"to\": [1, -2.5e+3 ] ,\n \"a b\":true}")
    ≡ some (codes "{\"to\":[1,-2.5e+3],\"a b\":true}")
unfolding compact
compact_object = refl

compact_errors :
    (compact (codes "{\"a\":01}") ≡ none) × (compact (codes "[1 2]") ≡ none) × (compact [] ≡ none)
unfolding compact
compact_errors = (refl, refl, refl)

escape_ampersand : escape_html (codes "a&b<") ≡ codes "a\\u0026b\\u003c"
unfolding escape_html
escape_ampersand = refl
