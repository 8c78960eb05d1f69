-- ===== src/Store/Text.antt =====
-- The text helpers of tools/api/internal/store/store.go: nullStr and cleanText.
pub mod Clean
use balvibot.Prelude.{
  ℕ, zero, suc, ◌-◌, ◌≡◌, refl, Bool, false, ◌&&◌, Option, none, some, [], ◌∷◌, ◌++◌, Str, codes,
  is_empty, ◌==◌, ltb, leb, if◌then◌else◌,
}

-- nullStr
unfoldable pub null_str : Str → Option Str
null_str s = if is_empty s then none else some s

-- COALESCE(column, '')
abbrev pub or_empty : Option Str → Str
or_empty none = []
or_empty (some s) = s

abbrev within : ℕ → ℕ → ℕ → Bool
within lo hi c = leb lo c && leb c hi

-- The byte at a position, or 0 past the end, which continues no sequence.
abbrev byte_at : Str → ℕ → ℕ
byte_at [] i = 0
byte_at (c ∷ s) zero = c
byte_at (c ∷ s) (suc i) = byte_at s i

-- Whether `b` may follow the first byte `a` of a sequence of three or four bytes.
second_byte : ℕ → ℕ → Bool
second_byte a b =
    if a == 0xe0
    then within 0xa0 0xbf b
    else if a == 0xed
    then within 0x80 0x9f b
    else if a == 0xf0
    then within 0x90 0xbf b
    else if a == 0xf4
    then within 0x80 0x8f b
    else within 0x80 0xbf b

-- The length of the UTF-8 sequence that starts a string, or 0 if none does.
unfoldable pub rune_len : Str → ℕ
unfolding second_byte
rune_len s =
    let a = byte_at s 0 in
    let b = byte_at s 1 in
    let third = within 0x80 0xbf (byte_at s 2) in
    let fourth = within 0x80 0xbf (byte_at s 3) in
    if ltb a 0x80
    then 1
    else if within 0xc2 0xdf a && within 0x80 0xbf b
    then 2
    else if within 0xe0 0xef a && second_byte a b && third
    then 3
    else if within 0xf0 0xf4 a && second_byte a b && third && fourth
    then 4
    else 0

abbrev pub replacement : Str
replacement = 0xef ∷ 0xbf ∷ 0xbd ∷ []

-- strings.ToValidUTF8: `left` bytes of a valid sequence are still to be copied; `bad` says that the
-- byte before was invalid, since a run of invalid bytes is replaced once.
unfoldable pub to_valid_utf8 : ℕ → Bool → Str → Str
unfolding rune_len
to_valid_utf8 left bad [] = []
to_valid_utf8 (suc left) bad (c ∷ s) = c ∷ to_valid_utf8 left false s
to_valid_utf8 zero bad (c ∷ s) =
    let n = rune_len (c ∷ s) in
    (if n == 0 then (if bad then [] else replacement) else c ∷ [])
    ++ to_valid_utf8 (n - 1) (n == 0) s

-- strings.ReplaceAll(s, "\x00", "")
unfoldable pub strip_nul : Str → Str
strip_nul [] = []
strip_nul (c ∷ s) = (if c == 0 then [] else c ∷ []) ++ strip_nul s

-- cleanText; a string that is valid UTF-8 goes through ToValidUTF8 unchanged
unfoldable pub clean_text : Str → Str
unfolding strip_nul to_valid_utf8
clean_text s = to_valid_utf8 0 false (strip_nul s)

clean_nul : clean_text (codes "a\0b\0") ≡ codes "ab"
unfolding clean_text
clean_nul = refl

clean_invalid :
    clean_text (b'a' ∷ 0xff ∷ 0xfe ∷ 0xc3 ∷ 0xa9 ∷ [])
    ≡ b'a' ∷ 0xef ∷ 0xbf ∷ 0xbd ∷ 0xc3 ∷ 0xa9 ∷ []
unfolding clean_text
clean_invalid = refl
