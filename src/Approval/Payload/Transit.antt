-- ===== src/Approval/Payload/Transit.antt =====
-- The server signs over the args as the database has them, the client over the args as HTTP
-- brought them.
use mathlib.Core.Path.{subst}
use balvibot.Prelude.{
  ℕ, zero, suc, ◌≡◌, ◌≢◌, refl, sym, ap, ◌∙◌, true, false, Bool, ◌==◌, ◌||◌, ◌&&◌, some, [], ◌∷◌,
  ◌++◌, Str, All, any_row, itoa, arith, inl, inr, Bool-cases, Option-cases, ◌⊎◌,
}
use balvibot.Json.Compact.{
  compact, is_html, is_separator, escape_byte, last_digit, escape_from, escape_html,
}
use balvibot.Json.Compact.Bytes.{All-compact}
use balvibot.Json.Compact.Stable.{compact_stable}
use mathlib.Core.Bool.{false≢true}
use balvibot.Approval.Payload.{payload_version, canonical, signing_payload, in_transit}
use balvibot.Approval.Payload.Binding.{drop_first}
use balvibot.Store.Approvals.{raw_or_empty}

-- A byte, before these bytes, that encoding/json writes as an escape: `<`, `>`, `&`, or the first of
-- the three bytes of U+2028 or U+2029.
abbrev pub is_escaped : ℕ → Str → Bool
is_escaped c (a ∷ b ∷ s) =
    c == 60 || c == 62 || c == 38 || c == 0xe2 && a == 0x80 && (b == 0xa8 || b == 0xa9)
is_escaped c _ = c == 60 || c == 62 || c == 38

-- The text has no such byte.
abbrev pub IsPlain : Str → Type 0
IsPlain [] = Unit
IsPlain (c ∷ s) = (is_escaped c s ≡ false) × IsPlain s

abbrev IsSafe : ℕ → Type 0
IsSafe c = is_html c ≡ false

not_escaped :
    (c : ℕ) (s : Str) → is_escaped c s ≡ false → (is_separator c s ≡ false) × (is_html c ≡ false)
unfolding is_separator is_html
not_escaped c [] h = (refl, h)
not_escaped c (a ∷ []) h = (refl, h)
not_escaped c (a ∷ b ∷ s) h = (ground arith, ground arith)

escape-plain : (s : Str) → IsPlain s → escape_from 0 s ≡ s
unfolding escape_from
escape-plain [] h = refl
escape-plain (c ∷ s) h =
    let (separator, html) = not_escaped c s h.0 in
    rw (separator, html) (ap (λ r. c ∷ r) (escape-plain s h.1))

All-append : (P : ℕ → Type 0) (s t : Str) → All P s → All P t → All P (s ++ t)
All-append P [] t hs ht = ht
All-append P (c ∷ s) t hs ht = (hs.0, All-append P s t hs.1 ht)

html_cases : (c : ℕ) → is_html c ≡ true → (c ≡ 60) ⊎ ((c ≡ 62) ⊎ (c ≡ 38))
unfolding is_html
html_cases c h = ground arith

escape_byte-IsSafe : (c : ℕ) → All IsSafe (escape_byte c)
unfolding is_html
escape_byte-IsSafe c = elim (Bool-cases (is_html c)) [
  | inr e ↦ rw e (e, tt)
  | inl e ↦ elim (html_cases c e) [
    | inl h ↦ rw h (refl, (refl, (refl, (refl, (refl, (refl, tt))))))
    | inr (inl h) ↦ rw h (refl, (refl, (refl, (refl, (refl, (refl, tt))))))
    | inr (inr h) ↦ rw h (refl, (refl, (refl, (refl, (refl, (refl, tt))))))
  ]
]

last_digit-safe : (c : ℕ) (s : Str) → is_separator c s ≡ true → is_html (last_digit s) ≡ false
unfolding is_separator is_html
last_digit-safe c [] h = cc
last_digit-safe c (a ∷ []) h = cc
last_digit-safe c (a ∷ b ∷ s) h = ground arith

-- Nothing that means something in HTML is left.
escape-IsSafe : (left : ℕ) (s : Str) → All IsSafe (escape_from left s)
unfolding escape_from
escape-IsSafe left [] = tt
escape-IsSafe (suc left) (c ∷ s) = escape-IsSafe left s
escape-IsSafe zero (c ∷ s) = elim (Bool-cases (is_separator c s)) [
  | inl e ↦ rw e (refl, (refl, (refl, (refl, (refl, (last_digit-safe c s e, escape-IsSafe 2 s))))))
  | inr e ↦ rw e (All-append IsSafe (escape_byte c) _ (escape_byte-IsSafe c) (escape-IsSafe 0 s))
]

pub raw_or_empty-cons : (args t : Str) → compact args ≡ some t → raw_or_empty args ≡ args
unfolding raw_or_empty compact
raw_or_empty-cons [] t h = cc
raw_or_empty-cons (c ∷ args) t h = refl

canonical_of_compact : (args t : Str) → compact args ≡ some t → canonical args ≡ t
unfolding canonical
canonical_of_compact args t h = rw (raw_or_empty-cons args t h, h)

canonical-IsSafe : (s : Str) → All IsSafe s → All IsSafe (canonical s)
unfolding canonical raw_or_empty is_html
canonical-IsSafe [] h = (refl, (refl, tt))
canonical-IsSafe (c ∷ s) h = elim (Option-cases (compact (c ∷ s))) [
  | inl e ↦ rw e h
  | inr (t, e) ↦ rw e (All-compact IsSafe (c ∷ s) t e h)
]

safe_has_no_html : (s : Str) → All IsSafe s → any_row is_html s ≡ false
unfolding any_row
safe_has_no_html [] h = refl
safe_has_no_html (c ∷ s) h = rw h.0 (safe_has_no_html s h.1)

same_canonical :
    (id : ℕ) (action x y : Str)
    → canonical x ≡ canonical y
    → signing_payload id action x ≡ signing_payload id action y
unfolding signing_payload
same_canonical id action x y e =
    ap (λ c. payload_version ++ (10 ∷ (itoa id ++ (10 ∷ (action ++ (10 ∷ c)))))) e

canonical_of_payload :
    (id : ℕ) (action x y : Str)
    → signing_payload id action x ≡ signing_payload id action y
    → canonical x ≡ canonical y
unfolding signing_payload
canonical_of_payload id action x y e = drop_first (10 ∷ []) _ _ (
    drop_first action _ _ (
      drop_first (10 ∷ []) _ _
        (drop_first (itoa id) _ _ (drop_first (payload_version ++ (10 ∷ [])) _ _ e))))

received_lem :
    (args t received : Str)
    → compact args ≡ some t
    → in_transit args ≡ some received
    → received ≡ escape_html t
unfolding in_transit
received_lem args t received h e = ground arith

-- Where the args hold no byte that is escaped (no `<`, `>` or `&`, no U+2028 and no U+2029), the client builds the payload that the server
-- verifies, however the database has spaced them.
pub transit_agrees :
    (id : ℕ) (action args t received : Str)
    → compact args ≡ some t
    → IsPlain t
    → in_transit args ≡ some received
    → signing_payload id action received ≡ signing_payload id action args
unfolding escape_html
transit_agrees id action args t received h plain e =
    let same : received ≡ t = received_lem args t received h e ∙ escape-plain t plain in
    same_canonical id action received args (
      ap canonical same
      ∙ canonical_of_compact t t (compact_stable args t h)
      ∙ sym (canonical_of_compact args t h))

-- Where they hold one of `<`, `>` and `&`, the client builds another payload than the server's.
pub transit_differs :
    (id : ℕ) (action args t received : Str)
    → compact args ≡ some t
    → any_row is_html t ≡ true
    → in_transit args ≡ some received
    → signing_payload id action received ≢ signing_payload id action args
unfolding escape_html
transit_differs id action args t received h html e same =
    let safe : All IsSafe received = rw (received_lem args t received h e) (escape-IsSafe 0 t) in
    let same_args : canonical received ≡ t =
      canonical_of_payload id action received args same ∙ canonical_of_compact args t h in
    false≢true (
      sym (safe_has_no_html t (subst (All IsSafe) same_args (canonical-IsSafe received safe)))
      ∙ html)
