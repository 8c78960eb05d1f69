-- ===== src/Examples/Payloads.antt =====
-- The theorems on the signed payload and the registry at examples.
use balvibot.Prelude.{
  Bool, false, ℕ, ◌≡◌, refl, true, false, some, [], ◌∷◌, Str, codes, itoa, any_row, ◌||◌, arith,
}
use balvibot.Json.Compact.{compact, escape_html, is_html}
use balvibot.Store.Approvals.{raw_or_empty}
use balvibot.Approval.Payload.{canonical, signing_payload, in_transit}
use balvibot.Approval.Payload.Binding.{IsJson, signing_payload-injective}
use balvibot.Approval.Payload.Transit.{is_escaped, IsPlain, transit_agrees}
use balvibot.Examples.{acme_args}

acme-IsJson : IsJson acme_args
unfolding compact raw_or_empty
acme-IsJson = (codes "{\"slug\":\"acme\"}", refl)

spaced-IsJson : IsJson (codes " { \"slug\" : \"acme\" } ")
unfolding compact raw_or_empty
spaced-IsJson = (codes "{\"slug\":\"acme\"}", refl)

same_payload :
    signing_payload 7 (codes "add_grantee") acme_args
    ≡ signing_payload 7 (codes "add_grantee") (codes " { \"slug\" : \"acme\" } ")
unfolding signing_payload canonical compact raw_or_empty itoa
same_payload = refl

abbrev seven : ℕ
seven = 7

signing_payload-injective_example :
    (seven ≡ seven)
    × (codes "add_grantee" ≡ codes "add_grantee")
    × (canonical acme_args ≡ canonical (codes " { \"slug\" : \"acme\" } "))
signing_payload-injective_example =
    signing_payload-injective 7 7 (codes "add_grantee") (codes "add_grantee") acme_args
      (codes " { \"slug\" : \"acme\" } ") acme-IsJson spaced-IsJson same_payload

pub compacted : compact acme_args ≡ some (codes "{\"slug\":\"acme\"}")
unfolding compact
compacted = refl

pub arrives : in_transit acme_args ≡ some (codes "{\"slug\":\"acme\"}")
unfolding in_transit compact escape_html
arrives = refl

abbrev has_escaped : Str → Bool
has_escaped [] = false
has_escaped (c ∷ s) = is_escaped c s || has_escaped s

pub IsPlain-of_test : (s : Str) → has_escaped s ≡ false → IsPlain s
IsPlain-of_test [] h = tt
IsPlain-of_test (c ∷ s) h = (ground arith, IsPlain-of_test s (ground arith))

pub IsPlain-args : IsPlain (codes "{\"slug\":\"acme\"}")
IsPlain-args = IsPlain-of_test (codes "{\"slug\":\"acme\"}") refl

-- A dash, U+2014, is brought as it is, and U+2028 is not.
dash_IsPlain : IsPlain (0xe2 ∷ 0x80 ∷ 0x94 ∷ [])
dash_IsPlain = (refl, (refl, (refl, tt)))

line_separator : is_escaped 0xe2 (0x80 ∷ 0xa8 ∷ []) ≡ true
line_separator = refl

transit_agrees_example :
    signing_payload 7 (codes "add_grantee") (codes "{\"slug\":\"acme\"}")
    ≡ signing_payload 7 (codes "add_grantee") acme_args
transit_agrees_example =
    transit_agrees 7 (codes "add_grantee") acme_args (codes "{\"slug\":\"acme\"}")
      (codes "{\"slug\":\"acme\"}") compacted IsPlain-args arrives

abbrev pub html_args : Str
html_args = codes "{\"slug\":\"R&D\"}"

abbrev pub html_received : Str
html_received = codes "{\"slug\":\"R\\u0026D\"}"

pub html_compacted : compact html_args ≡ some html_args
unfolding compact
html_compacted = refl

pub html_arrives : in_transit html_args ≡ some html_received
unfolding in_transit compact escape_html
html_arrives = refl

pub has_ampersand : any_row is_html html_args ≡ true
unfolding any_row is_html
has_ampersand = refl
