-- ===== src/Approval/Payload.antt =====
-- tools/api/internal/approval/signing.go: the bytes that an operator signs.
pub mod Binding
pub mod Transit
use balvibot.Prelude.{
  ℕ, Option, none, some, [], ◌∷◌, ◌++◌, Str, codes, is_empty, itoa, if◌then◌else◌,
}
use balvibot.Json.Compact.{compact, escape_html}
use balvibot.Store.Approvals.{raw_or_empty}

abbrev pub payload_version : Str
payload_version = codes "balvi-approval:v1"

-- Text that is no JSON stays as it is.
abbrev pub or_raw : Str → Option Str → Str
or_raw raw none = raw
or_raw raw (some s) = s

-- The args as the payload holds them.
unfoldable pub canonical : Str → Str
unfolding compact raw_or_empty
canonical args = or_raw (raw_or_empty args) (compact (raw_or_empty args))

-- SigningPayload
unfoldable pub signing_payload : ℕ → Str → Str → Str
unfolding canonical itoa
signing_payload id action args =
    payload_version ++ (10 ∷ (itoa id ++ (10 ∷ (action ++ (10 ∷ canonical args)))))

-- The args as they reach the client: encoding/json writes a json.RawMessage in compact form with
-- the HTML escapes, and refuses one that is no JSON.
unfoldable pub in_transit : Str → Option Str
unfolding compact escape_html
in_transit args = elim (compact args) [ none ↦ none | some s ↦ some (escape_html s) ]
