-- ===== src/ApproveCli/Http.antt =====
-- tools/api/cmd/approve/main.go: the requests of the command line, over HTTP to the approval server.
use balvibot.Prelude.{ℕ, Option, some, [], ◌++◌, Str, codes, is_empty, leb, if◌then◌else◌}
use balvibot.Errors.{Error, message}
use balvibot.Store.Exec.{Exec, pure, fail, ◌>>=◌}
use balvibot.Store.Approvals.{ApprovalAction}
use balvibot.Approval.Keys.{Ssh}
use balvibot.Approval.Payload.{in_transit}
use balvibot.Approval.Registry.{Registry}
use balvibot.ApprovalServer.{
  Response, Body, error_response, action_view, approval_user_view, approve_response,
  get_action_handler, get_approval_user_handler, approve_action,
}
use balvibot.ApproveCli.{ActionView, Approved, Service, Encoding}

-- json.Unmarshal of an empty body
abbrev pub no_body : Error
no_body = message (codes "unexpected end of JSON input")

-- The text of an error reply, or its body where it has none.
abbrev error_of : Body → Str
error_of (error_response msg) = if is_empty msg then codes "{\"error\":\"\"}\n" else msg
error_of _ = []

abbrev with_raw : ApprovalAction → Str → Option Str → Option Str → Exec ActionView
with_raw a payload (some args) (some metadata) = pure (record {
  action = record a { args = args; metadata = metadata };
  signing_payload_b64 = payload;
})
with_raw a payload _ _ = fail no_body

module _ (status_line : ℕ → Str) where
  -- doJSON, up to the decoding of a reply that is no error
  unfoldable pub received : Response → Exec Body
  received r =
      if leb 300 r.status
      then fail (message (status_line r.status ++ (codes ": " ++ error_of r.body)))
      else pure r.body

  module _ (encoding : Encoding) where
    -- The action with the args and the metadata as the JSON encoder of the server sends them. A
    -- handler sends no other shape than its own.
    unfoldable pub view_in : Body → Exec ActionView
    unfolding in_transit
    view_in (action_view a payload) =
        with_raw a (encoding.encode payload) (in_transit a.args) (in_transit a.metadata)
    view_in _ = fail no_body

    unfoldable pub fingerprint_in : Body → Exec Str
    fingerprint_in (approval_user_view u) = pure u.fingerprint
    fingerprint_in _ = fail no_body

    unfoldable pub approved_in : Body → Exec Approved
    approved_in (approve_response id) =
        pure (record { approval_id = id; status = codes "executed" })
    approved_in _ = fail no_body

    -- getJSON and postJSON against the handlers of the approval server
    unfoldable pub over_http : Ssh → Registry → Service
    unfolding ◌>>=◌ received view_in fingerprint_in approved_in get_action_handler
        get_approval_user_handler approve_action
    over_http ssh registry = record {
      fetch_action = λ id. get_action_handler id >>= received >>= view_in;
      fetch_fingerprint = λ email. get_approval_user_handler email >>= received >>= fingerprint_in;
      submit = λ id email signature.
          approve_action ssh registry id (some (record { email = email; signature = signature }))
          >>= received
          >>= approved_in;
    }
