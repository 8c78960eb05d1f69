-- ===== src/ApprovalServer/Shown.antt =====
-- An operator signs what getAction shows.
use balvibot.Prelude.{ℕ, ◌≡◌, refl, ◌∙◌, false, some, Str, is_empty}
use balvibot.Errors.{ok}
use balvibot.Store.Schema.{ActionRow, UserRow}
use balvibot.Store.Exec.{World, pure}
use balvibot.Store.Reads.{calm, or_else-ok}
use balvibot.Store.Approvals.{
  approval_pending, raw_or_empty, scan_action, action_with_id, user_with_email, get_action,
}
use balvibot.Approval.Payload.{signing_payload}
use balvibot.Approval.Keys.{Ssh, verify}
use balvibot.Approval.Registry.{Registry}
use balvibot.ApprovalServer.{
  ApproveRequest, action_view, write_json, parse_id, get_action_handler, show_action,
  verify_approval, carry_out, approve_action,
}
use balvibot.ApprovalServer.Gate.{Authorised}
use balvibot.ApprovalServer.Outcome.{get_action-calm, reaches_dispatch}

-- What is shown of a row, with the payload to sign.
abbrev pub payload_of : ActionRow → Str
payload_of row = signing_payload row.id row.action (raw_or_empty row.args)

module _ (ssh : Ssh) (registry : Registry) (path : Str) (id : ℕ) (req : ApproveRequest) (w : World)
    (row : ActionRow) (user : UserRow) (parsed : parse_id path ≡ some id)
    (found : action_with_id id w.db ≡ some row) (pending : row.status ≡ approval_pending)
    (known : user_with_email req.email w.db ≡ some user)
    (signed : verify ssh user.ssh_public_key (payload_of row) req.signature ≡ ok tt)
    (has_email : is_empty req.email ≡ false) (has_signature : is_empty req.signature ≡ false) where
  auth : Authorised ssh id req w.db
  unfolding verify_approval scan_action
  auth = record {
    row = row;
    user = user;
    found = found;
    pending = pending;
    known = known;
    signed = signed;
  }

  -- While the database answers, getAction of a path shows a pending action with its payload, and a
  -- request to approve at that path, by an operator whose key verifies the signature over that
  -- payload, passes every check: it dispatches the action.
  pub shown_payload_is_accepted :
      (get_action_handler path (calm w)
        ≡ (ok (write_json (action_view (scan_action row) (payload_of row))), calm w))
      × (approve_action ssh registry path (some req) (calm w)
          ≡ carry_out registry id req.email (scan_action row) (calm w))
  unfolding get_action_handler show_action approve_action auth
  shown_payload_is_accepted = (
    rw parsed (
        or_else-ok (get_action id) _ _ (calm w) (calm w) (scan_action row)
          (get_action-calm id row w found)
        ∙ unfold pure scan_action in refl),
    rw parsed (reaches_dispatch ssh registry id req w auth has_email has_signature),
  )
