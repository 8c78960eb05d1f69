-- ===== src/ApprovalServer.antt =====
-- tools/api/internal/approvalserver/handlers.go: the REST handlers of the approval service. A
-- handler is given the parts of its request, and its reply is the value that it writes.
pub mod Gate
pub mod Outcome
pub mod Settled
pub mod Shown
pub mod Path
pub mod Once
pub mod Race
pub mod History
use balvibot.Prelude.{
  max_int64, unsigned, ℕ, zero, suc, ◌+◌, ◌-◌, ◌*◌, ◌^◌, Bool, ◌&&◌, ◌||◌, Option, none, some, List,
  [], ◌∷◌, ◌++◌, Str, codes, eqs, is_empty, ◌==◌, ltb, leb, if◌then◌else◌,
}
use balvibot.Errors.{Error, Result, ok, err, is_not_found, error_text}
use balvibot.Store.Schema.{UserRow}
use balvibot.Store.Exec.{Exec, pure, or_else, ◌>>=◌}
use balvibot.Store.Approvals.{
  ApprovalAction, approval_pending, raw_or_empty, get_action, get_approval_user,
  list_actions_by_status, mark_action_executed, mark_action_failed,
}
use balvibot.Approval.Payload.{signing_payload}
use balvibot.Approval.Keys.{Ssh, verify}
use balvibot.Approval.Registry.{Registry, dispatch}

-- What a handler writes: an error, or one of the shapes of types.go. The payload of ActionView
-- stands before its base64 form.
pub data Body : Type 0 where
  error_response : Str → Body
  list_actions_response : List ApprovalAction → Body
  action_view : ApprovalAction → Str → Body
  approval_user_view : UserRow → Body
  approve_response : ℕ → Body

pub record Response : Type 0 where
  pub status : ℕ
  pub body : Body

abbrev pub write_error : ℕ → Str → Response
write_error status msg = record { status = status; body = error_response msg }

abbrev pub write_json : Body → Response
write_json b = record { status = 200; body = b }

-- The handler fails inside: its error goes out with the status 500.
abbrev pub internal : Error → Exec Response
internal e = pure (write_error 500 (error_text e))

unfoldable pub strip_plus : Str → Str
strip_plus [] = []
strip_plus (c ∷ s) = if c == b'+' then s else c ∷ s

abbrev pub positive_int64 : Option ℕ → Option ℕ
positive_int64 none = none
positive_int64 (some n) = if ltb 0 n && leb n max_int64 then some n else none

-- parseID: strconv.ParseInt, and an id is from 1 on, so a text with a minus sign is no id
unfoldable pub parse_id : Str → Option ℕ
unfolding unsigned strip_plus
parse_id s = positive_int64 (unsigned (strip_plus s))

-- listActions
unfoldable pub list_actions_handler : Str → Exec Response
unfolding or_else list_actions_by_status error_text
list_actions_handler status =
    or_else (list_actions_by_status (if is_empty status then approval_pending else status)) internal
      λ actions. pure (write_json (list_actions_response actions))

abbrev lookup_failed : ℕ → Str → Error → Exec Response
lookup_failed status msg e = if is_not_found e then pure (write_error status msg) else internal e

-- getAction once the path is parsed
unfoldable pub show_action : Option ℕ → Exec Response
unfolding or_else get_action error_text signing_payload raw_or_empty is_not_found
show_action none = pure (write_error 400 (codes "invalid action id"))
show_action (some id) =
    or_else (get_action id) (lookup_failed 404 (codes "action not found"))
      λ a. pure (write_json (action_view a (signing_payload a.id a.action (raw_or_empty a.args))))

-- getAction
unfoldable pub get_action_handler : Str → Exec Response
unfolding show_action parse_id
get_action_handler path = show_action (parse_id path)

-- getApprovalUser
unfoldable pub get_approval_user_handler : Str → Exec Response
unfolding or_else get_approval_user error_text is_not_found
get_approval_user_handler email =
    if is_empty email
    then pure (write_error 400 (codes "email is required"))
    else or_else (get_approval_user email)
        (lookup_failed 404 (codes "no authorized key for " ++ email))
        (λ u. pure (write_json (approval_user_view u)))

-- type ApproveRequest
pub record ApproveRequest : Type 0 where
  pub email : Str
  pub signature : Str

-- approveAction up to the point where the signature is verified: a reply, or the action to dispatch.
pub data Verdict : Type 0 where
  refuse : Response → Verdict
  proceed : ApprovalAction → Verdict

abbrev pub refused : ℕ → Str → Exec Verdict
refused status msg = pure (refuse (write_error status msg))

abbrev pub refused_lookup : ℕ → Str → Error → Exec Verdict
refused_lookup status msg e =
    if is_not_found e then refused status msg else refused 500 (error_text e)

-- The dispatch failed: the outcome is recorded, if that succeeds, and reported.
unfoldable pub record_failure : ℕ → Str → Error → Exec Response
unfolding or_else mark_action_failed error_text
record_failure id email e =
    let reply = write_error 500 (codes "action failed: " ++ error_text e) in
    or_else (mark_action_failed id email (error_text e)) (λ _. pure reply) (λ _. pure reply)

unfoldable pub record_success : ℕ → Str → Exec Response
unfolding or_else mark_action_executed error_text
record_success id email =
    or_else (mark_action_executed id email) internal λ _. pure (write_json (approve_response id))

-- approveAction from the dispatch on.
unfoldable pub carry_out : Registry → ℕ → Str → ApprovalAction → Exec Response
unfolding or_else dispatch record_failure record_success raw_or_empty
carry_out registry id email a =
    or_else (dispatch registry a.action (raw_or_empty a.args)) (record_failure id email)
      (λ _. record_success id email)

abbrev pub act : Registry → ℕ → Str → Verdict → Exec Response
act registry id email (refuse r) = pure r
act registry id email (proceed a) = carry_out registry id email a

module _ (ssh : Ssh) where
  -- The signature over the action's payload, by the operator's key.
  unfoldable pub verify_approval : ApprovalAction → UserRow → Str → Result (Unit {0})
  unfolding verify signing_payload raw_or_empty
  verify_approval a user signature =
      verify ssh user.ssh_public_key (signing_payload a.id a.action (raw_or_empty a.args)) signature

  abbrev pub verdict : ApprovalAction → Result (Unit {0}) → Verdict
  verdict a (err e) = refuse (write_error 403 (codes "signature verification failed"))
  verdict a (ok u) = proceed a

  unfoldable pub check_user : ApproveRequest → ApprovalAction → Exec Verdict
  unfolding or_else get_approval_user verify_approval is_not_found error_text
  check_user req a =
      if eqs a.status approval_pending
      then or_else (get_approval_user req.email)
          (refused_lookup 403 (codes "no authorized key for " ++ req.email))
          (λ user. pure (verdict a (verify_approval a user req.signature)))
      else refused 409 (codes "action is not pending (status=" ++ (a.status ++ codes ")"))

  unfoldable pub decide : ℕ → ApproveRequest → Exec Verdict
  unfolding or_else get_action check_user is_not_found error_text
  decide id req =
      if is_empty req.email || is_empty req.signature
      then refused 400 (codes "email and signature are required")
      else or_else (get_action id) (refused_lookup 404 (codes "action not found")) (check_user req)

  -- The handler once the path and the body are parsed.
  unfoldable pub approve_parsed : Registry → Option ℕ → Option ApproveRequest → Exec Response
  unfolding ◌>>=◌ decide carry_out
  approve_parsed registry none body = pure (write_error 400 (codes "invalid action id"))
  approve_parsed registry (some id) none = pure (write_error 400 (codes "invalid request body"))
  approve_parsed registry (some id) (some req) = do v ← decide id req; act registry id req.email v

  -- approveAction, at the id of the path and the request body, or `none` for a body that the JSON
  -- decoder refuses
  unfoldable pub approve_action : Registry → Str → Option ApproveRequest → Exec Response
  unfolding approve_parsed parse_id
  approve_action registry path body = approve_parsed registry (parse_id path) body
