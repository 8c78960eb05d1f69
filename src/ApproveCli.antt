-- ===== src/ApproveCli.antt =====
-- tools/api/cmd/approve/main.go: the command line of the operators.
pub mod Keys
pub mod Http
pub mod EndToEnd
pub mod Chosen
use balvibot.Prelude.{
  ℕ, Bool, true, false, not, ◌&&◌, ◌||◌, List, [], ◌∷◌, ◌++◌, Str, codes, eqs, is_empty, itoa,
  if◌then◌else◌,
}
use balvibot.Errors.{Error, Result, ok, err, message}
use balvibot.Store.Exec.{Exec, pure, fail, lift, or_else, ◌>>=◌}
use balvibot.Store.Approvals.{ApprovalAction, approval_pending}
use balvibot.Approval.Keys.{in_context}
use balvibot.Approval.Payload.{signing_payload}
use balvibot.ApproveCli.Keys.{Signer, KeyRing, get_signer}

-- type globals, the server's address aside, with the flag --yes and what the operator answers
pub record Options : Type 0 where
  pub email : Str
  pub key : Str
  pub agent_key : Str
  pub skip_prompt : Bool
  pub answer : Str

-- type actionView
pub record ActionView : Type 0 where
  pub action : ApprovalAction
  pub signing_payload_b64 : Str

-- What postJSON of an approval decodes.
pub record Approved : Type 0 where
  pub approval_id : ℕ
  pub status : Str

-- The requests that the command makes, with what doJSON makes of the replies.
pub record Service : Type 0 where
  pub fetch_action : Str → Exec ActionView
  pub fetch_fingerprint : Str → Exec Str
  pub submit : Str → Str → Str → Exec Approved

-- What the command takes from base64 and from MarshalSignature.
pub record Encoding : Type 0 where
  pub encode : Str → Str
  pub decode : Str → Result Str
  pub marshal_signature : Str → Str

-- confirm
unfoldable pub confirm : Str → Bool
confirm answer = eqs answer (codes "y") || eqs answer (codes "Y") || eqs answer (codes "yes")

abbrev pub mismatch : Error
mismatch = message (codes "signing payload mismatch between client and server; refusing to sign")

module _ (ring : KeyRing) (encoding : Encoding) (service : Service) (options : Options)
    (id : Str) where
  -- The key is chosen by the fingerprint that the server has, if it has one; the payload is signed
  -- with it and the signature sent.
  unfoldable pub sign_and_submit : Str → Exec Approved
  unfolding ◌>>=◌ or_else get_signer
  sign_and_submit payload = do
    want ← or_else (service.fetch_fingerprint options.email) (λ e. pure []) pure
    signer ← lift (get_signer ring options.key options.agent_key want)
    signature ← lift (in_context (codes "sign: ") (signer.sign payload))
    service.submit id options.email (encoding.marshal_signature signature)

  -- The payload that the client builds against that of the server.
  unfoldable pub compare_payloads : Str → Str → Exec Approved
  unfolding confirm sign_and_submit
  compare_payloads local theirs =
      if not (eqs local theirs)
      then fail mismatch
      else if not options.skip_prompt && not (confirm options.answer)
      then fail (message (codes "aborted"))
      else sign_and_submit local

  unfoldable pub review : ActionView → Exec Approved
  unfolding ◌>>=◌ compare_payloads signing_payload
  review view =
      let a = view.action in
      if not (eqs a.status approval_pending)
      then fail (
          message (
            codes "action "
            ++ (itoa a.id ++ (codes " is not pending (status=" ++ (a.status ++ codes ")")))))
      else do
        theirs ← lift (
            in_context (codes "decode server payload: ") (encoding.decode view.signing_payload_b64))
        compare_payloads (signing_payload a.id a.action a.args) theirs

  -- newApproveCmd
  unfoldable pub approve : Exec Approved
  unfolding ◌>>=◌ review
  approve =
      if is_empty options.email
      then fail (message (codes "--email is required (must match an authorized approval user)"))
      else service.fetch_action id >>= review
