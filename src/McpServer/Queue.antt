-- ===== src/McpServer/Queue.antt =====
-- tools/api/internal/mcpserver/server.go: the tools that queue an action for approval.
pub mod Isolation
use balvibot.Prelude.{
  ℕ, Bool, ◌||◌, Option, none, some, [], ◌∷◌, ◌++◌, List, Str, codes, eqs, is_empty, trim_space,
  if◌then◌else◌,
}
use balvibot.Errors.{Error, Result, ok, err, message, wrap, quote, is_not_found}
use balvibot.Store.Exec.{Exec, pure, fail, lift, or_else, ◌>>=◌, ◌>>◌}
use balvibot.Store.Approvals.{
  ApprovalAction, approval_pending, approval_executed, approval_failed, approval_rejected,
  enqueue_action, list_actions,
}
use balvibot.Store.Grantees.{Grantee, get_grantee, source_type_folder, source_type_doc}
use balvibot.Approval.Keys.{Ssh, fingerprint}
use balvibot.Actions.{
  Codec, action_add_grantee, action_add_approval_user, action_whitelist_doc,
  action_authorize_grantee_email,
}

-- What each tool is asked, less the fields that only its record keeps.
pub record Request : Type 0 where
  pub signal_number : Str
  pub requested_by : Str

pub record EnqueueResult : Type 0 where
  pub approval_id : ℕ
  pub action : Str
  pub status : Str

-- type DriveLookup: the MIME type of a Drive object
abbrev pub DriveLookup : Type 0
DriveLookup = Str → Result Str

abbrev mime_folder : Str
mime_folder = codes "application/vnd.google-apps.folder"

abbrev mime_doc : Str
mime_doc = codes "application/vnd.google-apps.document"

-- The type of a source with that MIME type.
unfoldable pub source_type_of : Str → Str → Result Str
unfolding quote
source_type_of drive_id mime =
    if eqs mime mime_folder
    then ok source_type_folder
    else if eqs mime mime_doc
    then ok source_type_doc
    else err (
        message (
          codes "drive object "
          ++ (quote drive_id
              ++ (codes " has mime "
                  ++ (quote mime ++ codes "; only Google Docs and folders can be whitelisted")))))

-- h.drv.GetFile, and its error in context
abbrev pub looked_up : Str → Result Str → Result Str
looked_up drive_id (ok mime) = ok mime
looked_up drive_id (err e) =
    err (wrap (codes "look up drive object " ++ (quote drive_id ++ codes ": ")) e [])

abbrev pub mime_type : Option DriveLookup → Str → Result Str
mime_type none drive_id = err (message (codes "drive lookup is not configured on this server"))
mime_type (some get_file) drive_id = looked_up drive_id (get_file drive_id)

abbrev pub grantee_missing : {A : Type 0} → Str → Error → Exec A
grantee_missing id e =
    if is_not_found e then fail (message (codes "grantee_not_found: " ++ id)) else fail e

abbrev pub require : {A : Type 0} → Str → Str → Exec A → Exec A
require s text m = if is_empty s then fail (message (text)) else m

module _ (codec : Codec) where
  -- actionMetadata, where no metadata is the empty text
  unfoldable pub action_metadata : Str → Str
  action_metadata signal_number =
      let sn = trim_space signal_number in if is_empty sn then [] else codec.encode_metadata sn

  -- The end of each tool: EnqueueAction and its result.
  unfoldable pub queued : Str → Str → Request → Exec EnqueueResult
  unfolding ◌>>=◌ enqueue_action action_metadata
  queued action args request = do
    id ← enqueue_action action args (action_metadata request.signal_number) request.requested_by
    pure (record { approval_id = id; action = action; status = approval_pending })

  -- addGrantee
  unfoldable pub add_grantee : Str → Str → Request → Exec EnqueueResult
  unfolding queued
  add_grantee slug display_name request = require (trim_space slug) (codes "slug is required") (
      queued action_add_grantee
        (codec.encode_add_grantee (record { slug = trim_space slug; display_name = display_name }))
        request)

  -- addApprovalUser
  unfoldable pub add_approval_user : Ssh → Str → Str → Request → Exec EnqueueResult
  unfolding queued fingerprint
  add_approval_user ssh email public_key request =
      let email = trim_space email in
      let key = trim_space public_key in
      require email (codes "email is required") (
        require key (codes "ssh_public_key is required") (elim (fingerprint ssh key) [
          | err e ↦ fail (wrap (codes "invalid ssh_public_key: ") e [])
          | ok fp ↦
              queued action_add_approval_user
                (codec.encode_add_approval_user (record { email = email; public_key = key }))
                request
        ]))

  -- whitelistDoc once the grantee is known to exist
  unfoldable pub whitelist : Option DriveLookup → Str → Str → Request → Exec EnqueueResult
  unfolding ◌>>=◌ queued source_type_of quote
  whitelist drv grantee drive_id request = do
    mime ← lift (mime_type drv drive_id)
    source_type ← lift (source_type_of drive_id mime)
    queued action_whitelist_doc
        (codec.encode_whitelist_doc
          (record { grantee_id = grantee; drive_id = drive_id; source_type = source_type }))
        request

  -- whitelistDoc
  unfoldable pub whitelist_doc : Option DriveLookup → Str → Str → Request → Exec EnqueueResult
  unfolding or_else get_grantee whitelist is_not_found
  whitelist_doc drv grantee_id drive_id request =
      let grantee = trim_space grantee_id in
      let drive_id = trim_space drive_id in
      require grantee (codes "grantee_id is required") (
        require drive_id (codes "drive_id is required") (
          or_else (get_grantee grantee) (grantee_missing grantee)
            (λ g. whitelist drv grantee drive_id request)))

  -- authorizeGranteeEmail
  unfoldable pub authorize_grantee_email : Str → Str → Request → Exec EnqueueResult
  unfolding or_else get_grantee queued is_not_found
  authorize_grantee_email grantee_id email request =
      let grantee = trim_space grantee_id in
      let email = trim_space email in
      require grantee (codes "grantee_id is required") (
        require email (codes "email is required") (
          or_else (get_grantee grantee) (grantee_missing grantee) (λ g.
            queued action_authorize_grantee_email
              (codec.encode_authorize_grantee_email
                (record { grantee_id = grantee; email = email }))
              request)))

-- The calls of the four tools.
pub data Call : Type 0 where
  call_add_grantee : Str → Str → Request → Call
  call_add_approval_user : Str → Str → Request → Call
  call_whitelist_doc : Str → Str → Request → Call
  call_authorize_grantee_email : Str → Str → Request → Call

unfoldable pub handle : Codec → Ssh → Option DriveLookup → Call → Exec EnqueueResult
unfolding add_grantee add_approval_user whitelist_doc authorize_grantee_email
handle codec ssh drv (call_add_grantee slug name request) = add_grantee codec slug name request
handle codec ssh drv (call_add_approval_user email key request) =
    add_approval_user codec ssh email key request
handle codec ssh drv (call_whitelist_doc grantee drive request) =
    whitelist_doc codec drv grantee drive request
handle codec ssh drv (call_authorize_grantee_email grantee email request) =
    authorize_grantee_email codec grantee email request
