-- ===== src/Actions.antt =====
-- tools/api/internal/actions: the approval-gated actions and what each does once it is approved.
pub mod Untouched
pub mod Effects
use balvibot.Prelude.{
  Bool, not, ◌&&◌, Option, none, some, [], ◌∷◌, ◌++◌, Str, codes, eqs, is_empty, trim_space,
  if◌then◌else◌,
}
use balvibot.Errors.{Error, Result, ok, err, message, is_not_found, quote}
use balvibot.Store.Exec.{Exec, pure, fail, lift, or_else, ◌>>=◌, ◌>>◌}
use balvibot.Store.Approvals.{upsert_approval_user}
use balvibot.Store.Grantees.{
  Grantee, ensure_grantee, get_grantee, add_grantee_email, status_active, source_type_folder,
  source_type_doc,
}
use balvibot.Store.Sources.{Source, upsert_source}
use balvibot.Approval.Keys.{Ssh, fingerprint}
use balvibot.Approval.Registry.{Registry, new_registry, register}

abbrev pub action_add_grantee : Str
action_add_grantee = codes "add_grantee"

abbrev pub action_add_approval_user : Str
action_add_approval_user = codes "add_approval_user"

abbrev pub action_whitelist_doc : Str
action_whitelist_doc = codes "whitelist_doc"

abbrev pub action_authorize_grantee_email : Str
action_authorize_grantee_email = codes "authorize_grantee_email"

pub record AddGranteeArgs : Type 0 where
  pub slug : Str
  pub display_name : Str

pub record AddApprovalUserArgs : Type 0 where
  pub email : Str
  pub public_key : Str

pub record WhitelistDocArgs : Type 0 where
  pub grantee_id : Str
  pub drive_id : Str
  pub source_type : Str

pub record AuthorizeGranteeEmailArgs : Type 0 where
  pub grantee_id : Str
  pub email : Str

-- json.Marshal and json.Unmarshal at the argument structs. Metadata has the one field
-- signal_number.
pub record Codec : Type 0 where
  pub encode_add_grantee : AddGranteeArgs → Str
  pub decode_add_grantee : Str → Result AddGranteeArgs
  pub encode_add_approval_user : AddApprovalUserArgs → Str
  pub decode_add_approval_user : Str → Result AddApprovalUserArgs
  pub encode_whitelist_doc : WhitelistDocArgs → Str
  pub decode_whitelist_doc : Str → Result WhitelistDocArgs
  pub encode_authorize_grantee_email : AuthorizeGranteeEmailArgs → Str
  pub decode_authorize_grantee_email : Str → Result AuthorizeGranteeEmailArgs
  pub encode_metadata : Str → Str

-- GetGrantee fails: a missing grantee has a message of its own.
abbrev pub no_grantee : {A : Type 0} → Str → Error → Exec A
no_grantee id e =
    if is_not_found e
    then fail (message (codes "grantee " ++ (quote id ++ codes " does not exist")))
    else fail e

module _ (codec : Codec) (ssh : Ssh) where
  unfoldable pub run_add_grantee : Str → Exec (Unit {0})
  unfolding ◌>>=◌ ensure_grantee
  run_add_grantee raw = do
    a ← lift (codec.decode_add_grantee raw)
    let slug = trim_space a.slug
    if is_empty slug
        then fail (message (codes "slug required"))
        else ensure_grantee (record {
          grantee_id = slug;
          display_name = a.display_name;
          status = status_active;
          created_at = none;
        })

  unfoldable pub run_add_approval_user : Str → Exec (Unit {0})
  unfolding ◌>>=◌ upsert_approval_user fingerprint
  run_add_approval_user raw = do
    a ← lift (codec.decode_add_approval_user raw)
    let email = trim_space a.email
    let key = trim_space a.public_key
    if is_empty email
        then fail (message (codes "email required"))
        else if is_empty key
        then fail (message (codes "ssh_public_key required"))
        else do fp ← lift (fingerprint ssh key); upsert_approval_user email key fp

  -- The error of UpsertSource is passed on and its id dropped.
  unfoldable pub run_whitelist_doc : Str → Exec (Unit {0})
  unfolding ◌>>=◌ or_else get_grantee upsert_source is_not_found quote
  run_whitelist_doc raw = do
    a ← lift (codec.decode_whitelist_doc raw)
    let grantee_id = trim_space a.grantee_id
    let drive_id = trim_space a.drive_id
    if is_empty grantee_id
        then fail (message (codes "grantee_id required"))
        else if is_empty drive_id
        then fail (message (codes "drive_id required"))
        else if not (eqs a.source_type source_type_folder)
            && not (eqs a.source_type source_type_doc)
        then fail (message (codes "invalid source_type " ++ quote a.source_type))
        else or_else (get_grantee grantee_id) (no_grantee grantee_id) λ g. do
          upsert_source (record {
            grantee_id = grantee_id;
            source_type = a.source_type;
            drive_id = drive_id;
            added_at = none;
          })
          pure tt

  unfoldable pub run_authorize_grantee_email : Str → Exec (Unit {0})
  unfolding ◌>>=◌ or_else get_grantee add_grantee_email is_not_found quote
  run_authorize_grantee_email raw = do
    a ← lift (codec.decode_authorize_grantee_email raw)
    let grantee_id = trim_space a.grantee_id
    let email = trim_space a.email
    if is_empty grantee_id
        then fail (message (codes "grantee_id required"))
        else if is_empty email
        then fail (message (codes "email required"))
        else or_else (get_grantee grantee_id) (no_grantee grantee_id)
            (λ g. add_grantee_email grantee_id email)

  -- Register
  unfoldable pub register_all : Registry → Registry
  unfolding register
  register_all reg = register action_authorize_grantee_email run_authorize_grantee_email (
      register action_whitelist_doc run_whitelist_doc (
        register action_add_approval_user run_add_approval_user
          (register action_add_grantee run_add_grantee reg)))
