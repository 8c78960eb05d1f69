-- ===== src/Examples.antt =====
-- A small instance of the program's world, on which its theorems are applied and its functions run.
pub mod Approvals
pub mod Payloads
pub mod Tables
pub mod Mail
pub mod Documents
pub mod Cycles
pub mod Cli
pub mod Settings
pub mod Sessions
pub mod Reading
use balvibot.Prelude.{ℕ, Option, none, some, List, [], ◌∷◌, ◌++◌, Str, codes, eqs, if◌then◌else◌}
use balvibot.Errors.{Error, Result, ok, err, bad_signature, message}
use balvibot.Store.Schema.{Db, ActionRow, UserRow}
use balvibot.Store.Exec.{World}
use balvibot.Store.Approvals.{new_action, approval_pending}
use balvibot.Approval.Keys.{Ssh}
use balvibot.Approval.Payload.{signing_payload}
use balvibot.Approval.Registry.{Registry, new_registry}
use balvibot.Actions.{Codec, action_add_grantee, register_all}
use balvibot.ApprovalServer.{ApproveRequest}

-- A signature is the key before the payload.
abbrev pub test_ssh : Ssh
test_ssh = record {
  parse_key = λ line. ok line;
  fingerprint_sha256 = λ key. codes "SHA256:" ++ key;
  decode_base64 = λ s. ok s;
  unmarshal = λ s. ok s;
  verifies = λ key payload sig. if eqs sig (key ++ payload) then ok tt else err bad_signature;
}

abbrev no_decode : {A : Type 0} → Str → Result A
no_decode s = err (message (codes "invalid"))

abbrev pub acme_args : Str
acme_args = codes "{\"slug\": \"acme\"}"

abbrev pub test_codec : Codec
test_codec = record {
  encode_add_grantee = λ a. codes "{\"slug\":\"" ++ (a.slug ++ codes "\"}");
  decode_add_grantee = λ s.
      if eqs s acme_args
      then ok (record { slug = codes "acme"; display_name = [] })
      else no_decode s;
  encode_add_approval_user = λ a. a.email;
  decode_add_approval_user = no_decode;
  encode_whitelist_doc = λ a. a.drive_id;
  decode_whitelist_doc = no_decode;
  encode_authorize_grantee_email = λ a. a.email;
  decode_authorize_grantee_email = no_decode;
  encode_metadata = λ s. s;
}

abbrev pub empty_db : Db
empty_db = record {
  grantees = [];
  grantee_emails = [];
  sources = [];
  next_source = 1;
  threads = [];
  next_thread = 1;
  messages = [];
  next_message = 1;
  message_references = [];
  recipients = [];
  attachments = [];
  next_attachment = 1;
  mailboxes = [];
  docs = [];
  sync_state = record { cycle_counter = none; last_successful_sync = none };
  users = [];
  actions = [];
  next_action = 1;
  notes = [];
  next_note = 1;
}

abbrev pub alice : UserRow
alice = record {
  email = codes "alice@example.org";
  ssh_public_key = codes "key";
  fingerprint = codes "SHA256:key";
  created_at = 5;
}

abbrev pub acme_action : ActionRow
acme_action = new_action 1 action_add_grantee acme_args (codes "{}") none 10

-- One operator, and one action that waits.
abbrev pub test_db : Db
test_db = record empty_db { users = alice ∷ []; actions = acme_action ∷ []; next_action = 2 }

abbrev pub world_of : Db → World
world_of db = record { db = db; clock = 1000; outages = []; jsonb = λ s. some s }

abbrev pub test_world : World
test_world = world_of test_db

abbrev pub test_registry : Registry
test_registry = register_all test_codec test_ssh new_registry

abbrev pub signed_request : ApproveRequest
signed_request = record {
  email = codes "alice@example.org";
  signature = codes "key" ++ codes "balvi-approval:v1\n1\nadd_grantee\n{\"slug\":\"acme\"}";
}

abbrev pub mallory_request : ApproveRequest
mallory_request = record {
  email = codes "mallory@example.org";
  signature = signed_request.signature;
}

-- An action whose args its handler does not take.
abbrev pub bad_action : ActionRow
bad_action = new_action 1 action_add_grantee (codes "{}") (codes "{}") none 10

abbrev pub bad_world : World
bad_world = world_of (record test_db { actions = bad_action ∷ [] })

abbrev pub bad_request : ApproveRequest
bad_request = record {
  email = codes "alice@example.org";
  signature = codes "key" ++ codes "balvi-approval:v1\n1\nadd_grantee\n{}";
}
