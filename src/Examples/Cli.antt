-- ===== src/Examples/Cli.antt =====
-- The theorems on the command line at the example world.
use balvibot.Prelude.{
  map, ℕ, ◌≡◌, refl, false, not, ◌&&◌, none, some, [], ◌∷◌, ◌++◌, Str, codes, eqs, find_row,
  where_rows, ◌⊎◌, IsIn,
}
use balvibot.Errors.{ok, err, message}
use balvibot.Store.Schema.{ActionRow}
use balvibot.Store.Exec.{World}
use balvibot.Store.Reads.{calm}
use balvibot.Store.Approvals.{new_action, raw_or_empty, action_with_id}
use balvibot.Json.Compact.{compact, escape_html}
use balvibot.Approval.Keys.{verify}
use balvibot.Approval.Payload.{signing_payload, in_transit}
use balvibot.Actions.{action_add_grantee}
use balvibot.ApprovalServer.Settled.{executed_by, with_actions}
use balvibot.ApprovalServer.Shown.{payload_of}
use balvibot.ApproveCli.{Options, Encoding, confirm, mismatch, approve}
use balvibot.ApproveCli.Keys.{
  Signer, KeyRing, malformed, held, fingerprint_of, agent_key_by_fingerprint, select_agent_key,
  pub_file_fingerprint, load_key_file, wanted_key, get_signer,
}
use balvibot.ApproveCli.Http.{over_http}
use balvibot.ApproveCli.EndToEnd.{escaped_args_are_refused, approve_executes}
use balvibot.ApproveCli.Chosen.{has_comment, IsSelected, select_agent_key_lem, wanted_key_is_chosen}
use balvibot.Examples.{test_ssh, test_db, test_world, test_registry, alice, acme_action, world_of}
use balvibot.Examples.Approvals.{granted_world, ran, waiting, path_one, alice_found, waits_in_queue}
use balvibot.Examples.Payloads.{
  compacted, arrives, IsPlain-args, html_args, html_received, html_compacted, html_arrives,
  has_ampersand,
}

abbrev plain_text : Encoding
plain_text = record { encode = λ s. s; decode = λ s. ok s; marshal_signature = λ s. s }

abbrev alice_key : Signer
alice_key = record {
  public_key = codes "key";
  comment = codes "alice@laptop";
  sign = λ payload. ok (codes "key" ++ payload);
}

abbrev old_key : Signer
old_key = record {
  public_key = codes "old";
  comment = codes "alice@desktop";
  sign = λ payload. ok (codes "old" ++ payload);
}

-- An agent with two keys, and no file.
abbrev test_ring : KeyRing
test_ring = record {
  agent = ok (old_key ∷ alice_key ∷ []);
  read_file = λ path. err (message (codes "no such file"));
  parse_authorized_key = λ text. ok text;
  parse_private_key = λ text. malformed (message (codes "no key"));
  fingerprint_sha256 = λ key. codes "SHA256:" ++ key;
}

abbrev yes_options : Options
yes_options = record {
  email = codes "alice@example.org";
  key = codes "id_ed25519";
  agent_key = [];
  skip_prompt = false;
  answer = codes "y";
}

abbrev test_status : ℕ → Str
test_status n = codes "error"

no_metadata : in_transit (codes "{}") ≡ some (codes "{}")
unfolding in_transit compact escape_html
no_metadata = refl

said_yes : (not yes_options.skip_prompt && not (confirm yes_options.answer)) ≡ false
unfolding confirm eqs
said_yes = refl

key_chosen : get_signer test_ring (codes "id_ed25519") [] (codes "SHA256:key") ≡ ok alice_key
unfolding get_signer wanted_key agent_key_by_fingerprint eqs
key_chosen = refl

signature_verifies :
    verify test_ssh (codes "key") (payload_of acme_action) (codes "key" ++ payload_of acme_action)
    ≡ ok tt
unfolding verify signing_payload raw_or_empty eqs
signature_verifies = refl

approve_executes_example :
    approve test_ring plain_text
      (over_http test_status plain_text test_ssh test_registry)
      yes_options
      (codes "1")
      (calm test_world)
    ≡ (
      ok (record { approval_id = 1; status = codes "executed" }),
      calm (record granted_world {
        db =
            with_actions
              (map (executed_by 1 (codes "alice@example.org") 1000) granted_world.db.actions)
              granted_world.db;
      }),
    )
approve_executes_example =
    approve_executes test_status plain_text test_ssh test_registry test_ring yes_options (codes "1")
      1 test_world acme_action (codes "{\"slug\":\"acme\"}") (codes "{}")
      (codes "{\"slug\":\"acme\"}") path_one waits_in_queue refl compacted arrives no_metadata refl
      (λ s. refl) alice alice_key (codes "key" ++ payload_of acme_action) granted_world IsPlain-args
      said_yes alice_found key_chosen refl signature_verifies refl ran waiting

abbrev html_action : ActionRow
html_action = new_action 1 action_add_grantee html_args (codes "{}") none 10

abbrev html_world : World
html_world = world_of (record test_db { actions = html_action ∷ [] })

html_found : action_with_id 1 html_world.db ≡ some html_action
unfolding action_with_id find_row
html_found = refl

escaped_args_are_refused_example :
    approve test_ring plain_text
      (over_http test_status plain_text test_ssh test_registry)
      yes_options
      (codes "1")
      (calm html_world)
    ≡ (err mismatch, calm html_world)
escaped_args_are_refused_example =
    escaped_args_are_refused test_status plain_text test_ssh test_registry test_ring yes_options
      (codes "1") 1 html_world html_action html_received (codes "{}") html_args path_one html_found
      refl html_compacted html_arrives no_metadata refl (λ s. refl) has_ampersand

select_agent_key_lem_example :
    IsSelected
      (find_row (λ s. eqs (fingerprint_of test_ring s) (codes "laptop")) (old_key ∷ alice_key ∷ []))
      (where_rows (has_comment (codes "laptop")) (old_key ∷ alice_key ∷ []))
      (select_agent_key test_ring (old_key ∷ alice_key ∷ []) (codes "laptop"))
select_agent_key_lem_example =
    select_agent_key_lem test_ring (old_key ∷ alice_key ∷ []) (codes "laptop")

wanted_key_is_chosen_example :
    (IsIn alice_key (held test_ring.agent)
      × (fingerprint_of test_ring alice_key ≡ codes "SHA256:key"))
    ⊎ ((pub_file_fingerprint test_ring (codes "id_ed25519") ≡ codes "SHA256:key")
        × (load_key_file test_ring (codes "id_ed25519") ≡ ok alice_key))
wanted_key_is_chosen_example =
    wanted_key_is_chosen test_ring (codes "id_ed25519") (codes "SHA256:key") alice_key refl
      key_chosen
