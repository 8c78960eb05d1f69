-- ===== src/Examples/Approvals.antt =====
-- The theorems on approvals at the example world.
use balvibot.Prelude.{
  map, ℕ, ◌≡◌, ◌≢◌, refl, ap, ◌∙◌, true, Option, none, some, [], ◌∷◌, ◌++◌, Str, codes, eqs,
  find_row, citext_eq, any_row, to_lower, trim_space,
}
use balvibot.Errors.{ok, err, message, error_text}
use balvibot.Store.Schema.{UserRow}
use balvibot.Store.Exec.{World, ◌>>=◌}
use balvibot.Store.Reads.{calm}
use balvibot.Store.Approvals.{
  approval_executed, raw_or_empty, scan_action, action_with_id, user_with_email, executed_row,
  is_pending,
}
use balvibot.Approval.Registry.{dispatch}
use balvibot.Actions.{action_add_grantee, register_all, run_add_grantee}
use balvibot.ApprovalServer.{
  ApproveRequest, parse_id, approve_parsed, verify_approval, write_json, write_error,
  approve_response, approve_action,
}
use balvibot.ApprovalServer.{action_view, carry_out, get_action_handler}
use balvibot.ApprovalServer.Shown.{payload_of, shown_payload_is_accepted}
use balvibot.Approval.Keys.{verify}
use balvibot.Approval.Payload.{signing_payload}
use balvibot.ApprovalServer.Gate.{Authorised, unauthorised_changes_nothing}
use balvibot.ApprovalServer.Outcome.{mark, waits, approved_is_executed, failure_is_recorded}
use balvibot.ApprovalServer.Settled.{executed_by, failed_by, with_actions}
use balvibot.ApprovalServer.Once.{not_pending, executed_once}
use balvibot.ApprovalServer.History.{tool_call, approval, Evolves, serve_all, queue_history}
use balvibot.McpServer.Queue.{call_add_grantee, handle}
use balvibot.McpServer.Queue.Isolation.{Queued, tools_only_queue}
use balvibot.Examples.{
  test_ssh, test_codec, test_db, test_world, test_registry, alice, acme_action, acme_args,
  signed_request, bad_action, bad_world, bad_request, mallory_request,
}

authorised : Authorised test_ssh 1 signed_request test_db
unfolding action_with_id user_with_email verify_approval scan_action find_row citext_eq eqs to_lower
authorised = record {
  row = acme_action;
  user = alice;
  found = refl;
  pending = refl;
  known = refl;
  signed = refl;
}

abbrev pub granted_world : World
granted_world = record test_world {
  db = record test_db {
    grantees =
        record {
          grantee_id = codes "acme";
          display_name = none;
          status = codes "active";
          created_at = 1000;
        }
        ∷ [];
  };
}

pub ran :
    dispatch test_registry action_add_grantee (raw_or_empty acme_args) (calm test_world)
    ≡ (ok tt, calm granted_world)
unfolding dispatch register_all eqs run_add_grantee raw_or_empty trim_space any_row
ran = refl

pub waiting : waits 1 granted_world.db ≡ true
unfolding is_pending any_row eqs
waiting = refl

email_of : Option ApproveRequest → Str
email_of none = []
email_of (some r) = r.email

unknown : (u : UserRow) → user_with_email mallory_request.email test_db ≢ some u
unfolding user_with_email find_row citext_eq eqs to_lower
unknown u h = cc

mallory_is_unknown :
    (id : ℕ) (req : ApproveRequest)
    → parse_id (codes "1") ≡ some id
    → some mallory_request ≡ some req
    → ¬ Authorised test_ssh id req test_db
unfolding email_of
mallory_is_unknown id req _ e auth =
    unknown auth.user (ap (λ r. user_with_email (email_of r) test_db) e ∙ auth.known)

unauthorised_changes_nothing_example :
    (approve_action test_ssh test_registry (codes "1") (some mallory_request) test_world).1.db
    ≡ test_db
unauthorised_changes_nothing_example =
    unauthorised_changes_nothing test_ssh test_registry (codes "1") (some mallory_request)
      test_world mallory_is_unknown

approved_is_executed_example :
    approve_parsed test_ssh test_registry (some 1) (some signed_request) (calm test_world) ≡ (
      ok (write_json (approve_response 1)),
      calm (record granted_world {
        db =
            with_actions
              (map (executed_by 1 (codes "alice@example.org") 1000) granted_world.db.actions)
              granted_world.db;
      }),
    )
unfolding authorised
approved_is_executed_example =
    approved_is_executed test_ssh test_registry 1 signed_request test_world authorised refl refl
      granted_world ran waiting

badly_authorised : Authorised test_ssh 1 bad_request bad_world.db
unfolding action_with_id user_with_email verify_approval scan_action find_row citext_eq eqs to_lower
badly_authorised = record {
  row = bad_action;
  user = alice;
  found = refl;
  pending = refl;
  known = refl;
  signed = refl;
}

not_decoded :
    dispatch test_registry action_add_grantee (raw_or_empty (codes "{}")) (calm bad_world)
    ≡ (err (message (codes "invalid")), calm bad_world)
unfolding dispatch register_all eqs run_add_grantee raw_or_empty
not_decoded = refl

still_waiting : waits 1 bad_world.db ≡ true
unfolding is_pending any_row eqs
still_waiting = refl

failure_is_recorded_example :
    approve_parsed test_ssh test_registry (some 1) (some bad_request) (calm bad_world) ≡ (
      ok (write_error 500 (codes "action failed: " ++ error_text (message (codes "invalid")))),
      calm (record bad_world {
        db =
            with_actions
              (map
                (failed_by 1
                  (codes "alice@example.org")
                  (error_text (message (codes "invalid")))
                  1000)
                bad_world.db.actions)
              bad_world.db;
      }),
    )
unfolding badly_authorised
failure_is_recorded_example =
    failure_is_recorded test_ssh test_registry 1 bad_request bad_world badly_authorised refl refl
      (message (codes "invalid")) bad_world not_decoded still_waiting

in_queue : action_with_id 1 granted_world.db ≡ some acme_action
unfolding action_with_id find_row
in_queue = refl

executed_once_example :
    (approve_parsed test_ssh test_registry (some 1) (some signed_request) >>= λ _.
    approve_parsed test_ssh test_registry (some 1) (some mallory_request))
      (calm test_world)
    ≡ (
      ok (not_pending approval_executed),
      calm (record granted_world {
        db = mark 1 (executed_row (codes "alice@example.org") 1000) granted_world.db;
      }),
    )
unfolding authorised
executed_once_example =
    executed_once test_ssh test_registry 1 signed_request mallory_request test_world granted_world
      authorised refl refl refl refl acme_action ran in_queue refl

queue_history_example :
    Evolves test_db.actions
      (serve_all test_codec test_ssh none
        (approval (codes "1") (some signed_request)
          ∷ tool_call (
              call_add_grantee (codes "acme") [] (record { signal_number = []; requested_by = [] }))
          ∷ [])
        test_world).db.actions
queue_history_example =
    queue_history test_codec test_ssh none
      (approval (codes "1") (some signed_request)
        ∷ tool_call
            (call_add_grantee (codes "acme") [] (record { signal_number = []; requested_by = [] }))
        ∷ [])
      test_world

tools_only_queue_example :
    Queued test_db
      (handle test_codec test_ssh none
        (call_add_grantee (codes "acme") [] (record { signal_number = []; requested_by = [] }))
        test_world).1.db
tools_only_queue_example =
    tools_only_queue test_codec test_ssh none
      (call_add_grantee (codes "acme") [] (record { signal_number = []; requested_by = [] }))
      test_world

pub path_one : parse_id (codes "1") ≡ some 1
unfolding parse_id
path_one = refl

pub alice_found : user_with_email (codes "alice@example.org") test_db ≡ some alice
unfolding user_with_email find_row citext_eq eqs to_lower
alice_found = refl

pub waits_in_queue : action_with_id 1 test_db ≡ some acme_action
unfolding action_with_id find_row
waits_in_queue = refl

signature_verifies :
    verify test_ssh (codes "key") (payload_of acme_action) signed_request.signature ≡ ok tt
unfolding verify signing_payload raw_or_empty eqs
signature_verifies = refl

shown_payload_is_accepted_example :
    (get_action_handler (codes "1") (calm test_world) ≡ (
      ok (write_json (action_view (scan_action acme_action) (payload_of acme_action))),
      calm test_world,
    ))
    × (approve_action test_ssh test_registry (codes "1") (some signed_request) (calm test_world)
        ≡ carry_out test_registry 1
            (codes "alice@example.org")
            (scan_action acme_action)
            (calm test_world))
shown_payload_is_accepted_example =
    shown_payload_is_accepted test_ssh test_registry (codes "1") 1 signed_request test_world
      acme_action alice path_one waits_in_queue refl alice_found signature_verifies refl refl
