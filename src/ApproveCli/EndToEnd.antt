-- ===== src/ApproveCli/EndToEnd.antt =====
-- The command line and the approval server together.
use mathlib.Core.Path.{subst}
use balvibot.Prelude.{
  map, ℕ, ◌≡◌, refl, sym, ap, ◌∙◌, true, false, not, ◌&&◌, ◌⊎◌, inl, inr, some, [], Str, codes, eqs,
  eqs_iff, eqs_refl, is_empty, any_row, Bool-cases,
}
use balvibot.Errors.{ok, err}
use balvibot.Store.Schema.{ActionRow, UserRow}
use balvibot.Store.Exec.{World, pure, fail, lift, or_else, ◌>>=◌}
use balvibot.Store.Reads.{calm, or_else-ok, bind-ok}
use balvibot.Store.Approvals.{
  approval_pending, raw_or_empty, scan_action, action_with_id, user_with_email, get_action,
  get_approval_user,
}
use balvibot.Json.Compact.{compact, is_html}
use balvibot.Approval.Keys.{Ssh, verify, in_context}
use balvibot.Approval.Payload.{signing_payload, in_transit}
use balvibot.Approval.Payload.Transit.{IsPlain, transit_agrees, transit_differs, raw_or_empty-cons}
use balvibot.Approval.Registry.{Registry, dispatch}
use balvibot.ApprovalServer.{
  ApproveRequest, action_view, approval_user_view, approve_response, write_json, parse_id,
  get_action_handler, show_action, get_approval_user_handler, approve_action, verify_approval,
}
use balvibot.ApprovalServer.Gate.{Authorised}
use balvibot.ApprovalServer.Outcome.{get_action-calm, get_user_calm, approved_is_executed, waits}
use balvibot.ApprovalServer.Settled.{executed_by, with_actions}
use balvibot.ApprovalServer.Shown.{payload_of}
use balvibot.ApproveCli.{
  Options, ActionView, Service, Encoding, confirm, mismatch, sign_and_submit, compare_payloads,
  review, approve,
}
use balvibot.ApproveCli.Keys.{Signer, KeyRing, get_signer}
use balvibot.ApproveCli.Http.{received, view_in, fingerprint_in, approved_in, over_http}

module _ (status_line : ℕ → Str) (encoding : Encoding) (ssh : Ssh) (registry : Registry)
    (ring : KeyRing) (options : Options) (path : Str) (id : ℕ) (w : World) (row : ActionRow)
    (args metadata compacted : Str) (parsed : parse_id path ≡ some id)
    (found : action_with_id id w.db ≡ some row) (pending : row.status ≡ approval_pending)
    (is_json : compact row.args ≡ some compacted) (sent : in_transit row.args ≡ some args)
    (sent_metadata : in_transit row.metadata ≡ some metadata)
    (has_email : is_empty options.email ≡ false)
    (round : (s : Str) → encoding.decode (encoding.encode s) ≡ ok s) where
  abbrev served : Service
  served = over_http status_line encoding ssh registry

  abbrev shown : ActionView
  shown = record {
    action = record (scan_action row) { args = args; metadata = metadata };
    signing_payload_b64 = encoding.encode (payload_of row);
  }

  abbrev local : Str
  local = signing_payload row.id row.action args

  handled :
      get_action_handler path (calm w)
      ≡ (ok (write_json (action_view (scan_action row) (payload_of row))), calm w)
  unfolding get_action_handler show_action
  handled = rw parsed (
      or_else-ok (get_action id) _ _ (calm w) (calm w) (scan_action row)
        (get_action-calm id row w found)
      ∙ unfold pure scan_action in refl)

  fetched : served.fetch_action path (calm w) ≡ (ok shown, calm w)
  unfolding over_http
  fetched =
      bind-ok (get_action_handler path >>= received status_line) (view_in status_line encoding)
        (calm w) (calm w) (action_view (scan_action row) (payload_of row))
        (bind-ok (get_action_handler path) (received status_line) (calm w) (calm w) _ handled
          ∙ unfold received pure in refl)
      ∙ viewed
    where
      viewed :
          view_in status_line encoding (action_view (scan_action row) (payload_of row)) (calm w)
          ≡ (ok shown, calm w)
      viewed = unfold view_in scan_action pure in rw (sent, sent_metadata) refl

  reviewed :
      review ring encoding served options path shown (calm w)
      ≡ compare_payloads ring encoding served options path local (payload_of row) (calm w)
  unfolding review scan_action
  reviewed =
      rw ((eqs_iff row.status approval_pending).1 pending, round (payload_of row))
        (bind-ok (lift (ok (payload_of row)))
          (compare_payloads ring encoding served options path local) (calm w) (calm w)
          (payload_of row) (unfold lift in refl))

  begun :
      approve ring encoding served options path (calm w)
      ≡ compare_payloads ring encoding served options path local (payload_of row) (calm w)
  unfolding approve
  begun = rw has_email (
      bind-ok (served.fetch_action path) (review ring encoding served options path) (calm w)
        (calm w) shown fetched
      ∙ reviewed)

  -- The command refuses an action whose args hold one of `<`, `>` and `&`, whoever the operator is and whatever
  -- keys there are; it signs nothing, sends nothing, and nothing changes.
  pub escaped_args_are_refused :
      any_row is_html compacted ≡ true
      → approve ring encoding served options path (calm w) ≡ (err mismatch, calm w)
  escaped_args_are_refused html = begun ∙ differs (Bool-cases (eqs local (payload_of row)))
    where
      differs :
          (eqs local (payload_of row) ≡ true) ⊎ (eqs local (payload_of row) ≡ false)
          → compare_payloads ring encoding served options path local (payload_of row) (calm w)
            ≡ (err mismatch, calm w)
      differs (inl e) = absurd (
          transit_differs row.id row.action row.args compacted args is_json html sent (
            subst (λ (s : Str). local ≡ signing_payload row.id row.action s)
              (raw_or_empty-cons row.args compacted is_json)
              ((eqs_iff local (payload_of row)).0 e)))
      differs (inr e) = unfold compare_payloads fail in rw e refl

  module _ (user : UserRow) (signer : Signer) (signature : Str) (w' : World)
      (plain : IsPlain compacted)
      (agreed : (not options.skip_prompt && not (confirm options.answer)) ≡ false)
      (known : user_with_email options.email w.db ≡ some user)
      (chosen : get_signer ring options.key options.agent_key user.fingerprint ≡ ok signer)
      (signed : signer.sign (payload_of row) ≡ ok signature)
      (valid : verify ssh user.ssh_public_key
          (payload_of row)
          (encoding.marshal_signature signature)
        ≡ ok tt)
      (has_signature : is_empty (encoding.marshal_signature signature) ≡ false)
      (ran : dispatch registry row.action (raw_or_empty row.args) (calm w) ≡ (ok tt, calm w'))
      (there : waits id w'.db ≡ true) where
    abbrev request : ApproveRequest
    request = record { email = options.email; signature = encoding.marshal_signature signature }

    abbrev final : World
    final = calm (record w' {
      db = with_actions (map (executed_by id options.email w'.clock) w'.db.actions) w'.db;
    })

    agree : local ≡ payload_of row
    agree =
        transit_agrees row.id row.action row.args compacted args is_json plain sent
        ∙ ap (signing_payload row.id row.action)
            (sym (raw_or_empty-cons row.args compacted is_json))

    auth : Authorised ssh id request w.db
    unfolding verify_approval scan_action
    auth = record {
      row = row;
      user = user;
      found = found;
      pending = pending;
      known = known;
      signed = valid;
    }

    answered :
        approve_action ssh registry path (some request) (calm w)
        ≡ (ok (write_json (approve_response id)), final)
    unfolding approve_action auth
    answered =
        rw parsed
          (approved_is_executed ssh registry id request w auth has_email has_signature w' ran there)

    submitted :
        served.submit path options.email (encoding.marshal_signature signature) (calm w)
        ≡ (ok (record { approval_id = id; status = codes "executed" }), final)
    unfolding over_http
    submitted =
        bind-ok (approve_action ssh registry path (some request) >>= received status_line)
          (approved_in status_line encoding) (calm w) final (approve_response id)
          (bind-ok (approve_action ssh registry path (some request)) (received status_line) (calm w)
              final _ answered
            ∙ unfold received pure in refl)
        ∙ unfold approved_in pure in refl

    looked_up : served.fetch_fingerprint options.email (calm w) ≡ (ok user.fingerprint, calm w)
    unfolding over_http
    looked_up =
        bind-ok (get_approval_user_handler options.email >>= received status_line)
          (fingerprint_in status_line encoding) (calm w) (calm w) (approval_user_view user)
          (bind-ok (get_approval_user_handler options.email) (received status_line) (calm w)
              (calm w) (write_json (approval_user_view user)) user_sent
            ∙ unfold received pure in refl)
        ∙ unfold fingerprint_in pure in refl
      where
        user_sent :
            get_approval_user_handler options.email (calm w)
            ≡ (ok (write_json (approval_user_view user)), calm w)
        user_sent =
            unfold get_approval_user_handler in
            rw has_email (
              or_else-ok (get_approval_user options.email) _ _ (calm w) (calm w) user
                (get_user_calm options.email user w known)
              ∙ unfold pure in refl)

    signing :
        sign_and_submit ring encoding served options path (payload_of row) (calm w)
        ≡ (ok (record { approval_id = id; status = codes "executed" }), final)
    unfolding sign_and_submit lift
    signing =
        bind-ok (or_else (served.fetch_fingerprint options.email) (λ e. pure []) pure) _ (calm w)
          (calm w) user.fingerprint
          (or_else-ok (served.fetch_fingerprint options.email) (λ e. pure []) pure (calm w) (calm w)
              user.fingerprint looked_up
            ∙ unfold pure in refl)
        ∙ bind-ok (lift (get_signer ring options.key options.agent_key user.fingerprint)) _ (calm w)
            (calm w) signer (ap (λ r. (r, calm w)) chosen)
        ∙ bind-ok (lift (in_context (codes "sign: ") (signer.sign (payload_of row)))) _ (calm w)
            (calm w) signature (ap (λ r. (in_context (codes "sign: ") r, calm w)) signed)
        ∙ submitted

    -- Where an action waits, its args are JSON with none of the characters that the encoder escapes
    -- (no `<`, `>` or `&`, no U+2028 and no U+2029), the operator has an e-mail address that is
    -- registered, the prompt is passed, the key that is chosen signs the payload that the server shows with a
    -- signature that is not empty and verifies, base64 decodes what it encodes, the database answers, and the
    -- action's handler succeeds and leaves it pending in the queue, the command succeeds with the
    -- action's id. Of what the handler left, the rows that are the pending action become executed,
    -- approved by that address, approved and executed at the time of the clock, with no error; no other row, no other
    -- column and no other table changes.
    pub approve_executes :
        approve ring encoding served options path (calm w)
        ≡ (ok (record { approval_id = id; status = codes "executed" }), final)
    approve_executes =
        begun
        ∙ ap
            (λ (s : Str).
              compare_payloads ring encoding served options path s (payload_of row) (calm w))
            agree
        ∙ compared
      where
        compared :
            compare_payloads ring encoding served options path
              (payload_of row)
              (payload_of row)
              (calm w)
            ≡ (ok (record { approval_id = id; status = codes "executed" }), final)
        compared = unfold compare_payloads in rw (eqs_refl (payload_of row), agreed) signing
