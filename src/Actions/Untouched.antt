-- ===== src/Actions/Untouched.antt =====
-- The handlers of the approved actions leave the approval queue alone.
use mathlib.Core.Path.{subst}
use balvibot.Prelude.{
  ℕ, sym, Bool, true, false, not, ◌&&◌, ◌||◌, Option, none, some, List, Str, eqs, is_empty,
  to_lower, trim_space, if◌then◌else◌,
}
use balvibot.Errors.{Result, is_not_found}
use balvibot.Store.Schema.{Db, ActionRow, SourceRow}
use balvibot.Store.Exec.{Exec, pure, lift, or_else, now, statement, ◌>>◌}
use balvibot.Store.Keeps.{
  Keeps, Leaves, Keeps-pure, Keeps-fail, Keeps-lift, Keeps-if, Keeps-or_else, Keeps-bind, Keeps-now,
  Keeps-statement, Keeps-transaction,
}
use balvibot.Store.Approvals.{upsert_approval_user, upsert_user}
use balvibot.Store.Grantees.{
  Grantee, status_active, ensure_grantee, insert_grantee, grantee_row, status_or_active,
  is_grantee_status, has_grantee, get_grantee, add_grantee_email, link_email, set_email,
  claim_threads, claim_messages, source_type_folder, source_type_doc,
}
use balvibot.McpServer.Queue.Isolation.{Keeps-get_grantee}
use balvibot.Store.Sources.{Source, upsert_source, put_source, put_over}
use balvibot.Approval.Registry.{
  Registry, Handler, new_registry, register, dispatch, dispatch-register,
}
use balvibot.Approval.Keys.{Ssh, fingerprint}
use balvibot.Actions.{
  Codec, WhitelistDocArgs, action_add_grantee, action_add_approval_user, action_whitelist_doc,
  action_authorize_grantee_email, no_grantee, run_add_grantee, run_add_approval_user,
  run_whitelist_doc, run_authorize_grantee_email, register_all,
}

module _ (Q : List ActionRow → Type 0) where
  abbrev pub OfQueue : Db → Type 0
  OfQueue db = Q db.actions

  Leaves-if :
      {A : Type 0} (b : Bool) (r s : Result (A × Db))
      → Leaves OfQueue r
      → Leaves OfQueue s
      → Leaves OfQueue (if b then r else s)
  Leaves-if true r s p q = p
  Leaves-if false r s p q = q

  Keeps-ensure_grantee : (g : Grantee) → Keeps OfQueue (ensure_grantee g)
  unfolding ensure_grantee insert_grantee
  Keeps-ensure_grantee g =
      Keeps-if (is_empty g.grantee_id) _ _ (λ _. Keeps-fail _)
        λ _. Keeps-bind now _ Keeps-now λ t.
          Keeps-statement (insert_grantee (grantee_row g (status_or_active g.status) t)) λ db q.
            Leaves-if (not (is_grantee_status (status_or_active g.status))) _ _ tt
              (Leaves-if (has_grantee g.grantee_id db) _ _ q q)

  Keeps-upsert_user : (email key fp : Str) → Keeps OfQueue (upsert_approval_user email key fp)
  unfolding upsert_approval_user upsert_user
  Keeps-upsert_user email key fp =
      Keeps-if (is_empty email || is_empty key || is_empty fp) _ _ (λ _. Keeps-fail _)
        λ _. Keeps-bind now _ Keeps-now λ t. Keeps-statement (upsert_user email key fp t) λ db q. q

  put-Leaves :
      (src : Source) (t : ℕ) (db : Db) (old : Option SourceRow)
      → OfQueue db
      → Leaves OfQueue (put_over src t db old)
  put-Leaves src t db none q = Leaves-if (has_grantee src.grantee_id db) _ _ q tt
  put-Leaves src t db (some old) q = q

  Keeps-link_email : (id email : Str) → Keeps OfQueue (link_email id email)
  unfolding link_email set_email claim_threads claim_messages
  Keeps-link_email id email =
      Keeps-bind (statement (set_email id email)) _
        (Keeps-statement (set_email id email) λ db q. Leaves-if (not (has_grantee id db)) _ _ tt q)
        λ _.
          Keeps-bind (statement (claim_threads id email)) _
            (Keeps-statement (claim_threads id email) λ db q. q)
            λ _. Keeps-statement (claim_messages id) λ db q. q

  Keeps-upsert_source : (src : Source) → Keeps OfQueue (upsert_source src)
  unfolding upsert_source put_source
  Keeps-upsert_source src =
      Keeps-if (is_empty src.grantee_id) _ _ (λ _. Keeps-fail _)
        λ _.
          Keeps-if
            (not (eqs src.source_type source_type_folder || eqs src.source_type source_type_doc)) _
            _ (λ _. Keeps-fail _)
            λ _.
              Keeps-if (is_empty src.drive_id) _ _ (λ _. Keeps-fail _)
                λ _.
                  Keeps-bind now _ Keeps-now
                    λ t. Keeps-statement (put_source src t) (λ db. put-Leaves src t db _)

  Keeps-add_email : (id email : Str) → Keeps OfQueue (add_grantee_email id email)
  unfolding add_grantee_email
  Keeps-add_email id email =
      Keeps-if (is_empty id || is_empty (to_lower (trim_space email))) _ _ (λ _. Keeps-fail _)
        λ _.
          Keeps-transaction (link_email id (to_lower (trim_space email))) (λ _ _ h. h)
            (Keeps-link_email id _)

  module _ (codec : Codec) (ssh : Ssh) where
    Keeps-add_grantee : (raw : Str) → Keeps OfQueue (run_add_grantee codec ssh raw)
    unfolding run_add_grantee
    Keeps-add_grantee raw = Keeps-bind (lift (codec.decode_add_grantee raw)) _ (Keeps-lift _) λ a.
        Keeps-if (is_empty (trim_space a.slug)) _ _ (λ _. Keeps-fail _)
          λ _. Keeps-ensure_grantee (record {
            grantee_id = trim_space a.slug;
            display_name = a.display_name;
            status = status_active;
            created_at = none;
          })

    Keeps-add_approval_user : (raw : Str) → Keeps OfQueue (run_add_approval_user codec ssh raw)
    unfolding run_add_approval_user
    Keeps-add_approval_user raw =
        Keeps-bind (lift (codec.decode_add_approval_user raw)) _ (Keeps-lift _) λ a.
          Keeps-if (is_empty (trim_space a.email)) _ _ (λ _. Keeps-fail _)
            λ _.
              Keeps-if (is_empty (trim_space a.public_key)) _ _ (λ _. Keeps-fail _)
                λ _.
                  Keeps-bind (lift (fingerprint ssh (trim_space a.public_key))) _ (Keeps-lift _)
                    λ fp. Keeps-upsert_user (trim_space a.email) (trim_space a.public_key) fp

    Keeps-known :
        (id : Str) (m : Exec (Unit {0}))
        → Keeps OfQueue m
        → Keeps OfQueue (or_else (get_grantee id) (no_grantee id) (λ g. m))
    Keeps-known id m k =
        Keeps-or_else (get_grantee id) (no_grantee id) (λ g. m) (Keeps-get_grantee id)
          (λ e. Keeps-if (is_not_found e) _ _ (λ _. Keeps-fail _) (λ _. Keeps-fail _)) (λ g. k)

    Keeps-whitelisted :
        (a : WhitelistDocArgs)
        → Keeps OfQueue (do
          upsert_source (record {
            grantee_id = trim_space a.grantee_id;
            source_type = a.source_type;
            drive_id = trim_space a.drive_id;
            added_at = none;
          })
          pure tt)
    Keeps-whitelisted a =
        let src : Source = record {
          grantee_id = trim_space a.grantee_id;
          source_type = a.source_type;
          drive_id = trim_space a.drive_id;
          added_at = none;
        } in
        Keeps-bind (upsert_source src) (λ id. pure tt) (Keeps-upsert_source src)
          (λ id. Keeps-pure tt)

    Keeps-whitelist_doc : (raw : Str) → Keeps OfQueue (run_whitelist_doc codec ssh raw)
    unfolding run_whitelist_doc
    Keeps-whitelist_doc raw =
        Keeps-bind (lift (codec.decode_whitelist_doc raw)) _ (Keeps-lift _) λ a.
          Keeps-if (is_empty (trim_space a.grantee_id)) _ _ (λ _. Keeps-fail _)
            λ _.
              Keeps-if (is_empty (trim_space a.drive_id)) _ _ (λ _. Keeps-fail _)
                λ _.
                  Keeps-if
                    (not (eqs a.source_type source_type_folder)
                      && not (eqs a.source_type source_type_doc))
                    _ _ (λ _. Keeps-fail _)
                    λ _. Keeps-known (trim_space a.grantee_id) _ (Keeps-whitelisted a)

    Keeps-authorize_grantee_email :
        (raw : Str) → Keeps OfQueue (run_authorize_grantee_email codec ssh raw)
    unfolding run_authorize_grantee_email
    Keeps-authorize_grantee_email raw =
        Keeps-bind (lift (codec.decode_authorize_grantee_email raw)) _ (Keeps-lift _) λ a.
          Keeps-if (is_empty (trim_space a.grantee_id)) _ _ (λ _. Keeps-fail _)
            λ _.
              Keeps-if (is_empty (trim_space a.email)) _ _ (λ _. Keeps-fail _)
                λ _.
                  Keeps-known (trim_space a.grantee_id) _
                    (Keeps-add_email (trim_space a.grantee_id) (trim_space a.email))

    Keeps-either :
        (b : Bool) (m n : Exec (Unit {0}))
        → Keeps OfQueue m
        → Keeps OfQueue n
        → Keeps OfQueue (if b then m else n)
    Keeps-either b m n km kn = Keeps-if b m n (λ _. km) (λ _. kn)

    Keeps-register :
        (name : Str) (h : Handler) (r : Registry)
        → ((raw : Str) → Keeps OfQueue (h raw))
        → ((action raw : Str) → Keeps OfQueue (dispatch r action raw))
        → (action raw : Str) → Keeps OfQueue (dispatch (register name h r) action raw)
    Keeps-register name h r kh kr action raw =
        subst (Keeps OfQueue) (sym (dispatch-register name action raw h r))
          (Keeps-either (eqs name action) (h raw) (dispatch r action raw) (kh raw) (kr action raw))

    Keeps-unknown : (action raw : Str) → Keeps OfQueue (dispatch new_registry action raw)
    unfolding dispatch
    Keeps-unknown action raw = Keeps-fail _

    -- Dispatching any action keeps what is true of the queue.
    pub Keeps-dispatch :
        (action raw : Str)
        → Keeps OfQueue (dispatch (register_all codec ssh new_registry) action raw)
    unfolding register_all
    Keeps-dispatch =
        Keeps-register action_authorize_grantee_email (run_authorize_grantee_email codec ssh) _
          Keeps-authorize_grantee_email
          (Keeps-register action_whitelist_doc (run_whitelist_doc codec ssh) _ Keeps-whitelist_doc (
            Keeps-register action_add_approval_user (run_add_approval_user codec ssh) _
              Keeps-add_approval_user
              (Keeps-register action_add_grantee (run_add_grantee codec ssh) _ Keeps-add_grantee
                Keeps-unknown)))
