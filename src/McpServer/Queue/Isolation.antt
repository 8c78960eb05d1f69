-- ===== src/McpServer/Queue/Isolation.antt =====
-- The mutating tools of the MCP server write to the approval queue only.
use balvibot.Prelude.{
  ℕ, ◌≡◌, refl, ap, ◌∙◌, Option, none, some, List, [], ◌∷◌, ◌++◌, All, Str, codes, is_empty,
  trim_space, append_nil, append_assoc,
}
use balvibot.Errors.{Error, Result, ok, err, wrap, is_not_found, is_no_rows}
use balvibot.Store.Schema.{Db, ActionRow}
use balvibot.Store.Exec.{World, Exec, fail, lift, or_else, now}
use balvibot.Store.Keeps.{
  Keeps, Leaves, Keeps-pure, Keeps-fail, Keeps-lift, Keeps-if, Keeps-or_else, Keeps-bind, Keeps-now,
  Keeps-select, Keeps-statement,
}
use balvibot.Store.Text.{null_str}
use balvibot.Store.Approvals.{
  approval_pending, raw_or_empty, to_jsonb, new_action, insert_action, enqueue_action, missing,
}
use balvibot.Store.Grantees.{get_grantee}
use balvibot.Approval.Keys.{Ssh, fingerprint}
use balvibot.Actions.{
  Codec, action_add_grantee, action_add_approval_user, action_whitelist_doc,
  action_authorize_grantee_email,
}
use balvibot.McpServer.Queue.{
  Request, EnqueueResult, DriveLookup, require, grantee_missing, queued, action_metadata, mime_type,
  source_type_of, add_grantee, add_approval_user, whitelist, whitelist_doc, authorize_grantee_email,
  Call, call_add_grantee, call_add_approval_user, call_whitelist_doc, call_authorize_grantee_email,
  handle,
}

-- The tables without the queue.
abbrev pub besides_queue : Db → Db
besides_queue db = record db { actions = []; next_action = 0 }

-- A row as it is queued: nobody has approved it and nothing was run.
abbrev pub IsFresh : ActionRow → Type 0
IsFresh r = (r.status ≡ approval_pending) × (r.approved_by ≡ none) × (r.executed_at ≡ none)

-- `db` is `old` with fresh rows at the end of the queue.
pub record Queued (old db : Db) : Type 0 where
  pub rows : List ActionRow
  pub appended : db.actions ≡ old.actions ++ rows
  pub fresh : All IsFresh rows
  pub rest : besides_queue db ≡ besides_queue old

All-snoc :
    (rows : List ActionRow) (r : ActionRow)
    → All IsFresh rows
    → IsFresh r
    → All IsFresh (rows ++ r ∷ [])
All-snoc [] r a f = (f, tt)
All-snoc (x ∷ rows) r (p, a) f = (p, All-snoc rows r a f)

module _ {P : Db → Type 0} where
  pub Keeps-to_jsonb : (s : Str) → Keeps P (to_jsonb s)
  unfolding to_jsonb
  Keeps-to_jsonb s = record { at = λ w h. h }

  pub Keeps-missing : {A : Type 0} (e : Error) → Keeps P (missing {A = A} e)
  unfolding missing
  Keeps-missing e = Keeps-if (is_no_rows e) _ _ (λ _. Keeps-fail _) (λ _. Keeps-fail _)

  pub Keeps-get_grantee : (id : Str) → Keeps P (get_grantee id)
  unfolding get_grantee
  Keeps-get_grantee id = Keeps-or_else _ _ _ (Keeps-select _) Keeps-missing (λ r. Keeps-pure _)

  Keeps-grantee_missing :
      {A : Type 0} (id : Str) (e : Error) → Keeps P (grantee_missing {A = A} id e)
  Keeps-grantee_missing id e = Keeps-if (is_not_found e) _ _ (λ _. Keeps-fail _) (λ _. Keeps-fail _)

  Keeps-require : {A : Type 0} (s text : Str) (m : Exec A) → Keeps P m → Keeps P (require s text m)
  Keeps-require s text m k = Keeps-if (is_empty s) _ m (λ _. Keeps-fail _) (λ _. k)

module _ (old : Db) where
  insert-Leaves :
      (action : Str) (args metadata requested_by : Option Str) (t : ℕ) (db : Db)
      → Queued old db
      → Leaves (Queued old) (insert_action action args metadata requested_by t db)
  unfolding insert_action
  insert-Leaves action none metadata requested_by t db q = tt
  insert-Leaves action (some args) none requested_by t db q = tt
  insert-Leaves action (some args) (some metadata) requested_by t db q =
      let row = new_action db.next_action action args metadata requested_by t in
      record {
        rows = q.rows ++ row ∷ [];
        appended = ap (λ l. l ++ row ∷ []) q.appended ∙ append_assoc old.actions q.rows (row ∷ []);
        fresh = All-snoc q.rows row q.fresh (refl, refl, refl);
        rest = q.rest;
      }

  Keeps-enqueue :
      (action args metadata requested_by : Str)
      → Keeps (Queued old) (enqueue_action action args metadata requested_by)
  unfolding enqueue_action
  Keeps-enqueue action args metadata requested_by =
      Keeps-if (is_empty action) _ _ (λ _. Keeps-fail _)
        λ _. Keeps-bind now _ Keeps-now λ t.
          Keeps-bind (to_jsonb (raw_or_empty args)) _ (Keeps-to_jsonb (raw_or_empty args)) λ a.
            Keeps-bind (to_jsonb (raw_or_empty metadata)) _ (Keeps-to_jsonb (raw_or_empty metadata))
              λ m.
                Keeps-statement (insert_action action a m (null_str requested_by) t)
                  (insert-Leaves action a m (null_str requested_by) t)

  module _ (codec : Codec) where
    Keeps-queued :
        (action args : Str) (request : Request)
        → Keeps (Queued old) (queued codec action args request)
    unfolding queued
    Keeps-queued action args request =
        let metadata = action_metadata codec request.signal_number in
        Keeps-bind (enqueue_action action args metadata request.requested_by) _
          (Keeps-enqueue action args metadata request.requested_by)
          λ id. Keeps-pure (record { approval_id = id; action = action; status = approval_pending })

    Keeps-whitelist :
        (drv : Option DriveLookup) (grantee drive : Str) (request : Request)
        → Keeps (Queued old) (whitelist codec drv grantee drive request)
    unfolding whitelist
    Keeps-whitelist drv grantee drive request =
        Keeps-bind (lift (mime_type drv drive)) _ (Keeps-lift (mime_type drv drive)) λ mime.
          Keeps-bind (lift (source_type_of drive mime)) _ (Keeps-lift (source_type_of drive mime))
            λ s.
              Keeps-queued action_whitelist_doc
                (codec.encode_whitelist_doc
                  (record { grantee_id = grantee; drive_id = drive; source_type = s }))
                request

    Keeps-known :
        (grantee : Str) (m : Exec EnqueueResult)
        → Keeps (Queued old) m
        → Keeps (Queued old) (or_else (get_grantee grantee) (grantee_missing grantee) (λ g. m))
    Keeps-known grantee m k =
        Keeps-or_else (get_grantee grantee) (grantee_missing grantee) (λ g. m)
          (Keeps-get_grantee grantee) (Keeps-grantee_missing grantee) (λ g. k)

    module _ (ssh : Ssh) (drv : Option DriveLookup) where
      Keeps-key :
          (action args : Str) (request : Request) (r : Result Str)
          → Keeps (Queued old) (elim r [
            | err e ↦ fail (wrap (codes "invalid ssh_public_key: ") e [])
            | ok fp ↦ queued codec action args request
          ])
      Keeps-key action args request (err e) =
          Keeps-fail (wrap (codes "invalid ssh_public_key: ") e [])
      Keeps-key action args request (ok fp) = Keeps-queued action args request

      Keeps-handle : (c : Call) → Keeps (Queued old) (handle codec ssh drv c)
      unfolding handle add_grantee add_approval_user whitelist_doc authorize_grantee_email
      Keeps-handle (call_add_grantee slug name request) =
          Keeps-require (trim_space slug) (codes "slug is required") _ (
            Keeps-queued action_add_grantee
              (codec.encode_add_grantee (record { slug = trim_space slug; display_name = name }))
              request)
      Keeps-handle (call_add_approval_user email key request) =
          Keeps-require (trim_space email) (codes "email is required") _ (
            Keeps-require (trim_space key) (codes "ssh_public_key is required") _ (
              Keeps-key action_add_approval_user
                (codec.encode_add_approval_user
                  (record { email = trim_space email; public_key = trim_space key }))
                request (fingerprint ssh (trim_space key))))
      Keeps-handle (call_whitelist_doc grantee drive request) =
          Keeps-require (trim_space grantee) (codes "grantee_id is required") _ (
            Keeps-require (trim_space drive) (codes "drive_id is required") _ (
              Keeps-known (trim_space grantee) _
                (Keeps-whitelist drv (trim_space grantee) (trim_space drive) request)))
      Keeps-handle (call_authorize_grantee_email grantee email request) =
          Keeps-require (trim_space grantee) (codes "grantee_id is required") _ (
            Keeps-require (trim_space email) (codes "email is required") _ (
              Keeps-known (trim_space grantee) _ (
                Keeps-queued action_authorize_grantee_email
                  (codec.encode_authorize_grantee_email
                    (record { grantee_id = trim_space grantee; email = trim_space email }))
                  request)))

-- A call of a mutating tool, whatever its input and whatever statements fail, changes nothing but
-- the approval queue, where it only appends rows that are pending, approved by nobody and not run.
pub tools_only_queue :
    (codec : Codec) (ssh : Ssh) (drv : Option DriveLookup) (c : Call) (w : World)
    → Queued w.db (handle codec ssh drv c w).1.db
tools_only_queue codec ssh drv c w =
    (Keeps-handle w.db codec ssh drv c).at w
      (record { rows = []; appended = append_nil w.db.actions; fresh = tt; rest = refl })
