-- ===== src/ApprovalServer/History.antt =====
-- What happens to the approval queue over calls of the MCP tools and requests to approve.
use mathlib.Core.Path.{subst}
use balvibot.Prelude.{
  ℕ, ◌≡◌, refl, sym, ap, ◌∙◌, ◌≢◌, ◌⊎◌, inl, inr, Bool, true, false, ◌||◌, Option, none, some, List,
  [], ◌∷◌, ◌++◌, All, Str, eqs, eqs_iff, is_empty, update_rows, ◌==◌, ◌&&◌, if◌then◌else◌,
}
use balvibot.Errors.{Error, is_not_found, error_text}
use balvibot.Store.Schema.{Db, ActionRow}
use balvibot.Store.Exec.{World, now, statement, ◌>>=◌}
use balvibot.Store.Keeps.{
  Keeps, Keeps-pure, Keeps-fail, Keeps-if, Keeps-or_else, Keeps-bind, Keeps-now, Keeps-select,
  Keeps-statement,
}
use balvibot.Store.Approvals.{
  ApprovalAction, approval_pending, approval_executed, approval_failed, is_pending, executed_row,
  failed_row, update_actions, require_one_row, mark_action_executed, mark_action_failed, get_action,
  get_approval_user, raw_or_empty,
}
use balvibot.Approval.Keys.{Ssh}
use balvibot.Approval.Registry.{Registry, new_registry}
use balvibot.Actions.{Codec, register_all}
use balvibot.Actions.Untouched.{Keeps-dispatch}
use balvibot.McpServer.Queue.{Call, DriveLookup, handle}
use balvibot.McpServer.Queue.Isolation.{IsFresh, tools_only_queue, Keeps-missing}
use balvibot.ApprovalServer.{
  ApproveRequest, Verdict, refuse, proceed, refused_lookup, check_user, decide, act, approve_parsed,
  approve_action, parse_id, carry_out, record_success, record_failure,
}

-- Two rows ask for the same: all columns that the approval leaves alone agree.
pub record SameRequest (r r' : ActionRow) : Type 0 where
  pub id : r'.id ≡ r.id
  pub action : r'.action ≡ r.action
  pub args : r'.args ≡ r.args
  pub metadata : r'.metadata ≡ r.metadata
  pub requested_by : r'.requested_by ≡ r.requested_by
  pub created_at : r'.created_at ≡ r.created_at

abbrev pub IsSettled : ActionRow → Type 0
IsSettled r = (r.status ≡ approval_executed) ⊎ (r.status ≡ approval_failed)

-- What becomes of a row: it stays as it is, or it was pending and is settled with the same request.
abbrev pub Becomes : ActionRow → ActionRow → Type 0
Becomes r r' = (r' ≡ r) ⊎ ((r.status ≡ approval_pending) × IsSettled r' × SameRequest r r')

-- What becomes of the queue: each row stays in its place, and rows come at the end, which were
-- fresh once.
pub data Evolves : List ActionRow → List ActionRow → Type 0 where
  nothing : Evolves [] []
  keep :
      (r r' : ActionRow) (rs rs' : List ActionRow)
      → Becomes r r'
      → Evolves rs rs'
      → Evolves (r ∷ rs) (r' ∷ rs')
  add :
      (r r' : ActionRow) (rs' : List ActionRow)
      → IsFresh r
      → Becomes r r'
      → Evolves [] rs'
      → Evolves [] (r' ∷ rs')

Evolves-refl : (rs : List ActionRow) → Evolves rs rs
Evolves-refl [] = nothing
Evolves-refl (r ∷ rs) = keep r r rs rs (inl refl) (Evolves-refl rs)

appended :
    (old rs new : List ActionRow) → Evolves old rs → All IsFresh new → Evolves old (rs ++ new)
appended [] [] [] nothing f = nothing
appended [] [] (r ∷ new) nothing (p, f) = add r r new p (inl refl) (appended [] [] new nothing f)
appended _ _ new (keep r r' rs rs' b e) f = keep r r' rs (rs' ++ new) b (appended rs rs' new e f)
appended _ _ new (add r r' rs' p b e) f = add r r' (rs' ++ new) p b (appended [] rs' new e f)

-- A way to settle a row.
pub record Settles (f : ActionRow → ActionRow) : Type 0 where
  pub settled : (r : ActionRow) → IsSettled (f r)
  pub same : (r r0 : ActionRow) → SameRequest r0 r → SameRequest r0 (f r)

same_refl : (r : ActionRow) → SameRequest r r
same_refl r = record {
  id = refl;
  action = refl;
  args = refl;
  metadata = refl;
  requested_by = refl;
  created_at = refl;
}

both : (a b : Bool) → (a && b) ≡ true → b ≡ true
both true b h = h
both false b h = cc

pending_status : (id : ℕ) (r : ActionRow) → is_pending id r ≡ true → r.status ≡ approval_pending
unfolding is_pending
pending_status id r h = (eqs_iff r.status approval_pending).0 (both (r.id == id) _ h)

no_overlap : (s : Str) → eqs s approval_pending ≡ false → s ≢ approval_pending
no_overlap s h e = absurd (not_both (eqs s approval_pending) h ((eqs_iff s approval_pending).1 e))
  where
    not_both : (b : Bool) → b ≡ false → b ≢ true
    not_both b h k = cc

executed_is_settled : eqs approval_executed approval_pending ≡ false
unfolding eqs
executed_is_settled = refl

failed_is_settled : eqs approval_failed approval_pending ≡ false
unfolding eqs
failed_is_settled = refl

pending_unsettled : (r : ActionRow) → r.status ≡ approval_pending → ¬ IsSettled r
pending_unsettled r p (inl e) = no_overlap approval_executed executed_is_settled (sym e ∙ p)
pending_unsettled r p (inr e) = no_overlap approval_failed failed_is_settled (sym e ∙ p)

module _ (id : ℕ) (f : ActionRow → ActionRow) (s : Settles f) where
  settle_row :
      (r r' : ActionRow) (b : Bool)
      → is_pending id r' ≡ b
      → Becomes r r'
      → Becomes r (if b then f r' else r')
  settle_row r r' false e h = h
  settle_row r r' true e (inl same) = inr (
    ap (λ (x : ActionRow). x.status) (sym same) ∙ pending_status id r' e,
    s.settled r',
    s.same r' r (subst (SameRequest r) (sym same) (same_refl r)),
  )
  settle_row r r' true e (inr (was, settled, same)) =
      absurd (pending_unsettled r' (pending_status id r' e) settled)

  settle_rows :
      (old rs : List ActionRow) → Evolves old rs → Evolves old (update_rows (is_pending id) f rs)
  unfolding update_rows
  settle_rows _ _ nothing = nothing
  settle_rows _ _ (keep r r' rs rs' b e) =
      keep r (if is_pending id r' then f r' else r') rs (update_rows (is_pending id) f rs')
        (settle_row r r' (is_pending id r') refl b) (settle_rows rs rs' e)
  settle_rows _ _ (add r r' rs' p b e) =
      add r (if is_pending id r' then f r' else r') (update_rows (is_pending id) f rs') p
        (settle_row r r' (is_pending id r') refl b) (settle_rows [] rs' e)

same_executed : (email : Str) (t : ℕ) → Settles (executed_row email t)
same_executed email t = record {
  settled = λ r. inl refl;
  same = λ r r0 s. record {
    id = s.id;
    action = s.action;
    args = s.args;
    metadata = s.metadata;
    requested_by = s.requested_by;
    created_at = s.created_at;
  };
}

same_failed : (email msg : Str) (t : ℕ) → Settles (failed_row email msg t)
same_failed email msg t = record {
  settled = λ r. inr refl;
  same = λ r r0 s. record {
    id = s.id;
    action = s.action;
    args = s.args;
    metadata = s.metadata;
    requested_by = s.requested_by;
    created_at = s.created_at;
  };
}

module _ (old : List ActionRow) where
  abbrev OldEvolves : Db → Type 0
  OldEvolves db = Evolves old db.actions

  Keeps-require_one : (n : ℕ) → Keeps OldEvolves (require_one_row n)
  unfolding require_one_row
  Keeps-require_one n = Keeps-if (n == 0) _ _ (λ _. Keeps-fail _) (λ _. Keeps-pure _)

  Keeps-update :
      (id : ℕ) (f : ActionRow → ActionRow)
      → Settles f
      → Keeps OldEvolves (statement (update_actions id f) >>= require_one_row)
  unfolding update_actions
  Keeps-update id f s =
      Keeps-bind (statement (update_actions id f)) require_one_row
        (Keeps-statement (update_actions id f) λ db e. settle_rows id f s old db.actions e)
        Keeps-require_one

  Keeps-executed : (id : ℕ) (email : Str) → Keeps OldEvolves (mark_action_executed id email)
  unfolding mark_action_executed
  Keeps-executed id email =
      Keeps-bind now (λ t. statement (update_actions id (executed_row email t)) >>= require_one_row)
        Keeps-now λ t. Keeps-update id (executed_row email t) (same_executed email t)

  Keeps-failed : (id : ℕ) (email msg : Str) → Keeps OldEvolves (mark_action_failed id email msg)
  unfolding mark_action_failed
  Keeps-failed id email msg =
      Keeps-bind now
        (λ t. statement (update_actions id (failed_row email msg t)) >>= require_one_row) Keeps-now
        λ t. Keeps-update id (failed_row email msg t) (same_failed email msg t)

  Keeps-lookup :
      (status : ℕ) (msg : Str) (e : Error) → Keeps OldEvolves (refused_lookup status msg e)
  Keeps-lookup status msg e = Keeps-if (is_not_found e) _ _ (λ _. Keeps-pure _) (λ _. Keeps-pure _)

  module _ (ssh : Ssh) (req : ApproveRequest) where
    Keeps-check_user : (a : ApprovalAction) → Keeps OldEvolves (check_user ssh req a)
    unfolding check_user get_approval_user
    Keeps-check_user a =
        Keeps-if (eqs a.status approval_pending) _ _
          (λ _.
            Keeps-or_else _ _ _ (Keeps-or_else _ _ _ (Keeps-select _) Keeps-missing Keeps-pure)
              (Keeps-lookup _ _) (λ u. Keeps-pure _))
          (λ _. Keeps-pure _)

    Keeps-decide : (id : ℕ) → Keeps OldEvolves (decide ssh id req)
    unfolding decide get_action
    Keeps-decide id =
        Keeps-if (is_empty req.email || is_empty req.signature) _ _ (λ _. Keeps-pure _)
          λ _.
            Keeps-or_else _ _ _
              (Keeps-or_else _ _ _ (Keeps-select _) Keeps-missing (λ r. Keeps-pure _))
              (Keeps-lookup _ _) Keeps-check_user

  module _ (codec : Codec) (ssh : Ssh) where
    abbrev registry : Registry
    registry = register_all codec ssh new_registry

    Keeps-act : (id : ℕ) (email : Str) (v : Verdict) → Keeps OldEvolves (act registry id email v)
    unfolding carry_out record_success record_failure
    Keeps-act id email (refuse r) = Keeps-pure r
    Keeps-act id email (proceed a) =
        Keeps-or_else _ _ _ (Keeps-dispatch (Evolves old) codec ssh a.action (raw_or_empty a.args))
          (λ e.
            Keeps-or_else _ _ _ (Keeps-failed id email (error_text e)) (λ _. Keeps-pure _)
              (λ _. Keeps-pure _))
          (λ _.
            Keeps-or_else _ _ _ (Keeps-executed id email) (λ _. Keeps-pure _) (λ _. Keeps-pure _))

    Keeps-parsed :
        (id : Option ℕ) (body : Option ApproveRequest)
        → Keeps OldEvolves (approve_parsed ssh registry id body)
    unfolding approve_parsed
    Keeps-parsed none body = Keeps-pure _
    Keeps-parsed (some id) none = Keeps-pure _
    Keeps-parsed (some id) (some req) =
        Keeps-bind (decide ssh id req) (act registry id req.email) (Keeps-decide ssh req id)
          (Keeps-act id req.email)

-- What arrives at the two servers, one after the other.
pub data Event : Type 0 where
  tool_call : Call → Event
  approval : Str → Option ApproveRequest → Event

module _ (codec : Codec) (ssh : Ssh) (drv : Option DriveLookup) where
  -- The tables after one event, whatever it answers.
  unfoldable pub serve : Event → World → World
  unfolding handle approve_action
  serve (tool_call c) w = (handle codec ssh drv c w).1
  serve (approval path body) w =
      (approve_action ssh (register_all codec ssh new_registry) path body w).1

  unfoldable pub serve_all : List Event → World → World
  unfolding serve
  serve_all [] w = w
  serve_all (e ∷ es) w = serve_all es (serve e w)

  serve-Evolves :
      (old : List ActionRow) (e : Event) (w : World)
      → Evolves old w.db.actions
      → Evolves old (serve e w).db.actions
  unfolding serve approve_action
  serve-Evolves old (tool_call c) w e =
      let q = tools_only_queue codec ssh drv c w in
      subst (Evolves old) (sym q.appended) (appended old w.db.actions q.rows e q.fresh)
  serve-Evolves old (approval path body) w e =
      (Keeps-parsed old codec ssh (parse_id path) body).at w e

  from :
      (old : List ActionRow) (es : List Event) (w : World)
      → Evolves old w.db.actions
      → Evolves old (serve_all es w).db.actions
  unfolding serve_all
  from old [] w e = e
  from old (x ∷ es) w e = from old es (serve x w) (serve-Evolves old x w e)

  -- Over any sequence of tool calls and requests to approve, with the handlers of the program, and
  -- whatever statements fail: no row leaves the queue or changes its place, its request (action,
  -- arguments, metadata, requester, time) never changes, a pending row may become executed or
  -- failed, once, and a settled row stays as it is; new rows come at the end and were pending once.
  pub queue_history :
      (es : List Event) (w : World) → Evolves w.db.actions (serve_all es w).db.actions
  queue_history es w = from w.db.actions es w (Evolves-refl w.db.actions)
