-- ===== src/ApprovalServer/Gate.antt =====
-- approveAction acts on an action only where an operator's signature authorises it.
use balvibot.Prelude.{
  ℕ, ◌≡◌, refl, sym, ap, ◌∙◌, inl, inr, ◌||◌, Option, none, some, List, Str, eqs, eqs_iff, is_empty,
  Bool-cases,
}
use balvibot.Errors.{Error, Result, ok, err, is_not_found, error_text}
use balvibot.Store.Schema.{Db, ActionRow, UserRow}
use balvibot.Store.Exec.{World, pure, ◌>>=◌}
use balvibot.Store.Reads.{Reads, spent, read_row_cases, Reads-or_else, bind-ok, bind-err}
use balvibot.Store.Approvals.{
  approval_pending, scan_action, action_with_id, user_with_email, get_action, get_approval_user,
}
use balvibot.Approval.Keys.{Ssh}
use balvibot.Approval.Registry.{Registry}
use balvibot.ApprovalServer.{
  Response, ApproveRequest, Verdict, refuse, proceed, verify_approval, verdict, check_user, decide,
  act, approve_parsed, approve_action, parse_id, write_error, refused_lookup,
}

module _ (ssh : Ssh) where
  -- The action `id` waits in the tables, and the operator who asks has signed it with the key that
  -- stands there under the e-mail address of the request.
  pub record Authorised (id : ℕ) (req : ApproveRequest) (db : Db) : Type 0 where
    pub row : ActionRow
    pub user : UserRow
    pub found : action_with_id id db ≡ some row
    pub pending : row.status ≡ approval_pending
    pub known : user_with_email req.email db ≡ some user
    pub signed : verify_approval ssh (scan_action row) user req.signature ≡ ok tt

  -- A verdict to proceed names the action that is authorised.
  abbrev pub IsJustified : ℕ → ApproveRequest → Db → Verdict → Type 0
  IsJustified id req db (refuse r) = Unit
  IsJustified id req db (proceed a) = (auth : Authorised id req db) × (a ≡ scan_action auth.row)

  refused_lookup_lem :
      (e : Error) (status : ℕ) (msg : Str) (w : World)
      → (r : Response) × (refused_lookup status msg e w ≡ (ok (refuse r), w))
  unfolding pure
  refused_lookup_lem e status msg w = elim (Bool-cases (is_not_found e)) [
    | inl h ↦ (write_error status msg, rw h)
    | inr h ↦ (write_error 500 (error_text e), rw h)
  ]

  verdict_lem :
      (id : ℕ) (req : ApproveRequest) (db : Db) (row : ActionRow) (user : UserRow)
      (r : Result (Unit {0}))
      → action_with_id id db ≡ some row
      → row.status ≡ approval_pending
      → user_with_email req.email db ≡ some user
      → verify_approval ssh (scan_action row) user req.signature ≡ r
      → IsJustified id req db (verdict ssh (scan_action row) r)
  verdict_lem id req db row user (err e) found pending known signed = tt
  verdict_lem id req db row user (ok u) found pending known signed = (
    record {
      row = row;
      user = user;
      found = found;
      pending = pending;
      known = known;
      signed = signed;
    },
    refl,
  )

  refused_lookup-Reads :
      (P : Verdict → Type 0) (w : World) (e : Error) (rest : List (Option Error)) (status : ℕ)
      (msg : Str)
      → ((r : Response) → P (refuse r))
      → Reads P w (refused_lookup status msg e (spent w rest))
  refused_lookup-Reads P w e rest status msg p =
      let (r, q) = refused_lookup_lem e status msg (spent w rest) in inr (refuse r, rest, p r, q)

  module _ (id : ℕ) (req : ApproveRequest) where
    check_user_cases :
        (row : ActionRow) (w : World) (rest : List (Option Error))
        → action_with_id id w.db ≡ some row
        → Reads (IsJustified id req w.db) w (check_user ssh req (scan_action row) (spent w rest))
    unfolding check_user get_approval_user pure scan_action
    check_user_cases row w rest found = elim (Bool-cases (eqs row.status approval_pending)) [
      | inr no_wait ↦ rw no_wait (inr (_, rest, tt, refl))
      | inl waits ↦ rw waits (
          Reads-or_else _ (IsJustified id req w.db) (get_approval_user req.email) (spent w rest) _ _
            (read_row_cases (user_with_email req.email) (λ u. u) (spent w rest))
            (λ e rest'. refused_lookup-Reads _ w e rest' _ _ (λ r. tt))
            (λ u rest' p. inr (
              _,
              rest',
              verdict_lem id req w.db row u _ found ((eqs_iff _ _).0 waits)
                  (p.1 ∙ ap some (sym p.2)) refl,
              refl,
            )))
    ]

    -- A verdict to proceed is justified by the tables, and reaching one changes nothing.
    pub decide_cases : (w : World) → Reads (IsJustified id req w.db) w (decide ssh id req w)
    unfolding decide get_action pure
    decide_cases w = elim (Bool-cases (is_empty req.email || is_empty req.signature)) [
      | inl blank ↦ rw blank (inr (_, w.outages, tt, refl))
      | inr full ↦ rw full (
          Reads-or_else _ (IsJustified id req w.db) (get_action id) w _ _
            (read_row_cases (action_with_id id) scan_action w)
            (λ e rest. refused_lookup-Reads _ w e rest _ _ (λ r. tt))
            (λ a rest p. rw p.2 (check_user_cases p.0 w rest p.1)))
    ]

  act_refused :
      (registry : Registry) (id : ℕ) (req : ApproveRequest) (v : Verdict) (w : World)
      → IsJustified id req w.db v
      → ¬ Authorised id req w.db
      → (act registry id req.email v w).1.db ≡ w.db
  unfolding pure
  act_refused registry id req (refuse r) w j no_auth = refl
  act_refused registry id req (proceed a) w j no_auth = absurd (no_auth j.0)

  decided :
      (registry : Registry) (id : ℕ) (req : ApproveRequest) (w : World)
      → ¬ Authorised id req w.db
      → ((do v ← decide ssh id req; act registry id req.email v) w).1.db ≡ w.db
  decided registry id req w no_auth = elim (decide_cases id req w) [
    | inl (e, rest, h) ↦
        ap (λ (r : Result Response × World). r.1.db) (bind-err (decide ssh id req) _ w _ e h)
    | inr (v, rest, j, h) ↦
        ap (λ (r : Result Response × World). r.1.db)
          (bind-ok (decide ssh id req) (act registry id req.email) w _ v h)
        ∙ act_refused registry id req v (spent w rest) j no_auth
  ]

  approve_parsed_refused :
      (registry : Registry) (parsed : Option ℕ) (body : Option ApproveRequest) (w : World)
      → ((id : ℕ) (req : ApproveRequest)
          → parsed ≡ some id
          → body ≡ some req
          → ¬ Authorised id req w.db)
      → (approve_parsed ssh registry parsed body w).1.db ≡ w.db
  unfolding approve_parsed
  approve_parsed_refused registry none body w no_auth = refl
  approve_parsed_refused registry (some id) none w no_auth = refl
  approve_parsed_refused registry (some id) (some req) w no_auth =
      decided registry id req w (no_auth id req refl refl)

  -- A request to approve changes the database only if it is authorised: if the id of the path and
  -- the body do not make an authorised request, then, whatever the registry and the outages are,
  -- the tables stay as they are.
  pub unauthorised_changes_nothing :
      (registry : Registry) (path : Str) (body : Option ApproveRequest) (w : World)
      → ((id : ℕ) (req : ApproveRequest)
          → parse_id path ≡ some id
          → body ≡ some req
          → ¬ Authorised id req w.db)
      → (approve_action ssh registry path body w).1.db ≡ w.db
  unfolding approve_action
  unauthorised_changes_nothing registry path body w no_auth =
      approve_parsed_refused registry (parse_id path) body w no_auth
