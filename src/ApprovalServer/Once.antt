-- ===== src/ApprovalServer/Once.antt =====
-- approveAction on an action that no longer waits, and twice on the same action.
use balvibot.Prelude.{
  ℕ, ◌≡◌, refl, ◌∙◌, true, false, some, ◌++◌, ◌==◌, Str, codes, eqs, eqs_iff, is_empty, find-update,
  find_row-holds, find-any,
}
use balvibot.Errors.{ok}
use balvibot.Store.Schema.{Db, ActionRow}
use balvibot.Store.Exec.{World, pure, ◌>>=◌}
use balvibot.Store.Reads.{calm, or_else-ok, bind-ok}
use balvibot.Store.Approvals.{
  approval_pending, approval_executed, raw_or_empty, scan_action, action_with_id, get_action,
  is_pending, executed_row,
}
use balvibot.Approval.Keys.{Ssh}
use balvibot.Approval.Registry.{Registry, dispatch}
use balvibot.ApprovalServer.{
  Response, ApproveRequest, refuse, check_user, decide, act, approve_parsed, write_error,
}
use balvibot.ApprovalServer.Gate.{Authorised}
use balvibot.ApprovalServer.Outcome.{mark, waits, get_action-calm, approved_lem}

abbrev pub not_pending : Str → Response
not_pending status =
    write_error 409 (codes "action is not pending (status=" ++ (status ++ codes ")"))

module _ (ssh : Ssh) (registry : Registry) (id : ℕ) (req : ApproveRequest) (w : World)
    (row : ActionRow) (found : action_with_id id w.db ≡ some row)
    (has_email : is_empty req.email ≡ false) (has_signature : is_empty req.signature ≡ false) where
  decide_settled :
      eqs row.status approval_pending ≡ false
      → decide ssh id req (calm w) ≡ (ok (refuse (not_pending row.status)), calm w)
  unfolding decide
  decide_settled settled =
      rw (has_email, has_signature)
        (or_else-ok (get_action id) _ (check_user ssh req) (calm w) (calm w) (scan_action row)
            (get_action-calm id row w found)
          ∙ refusal)
    where
      refusal :
          check_user ssh req (scan_action row) (calm w)
          ≡ (ok (refuse (not_pending row.status)), calm w)
      refusal = unfold check_user scan_action pure in rw settled

  settled_is_refused :
      eqs row.status approval_pending ≡ false
      → approve_parsed ssh registry (some id) (some req) (calm w)
        ≡ (ok (not_pending row.status), calm w)
  unfolding approve_parsed pure
  settled_is_refused settled =
      bind-ok (decide ssh id req) (act registry id req.email) (calm w) (calm w) _
        (decide_settled settled)

executed_is_settled : eqs approval_executed approval_pending ≡ false
unfolding eqs
executed_is_settled = refl

pub waits_lem :
    (id : ℕ) (db : Db) (row : ActionRow)
    → action_with_id id db ≡ some row
    → row.status ≡ approval_pending
    → waits id db ≡ true
waits_lem id db row found pending =
    unfold action_with_id is_pending in
    find-any (λ r. r.id == id) (is_pending id) db.actions row found
      (rw (
        find_row-holds (λ r. r.id == id) db.actions row found,
        (eqs_iff row.status approval_pending).1 pending,
      ))

marked_row :
    (id : ℕ) (email : Str) (t : ℕ) (db : Db) (row : ActionRow)
    → action_with_id id db ≡ some row
    → row.status ≡ approval_pending
    → action_with_id id (mark id (executed_row email t) db) ≡ some (executed_row email t row)
unfolding action_with_id
marked_row id email t db row found pending =
    find-update (λ r. r.id == id) (is_pending id) (executed_row email t) db.actions row (λ r. refl)
      found
    ∙ unfold is_pending in
      rw (
        find_row-holds (λ r. r.id == id) db.actions row found,
        (eqs_iff row.status approval_pending).1 pending,
      )

module _ (ssh : Ssh) (registry : Registry) (id : ℕ) (req again : ApproveRequest) (w w' : World)
    (auth : Authorised ssh id req w.db) (has_email : is_empty req.email ≡ false)
    (has_signature : is_empty req.signature ≡ false) (again_email : is_empty again.email ≡ false)
    (again_signature : is_empty again.signature ≡ false) where
  -- Two requests for the same action, one after the other, while the database answers, the first
  -- authorised, its handler succeeding and leaving the action's row in the queue and pending: the
  -- second gets 409, whoever signs it, and what is left is what the first left. So an action that
  -- was executed is not executed again.
  pub executed_once :
      (row : ActionRow)
      → dispatch registry auth.row.action (raw_or_empty auth.row.args) (calm w) ≡ (ok tt, calm w')
      → action_with_id id w'.db ≡ some row
      → row.status ≡ approval_pending
      → (approve_parsed ssh registry (some id) (some req) >>= λ _.
            approve_parsed ssh registry (some id) (some again))
          (calm w)
        ≡ (
          ok (not_pending approval_executed),
          calm (record w' { db = mark id (executed_row req.email w'.clock) w'.db }),
        )
  executed_once row ran found pending =
      let after = record w' { db = mark id (executed_row req.email w'.clock) w'.db } in
      bind-ok (approve_parsed ssh registry (some id) (some req)) _ (calm w) (calm after) _ (
        approved_lem ssh registry id req w auth has_email has_signature w' ran
          (waits_lem id w'.db row found pending))
      ∙ settled_is_refused ssh registry id again after (executed_row req.email w'.clock row)
          (marked_row id req.email w'.clock w'.db row found pending) again_email again_signature
          executed_is_settled
