-- ===== src/ApprovalServer/Outcome.antt =====
-- What approveAction does with an authorised request while the database answers.
use balvibot.Prelude.{
  map, List, ap, ℕ, ◌≡◌, refl, ◌∙◌, Bool, true, false, some, ◌++◌, Str, codes, eqs_iff, is_empty,
  any_row, count_rows, update_rows, count-any,
}
use balvibot.Errors.{Error, Result, ok, err, error_text}
use balvibot.Store.Schema.{Db, ActionRow, UserRow}
use balvibot.Store.Exec.{World, pure, now, statement, ◌>>=◌}
use balvibot.Store.Reads.{calm, read_row_calm, statement-calm, or_else-ok, or_else-err, bind-ok}
use balvibot.Store.Approvals.{
  approval_pending, raw_or_empty, scan_action, action_with_id, user_with_email, get_action,
  get_approval_user, missing, is_pending, executed_row, failed_row, update_actions, require_one_row,
  mark_action_executed, mark_action_failed,
}
use balvibot.Approval.Keys.{Ssh}
use balvibot.Approval.Registry.{Registry, dispatch}
use balvibot.ApprovalServer.{
  Response, ApproveRequest, proceed, check_user, decide, act, approve_parsed, carry_out,
  record_success, record_failure, write_error, write_json, approve_response,
}
use balvibot.ApprovalServer.Gate.{Authorised}
use balvibot.ApprovalServer.Settled.{
  executed_by, failed_by, with_actions, update-executed, update-failed,
}

-- The rows of the queue that wait under the id `id` are replaced by their images under `f`.
abbrev pub mark : ℕ → (ActionRow → ActionRow) → Db → Db
mark id f db = record db { actions = update_rows (is_pending id) f db.actions }

abbrev pub waits : ℕ → Db → Bool
waits id db = any_row (is_pending id) db.actions

module _ (id : ℕ) (f : ActionRow → ActionRow) (w : World) (there : waits id w.db ≡ true) where
  marked :
      (statement (update_actions id f) >>= require_one_row) (calm w)
      ≡ (ok tt, calm (record w { db = mark id f w.db }))
  unfolding update_actions
  marked =
      bind-ok (statement (update_actions id f)) require_one_row (calm w) _ _
        (statement-calm (update_actions id f) w _ _ refl)
      ∙ one_row
    where
      one_row :
          require_one_row
            (count_rows (is_pending id) w.db.actions)
            (calm (record w { db = mark id f w.db }))
          ≡ (ok tt, calm (record w { db = mark id f w.db }))
      one_row = unfold require_one_row pure in rw (count-any (is_pending id) w.db.actions there)

pub get_action-calm :
    (id : ℕ) (row : ActionRow) (w : World)
    → action_with_id id w.db ≡ some row
    → get_action id (calm w) ≡ (ok (scan_action row), calm w)
unfolding get_action pure
get_action-calm id row w found =
    read_row_calm (action_with_id id) missing (λ r. pure (scan_action r)) w row found

pub get_user_calm :
    (email : Str) (user : UserRow) (w : World)
    → user_with_email email w.db ≡ some user
    → get_approval_user email (calm w) ≡ (ok user, calm w)
unfolding get_approval_user pure
get_user_calm email user w known = read_row_calm (user_with_email email) missing pure w user known

module _ (ssh : Ssh) (id : ℕ) (req : ApproveRequest) (w : World)
    (auth : Authorised ssh id req w.db) where
  checked :
      check_user ssh req (scan_action auth.row) (calm w)
      ≡ (ok (proceed (scan_action auth.row)), calm w)
  unfolding check_user pure
  checked = rw ((eqs_iff (scan_action auth.row).status approval_pending).1 status) (
      or_else-ok (get_approval_user req.email) _ _ (calm w) (calm w) auth.user
        (get_user_calm req.email auth.user w auth.known)
      ∙ rw auth.signed refl)
    where
      status : (scan_action auth.row).status ≡ approval_pending
      status = unfold scan_action in auth.pending

  module _ (has_email : is_empty req.email ≡ false)
      (has_signature : is_empty req.signature ≡ false) where
    pub decide_authorised :
        decide ssh id req (calm w) ≡ (ok (proceed (scan_action auth.row)), calm w)
    unfolding decide
    decide_authorised =
        rw (has_email, has_signature)
          (or_else-ok (get_action id) _ (check_user ssh req) (calm w) (calm w)
              (scan_action auth.row) (get_action-calm id auth.row w auth.found)
            ∙ checked)

module _ (id : ℕ) (email : Str) (w : World) (there : waits id w.db ≡ true) where
  executed :
      mark_action_executed id email (calm w)
      ≡ (ok tt, calm (record w { db = mark id (executed_row email w.clock) w.db }))
  unfolding mark_action_executed now ◌>>=◌
  executed = marked id (executed_row email w.clock) w there

  failed :
      (msg : Str)
      → mark_action_failed id email msg (calm w)
        ≡ (ok tt, calm (record w { db = mark id (failed_row email msg w.clock) w.db }))
  unfolding mark_action_failed now ◌>>=◌
  failed msg = marked id (failed_row email msg w.clock) w there

  pub recorded : record_success id email (calm w) ≡ (
    ok (write_json (approve_response id)),
    calm (record w { db = mark id (executed_row email w.clock) w.db }),
  )
  unfolding record_success pure
  recorded =
      or_else-ok (mark_action_executed id email) (λ e. pure (write_error 500 (error_text e)))
        (λ _. pure (write_json (approve_response id))) (calm w)
        (calm (record w { db = mark id (executed_row email w.clock) w.db })) tt executed

  recorded_failure :
      (e : Error)
      → record_failure id email e (calm w) ≡ (
        ok (write_error 500 (codes "action failed: " ++ error_text e)),
        calm (record w { db = mark id (failed_row email (error_text e) w.clock) w.db }),
      )
  unfolding record_failure pure
  recorded_failure e =
      let reply = pure (write_error 500 (codes "action failed: " ++ error_text e)) in
      or_else-ok (mark_action_failed id email (error_text e)) (λ _. reply) (λ _. reply) (calm w)
        (calm (record w { db = mark id (failed_row email (error_text e) w.clock) w.db })) tt
        (failed (error_text e))

-- The reply, and the tables with these rows in the queue.
abbrev settled : World → Response → List ActionRow → Result Response × World
settled w reply rows = (ok reply, calm (record w { db = with_actions rows w.db }))

module _ (ssh : Ssh) (registry : Registry) (id : ℕ) (req : ApproveRequest) (w : World)
    (auth : Authorised ssh id req w.db) (has_email : is_empty req.email ≡ false)
    (has_signature : is_empty req.signature ≡ false) where
  pub reaches_dispatch :
      approve_parsed ssh registry (some id) (some req) (calm w)
      ≡ carry_out registry id req.email (scan_action auth.row) (calm w)
  unfolding approve_parsed
  reaches_dispatch =
      bind-ok (decide ssh id req) (act registry id req.email) (calm w) (calm w) _
        (decide_authorised ssh id req w auth has_email has_signature)

  pub approved_lem :
      (w' : World)
      → dispatch registry auth.row.action (raw_or_empty auth.row.args) (calm w) ≡ (ok tt, calm w')
      → waits id w'.db ≡ true
      → approve_parsed ssh registry (some id) (some req) (calm w) ≡ (
        ok (write_json (approve_response id)),
        calm (record w' { db = mark id (executed_row req.email w'.clock) w'.db }),
      )
  approved_lem w' ran there = reaches_dispatch ∙ outcome
    where
      outcome : carry_out registry id req.email (scan_action auth.row) (calm w) ≡ (
        ok (write_json (approve_response id)),
        calm (record w' { db = mark id (executed_row req.email w'.clock) w'.db }),
      )
      outcome =
          unfold carry_out scan_action in
          or_else-ok (dispatch registry auth.row.action (raw_or_empty auth.row.args))
            (record_failure id req.email) (λ _. record_success id req.email) (calm w) (calm w') tt
            ran
          ∙ recorded id req.email w' there

  failed_lem :
      (e : Error) (w' : World)
      → dispatch registry auth.row.action (raw_or_empty auth.row.args) (calm w) ≡ (err e, calm w')
      → waits id w'.db ≡ true
      → approve_parsed ssh registry (some id) (some req) (calm w) ≡ (
        ok (write_error 500 (codes "action failed: " ++ error_text e)),
        calm (record w' { db = mark id (failed_row req.email (error_text e) w'.clock) w'.db }),
      )
  failed_lem e w' ran there = reaches_dispatch ∙ outcome
    where
      outcome : carry_out registry id req.email (scan_action auth.row) (calm w) ≡ (
        ok (write_error 500 (codes "action failed: " ++ error_text e)),
        calm (record w' { db = mark id (failed_row req.email (error_text e) w'.clock) w'.db }),
      )
      outcome =
          unfold carry_out scan_action in
          or_else-err (dispatch registry auth.row.action (raw_or_empty auth.row.args))
            (record_failure id req.email) (λ _. record_success id req.email) (calm w) (calm w') e
            ran
          ∙ recorded_failure id req.email w' there e

  -- An authorised request while the database answers, whose handler succeeds on the row's arguments and leaves
  -- the action pending in the queue: the reply is 200. Of what the handler left, the rows that are
  -- the pending action become executed, approved by the operator's address, approved and executed at the time of the
  -- clock, with no error; no other row, no other column and no other table changes.
  pub approved_is_executed :
      (w' : World)
      → dispatch registry auth.row.action (raw_or_empty auth.row.args) (calm w) ≡ (ok tt, calm w')
      → waits id w'.db ≡ true
      → approve_parsed ssh registry (some id) (some req) (calm w) ≡ (
        ok (write_json (approve_response id)),
        calm (record w' {
          db = with_actions (map (executed_by id req.email w'.clock) w'.db.actions) w'.db;
        }),
      )
  approved_is_executed w' ran there =
      approved_lem w' ran there
      ∙ ap (settled w' (write_json (approve_response id)))
          (update-executed id req.email w'.clock w'.db.actions)

  -- An authorised request while the database answers, whose handler fails on the row's arguments and leaves the
  -- action pending in the queue: the reply is 500 with the handler's error. Of what the handler
  -- left, the rows that are the pending action become failed, approved by the operator's address at the time of
  -- the clock, with the text of that error (NULL where it is empty); no other row, no other column,
  -- the time of execution included, and no other table changes.
  pub failure_is_recorded :
      (e : Error) (w' : World)
      → dispatch registry auth.row.action (raw_or_empty auth.row.args) (calm w) ≡ (err e, calm w')
      → waits id w'.db ≡ true
      → approve_parsed ssh registry (some id) (some req) (calm w) ≡ (
        ok (write_error 500 (codes "action failed: " ++ error_text e)),
        calm (record w' {
          db =
              with_actions
                (map (failed_by id req.email (error_text e) w'.clock) w'.db.actions)
                w'.db;
        }),
      )
  failure_is_recorded e w' ran there =
      failed_lem e w' ran there
      ∙ ap (settled w' (write_error 500 (codes "action failed: " ++ error_text e)))
          (update-failed id req.email w'.clock (error_text e) w'.db.actions)
