-- ===== src/McpServer/Approvals.antt =====
-- tools/api/internal/mcpserver/server.go: the tool that lists the queue, and the form of its answer.
use balvibot.Prelude.{
  ℕ, ◌||◌, Option, none, List, [], ◌∷◌, ◌++◌, Str, codes, eqs, is_empty, trim_space, itoa,
  if◌then◌else◌,
}
use balvibot.Errors.{Result, ok, err, message, wrap, quote}
use balvibot.Store.Exec.{Exec, fail, lift, ◌>>=◌}
use balvibot.Store.Approvals.{
  ApprovalAction, approval_pending, approval_executed, approval_failed, approval_rejected,
  list_actions,
}

-- type ApprovalView, over the values of map[string]any, where `none` is the nil map
pub record ApprovalView (Json : Type 0) : Type 0 where
  pub id : ℕ
  pub action : Str
  pub args : Option Json
  pub metadata : Option Json
  pub status : Str
  pub requested_by : Str
  pub approved_by : Str
  pub created_at : ℕ
  pub approved_at : Option ℕ
  pub executed_at : Option ℕ
  pub last_error : Str

-- json.Unmarshal into a map[string]any, where JSON's null leaves the nil map.
module _ {Json : Type 0} (unmarshal : Str → Result (Option Json)) where
  -- A JSON column, which may be empty; `what` is its name in the error.
  abbrev decoded : Str → ℕ → Str → Result (Option Json)
  decoded what id column = if is_empty column then ok none else (elim (unmarshal column) [
    | ok v ↦ ok v
    | err e ↦ err (
        wrap (codes "decode " ++ (what ++ (codes " for approval " ++ (itoa id ++ codes ": ")))) e
          [])
  ])

  abbrev view_of : ApprovalAction → Option Json → Option Json → ApprovalView Json
  view_of a args metadata = record {
    id = a.id;
    action = a.action;
    args = args;
    metadata = metadata;
    status = a.status;
    requested_by = a.requested_by;
    approved_by = a.approved_by;
    created_at = a.created_at;
    approved_at = a.approved_at;
    executed_at = a.executed_at;
    last_error = a.last_error;
  }

  -- toApprovalView
  unfoldable pub to_approval_view : ApprovalAction → Result (ApprovalView Json)
  unfolding itoa
  to_approval_view a = elim (decoded (codes "args") a.id a.args) [
    | err e ↦ err e
    | ok args ↦ elim (decoded (codes "metadata") a.id a.metadata) [
      | err e ↦ err e
      | ok metadata ↦ ok (view_of a args metadata)
    ]
  ]

  abbrev view_before :
      Result (ApprovalView Json)
      → Result (List (ApprovalView Json))
      → Result (List (ApprovalView Json))
  view_before (err e) vs = err e
  view_before (ok v) (err e) = err e
  view_before (ok v) (ok vs) = ok (v ∷ vs)

  -- The loop of listApprovals: the first view that fails ends it.
  unfoldable pub to_approval_views : List ApprovalAction → Result (List (ApprovalView Json))
  unfolding to_approval_view
  to_approval_views [] = ok []
  to_approval_views (a ∷ queued) = view_before (to_approval_view a) (to_approval_views queued)

  -- listApprovals
  unfoldable pub list_approvals : Str → Exec (List (ApprovalView Json))
  unfolding list_actions quote to_approval_views ◌>>=◌
  list_approvals status =
      let status = trim_space status in
      if is_empty status
        || eqs status approval_pending
        || eqs status approval_executed
        || eqs status approval_failed
        || eqs status approval_rejected
      then (do queued ← list_actions status; lift (to_approval_views queued))
      else fail (
          message (
            codes "invalid status "
            ++ (quote status ++ codes ": expected one of pending, executed, failed, rejected")))
