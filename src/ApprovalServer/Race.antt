-- ===== src/ApprovalServer/Race.antt =====
-- Two requests that approve the same action at the same time.
use balvibot.Prelude.{ℕ, ◌≡◌, refl, ◌∙◌, false, is_empty}
use balvibot.Store.Exec.{World, Exec, pure, or_else, ◌>>=◌}
use balvibot.Store.Reads.{calm, bind-ok}
use balvibot.Store.Approvals.{scan_action, raw_or_empty}
use balvibot.Approval.Keys.{Ssh}
use balvibot.Approval.Registry.{Registry, dispatch}
use balvibot.ApprovalServer.{
  Response, ApproveRequest, proceed, decide, act, carry_out, record_success, record_failure,
}
use balvibot.ApprovalServer.Gate.{Authorised}
use balvibot.ApprovalServer.Outcome.{decide_authorised}

module _ (ssh : Ssh) (registry : Registry) where
  -- The handlers of two requests for one action, when both have checked their request before either
  -- acts.
  race : ℕ → ApproveRequest → ApproveRequest → Exec (Response × Response)
  unfolding ◌>>=◌ decide
  race id req other = do
    v ← decide ssh id req
    v' ← decide ssh id other
    r ← act registry id req.email v
    r' ← act registry id other.email v'
    pure (r, r')

module _ (ssh : Ssh) (registry : Registry) (id : ℕ) (req other : ApproveRequest) (w : World)
    (auth : Authorised ssh id req w.db) (auth' : Authorised ssh id other w.db)
    (has_email : is_empty req.email ≡ false) (has_signature : is_empty req.signature ≡ false)
    (other_email : is_empty other.email ≡ false)
    (other_signature : is_empty other.signature ≡ false) where
  -- Two authorised requests for one action that are both checked before either acts, while the
  -- database answers those checks: together they do the same as a dispatch of the action for the
  -- first, the record of its outcome, a dispatch for the second and the record of that one's.
  race_dispatches_twice :
      race ssh registry id req other (calm w)
      ≡ (or_else
              (dispatch registry auth.row.action (raw_or_empty auth.row.args))
              (record_failure id req.email)
              (λ _. record_success id req.email)
            >>= λ r.
                or_else
                  (dispatch registry auth'.row.action (raw_or_empty auth'.row.args))
                  (record_failure id other.email)
                  (λ _. record_success id other.email)
                >>= λ r'. pure (r, r'))
          (calm w)
  unfolding race
  race_dispatches_twice =
      bind-ok (decide ssh id req) _ (calm w) (calm w) (proceed (scan_action auth.row))
        (decide_authorised ssh id req w auth has_email has_signature)
      ∙ bind-ok (decide ssh id other) _ (calm w) (calm w) (proceed (scan_action auth'.row))
          (decide_authorised ssh id other w auth' other_email other_signature)
      ∙ unfold carry_out scan_action in refl
