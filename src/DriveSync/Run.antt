-- ===== src/DriveSync/Run.antt =====
-- tools/api/internal/sync/sync.go, Run: one cycle of the sync.
use balvibot.Prelude.{ℕ, ◌+◌, List, [], ◌∷◌, codes}
use balvibot.Errors.{Error, wrap}
use balvibot.Store.Exec.{Exec, pure, or_else, now, context, ◌>>=◌}
use balvibot.Store.Grantees.{Grantee, list_active_grantees}
use balvibot.Store.Docs.{next_cycle_id, mark_unseen_stale, set_last_successful_sync}
use balvibot.DriveSync.{Stats, Drive}
use balvibot.DriveSync.Walk.{Walked, done, broken, out_of_fuel, go_on, ctx_err, sync_grantee}

-- What Run returns where it has a cycle: its id, its counters, and its error if it has one.
pub data Report : Type 0 where
  finished : ℕ → Stats → Report
  cut_short : ℕ → Stats → Error → Report
  unfinished : Report

abbrev pub no_stats : Stats
no_stats = record {
  docs_synced = 0;
  docs_unchanged = 0;
  docs_skipped = 0;
  docs_failed = 0;
  docs_marked_stale = 0;
}

module _ (drive : Drive) (fuel : ℕ) where
  -- The loop over the grantees.
  unfoldable pub sync_grantees : ℕ → List Grantee → Stats → Exec Walked
  unfolding ◌>>=◌ or_else sync_grantee
  sync_grantees cycle [] s = pure (done s)
  sync_grantees cycle (g ∷ gs) s =
      or_else ctx_err (λ e. pure (broken s e))
        λ _. sync_grantee drive g.grantee_id cycle fuel s >>= go_on (sync_grantees cycle gs)

  -- What comes after the grantees.
  unfoldable pub close_cycle : ℕ → Walked → Exec Report
  unfolding ◌>>=◌ or_else now mark_unseen_stale set_last_successful_sync
  close_cycle cycle (broken s e) = pure (cut_short cycle s e)
  close_cycle cycle out_of_fuel = pure unfinished
  close_cycle cycle (done s) =
      or_else (mark_unseen_stale cycle)
        (λ e. pure (cut_short cycle s (wrap (codes "mark unseen stale: ") e [])))
        λ marked.
          let s' = record s { docs_marked_stale = s.docs_marked_stale + marked } in
          or_else (now >>= set_last_successful_sync)
            (λ e. pure (cut_short cycle s' (wrap (codes "record last_successful_sync: ") e [])))
            (λ _. pure (finished cycle s'))

  -- Run from the list of the grantees on.
  unfoldable pub run_cycle : ℕ → Exec Report
  unfolding ◌>>=◌ or_else list_active_grantees sync_grantees close_cycle
  run_cycle cycle =
      or_else list_active_grantees
        (λ e. pure (cut_short cycle no_stats (wrap (codes "list grantees: ") e [])))
        λ gs. sync_grantees cycle gs no_stats >>= close_cycle cycle

  -- Run
  unfoldable pub run : Exec Report
  unfolding ◌>>=◌ context next_cycle_id run_cycle
  run = context (codes "bump cycle id: ") next_cycle_id >>= run_cycle
