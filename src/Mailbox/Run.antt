-- ===== src/Mailbox/Run.antt =====
-- tools/api/internal/mailbox/indexer.go, Run and runOnce: the sessions with the IMAP server. What the
-- server and the context do is given for each session.
use balvibot.Prelude.{
  ℕ, ◌*◌, Option, none, some, List, [], ◌∷◌, Str, codes, ◌++◌, ltb, if◌then◌else◌,
}
use balvibot.Errors.{Error, Result, ok, err}
use balvibot.Store.Exec.{Exec, pure, fail, lift, attempt, context, ◌>>=◌, ◌>>◌}
use balvibot.Mailbox.{Parser, Reply, sync}

-- One pass of the loop of runOnce: the context is done (before or in IDLE), IDLE fails, IDLE is only
-- renewed, or the server has news, which the FETCH after it yields.
pub data Pass : Type 0 where
  context_done : Error → Pass
  idle_failed : Error → Pass
  renewed : Pass
  changed : (ℕ → Reply) → Pass

-- One connection: what dial, LOGIN and SELECT (the UIDVALIDITY) give, the first FETCH, and the passes of
-- the loop that are seen.
pub record Session : Type 0 where
  pub dial : Result (Unit {0})
  pub login : Result (Unit {0})
  pub select_folder : Result ℕ
  pub fetch : ℕ → Reply
  pub passes : List Pass

-- What runOnce does where it has no error: it returns, or it is still in its loop.
pub data Life : Type 0 where
  returned : Life
  idling : Life

-- One turn of the loop of Run: the session, and the context's error before it, after it and in the
-- pause.
pub record Turn : Type 0 where
  pub before : Option Error
  pub session : Session
  pub after : Option Error
  pub pausing : Option Error

-- The pauses that Run made, in nanoseconds, and what it returned, if it did.
pub record Log : Type 0 where
  pub pauses : List ℕ
  pub ended : Option Error

abbrev pub second : ℕ
second = 1000000000

abbrev with_pause : ℕ → Log → Log
with_pause n l = record { pauses = n ∷ l.pauses; ended = l.ended }

abbrev stopped : Option Error → Log
stopped e = record { pauses = []; ended = e }

-- `backoff *= 2`, with its limit
unfoldable pub doubled : ℕ → ℕ
doubled backoff = let b = backoff * 2 in if ltb (60 * second) b then 60 * second else b

-- `if ctx.Err() != nil { return ctx.Err() }`
abbrev pub unless_done : Option Error → Exec Log → Exec Log
unless_done (some e) m = pure (stopped (some e))
unless_done none m = m

module _ (parser : Parser) (folder : Str) where
  -- The loop of runOnce.
  unfoldable pub idle_loop : ℕ → List Pass → Exec Life
  unfolding ◌>>=◌ context sync
  idle_loop v [] = pure idling
  idle_loop v (context_done e ∷ passes) = fail e
  idle_loop v (idle_failed e ∷ passes) = fail e
  idle_loop v (renewed ∷ passes) = idle_loop v passes
  idle_loop v (changed fetch ∷ passes) =
      context (codes "incremental sync: ") (sync parser folder v fetch) >> idle_loop v passes

  -- runOnce
  unfoldable pub run_once : Session → Exec Life
  unfolding ◌>>=◌ context sync idle_loop
  run_once s = do
    context (codes "dial: ") (lift s.dial)
    context (codes "login: ") (lift s.login)
    v ← context (codes "select " ++ (folder ++ codes ": ")) (lift s.select_folder)
    context (codes "initial sync: ") (sync parser folder v s.fetch)
    idle_loop v s.passes

  -- The pause after an error, where `continue` is the loop from then on, and the turn after none.
  unfoldable pub after_session : ℕ → Option Error → Exec Log → Exec Log → Result Life → Exec Log
  unfolding ◌>>=◌
  after_session backoff (some e) later again (err e') = pure (with_pause backoff (stopped (some e)))
  after_session backoff none later again (err e') = do l ← later; pure (with_pause backoff l)
  after_session backoff pausing later again (ok returned) = again
  after_session backoff pausing later again (ok idling) = pure (stopped none)

  -- The loop of Run.
  unfoldable pub run_from : ℕ → List Turn → Exec Log
  unfolding ◌>>=◌ attempt run_once after_session doubled
  run_from backoff [] = pure (stopped none)
  run_from backoff (t ∷ ts) = unless_done t.before (do
    r ← attempt (run_once t.session)
    unless_done t.after
        (after_session backoff t.pausing (run_from (doubled backoff) ts) (run_from second ts) r))

  -- Run
  unfoldable pub run : List Turn → Exec Log
  unfolding run_from
  run turns = run_from second turns
