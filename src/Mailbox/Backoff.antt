-- ===== src/Mailbox/Backoff.antt =====
-- The pauses that Run makes between its sessions.
use balvibot.Prelude.{
  ℕ, zero, suc, ◌*◌, ◌^◌, ◌≡◌, refl, ap, ◌∙◌, Option, none, some, List, [], ◌∷◌, Str, codes, ◌++◌,
  ltb, arith, if◌then◌else◌,
}
use balvibot.Errors.{Error, Result, ok, err}
use balvibot.Store.Schema.{Db}
use balvibot.Store.Exec.{World, Exec, pure, lift, attempt, context, ◌>>=◌}
use balvibot.Store.Returns.{IsOk, Returns, Returns-pure, Returns-bind}
use balvibot.Store.Gives.{Fits, Gives, Gives-pure, Gives-fail, Gives-bind, Gives-Keeps}
use balvibot.Mailbox.{Parser, sync}
use balvibot.Mailbox.Run.{
  Pass, context_done, idle_failed, renewed, changed, Session, Life, returned, idling, Turn, Log,
  second, doubled, idle_loop, run_once, unless_done, after_session, run_from, run,
}

-- The pause after i sessions before it: 2 ^ i seconds, and at most a minute.
abbrev pub pause : ℕ → ℕ
pause i = if ltb (60 * second) (2 ^ i * second) then 60 * second else 2 ^ i * second

-- The n pauses from the i-th on.
abbrev pub pauses_from : ℕ → ℕ → List ℕ
pauses_from i zero = []
pauses_from i (suc n) = pause i ∷ pauses_from (suc i) n

doubled-pause : (i : ℕ) → doubled (pause i) ≡ pause (suc i)
unfolding doubled
doubled-pause i = ground arith

abbrev Anything : {A : Type 0} → A → Db → Type 0
Anything a db = Unit

abbrev IsIdling : Life → Db → Type 0
IsIdling returned db = ⊥
IsIdling idling db = Unit

whatever : {A : Type 0} (m : Exec A) → Gives (λ _. Unit) Anything m
whatever m = Gives-Keeps m (record { at = λ w p. tt })

module _ (parser : Parser) (folder : Str) where
  loop_idles :
      (v : ℕ) (passes : List Pass) → Gives (λ _. Unit) IsIdling (idle_loop parser folder v passes)
  unfolding idle_loop
  loop_idles v [] = Gives-pure IsIdling idling (λ db p. tt)
  loop_idles v (context_done e ∷ passes) = Gives-fail IsIdling e
  loop_idles v (idle_failed e ∷ passes) = Gives-fail IsIdling e
  loop_idles v (renewed ∷ passes) = loop_idles v passes
  loop_idles v (changed fetch ∷ passes) =
      Gives-bind Anything IsIdling
        (context (codes "incremental sync: ") (sync parser folder v fetch)) _ (whatever _)
        (λ _. loop_idles v passes)

  -- runOnce never returns without an error.
  once_idles : (s : Session) → Gives (λ _. Unit) IsIdling (run_once parser folder s)
  unfolding run_once
  once_idles s =
      Gives-bind Anything IsIdling (context (codes "dial: ") (lift s.dial)) _ (whatever _) λ _.
        Gives-bind Anything IsIdling (context (codes "login: ") (lift s.login)) _ (whatever _) λ _.
          Gives-bind Anything IsIdling
            (context (codes "select " ++ (folder ++ codes ": ")) (lift s.select_folder)) _
            (whatever _)
            λ v.
              Gives-bind Anything IsIdling
                (context (codes "initial sync: ") (sync parser folder v s.fetch)) _ (whatever _)
                λ _. loop_idles v s.passes

  abbrev StillIdles : Result Life → Type 0
  StillIdles (ok returned) = ⊥
  StillIdles _ = Unit

  fits-StillIdles : (r : Result Life × World) → Fits IsIdling r → StillIdles r.0
  fits-StillIdles (ok returned, w) p = p
  fits-StillIdles (ok idling, w) p = tt
  fits-StillIdles (err e, w) p = tt

  attempt_idles : (s : Session) → Returns StillIdles (attempt (run_once parser folder s))
  unfolding attempt
  attempt_idles s = record {
    at = λ w. fits-StillIdles (run_once parser folder s w) ((once_idles s).at w tt);
  }

  -- The pauses are those of the schedule from the i-th on.
  abbrev IsScheduled : ℕ → Log → Type 0
  IsScheduled i l = (n : ℕ) × (l.pauses ≡ pauses_from i n)

  none_made :
      (i : ℕ) (e : Option Error)
      → Returns (IsScheduled i) (pure (record { pauses = []; ended = e }))
  none_made i e = Returns-pure _ (0, refl)

  next_pause :
      (i n backoff : ℕ) (l : List ℕ)
      → backoff ≡ pause i
      → l ≡ pauses_from (suc i) n
      → backoff ∷ l ≡ pauses_from i (suc n)
  next_pause i n backoff l e h = cc

  after-IsScheduled :
      (i backoff : ℕ) (pausing : Option Error) (later again : Exec Log) (r : Result Life)
      → backoff ≡ pause i
      → StillIdles r
      → Returns (IsScheduled (suc i)) later
      → Returns (IsScheduled i) (after_session parser folder backoff pausing later again r)
  unfolding after_session
  after-IsScheduled i backoff (some e) later again (err e') q s rest =
      Returns-pure _ (1, next_pause i 0 backoff [] q refl)
  after-IsScheduled i backoff none later again (err e') q s rest =
      Returns-bind (IsScheduled (suc i)) later _ rest
        λ l (n, h). Returns-pure _ (suc n, next_pause i n backoff l.pauses q h)
  after-IsScheduled i backoff none later again (ok idling) q s rest = none_made i none
  after-IsScheduled i backoff (some e) later again (ok idling) q s rest = none_made i none
  after-IsScheduled i backoff pausing later again (ok returned) q s rest = absurd s

  scheduled :
      (i backoff : ℕ) (ts : List Turn)
      → backoff ≡ pause i
      → Returns (IsScheduled i) (run_from parser folder backoff ts)
  unfolding run_from
  scheduled i backoff [] e = none_made i none
  scheduled i backoff (t ∷ ts) e =
      before t.before (scheduled (suc i) (doubled backoff) ts (ap doubled e ∙ doubled-pause i))
    where
      after :
          (o : Option Error) (r : Result Life)
          → StillIdles r
          → Returns (IsScheduled (suc i)) (run_from parser folder (doubled backoff) ts)
          → Returns (IsScheduled i) (
              unless_done o (
                after_session parser folder backoff t.pausing
                  (run_from parser folder (doubled backoff) ts)
                  (run_from parser folder second ts)
                  r))
      after (some x) r s rest = none_made i (some x)
      after none r s rest = after-IsScheduled i backoff t.pausing _ _ r e s rest

      before :
          (o : Option Error)
          → Returns (IsScheduled (suc i)) (run_from parser folder (doubled backoff) ts)
          → Returns (IsScheduled i) (
              unless_done o (
                attempt (run_once parser folder t.session) >>= λ r. unless_done t.after (
                  after_session parser folder backoff t.pausing
                    (run_from parser folder (doubled backoff) ts)
                    (run_from parser folder second ts)
                    r)))
      before (some x) rest = none_made i (some x)
      before none rest =
          Returns-bind StillIdles (attempt (run_once parser folder t.session)) _
            (attempt_idles t.session) λ r s. after t.after r s rest

  ok_log :
      (i : ℕ) (r : Result Log)
      → IsOk (IsScheduled i) r
      → (l : Log) × (n : ℕ) × (r ≡ ok l) × (l.pauses ≡ pauses_from i n)
  ok_log i (ok l) (n, h) = (l, n, refl, h)
  ok_log i (err e) h = absurd h

  -- Whatever the server, the database and the context do, and however many messages a session
  -- indexed, the pauses that Run makes are, in their order, the first of 1, 2, 4, 8, 16 and 32 seconds
  -- and then a minute each.
  pub pauses_double :
      (ts : List Turn) (w : World)
      → (l : Log) × (n : ℕ) × ((run parser folder ts w).0 ≡ ok l) × (l.pauses ≡ pauses_from 0 n)
  unfolding run
  pauses_double ts w = ok_log 0 _ ((scheduled 0 second ts refl).at w)
