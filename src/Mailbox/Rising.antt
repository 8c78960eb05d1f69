-- ===== src/Mailbox/Rising.antt =====
-- The UID that Run keeps for a folder never falls while the UIDVALIDITY stays.
use mathlib.Core.Path.{subst}
use balvibot.Prelude.{
  ℕ, ◌+◌, ◌%◌, ◌^◌, ◌≤◌, ◌≡◌, refl, sym, ◌∙◌, inl, inr, Bool, true, Option, none, some, List, [],
  ◌∷◌, ◌++◌, Str, codes, eqs, eqs_refl, All, find_row, any_row, update_rows, find-append, none-find,
  Bool-cases, ◌==◌, arith, if◌then◌else◌,
}
use balvibot.Errors.{Error, Result, ok, err}
use balvibot.Store.Schema.{Db, MailboxRow}
use balvibot.Store.Exec.{World, Exec, lift, attempt, now, context, ◌>>◌}
use balvibot.Store.Keeps.{
  Keeps, Leaves, Keeps-pure, Keeps-fail, Keeps-lift, Keeps-attempt, Keeps-if, Keeps-bind, Keeps-now,
  Keeps-select, Keeps-context, Keeps-statement,
}
use balvibot.Store.Gives.{Fits, Gives, Gives-select, Gives-context, Keeps-given}
use balvibot.Store.Threads.{
  MailboxState, mailbox_of, scan_mailbox, get_mailbox_state, put_mailbox, save_mailbox_state,
}
use balvibot.Mailbox.{
  Parser, Fetched, Reply, Ending, closed, cancelled, collect_failed, close_failed, ended_well,
  handle_message, higher, index_all, start_uid, must_save, save_highest, sync,
}
use balvibot.Mailbox.Watermark.{watermark_reached}
use balvibot.Mailbox.Untouched.{Keeps-handle}
use balvibot.Mailbox.Run.{
  Pass, context_done, idle_failed, renewed, changed, Session, Life, returned, idling, Turn, Log,
  second, doubled, idle_loop, run_once, unless_done, after_session, run_from, run,
}

-- The state is there, for this UIDVALIDITY and with at least this UID.
abbrev pub IsAtLeast : ℕ → ℕ → Option MailboxState → Type 0
IsAtLeast v n none = ⊥
IsAtLeast v n (some st) = (st.uid_validity ≡ v) × (n ≤ st.last_uid)

abbrev scanned : Option MailboxRow → Option MailboxState
scanned none = none
scanned (some r) = some (scan_mailbox r)

module _ {A : Type 0} (key : A → Bool) (row : A) (is_key : key row ≡ true) where
  find-replaced :
      (xs : List A)
      → any_row key xs ≡ true
      → find_row key (update_rows key (λ r. row) xs) ≡ some row
  unfolding find_row any_row update_rows
  find-replaced [] h = absurd (false_true h)
    where
      false_true : Bool.false ≡ true → ⊥
      false_true h = cc
  find-replaced (x ∷ xs) h = elim (Bool-cases (key x)) [
    | inl e ↦ rw (e, is_key) refl
    | inr e ↦ rw (e, e) (find-replaced xs (rw e at h))
  ]

  find-put :
      (xs : List A)
      → find_row key (if any_row key xs then update_rows key (λ r. row) xs else xs ++ row ∷ [])
        ≡ some row
  unfolding find_row
  find-put xs = elim (Bool-cases (any_row key xs)) [
    | inl e ↦ rw e (find-replaced xs e)
    | inr e ↦ rw e (find-append key xs (row ∷ []) (none-find key xs e) ∙ rw is_key refl)
  ]

module _ (parser : Parser) (folder : Str) (v n : ℕ) where
  abbrev Reached : Db → Type 0
  Reached db = IsAtLeast v n (mailbox_of folder db)

  -- What the saved states are about.
  abbrev OfRows : List MailboxRow → Type 0
  OfRows rows = IsAtLeast v n (scanned (find_row (λ r. eqs r.folder folder) rows))

  Keeps-message : (f : Fetched) → Keeps Reached (handle_message parser folder v f)
  unfolding mailbox_of
  Keeps-message f = Keeps-handle OfRows parser folder v f

  Keeps-index_all : (h : ℕ) (fs : List Fetched) → Keeps Reached (index_all parser folder v h fs)
  unfolding index_all
  Keeps-index_all h [] = Keeps-pure h
  Keeps-index_all h (f ∷ fs) =
      Keeps-if (f.uid == 0) _ _ (λ _. Keeps-index_all h fs)
        λ _.
          Keeps-bind (attempt (handle_message parser folder v f)) _
            (Keeps-attempt _ (Keeps-message f))
            λ r. Keeps-index_all (higher parser folder v f.uid h r) fs

  Gives-index_all :
      (h : ℕ) (fs : List Fetched)
      → n ≤ h
      → Gives Reached (λ m db. n ≤ m) (index_all parser folder v h fs)
  Gives-index_all h fs le = record {
    at = λ w p.
        let (m, w', q, above, r) = watermark_reached parser folder v h fs w in
        subst (Fits (λ (k : ℕ) (db : Db). n ≤ k)) (sym q) (omega (arith, le, above));
  }

  Gives-state : Gives Reached (λ st db. IsAtLeast v n st) (get_mailbox_state folder)
  unfolding get_mailbox_state
  Gives-state =
      Gives-select (λ st db. IsAtLeast v n st) (λ db. ok (mailbox_of folder db))
        λ db p a e. subst (IsAtLeast v n) (same (mailbox_of folder db) a e) p
    where
      same :
          (a b : Option MailboxState) → ◌≡◌ {A = Result (Option MailboxState)} (ok a) (ok b) → a ≡ b
      same a b e = cc

  Keeps-state : Keeps Reached (get_mailbox_state folder)
  unfolding get_mailbox_state
  Keeps-state = Keeps-select _

  Keeps-ended_well : (e : Ending) → Keeps Reached (ended_well e)
  unfolding ended_well
  Keeps-ended_well closed = Keeps-pure tt
  Keeps-ended_well cancelled = Keeps-pure tt
  Keeps-ended_well (collect_failed e) = Keeps-fail _
  Keeps-ended_well (close_failed e) = Keeps-fail _

  Leaves-put :
      (highest t : ℕ) (db : Db)
      → n ≤ highest
      → Leaves Reached
          (put_mailbox (record { folder = folder; uid_validity = v; last_uid = highest }) t db)
  unfolding put_mailbox mailbox_of scan_mailbox
  Leaves-put highest t db le =
      subst (λ (o : Option MailboxRow). IsAtLeast v n (scanned o))
        (sym (
          find-put (λ r. eqs r.folder folder)
            (record { folder = folder; uid_validity = v; last_uid = highest; updated_at = t })
            (eqs_refl folder) db.mailboxes))
        (refl, le)

  Keeps-save :
      (highest last : ℕ) (state : Option MailboxState)
      → n ≤ highest
      → Keeps Reached (save_highest folder v highest last state)
  unfolding save_highest save_mailbox_state
  Keeps-save highest last state le =
      Keeps-if (must_save v highest last state) _ _
        (λ _. Keeps-context _ _ (
          Keeps-bind now _ Keeps-now
            λ t. Keeps-statement (put_mailbox _ t) λ db p. Leaves-put highest t db le))
        (λ _. Keeps-pure tt)

  start_above : (state : Option MailboxState) → IsAtLeast v n state → n ≤ start_uid v state
  start_above none h = absurd h
  start_above (some st) (e, le) = rw e (ground arith)

  Keeps-sync : (fetch : ℕ → Reply) → Keeps Reached (sync parser folder v fetch)
  unfolding sync
  Keeps-sync fetch =
      Keeps-given (IsAtLeast v n) (get_mailbox_state folder) _ Keeps-state Gives-state λ state r.
        let last = start_uid v state in
        let reply = fetch ((last + 1) % 2 ^ 32) in
        Keeps-given (λ m. n ≤ m) (index_all parser folder v last reply.messages) _
          (Keeps-index_all last reply.messages)
          (Gives-index_all last reply.messages (start_above state r))
          λ highest le.
            Keeps-bind (ended_well reply.ending) _ (Keeps-ended_well reply.ending)
              λ _. Keeps-save highest last state le

  Keeps-loop : (passes : List Pass) → Keeps Reached (idle_loop parser folder v passes)
  unfolding idle_loop
  Keeps-loop [] = Keeps-pure idling
  Keeps-loop (context_done e ∷ passes) = Keeps-fail e
  Keeps-loop (idle_failed e ∷ passes) = Keeps-fail e
  Keeps-loop (renewed ∷ passes) = Keeps-loop passes
  Keeps-loop (changed fetch ∷ passes) =
      Keeps-bind (context (codes "incremental sync: ") (sync parser folder v fetch)) _
        (Keeps-context _ _ (Keeps-sync fetch)) (λ _. Keeps-loop passes)

  -- SELECT gives this UIDVALIDITY where it gives one.
  abbrev pub HasValidity : Turn → Type 0
  HasValidity t = (u : ℕ) → t.session.select_folder ≡ ok u → u ≡ v

  Keeps-selected :
      (s : Session)
      → ((u : ℕ) → s.select_folder ≡ ok u → u ≡ v)
      → Keeps Reached (context (codes "select " ++ (folder ++ codes ": ")) (lift s.select_folder))
  Keeps-selected s h = Keeps-context _ _ (Keeps-lift _)

  Gives-selected :
      (s : Session)
      → ((u : ℕ) → s.select_folder ≡ ok u → u ≡ v)
      → Gives Reached
          (λ u db. u ≡ v)
          (context (codes "select " ++ (folder ++ codes ": ")) (lift s.select_folder))
  unfolding lift
  Gives-selected s h = Gives-context _ _ _ (record { at = λ w p. fits w s.select_folder refl })
    where
      fits : (w : World) (r : Result ℕ) → s.select_folder ≡ r → Fits (λ u db. u ≡ v) (r, w)
      fits w (ok u) e = h u e
      fits w (err e) q = tt

  Keeps-session : (t : Turn) → HasValidity t → Keeps Reached (run_once parser folder t.session)
  unfolding run_once
  Keeps-session t h =
      Keeps-bind (context (codes "dial: ") (lift t.session.dial)) _
        (Keeps-context _ _ (Keeps-lift _))
        λ _.
          Keeps-bind (context (codes "login: ") (lift t.session.login)) _
            (Keeps-context _ _ (Keeps-lift _))
            λ _.
              Keeps-given (λ u. u ≡ v)
                (context (codes "select " ++ (folder ++ codes ": ")) (lift t.session.select_folder))
                _ (Keeps-selected t.session h) (Gives-selected t.session h)
                λ u e.
                  subst (λ (x : ℕ). Keeps Reached (synced x)) (sym e)
                    (Keeps-bind
                      (context (codes "initial sync: ") (sync parser folder v t.session.fetch)) _
                      (Keeps-context _ _ (Keeps-sync t.session.fetch))
                      (λ _. Keeps-loop t.session.passes))
    where
      synced : ℕ → Exec Life
      synced u =
          context (codes "initial sync: ") (sync parser folder u t.session.fetch)
          >> idle_loop parser folder u t.session.passes

  Keeps-unless_done :
      (o : Option Error) (m : Exec Log) → Keeps Reached m → Keeps Reached (unless_done o m)
  Keeps-unless_done none m k = k
  Keeps-unless_done (some e) m k = Keeps-pure _

  Keeps-after :
      (backoff : ℕ) (pausing : Option Error) (later again : Exec Log) (r : Result Life)
      → Keeps Reached later
      → Keeps Reached again
      → Keeps Reached (after_session parser folder backoff pausing later again r)
  unfolding after_session
  Keeps-after backoff (some e) later again (err e') k l = Keeps-pure _
  Keeps-after backoff none later again (err e') k l = Keeps-bind later _ k λ log. Keeps-pure _
  Keeps-after backoff none later again (ok returned) k l = l
  Keeps-after backoff (some e) later again (ok returned) k l = l
  Keeps-after backoff none later again (ok idling) k l = Keeps-pure _
  Keeps-after backoff (some e) later again (ok idling) k l = Keeps-pure _

  Keeps-run_from :
      (backoff : ℕ) (ts : List Turn)
      → All HasValidity ts
      → Keeps Reached (run_from parser folder backoff ts)
  unfolding run_from
  Keeps-run_from backoff [] h = Keeps-pure _
  Keeps-run_from backoff (t ∷ ts) (h, hs) = Keeps-unless_done t.before _ (
      Keeps-bind (attempt (run_once parser folder t.session)) _
        (Keeps-attempt _ (Keeps-session t h))
        λ r. Keeps-unless_done t.after _ (
          Keeps-after backoff t.pausing _ _ r (Keeps-run_from (doubled backoff) ts hs)
            (Keeps-run_from second ts hs)))

  -- Where the saved state of the folder has this UIDVALIDITY and at least the UID n, and the server
  -- gives no other UIDVALIDITY for it, the state has this UIDVALIDITY and at least the UID n after Run, whatever
  -- the sessions yield, however they end, and whichever statements fail.
  pub uid_never_falls :
      (ts : List Turn) (w : World)
      → All HasValidity ts
      → IsAtLeast v n (mailbox_of folder w.db)
      → IsAtLeast v n (mailbox_of folder (run parser folder ts w).1.db)
  unfolding run
  uid_never_falls ts w h p = (Keeps-run_from second ts h).at w p
