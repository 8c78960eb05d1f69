-- ===== src/DriveSync/Whitelist.antt =====
-- What a finished cycle leaves active under a source that is there: documents that the sources list.
use mathlib.Core.Path.{subst}
use balvibot.Prelude.{
  ℕ, ◌+◌, ◌<◌, ◌≤◌, ◌≡◌, refl, sym, ap, ◌∙◌, inl, inr, Bool, true, false, ◌&&◌, Option, none, some,
  List, [], ◌∷◌, All, All-from_IsIn, All-update, IsIn, IsIn-All, Str, eqs, any_row, ltb, arith,
}
use balvibot.Errors.{ok}
use balvibot.Store.Schema.{Db, DocRow}
use balvibot.Store.Exec.{World, select, statement, now, ◌>>=◌}
use balvibot.Store.Keeps.{Keeps, Keeps-bind, Keeps-now, Keeps-statement}
use balvibot.Store.Gives.{
  Gives, Fits, Gives-pure, Gives-Keeps, Gives-statement, Gives-select, Gives-bind, Gives-or_else,
  Gives-context, Gives-transaction, ok_pair,
}
use balvibot.Store.Grantees.{list_active_grantees, status_active}
use balvibot.Store.Docs.{
  cycles, with_cycles, next_cycle_id, advance_cycle, mark_unseen_stale, is_unseen, stale_row,
  seen_before, update_docs, set_last_successful_sync,
}
use balvibot.DriveSync.{Stats, Drive}
use balvibot.DriveSync.Walk.{Walked, done, broken, out_of_fuel}
use balvibot.DriveSync.Run.{
  Report, finished, cut_short, unfinished, no_stats, sync_grantees, close_cycle, run_cycle, run,
}
use balvibot.DriveSync.Listed.{IsListedId}
use balvibot.DriveSync.Cycle.{IsMarked, IsSeenWell, InCycle, InCycle-kept}
use balvibot.DriveSync.Visits.{IsActive, Keeps-grantees, scanned, row-IsActive, ok_value}

-- The mark of a cycle up to `n`, if any.
abbrev pub IsPast : ℕ → Option ℕ → Type 0
IsPast n none = Unit
IsPast n (some k) = k ≤ n

module _ (drive : Drive) (old : Db) where
  -- The document was seen in the cycle, and is listed.
  abbrev IsAccounted : ℕ → Db → DocRow → Type 0
  IsAccounted cycle db d =
      eqs d.status status_active ≡ true
      → any_row (λ g. eqs g.grantee_id d.grantee_id && eqs g.status status_active) db.grantees
        ≡ true
      → any_row (λ s. eqs s.drive_id d.source_drive_id) db.sources ≡ true
      → (d.last_seen_cycle ≡ some cycle) × IsListedId drive old d.doc_id

  abbrev Accounted : ℕ → Db → Type 0
  Accounted cycle db = All (IsAccounted cycle db) db.docs

  abbrev ReportFits : Report → Db → Type 0
  ReportFits (finished cycle s) db = Accounted cycle db
  ReportFits (cut_short cycle s e) db = Unit
  ReportFits unfinished db = Unit

  marked_now :
      (cycle : ℕ) (id : Str) (seen : Option ℕ)
      → IsMarked drive old cycle id seen
      → seen_before cycle seen ≡ false
      → (seen ≡ some cycle) × IsListedId drive old id
  marked_now cycle id none m b = absurd (not_true b)
    where
      not_true : true ≡ false → ⊥
      not_true h = cc
  marked_now cycle id (some k) (inl lt) b = absurd (late lt b)
    where
      late : k < cycle → ltb k cycle ≡ false → ⊥
      late lt b = ground arith
  marked_now cycle id (some k) (inr (e, listed)) b = (ap some e, listed)

  stale-IsAccounted : (cycle : ℕ) (db : Db) (d : DocRow) → IsAccounted cycle db (stale_row d)
  unfolding stale_row eqs
  stale-IsAccounted cycle db d active g s = absurd (not_active active)
    where
      not_active : false ≡ true → ⊥
      not_active h = cc

  seen-IsAccounted :
      (cycle : ℕ) (db : Db) (d : DocRow)
      → IsSeenWell drive old cycle d
      → is_unseen cycle db d ≡ false
      → IsAccounted cycle db d
  unfolding is_unseen
  seen-IsAccounted cycle db d seen e active g s =
      marked_now cycle d.doc_id d.last_seen_cycle seen
        (last (seen_before cycle d.last_seen_cycle) (rw (active, g, s) at e))
    where
      last : (b : Bool) → (true && b && true && true) ≡ false → b ≡ false
      last true h = h
      last false h = refl

  Gives-mark :
      (cycle : ℕ) → Gives (InCycle drive old cycle) (λ n. Accounted cycle) (mark_unseen_stale cycle)
  unfolding mark_unseen_stale update_docs
  Gives-mark cycle = Gives-statement _ _ λ db k n db' e.
      let (en, ed) = ok_pair _ n _ db' e in
      subst (Accounted cycle) ed (
        All-update (IsSeenWell drive old cycle) (IsAccounted cycle db) (is_unseen cycle db)
          stale_row db.docs (λ d s h. stale-IsAccounted cycle db d) (seen-IsAccounted cycle db)
          k.docs)

  Keeps-success : (cycle : ℕ) → Keeps (Accounted cycle) (now >>= set_last_successful_sync)
  unfolding set_last_successful_sync
  Keeps-success cycle = Keeps-bind now _ Keeps-now (λ t. Keeps-statement _ (λ db h. h))

  Gives-close :
      (fuel cycle : ℕ) (r : Walked)
      → Gives (InCycle drive old cycle) ReportFits (close_cycle drive fuel cycle r)
  unfolding close_cycle
  Gives-close fuel cycle (broken s e) = Gives-pure ReportFits (cut_short cycle s e) (λ db p. tt)
  Gives-close fuel cycle out_of_fuel = Gives-pure ReportFits unfinished (λ db p. tt)
  Gives-close fuel cycle (done s) =
      Gives-or_else (λ n. Accounted cycle) ReportFits (mark_unseen_stale cycle) _ _
        (Gives-mark cycle) (λ e. Gives-pure ReportFits (cut_short cycle s _) (λ db p. tt))
        λ marked.
          Gives-or_else (λ _. Accounted cycle) ReportFits (now >>= set_last_successful_sync) _ _
            (Gives-Keeps _ (Keeps-success cycle))
            (λ e. Gives-pure ReportFits (cut_short cycle _ _) (λ db p. tt))
            (λ _. Gives-pure ReportFits (finished cycle _) (λ db p. p))

  Gives-IsActive :
      (cycle : ℕ)
      → Gives
          (InCycle drive old cycle)
          (λ gs db. All (λ g. IsActive drive old g.grantee_id) gs × InCycle drive old cycle db)
          list_active_grantees
  unfolding list_active_grantees
  Gives-IsActive cycle = Gives-select _ _ λ db k gs q. (
    subst (All (λ g. IsActive drive old g.grantee_id)) (ok_value _ gs q) (
        scanned drive old _
          (All-from_IsIn _ _ (λ r m. row-IsActive drive old db _ r k.grantees m))),
    k,
  )

  Gives-cycle :
      (fuel cycle : ℕ) → Gives (InCycle drive old cycle) ReportFits (run_cycle drive fuel cycle)
  unfolding run_cycle
  Gives-cycle fuel cycle =
      Gives-or_else
        (λ gs db. All (λ g. IsActive drive old g.grantee_id) gs × InCycle drive old cycle db)
        ReportFits list_active_grantees _ _ (Gives-IsActive cycle)
        (λ e. Gives-pure ReportFits (cut_short cycle no_stats _) (λ db p. tt))
        λ gs. record {
          at = λ w p.
              (Gives-bind (λ _. InCycle drive old cycle) ReportFits
                  (sync_grantees drive fuel cycle gs no_stats) (close_cycle drive fuel cycle)
                  (Gives-Keeps _ (
                    Keeps-grantees drive old fuel cycle (InCycle-kept drive old cycle) gs no_stats
                      p.0))
                  (Gives-close fuel cycle)).at
                w p.1;
        }

  module _ (past : All (λ (d : DocRow). IsPast (cycles old) d.last_seen_cycle) old.docs) where
    abbrev Started : ℕ → Db → Type 0
    Started cycle db = InCycle drive old cycle db

    IsMarked-before :
        (id : Str) (seen : Option ℕ)
        → IsPast (cycles old) seen
        → IsMarked drive old (cycles old + 1) id seen
    IsMarked-before id none p = tt
    IsMarked-before id (some k) p = inl (omega (arith, p))

    All-before :
        (docs : List DocRow)
        → All (λ (d : DocRow). IsPast (cycles old) d.last_seen_cycle) docs
        → All (IsSeenWell drive old (cycles old + 1)) docs
    All-before [] h = tt
    All-before (d ∷ docs) (p, h) = (IsMarked-before d.doc_id d.last_seen_cycle p, All-before docs h)

    Gives-next : Gives (λ db. db ≡ old) Started next_cycle_id
    unfolding next_cycle_id advance_cycle
    Gives-next = Gives-transaction Started advance_cycle (
        Gives-bind (λ n db. (n ≡ cycles old) × (db ≡ old)) Started (select λ db. ok (cycles db)) _
          (Gives-select _ (λ db. ok (cycles db))
            λ db e n q. (sym (ok_value _ n q) ∙ ap cycles e, e))
          λ n.
            Gives-bind (λ _ db. Started (n + 1) db) Started
              (statement λ db. ok (tt, with_cycles (n + 1) db)) _
              (Gives-statement _ (λ db. ok (tt, with_cycles (n + 1) db))
                λ db p _ db' q.
                  subst (Started (n + 1)) (ok_pair tt tt (with_cycles (n + 1) db) db' q).1 (record {
                    docs =
                        subst (λ (m : ℕ). All (IsSeenWell drive old (m + 1)) db.docs) (sym p.0)
                          (subst (λ (d : Db). All (IsSeenWell drive old (cycles old + 1)) d.docs)
                            (sym p.1) (All-before old.docs past));
                    grantees = ap (λ (d : Db). d.grantees) p.1;
                    sources = ap (λ (d : Db). d.sources) p.1;
                  }))
              (λ _. Gives-pure Started (n + 1) (λ db s. s)))

    Gives-run : (fuel : ℕ) → Gives (λ db. db ≡ old) ReportFits (run drive fuel)
    unfolding run
    Gives-run fuel =
        Gives-bind Started ReportFits _ _ (Gives-context Started _ _ Gives-next) (Gives-cycle fuel)

-- A cycle of the sync that finishes, whatever Drive answers and whatever statements fail before,
-- from tables in which no document has the mark of a later cycle: a document that is then active,
-- for an active grantee and under a source that is there, was seen in this cycle, and Drive lists
-- it for a source of an active grantee, in its folder, in one below it, or as the source itself.
pub active_is_listed :
    (drive : Drive) (fuel : ℕ) (w w' : World) (cycle : ℕ) (s : Stats) (d : DocRow)
    → All (λ (d : DocRow). IsPast (cycles w.db) d.last_seen_cycle) w.db.docs
    → run drive fuel w ≡ (ok (finished cycle s), w')
    → IsIn d w'.db.docs
    → eqs d.status status_active ≡ true
    → any_row (λ g. eqs g.grantee_id d.grantee_id && eqs g.status status_active) w'.db.grantees
      ≡ true
    → any_row (λ s. eqs s.drive_id d.source_drive_id) w'.db.sources ≡ true
    → (d.last_seen_cycle ≡ some cycle) × IsListedId drive w.db d.doc_id
active_is_listed drive fuel w w' cycle s d past e m =
    IsIn-All (IsAccounted drive w.db cycle w'.db) d w'.db.docs
      (subst (Fits (ReportFits drive w.db)) e ((Gives-run drive w.db past fuel).at w refl)) m
