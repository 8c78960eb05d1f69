-- ===== src/DriveSync/Refreshed.antt =====
-- A cycle that the database answers finishes, and leaves every listed document fresh.
use mathlib.Core.Path.{subst}
use balvibot.Prelude.{
  ℕ, ◌+◌, ◌<◌, ◌≡◌, refl, sym, ap, ◌⊎◌, inl, inr, Bool, true, false, ◌&&◌, List, [], ◌∷◌, Option,
  none, some, ltb, All, IsIn, All-from_IsIn, IsIn-All, where-IsIn, sort-IsIn, where_rows, sort_rows,
  any_row, update_rows, map, Str, eqs, is_empty, arith,
}
use balvibot.Errors.{Result, ok, err}
use balvibot.Store.Schema.{Db, SourceRow, GranteeRow, DocRow}
use balvibot.Store.Exec.{World, select, statement, now, ◌>>=◌}
use balvibot.Store.Reads.{calm}
use balvibot.Store.Calmly.{
  Calmly, Achieved, Calmly-pure, Calmly-given, Calmly-weaken, Calmly-from, Calmly-bind,
  Calmly-or_else, Calmly-ping, Calmly-select, Calmly-statement, Calmly-now, Calmly-context,
  Calmly-transaction,
}
use balvibot.Store.Grantees.{Grantee, scan_grantee, str_lt, list_active_grantees, status_active}
use balvibot.Store.Docs.{
  cycles, with_cycles, with_success, next_cycle_id, advance_cycle, mark_unseen_stale, is_unseen,
  stale_row, seen_before, update_docs, set_last_successful_sync,
}
use balvibot.DriveSync.{Stats, File, Drive}
use balvibot.DriveSync.Walk.{Walked, done, broken, out_of_fuel, go_on, ctx_err, sync_grantee}
use balvibot.DriveSync.Run.{Report, finished, no_stats, sync_grantees, close_cycle, run_cycle, run}
use balvibot.DriveSync.Listed.{IsAllowed, IsListed, in_folder, by_id}
use balvibot.DriveSync.Visits.{IsActive, row-IsActive}
use balvibot.DriveSync.Ends.{IsFinite}
use balvibot.DriveSync.Fresh.{is_fresh, has_mark, Here, Here-narrow, any-update}
use balvibot.DriveSync.Reaches.{Delivers, Also, IsDone}
use balvibot.DriveSync.Complete.{InSource, InSources, one_source, sources_of, Calmly-grantee}

third : (a b c : Bool) → (a && b && c) ≡ true → c ≡ true
third a b c h = ground arith

second : (a b c d : Bool) → (a && b && c && d) ≡ true → b ≡ true
second a b c d h = ground arith

abbrev active_rows : Db → List GranteeRow
active_rows db =
    sort_rows (λ x y. str_lt x.grantee_id y.grantee_id)
      (where_rows (λ g. eqs g.status status_active) db.grantees)

module _ (drive : Drive) (old : Db) where
  -- The ids of the documents of some grantees.
  abbrev InGrantees : List Grantee → Str → Type 0
  InGrantees [] id = ⊥
  InGrantees (g ∷ gs) id = InSources drive (sources_of g.grantee_id old) id ⊎ InGrantees gs id

  one_grantee :
      (row : GranteeRow) (rows : List GranteeRow) (id : Str)
      → IsIn row rows
      → InSources drive (sources_of row.grantee_id old) id
      → InGrantees (map scan_grantee rows) id
  unfolding scan_grantee
  one_grantee row [] id m i = m
  one_grantee row (x ∷ rows) id (inl e) i =
      inl (subst (λ (x : GranteeRow). InSources drive (sources_of x.grantee_id old) id) e i)
  one_grantee row (x ∷ rows) id (inr m) i = inr (one_grantee row rows id m i)

  allowed_source :
      (src : SourceRow) (id : Str)
      → IsAllowed old src
      → InSource drive src id
      → InGrantees (map scan_grantee (active_rows old)) id
  allowed_source src id a i =
      one_grantee a.grantee (active_rows old) id
        (sort-IsIn (λ x y. str_lt x.grantee_id y.grantee_id) a.grantee _
          (where-IsIn (λ g. eqs g.status status_active) a.grantee old.grantees a.known a.active))
        (one_source drive src (sources_of a.grantee.grantee_id old) id
          (sort-IsIn (λ x y. ltb x.id y.id) src _
            (where-IsIn (λ r. eqs r.grantee_id a.grantee.grantee_id) src old.sources a.source
              a.owned))
          i)

  listed_is_met :
      {f : File} → IsListed drive old f → InGrantees (map scan_grantee (active_rows old)) f.id
  listed_is_met (in_folder src f a t u) = allowed_source src f.id a (inl (t, (f, u, refl)))
  listed_is_met (by_id src f a n d q m) = allowed_source src f.id a (inr (n, d, (f, q, m, refl)))

module _ (drive : Drive) (old : Db) (delivers : Delivers drive old) (rank : Str → Str → ℕ)
    (tree : IsFinite drive rank) (fuel : ℕ) (enough : (folder : Str) → rank folder [] < fuel) where
  abbrev IsReady : Grantee → Type 0
  IsReady g = (is_empty g.grantee_id ≡ false) × IsActive drive old g.grantee_id

  module _ (cycle : ℕ) where
    abbrev Met : (Str → Type 0) → Db → Type 0
    Met = Here old cycle

    Calmly-grantees :
        (gs : List Grantee)
        → All IsReady gs
        → (K : Str → Type 0) (s : Stats)
        → Calmly
            (Met K)
            (λ r db. IsDone r × Met (Also K (InGrantees drive old gs)) db)
            (sync_grantees drive fuel cycle gs s)
    unfolding sync_grantees
    Calmly-grantees [] h K s = Calmly-pure _ (done s) λ db p.
        (tt, Here-narrow old cycle K _ db (λ id v. elim v [ inl k ↦ k | inr x ↦ absurd x ]) p)
    Calmly-grantees (g ∷ gs) ((owned, active), h) K s =
        let K' = Also K (InSources drive (sources_of g.grantee_id old)) in
        let L = Also K (InGrantees drive old (g ∷ gs)) in
        Calmly-or_else (λ _. Met K) (λ r db. IsDone r × Met L db) ctx_err _
          (λ _.
            sync_grantee drive g.grantee_id cycle fuel s
            >>= go_on (sync_grantees drive fuel cycle gs))
          Calmly-ping
          λ _.
            Calmly-bind (λ r db. IsDone r × Met K' db) (λ r db. IsDone r × Met L db)
              (sync_grantee drive g.grantee_id cycle fuel s)
              (go_on (sync_grantees drive fuel cycle gs))
              (Calmly-grantee drive old cycle delivers rank tree fuel enough g.grantee_id owned
                active K s)
              (rest K' L λ s'.
                Calmly-weaken _ _ _ (Calmly-grantees gs h K' s')
                  λ r db p. (p.0, Here-narrow old cycle _ L db regroup p.1))
      where
        rest :
            (K L : Str → Type 0)
            → ((s : Stats)
                → Calmly
                    (Met K)
                    (λ r db. IsDone r × Met L db)
                    (sync_grantees drive fuel cycle gs s))
            → (r : Walked)
            → Calmly
                (λ db. IsDone r × Met K db)
                (λ r db. IsDone r × Met L db)
                (go_on (sync_grantees drive fuel cycle gs) r)
        rest K L k (done s) = Calmly-from (Met K) _ _ (k s) (λ db p. p.1)
        rest K L k (broken s e) = Calmly-from (Met K) _ _ (k s) (λ db p. p.1)
        rest K L k out_of_fuel = Calmly-given _ _ (λ db p. absurd p.0)

        regroup :
            (id : Str)
            → Also K (InGrantees drive old (g ∷ gs)) id
            → Also
                (Also K (InSources drive (sources_of g.grantee_id old)))
                (InGrantees drive old gs)
                id
        regroup id (inl k) = inl (inl k)
        regroup id (inr (inl v)) = inl (inr v)
        regroup id (inr (inr v)) = inr v

    -- A document that is fresh does not go stale.
    stays_fresh :
        (id : Str) (db : Db) (d : DocRow)
        → is_fresh cycle id d ≡ true
        → is_unseen cycle db d ≡ true
        → is_fresh cycle id (stale_row d) ≡ true
    unfolding is_unseen
    stays_fresh id db d fresh unseen = absurd (
        seen d.last_seen_cycle (third (eqs d.doc_id id) (eqs d.status status_active) _ fresh) (
          second (eqs d.status status_active) _
            (any_row (λ g. eqs g.grantee_id d.grantee_id && eqs g.status status_active) db.grantees)
            (any_row (λ s. eqs s.drive_id d.source_drive_id) db.sources) unseen))
      where
        seen : (o : Option ℕ) → has_mark cycle o ≡ true → seen_before cycle o ≡ true → ⊥
        seen none h k = cc
        seen (some n) h k = ground arith

    Calmly-mark : (L : Str → Type 0) → Calmly (Met L) (λ _. Met L) (mark_unseen_stale cycle)
    unfolding mark_unseen_stale update_docs
    Calmly-mark L = Calmly-statement _ _ λ db p. (
      _,
      record db { docs = update_rows (is_unseen cycle db) stale_row db.docs },
      refl,
      record {
        grantees = p.grantees;
        sources = p.sources;
        fresh = λ id l.
            any-update (is_fresh cycle id) (is_unseen cycle db) stale_row db.docs
              (stays_fresh id db) (p.fresh id l);
      },
    )

    abbrev EndsWell : (Str → Type 0) → Report → Db → Type 0
    EndsWell L r db = (s : Stats) × (r ≡ finished cycle s) × Met L db

    Calmly-close :
        (L : Str → Type 0) (r : Walked)
        → Calmly (λ db. IsDone r × Met L db) (EndsWell L) (close_cycle drive fuel cycle r)
    unfolding close_cycle set_last_successful_sync
    Calmly-close L (broken s e) = Calmly-given _ _ (λ db p. absurd p.0)
    Calmly-close L out_of_fuel = Calmly-given _ _ (λ db p. absurd p.0)
    Calmly-close L (done s) =
        Calmly-or_else (λ _. Met L) (EndsWell L) (mark_unseen_stale cycle) _ _
          (Calmly-from (Met L) _ _ (Calmly-mark L) (λ db p. p.1))
          λ marked.
            Calmly-or_else (λ _. Met L) (EndsWell L) (now >>= set_last_successful_sync) _ _
              (Calmly-bind (λ _. Met L) (λ _. Met L) now set_last_successful_sync Calmly-now
                λ t.
                  Calmly-statement (λ _. Met L) (λ db. ok (tt, with_success t db))
                    λ db p. (
                      tt,
                      with_success t db,
                      refl,
                      record { grantees = p.grantees; sources = p.sources; fresh = p.fresh },
                    ))
              (λ _. Calmly-pure (EndsWell L) (finished cycle _) (λ db p. (_, refl, p)))

    Calmly-cycle :
        All IsReady (map scan_grantee (active_rows old))
        → Calmly
            (Met (λ id. ⊥))
            (EndsWell (InGrantees drive old (map scan_grantee (active_rows old))))
            (run_cycle drive fuel cycle)
    unfolding run_cycle list_active_grantees
    Calmly-cycle ready =
        let gs = map scan_grantee (active_rows old) in
        let L = InGrantees drive old gs in
        Calmly-or_else (λ xs db. (xs ≡ gs) × Met (λ id. ⊥) db) (EndsWell L) list_active_grantees _ _
          (Calmly-select _ _ λ db p. (map scan_grantee (active_rows db), refl, (same_rows db p, p)))
          λ xs. Calmly-given _ _ λ db p.
            Calmly-from (Met (λ id. ⊥)) _ _
              (subst
                (λ xs.
                  Calmly (Met (λ id. ⊥)) (EndsWell L)
                    (sync_grantees drive fuel cycle xs no_stats >>= close_cycle drive fuel cycle))
                (sym p.0)
                (Calmly-bind (λ r db. IsDone r × Met L db) (EndsWell L) _ _
                  (Calmly-weaken _ _ _ (Calmly-grantees gs ready (λ id. ⊥) no_stats)
                    λ r db p. (p.0, Here-narrow old cycle _ L db (λ id v. inr v) p.1))
                  (Calmly-close L)))
              (λ db p. p.1)
      where
        same_rows :
            (db : Db)
            → Met (λ id. ⊥) db
            → map scan_grantee (active_rows db) ≡ map scan_grantee (active_rows old)
        same_rows db p =
            ap
              (λ (rows : List GranteeRow). map scan_grantee (
                sort_rows (λ x y. str_lt x.grantee_id y.grantee_id)
                  (where_rows (λ g. eqs g.status status_active) rows)))
              p.grantees

  Calmly-next :
      Calmly
        (λ db. db ≡ old)
        (λ n db. (n ≡ cycles old + 1) × Here old (cycles old + 1) (λ id. ⊥) db)
        next_cycle_id
  unfolding next_cycle_id advance_cycle
  Calmly-next =
      let Q : ℕ → Db → Type 0 =
        λ n db. (n ≡ cycles old + 1) × Here old (cycles old + 1) (λ id. ⊥) db in
      Calmly-transaction Q advance_cycle (
        Calmly-bind (λ n db. (n ≡ cycles old) × (db ≡ old)) Q (select λ db. ok (cycles db)) _
          (Calmly-select _ _ λ db e. (cycles db, refl, (ap cycles e, e)))
          λ n.
            Calmly-bind (λ _. Q (n + 1)) Q (statement λ db. ok (tt, with_cycles (n + 1) db)) _
              (Calmly-statement _ _ λ db p. (
                tt,
                with_cycles (n + 1) db,
                refl,
                (
                  ap (λ (k : ℕ). k + 1) p.0,
                  record {
                    grantees = ap (λ (d : Db). d.grantees) p.1;
                    sources = ap (λ (d : Db). d.sources) p.1;
                    fresh = λ id x. absurd x;
                  },
                ),
              ))
              (λ _. Calmly-pure Q (n + 1) (λ db q. q)))

  Calmly-run :
      All IsReady (map scan_grantee (active_rows old))
      → Calmly
          (λ db. db ≡ old)
          (EndsWell (cycles old + 1) (InGrantees drive old (map scan_grantee (active_rows old))))
          (run drive fuel)
  unfolding run
  Calmly-run ready =
      let L = InGrantees drive old (map scan_grantee (active_rows old)) in
      let c = cycles old + 1 in
      Calmly-bind (λ n db. (n ≡ c) × Here old c (λ id. ⊥) db) (EndsWell c L) _ _
        (Calmly-context _ _ _ Calmly-next)
        λ n. Calmly-given _ _ λ db p.
          Calmly-from (Here old c (λ id. ⊥)) _ _
            (subst
              (λ (n : ℕ). Calmly (Here old c (λ id. ⊥)) (EndsWell c L) (run_cycle drive fuel n))
              (sym p.0) (Calmly-cycle c ready))
            (λ db p. p.1)

ready_rows :
    (drive : Drive) (old : Db) (rows : List GranteeRow)
    → All
        (λ (r : GranteeRow). (is_empty r.grantee_id ≡ false) × IsActive drive old r.grantee_id)
        rows
    → All
        (λ (g : Grantee). (is_empty g.grantee_id ≡ false) × IsActive drive old g.grantee_id)
        (map scan_grantee rows)
unfolding scan_grantee
ready_rows drive old [] h = tt
ready_rows drive old (r ∷ rows) (a, h) = (a, ready_rows drive old rows h)

ended :
    (drive : Drive) (old : Db) (cycle : ℕ) (L : Str → Type 0) (r : Result Report × World) (id : Str)
    → Achieved (λ (r : Report) db. (s : Stats) × (r ≡ finished cycle s) × Here old cycle L db) r
    → L id
    → (s : Stats) × (w' : World) × (r ≡ (ok (finished cycle s), w'))
      × (any_row (is_fresh cycle id) w'.db.docs ≡ true)
ended drive old cycle L (ok a, w') id (c, (s, e, p)) l =
    (s, w', ap (λ (x : Report). (ok x, w')) e, p.fresh id l)
ended drive old cycle L (err e, w') id h l = absurd h

-- A cycle that the database answers finishes, and a document that Drive lists for a source of an
-- active grantee is then active, with the mark of the cycle: where the folders of Drive are a finite
-- tree that the fuel is enough for, Drive exports each document that it lists, with an id and a time
-- that can be read, and no grantee has an empty id.
pub listed_is_fresh :
    (drive : Drive) (rank : Str → Str → ℕ) (fuel : ℕ) (w : World) (f : File)
    → IsFinite drive rank
    → ((folder : Str) → rank folder [] < fuel)
    → Delivers drive w.db
    → All (λ (g : GranteeRow). is_empty g.grantee_id ≡ false) w.db.grantees
    → IsListed drive w.db f
    → (s : Stats) × (w' : World) × (run drive fuel (calm w)
        ≡ (ok (finished (cycles w.db + 1) s), w'))
      × (any_row (is_fresh (cycles w.db + 1) f.id) w'.db.docs ≡ true)
listed_is_fresh drive rank fuel w f tree enough delivers named listed =
    ended drive w.db (cycles w.db + 1) _ (run drive fuel (calm w)) f.id
      ((Calmly-run drive w.db delivers rank tree fuel enough
          (ready_rows drive w.db (active_rows w.db) rows)).at
        (calm w) refl refl)
      (listed_is_met drive w.db listed)
  where
    rows :
        All
          (λ (r : GranteeRow). (is_empty r.grantee_id ≡ false) × IsActive drive w.db r.grantee_id)
          (active_rows w.db)
    rows = All-from_IsIn _ (active_rows w.db) λ r m.
        let a = row-IsActive drive w.db w.db (λ x y. str_lt x.grantee_id y.grantee_id) r refl m in
        (
          subst (λ i. is_empty i ≡ false) a.same
              (IsIn-All (λ (g : GranteeRow). is_empty g.grantee_id ≡ false) a.row w.db.grantees
                named a.known),
          a,
        )
