-- ===== src/DriveSync/Complete.antt =====
-- While the database answers, a cycle makes every listed document fresh: the sources of a grantee.
use mathlib.Core.Path.{subst}
use balvibot.Prelude.{
  ℕ, ◌<◌, ◌≡◌, refl, sym, ap, ◌∙◌, ◌⊎◌, inl, inr, true, false, List, [], ◌∷◌, ltb, All, IsIn,
  All-from_IsIn, any-IsIn, where_rows, sort_rows, Str, eqs, eqs_iff, is_empty, Bool-cases,
}
use balvibot.Errors.{Error, Result, ok, err}
use balvibot.Store.Schema.{Db, SourceRow}
use balvibot.Store.Calmly.{
  Calmly, Calmly-pure, Calmly-given, Calmly-weaken, Calmly-from, Calmly-if, Calmly-bind,
  Calmly-or_else, Calmly-ping, Calmly-select,
}
use balvibot.Store.Grantees.{has_grantee, source_type_folder, source_type_doc}
use balvibot.Store.Sources.{list_sources_for_grantee}
use balvibot.DriveSync.{Stats, File, Drive, mime_doc, process_doc}
use balvibot.DriveSync.Walk.{
  Walked, done, ctx_err, direct_doc, sync_source, sync_sources, sync_grantee,
}
use balvibot.DriveSync.Listed.{IsAllowed, in_folder, by_id}
use balvibot.DriveSync.Visits.{IsActive, source-IsAllowed}
use balvibot.DriveSync.Ends.{IsFinite, IsEnd}
use balvibot.DriveSync.Fresh.{Here, With, Here-narrow}
use balvibot.DriveSync.Reaches.{
  Delivers, Also, IsDone, InFolder, Calmly-document, Calmly-go_on, Calmly-folder, not_both,
}

same_file : (f g : File) → ◌≡◌ {A = Result File} (ok f) (ok g) → f ≡ g
same_file f g e = cc

no_file : (f : File) (e : Error) → ◌≡◌ {A = Result File} (ok f) (err e) → ⊥
no_file f e h = cc

module _ (drive : Drive) where
  abbrev IsDirect : SourceRow → Str → Type 0
  IsDirect src id =
      (f : File) × (drive.get_file src.drive_id ≡ ok f)
      × (eqs f.mime_type mime_doc ≡ true)
      × (f.id ≡ id)

  -- The ids of the documents of a source.
  abbrev pub InSource : SourceRow → Str → Type 0
  InSource src id =
      ((eqs src.source_type source_type_folder ≡ true) × InFolder drive src.drive_id [] id)
      ⊎ ((eqs src.source_type source_type_folder ≡ false)
          × (eqs src.source_type source_type_doc ≡ true)
          × IsDirect src id)

  abbrev pub InSources : List SourceRow → Str → Type 0
  InSources [] id = ⊥
  InSources (src ∷ srcs) id = InSource src id ⊎ InSources srcs id

  pub one_source :
      (src : SourceRow) (srcs : List SourceRow) (id : Str)
      → IsIn src srcs
      → InSource src id
      → InSources srcs id
  one_source src [] id m i = m
  one_source src (x ∷ srcs) id (inl e) i = inl (subst (λ x. InSource x id) e i)
  one_source src (x ∷ srcs) id (inr m) i = inr (one_source src srcs id m i)

abbrev pub sources_of : Str → Db → List SourceRow
sources_of grantee_id db =
    sort_rows (λ x y. ltb x.id y.id) (where_rows (λ r. eqs r.grantee_id grantee_id) db.sources)

module _ (drive : Drive) (old : Db) (cycle : ℕ) (delivers : Delivers drive old)
    (rank : Str → Str → ℕ) (tree : IsFinite drive rank) (fuel : ℕ)
    (enough : (folder : Str) → rank folder [] < fuel) (grantee_id : Str)
    (owned : is_empty grantee_id ≡ false) (active : IsActive drive old grantee_id) where
  abbrev Now : (Str → Type 0) → Db → Type 0
  Now = Here old cycle

  abbrev Leaves : (Walked → Type 0) → (Str → Type 0) → Walked → Db → Type 0
  Leaves How K r db = How r × Here old cycle K db

  known : has_grantee grantee_id old ≡ true
  known =
      any-IsIn (λ g. eqs g.grantee_id grantee_id) active.row old.grantees active.known
        ((eqs_iff active.row.grantee_id grantee_id).1 active.same)

  module _ (src : SourceRow) (allowed : IsAllowed old src) where
    Calmly-IsDirect :
        (r : Result File)
        → drive.get_file src.drive_id ≡ r
        → eqs src.source_type source_type_folder ≡ false
        → eqs src.source_type source_type_doc ≡ true
        → (K : Str → Type 0) (s : Stats)
        → Calmly
            (Now K)
            (Leaves IsEnd (Also K (IsDirect drive src)))
            (direct_doc drive grantee_id cycle src r s)
    unfolding direct_doc
    Calmly-IsDirect (err e) q n d K s = Calmly-pure _ _ λ db p. (
      tt,
      Here-narrow old cycle K _ db
          (λ id v. elim v [ inl k ↦ k | inr (f, q', m, same) ↦ absurd (no_file f e (sym q' ∙ q)) ])
          p,
    )
    Calmly-IsDirect (ok f) q n d K s = checked (Bool-cases (eqs f.mime_type mime_doc))
      where
        L : Str → Type 0
        L = Also K (IsDirect drive src)

        one : (id : Str) → L id → With old cycle K f.id id
        one id (inl k) = inl k
        one id (inr (g, q', m, e)) = inr (ap (λ (x : File). x.id) (same_file f g (sym q ∙ q')) ∙ e)

        none_of : eqs f.mime_type mime_doc ≡ false → (id : Str) → L id → K id
        none_of e id (inl k) = k
        none_of e id (inr (g, q', m, same)) = absurd (
            not_both _ m (
              subst (λ (x : File). eqs x.mime_type mime_doc ≡ false) (same_file f g (sym q ∙ q'))
                e))

        checked :
            (eqs f.mime_type mime_doc ≡ true) ⊎ (eqs f.mime_type mime_doc ≡ false)
            → Calmly (Now K) (Leaves IsEnd L) (direct_doc drive grantee_id cycle src (ok f) s)
        checked (inl e) =
            Calmly-bind (λ _. Now (With old cycle K f.id)) (Leaves IsEnd L) _ _
              (Calmly-document drive old cycle delivers grantee_id owned known src K f s
                (by_id src f allowed n d q e) e)
              (λ s'. Calmly-pure _ (done s') λ db p. (tt, Here-narrow old cycle _ L db one p))
        checked (inr e) =
            unfold process_doc in
            rw e (
              Calmly-bind (λ _. Now K) (Leaves IsEnd L) _ _ (Calmly-pure (λ _. Now K) _ (λ db p. p))
                (λ s'.
                  Calmly-pure _ (done s') λ db p. (tt, Here-narrow old cycle K L db (none_of e) p)))

    Calmly-source :
        (K : Str → Type 0) (s : Stats)
        → Calmly
            (Now K)
            (Leaves IsEnd (Also K (InSource drive src)))
            (sync_source drive grantee_id cycle fuel src s)
    unfolding sync_source
    Calmly-source K s =
        let L = Also K (InSource drive src) in
        Calmly-if (Leaves IsEnd L) (eqs src.source_type source_type_folder) _ _
          (λ e.
            Calmly-weaken _ _ _
              (Calmly-folder drive old cycle delivers grantee_id owned known src rank tree fuel
                src.drive_id [] s (enough src.drive_id) (λ f u. in_folder src f allowed e u) K)
              λ r db p. (p.0, Here-narrow old cycle _ L db (folder_only e) p.1))
          (λ n.
            Calmly-if (Leaves IsEnd L) (eqs src.source_type source_type_doc) _ _
              (λ d.
                Calmly-weaken _ _ _ (Calmly-IsDirect (drive.get_file src.drive_id) refl n d K s)
                  λ r db p. (p.0, Here-narrow old cycle _ L db (direct_only n) p.1))
              (λ d.
                Calmly-pure _ (done s) λ db p. (tt, Here-narrow old cycle K L db (neither n d) p)))
      where
        folder_only :
            eqs src.source_type source_type_folder ≡ true
            → (id : Str) → Also K (InSource drive src) id
            → Also K (InFolder drive src.drive_id []) id
        folder_only e id (inl k) = inl k
        folder_only e id (inr (inl (t, v))) = inr v
        folder_only e id (inr (inr (n, d, v))) = absurd (not_both _ e n)

        direct_only :
            eqs src.source_type source_type_folder ≡ false
            → (id : Str) → Also K (InSource drive src) id
            → Also K (IsDirect drive src) id
        direct_only n id (inl k) = inl k
        direct_only n id (inr (inl (t, v))) = absurd (not_both _ t n)
        direct_only n id (inr (inr (m, d, v))) = inr v

        neither :
            eqs src.source_type source_type_folder ≡ false
            → eqs src.source_type source_type_doc ≡ false
            → (id : Str) → Also K (InSource drive src) id
            → K id
        neither n d id (inl k) = k
        neither n d id (inr (inl (t, v))) = absurd (not_both _ t n)
        neither n d id (inr (inr (m, t, v))) = absurd (not_both _ t d)

  Calmly-sources :
      (srcs : List SourceRow)
      → All (IsAllowed old) srcs
      → (K : Str → Type 0) (s : Stats)
      → Calmly
          (Now K)
          (Leaves IsDone (Also K (InSources drive srcs)))
          (sync_sources drive grantee_id cycle fuel srcs s)
  unfolding sync_sources
  Calmly-sources [] h K s =
      Calmly-pure _ (done s) λ db p.
        (tt, Here-narrow old cycle K _ db (λ id v. elim v [ inl k ↦ k | inr x ↦ absurd x ]) p)
  Calmly-sources (src ∷ srcs) (a, h) K s =
      let K' = Also K (InSource drive src) in
      let L = Also K (InSources drive (src ∷ srcs)) in
      Calmly-or_else (λ _. Now K) (Leaves IsDone L) ctx_err _ _ Calmly-ping
        λ _. Calmly-bind (Leaves IsEnd K') (Leaves IsDone L) _ _ (Calmly-source src a K s) (
          Calmly-go_on drive old cycle delivers grantee_id owned known src K' L _ λ s'.
            Calmly-weaken _ _ _ (Calmly-sources srcs h K' s')
              λ r db p. (p.0, Here-narrow old cycle _ L db regroup p.1))
    where
      regroup :
          (id : Str)
          → Also K (InSources drive (src ∷ srcs)) id
          → Also (Also K (InSource drive src)) (InSources drive srcs) id
      regroup id (inl k) = inl (inl k)
      regroup id (inr (inl v)) = inl (inr v)
      regroup id (inr (inr v)) = inr v

  -- syncGrantee makes the documents of all sources of the grantee fresh.
  pub Calmly-grantee :
      (K : Str → Type 0) (s : Stats)
      → Calmly
          (Now K)
          (Leaves IsDone (Also K (InSources drive (sources_of grantee_id old))))
          (sync_grantee drive grantee_id cycle fuel s)
  unfolding sync_grantee list_sources_for_grantee
  Calmly-grantee K s =
      let L = Also K (InSources drive (sources_of grantee_id old)) in
      Calmly-or_else (λ srcs db. (srcs ≡ sources_of grantee_id old) × Now K db) (Leaves IsDone L) _
        _ _ (Calmly-select _ _ λ db p. (sources_of grantee_id db, refl, (rows db p, p)))
        (λ srcs. Calmly-given _ _ λ db p.
          Calmly-from (Now K) _ _
            (subst
              (λ srcs.
                Calmly (Now K) (Leaves IsDone L) (sync_sources drive grantee_id cycle fuel srcs s))
              (sym p.0)
              (Calmly-sources (sources_of grantee_id old)
                (All-from_IsIn (IsAllowed old) _
                  (λ src m. source-IsAllowed drive old old grantee_id src refl active m))
                K s))
            (λ db p. p.1))
    where
      rows : (db : Db) → Now K db → sources_of grantee_id db ≡ sources_of grantee_id old
      rows db p =
          ap
            (λ (rows : List SourceRow).
              sort_rows (λ x y. ltb x.id y.id) (where_rows (λ r. eqs r.grantee_id grantee_id) rows))
            p.sources
