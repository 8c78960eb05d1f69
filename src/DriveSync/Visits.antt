-- ===== src/DriveSync/Visits.antt =====
-- The walk over the sources of the grantees marks only what they list.
use mathlib.Core.Path.{subst}
use balvibot.Prelude.{
  ℕ, zero, suc, ◌≡◌, refl, sym, ◌⊎◌, inl, inr, Bool, true, false, List, [], ◌∷◌, All, All-from_IsIn,
  IsIn, IsIn-where, IsIn-sort, Str, eqs, is_empty, where_rows, sort_rows, map, ltb, Bool-cases,
}
use balvibot.Errors.{Result, ok, err}
use balvibot.Store.Schema.{Db, GranteeRow, SourceRow}
use balvibot.Store.Exec.{Exec, ◌>>=◌}
use balvibot.Store.Keeps.{Keeps, Keeps-pure, Keeps-if, Keeps-or_else, Keeps-bind, Keeps-ping}
use balvibot.Store.Reads.{Keeps-read}
use balvibot.Store.Grantees.{
  Grantee, scan_grantee, status_active, source_type_folder, source_type_doc,
}
use balvibot.Store.Sources.{list_sources_for_grantee}
use balvibot.DriveSync.{Stats, File, FileList, Drive, mime_doc, mime_folder, process_doc}
use balvibot.DriveSync.Walk.{
  Walked, done, broken, out_of_fuel, go_on, and_then, ctx_err, walk_files, walk_page, walk_folder,
  direct_doc, sync_source, sync_sources, sync_grantee,
}
use balvibot.DriveSync.Run.{sync_grantees}
use balvibot.DriveSync.Listed.{Under, here, below, later, IsAllowed, IsListed, in_folder, by_id}

module _ {P : Db → Type 0} where
  Keeps-go_on :
      (next : Stats → Exec Walked)
      → ((s : Stats) → Keeps P (next s))
      → (r : Walked) → Keeps P (go_on next r)
  Keeps-go_on next k (done s) = k s
  Keeps-go_on next k (broken s e) = k s
  Keeps-go_on next k out_of_fuel = Keeps-pure _

  Keeps-and_then :
      (next : Stats → Exec Walked)
      → ((s : Stats) → Keeps P (next s))
      → (r : Walked) → Keeps P (and_then next r)
  Keeps-and_then next k (done s) = k s
  Keeps-and_then next k (broken s e) = Keeps-pure _
  Keeps-and_then next k out_of_fuel = Keeps-pure _

-- What a walk of the folder from the page with the token on may meet is listed.
abbrev pub IsOpen : Drive → Db → Str → Str → Type 0
IsOpen drive old folder token = (f : File) → Under drive folder token f → IsListed drive old f

-- What the work on each listed document keeps.
pub record KeepsListed (drive : Drive) (old : Db) (cycle : ℕ) (P : Db → Type 0) : Type 0 where
  pub document :
      (grantee_id : Str) (src : SourceRow) (f : File) (s : Stats)
      → IsListed drive old f
      → Keeps P (process_doc drive grantee_id src cycle f s)
  pub sources : (db : Db) → P db → db.sources ≡ old.sources

module _ (drive : Drive) (old : Db) (cycle : ℕ) {P : Db → Type 0}
    (kept : KeepsListed drive old cycle P) (grantee_id : Str) where
  module _ (src : SourceRow) where
    Keeps-files :
        (enter : Str → Stats → Exec Walked) (files : List File)
        → ((id : Str) (s : Stats) → IsOpen drive old id [] → Keeps P (enter id s))
        → All
            (λ f.
              (eqs f.mime_type mime_folder ≡ false
                → eqs f.mime_type mime_doc ≡ true
                → IsListed drive old f)
              × (eqs f.mime_type mime_folder ≡ true → IsOpen drive old f.id []))
            files
        → (s : Stats) → Keeps P (walk_files drive grantee_id cycle src enter files s)
    unfolding walk_files
    Keeps-files enter [] k h s = Keeps-pure _
    Keeps-files enter (f ∷ files) k ((doc, folder), h) s =
        let rest = Keeps-files enter files k h in
        Keeps-if (eqs f.mime_type mime_folder) _ _
          (λ e. Keeps-bind _ _ (k f.id s (folder e)) (Keeps-go_on _ rest))
          (λ no_folder.
            Keeps-if (eqs f.mime_type mime_doc) _ _
              (λ e. Keeps-bind _ _ (kept.document grantee_id src f s (doc no_folder e)) rest)
              (λ _. rest s))

    Keeps-page :
        (walk : Str → Str → Stats → Exec Walked)
        → ((id token : Str) (s : Stats) → IsOpen drive old id token → Keeps P (walk id token s))
        → (folder token : Str) → IsOpen drive old folder token
        → (r : Result FileList) → drive.list_folder folder token ≡ r
        → (s : Stats) → Keeps P (walk_page drive grantee_id cycle src walk folder r s)
    unfolding walk_page
    Keeps-page walk k folder token o (err e) q s = Keeps-pure _
    Keeps-page walk k folder token o (ok page) q s =
        Keeps-bind _ _
          (Keeps-files (λ id. walk id []) page.files (λ id s o. k id [] s o)
            (All-from_IsIn _ page.files (λ f m. (
              λ n e. o f (here folder token page f q m n e),
              λ e g u. o g (below folder token page f g q m e u),
            )))
            s)
          (Keeps-and_then _ λ s'.
            Keeps-if (is_empty page.next_page_token) _ _ (λ _. Keeps-pure _)
              (λ e.
                k folder page.next_page_token s' (λ f u. o f (later folder token page f q e u))))

    Keeps-folder :
        (fuel : ℕ) (folder token : Str) (s : Stats)
        → IsOpen drive old folder token
        → Keeps P (walk_folder drive grantee_id cycle src fuel folder token s)
    unfolding walk_folder
    Keeps-folder zero folder token s o = Keeps-pure _
    Keeps-folder (suc fuel) folder token s o =
        Keeps-or_else ctx_err _ _ Keeps-ping (λ e. Keeps-pure _)
          λ _.
            Keeps-page (walk_folder drive grantee_id cycle src fuel) (Keeps-folder fuel) folder
              token o (drive.list_folder folder token) refl s

    module _ (allowed : IsAllowed old src) where
      Keeps-direct :
          (r : Result File) (s : Stats)
          → eqs src.source_type source_type_folder ≡ false
          → eqs src.source_type source_type_doc ≡ true
          → drive.get_file src.drive_id ≡ r
          → Keeps P (direct_doc drive grantee_id cycle src r s)
      unfolding direct_doc
      Keeps-direct (err e) s n d q = Keeps-pure _
      Keeps-direct (ok f) s n d q =
          Keeps-bind _ _ (checked (Bool-cases (eqs f.mime_type mime_doc))) (λ s'. Keeps-pure _)
        where
          checked :
              (eqs f.mime_type mime_doc ≡ true) ⊎ (eqs f.mime_type mime_doc ≡ false)
              → Keeps P (process_doc drive grantee_id src cycle f s)
          checked (inl e) = kept.document grantee_id src f s (by_id src f allowed n d q e)
          checked (inr e) = unfold process_doc in rw e (Keeps-pure _)

      Keeps-source :
          (fuel : ℕ) (s : Stats) → Keeps P (sync_source drive grantee_id cycle fuel src s)
      unfolding sync_source
      Keeps-source fuel s =
          Keeps-if (eqs src.source_type source_type_folder) _ _
            (λ e. Keeps-folder fuel src.drive_id [] s (λ f u. in_folder src f allowed e u))
            (λ n.
              Keeps-if (eqs src.source_type source_type_doc) _ _
                (λ e. Keeps-direct (drive.get_file src.drive_id) s n e refl) (λ _. Keeps-pure _))

  Keeps-sources :
      (fuel : ℕ) (srcs : List SourceRow) (s : Stats)
      → All (IsAllowed old) srcs
      → Keeps P (sync_sources drive grantee_id cycle fuel srcs s)
  unfolding sync_sources
  Keeps-sources fuel [] s h = Keeps-pure _
  Keeps-sources fuel (src ∷ srcs) s (a, h) =
      Keeps-or_else ctx_err _ _ Keeps-ping (λ e. Keeps-pure _)
        λ _.
          Keeps-bind _ _ (Keeps-source src a fuel s)
            (Keeps-go_on _ λ s'. Keeps-sources fuel srcs s' h)

pub ok_value : {A : Type 0} (a b : A) → ◌≡◌ {A = Result A} (ok a) (ok b) → a ≡ b
ok_value a b e = cc

module _ (drive : Drive) (old : Db) where
  -- The id is that of an active grantee.
  pub record IsActive (id : Str) : Type 0 where
    pub row : GranteeRow
    pub known : IsIn row old.grantees
    pub active : eqs row.status status_active ≡ true
    pub same : row.grantee_id ≡ id

  pub source-IsAllowed :
      (db : Db) (id : Str) (src : SourceRow)
      → db.sources ≡ old.sources
      → IsActive id
      → IsIn src
          (sort_rows (λ x y. ltb x.id y.id) (where_rows (λ r. eqs r.grantee_id id) db.sources))
      → IsAllowed old src
  source-IsAllowed db id src e a m =
      let (there, owned) =
        IsIn-where (λ r. eqs r.grantee_id id) src db.sources
          (IsIn-sort (λ x y. ltb x.id y.id) src _ m) in
      record {
        grantee = a.row;
        known = a.known;
        active = a.active;
        source = subst (IsIn src) e there;
        owned = subst (λ i. eqs src.grantee_id i ≡ true) (sym a.same) owned;
      }

  pub scanned :
      (rows : List GranteeRow)
      → All (λ r. IsActive r.grantee_id) rows
      → All (λ g. IsActive g.grantee_id) (map scan_grantee rows)
  unfolding scan_grantee
  scanned [] h = tt
  scanned (r ∷ rows) (a, h) = (a, scanned rows h)

  pub row-IsActive :
      (db : Db) (before : GranteeRow → GranteeRow → Bool) (r : GranteeRow)
      → db.grantees ≡ old.grantees
      → IsIn r (sort_rows before (where_rows (λ g. eqs g.status status_active) db.grantees))
      → IsActive r.grantee_id
  row-IsActive db before r e m =
      let (there, active) =
        IsIn-where (λ g. eqs g.status status_active) r db.grantees (IsIn-sort before r _ m) in
      record { row = r; known = subst (IsIn r) e there; active = active; same = refl }

  Keeps-grantee :
      (cycle fuel : ℕ) {P : Db → Type 0} (kept : KeepsListed drive old cycle P) (id : Str)
      (s : Stats)
      → IsActive id
      → Keeps P (sync_grantee drive id cycle fuel s)
  unfolding sync_grantee list_sources_for_grantee
  Keeps-grantee cycle fuel kept id s a =
      Keeps-read _ _ _ (λ e. Keeps-pure _)
        λ db k srcs q. Keeps-sources drive old cycle kept id fuel srcs s (
          subst (All (IsAllowed old)) (ok_value _ srcs q) (
            All-from_IsIn (IsAllowed old) _
              (λ src m. source-IsAllowed db id src (kept.sources db k) a m)))

  pub Keeps-grantees :
      (fuel cycle : ℕ) {P : Db → Type 0} (kept : KeepsListed drive old cycle P) (gs : List Grantee)
      (s : Stats)
      → All (λ g. IsActive g.grantee_id) gs
      → Keeps P (sync_grantees drive fuel cycle gs s)
  unfolding sync_grantees
  Keeps-grantees fuel cycle kept [] s h = Keeps-pure _
  Keeps-grantees fuel cycle kept (g ∷ gs) s (a, h) =
      Keeps-or_else ctx_err _
        (λ _.
          sync_grantee drive g.grantee_id cycle fuel s
          >>= go_on (sync_grantees drive fuel cycle gs))
        Keeps-ping (λ e. Keeps-pure (broken s e))
        λ _.
          Keeps-bind _ _ (Keeps-grantee cycle fuel kept g.grantee_id s a)
            (Keeps-go_on _ λ s'. Keeps-grantees fuel cycle kept gs s' h)
