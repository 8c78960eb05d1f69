-- ===== src/DriveSync/Ends.antt =====
-- A cycle of the sync comes to its end where the folders of Drive are a finite tree.
use mathlib.Core.Path.{subst}
use balvibot.Prelude.{
  ℕ, zero, suc, ◌<◌, ◌≡◌, ◌≢◌, refl, true, false, All, List, [], ◌∷◌, Str, codes, eqs, is_empty,
  not, arith, Option, none, some,
}
use balvibot.Errors.{Error, Result, ok, err, is_not_found_or_forbidden}
use balvibot.Store.Schema.{SourceRow}
use balvibot.Store.Exec.{World, Exec, now, context, ◌>>=◌, continue}
use balvibot.Store.Returns.{IsOk, Returns, Returns-pure, Returns-if, Returns-or_else, Returns-bind}
use balvibot.Store.Grantees.{Grantee, list_active_grantees, source_type_folder, source_type_doc}
use balvibot.Store.Docs.{Time, Doc, next_cycle_id, mark_unseen_stale, set_last_successful_sync}
use balvibot.DriveSync.{
  Stats, File, FileList, Drive, is_unchanged, stale, failed, exported, touched, compared, timed,
  process_doc, mime_doc, mime_folder,
}
use balvibot.DriveSync.Walk.{
  Walked, done, broken, out_of_fuel, go_on, and_then, ctx_err, walk_files, walk_page, walk_folder,
  direct_doc, sync_source, sync_sources, sync_grantee,
}
use balvibot.DriveSync.Run.{
  Report, finished, cut_short, unfinished, no_stats, sync_grantees, close_cycle, run_cycle, run,
}

-- Each folder within a folder, and each further page of one, has a smaller rank.
pub record IsFinite (drive : Drive) (rank : Str → Str → ℕ) : Type 0 where
  pub subfolders :
      (folder token : Str) (page : FileList)
      → drive.list_folder folder token ≡ ok page
      → All (λ f. eqs f.mime_type mime_folder ≡ true → rank f.id [] < rank folder token) page.files
  pub next_page :
      (folder token : Str) (page : FileList)
      → drive.list_folder folder token ≡ ok page
      → is_empty page.next_page_token ≡ false
      → rank folder page.next_page_token < rank folder token

abbrev Any : {A : Type 0} → A → Type 0
Any a = Unit

-- A walk that is not out of fuel.
abbrev pub IsEnd : Walked → Type 0
IsEnd (done s) = Unit
IsEnd (broken s e) = Unit
IsEnd out_of_fuel = ⊥

abbrev pub IsReport : Report → Type 0
IsReport (finished cycle s) = Unit
IsReport (cut_short cycle s e) = Unit
IsReport unfinished = ⊥

Ends-go_on :
    (next : Stats → Exec Walked)
    → ((s : Stats) → Returns IsEnd (next s))
    → (r : Walked) → IsEnd r
    → Returns IsEnd (go_on next r)
Ends-go_on next k (done s) i = k s
Ends-go_on next k (broken s e) i = k s
Ends-go_on next k out_of_fuel i = absurd i

Ends-and_then :
    (next : Stats → Exec Walked)
    → ((s : Stats) → Returns IsEnd (next s))
    → (r : Walked) → IsEnd r
    → Returns IsEnd (and_then next r)
Ends-and_then next k (done s) i = k s
Ends-and_then next k (broken s e) i = Returns-pure _ tt
Ends-and_then next k out_of_fuel i = absurd i

module _ (drive : Drive) (grantee_id : Str) (src : SourceRow) (cycle : ℕ) (f : File)
    (stats : Stats) where
  Returns-stale :
      (e : Error) (o : Option Doc) → Returns Any (stale drive grantee_id src cycle f stats e o)
  Returns-stale e none = Returns-pure _ tt
  Returns-stale e (some d) = Returns-or_else _ _ _ (λ _. Returns-pure _ tt) (λ _. Returns-pure _ tt)

  Returns-failed :
      (e : Error) (o : Option Doc) → Returns Any (failed drive grantee_id src cycle f stats e o)
  Returns-failed e none = Returns-pure _ tt
  Returns-failed e (some d) =
      Returns-or_else _ _ _ (λ _. Returns-pure _ tt) (λ _. Returns-pure _ tt)

  Returns-exported :
      (t : Time) (o : Option Doc) (r : Result Str)
      → Returns Any (exported drive grantee_id src cycle f stats t o r)
  unfolding exported
  Returns-exported t o (err e) =
      Returns-if (is_not_found_or_forbidden e) _ _ (λ _. Returns-stale e o)
        (λ _. Returns-failed e o)
  Returns-exported t o (ok markdown) =
      Returns-or_else _ _ _ (λ _. Returns-pure _ tt) (λ _. Returns-pure _ tt)

  Returns-compared :
      (t : Time) (o : Option Doc) → Returns Any (compared drive grantee_id src cycle f stats t o)
  unfolding compared touched
  Returns-compared t o =
      Returns-if (is_unchanged o t) _ _
        (λ _. Returns-or_else _ _ _ (λ _. Returns-pure _ tt) (λ _. Returns-pure _ tt))
        (λ _. Returns-exported t o (drive.export_markdown f.id))

  Returns-timed : (r : Result Time) → Returns Any (timed drive grantee_id src cycle f stats r)
  unfolding timed
  Returns-timed (err e) = Returns-pure _ tt
  Returns-timed (ok t) = Returns-or_else _ _ _ (λ _. Returns-pure _ tt) (Returns-compared t)

  -- processDoc never returns an error.
  Returns-process : Returns Any (process_doc drive grantee_id src cycle f stats)
  unfolding process_doc
  Returns-process =
      Returns-if (not (eqs f.mime_type mime_doc)) _ _ (λ _. Returns-pure _ tt)
        (λ _. Returns-timed (drive.parse_drive_time f.modified_time))

module _ (drive : Drive) (rank : Str → Str → ℕ) (tree : IsFinite drive rank) where
  module _ (grantee_id : Str) (cycle : ℕ) where
    files-IsEnd :
        (src : SourceRow) (n : ℕ) (enter : Str → Stats → Exec Walked)
        → ((id : Str) (s : Stats) → rank id [] < n → Returns IsEnd (enter id s))
        → (files : List File) (s : Stats)
        → All (λ f. eqs f.mime_type mime_folder ≡ true → rank f.id [] < n) files
        → Returns IsEnd (walk_files drive grantee_id cycle src enter files s)
    unfolding walk_files
    files-IsEnd src n enter ends [] s below = Returns-pure _ tt
    files-IsEnd src n enter ends (f ∷ files) s (b, below) =
        let rest = λ (s : Stats). files-IsEnd src n enter ends files s below in
        Returns-if (eqs f.mime_type mime_folder) _ _
          (λ h. Returns-bind IsEnd _ _ (ends f.id s (b h)) (Ends-go_on _ rest))
          (λ _.
            Returns-if (eqs f.mime_type mime_doc) _ _
              (λ _.
                Returns-bind Any _ _ (Returns-process drive grantee_id src cycle f s)
                  (λ s' _. rest s'))
              (λ _. rest s))

    page_ends :
        (src : SourceRow) (n : ℕ) (walk : Str → Str → Stats → Exec Walked)
        → ((id token : Str) (s : Stats) → rank id token < n → Returns IsEnd (walk id token s))
        → (folder token : Str) → rank folder token < suc n
        → (r : Result FileList) → drive.list_folder folder token ≡ r
        → (s : Stats) → Returns IsEnd (walk_page drive grantee_id cycle src walk folder r s)
    unfolding walk_page
    page_ends src n walk ends folder token lt (err e) q s = Returns-pure _ tt
    page_ends src n walk ends folder token lt (ok page) q s =
        Returns-bind IsEnd _ _
          (files-IsEnd src (rank folder token) (λ id. walk id [])
            (λ id s less. ends id [] s (omega (arith, less, lt))) page.files s
            (tree.subfolders folder token page q))
          (Ends-and_then _ λ s'.
            Returns-if (is_empty page.next_page_token) _ _ (λ _. Returns-pure _ tt)
              (λ h.
                ends folder page.next_page_token s'
                  (omega (arith, tree.next_page folder token page q h, lt))))

    folder_ends :
        (src : SourceRow) (fuel : ℕ) (folder token : Str) (s : Stats)
        → rank folder token < fuel
        → Returns IsEnd (walk_folder drive grantee_id cycle src fuel folder token s)
    unfolding walk_folder
    folder_ends src zero folder token s lt = absurd (omega (arith, lt))
    folder_ends src (suc fuel) folder token s lt =
        Returns-or_else _ _ _ (λ _. Returns-pure _ tt)
          λ _.
            page_ends src fuel (walk_folder drive grantee_id cycle src fuel) (folder_ends src fuel)
              folder token lt (drive.list_folder folder token) refl s

    direct_ends :
        (src : SourceRow) (r : Result File) (s : Stats)
        → Returns IsEnd (direct_doc drive grantee_id cycle src r s)
    unfolding direct_doc
    direct_ends src (err e) s = Returns-pure _ tt
    direct_ends src (ok f) s =
        Returns-bind Any _ _ (Returns-process drive grantee_id src cycle f s)
          (λ s' _. Returns-pure _ tt)

    module _ (fuel : ℕ) (enough : (folder : Str) → rank folder [] < fuel) where
      source_ends :
          (src : SourceRow) (s : Stats)
          → Returns IsEnd (sync_source drive grantee_id cycle fuel src s)
      unfolding sync_source
      source_ends src s =
          Returns-if (eqs src.source_type source_type_folder) _ _
            (λ _. folder_ends src fuel src.drive_id [] s (enough src.drive_id))
            (λ _.
              Returns-if (eqs src.source_type source_type_doc) _ _
                (λ _. direct_ends src (drive.get_file src.drive_id) s) (λ _. Returns-pure _ tt))

      sources-IsEnd :
          (srcs : List SourceRow) (s : Stats)
          → Returns IsEnd (sync_sources drive grantee_id cycle fuel srcs s)
      unfolding sync_sources
      sources-IsEnd [] s = Returns-pure _ tt
      sources-IsEnd (src ∷ srcs) s =
          Returns-or_else _ _ _ (λ _. Returns-pure _ tt)
            λ _. Returns-bind IsEnd _ _ (source_ends src s) (Ends-go_on _ (sources-IsEnd srcs))

      grantee_ends : (s : Stats) → Returns IsEnd (sync_grantee drive grantee_id cycle fuel s)
      unfolding sync_grantee
      grantee_ends s = Returns-or_else _ _ _ (λ _. Returns-pure _ tt) (λ srcs. sources-IsEnd srcs s)

  module _ (fuel : ℕ) (enough : (folder : Str) → rank folder [] < fuel) where
    grantees-IsEnd :
        (cycle : ℕ) (gs : List Grantee) (s : Stats)
        → Returns IsEnd (sync_grantees drive fuel cycle gs s)
    unfolding sync_grantees
    grantees-IsEnd cycle [] s = Returns-pure _ tt
    grantees-IsEnd cycle (g ∷ gs) s =
        Returns-or_else ctx_err _ _ (λ e. Returns-pure (broken s e) tt)
          λ _.
            Returns-bind IsEnd _ _ (grantee_ends g.grantee_id cycle fuel enough s)
              (Ends-go_on _ (grantees-IsEnd cycle gs))

    close_ends :
        (cycle : ℕ) (r : Walked) → IsEnd r → Returns IsReport (close_cycle drive fuel cycle r)
    unfolding close_cycle
    close_ends cycle (broken s e) i = Returns-pure _ tt
    close_ends cycle out_of_fuel i = absurd i
    close_ends cycle (done s) i =
        Returns-or_else (mark_unseen_stale cycle) _ _ (λ e. Returns-pure (cut_short cycle s _) tt)
          λ marked.
            Returns-or_else (now >>= set_last_successful_sync) _ _
              (λ e. Returns-pure (cut_short cycle _ _) tt) (λ _. Returns-pure (finished cycle _) tt)

    cycle_ends : (cycle : ℕ) → Returns IsReport (run_cycle drive fuel cycle)
    unfolding run_cycle
    cycle_ends cycle =
        Returns-or_else list_active_grantees _ _ (λ e. Returns-pure (cut_short cycle no_stats _) tt)
          λ gs. Returns-bind IsEnd _ _ (grantees-IsEnd cycle gs no_stats) (close_ends cycle)

report_ends :
    (m : Exec ℕ) (k : ℕ → Exec Report) (w : World)
    → ((a : ℕ) → Returns IsReport (k a))
    → ((m >>= k) w).0 ≢ ok unfinished
unfolding ◌>>=◌
report_ends m k w r h = after (m w) h
  where
    no_report : (o : Result Report) → IsOk IsReport o → o ≡ ok unfinished → ⊥
    no_report o i h = subst (IsOk IsReport) h i

    after : (x : Result ℕ × World) → (continue k x).0 ≡ ok unfinished → ⊥
    after (ok a, w') h = no_report _ ((r a).at w') h
    after (err e, w') h = cc

-- A cycle of the sync comes to its end, whatever statements fail and whenever it is cancelled, where
-- each folder in a folder of Drive and each further page of one has a smaller rank, and there is
-- more fuel than the rank of the first page of any folder.
pub run_ends :
    (drive : Drive) (rank : Str → Str → ℕ) (fuel : ℕ) (w : World)
    → IsFinite drive rank
    → ((folder : Str) → rank folder [] < fuel)
    → (run drive fuel w).0 ≢ ok unfinished
unfolding run
run_ends drive rank fuel w tree enough =
    report_ends (context (codes "bump cycle id: ") next_cycle_id) (run_cycle drive fuel) w
      (cycle_ends drive rank tree fuel enough)
