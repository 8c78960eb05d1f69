-- ===== src/DriveSync/Reaches.antt =====
-- While the database answers, the walk of a folder makes every document in it fresh.
use mathlib.Core.Path.{subst}
use balvibot.Prelude.{
  ℕ, zero, suc, ◌<◌, ◌≡◌, refl, sym, ◌∙◌, ◌⊎◌, inl, inr, Bool, true, false, List, [], ◌∷◌, All,
  IsIn, Str, eqs, is_empty, arith,
}
use balvibot.Errors.{Error, Result, ok, err}
use balvibot.Store.Schema.{Db, SourceRow}
use balvibot.Store.Exec.{Exec}
use balvibot.Store.Calmly.{
  Calmly, Calmly-pure, Calmly-given, Calmly-weaken, Calmly-from, Calmly-if, Calmly-bind,
  Calmly-or_else, Calmly-ping,
}
use balvibot.Store.Docs.{Time}
use balvibot.Store.Grantees.{has_grantee}
use balvibot.DriveSync.{Stats, File, FileList, Drive, mime_doc, mime_folder, process_doc}
use balvibot.DriveSync.Walk.{
  Walked, done, broken, out_of_fuel, go_on, and_then, ctx_err, walk_files, walk_page, walk_folder,
}
use balvibot.DriveSync.Listed.{Under, here, below, later, IsListed}
use balvibot.DriveSync.Visits.{IsOpen}
use balvibot.DriveSync.Ends.{IsFinite, IsEnd}
use balvibot.DriveSync.Fresh.{Here, With, Here-narrow}
use balvibot.DriveSync.Processed.{Calmly-process}

-- Drive exports each document that it lists, with a name and a time that the sync reads.
pub record Delivers (drive : Drive) (db : Db) : Type 0 where
  pub time :
      (f : File)
      → IsListed drive db f
      → (t : Time) × (drive.parse_drive_time f.modified_time ≡ ok t)
  pub markdown :
      (f : File) → IsListed drive db f → (text : Str) × (drive.export_markdown f.id ≡ ok text)
  pub named : (f : File) → IsListed drive db f → is_empty f.id ≡ false

abbrev pub Also : (Str → Type 0) → (Str → Type 0) → Str → Type 0
Also K V id = K id ⊎ V id

abbrev pub IsDone : Walked → Type 0
IsDone (done s) = Unit
IsDone (broken s e) = ⊥
IsDone out_of_fuel = ⊥

is_page : (p q : FileList) → ◌≡◌ {A = Result FileList} (ok p) (ok q) → p ≡ q
is_page p q e = cc

ok_or_err : (p : FileList) (e : Error) → ◌≡◌ {A = Result FileList} (ok p) (err e) → ⊥
ok_or_err p e h = cc

pub not_both : (b : Bool) → b ≡ true → b ≡ false → ⊥
not_both true t f = cc
not_both false t f = cc

module _ (drive : Drive) where
  -- The ids of the documents from the page of a folder with the token on.
  abbrev pub InFolder : Str → Str → Str → Type 0
  InFolder folder token id = (f : File) × Under drive folder token f × (f.id ≡ id)

  -- The ids of the documents that a file on a page stands for.
  abbrev InFile : File → Str → Type 0
  InFile f id =
      ((eqs f.mime_type mime_folder ≡ true) × InFolder f.id [] id)
      ⊎ ((eqs f.mime_type mime_folder ≡ false) × (eqs f.mime_type mime_doc ≡ true) × (f.id ≡ id))

  abbrev InFiles : List File → Str → Type 0
  InFiles [] id = ⊥
  InFiles (f ∷ files) id = InFile f id ⊎ InFiles files id

  one_of : (f : File) (files : List File) (id : Str) → IsIn f files → InFile f id → InFiles files id
  one_of f [] id m i = m
  one_of f (g ∷ files) id (inl e) i = inl (subst (λ g. InFile g id) e i)
  one_of f (g ∷ files) id (inr m) i = inr (one_of f files id m i)

  -- Where a document from the page on stands.
  page_or_later :
      {folder token : Str} {f : File} (page : FileList)
      → drive.list_folder folder token ≡ ok page
      → Under drive folder token f
      → InFiles page.files f.id
        ⊎ ((is_empty page.next_page_token ≡ false) × InFolder folder page.next_page_token f.id)
  page_or_later page q (here folder token page' f q' m n d) =
      let e = is_page page' page (sym q' ∙ q) in
      inl
        (one_of f page.files f.id (subst (λ (p : FileList). IsIn f p.files) e m) (inr (n, d, refl)))
  page_or_later page q (below folder token page' g f q' m d u) =
      let e = is_page page' page (sym q' ∙ q) in
      inl (
        one_of g page.files f.id (subst (λ (p : FileList). IsIn g p.files) e m)
          (inl (d, (f, u, refl))))
  page_or_later page q (later folder token page' f q' n u) =
      let e = is_page page' page (sym q' ∙ q) in
      inr (
        subst (λ (p : FileList). is_empty p.next_page_token ≡ false) e n,
        (f, subst (λ (p : FileList). Under drive folder p.next_page_token f) e u, refl),
      )

  no_page :
      {folder token : Str} {f : File} (e : Error)
      → drive.list_folder folder token ≡ err e
      → Under drive folder token f
      → ⊥
  no_page e q (here folder token page f q' m n d) = ok_or_err page e (sym q' ∙ q)
  no_page e q (below folder token page g f q' m d u) = ok_or_err page e (sym q' ∙ q)
  no_page e q (later folder token page f q' n u) = ok_or_err page e (sym q' ∙ q)

module _ (drive : Drive) (old : Db) (cycle : ℕ) (delivers : Delivers drive old) (grantee_id : Str)
    (owned : is_empty grantee_id ≡ false) (known : has_grantee grantee_id old ≡ true)
    (src : SourceRow) where
  abbrev pub At : (Str → Type 0) → Db → Type 0
  At = Here old cycle

  abbrev pub Makes : (Walked → Type 0) → (Str → Type 0) → Walked → Db → Type 0
  Makes How K r db = How r × Here old cycle K db

  pub Calmly-document :
      (K : Str → Type 0) (f : File) (s : Stats)
      → IsListed drive old f
      → eqs f.mime_type mime_doc ≡ true
      → Calmly (At K) (λ s. At (With old cycle K f.id)) (process_doc drive grantee_id src cycle f s)
  Calmly-document K f s listed mime =
      let (t, time) = delivers.time f listed in
      let (text, export) = delivers.markdown f listed in
      Calmly-process drive grantee_id src cycle f s old K (delivers.named f listed) owned known t
        text mime time export

  pub Calmly-go_on :
      (K L : Str → Type 0) (next : Stats → Exec Walked)
      → ((s : Stats) → Calmly (At K) (Makes IsDone L) (next s))
      → (r : Walked) → Calmly (Makes IsEnd K r) (Makes IsDone L) (go_on next r)
  Calmly-go_on K L next k (done s) = Calmly-from (At K) _ _ (k s) (λ db p. p.1)
  Calmly-go_on K L next k (broken s e) = Calmly-from (At K) _ _ (k s) (λ db p. p.1)
  Calmly-go_on K L next k out_of_fuel = Calmly-given _ _ (λ db p. absurd p.0)

  Calmly-and_then :
      (K L : Str → Type 0) (next : Stats → Exec Walked)
      → ((s : Stats) → Calmly (At K) (Makes IsEnd L) (next s))
      → (r : Walked) → Calmly (Makes IsDone K r) (Makes IsEnd L) (and_then next r)
  Calmly-and_then K L next k (done s) = Calmly-from (At K) _ _ (k s) (λ db p. p.1)
  Calmly-and_then K L next k (broken s e) = Calmly-given _ _ (λ db p. absurd p.0)
  Calmly-and_then K L next k out_of_fuel = Calmly-given _ _ (λ db p. absurd p.0)

  -- A walk of the pages of a folder.
  abbrev pub Reaches : Str → Str → Exec Walked → Type 1
  Reaches folder token m =
      (K : Str → Type 0)
      → Calmly (Here old cycle K) (Makes IsEnd (Also K (InFolder drive folder token))) m

  Calmly-files :
      (n : ℕ) (rank : Str → ℕ) (enter : Str → Stats → Exec Walked)
      → ((id : Str) (s : Stats) → rank id < n → IsOpen drive old id [] → Reaches id [] (enter id s))
      → (files : List File)
      → ((f : File)
          → IsIn f files
          → (eqs f.mime_type mime_folder ≡ false
              → eqs f.mime_type mime_doc ≡ true
              → IsListed drive old f)
            × (eqs f.mime_type mime_folder ≡ true → IsOpen drive old f.id []))
      → All (λ f. eqs f.mime_type mime_folder ≡ true → rank f.id < n) files
      → (K : Str → Type 0) (s : Stats)
      → Calmly
          (At K)
          (Makes IsDone (Also K (InFiles drive files)))
          (walk_files drive grantee_id cycle src enter files s)
  unfolding walk_files
  Calmly-files n rank enter reach [] oks below_n K s = Calmly-pure _ _ (λ db p.
      (tt, Here-narrow old cycle K _ db (λ id v. elim v [ inl k ↦ k | inr h ↦ absurd h ]) p))
  Calmly-files n rank enter reach (f ∷ files) oks (b, below_n) K s =
      let L = Also K (InFiles drive (f ∷ files)) in
      let (doc, folder) = oks f (inl refl) in
      let rest = Calmly-files n rank enter reach files (λ g m. oks g (inr m)) below_n in
      Calmly-if (Makes IsDone L) (eqs f.mime_type mime_folder) _ _
        (λ e.
          let K' = Also K (InFolder drive f.id []) in
          Calmly-bind (Makes IsEnd K') (Makes IsDone L) (enter f.id s) _
            (reach f.id s (b e) (folder e) K)
            (Calmly-go_on K' L _ λ s'.
              Calmly-weaken _ _ _ (rest K' s')
                λ r db p. (p.0, Here-narrow old cycle _ L db (entered e) p.1)))
        (λ n.
          Calmly-if (Makes IsDone L) (eqs f.mime_type mime_doc) _ _
            (λ e.
              let K' = With old cycle K f.id in
              Calmly-bind (λ _. At K') (Makes IsDone L) _ _ (Calmly-document K f s (doc n e) e)
                (λ s'.
                  Calmly-weaken _ _ _ (rest K' s')
                    λ r db p. (p.0, Here-narrow old cycle _ L db (written n) p.1)))
            (λ e.
              Calmly-weaken _ _ _ (rest K s)
                λ r db p. (p.0, Here-narrow old cycle _ L db (skipped n e) p.1)))
    where
      entered :
          eqs f.mime_type mime_folder ≡ true
          → (id : Str) → Also K (InFiles drive (f ∷ files)) id
          → Also (Also K (InFolder drive f.id [])) (InFiles drive files) id
      entered e id (inl k) = inl (inl k)
      entered e id (inr (inl (inl (d, u)))) = inl (inr u)
      entered e id (inr (inl (inr (n, d, q)))) = absurd (not_both _ e n)
      entered e id (inr (inr v)) = inr v

      written :
          eqs f.mime_type mime_folder ≡ false
          → (id : Str) → Also K (InFiles drive (f ∷ files)) id
          → Also (With old cycle K f.id) (InFiles drive files) id
      written n id (inl k) = inl (inl k)
      written n id (inr (inl (inl (d, u)))) = absurd (not_both _ d n)
      written n id (inr (inl (inr (m, d, e)))) = inl (inr e)
      written n id (inr (inr v)) = inr v

      skipped :
          eqs f.mime_type mime_folder ≡ false
          → eqs f.mime_type mime_doc ≡ false
          → (id : Str) → Also K (InFiles drive (f ∷ files)) id
          → Also K (InFiles drive files) id
      skipped n e id (inl k) = inl k
      skipped n e id (inr (inl (inl (d, u)))) = absurd (not_both _ d n)
      skipped n e id (inr (inl (inr (m, d, q)))) = absurd (not_both _ d e)
      skipped n e id (inr (inr v)) = inr v

  module _ (rank : Str → Str → ℕ) (tree : IsFinite drive rank) where
    Calmly-page :
        (n : ℕ) (walk : Str → Str → Stats → Exec Walked)
        → ((id token : Str) (s : Stats)
            → rank id token < n
            → IsOpen drive old id token
            → Reaches id token (walk id token s))
        → (folder token : Str) → rank folder token < suc n
        → IsOpen drive old folder token
        → (r : Result FileList) → drive.list_folder folder token ≡ r
        → (s : Stats) → Reaches folder token (walk_page drive grantee_id cycle src walk folder r s)
    unfolding walk_page
    Calmly-page n walk reach folder token lt open_ (err e) q s K = Calmly-pure _ _ λ db p. (
      tt,
      Here-narrow old cycle K _ db
          (λ id v. elim v [ inl k ↦ k | inr (f, u, same) ↦ absurd (no_page drive e q u) ]) p,
    )
    Calmly-page n walk reach folder token lt open_ (ok page) q s K =
        let K' = Also K (InFiles drive page.files) in
        let L = Also K (InFolder drive folder token) in
        Calmly-bind (Makes IsDone K') (Makes IsEnd L) _ _
          (Calmly-files (rank folder token) (λ id. rank id []) (λ id. walk id [])
            (λ id s less o. reach id [] s (omega (arith, less, lt)) o) page.files
            (λ f m. (
              λ nf e. open_ f (here folder token page f q m nf e),
              λ e g u. open_ g (below folder token page f g q m e u),
            ))
            (tree.subfolders folder token page q) K s)
          (Calmly-and_then K' L _ λ s'.
            Calmly-if (Makes IsEnd L) (is_empty page.next_page_token) _ _
              (λ e. Calmly-pure _ _ λ db p. (tt, Here-narrow old cycle K' L db (on_page e) p))
              (λ e.
                Calmly-weaken _ _ _
                  (reach folder page.next_page_token s'
                    (omega (arith, tree.next_page folder token page q e, lt))
                    (λ f u. open_ f (later folder token page f q e u)) K')
                  λ r db p. (p.0, Here-narrow old cycle _ L db from_page p.1)))
      where
        on_page :
            is_empty page.next_page_token ≡ true
            → (id : Str) → Also K (InFolder drive folder token) id
            → Also K (InFiles drive page.files) id
        on_page e id (inl k) = inl k
        on_page e id (inr (f, u, same)) = elim (page_or_later drive page q u) [
          | inl v ↦ inr (subst (InFiles drive page.files) same v)
          | inr (n, v) ↦ absurd (not_both _ e n)
        ]

        from_page :
            (id : Str)
            → Also K (InFolder drive folder token) id
            → Also
                (Also K (InFiles drive page.files))
                (InFolder drive folder page.next_page_token)
                id
        from_page id (inl k) = inl (inl k)
        from_page id (inr (f, u, same)) = elim (page_or_later drive page q u) [
          | inl v ↦ inl (inr (subst (InFiles drive page.files) same v))
          | inr (n, (g, u', e)) ↦ inr (g, u', e ∙ same)
        ]

    pub Calmly-folder :
        (fuel : ℕ) (folder token : Str) (s : Stats)
        → rank folder token < fuel
        → IsOpen drive old folder token
        → Reaches folder token (walk_folder drive grantee_id cycle src fuel folder token s)
    unfolding walk_folder
    Calmly-folder zero folder token s lt open_ K = absurd (omega (arith, lt))
    Calmly-folder (suc fuel) folder token s lt open_ K =
        Calmly-or_else (λ _. At K) _ ctx_err _ _ Calmly-ping
          λ _.
            Calmly-page fuel (walk_folder drive grantee_id cycle src fuel) (Calmly-folder fuel)
              folder token lt open_ (drive.list_folder folder token) refl s K
