-- ===== src/Examples/Cycles.antt =====
-- The theorems on the cycles of the Drive sync at a folder with a folder in it and two pages.
use mathlib.Core.Path.{subst}
use balvibot.Prelude.{
  sort_rows, where_rows, find_row, count_rows, update_rows, ℕ, ◌<◌, ◌≡◌, ◌≢◌, refl, sym, inl, IsIn,
  IsIn-All, Bool, true, false, none, some, [], ◌∷◌, All, Str, codes, eqs, is_empty, any_row,
  to_lower, trim_space, arith,
}
use balvibot.Errors.{Result, ok, is_no_rows}
use balvibot.Store.Schema.{SourceRow, GranteeRow, DocRow}
use balvibot.Store.Exec.{World}
use balvibot.Store.Reads.{calm}
use balvibot.DriveSync.{Stats, File, FileList, Drive}
use balvibot.DriveSync.Run.{finished, unfinished, run}
use balvibot.DriveSync.Listed.{Under, here, below, later, IsListed, IsListedId, in_folder, by_id}
use balvibot.DriveSync.Ends.{IsFinite, run_ends}
use balvibot.DriveSync.Whitelist.{active_is_listed}
use balvibot.DriveSync.Fresh.{is_fresh}
use balvibot.DriveSync.Reaches.{Delivers}
use balvibot.DriveSync.Refreshed.{listed_is_fresh}
use balvibot.Examples.{test_db, world_of}

abbrev sub_folder : File
sub_folder = record {
  id = codes "sub";
  name = codes "Years";
  mime_type = codes "application/vnd.google-apps.folder";
  modified_time = [];
  owner = [];
}

abbrev plan : File
plan = record {
  id = codes "d1";
  name = codes "Plan";
  mime_type = codes "application/vnd.google-apps.document";
  modified_time = codes "2024-01-02T03:04:05Z";
  owner = codes "Bob@example.org";
}

-- The pages of the folder `root`, and of any other.
abbrev tree_page : Bool → Bool → FileList
tree_page true true = record { files = sub_folder ∷ []; next_page_token = codes "p2" }
tree_page true false = record { files = []; next_page_token = [] }
tree_page false b = record { files = plan ∷ []; next_page_token = [] }

abbrev tree_drive : Drive
tree_drive = record {
  list_folder = λ folder token. ok (tree_page (eqs folder (codes "root")) (is_empty token));
  get_file = λ id. ok plan;
  export_markdown = λ id. ok (codes "# Plan");
  parse_drive_time = λ s. ok (record { seconds = 1704164645; nanos = 0 });
}

abbrev rank_of : Bool → Bool → ℕ
rank_of true true = 2
rank_of true false = 1
rank_of false b = 0

abbrev rank : Str → Str → ℕ
rank folder token = rank_of (eqs folder (codes "root")) (is_empty token)

same_page : (p q : FileList) → ◌≡◌ {A = Result FileList} (ok p) (ok q) → p ≡ q
same_page p q e = cc

lower_files :
    (b c : Bool)
    → All
        (λ f.
          eqs f.mime_type (codes "application/vnd.google-apps.folder") ≡ true
          → rank f.id [] < rank_of b c)
        (tree_page b c).files
unfolding eqs
lower_files true true = (λ e. omega arith, tt)
lower_files true false = tt
lower_files false b = (λ e. absurd (not_true e), tt)
  where
    not_true : false ≡ true → ⊥
    not_true h = cc

lower_page :
    (folder token : Str) (b c : Bool)
    → eqs folder (codes "root") ≡ b
    → is_empty (tree_page b c).next_page_token ≡ false
    → rank folder (tree_page b c).next_page_token < rank_of b c
lower_page folder token true true e n = rw e (omega arith)
lower_page folder token true false e n = cc
lower_page folder token false b e n = cc

tree_IsFinite : IsFinite tree_drive rank
tree_IsFinite = record {
  subfolders = λ folder token page q.
      subst
        (λ (p : FileList).
          All
            (λ f.
              eqs f.mime_type (codes "application/vnd.google-apps.folder") ≡ true
              → rank f.id [] < rank folder token)
            p.files)
        (same_page _ page q) (lower_files (eqs folder (codes "root")) (is_empty token));
  next_page = λ folder token page q n.
      let e = same_page (tree_page (eqs folder (codes "root")) (is_empty token)) page q in
      subst (λ (p : FileList). rank folder p.next_page_token < rank folder token) e
        (lower_page folder token (eqs folder (codes "root")) (is_empty token) refl
          (subst (λ (p : FileList). is_empty p.next_page_token ≡ false) (sym e) n));
}

rank_below : (folder : Str) → rank folder [] < 3
rank_below folder = below_three (eqs folder (codes "root"))
  where
    below_three : (b : Bool) → rank_of b true < 3
    below_three true = omega arith
    below_three false = omega arith

abbrev root : SourceRow
root = record {
  id = 1;
  grantee_id = codes "acme";
  source_type = codes "folder";
  drive_id = codes "root";
  added_at = 4;
}

abbrev acme : GranteeRow
acme = record {
  grantee_id = codes "acme";
  display_name = none;
  status = codes "active";
  created_at = 3;
}

abbrev tree_world : World
tree_world = world_of (record test_db { grantees = acme ∷ []; sources = root ∷ []; docs = [] })

run_ends_example : (run tree_drive 3 tree_world).0 ≢ ok unfinished
run_ends_example = run_ends tree_drive rank 3 tree_world tree_IsFinite rank_below

tree_ids : (b c : Bool) → All (λ (f : File). is_empty f.id ≡ false) (tree_page b c).files
tree_ids true true = (refl, tt)
tree_ids true false = tt
tree_ids false b = (refl, tt)

page_ids :
    (folder token : Str) (page : FileList) (f : File)
    → tree_drive.list_folder folder token ≡ ok page
    → IsIn f page.files
    → is_empty f.id ≡ false
page_ids folder token page f q m =
    IsIn-All (λ (f : File). is_empty f.id ≡ false) f page.files
      (subst (λ (p : FileList). All (λ (f : File). is_empty f.id ≡ false) p.files)
        (same_page _ page q) (tree_ids (eqs folder (codes "root")) (is_empty token)))
      m

Under-ids :
    {folder token : Str} {f : File} → Under tree_drive folder token f → is_empty f.id ≡ false
Under-ids (here folder token page f q m n d) = page_ids folder token page f q m
Under-ids (below folder token page g f q m d u) = Under-ids u
Under-ids (later folder token page f q n u) = Under-ids u

same_file : (f g : File) → ◌≡◌ {A = Result File} (ok f) (ok g) → f ≡ g
same_file f g e = cc

listed_ids : {f : File} → IsListed tree_drive tree_world.db f → is_empty f.id ≡ false
listed_ids (in_folder src f a t u) = Under-ids u
listed_ids (by_id src f a n d q m) =
    subst (λ (f : File). is_empty f.id ≡ false) (same_file plan f q) refl

tree_Delivers : Delivers tree_drive tree_world.db
tree_Delivers = record {
  time = λ f l. (record { seconds = 1704164645; nanos = 0 }, refl);
  markdown = λ f l. (codes "# Plan", refl);
  named = λ f l. listed_ids l;
}

plan-IsListed : IsListed tree_drive tree_world.db plan
unfolding eqs
plan-IsListed =
    in_folder root plan
      (record { grantee = acme; known = inl refl; active = refl; source = inl refl; owned = refl })
      refl
      (below (codes "root") [] (tree_page true true) sub_folder plan refl (inl refl) refl
        (here (codes "sub") [] (tree_page false true) plan refl (inl refl) refl refl))

listed_is_fresh_example :
    (s : Stats) × (w' : World) × (run tree_drive 3 (calm tree_world) ≡ (ok (finished 1 s), w'))
    × (any_row (is_fresh 1 (codes "d1")) w'.db.docs ≡ true)
listed_is_fresh_example =
    listed_is_fresh tree_drive rank 3 tree_world plan tree_IsFinite rank_below tree_Delivers
      (refl, tt) plan-IsListed

abbrev plan_row : DocRow
plan_row = record {
  doc_id = codes "d1";
  grantee_id = codes "acme";
  title = codes "Plan";
  owner_email = codes "bob@example.org";
  content_markdown = codes "# Plan";
  modified_at = 1704164645;
  synced_at = 1000;
  source_type = codes "folder";
  source_drive_id = codes "root";
  had_images = false;
  had_comments = false;
  status = codes "active";
  last_error = none;
  last_seen_cycle = some 1;
}

abbrev tree_after : World
tree_after = world_of (record (tree_world.db) {
  docs = plan_row ∷ [];
  sync_state = record { cycle_counter = some 1; last_successful_sync = some 1000 };
})

abbrev one_doc : Stats
one_doc = record {
  docs_synced = 1;
  docs_unchanged = 0;
  docs_skipped = 0;
  docs_failed = 0;
  docs_marked_stale = 0;
}

tree_run : run tree_drive 3 tree_world ≡ (ok (finished 1 one_doc), tree_after)
unfolding run sort_rows where_rows eqs find_row is_no_rows any_row count_rows update_rows to_lower
    trim_space
tree_run = refl

active_is_listed_example :
    (plan_row.last_seen_cycle ≡ some 1) × IsListedId tree_drive tree_world.db plan_row.doc_id
unfolding any_row eqs
active_is_listed_example =
    active_is_listed tree_drive 3 tree_world tree_after 1 one_doc plan_row tt tree_run (inl refl)
      refl refl refl
