-- ===== src/DriveSync.antt =====
-- tools/api/internal/sync/sync.go, processDoc: one file of Drive against the documents.
pub mod Walk
pub mod Run
pub mod Keeps
pub mod Ends
pub mod Listed
pub mod Cycle
pub mod Visits
pub mod Whitelist
pub mod Fresh
pub mod Processed
pub mod Reaches
pub mod Complete
pub mod Refreshed
pub mod Subsecond
pub mod Isolation
use balvibot.Prelude.{
  ℕ, ◌+◌, Bool, true, false, not, ◌&&◌, Option, none, some, List, [], ◌∷◌, Str, codes, eqs,
  to_lower, trim_space, ◌==◌, if◌then◌else◌,
}
use balvibot.Errors.{Error, Result, ok, err, error_text, is_not_found, is_not_found_or_forbidden}
use balvibot.Store.Schema.{SourceRow}
use balvibot.Store.Exec.{Exec, pure, fail, or_else}
use balvibot.Store.Grantees.{status_active}
use balvibot.Store.Docs.{
  Time, at_second, Doc, get_doc_by_id, touch_doc_seen, mark_doc_stale, mark_doc_error, upsert_doc,
}

-- type Stats, its cycle id aside
pub record Stats : Type 0 where
  pub docs_synced : ℕ
  pub docs_unchanged : ℕ
  pub docs_skipped : ℕ
  pub docs_failed : ℕ
  pub docs_marked_stale : ℕ

-- type drive.File; `owner` is what PrimaryOwnerEmail returns
pub record File : Type 0 where
  pub id : Str
  pub name : Str
  pub mime_type : Str
  pub modified_time : Str
  pub owner : Str

abbrev pub mime_folder : Str
mime_folder = codes "application/vnd.google-apps.folder"

abbrev pub mime_doc : Str
mime_doc = codes "application/vnd.google-apps.document"

-- type drive.FileList
pub record FileList : Type 0 where
  pub files : List File
  pub next_page_token : Str

-- type DriveAPI, with parseDriveTime of package time's parser. Drive's answers do not change during
-- a cycle.
pub record Drive : Type 0 where
  pub list_folder : Str → Str → Result FileList
  pub get_file : Str → Result File
  pub export_markdown : Str → Result Str
  pub parse_drive_time : Str → Result Time

abbrev one_synced : Stats → Stats
one_synced s = record s { docs_synced = s.docs_synced + 1 }

abbrev one_unchanged : Stats → Stats
one_unchanged s = record s { docs_unchanged = s.docs_unchanged + 1 }

abbrev one_skipped : Stats → Stats
one_skipped s = record s { docs_skipped = s.docs_skipped + 1 }

abbrev one_failed : Stats → Stats
one_failed s = record s { docs_failed = s.docs_failed + 1 }

abbrev one_stale : Stats → Stats
one_stale s = record s { docs_marked_stale = s.docs_marked_stale + 1 }

-- time.Time.Equal
abbrev pub same_time : Time → Time → Bool
same_time a b = a.seconds == b.seconds && a.nanos == b.nanos

-- existing != nil && existing.ModifiedAt.Equal(modifiedAt)
abbrev pub is_unchanged : Option Doc → Time → Bool
is_unchanged none t = false
is_unchanged (some d) t = same_time d.modified_at t

-- detectImages
unfoldable pub detect_images : Str → Bool
detect_images [] = false
detect_images (a ∷ []) = false
detect_images (a ∷ b ∷ s) = if a == b'!' && b == b'[' then true else detect_images (b ∷ s)

-- GetDocByID, where a document that is not there is `none`
unfoldable pub existing_doc : Str → Exec (Option Doc)
unfolding or_else get_doc_by_id is_not_found
existing_doc id =
    or_else (get_doc_by_id id) (λ e. if is_not_found e then pure none else fail e)
      (λ d. pure (some d))

module _ (drive : Drive) (grantee_id : Str) (src : SourceRow) (cycle : ℕ) (f : File)
    (stats : Stats) where
  abbrev pub stale : Error → Option Doc → Exec Stats
  stale e none = pure (one_skipped stats)
  stale e (some d) =
      or_else (mark_doc_stale f.id (error_text e)) (λ _. pure (one_stale stats))
        (λ _. pure (one_stale stats))

  abbrev pub failed : Error → Option Doc → Exec Stats
  failed e none = pure (one_failed stats)
  failed e (some d) =
      or_else (mark_doc_error f.id (error_text e)) (λ _. pure (one_failed stats))
        (λ _. pure (one_failed stats))

  abbrev pub doc_of : Time → Str → Doc
  doc_of t markdown = record {
    doc_id = f.id;
    grantee_id = grantee_id;
    title = f.name;
    owner_email = to_lower (trim_space f.owner);
    content_markdown = markdown;
    modified_at = t;
    synced_at = at_second 0;
    source_type = src.source_type;
    source_drive_id = src.drive_id;
    had_images = detect_images markdown;
    had_comments = false;
    status = status_active;
    last_error = [];
  }

  -- What comes after the export.
  unfoldable pub exported : Time → Option Doc → Result Str → Exec Stats
  unfolding or_else mark_doc_stale mark_doc_error upsert_doc detect_images error_text
      is_not_found_or_forbidden
  exported t existing (err e) =
      if is_not_found_or_forbidden e then stale e existing else failed e existing
  exported t existing (ok markdown) =
      or_else (upsert_doc (doc_of t markdown) cycle) (λ _. pure (one_failed stats))
        (λ _. pure (one_synced stats))

  unfoldable pub touched : Exec Stats
  unfolding or_else touch_doc_seen
  touched =
      or_else (touch_doc_seen f.id cycle) (λ _. pure (one_failed stats))
        (λ _. pure (one_unchanged stats))

  -- The part that compares the time of the file with that of the document.
  unfoldable pub compared : Time → Option Doc → Exec Stats
  unfolding exported touched
  compared t existing =
      if is_unchanged existing t then touched else exported t existing (drive.export_markdown f.id)

  unfoldable pub timed : Result Time → Exec Stats
  unfolding or_else existing_doc compared
  timed (err e) = pure (one_failed stats)
  timed (ok t) = or_else (existing_doc f.id) (λ _. pure (one_failed stats)) (compared t)

  -- processDoc, which hands on the counters
  unfoldable pub process_doc : Exec Stats
  unfolding timed
  process_doc =
      if not (eqs f.mime_type mime_doc)
      then pure (one_skipped stats)
      else timed (drive.parse_drive_time f.modified_time)
