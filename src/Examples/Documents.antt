-- ===== src/Examples/Documents.antt =====
-- The theorems on the Drive sync at an example.
use balvibot.Prelude.{ℕ, ◌≡◌, ◌≢◌, refl, false, none, some, [], ◌∷◌, codes, arith}
use balvibot.Errors.{ok}
use balvibot.Store.Schema.{SourceRow, DocRow}
use balvibot.Store.Exec.{World}
use balvibot.DriveSync.{Stats, File, Drive, process_doc}
use balvibot.DriveSync.Subsecond.{subsecond_never_unchanged}
use balvibot.DriveSync.Isolation.{OthersKept, process_doc-OthersKept}
use balvibot.Examples.{test_db, world_of}

abbrev report : File
report = record {
  id = codes "d1";
  name = codes "Report";
  mime_type = codes "application/vnd.google-apps.document";
  modified_time = codes "2024-01-02T03:04:05.678Z";
  owner = codes "Bob@example.org";
}

-- Every file was modified 678 milliseconds after a full second.
abbrev test_drive : Drive
test_drive = record {
  list_folder = λ folder token. ok (record { files = []; next_page_token = [] });
  get_file = λ id. ok report;
  export_markdown = λ id. ok (codes "# Report");
  parse_drive_time = λ s. ok (record { seconds = 1704164645; nanos = 678000000 });
}

abbrev pub source : SourceRow
source = record {
  id = 1;
  grantee_id = codes "acme";
  source_type = codes "doc";
  drive_id = codes "d1";
  added_at = 4;
}

-- The document as the cycle before has stored it.
abbrev pub stored : DocRow
stored = record {
  doc_id = codes "d1";
  grantee_id = codes "acme";
  title = codes "Report";
  owner_email = codes "bob@example.org";
  content_markdown = codes "# Report";
  modified_at = 1704164645;
  synced_at = 900;
  source_type = codes "doc";
  source_drive_id = codes "d1";
  had_images = false;
  had_comments = false;
  status = codes "active";
  last_error = none;
  last_seen_cycle = some 6;
}

abbrev pub docs_world : World
docs_world = world_of (record test_db {
  grantees =
      record {
        grantee_id = codes "acme";
        display_name = none;
        status = codes "active";
        created_at = 3;
      }
      ∷ [];
  sources = source ∷ [];
  docs = stored ∷ [];
})

abbrev no_stats : Stats
no_stats = record {
  docs_synced = 0;
  docs_unchanged = 0;
  docs_skipped = 0;
  docs_failed = 0;
  docs_marked_stale = 0;
}

abbrev millis : ℕ
millis = 678000000

has_millis : millis ≢ 0
has_millis e = omega (arith, e)

subsecond_never_unchanged_example :
    (s : Stats) × (w' : World) × (process_doc test_drive
        (codes "acme")
        source
        7
        report
        no_stats
        docs_world
      ≡ (ok s, w'))
    × (s.docs_unchanged ≡ 0)
subsecond_never_unchanged_example =
    subsecond_never_unchanged test_drive (codes "acme") source 7 report no_stats
      (record { seconds = 1704164645; nanos = 678000000 }) docs_world refl has_millis

process_doc-OthersKept_example :
    OthersKept
      (codes "d1")
      docs_world.db
      (process_doc test_drive (codes "acme") source 7 report no_stats docs_world).1.db
process_doc-OthersKept_example =
    process_doc-OthersKept test_drive (codes "acme") source 7 report no_stats docs_world
