-- ===== src/DriveSync/Listed.antt =====
-- What a cycle of the sync may write: the documents that Drive lists for the sources of the active
-- grantees.
use balvibot.Prelude.{◌≡◌, true, false, IsIn, Str, eqs, is_empty, []}
use balvibot.Errors.{ok}
use balvibot.Store.Schema.{Db, GranteeRow, SourceRow}
use balvibot.Store.Grantees.{status_active, source_type_folder, source_type_doc}
use balvibot.DriveSync.{File, FileList, Drive, mime_doc, mime_folder}

-- A document on the page of a folder with a token, on a later page of it, or in a folder below it.
module _ (drive : Drive) where
  pub data Under : Str → Str → File → Type 0 where
    here :
        (folder token : Str) (page : FileList) (f : File)
        → drive.list_folder folder token ≡ ok page
        → IsIn f page.files
        → eqs f.mime_type mime_folder ≡ false
        → eqs f.mime_type mime_doc ≡ true
        → Under folder token f
    below :
        (folder token : Str) (page : FileList) (g f : File)
        → drive.list_folder folder token ≡ ok page
        → IsIn g page.files
        → eqs g.mime_type mime_folder ≡ true
        → Under g.id [] f
        → Under folder token f
    later :
        (folder token : Str) (page : FileList) (f : File)
        → drive.list_folder folder token ≡ ok page
        → is_empty page.next_page_token ≡ false
        → Under folder page.next_page_token f
        → Under folder token f

-- A source of an active grantee.
pub record IsAllowed (db : Db) (src : SourceRow) : Type 0 where
  pub grantee : GranteeRow
  pub known : IsIn grantee db.grantees
  pub active : eqs grantee.status status_active ≡ true
  pub source : IsIn src db.sources
  pub owned : eqs src.grantee_id grantee.grantee_id ≡ true

-- Drive lists the document for a source of an active grantee: it is in the folder of the source or
-- below it, or it is the source.
module _ (drive : Drive) (db : Db) where
  pub data IsListed : File → Type 0 where
    in_folder :
        (src : SourceRow) (f : File)
        → IsAllowed db src
        → eqs src.source_type source_type_folder ≡ true
        → Under drive src.drive_id [] f
        → IsListed f
    by_id :
        (src : SourceRow) (f : File)
        → IsAllowed db src
        → eqs src.source_type source_type_folder ≡ false
        → eqs src.source_type source_type_doc ≡ true
        → drive.get_file src.drive_id ≡ ok f
        → eqs f.mime_type mime_doc ≡ true
        → IsListed f

  -- The id of a document that is listed.
  abbrev pub IsListedId : Str → Type 0
  IsListedId id = (f : File) × IsListed f × (f.id ≡ id)
