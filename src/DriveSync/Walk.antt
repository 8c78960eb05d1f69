-- ===== src/DriveSync/Walk.antt =====
-- tools/api/internal/sync/sync.go, walkFolder and syncGrantee: the files of a source.
use balvibot.Prelude.{ℕ, zero, suc, List, [], ◌∷◌, ◌++◌, Str, codes, eqs, is_empty, if◌then◌else◌}
use balvibot.Errors.{Error, Result, ok, err, wrap}
use balvibot.Store.Schema.{SourceRow}
use balvibot.Store.Exec.{Exec, pure, or_else, ping, ◌>>=◌}
use balvibot.Store.Grantees.{source_type_folder, source_type_doc}
use balvibot.Store.Sources.{list_sources_for_grantee}
use balvibot.DriveSync.{Stats, File, FileList, Drive, mime_folder, mime_doc, process_doc}

-- ctx.Err(): like a statement, it fails where the list of outages says so.
abbrev pub ctx_err : Exec (Unit {0})
ctx_err = ping

-- How a walk ends: with the counters, and with an error or without. The walk of the code may go on
-- for ever, where the one here is `out_of_fuel`.
pub data Walked : Type 0 where
  done : Stats → Walked
  broken : Stats → Error → Walked
  out_of_fuel : Walked

-- The error of a part is logged, and what comes next goes on with the counters.
abbrev pub go_on : (Stats → Exec Walked) → Walked → Exec Walked
go_on next (done s) = next s
go_on next (broken s e) = next s
go_on next out_of_fuel = pure out_of_fuel

-- What comes after a part that must not fail.
abbrev pub and_then : (Stats → Exec Walked) → Walked → Exec Walked
and_then next (done s) = next s
and_then next (broken s e) = pure (broken s e)
and_then next out_of_fuel = pure out_of_fuel

module _ (drive : Drive) (grantee_id : Str) (cycle : ℕ) where
  module _ (src : SourceRow) where
    -- The files of one page, where `enter` walks a folder.
    unfoldable pub walk_files : (Str → Stats → Exec Walked) → List File → Stats → Exec Walked
    unfolding ◌>>=◌ process_doc
    walk_files enter [] s = pure (done s)
    walk_files enter (f ∷ files) s =
        let rest = walk_files enter files in
        if eqs f.mime_type mime_folder
        then enter f.id s >>= go_on rest
        else if eqs f.mime_type mime_doc
        then process_doc drive grantee_id src cycle f s >>= rest
        else rest s

    -- One page, where `walk` walks the page of a folder with a token.
    unfoldable pub walk_page :
        (Str → Str → Stats → Exec Walked) → Str → Result FileList → Stats → Exec Walked
    unfolding ◌>>=◌ walk_files
    walk_page walk folder (err e) s =
        pure (broken s (wrap (codes "list folder " ++ (folder ++ codes ": ")) e []))
    walk_page walk folder (ok page) s =
        walk_files (λ id. walk id []) page.files s
        >>= and_then λ s'.
          if is_empty page.next_page_token
          then pure (done s')
          else walk folder page.next_page_token s'

    -- walkFolder, from the page with a token on; each page and each level of folders takes fuel.
    unfoldable pub walk_folder : ℕ → Str → Str → Stats → Exec Walked
    unfolding or_else walk_page
    walk_folder zero folder token s = pure out_of_fuel
    walk_folder (suc fuel) folder token s =
        or_else ctx_err (λ e. pure (broken s e))
          λ _. walk_page (walk_folder fuel) folder (drive.list_folder folder token) s

  -- The document of a source of type doc, as GetFile found it.
  unfoldable pub direct_doc : SourceRow → Result File → Stats → Exec Walked
  unfolding ◌>>=◌ process_doc
  direct_doc src (err e) s = pure (done s)
  direct_doc src (ok f) s = process_doc drive grantee_id src cycle f s >>= λ s'. pure (done s')

  -- The body of the loop of syncGrantee.
  unfoldable pub sync_source : ℕ → SourceRow → Stats → Exec Walked
  unfolding walk_folder direct_doc
  sync_source fuel src s =
      if eqs src.source_type source_type_folder
      then walk_folder src fuel src.drive_id [] s
      else if eqs src.source_type source_type_doc
      then direct_doc src (drive.get_file src.drive_id) s
      else pure (done s)

  unfoldable pub sync_sources : ℕ → List SourceRow → Stats → Exec Walked
  unfolding ◌>>=◌ or_else sync_source
  sync_sources fuel [] s = pure (done s)
  sync_sources fuel (src ∷ srcs) s =
      or_else ctx_err (λ e. pure (broken s e))
        λ _. sync_source fuel src s >>= go_on (sync_sources fuel srcs)

  -- syncGrantee
  unfoldable pub sync_grantee : ℕ → Stats → Exec Walked
  unfolding or_else list_sources_for_grantee sync_sources
  sync_grantee fuel s =
      or_else (list_sources_for_grantee grantee_id)
        (λ e. pure (broken s (wrap (codes "list sources: ") e [])))
        (λ srcs. sync_sources fuel srcs s)
