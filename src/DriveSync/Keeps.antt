-- ===== src/DriveSync/Keeps.antt =====
-- processDoc keeps what each of its writes keeps.
use balvibot.Prelude.{ℕ, not, Option, none, some, Str, eqs}
use balvibot.Errors.{Error, Result, ok, err, error_text, is_not_found, is_not_found_or_forbidden}
use balvibot.Store.Schema.{Db, SourceRow}
use balvibot.Store.Exec.{Exec, pure, or_else}
use balvibot.Store.Keeps.{Keeps, Keeps-pure, Keeps-fail, Keeps-if, Keeps-or_else, Keeps-select}
use balvibot.Store.Docs.{
  Time, Doc, get_doc_by_id, touch_doc_seen, mark_doc_stale, mark_doc_error, upsert_doc,
}
use balvibot.McpServer.Queue.Isolation.{Keeps-missing}
use balvibot.DriveSync.{
  Stats, File, Drive, is_unchanged, existing_doc, stale, failed, doc_of, exported, touched,
  compared, timed, process_doc, mime_doc,
}

module _ (drive : Drive) (grantee_id : Str) (src : SourceRow) (cycle : ℕ) (f : File) (stats : Stats)
    {P : Db → Type 0} (touch : Keeps P (touch_doc_seen f.id cycle))
    (flag_stale : (msg : Str) → Keeps P (mark_doc_stale f.id msg))
    (flag_error : (msg : Str) → Keeps P (mark_doc_error f.id msg))
    (upsert : (t : Time) (markdown : Str)
      → Keeps P (upsert_doc (doc_of drive grantee_id src cycle f stats t markdown) cycle)) where
  Keeps-counted :
      (m : Exec (Unit {0})) (s s' : Stats)
      → Keeps P m
      → Keeps P (or_else m (λ _. pure s) (λ _. pure s'))
  Keeps-counted m s s' k =
      Keeps-or_else m (λ _. pure s) (λ _. pure s') k (λ _. Keeps-pure s) (λ _. Keeps-pure s')

  Keeps-stale :
      (e : Error) (o : Option Doc) → Keeps P (stale drive grantee_id src cycle f stats e o)
  Keeps-stale e none = Keeps-pure _
  Keeps-stale e (some d) =
      Keeps-counted (mark_doc_stale f.id (error_text e)) _ _ (flag_stale (error_text e))

  Keeps-failed :
      (e : Error) (o : Option Doc) → Keeps P (failed drive grantee_id src cycle f stats e o)
  Keeps-failed e none = Keeps-pure _
  Keeps-failed e (some d) =
      Keeps-counted (mark_doc_error f.id (error_text e)) _ _ (flag_error (error_text e))

  Keeps-exported :
      (t : Time) (o : Option Doc) (r : Result Str)
      → Keeps P (exported drive grantee_id src cycle f stats t o r)
  unfolding exported
  Keeps-exported t o (err e) =
      Keeps-if (is_not_found_or_forbidden e) _ _ (λ _. Keeps-stale e o) (λ _. Keeps-failed e o)
  Keeps-exported t o (ok markdown) =
      let d = doc_of drive grantee_id src cycle f stats t markdown in
      Keeps-counted (upsert_doc d cycle) _ _ (upsert t markdown)

  Keeps-compared :
      (t : Time) (o : Option Doc) → Keeps P (compared drive grantee_id src cycle f stats t o)
  unfolding compared touched
  Keeps-compared t o =
      Keeps-if (is_unchanged o t) _ _ (λ _. Keeps-counted (touch_doc_seen f.id cycle) _ _ touch)
        (λ _. Keeps-exported t o (drive.export_markdown f.id))

  Keeps-existing : Keeps P (existing_doc f.id)
  unfolding existing_doc get_doc_by_id
  Keeps-existing =
      Keeps-or_else _ _ _ (Keeps-or_else _ _ _ (Keeps-select _) Keeps-missing (λ r. Keeps-pure _))
        (λ e. Keeps-if (is_not_found e) _ _ (λ _. Keeps-pure _) (λ _. Keeps-fail _))
        (λ d. Keeps-pure _)

  Keeps-timed : (r : Result Time) → Keeps P (timed drive grantee_id src cycle f stats r)
  unfolding timed
  Keeps-timed (err e) = Keeps-pure _
  Keeps-timed (ok t) =
      Keeps-or_else (existing_doc f.id) _ (compared drive grantee_id src cycle f stats t)
        Keeps-existing (λ e. Keeps-pure _) (Keeps-compared t)

  pub Keeps-process : Keeps P (process_doc drive grantee_id src cycle f stats)
  unfolding process_doc
  Keeps-process =
      Keeps-if (not (eqs f.mime_type mime_doc)) _ _ (λ _. Keeps-pure _)
        (λ _. Keeps-timed (drive.parse_drive_time f.modified_time))
