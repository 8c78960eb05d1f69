-- ===== src/Store/Sources.antt =====
-- tools/api/internal/store/store.go: the Drive sources of a grantee.
use balvibot.Prelude.{
  ℕ, ◌+◌, Bool, not, ◌&&◌, ◌||◌, Option, none, some, List, [], ◌∷◌, ◌++◌, Str, codes, eqs, is_empty,
  ltb, if◌then◌else◌, where_rows, find_row, update_rows, count_rows, sort_rows,
}
use balvibot.Errors.{Result, ok, err, message, quote}
use balvibot.Store.Schema.{Db, SourceRow}
use balvibot.Store.Exec.{Exec, fail, select, statement, now, ◌>>=◌}
use balvibot.Store.Approvals.{require_one_row}
use balvibot.Store.Grantees.{
  source_type_folder, source_type_doc, or_now, foreign_key_violation, has_grantee,
}

-- type Source, as UpsertSource is given it
pub record Source : Type 0 where
  pub grantee_id : Str
  pub source_type : Str
  pub drive_id : Str
  pub added_at : Option ℕ

abbrev same_source : Source → SourceRow → Bool
same_source src r = eqs r.grantee_id src.grantee_id && eqs r.drive_id src.drive_id

-- INSERT … ON CONFLICT(grantee_id, drive_id) DO UPDATE SET source_type … RETURNING id, given the row
-- in conflict; the value of the identity column is drawn also where the row is updated.
abbrev pub put_over : Source → ℕ → Db → Option SourceRow → Result (ℕ × Db)
put_over src t db (some old) = ok (
  old.id,
  record db {
    sources =
        update_rows (same_source src) (λ r. record r { source_type = src.source_type }) db.sources;
    next_source = db.next_source + 1;
  },
)
put_over src t db none =
    let row : SourceRow = record {
      id = db.next_source;
      grantee_id = src.grantee_id;
      source_type = src.source_type;
      drive_id = src.drive_id;
      added_at = or_now src.added_at t;
    } in
    if has_grantee src.grantee_id db
    then ok (
      db.next_source,
      record db { sources = db.sources ++ row ∷ []; next_source = db.next_source + 1 },
    )
    else err foreign_key_violation

unfoldable pub put_source : Source → ℕ → Db → Result (ℕ × Db)
put_source src t db = put_over src t db (find_row (same_source src) db.sources)

-- UpsertSource
unfoldable pub upsert_source : Source → Exec ℕ
unfolding ◌>>=◌ now put_source quote
upsert_source src =
    if is_empty src.grantee_id
    then fail (message (codes "grantee_id required"))
    else if not (eqs src.source_type source_type_folder || eqs src.source_type source_type_doc)
    then fail (message (codes "invalid source_type " ++ quote src.source_type))
    else if is_empty src.drive_id
    then fail (message (codes "drive_id required"))
    else do t ← now; statement (put_source src t)

unfoldable pub remove_source : Str → Str → Db → Result (ℕ × Db)
remove_source grantee_id drive_id db =
    let hit = λ (r : SourceRow). eqs r.grantee_id grantee_id && eqs r.drive_id drive_id in
    ok (count_rows hit db.sources, record db { sources = where_rows (λ r. not (hit r)) db.sources })

-- DeleteSource
unfoldable pub delete_source : Str → Str → Exec (Unit {0})
unfolding ◌>>=◌ remove_source require_one_row
delete_source grantee_id drive_id = do
  n ← statement (remove_source grantee_id drive_id)
  require_one_row n

-- ListSourcesForGrantee
unfoldable pub list_sources_for_grantee : Str → Exec (List SourceRow)
list_sources_for_grantee grantee_id = select λ db.
    ok (sort_rows (λ x y. ltb x.id y.id) (where_rows (λ r. eqs r.grantee_id grantee_id) db.sources))
