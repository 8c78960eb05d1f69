-- ===== src/Store/Docs.antt =====
-- tools/api/internal/store/store.go: the synced documents and the state of the sync.
use balvibot.Prelude.{
  ℕ, ◌+◌, Bool, true, not, ◌&&◌, ◌||◌, Option, none, some, List, [], ◌∷◌, ◌++◌, Str, codes, eqs,
  to_lower, is_empty, length, take, ◌==◌, ltb, if◌then◌else◌, where_rows, find_row, update_rows,
  any_row, count_rows, sort_rows, map,
}
use balvibot.Errors.{Result, ok, err, message}
use balvibot.Store.Schema.{Db, DocRow}
use balvibot.Store.Exec.{
  Exec, pure, fail, select, statement, or_else, now, transaction, ◌>>=◌, ◌>>◌,
}
use balvibot.Store.Text.{null_str, or_empty}
use balvibot.Store.Approvals.{row_or_none, missing, require_one_row}
use balvibot.Store.Grantees.{
  status_active, check_violation, foreign_key_violation, has_grantee, str_lt,
}

abbrev pub status_stale : Str
status_stale = codes "stale"

abbrev pub status_error : Str
status_error = codes "error"

-- time.Time, from 1970 on: whole seconds and the nanoseconds within one
pub record Time : Type 0 where
  pub seconds : ℕ
  pub nanos : ℕ

-- type Doc; what is read back has whole seconds
pub record Doc : Type 0 where
  pub doc_id : Str
  pub grantee_id : Str
  pub title : Str
  pub owner_email : Str
  pub content_markdown : Str
  pub modified_at : Time
  pub synced_at : Time
  pub source_type : Str
  pub source_drive_id : Str
  pub had_images : Bool
  pub had_comments : Bool
  pub status : Str
  pub last_error : Str

-- time.Unix(s, 0)
abbrev pub at_second : ℕ → Time
at_second s = record { seconds = s; nanos = 0 }

unfoldable pub scan_doc : DocRow → Doc
scan_doc r = record {
  doc_id = r.doc_id;
  grantee_id = r.grantee_id;
  title = r.title;
  owner_email = r.owner_email;
  content_markdown = r.content_markdown;
  modified_at = at_second r.modified_at;
  synced_at = at_second r.synced_at;
  source_type = r.source_type;
  source_drive_id = r.source_drive_id;
  had_images = r.had_images;
  had_comments = r.had_comments;
  status = r.status;
  last_error = or_empty r.last_error;
}

unfoldable pub doc_with_id : Str → Db → Option DocRow
doc_with_id doc_id db = find_row (λ d. eqs d.doc_id doc_id) db.docs

-- GetDocByID
unfoldable pub get_doc_by_id : Str → Exec Doc
unfolding or_else missing scan_doc doc_with_id
get_doc_by_id doc_id =
    or_else (select λ db. row_or_none (doc_with_id doc_id db)) missing (λ r. pure (scan_doc r))

-- GetDocForGrantee
unfoldable pub get_doc_for_grantee : Str → Str → Exec Doc
unfolding or_else missing scan_doc
get_doc_for_grantee grantee_id doc_id =
    or_else
      (select λ db.
        row_or_none (find_row (λ d. eqs d.doc_id doc_id && eqs d.grantee_id grantee_id) db.docs))
      missing (λ r. pure (scan_doc r))

-- The CHECK constraint on docs.status.
abbrev pub is_doc_status : Str → Bool
is_doc_status s = eqs s status_active || eqs s status_stale || eqs s status_error

unfoldable pub doc_row : Doc → Str → ℕ → ℕ → DocRow
unfolding null_str
doc_row d status t cycle = record {
  doc_id = d.doc_id;
  grantee_id = d.grantee_id;
  title = d.title;
  owner_email = to_lower d.owner_email;
  content_markdown = d.content_markdown;
  modified_at = d.modified_at.seconds;
  synced_at = t;
  source_type = d.source_type;
  source_drive_id = d.source_drive_id;
  had_images = d.had_images;
  had_comments = d.had_comments;
  status = status;
  last_error = null_str d.last_error;
  last_seen_cycle = some cycle;
}

-- The tables with the row put in the place of the one with its id, or at the end.
abbrev pub with_doc : DocRow → Db → Db
with_doc row db =
    let hit = λ (r : DocRow). eqs r.doc_id row.doc_id in
    record db {
      docs =
          if any_row hit db.docs then update_rows hit (λ r. row) db.docs else db.docs ++ row ∷ [];
    }

unfoldable pub put_doc : DocRow → Db → Result (Unit {0} × Db)
put_doc row db =
    if not (is_doc_status row.status)
    then err check_violation
    else if not (has_grantee row.grantee_id db)
    then err foreign_key_violation
    else ok (tt, with_doc row db)

-- UpsertDoc
unfoldable pub upsert_doc : Doc → ℕ → Exec (Unit {0})
unfolding ◌>>=◌ now put_doc doc_row
upsert_doc d cycle =
    if is_empty d.doc_id || is_empty d.grantee_id
    then fail (message (codes "doc_id and grantee_id required"))
    else do
      t ← now
      statement
          (put_doc (doc_row d (if is_empty d.status then status_active else d.status) t cycle))

unfoldable pub update_docs : (DocRow → Bool) → (DocRow → DocRow) → Db → Result (ℕ × Db)
update_docs hit f db = ok (count_rows hit db.docs, record db { docs = update_rows hit f db.docs })

-- TouchDocSeen
unfoldable pub touch_doc_seen : Str → ℕ → Exec (Unit {0})
unfolding ◌>>=◌ now update_docs require_one_row
touch_doc_seen doc_id cycle = do
  t ← now
  n ← statement (
      update_docs (λ d. eqs d.doc_id doc_id)
        (λ d. record d {
          last_seen_cycle = some cycle;
          synced_at = t;
          status = status_active;
          last_error = none;
        }))
  require_one_row n

abbrev flag_doc : Str → Str → Str → Exec (Unit {0})
flag_doc status doc_id last_err = do
  statement (
      update_docs (λ d. eqs d.doc_id doc_id)
        (λ d. record d { status = status; last_error = null_str last_err }))
  pure tt

-- MarkDocStale
unfoldable pub mark_doc_stale : Str → Str → Exec (Unit {0})
unfolding ◌>>=◌ update_docs null_str
mark_doc_stale = flag_doc status_stale

-- MarkDocError
unfoldable pub mark_doc_error : Str → Str → Exec (Unit {0})
unfolding ◌>>=◌ update_docs null_str
mark_doc_error = flag_doc status_error

abbrev pub seen_before : ℕ → Option ℕ → Bool
seen_before cycle none = true
seen_before cycle (some c) = ltb c cycle

-- The WHERE clause of MarkUnseenStale.
unfoldable pub is_unseen : ℕ → Db → DocRow → Bool
is_unseen cycle db d =
    eqs d.status status_active
    && seen_before cycle d.last_seen_cycle
    && any_row (λ g. eqs g.grantee_id d.grantee_id && eqs g.status status_active) db.grantees
    && any_row (λ s. eqs s.drive_id d.source_drive_id) db.sources

unfoldable pub stale_row : DocRow → DocRow
stale_row d = record d {
  status = status_stale;
  last_error = some (codes "not seen in last sync cycle");
}

-- MarkUnseenStale
unfoldable pub mark_unseen_stale : ℕ → Exec ℕ
unfolding update_docs is_unseen stale_row
mark_unseen_stale cycle = statement λ db. update_docs (is_unseen cycle db) stale_row db

-- type DocSummary
pub record DocSummary : Type 0 where
  pub doc_id : Str
  pub title : Str
  pub modified_at : ℕ
  pub synced_at : ℕ
  pub had_images : Bool
  pub had_comments : Bool
  pub status : Str

unfoldable pub scan_doc_summary : DocRow → DocSummary
scan_doc_summary r = record {
  doc_id = r.doc_id;
  title = r.title;
  modified_at = r.modified_at;
  synced_at = r.synced_at;
  had_images = r.had_images;
  had_comments = r.had_comments;
  status = r.status;
}

-- ORDER BY modified_at DESC, doc_id DESC
abbrev pub doc_before : DocRow → DocRow → Bool
doc_before x y =
    if x.modified_at == y.modified_at
    then str_lt y.doc_id x.doc_id
    else ltb y.modified_at x.modified_at

abbrev pub doc_limit : ℕ → ℕ
doc_limit limit = if limit == 0 || ltb 500 limit then 50 else limit

-- The rows on the page after `cursor`, which is the time of a row, or 0 for the first page.
unfoldable pub docs_after : Str → ℕ → Db → List DocRow
unfolding str_lt
docs_after grantee_id cursor db = sort_rows doc_before (
    where_rows (λ d. eqs d.grantee_id grantee_id && (cursor == 0 || ltb d.modified_at cursor))
      db.docs)

-- The last of a list of rows, if it has any.
abbrev pub last_or : {A : Type 0} → A → List A → A
last_or a [] = a
last_or a (x ∷ xs) = last_or x xs

-- One page of rows that a query with LIMIT limit + 1 returned, and the cursor of the next one.
unfoldable pub page_of : {A : Type 0} → (A → ℕ) → ℕ → List A → List A × ℕ
page_of key limit rows =
    if ltb limit (length rows)
    then (take limit rows, last_or 0 (map key (take limit rows)))
    else (rows, 0)

-- ListDocsForGrantee
unfoldable pub list_docs_for_grantee : Str → ℕ → ℕ → Exec (List DocSummary × ℕ)
unfolding docs_after page_of scan_doc_summary
list_docs_for_grantee grantee_id limit cursor = select λ db. ok (
    page_of (λ d. d.modified_at) (doc_limit limit)
      (map scan_doc_summary (take (doc_limit limit + 1) (docs_after grantee_id cursor db))))

-- The cycles so far; the counter is stored as its decimal digits.
abbrev pub cycles : Db → ℕ
cycles db = elim db.sync_state.cycle_counter [ none ↦ 0 | some n ↦ n ]

abbrev pub with_cycles : ℕ → Db → Db
with_cycles n db = record db { sync_state = record (db.sync_state) { cycle_counter = some n } }

-- NextCycleID
unfoldable pub advance_cycle : Exec ℕ
unfolding ◌>>=◌
advance_cycle = do
  current ← select λ db. ok (cycles db)
  statement λ db. ok (tt, with_cycles (current + 1) db)
  pure (current + 1)

unfoldable pub next_cycle_id : Exec ℕ
unfolding transaction advance_cycle
next_cycle_id = transaction advance_cycle

abbrev pub with_success : ℕ → Db → Db
with_success t db = record db {
  sync_state = record (db.sync_state) { last_successful_sync = some t };
}

-- SetLastSuccessfulSync
unfoldable pub set_last_successful_sync : ℕ → Exec (Unit {0})
set_last_successful_sync t = statement λ db. ok (tt, with_success t db)

-- LastSuccessfulSync, where the zero time is `none`
unfoldable pub last_successful_sync : Exec (Option ℕ)
last_successful_sync = select λ db. ok db.sync_state.last_successful_sync
