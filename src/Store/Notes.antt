-- ===== src/Store/Notes.antt =====
-- tools/api/internal/store/notes.go: the notes about a grantee.
pub mod Pages
use balvibot.Prelude.{
  ℕ, ◌+◌, Bool, true, false, not, ◌&&◌, ◌||◌, Option, none, some, List, [], ◌∷◌, ◌++◌, Str, codes,
  eqs, trim_space, is_empty, take, ◌==◌, ltb, leb, if◌then◌else◌, where_rows, find_row, any_row,
  sort_rows, map,
}
use balvibot.Errors.{Error, Result, ok, err, message, quote}
use balvibot.Store.Schema.{Db, NoteRow}
use balvibot.Store.Exec.{Exec, pure, fail, select, statement, or_else, now, ◌>>=◌}
use balvibot.Store.Text.{null_str, or_empty, clean_text}
use balvibot.Store.Approvals.{missing}
use balvibot.Store.Grantees.{has_grantee, foreign_key_violation, or_now}
use balvibot.Store.Docs.{page_of}

abbrev pub note_kind_note : Str
note_kind_note = codes "note"

abbrev pub note_kinds : List Str
note_kinds =
    note_kind_note ∷ codes "fact" ∷ codes "preference" ∷ codes "status" ∷ codes "contact" ∷ []

-- ValidNoteKind
unfoldable pub valid_note_kind : Str → Bool
valid_note_kind kind = any_row (λ k. eqs k kind) note_kinds

-- type Note
pub record Note : Type 0 where
  pub id : ℕ
  pub grantee_id : Str
  pub kind : Str
  pub content : Str
  pub signal_number : Str
  pub supersedes_id : Option ℕ
  pub superseded_by_id : Option ℕ
  pub created_at : Option ℕ

-- type NoteFilter, its times in Unix seconds
pub record NoteFilter : Type 0 where
  pub grantee_id : Str
  pub kind : Str
  pub since : Option ℕ
  pub until : Option ℕ
  pub include_superseded : Bool
  pub limit : ℕ
  pub cursor : ℕ

abbrev note_exists : Option ℕ → Db → Bool
note_exists none db = true
note_exists (some id) db = any_row (λ n. n.id == id) db.notes

unfoldable pub insert_note : Note → Str → ℕ → Db → Result (ℕ × Db)
unfolding null_str
insert_note n kind t db =
    let row : NoteRow = record {
      id = db.next_note;
      grantee_id = n.grantee_id;
      kind = kind;
      content = n.content;
      signal_number = null_str (trim_space n.signal_number);
      supersedes_id = n.supersedes_id;
      created_at = t;
    } in
    if has_grantee n.grantee_id db && note_exists n.supersedes_id db
    then ok (db.next_note, record db { notes = db.notes ++ row ∷ []; next_note = db.next_note + 1 })
    else err foreign_key_violation

-- The note with its grantee_id and content as CreateNote stores them.
unfoldable pub tidy_note : Note → Note
unfolding clean_text
tidy_note n = record n {
  grantee_id = trim_space n.grantee_id;
  content = clean_text (trim_space n.content);
}

unfoldable pub kind_or_note : Str → Str
kind_or_note kind = if is_empty kind then note_kind_note else kind

-- CreateNote
unfoldable pub create_note : Note → Exec Note
unfolding ◌>>=◌ now insert_note tidy_note kind_or_note valid_note_kind quote
create_note note =
    let n = tidy_note note in
    let kind = kind_or_note n.kind in
    if is_empty n.grantee_id
    then fail (message (codes "grantee_id required"))
    else if is_empty n.content
    then fail (message (codes "content required"))
    else if not (valid_note_kind kind)
    then fail (message (codes "invalid note kind " ++ quote kind))
    else do
      t ← now
      let created = or_now n.created_at t
      id ← statement (insert_note n kind created)
      pure (record n { id = id; kind = kind; created_at = some created })

abbrev is_some_of : ℕ → Option ℕ → Bool
is_some_of id none = false
is_some_of id (some x) = x == id

-- EXISTS(SELECT 1 FROM notes s WHERE s.supersedes_id = n.id)
unfoldable pub is_superseded : ℕ → List NoteRow → Bool
is_superseded id notes = any_row (λ s. is_some_of id s.supersedes_id) notes

-- SELECT s.id … ORDER BY s.id LIMIT 1
unfoldable pub superseded_by : ℕ → List NoteRow → Option ℕ
superseded_by id notes =
    elim (find_row (λ s. true)
      (sort_rows (λ x y. ltb x.id y.id) (where_rows (λ s. is_some_of id s.supersedes_id) notes))) [
        | none ↦ none
        | some s ↦ some s.id
      ]

-- scanNote
unfoldable pub scan_note : List NoteRow → NoteRow → Note
unfolding superseded_by
scan_note notes r = record {
  id = r.id;
  grantee_id = r.grantee_id;
  kind = r.kind;
  content = r.content;
  signal_number = or_empty r.signal_number;
  supersedes_id = r.supersedes_id;
  superseded_by_id = superseded_by r.id notes;
  created_at = some r.created_at;
}

unfoldable pub note_with_id : ℕ → Db → Option NoteRow
note_with_id id db = find_row (λ n. n.id == id) db.notes

abbrev found_note : Option NoteRow → Db → Result Note
found_note none db = err Error.no_rows
found_note (some r) db = ok (scan_note db.notes r)

-- GetNote
unfoldable pub get_note : ℕ → Exec Note
unfolding or_else missing scan_note note_with_id
get_note id = or_else (select λ db. found_note (note_with_id id db) db) missing pure

-- clampLimit
unfoldable pub clamp_limit : ℕ → ℕ
clamp_limit n = if n == 0 then 50 else if ltb 200 n then 200 else n

abbrev pub at_or_after : Option ℕ → ℕ → Bool
at_or_after none t = true
at_or_after (some bound) t = leb bound t

abbrev pub at_or_before : Option ℕ → ℕ → Bool
at_or_before none t = true
at_or_before (some bound) t = leb t bound

-- The WHERE clause of ListNotes, without the cursor.
unfoldable pub note_matches : NoteFilter → List NoteRow → NoteRow → Bool
unfolding is_superseded
note_matches f notes n =
    eqs n.grantee_id f.grantee_id
    && (is_empty f.kind || eqs n.kind f.kind)
    && at_or_after f.since n.created_at
    && at_or_before f.until n.created_at
    && (f.include_superseded || not (is_superseded n.id notes))

-- A cursor of 0 starts at the first page.
abbrev pub below_cursor : ℕ → ℕ → Bool
below_cursor cursor id = cursor == 0 || ltb id cursor

abbrev pub note_before : NoteRow → NoteRow → Bool
note_before x y = ltb y.id x.id

unfoldable pub notes_after : NoteFilter → Db → List NoteRow
unfolding note_matches
notes_after f db =
    sort_rows note_before
      (where_rows (λ n. note_matches f db.notes n && below_cursor f.cursor n.id) db.notes)

-- ListNotes
unfoldable pub list_notes : NoteFilter → Exec (List Note × ℕ)
unfolding valid_note_kind quote notes_after scan_note clamp_limit page_of
list_notes f =
    if is_empty (trim_space f.grantee_id)
    then fail (message (codes "grantee_id required"))
    else if not (is_empty f.kind) && not (valid_note_kind f.kind)
    then fail (message (codes "invalid note kind " ++ quote f.kind))
    else select λ db. ok (
        page_of (λ n. n.id) (clamp_limit f.limit)
          (map (scan_note db.notes) (take (clamp_limit f.limit + 1) (notes_after f db))))
