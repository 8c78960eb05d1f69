-- ===== src/McpServer/Notes.antt =====
-- tools/api/internal/mcpserver/server.go: the tools for notes.
use balvibot.Prelude.{
  ℕ, Bool, not, ◌&&◌, Option, none, some, ◌++◌, List, Str, codes, eqs, is_empty, trim_space, ◌==◌,
  itoa, if◌then◌else◌,
}
use balvibot.Errors.{Error, Result, message, quote, is_not_found}
use balvibot.Store.Exec.{Exec, pure, fail, lift, or_else, ◌>>=◌}
use balvibot.Store.Grantees.{get_grantee}
use balvibot.Store.Notes.{Note, valid_note_kind, create_note, get_note, list_notes}
use balvibot.McpServer.Queue.{require, grantee_missing}

-- type CreateNoteInput
pub record CreateNoteInput : Type 0 where
  pub grantee_id : Str
  pub content : Str
  pub kind : Str
  pub signal_number : Str
  pub supersedes_id : ℕ

abbrev invalid_kind : {A : Type 0} → Str → Exec A
invalid_kind kind = fail (
    message (
      codes "invalid kind "
      ++ (quote kind ++ codes ": expected one of note, fact, preference, status, contact")))

abbrev no_note : {A : Type 0} → ℕ → Error → Exec A
no_note id e =
    if is_not_found e
    then fail (message (codes "supersedes_id " ++ (itoa id ++ codes " not found")))
    else fail e

abbrev other_grantee : {A : Type 0} → ℕ → Str → Str → Exec A
other_grantee id owner grantee = fail (
    message (
      codes "supersedes_id "
      ++ (itoa id ++ (codes " belongs to grantee " ++ (owner ++ (codes ", not " ++ grantee))))))

-- The note that a new one replaces exists and is about the same grantee; 0 stands for no note.
unfoldable pub supersedes : Str → ℕ → Exec (Option ℕ)
unfolding or_else get_note is_not_found itoa
supersedes grantee id =
    if id == 0
    then pure none
    else or_else (get_note id) (no_note id) λ prev.
      if eqs prev.grantee_id grantee
      then pure (some id)
      else other_grantee id prev.grantee_id grantee

-- createNote
unfoldable pub create_note_tool : CreateNoteInput → Exec Note
unfolding ◌>>=◌ or_else get_grantee supersedes create_note valid_note_kind quote is_not_found
create_note_tool input =
    let grantee = trim_space input.grantee_id in
    let kind = trim_space input.kind in
    require grantee (codes "grantee_id is required") (
      require (trim_space input.content) (codes "content is required") (
        if not (is_empty kind) && not (valid_note_kind kind)
        then invalid_kind kind
        else or_else (get_grantee grantee) (grantee_missing grantee) λ g. do
          old ← supersedes grantee input.supersedes_id
          create_note (record {
            id = 0;
            grantee_id = grantee;
            kind = kind;
            content = input.content;
            signal_number = input.signal_number;
            supersedes_id = old;
            superseded_by_id = none;
            created_at = none;
          })))

-- type ListNotesInput
pub record ListNotesInput : Type 0 where
  pub grantee_id : Str
  pub kind : Str
  pub since : Str
  pub until : Str
  pub include_superseded : Bool
  pub limit : ℕ
  pub cursor : ℕ

-- listNotes, where `parse_time_bound` is parseTimeBound, a text to Unix seconds by time.Parse
unfoldable pub list_notes_tool : (Str → Result (Option ℕ)) → ListNotesInput → Exec (List Note × ℕ)
unfolding ◌>>=◌ list_notes valid_note_kind quote
list_notes_tool parse_time_bound input =
    let grantee = trim_space input.grantee_id in
    let kind = trim_space input.kind in
    require grantee (codes "grantee_id is required") (
      if not (is_empty kind) && not (valid_note_kind kind) then invalid_kind kind else do
        since ← lift (parse_time_bound input.since)
        until ← lift (parse_time_bound input.until)
        list_notes (record {
          grantee_id = grantee;
          kind = kind;
          since = since;
          until = until;
          include_superseded = input.include_superseded;
          limit = input.limit;
          cursor = input.cursor;
        }))
