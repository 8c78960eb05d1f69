-- ===== src/Store/Queries.antt =====
-- tools/api/internal/store/queries.go: the mail queries and their pages.
pub mod Detail
pub mod Summaries
pub mod Skipped
use balvibot.Prelude.{
  zero, suc, ◌/◌, ◌≡◌, refl, ◌++◌, leb, find_row, unsigned, max_int64, split, join, ℕ, ◌+◌, ◌*◌,
  Bool, true, false, ◌&&◌, ◌||◌, Option, none, some, List, [], ◌∷◌, Str, codes, eqs, to_lower,
  trim_space, is_empty, take, ◌==◌, ltb, if◌then◌else◌, where_rows, any_row, count_rows, sort_rows,
  map,
}
use balvibot.Errors.{ok, message, is_no_rows}
use balvibot.Store.Schema.{
  Db, GranteeRow, Address, MessageRow, ThreadRow, RecipientRow, AttachmentRow,
}
use balvibot.Store.Exec.{Exec, pure, fail, select, or_else, ◌>>=◌}
use balvibot.Store.Text.{or_empty}
use balvibot.Store.Like.{take_chars, ilike_contains}
use balvibot.Store.Threads.{get_thread}
use balvibot.Store.Notes.{clamp_limit, at_or_after, at_or_before, below_cursor}
use balvibot.Store.Docs.{page_of}
use balvibot.Threading.{fields}
use balvibot.Store.Approvals.{row_or_none}
use balvibot.Store.Grantees.{Grantee, scan_grantee, is_unassigned, is_for, str_lt}

abbrev pub unassigned_grantee : Str
unassigned_grantee = codes "_unassigned"

-- granteeWhere: the condition on the column, with no condition for the empty string
unfoldable pub grantee_where : Str → Option Str → Bool
grantee_where granteeid column =
    if is_empty granteeid
    then true
    else if eqs granteeid unassigned_grantee
    then is_unassigned column
    else is_for granteeid column

-- type MessageSummary
pub record MessageSummary : Type 0 where
  pub id : ℕ
  pub message_id : Str
  pub thread_id : ℕ
  pub grantee_id : Option Str
  pub folder : Str
  pub from_address : Address
  pub subject : Str
  pub date : ℕ
  pub has_attachments : Bool
  pub snippet : Str

abbrev snippet_len : ℕ
snippet_len = 200

-- scanMessageSummaries, one row
unfoldable pub scan_message_summary : Db → MessageRow → MessageSummary
unfolding take_chars
scan_message_summary db m = record {
  id = m.id;
  message_id = m.message_id;
  thread_id = m.thread_id;
  grantee_id = m.grantee_id;
  folder = m.folder;
  from_address = record { name = or_empty m.from_name; email = m.from_addr };
  subject = or_empty m.subject;
  date = m.date;
  has_attachments = any_row (λ a. a.message_id == m.id) db.attachments;
  snippet = trim_space (take_chars snippet_len (or_empty m.body_text));
}

-- ORDER BY m.date DESC, m.id DESC
abbrev pub message_before : MessageRow → MessageRow → Bool
message_before x y = if x.date == y.date then ltb y.id x.id else ltb y.date x.date

unfoldable pub message_matches : Str → Option ℕ → Option ℕ → MessageRow → Bool
unfolding grantee_where
message_matches grantee_id since until m =
    grantee_where grantee_id m.grantee_id && at_or_after since m.date && at_or_before until m.date

unfoldable pub messages_after : Str → Option ℕ → Option ℕ → ℕ → Db → List MessageRow
unfolding message_matches
messages_after grantee_id since until cursor db = sort_rows message_before (
    where_rows (λ m. message_matches grantee_id since until m && below_cursor cursor m.id)
      db.messages)

-- ListMessagesByGrantee
unfoldable pub list_messages_by_grantee :
    Str → Option ℕ → Option ℕ → ℕ → ℕ → Exec (List MessageSummary × ℕ)
unfolding messages_after scan_message_summary clamp_limit page_of
list_messages_by_grantee grantee_id since until limit cursor =
    if is_empty grantee_id
    then fail (message (codes "granteeID is required"))
    else select λ db. ok (
        page_of (λ m. m.id) (clamp_limit limit)
          (map (scan_message_summary db)
            (take (clamp_limit limit + 1) (messages_after grantee_id since until cursor db))))

-- type ThreadSummary
pub record ThreadSummary : Type 0 where
  pub id : ℕ
  pub root_message_id : Str
  pub subject_norm : Str
  pub grantee_id : Option Str
  pub first_seen_at : ℕ
  pub last_seen_at : ℕ
  pub message_count : ℕ

unfoldable pub scan_thread_summary : Db → ThreadRow → ThreadSummary
scan_thread_summary db t = record {
  id = t.id;
  root_message_id = t.root_message_id;
  subject_norm = t.subject_norm;
  grantee_id = t.grantee_id;
  first_seen_at = t.first_seen_at;
  last_seen_at = t.last_seen_at;
  message_count = count_rows (λ m. m.thread_id == t.id) db.messages;
}

-- ORDER BY t.last_seen_at DESC, t.id DESC
abbrev pub thread_before : ThreadRow → ThreadRow → Bool
thread_before x y =
    if x.last_seen_at == y.last_seen_at then ltb y.id x.id else ltb y.last_seen_at x.last_seen_at

unfoldable pub threads_after : Str → Option ℕ → Option ℕ → ℕ → Db → List ThreadRow
unfolding grantee_where
threads_after grantee_id since until cursor db = sort_rows thread_before (
    where_rows
      (λ t.
        grantee_where grantee_id t.grantee_id
        && at_or_after since t.last_seen_at
        && at_or_before until t.first_seen_at
        && below_cursor cursor t.id)
      db.threads)

-- ListThreadsByGrantee
unfoldable pub list_threads_by_grantee :
    Str → Option ℕ → Option ℕ → ℕ → ℕ → Exec (List ThreadSummary × ℕ)
unfolding threads_after scan_thread_summary clamp_limit page_of
list_threads_by_grantee grantee_id since until limit cursor =
    if is_empty grantee_id
    then fail (message (codes "granteeID is required"))
    else select λ db. ok (
        page_of (λ t. t.id) (clamp_limit limit)
          (map (scan_thread_summary db)
            (take (clamp_limit limit + 1) (threads_after grantee_id since until cursor db))))

-- ORDER BY m.date ASC, m.id ASC
abbrev pub message_oldest : MessageRow → MessageRow → Bool
message_oldest x y = if x.date == y.date then ltb x.id y.id else ltb x.date y.date

unfoldable pub messages_of_thread : ℕ → Exec (List MessageSummary)
unfolding scan_message_summary page_of
messages_of_thread thread_id = select λ db.
    ok
      (page_of (λ m. m.id) (200 * 100)
        (map (scan_message_summary db)
          (sort_rows message_oldest (where_rows (λ m. m.thread_id == thread_id) db.messages)))).0

-- GetThreadMessages, where `none` is the thread that does not exist
unfoldable pub get_thread_messages : ℕ → Exec (Option (ThreadRow × List MessageSummary))
unfolding or_else get_thread messages_of_thread is_no_rows
get_thread_messages thread_id =
    or_else (get_thread thread_id) (λ e. if is_no_rows e then pure none else fail e)
      λ t. do msgs ← messages_of_thread thread_id; pure (some (t, msgs))

-- A filter that is the empty string is no filter, and NULL matches no pattern.
abbrev pub text_matches : Str → Option Str → Bool
text_matches p none = is_empty p
text_matches p (some s) = is_empty p || ilike_contains p s

-- type SearchParams, its times in Unix seconds
pub record SearchParams : Type 0 where
  pub grantee_id : Str
  pub from_text : Str
  pub subject : Str
  pub body : Str
  pub since : Option ℕ
  pub until : Option ℕ
  pub limit : ℕ
  pub cursor : ℕ

abbrev no_bound : Option ℕ → Bool
no_bound none = true
no_bound (some t) = false

-- len(where) == 0
unfoldable pub no_filter : SearchParams → Bool
no_filter p =
    is_empty p.grantee_id
    && is_empty p.from_text
    && is_empty p.subject
    && is_empty p.body
    && no_bound p.since
    && no_bound p.until
    && p.cursor == 0

unfoldable pub search_matches : SearchParams → MessageRow → Bool
unfolding message_matches ilike_contains
search_matches p m =
    message_matches p.grantee_id p.since p.until m
    && text_matches p.from_text (some m.from_addr)
    && text_matches p.subject m.subject
    && text_matches p.body m.body_text
    && below_cursor p.cursor m.id

-- SearchMessages
unfoldable pub search_messages : SearchParams → Exec (List MessageSummary × ℕ)
unfolding no_filter search_matches scan_message_summary clamp_limit page_of
search_messages p =
    if no_filter p
    then fail (message (codes "at least one search filter is required"))
    else select λ db. ok (
        page_of (λ m. m.id) (clamp_limit p.limit)
          (map (scan_message_summary db) (
            take (clamp_limit p.limit + 1)
              (sort_rows message_before (where_rows (search_matches p) db.messages)))))

-- listRecipients
unfoldable pub list_recipients : ℕ → Exec (List RecipientRow)
unfolding str_lt
list_recipients message_id = select λ db. ok (
    sort_rows
      (λ x y.
        if eqs x.kind y.kind
        then str_lt (to_lower x.email) (to_lower y.email)
        else str_lt x.kind y.kind)
      (where_rows (λ r. r.message_id == message_id) db.recipients))

-- ListAttachmentsByMessage
unfoldable pub list_attachments_by_message : ℕ → Exec (List AttachmentRow)
list_attachments_by_message message_id = select λ db.
    ok (
      sort_rows (λ x y. ltb x.id y.id)
        (where_rows (λ a. a.message_id == message_id) db.attachments))
