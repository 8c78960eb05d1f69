-- ===== src/Store/Queries/Detail.antt =====
-- tools/api/internal/store/queries.go, GetMessage: one message with all that belongs to it.
use balvibot.Prelude.{
  ℕ, ◌+◌, Option, none, some, List, [], ◌∷◌, Str, codes, eqs, is_empty, leb, find_row, unsigned,
  max_int64, ◌==◌, if◌then◌else◌,
}
use balvibot.Errors.{message, is_no_rows}
use balvibot.Store.Schema.{Db, Address, MessageRow, RecipientRow, AttachmentRow}
use balvibot.Store.Exec.{Exec, pure, fail, select, or_else, ◌>>=◌}
use balvibot.Store.Text.{or_empty}
use balvibot.Store.Approvals.{row_or_none}
use balvibot.Store.Queries.{list_attachments_by_message, list_recipients}
use balvibot.Threading.{fields}

abbrev negative : Option ℕ → Option (Option ℕ)
negative none = none
negative (some n) = if leb n (max_int64 + 1) then some (if n == 0 then some 0 else none) else none

abbrev natural : Option ℕ → Option (Option ℕ)
natural none = none
natural (some n) = if leb n max_int64 then some (some n) else none

-- strconv.ParseInt(s, 10, 64): `none` where it fails, and `some none` for a number below 0
unfoldable pub parse_int : Str → Option (Option ℕ)
unfolding unsigned
parse_int [] = none
parse_int (c ∷ s) =
    if c == b'-' then negative (unsigned s) else natural (unsigned (if c == b'+' then s else c ∷ s))

abbrev message_for : Str → Db → Option (Option ℕ) → Option MessageRow
message_for key db none = find_row (λ m. eqs m.message_id key) db.messages
message_for key db (some none) = none
message_for key db (some (some n)) = find_row (λ m. m.id == n) db.messages

-- The message with that id, or with that Message-ID where the text is no number.
unfoldable pub message_found : Str → Db → Option MessageRow
unfolding parse_int
message_found key db = message_for key db (parse_int key)

-- type Message, as GetMessage fills it
pub record StoredMessage : Type 0 where
  pub id : ℕ
  pub message_id : Str
  pub thread_id : ℕ
  pub grantee_id : Option Str
  pub folder : Str
  pub uid : ℕ
  pub uid_validity : ℕ
  pub in_reply_to : Str
  pub references : List Str
  pub from_address : Address
  pub to : List Address
  pub cc : List Address
  pub subject : Str
  pub date : ℕ
  pub body_text : Str
  pub body_html : Str
  pub size_bytes : ℕ

unfoldable pub scan_message : MessageRow → StoredMessage
unfolding fields
scan_message m = record {
  id = m.id;
  message_id = m.message_id;
  thread_id = m.thread_id;
  grantee_id = m.grantee_id;
  folder = m.folder;
  uid = m.uid;
  uid_validity = m.uid_validity;
  in_reply_to = or_empty m.in_reply_to;
  references = fields [] (or_empty m.references_raw);
  from_address = record { name = or_empty m.from_name; email = m.from_addr };
  to = m.to_addrs;
  cc = m.cc_addrs;
  subject = or_empty m.subject;
  date = m.date;
  body_text = or_empty m.body_text;
  body_html = or_empty m.body_html;
  size_bytes = m.size_bytes;
}

-- A message with its attachments and its recipients.
pub record FullMessage : Type 0 where
  pub stored : StoredMessage
  pub attachments : List AttachmentRow
  pub recipients : List RecipientRow

-- GetMessage, where `none` is the message that does not exist
unfoldable pub get_message : Str → Exec (Option FullMessage)
unfolding ◌>>=◌ or_else message_found scan_message list_attachments_by_message list_recipients
    is_no_rows
get_message key =
    if is_empty key
    then fail (message (codes "id or message_id required"))
    else or_else (select λ db. row_or_none (message_found key db))
        (λ e. if is_no_rows e then pure none else fail e)
        λ m. do
          atts ← list_attachments_by_message m.id
          recs ← list_recipients m.id
          pure (some (record { stored = scan_message m; attachments = atts; recipients = recs }))
