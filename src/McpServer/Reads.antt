-- ===== src/McpServer/Reads.antt =====
-- tools/api/internal/mcpserver/server.go: the tools that read mail, documents and grantees, and the check of
-- the token.
pub mod Own
pub mod Documents
use balvibot.Prelude.{
  ℕ, Bool, true, false, not, ◌&&◌, ◌||◌, Option, none, some, List, [], ◌∷◌, ◌++◌, Str, codes, eqs,
  is_empty, itoa, ◌==◌, if◌then◌else◌,
}
use balvibot.Errors.{Error, Result, ok, err, message, quote, is_not_found}
use balvibot.Store.Schema.{Address, ThreadRow, RecipientRow, AttachmentRow}
use balvibot.Store.Exec.{Exec, pure, fail, lift, or_else, ◌>>=◌}
use balvibot.Store.Grantees.{get_grantee}
use balvibot.Store.Docs.{
  Time, Doc, DocSummary, status_stale, get_doc_for_grantee, list_docs_for_grantee,
}
use balvibot.Store.Queries.{
  MessageSummary, ThreadSummary, SearchParams, list_messages_by_grantee, list_threads_by_grantee,
  get_thread_messages, search_messages, list_attachments_by_message,
}
use balvibot.Store.Queries.Detail.{FullMessage, get_message}
use balvibot.Store.Queries.Summaries.{GranteeSummary, grantee_summaries}
use balvibot.McpServer.Queue.{require, grantee_missing}

abbrev bearer : Str
bearer = codes "Bearer "

-- strings.TrimPrefix(s, prefix), where `rest` is what is left of `s` after the bytes that agree
unfoldable pub trim_prefix_from : Str → Str → Str → Str
trim_prefix_from whole [] rest = rest
trim_prefix_from whole (a ∷ p) [] = whole
trim_prefix_from whole (a ∷ p) (b ∷ rest) =
    let next = trim_prefix_from whole p rest in if a == b then next else whole

-- bearerAuth: whether a request for the path with that Authorization header is passed on
unfoldable pub bearer_auth : Str → Str → Str → Bool
unfolding trim_prefix_from
bearer_auth token path authorization =
    if eqs path (codes "/healthz")
    then true
    else let got = trim_prefix_from authorization bearer authorization in
      not (is_empty got || not (eqs got token))

-- type ListEmailsForGranteeInput, and ListThreadsForGranteeInput with the same fields
pub record ListForGranteeInput : Type 0 where
  pub grantee_id : Str
  pub since : Str
  pub until : Str
  pub limit : ℕ
  pub cursor : ℕ

-- type SearchEmailsInput
pub record SearchEmailsInput : Type 0 where
  pub grantee_id : Str
  pub from_text : Str
  pub subject : Str
  pub body : Str
  pub since : Str
  pub until : Str
  pub limit : ℕ
  pub cursor : ℕ

-- type ListDocumentsForGranteeInput
pub record ListDocumentsForGranteeInput : Type 0 where
  pub grantee_id : Str
  pub limit : ℕ
  pub cursor : ℕ

-- type GetDocumentInput
pub record GetDocumentInput : Type 0 where
  pub grantee_id : Str
  pub doc_id : Str

-- type DocumentMetadata
pub record DocumentMetadata : Type 0 where
  pub doc_id : Str
  pub grantee_id : Str
  pub title : Str
  pub modified_at : Time
  pub synced_at : Time
  pub had_images : Bool
  pub had_comments : Bool
  pub status : Str
  pub stale : Bool
  pub last_error : Str

-- type DocumentDetail: its fields besides the metadata are the markdown
pub record DocumentDetail : Type 0 where
  pub metadata : DocumentMetadata
  pub content_markdown : Str

-- listGrantees
unfoldable pub list_grantees_tool : Exec (List GranteeSummary)
unfolding grantee_summaries
list_grantees_tool = grantee_summaries

abbrev found_message : Str → Option FullMessage → Exec FullMessage
found_message id none = fail (message (codes "message " ++ (quote id ++ codes " not found")))
found_message id (some m) = pure m

-- getEmail
unfoldable pub get_email : Str → Exec FullMessage
unfolding ◌>>=◌ get_message quote
get_email id = require id (codes "id is required") (get_message id >>= found_message id)

abbrev found_thread :
    ℕ → Option (ThreadRow × List MessageSummary) → Exec (ThreadRow × List MessageSummary)
found_thread id none = fail (message (codes "thread " ++ (itoa id ++ codes " not found")))
found_thread id (some t) = pure t

-- getThread
unfoldable pub get_thread_tool : ℕ → Exec (ThreadRow × List MessageSummary)
unfolding ◌>>=◌ get_thread_messages itoa
get_thread_tool id =
    if id == 0
    then fail (message (codes "thread_id is required"))
    else get_thread_messages id >>= found_thread id

-- listAttachments
unfoldable pub list_attachments : ℕ → Exec (List AttachmentRow)
unfolding list_attachments_by_message
list_attachments message_id =
    if message_id == 0
    then fail (message (codes "message_id is required"))
    else list_attachments_by_message message_id

-- listDocumentsForGrantee
unfoldable pub list_documents_for_grantee :
    ListDocumentsForGranteeInput → Exec (List DocSummary × ℕ)
unfolding or_else get_grantee list_docs_for_grantee is_not_found
list_documents_for_grantee input = require input.grantee_id (codes "grantee_id is required") (
    or_else (get_grantee input.grantee_id) (grantee_missing input.grantee_id)
      λ g. list_docs_for_grantee input.grantee_id input.limit input.cursor)

abbrev document_missing : {A : Type 0} → GetDocumentInput → Error → Exec A
document_missing input e =
    if is_not_found e
    then fail (
        message (
          codes "document_not_found: "
          ++ (input.doc_id ++ (codes " for grantee " ++ input.grantee_id))))
    else fail e

abbrev pub metadata_of : Doc → DocumentMetadata
metadata_of d = record {
  doc_id = d.doc_id;
  grantee_id = d.grantee_id;
  title = d.title;
  modified_at = d.modified_at;
  synced_at = d.synced_at;
  had_images = d.had_images;
  had_comments = d.had_comments;
  status = d.status;
  stale = eqs d.status status_stale;
  last_error = d.last_error;
}

abbrev pub detail_of : Doc → DocumentDetail
detail_of d = record { metadata = metadata_of d; content_markdown = d.content_markdown }

abbrev pub with_document : {A : Type 0} → GetDocumentInput → (Doc → A) → Exec A
with_document input f =
    if is_empty input.grantee_id || is_empty input.doc_id
    then fail (message (codes "grantee_id and doc_id are required"))
    else or_else (get_doc_for_grantee input.grantee_id input.doc_id) (document_missing input)
        (λ d. pure (f d))

-- getDocumentForGrantee
unfoldable pub get_document_for_grantee : GetDocumentInput → Exec DocumentDetail
unfolding or_else get_doc_for_grantee is_not_found
get_document_for_grantee input = with_document input detail_of

-- getDocumentMetadata
unfoldable pub get_document_metadata : GetDocumentInput → Exec DocumentMetadata
unfolding or_else get_doc_for_grantee is_not_found
get_document_metadata input = with_document input metadata_of

abbrev parsed_plain : Str → Result ℕ → Result (Option ℕ)
parsed_plain s (ok t) = ok (some t)
parsed_plain s (err e) =
    err (message (codes "invalid timestamp " ++ (quote s ++ codes ": expected RFC 3339")))

abbrev parsed_nano : Str → Result ℕ → Result ℕ → Result (Option ℕ)
parsed_nano s (ok t) plain = ok (some t)
parsed_nano s (err e) plain = parsed_plain s plain

-- `nano` and `plain` are time.Parse with the layouts RFC3339Nano and RFC3339, in Unix seconds.
module _ (nano plain : Str → Result ℕ) where
  -- parseTimeBound
  unfoldable pub parse_time_bound : Str → Result (Option ℕ)
  unfolding quote
  parse_time_bound s = if is_empty s then ok none else parsed_nano s (nano s) (plain s)

  -- listEmailsForGrantee
  unfoldable pub list_emails_for_grantee : ListForGranteeInput → Exec (List MessageSummary × ℕ)
  unfolding ◌>>=◌ parse_time_bound list_messages_by_grantee
  list_emails_for_grantee input = require input.grantee_id (codes "grantee_id is required") (do
    since ← lift (parse_time_bound input.since)
    until ← lift (parse_time_bound input.until)
    list_messages_by_grantee input.grantee_id since until input.limit input.cursor)

  -- listThreadsForGrantee
  unfoldable pub list_threads_for_grantee : ListForGranteeInput → Exec (List ThreadSummary × ℕ)
  unfolding ◌>>=◌ parse_time_bound list_threads_by_grantee
  list_threads_for_grantee input = require input.grantee_id (codes "grantee_id is required") (do
    since ← lift (parse_time_bound input.since)
    until ← lift (parse_time_bound input.until)
    list_threads_by_grantee input.grantee_id since until input.limit input.cursor)

  -- searchEmails
  unfoldable pub search_emails : SearchEmailsInput → Exec (List MessageSummary × ℕ)
  unfolding ◌>>=◌ parse_time_bound search_messages
  search_emails input = do
    since ← lift (parse_time_bound input.since)
    until ← lift (parse_time_bound input.until)
    search_messages (record {
      grantee_id = input.grantee_id;
      from_text = input.from_text;
      subject = input.subject;
      body = input.body;
      since = since;
      until = until;
      limit = input.limit;
      cursor = input.cursor;
    })
