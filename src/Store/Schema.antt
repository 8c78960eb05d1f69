-- ===== src/Store/Schema.antt =====
-- The tables of tools/api/migrations that the program uses, as lists of rows in the order of their
-- insertion. A nullable column is an `Option`, an identity column has its next value in the
-- database, and a `time.Time` that is stored as Unix seconds is its number of seconds.
use balvibot.Prelude.{ℕ, Bool, Option, List, Str}

-- type Grantee, table grantees
pub record GranteeRow : Type 0 where
  pub grantee_id : Str
  pub display_name : Option Str
  pub status : Str
  pub created_at : ℕ

-- table grantee_emails
pub record EmailRow : Type 0 where
  pub email : Str
  pub grantee_id : Str

-- type Source, table grantee_sources
pub record SourceRow : Type 0 where
  pub id : ℕ
  pub grantee_id : Str
  pub source_type : Str
  pub drive_id : Str
  pub added_at : ℕ

-- type Thread, table threads
pub record ThreadRow : Type 0 where
  pub id : ℕ
  pub root_message_id : Str
  pub subject_norm : Str
  pub grantee_id : Option Str
  pub first_seen_at : ℕ
  pub last_seen_at : ℕ

-- type Address
pub record Address : Type 0 where
  pub name : Str
  pub email : Str

-- type Message, table messages, with the columns that the program reads back
pub record MessageRow : Type 0 where
  pub id : ℕ
  pub message_id : Str
  pub thread_id : ℕ
  pub grantee_id : Option Str
  pub folder : Str
  pub uid : ℕ
  pub uid_validity : ℕ
  pub in_reply_to : Option Str
  pub references_raw : Option Str
  pub from_addr : Str
  pub from_name : Option Str
  pub to_addrs : List Address
  pub cc_addrs : List Address
  pub subject : Option Str
  pub date : ℕ
  pub body_text : Option Str
  pub body_html : Option Str
  pub size_bytes : ℕ
  pub indexed_at : ℕ

-- table message_references
pub record ReferenceRow : Type 0 where
  pub message_id : ℕ
  pub ref : Str

-- type Recipient, table message_recipients
pub record RecipientRow : Type 0 where
  pub message_id : ℕ
  pub kind : Str
  pub email : Str
  pub name : Option Str

-- type Attachment, table attachments
pub record AttachmentRow : Type 0 where
  pub id : ℕ
  pub message_id : ℕ
  pub filename : Option Str
  pub mime_type : Option Str
  pub size_bytes : ℕ
  pub sha256 : Str
  pub path : Str

-- type MailboxState, table mailbox_state
pub record MailboxRow : Type 0 where
  pub folder : Str
  pub uid_validity : ℕ
  pub last_uid : ℕ
  pub updated_at : ℕ

-- type Doc, table docs
pub record DocRow : Type 0 where
  pub doc_id : Str
  pub grantee_id : Str
  pub title : Str
  pub owner_email : Str
  pub content_markdown : Str
  pub modified_at : ℕ
  pub synced_at : ℕ
  pub source_type : Str
  pub source_drive_id : Str
  pub had_images : Bool
  pub had_comments : Bool
  pub status : Str
  pub last_error : Option Str
  pub last_seen_cycle : Option ℕ

-- table sync_state, its two keys as two columns: the cycle counter and the last success
pub record SyncRow : Type 0 where
  pub cycle_counter : Option ℕ
  pub last_successful_sync : Option ℕ

-- type ApprovalUser, table approval_users
pub record UserRow : Type 0 where
  pub email : Str
  pub ssh_public_key : Str
  pub fingerprint : Str
  pub created_at : ℕ

-- type ApprovalAction, table approval_actions
pub record ActionRow : Type 0 where
  pub id : ℕ
  pub action : Str
  pub args : Str
  pub metadata : Str
  pub status : Str
  pub requested_by : Option Str
  pub approved_by : Option Str
  pub created_at : ℕ
  pub approved_at : Option ℕ
  pub executed_at : Option ℕ
  pub last_error : Option Str

-- type Note, table notes
pub record NoteRow : Type 0 where
  pub id : ℕ
  pub grantee_id : Str
  pub kind : Str
  pub content : Str
  pub signal_number : Option Str
  pub supersedes_id : Option ℕ
  pub created_at : ℕ

-- The database.
pub record Db : Type 0 where
  pub grantees : List GranteeRow
  pub grantee_emails : List EmailRow
  pub sources : List SourceRow
  pub next_source : ℕ
  pub threads : List ThreadRow
  pub next_thread : ℕ
  pub messages : List MessageRow
  pub next_message : ℕ
  pub message_references : List ReferenceRow
  pub recipients : List RecipientRow
  pub attachments : List AttachmentRow
  pub next_attachment : ℕ
  pub mailboxes : List MailboxRow
  pub docs : List DocRow
  pub sync_state : SyncRow
  pub users : List UserRow
  pub actions : List ActionRow
  pub next_action : ℕ
  pub notes : List NoteRow
  pub next_note : ℕ
