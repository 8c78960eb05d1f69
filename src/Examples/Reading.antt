-- ===== src/Examples/Reading.antt =====
-- The theorems on the tools that read, at a world with a document and two messages.
use balvibot.Prelude.{
  ℕ, arith, inl, inr, sym, IsIn, ◌≤◌, map, ◌≡◌, refl, true, false, none, some, List, [], ◌∷◌,
  Option, Str, codes, eqs, find_row, any_row, where_rows, sort_rows, trim_space, All,
}
use balvibot.Errors.{Result, ok, err, message, is_no_rows}
use balvibot.Store.Schema.{MessageRow}
use balvibot.Store.Exec.{World, select}
use balvibot.Store.Docs.{scan_doc_summary}
use balvibot.McpServer.Reads.{
  ListForGranteeInput, SearchEmailsInput, ListDocumentsForGranteeInput, GetDocumentInput,
  metadata_of, detail_of, bearer_auth, list_emails_for_grantee, list_threads_for_grantee,
  search_emails, get_document_for_grantee, get_document_metadata, list_documents_for_grantee,
}
use mathlib.Core.Path.{subst}
use balvibot.Store.Notes.{clamp_limit}
use balvibot.Store.Docs.{page_of}
use balvibot.Store.Queries.{
  MessageSummary, list_messages_by_grantee, messages_after, message_matches, grantee_where,
  scan_message_summary,
}
use balvibot.Store.Queries.Skipped.{page, ids, ids_from, skipped_is_lost}
use balvibot.Store.Queries.Detail.{parse_int}
use balvibot.McpServer.Reads.Own.{IfOk, mail_is_own}
use balvibot.McpServer.Reads.Documents.{FromOwn, OwnDocument, document_is_own}
use balvibot.Examples.Documents.{docs_world}

abbrev mail : ℕ → Option Str → MessageRow
mail id grantee = record {
  id = id;
  message_id = codes "m@x";
  thread_id = 1;
  grantee_id = grantee;
  folder = codes "INBOX";
  uid = id;
  uid_validity = 1;
  in_reply_to = none;
  references_raw = none;
  from_addr = codes "bob@example.org";
  from_name = none;
  to_addrs = [];
  cc_addrs = [];
  subject = some (codes "Hello");
  date = 60;
  body_text = some (codes "hi");
  body_html = none;
  size_bytes = 9;
  indexed_at = 70;
}

abbrev mail_world : World
mail_world = record docs_world {
  db = record docs_world.db {
    messages = mail 1 (some (codes "acme")) ∷ mail 2 (some (codes "other")) ∷ mail 3 none ∷ [];
  };
}

abbrev no_time : Str → Result ℕ
no_time s = err (message (codes "no time"))

abbrev acme_input : ListForGranteeInput
acme_input = record { grantee_id = codes "acme"; since = []; until = []; limit = 10; cursor = 0 }

abbrev acme_search : SearchEmailsInput
acme_search = record {
  grantee_id = codes "acme";
  from_text = [];
  subject = [];
  body = [];
  since = [];
  until = [];
  limit = 10;
  cursor = 0;
}

not_unassigned : eqs (codes "acme") (codes "_unassigned") ≡ false
unfolding eqs
not_unassigned = refl

mail_is_own_example :
    IfOk
      (λ r. All (λ m. m.grantee_id ≡ some (codes "acme")) r.0)
      (list_emails_for_grantee no_time no_time acme_input mail_world).0
    × IfOk
        (λ r. All (λ t. t.grantee_id ≡ some (codes "acme")) r.0)
        (list_threads_for_grantee no_time no_time acme_input mail_world).0
    × IfOk
        (λ r. All (λ m. m.grantee_id ≡ some (codes "acme")) r.0)
        (search_emails no_time no_time acme_search mail_world).0
mail_is_own_example =
    mail_is_own no_time no_time (codes "acme") refl not_unassigned acme_input acme_search mail_world
      refl refl

abbrev ids_of : Result (List MessageSummary × ℕ) → List ℕ
ids_of (ok (ms, next)) = map (λ m. m.id) ms
ids_of (err e) = []

-- Of the three messages one is listed.
one_listed : ids_of (list_emails_for_grantee no_time no_time acme_input mail_world).0 ≡ 1 ∷ []
unfolding list_emails_for_grantee eqs where_rows sort_rows any_row trim_space
one_listed = refl

abbrev report_input : GetDocumentInput
report_input = record { grantee_id = codes "acme"; doc_id = codes "d1" }

abbrev acme_documents : ListDocumentsForGranteeInput
acme_documents = record { grantee_id = codes "acme"; limit = 10; cursor = 0 }

document_is_own_example :
    IfOk
      (OwnDocument docs_world.db report_input detail_of)
      (get_document_for_grantee report_input docs_world).0
    × IfOk
        (OwnDocument docs_world.db report_input metadata_of)
        (get_document_metadata report_input docs_world).0
    × IfOk
        (λ page. All (FromOwn docs_world.db (codes "acme") scan_doc_summary) page.0)
        (list_documents_for_grantee acme_documents docs_world).0
document_is_own_example = document_is_own report_input acme_documents docs_world

-- The document is not given for another grantee.
other_grantee :
    (get_document_for_grantee
      (record { grantee_id = codes "other"; doc_id = codes "d1" })
      docs_world).0
    ≡ err (message (codes "document_not_found: d1 for grantee other"))
unfolding get_document_for_grantee find_row eqs is_no_rows
other_grantee = refl

token_test : bearer_auth (codes "t") (codes "/mcp") (codes "Bearer t") ≡ true
unfolding bearer_auth eqs
token_test = refl

no_token_test : bearer_auth (codes "t") (codes "/mcp") (codes "Bearer ") ≡ false
unfolding bearer_auth eqs
no_token_test = refl

number_test : parse_int (codes "-12") ≡ some none
unfolding parse_int
number_test = refl

id_test : parse_int (codes "m@x") ≡ none
unfolding parse_int
id_test = refl

-- The newest message has the lowest id.
abbrev dated_world : World
dated_world = record docs_world {
  db = record docs_world.db {
    messages =
        record (mail 1 (some (codes "acme"))) { date = 90 } ∷ mail 2 (some (codes "acme")) ∷ [];
  };
}

abbrev first_listed : List MessageSummary
first_listed =
    record {
      id = 1;
      message_id = codes "m@x";
      thread_id = 1;
      grantee_id = some (codes "acme");
      folder = codes "INBOX";
      from_address = record { name = []; email = codes "bob@example.org" };
      subject = codes "Hello";
      date = 90;
      has_attachments = false;
      snippet = codes "hi";
    }
    ∷ []

first_page : page (codes "acme") none none 1 dated_world 0 ≡ (first_listed, 1)
unfolding page list_messages_by_grantee eqs where_rows sort_rows any_row trim_space page_of
    clamp_limit messages_after message_matches grantee_where scan_message_summary select
first_page = refl

second_missing :
    ¬ IsIn 2
      (ids (codes "acme") none none 1 dated_world (page (codes "acme") none none 1 dated_world 0).0)
second_missing m =
    elim (subst
      (λ (r : List MessageSummary × ℕ). IsIn 2 (ids (codes "acme") none none 1 dated_world r.0))
      first_page m) [ inl e ↦ omega (arith, e) | inr h ↦ h ]

cursor_one : (page (codes "acme") none none 1 dated_world 0).1 ≤ 2
cursor_one = subst (λ (r : List MessageSummary × ℕ). r.1 ≤ 2) (sym first_page) (omega arith)

skipped_is_lost_example : ¬ IsIn 2 (ids_from (codes "acme") none none 1 dated_world 6 0)
skipped_is_lost_example =
    skipped_is_lost (codes "acme") none none 1 dated_world refl 5 2 second_missing cursor_one
