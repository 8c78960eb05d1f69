-- ===== src/Store/Queries/Summaries.antt =====
-- tools/api/internal/store/queries.go, ListGrantees and GranteeSummaries.
use balvibot.Prelude.{
  ℕ, Bool, List, [], ◌∷◌, Str, eqs, is_empty, if◌then◌else◌, where_rows, count_rows, sort_rows, map,
  split, join,
}
use balvibot.Errors.{ok}
use balvibot.Store.Schema.{Db, GranteeRow}
use balvibot.Store.Exec.{Exec, select}
use balvibot.Store.Text.{or_empty}
use balvibot.Store.Grantees.{Grantee, scan_grantee, str_lt}

-- emailSep
abbrev email_sep : ℕ
email_sep = 31

-- splitEmails
unfoldable pub split_emails : Str → List Str
unfolding split
split_emails blob = if is_empty blob then [] else split email_sep blob

unfoldable pub emails_of : Str → Db → List Str
emails_of grantee_id db =
    map (λ e. e.email) (where_rows (λ e. eqs e.grantee_id grantee_id) db.grantee_emails)

abbrev grantee_before : GranteeRow → GranteeRow → Bool
grantee_before x y = str_lt x.grantee_id y.grantee_id

-- ListGrantees: each grantee with its addresses, in the order of the table
unfoldable pub list_grantees : Exec (List (Grantee × List Str))
unfolding scan_grantee emails_of split_emails join str_lt
list_grantees = select λ db. ok (
    map (λ g. (scan_grantee g, split_emails (join (email_sep ∷ []) (emails_of g.grantee_id db))))
      (sort_rows grantee_before db.grantees))

-- type GranteeSummary
pub record GranteeSummary : Type 0 where
  pub grantee_id : Str
  pub display_name : Str
  pub status : Str
  pub emails : List Str
  pub document_count : ℕ

-- One row of GranteeSummaries. DISTINCT sorts the addresses, each of which stands in the table once.
unfoldable pub scan_grantee_summary : Db → GranteeRow → GranteeSummary
unfolding emails_of split_emails join str_lt
scan_grantee_summary db g = record {
  grantee_id = g.grantee_id;
  display_name = or_empty g.display_name;
  status = g.status;
  emails = split_emails (join (email_sep ∷ []) (sort_rows str_lt (emails_of g.grantee_id db)));
  document_count = count_rows (λ d. eqs d.grantee_id g.grantee_id) db.docs;
}

-- GranteeSummaries
unfoldable pub grantee_summaries : Exec (List GranteeSummary)
unfolding scan_grantee_summary
grantee_summaries =
    select λ db. ok (map (scan_grantee_summary db) (sort_rows grantee_before db.grantees))
