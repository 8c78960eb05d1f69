-- ===== src/McpServer/Reads/Documents.antt =====
-- The reading tools for documents and the grantee that they are asked for.
use mathlib.Core.Path.{subst}
use balvibot.Prelude.{
  and_true, ℕ, ◌≡◌, refl, ap, Bool, true, false, ◌&&◌, ◌||◌, List, Str, eqs, eqs_iff, is_empty, All,
  IsIn, find-IsIn, find_row, find_row-holds, if◌then◌else◌,
}
use balvibot.Errors.{Error, Result, ok, err, is_not_found}
use balvibot.Store.Schema.{Db, DocRow}
use balvibot.Store.Exec.{World, Exec, fail}
use balvibot.Store.Gives.{
  Fits, Gives, Gives-pure, Gives-fail, Gives-or_else, Gives-select, Gives-Keeps,
}
use balvibot.Store.Approvals.{row_or_none, missing}
use balvibot.Store.Grantees.{get_grantee}
use balvibot.Store.Docs.{
  Doc, DocSummary, scan_doc, scan_doc_summary, get_doc_for_grantee, list_docs_for_grantee,
  docs_after, doc_before,
}
use balvibot.Store.Reads.{row_found}
use balvibot.Store.Paged.{page_holds}
use balvibot.McpServer.Queue.Isolation.{Keeps-get_grantee}
use balvibot.McpServer.Reads.{
  ListDocumentsForGranteeInput, GetDocumentInput, metadata_of, detail_of, with_document,
  list_documents_for_grantee, get_document_for_grantee, get_document_metadata,
}
use balvibot.McpServer.Reads.Own.{IfOk, same_ok, Gives-unless}

-- A row of the table that is about the grantee, and the value that is read from it.
abbrev pub FromOwn : {A : Type 0} → Db → Str → (DocRow → A) → A → Type 0
FromOwn db g scan a = (r : DocRow) × IsIn r db.docs × (r.grantee_id ≡ g) × (a ≡ scan r)

module _ (old : Db) where
  abbrev Same : Db → Type 0
  Same db = db ≡ old

  Gives-error :
      {A : Type 0} (Q : A → Db → Type 0) (b : Bool) (e f : Error)
      → Gives (λ _. Unit) Q (if b then fail e else fail f)
  Gives-error Q true e f = Gives-fail Q e
  Gives-error Q false e f = Gives-fail Q f

  abbrev OwnDoc : GetDocumentInput → Doc → Db → Type 0
  OwnDoc input d db =
      (r : DocRow) × IsIn r old.docs
      × (r.grantee_id ≡ input.grantee_id)
      × (r.doc_id ≡ input.doc_id)
      × (d ≡ scan_doc r)

  abbrev OwnRow : GetDocumentInput → DocRow → Db → Type 0
  OwnRow input r db =
      IsIn r old.docs × (r.grantee_id ≡ input.grantee_id) × (r.doc_id ≡ input.doc_id)

  row_own :
      (input : GetDocumentInput) (db : Db) (r : DocRow)
      → Same db
      → row_or_none
          (find_row (λ d. eqs d.doc_id input.doc_id && eqs d.grantee_id input.grantee_id) db.docs)
        ≡ ok r
      → OwnRow input r db
  row_own input db r same h =
      let found = row_found _ r h in
      let (id, g) = and_true _ _ (
        find_row-holds (λ d. eqs d.doc_id input.doc_id && eqs d.grantee_id input.grantee_id) db.docs
          r found) in
      (
        subst (λ (k : Db). IsIn r k.docs) same
            (find-IsIn (λ d. eqs d.doc_id input.doc_id && eqs d.grantee_id input.grantee_id) r
              db.docs found),
        (eqs_iff r.grantee_id input.grantee_id).0 g,
        (eqs_iff r.doc_id input.doc_id).0 id,
      )

  Gives-doc :
      (input : GetDocumentInput)
      → Gives Same (OwnDoc input) (get_doc_for_grantee input.grantee_id input.doc_id)
  unfolding get_doc_for_grantee missing
  Gives-doc input =
      Gives-or_else (OwnRow input) (OwnDoc input) _ _ _
        (Gives-select (OwnRow input) _ (λ db same r h. row_own input db r same h))
        (λ e. Gives-error (OwnDoc input) _ _ e)
        (λ r. Gives-pure (OwnDoc input) (scan_doc r) (λ db (m, g, id). (r, m, g, id, refl)))

  abbrev pub OwnDocument : {A : Type 0} → GetDocumentInput → (Doc → A) → A → Type 0
  OwnDocument input f a =
      (r : DocRow) × IsIn r old.docs
      × (r.grantee_id ≡ input.grantee_id)
      × (r.doc_id ≡ input.doc_id)
      × (a ≡ f (scan_doc r))

  Gives-document :
      {A : Type 0} (input : GetDocumentInput) (f : Doc → A)
      → Gives Same (λ a db. OwnDocument input f a) (with_document input f)
  Gives-document input f = Gives-unless _ (is_empty input.grantee_id || is_empty input.doc_id) _ _ (
      Gives-or_else (OwnDoc input) _ (get_doc_for_grantee input.grantee_id input.doc_id) _ _
        (Gives-doc input) (λ e. Gives-error _ (is_not_found e) _ e)
        (λ d. Gives-pure _ (f d) (λ db (r, m, g, id, q). (r, m, g, id, ap f q))))

  abbrev OwnRows : Str → List DocSummary × ℕ → Type 0
  OwnRows g page = All (FromOwn old g scan_doc_summary) page.0

  Gives-list :
      (g : Str) (limit cursor : ℕ)
      → Gives Same (λ page db. OwnRows g page) (list_docs_for_grantee g limit cursor)
  unfolding list_docs_for_grantee docs_after
  Gives-list g limit cursor =
      Gives-select (λ page db. OwnRows g page) _
        λ db same a e. subst (OwnRows g) (same_ok _ a e) (
          page_holds (λ r. IsIn r old.docs × (r.grantee_id ≡ g)) (FromOwn old g scan_doc_summary)
            scan_doc_summary doc_before _ (λ r (m, q). (r, m, q, refl)) _ _ _ db.docs
            λ r within hit. (
              subst (λ (k : Db). IsIn r k.docs) same within,
              (eqs_iff r.grantee_id g).0 (and_true (eqs r.grantee_id g) _ hit).0,
            ))

  Gives-documents :
      (input : ListDocumentsForGranteeInput)
      → Gives Same (λ page db. OwnRows input.grantee_id page) (list_documents_for_grantee input)
  unfolding list_documents_for_grantee
  Gives-documents input = Gives-unless _ (is_empty input.grantee_id) _ _ (
      Gives-or_else (λ g. Same) _ (get_grantee input.grantee_id) _ _
        (Gives-Keeps (get_grantee input.grantee_id) (Keeps-get_grantee input.grantee_id))
        (λ e. Gives-error _ (is_not_found e) _ e)
        (λ g. Gives-list input.grantee_id input.limit input.cursor))

answered_from :
    {A : Type 0} (R : A → Type 0) (m : Exec A) (w : World)
    → Gives (Same w.db) (λ a db. R a) m
    → IfOk R (m w).0
answered_from {A} R m w gives = cases (m w) (gives.at w refl)
  where
    cases : (r : Result A × World) → Fits (λ a db. R a) r → IfOk R r.0
    cases (ok a, w) h = h
    cases (err e, w) h = tt

-- What the tools answer about a document is read from a row of the table that has the id that was
-- asked for and is about the grantee that was asked for; what list_documents_for_grantee answers is read from
-- rows that are about the grantee that was asked for.
pub document_is_own :
    (input : GetDocumentInput) (list : ListDocumentsForGranteeInput) (w : World)
    → IfOk (OwnDocument w.db input detail_of) (get_document_for_grantee input w).0
      × IfOk (OwnDocument w.db input metadata_of) (get_document_metadata input w).0
      × IfOk
          (λ page. All (FromOwn w.db list.grantee_id scan_doc_summary) page.0)
          (list_documents_for_grantee list w).0
unfolding get_document_for_grantee get_document_metadata
document_is_own input list w = (
  answered_from (OwnDocument w.db input detail_of) (with_document input detail_of) w
      (Gives-document w.db input detail_of),
  answered_from (OwnDocument w.db input metadata_of) (with_document input metadata_of) w
      (Gives-document w.db input metadata_of),
  answered_from (OwnRows w.db list.grantee_id) (list_documents_for_grantee list) w
      (Gives-documents w.db list),
)
