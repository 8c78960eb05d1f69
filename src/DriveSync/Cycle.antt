-- ===== src/DriveSync/Cycle.antt =====
-- A document that has the mark of the running cycle is listed: each step of a cycle keeps this.
use mathlib.Core.Path.{subst}
use balvibot.Prelude.{
  ℕ, ◌<◌, ◌≡◌, refl, sym, ◌⊎◌, inr, Bool, true, false, not, ◌||◌, Option, none, some, List, [], ◌∷◌,
  ◌++◌, All, All-append, All-update, Str, eqs, eqs_iff, is_empty, any_row, update_rows, ◌==◌,
  if◌then◌else◌,
}
use balvibot.Errors.{Result, ok, err}
use balvibot.Store.Schema.{Db, SourceRow, DocRow}
use balvibot.Store.Exec.{now, statement}
use balvibot.Store.Keeps.{
  Keeps, Leaves, Keeps-pure, Keeps-fail, Keeps-if, Keeps-bind, Keeps-now, Keeps-statement,
}
use balvibot.Store.Approvals.{require_one_row}
use balvibot.Store.Text.{null_str}
use balvibot.Store.Docs.{
  Doc, touch_doc_seen, mark_doc_stale, mark_doc_error, upsert_doc, update_docs, put_doc, doc_row,
  status_stale, status_error, with_doc, is_doc_status,
}
use balvibot.Store.Grantees.{status_active, has_grantee, check_violation, foreign_key_violation}
use balvibot.DriveSync.{Stats, File, Drive, doc_of, process_doc}
use balvibot.DriveSync.Keeps.{Keeps-process}
use balvibot.DriveSync.Listed.{IsListed, IsListedId}
use balvibot.DriveSync.Visits.{KeepsListed}

module _ (drive : Drive) (old : Db) (cycle : ℕ) where
  -- Where the document has a mark, it is of a cycle before, or the document is listed.
  abbrev pub IsMarked : Str → Option ℕ → Type 0
  IsMarked id none = Unit
  IsMarked id (some k) = (k < cycle) ⊎ ((k ≡ cycle) × IsListedId drive old id)

  abbrev pub IsSeenWell : DocRow → Type 0
  IsSeenWell d = IsMarked d.doc_id d.last_seen_cycle

  -- The tables in the course of the cycle.
  pub record InCycle (db : Db) : Type 0 where
    pub docs : All IsSeenWell db.docs
    pub grantees : db.grantees ≡ old.grantees
    pub sources : db.sources ≡ old.sources

  Keeps-one_row : (n : ℕ) → Keeps InCycle (require_one_row n)
  unfolding require_one_row
  Keeps-one_row n = Keeps-if (n == 0) _ _ (λ _. Keeps-fail _) (λ _. Keeps-pure _)

  pub Keeps-docs :
      (hit : DocRow → Bool) (f : DocRow → DocRow)
      → ((d : DocRow) → IsSeenWell d → hit d ≡ true → IsSeenWell (f d))
      → Keeps InCycle (statement (update_docs hit f))
  unfolding update_docs
  Keeps-docs hit f same = Keeps-statement (update_docs hit f) λ db k. record {
    docs = All-update IsSeenWell IsSeenWell hit f db.docs same (λ d s _. s) k.docs;
    grantees = k.grantees;
    sources = k.sources;
  }

  Leaves-if :
      {A : Type 0} (b : Bool) (r s : Result (A × Db))
      → Leaves InCycle r
      → Leaves InCycle s
      → Leaves InCycle (if b then r else s)
  Leaves-if true r s p q = p
  Leaves-if false r s p q = q

  put_docs :
      (row : DocRow) (b : Bool) (docs : List DocRow)
      → IsSeenWell row
      → All IsSeenWell docs
      → All IsSeenWell (
          if b
          then update_rows (λ d. eqs d.doc_id row.doc_id) (λ r. row) docs
          else docs ++ row ∷ [])
  put_docs row true docs r h =
      All-update IsSeenWell IsSeenWell (λ d. eqs d.doc_id row.doc_id) (λ d. row) docs (λ d _ _. r)
        (λ d s _. s) h
  put_docs row false docs r h = All-append IsSeenWell docs (row ∷ []) h (r, tt)

  Leaves-put :
      (row : DocRow) (db : Db) → IsSeenWell row → InCycle db → Leaves InCycle (put_doc row db)
  unfolding put_doc
  Leaves-put row db r k =
      Leaves-if (not (is_doc_status row.status)) (err check_violation)
        (if not (has_grantee row.grantee_id db)
          then err foreign_key_violation
          else ok (tt, with_doc row db))
        tt
        (Leaves-if (not (has_grantee row.grantee_id db)) (err foreign_key_violation)
          (ok (tt, with_doc row db)) tt
          (record {
            docs = put_docs row (any_row (λ d. eqs d.doc_id row.doc_id) db.docs) db.docs r k.docs;
            grantees = k.grantees;
            sources = k.sources;
          }))

  Keeps-upsert : (d : Doc) → IsListedId drive old d.doc_id → Keeps InCycle (upsert_doc d cycle)
  unfolding upsert_doc doc_row
  Keeps-upsert d listed =
      Keeps-if (is_empty d.doc_id || is_empty d.grantee_id) _ _ (λ _. Keeps-fail _)
        λ _. Keeps-bind now _ Keeps-now λ t.
          let row = doc_row d (if is_empty d.status then status_active else d.status) t cycle in
          Keeps-statement (put_doc row) (λ db k. Leaves-put row db (inr (refl, listed)) k)

  Keeps-touch : (id : Str) → IsListedId drive old id → Keeps InCycle (touch_doc_seen id cycle)
  unfolding touch_doc_seen
  Keeps-touch id listed = Keeps-bind now _ Keeps-now λ t.
      Keeps-bind (statement (update_docs (λ d. eqs d.doc_id id) _)) require_one_row
        (Keeps-docs (λ d. eqs d.doc_id id)
          (λ d. record d {
            last_seen_cycle = some cycle;
            synced_at = t;
            status = status_active;
            last_error = none;
          })
          (λ d _ h.
            inr (refl, subst (IsListedId drive old) (sym ((eqs_iff d.doc_id id).0 h)) listed)))
        Keeps-one_row

  Keeps-stale_flag : (id msg : Str) → Keeps InCycle (mark_doc_stale id msg)
  unfolding mark_doc_stale
  Keeps-stale_flag id msg =
      Keeps-bind (statement (update_docs (λ d. eqs d.doc_id id) _)) _
        (Keeps-docs (λ d. eqs d.doc_id id)
          (λ d. record d { status = status_stale; last_error = null_str msg }) (λ d s _. s))
        (λ n. Keeps-pure tt)

  Keeps-error_flag : (id msg : Str) → Keeps InCycle (mark_doc_error id msg)
  unfolding mark_doc_error
  Keeps-error_flag id msg =
      Keeps-bind (statement (update_docs (λ d. eqs d.doc_id id) _)) _
        (Keeps-docs (λ d. eqs d.doc_id id)
          (λ d. record d { status = status_error; last_error = null_str msg }) (λ d s _. s))
        (λ n. Keeps-pure tt)

  -- processDoc, at a file whose document is listed.
  pub Keeps-listed :
      (grantee_id : Str) (src : SourceRow) (f : File) (s : Stats)
      → IsListed drive old f
      → Keeps InCycle (process_doc drive grantee_id src cycle f s)
  Keeps-listed grantee_id src f s listed =
      Keeps-process drive grantee_id src cycle f s (Keeps-touch f.id (f, listed, refl))
        (Keeps-stale_flag f.id) (Keeps-error_flag f.id)
        (λ t markdown.
          Keeps-upsert (doc_of drive grantee_id src cycle f s t markdown) (f, listed, refl))

  pub InCycle-kept : KeepsListed drive old cycle InCycle
  InCycle-kept = record { document = Keeps-listed; sources = λ db k. k.sources }
