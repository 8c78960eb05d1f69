-- ===== src/DriveSync/Isolation.antt =====
-- processDoc writes to the document of its file and to nothing else.
use balvibot.Prelude.{
  ℕ, ◌≡◌, refl, ◌∙◌, Bool, true, false, not, ◌||◌, none, some, List, [], ◌∷◌, ◌++◌, Str, eqs,
  eqs_refl, is_empty, any_row, where_rows, update_rows, where-update, where-append, ◌==◌,
  if◌then◌else◌,
}
use balvibot.Errors.{Result, ok, err}
use balvibot.Store.Schema.{Db, SourceRow, DocRow}
use balvibot.Store.Exec.{World, now, statement}
use balvibot.Store.Keeps.{
  Keeps, Leaves, Keeps-pure, Keeps-fail, Keeps-if, Keeps-bind, Keeps-now, Keeps-statement,
}
use balvibot.Store.Approvals.{require_one_row}
use balvibot.Store.Text.{null_str}
use balvibot.Store.Docs.{
  Doc, touch_doc_seen, mark_doc_stale, mark_doc_error, upsert_doc, update_docs, put_doc, doc_row,
  status_stale, status_error, with_doc, is_doc_status,
}
use balvibot.Store.Grantees.{status_active, has_grantee, check_violation, foreign_key_violation}
use balvibot.DriveSync.Keeps.{Keeps-process}
use balvibot.DriveSync.{Stats, File, Drive, doc_of, process_doc}

abbrev pub is_doc : Str → DocRow → Bool
is_doc id d = eqs d.doc_id id

-- The other documents and all other tables are as they were.
pub record OthersKept (id : Str) (old db : Db) : Type 0 where
  pub docs :
      where_rows (λ d. not (is_doc id d)) db.docs ≡ where_rows (λ d. not (is_doc id d)) old.docs
  pub rest : record db { docs = [] } ≡ record old { docs = [] }

module _ (id : Str) (old : Db) where
  abbrev Kept : Db → Type 0
  Kept = OthersKept id old

  Keeps-one_row : (n : ℕ) → Keeps Kept (require_one_row n)
  unfolding require_one_row
  Keeps-one_row n = Keeps-if (n == 0) _ _ (λ _. Keeps-fail _) (λ _. Keeps-pure _)

  Keeps-update :
      (f : DocRow → DocRow)
      → ((d : DocRow) → is_doc id d ≡ true → is_doc id (f d) ≡ true)
      → Keeps Kept (statement (update_docs (is_doc id) f))
  unfolding update_docs
  Keeps-update f same =
      Keeps-statement (update_docs (is_doc id) f)
        λ db k. record { docs = where-update (is_doc id) f db.docs same ∙ k.docs; rest = k.rest }

  Leaves-if :
      {A : Type 0} (b : Bool) (r s : Result (A × Db))
      → Leaves Kept r
      → Leaves Kept s
      → Leaves Kept (if b then r else s)
  Leaves-if true r s p q = p
  Leaves-if false r s p q = q

  docs_put :
      (row : DocRow) (docs : List DocRow) (b : Bool)
      → is_doc id row ≡ true
      → where_rows
          (λ d. not (is_doc id d))
          (if b then update_rows (is_doc id) (λ r. row) docs else docs ++ row ∷ [])
        ≡ where_rows (λ d. not (is_doc id d)) docs
  docs_put row docs true h = where-update (is_doc id) (λ r. row) docs (λ d _. h)
  docs_put row docs false h = where-append (is_doc id) docs row h

module _ (old : Db) where
  Leaves-put :
      (row : DocRow) (db : Db)
      → OthersKept row.doc_id old db
      → Leaves (OthersKept row.doc_id old) (put_doc row db)
  unfolding put_doc
  Leaves-put row db k =
      Leaves-if row.doc_id old (not (is_doc_status row.status)) (err check_violation)
        (if not (has_grantee row.grantee_id db)
          then err foreign_key_violation
          else ok (tt, with_doc row db))
        tt
        (Leaves-if row.doc_id old (not (has_grantee row.grantee_id db)) (err foreign_key_violation)
          (ok (tt, with_doc row db)) tt
          (record {
            docs =
                docs_put row.doc_id old row db.docs (any_row (is_doc row.doc_id) db.docs)
                  (eqs_refl row.doc_id)
                ∙ k.docs;
            rest = k.rest;
          }))

  Keeps-upsert : (d : Doc) (cycle : ℕ) → Keeps (OthersKept d.doc_id old) (upsert_doc d cycle)
  unfolding upsert_doc doc_row
  Keeps-upsert d cycle =
      Keeps-if (is_empty d.doc_id || is_empty d.grantee_id) _ _ (λ _. Keeps-fail _)
        λ _. Keeps-bind now _ Keeps-now λ t.
          let row = doc_row d (if is_empty d.status then status_active else d.status) t cycle in
          Keeps-statement (put_doc row) (Leaves-put row)

module _ (drive : Drive) (grantee_id : Str) (src : SourceRow) (cycle : ℕ) (f : File) (stats : Stats)
    (old : Db) where
  abbrev Mine : Db → Type 0
  Mine = OthersKept f.id old

  Keeps-touch : Keeps Mine (touch_doc_seen f.id cycle)
  unfolding touch_doc_seen
  Keeps-touch = Keeps-bind now _ Keeps-now λ t.
      Keeps-bind (statement (update_docs (is_doc f.id) _)) require_one_row
        (Keeps-update f.id old
          (λ d. record d {
            last_seen_cycle = some cycle;
            synced_at = t;
            status = status_active;
            last_error = none;
          })
          (λ d h. h))
        (Keeps-one_row f.id old)

  Keeps-stale_flag : (msg : Str) → Keeps Mine (mark_doc_stale f.id msg)
  unfolding mark_doc_stale
  Keeps-stale_flag msg =
      Keeps-bind (statement (update_docs (is_doc f.id) _)) _
        (Keeps-update f.id old (λ d. record d { status = status_stale; last_error = null_str msg })
          (λ d h. h))
        (λ n. Keeps-pure tt)

  Keeps-error_flag : (msg : Str) → Keeps Mine (mark_doc_error f.id msg)
  unfolding mark_doc_error
  Keeps-error_flag msg =
      Keeps-bind (statement (update_docs (is_doc f.id) _)) _
        (Keeps-update f.id old (λ d. record d { status = status_error; last_error = null_str msg })
          (λ d h. h))
        (λ n. Keeps-pure tt)

-- processDoc, whatever Drive answers and whatever statements fail, leaves the other documents as
-- they were, in their order, and all other tables.
pub process_doc-OthersKept :
    (drive : Drive) (grantee_id : Str) (src : SourceRow) (cycle : ℕ) (f : File) (stats : Stats)
    (w : World)
    → OthersKept f.id w.db (process_doc drive grantee_id src cycle f stats w).1.db
process_doc-OthersKept drive grantee_id src cycle f stats w =
    (Keeps-process drive grantee_id src cycle f stats
        (Keeps-touch drive grantee_id src cycle f stats w.db)
        (Keeps-stale_flag drive grantee_id src cycle f stats w.db)
        (Keeps-error_flag drive grantee_id src cycle f stats w.db)
        (λ t markdown.
          Keeps-upsert w.db (doc_of drive grantee_id src cycle f stats t markdown) cycle)).at
      w (record { docs = refl; rest = refl })
