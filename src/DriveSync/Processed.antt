-- ===== src/DriveSync/Processed.antt =====
-- processDoc, while the database answers, at a document that Drive exports.
use mathlib.Core.Path.{subst}
use balvibot.Prelude.{
  ℕ, ◌≡◌, refl, sym, inl, inr, true, false, Option, none, some, [], ◌∷◌, ◌++◌, Str, eqs, eqs_refl,
  is_empty, any_row, update_rows, count_rows, count-any, find-any, find_row-holds, ◌==◌, Bool-cases,
  Option-cases, arith, if◌then◌else◌,
}
use balvibot.Errors.{ok, not_found, is_not_found, is_no_rows}
use balvibot.Store.Schema.{Db, SourceRow, DocRow}
use balvibot.Store.Exec.{World, pure, fail, select, statement, or_else, now}
use balvibot.Store.Reads.{spent}
use balvibot.Store.Calmly.{
  Calmly, Achieved, Calmly-pure, Calmly-given, Calmly-from, Calmly-statement, Calmly-if, Calmly-now,
  Calmly-bind, Calmly-or_else,
}
use balvibot.Store.Approvals.{missing, require_one_row}
use balvibot.Store.Docs.{
  Time, Doc, scan_doc, doc_with_id, get_doc_by_id, touch_doc_seen, upsert_doc, update_docs, put_doc,
  doc_row,
}
use balvibot.Store.Grantees.{status_active, has_grantee}
use balvibot.DriveSync.{
  Stats, File, Drive, one_unchanged, one_synced, one_failed, is_unchanged, existing_doc, doc_of,
  exported, touched, compared, timed, process_doc, mime_doc,
}
use balvibot.DriveSync.Fresh.{is_fresh, Here, With, Here-update, Here-append}

abbrev scanned_doc : Option DocRow → Option Doc
scanned_doc none = none
scanned_doc (some r) = some (scan_doc r)

existing_calm :
    (id : Str) (w : World)
    → w.outages ≡ []
    → existing_doc id w ≡ (ok (scanned_doc (doc_with_id id w.db)), spent w [])
unfolding existing_doc get_doc_by_id or_else select statement missing is_no_rows is_not_found pure
    fail
existing_calm id w c = elim (Option-cases (doc_with_id id w.db)) [
  | inl e ↦ rw (c, e) refl
  | inr (r, e) ↦ rw (c, e) refl
]

-- What GetDocByID says of the tables.
abbrev Found : Str → Option Doc → Db → Type 0
Found id none db = Unit
Found id (some d) db = any_row (λ d. eqs d.doc_id id) db.docs ≡ true

found :
    (id : Str) (db : Db) (o : Option DocRow) → doc_with_id id db ≡ o → Found id (scanned_doc o) db
unfolding doc_with_id
found id db none e = tt
found id db (some r) e =
    find-any (λ d. eqs d.doc_id id) (λ d. eqs d.doc_id id) db.docs r e
      (find_row-holds (λ d. eqs d.doc_id id) db.docs r e)

Calmly-existing :
    (P : Db → Type 0) (id : Str) → Calmly P (λ o db. P db × Found id o db) (existing_doc id)
Calmly-existing P id = record {
  at = λ w c p.
      subst (Achieved (λ o db. P db × Found id o db)) (sym (existing_calm id w c))
        (refl, (p, found id w.db (doc_with_id id w.db) refl));
}

module _ (drive : Drive) (grantee_id : Str) (src : SourceRow) (cycle : ℕ) (f : File) (stats : Stats)
    (old : Db) (K : Str → Type 0) where
  abbrev Before : Db → Type 0
  Before = Here old cycle K

  abbrev After : {A : Type 0} → A → Db → Type 0
  After a = Here old cycle (With old cycle K f.id)

  touched_row :
      (t : ℕ) (d : DocRow)
      → eqs d.doc_id f.id ≡ true
      → is_fresh cycle f.id (record d {
        last_seen_cycle = some cycle;
        synced_at = t;
        status = status_active;
        last_error = none;
      })
        ≡ true
  unfolding eqs
  touched_row t d h = rw h (ground arith)

  one_row : (n : ℕ) → Calmly (λ db. After n db × ((n == 0) ≡ false)) After (require_one_row n)
  unfolding require_one_row
  one_row n = Calmly-given After _ λ db p.
      subst
        (λ b.
          Calmly (λ db. After n db × ((n == 0) ≡ false)) (After {A = Unit {0}})
            (if b then fail not_found else pure tt))
        (sym p.1) (Calmly-pure After tt (λ db q. q.0))

  abbrev touched_with : ℕ → DocRow → DocRow
  touched_with t d = record d {
    last_seen_cycle = some cycle;
    synced_at = t;
    status = status_active;
    last_error = none;
  }

  Calmly-touch :
      Calmly
        (λ db. Before db × (any_row (λ d. eqs d.doc_id f.id) db.docs ≡ true))
        After
        (touch_doc_seen f.id cycle)
  unfolding touch_doc_seen update_docs
  Calmly-touch =
      Calmly-bind (λ t db. Before db × (any_row (λ d. eqs d.doc_id f.id) db.docs ≡ true)) After now
        _ Calmly-now
        λ t.
          Calmly-bind (λ (n : ℕ) db. After n db × ((n == 0) ≡ false)) After
            (statement (update_docs (λ d. eqs d.doc_id f.id) (touched_with t))) require_one_row
            (Calmly-statement (λ (n : ℕ) db. After n db × ((n == 0) ≡ false))
              (update_docs (λ d. eqs d.doc_id f.id) (touched_with t))
              λ db p. (
                count_rows (λ d. eqs d.doc_id f.id) db.docs,
                record db { docs = update_rows (λ d. eqs d.doc_id f.id) (touched_with t) db.docs },
                refl,
                (
                  Here-update old cycle K f.id (touched_with t) db (touched_row t) p.1 p.0,
                  count-any (λ d. eqs d.doc_id f.id) db.docs p.1,
                ),
              ))
            one_row

  module _ (named : is_empty f.id ≡ false) (owned : is_empty grantee_id ≡ false)
      (known : has_grantee grantee_id old ≡ true) where
    abbrev row_of : Time → Str → ℕ → DocRow
    row_of t markdown now =
        doc_row (doc_of drive grantee_id src cycle f stats t markdown) status_active now cycle

    row_fresh :
        (t : Time) (markdown : Str) (now : ℕ) → is_fresh cycle f.id (row_of t markdown now) ≡ true
    unfolding doc_row eqs
    row_fresh t markdown now = rw (eqs_refl f.id) (ground arith)

    known_here : (db : Db) → Before db → has_grantee grantee_id db ≡ true
    known_here db h =
        subst (λ gs. any_row (λ g. eqs g.grantee_id grantee_id) gs ≡ true) (sym h.grantees) known

    row_put :
        (t : Time) (markdown : Str) (now : ℕ) (db : Db)
        → Before db
        → (db' : Db) × (put_doc (row_of t markdown now) db ≡ ok (tt, db')) × After tt db'
    unfolding put_doc doc_row eqs
    row_put t markdown now db h = elim (Bool-cases (any_row (λ d. eqs d.doc_id f.id) db.docs)) [
      | inl e ↦ (
        record db {
          docs = update_rows (λ d. eqs d.doc_id f.id) (λ d. row_of t markdown now) db.docs;
        },
        rw (known_here db h, e) refl,
        Here-update old cycle K f.id (λ d. row_of t markdown now) db
            (λ d h. row_fresh t markdown now) e h,
      )
      | inr e ↦ (
        record db { docs = db.docs ++ row_of t markdown now ∷ [] },
        rw (known_here db h, e) refl,
        Here-append old cycle K f.id (row_of t markdown now) db (row_fresh t markdown now) h,
      )
    ]

    Calmly-upsert :
        (t : Time) (markdown : Str)
        → Calmly Before After
            (upsert_doc (doc_of drive grantee_id src cycle f stats t markdown) cycle)
    unfolding upsert_doc
    Calmly-upsert t markdown =
        rw (named, owned)
          (Calmly-bind (λ now. Before) After now _ Calmly-now
            λ now.
              Calmly-statement After (put_doc (row_of t markdown now))
                λ db h. let (db', e, a) = row_put t markdown now db h in (tt, db', e, a))

    module _ (t : Time) (markdown : Str) where
      Calmly-compared :
          (o : Option Doc)
          → drive.export_markdown f.id ≡ ok markdown
          → Calmly
              (λ db. Before db × Found f.id o db)
              After
              (compared drive grantee_id src cycle f stats t o)
      unfolding compared touched exported
      Calmly-compared o e = Calmly-if After (is_unchanged o t) _ _ (unchanged o) (λ _. rw e (
          Calmly-or_else After After
            (upsert_doc (doc_of drive grantee_id src cycle f stats t markdown) cycle) _ _
            (Calmly-from Before After _ (Calmly-upsert t markdown) (λ db p. p.0))
            (λ _. Calmly-pure After (one_synced stats) (λ db p. p))))
        where
          not_true : false ≡ true → ⊥
          not_true h = cc

          unchanged :
              (o : Option Doc)
              → is_unchanged o t ≡ true
              → Calmly
                  (λ db. Before db × Found f.id o db)
                  After
                  (or_else
                    (touch_doc_seen f.id cycle)
                    (λ _. pure (one_failed stats))
                    (λ _. pure (one_unchanged stats)))
          unchanged none h = absurd (not_true h)
          unchanged (some d) h =
              Calmly-or_else After After (touch_doc_seen f.id cycle) _ _ Calmly-touch
                (λ _. Calmly-pure After (one_unchanged stats) (λ db p. p))

      -- The document is fresh then, and those that were fresh stay so.
      pub Calmly-process :
          eqs f.mime_type mime_doc ≡ true
          → drive.parse_drive_time f.modified_time ≡ ok t
          → drive.export_markdown f.id ≡ ok markdown
          → Calmly Before After (process_doc drive grantee_id src cycle f stats)
      unfolding process_doc timed
      Calmly-process mime time export =
          rw (mime, time)
            (Calmly-or_else (λ o db. Before db × Found f.id o db) After (existing_doc f.id) _
              (compared drive grantee_id src cycle f stats t) (Calmly-existing Before f.id)
              (λ o. Calmly-compared o export))
