-- ===== src/DriveSync/Fresh.antt =====
-- processDoc, while the database answers and Drive has the document, leaves the document active and
-- with the mark of the cycle, and takes neither from another document.
use mathlib.Core.Path.{subst}
use balvibot.Prelude.{
  ℕ, ◌≡◌, refl, sym, ◌∙◌, ◌⊎◌, inl, inr, Bool, true, false, ◌&&◌, Option, none, some, List, [], ◌∷◌,
  ◌++◌, Str, eqs, eqs_iff, any_row, update_rows, ◌==◌, arith,
}
use balvibot.Store.Schema.{Db, DocRow}
use balvibot.Store.Grantees.{status_active}

module _ {A : Type 0} (p hit : A → Bool) (f : A → A) where
  pub any-update :
      (xs : List A)
      → ((x : A) → p x ≡ true → hit x ≡ true → p (f x) ≡ true)
      → any_row p xs ≡ true
      → any_row p (update_rows hit f xs) ≡ true
  unfolding any_row update_rows
  any-update [] h e = cc
  any-update (x ∷ xs) h e = ground (arith, h x, any-update xs h)

  any-updated :
      (xs : List A)
      → ((x : A) → hit x ≡ true → p (f x) ≡ true)
      → any_row hit xs ≡ true
      → any_row p (update_rows hit f xs) ≡ true
  unfolding any_row update_rows
  any-updated [] h e = cc
  any-updated (x ∷ xs) h e = ground (arith, h x, any-updated xs h)

module _ {A : Type 0} (p : A → Bool) where
  any-append : (xs : List A) (y : A) → any_row p xs ≡ true → any_row p (xs ++ y ∷ []) ≡ true
  unfolding any_row
  any-append [] y e = cc
  any-append (x ∷ xs) y e = ground (arith, any-append xs y)

  any-last : (xs : List A) (y : A) → p y ≡ true → any_row p (xs ++ y ∷ []) ≡ true
  unfolding any_row
  any-last [] y e = rw e refl
  any-last (x ∷ xs) y e = ground (arith, any-last xs y)

abbrev pub has_mark : ℕ → Option ℕ → Bool
has_mark cycle none = false
has_mark cycle (some k) = k == cycle

-- The document with the id, active and seen in the cycle.
abbrev pub is_fresh : ℕ → Str → DocRow → Bool
is_fresh cycle id d =
    eqs d.doc_id id && eqs d.status status_active && has_mark cycle d.last_seen_cycle

module _ (old : Db) (cycle : ℕ) where
  -- In the course of the cycle: the documents with the ids of `K` are fresh.
  pub record Here (K : Str → Type 0) (db : Db) : Type 0 where
    pub grantees : db.grantees ≡ old.grantees
    pub sources : db.sources ≡ old.sources
    pub fresh : (id : Str) → K id → any_row (is_fresh cycle id) db.docs ≡ true

  pub Here-narrow :
      (K L : Str → Type 0) (db : Db) → ((id : Str) → L id → K id) → Here K db → Here L db
  Here-narrow K L db sub h = record {
    grantees = h.grantees;
    sources = h.sources;
    fresh = λ id l. h.fresh id (sub id l);
  }

  -- With one more id.
  abbrev pub With : (Str → Type 0) → Str → Str → Type 0
  With K new id = K id ⊎ (new ≡ id)

  fresh_is_mine :
      (id new : Str) (d : DocRow)
      → (eqs d.doc_id id && eqs d.status status_active && has_mark cycle d.last_seen_cycle) ≡ true
      → eqs d.doc_id new ≡ true
      → new ≡ id
  fresh_is_mine id new d p h =
      sym ((eqs_iff d.doc_id new).0 h) ∙ (eqs_iff d.doc_id id).0 (ground arith)

  module _ (K : Str → Type 0) (new : Str) where
    -- Rows with the id replaced by fresh ones.
    pub Here-update :
        (f : DocRow → DocRow) (db : Db)
        → ((d : DocRow) → eqs d.doc_id new ≡ true → is_fresh cycle new (f d) ≡ true)
        → any_row (λ d. eqs d.doc_id new) db.docs ≡ true
        → Here K db
        → Here (With K new) (record db { docs = update_rows (λ d. eqs d.doc_id new) f db.docs })
    Here-update f db fresh there h = record {
      grantees = h.grantees;
      sources = h.sources;
      fresh = seen;
    }
      where
        seen :
            (id : Str)
            → With K new id
            → any_row (is_fresh cycle id) (update_rows (λ d. eqs d.doc_id new) f db.docs) ≡ true
        seen id (inl k) =
            any-update (is_fresh cycle id) (λ d. eqs d.doc_id new) f db.docs
              (λ d p hit.
                subst (λ i. is_fresh cycle i (f d) ≡ true) (fresh_is_mine id new d p hit)
                  (fresh d hit))
              (h.fresh id k)
        seen id (inr e) =
            subst
              (λ i.
                any_row (is_fresh cycle i) (update_rows (λ d. eqs d.doc_id new) f db.docs) ≡ true)
              e (any-updated (is_fresh cycle new) (λ d. eqs d.doc_id new) f db.docs fresh there)

    pub Here-append :
        (row : DocRow) (db : Db)
        → is_fresh cycle new row ≡ true
        → Here K db
        → Here (With K new) (record db { docs = db.docs ++ row ∷ [] })
    Here-append row db fresh h = record { grantees = h.grantees; sources = h.sources; fresh = seen }
      where
        seen : (id : Str) → With K new id → any_row (is_fresh cycle id) (db.docs ++ row ∷ []) ≡ true
        seen id (inl k) = any-append (is_fresh cycle id) db.docs row (h.fresh id k)
        seen id (inr e) =
            subst (λ i. any_row (is_fresh cycle i) (db.docs ++ row ∷ []) ≡ true) e
              (any-last (is_fresh cycle new) db.docs row fresh)
