-- ===== src/Store/Inserted.antt =====
-- The rows that InsertMessage of tools/api/internal/store/store.go writes below a message, and what
-- each of its statements leaves as it was.

use balvibot.Prelude.{
  ℕ, ◌≡◌, refl, ◌⊎◌, inl, inr, Bool, true, false, Bool-cases, ◌&&◌, Option, List, [], ◌∷◌, ◌++◌,
  Str, eqs, citext_eq, any_row, ◌==◌, if◌then◌else◌, All,
}
use balvibot.Errors.{Result, ok, err}
use balvibot.Store.Schema.{Db, MessageRow, ReferenceRow, RecipientRow, AttachmentRow}
use balvibot.Store.Keeps.{Leaves}
use balvibot.Store.Messages.{Attachment, put_reference, put_recipient, put_attachment}

module _ (id : ℕ) where
  abbrev pub HasReference : Str → Db → Type 0
  HasReference ref db =
      any_row (λ (r : ReferenceRow). r.message_id == id && eqs r.ref ref) db.message_references
      ≡ true

  abbrev pub HasRecipient : Str → Str → Db → Type 0
  HasRecipient kind email db =
      any_row
        (λ (r : RecipientRow). r.message_id == id && eqs r.kind kind && citext_eq r.email email)
        db.recipients
      ≡ true

  abbrev pub HasAttachment : Attachment → Db → Type 0
  HasAttachment a db =
      any_row
        (λ (r : AttachmentRow).
          r.message_id == id
          && eqs r.sha256 a.sha256
          && eqs r.path a.path
          && r.size_bytes == a.size_bytes)
        db.attachments
      ≡ true

pub any-append :
    {A : Type 0} (p : A → Bool) (xs ys : List A) → any_row p xs ≡ true → any_row p (xs ++ ys) ≡ true
unfolding any_row
any-append p [] ys h = absurd (false_true h)
  where
    false_true : Bool.false ≡ true → ⊥
    false_true h = cc
any-append p (x ∷ xs) ys h = elim (Bool-cases (p x)) [
  | inl e ↦ rw e refl
  | inr e ↦ rw e (any-append p xs ys (rw e at h))
]

pub any-new :
    {A : Type 0} (p : A → Bool) (xs : List A) (x : A) → p x ≡ true → any_row p (xs ++ x ∷ []) ≡ true
unfolding any_row
any-new p [] x h = rw h refl
any-new p (y ∷ xs) x h = elim (Bool-cases (p y)) [
  | inl e ↦ rw e refl
  | inr e ↦ rw e (any-new p xs x h)
]

-- What a new reference, recipient or attachment leaves as it was.
pub record Stays (P : Db → Type 0) : Type 0 where
  pub reference : (id : ℕ) (ref : Str) (db : Db) → P db → Leaves P (put_reference id ref db)
  pub recipient :
      (id : ℕ) (kind email : Str) (name : Option Str) (db : Db)
      → P db
      → Leaves P (put_recipient id kind email name db)
  pub attachment : (id : ℕ) (a : Attachment) (db : Db) → P db → Leaves P (put_attachment id a db)

both-Leaves :
    {A : Type 0} (P Q : Db → Type 0) (r : Result (A × Db))
    → Leaves P r
    → Leaves Q r
    → Leaves (λ db. P db × Q db) r
both-Leaves P Q (ok (a, db)) p q = (p, q)
both-Leaves P Q (err e) p q = tt

pub both-Stays : (P Q : Db → Type 0) → Stays P → Stays Q → Stays (λ db. P db × Q db)
both-Stays P Q p q = record {
  reference = λ id ref db h.
      both-Leaves P Q (put_reference id ref db) (p.reference id ref db h.0)
        (q.reference id ref db h.1);
  recipient = λ id kind email name db h.
      both-Leaves P Q (put_recipient id kind email name db) (p.recipient id kind email name db h.0)
        (q.recipient id kind email name db h.1);
  attachment = λ id a db h.
      both-Leaves P Q (put_attachment id a db) (p.attachment id a db h.0)
        (q.attachment id a db h.1);
}

Leaves-either :
    (P : Db → Type 0) (b : Bool) (db db' : Db)
    → P db
    → P db'
    → Leaves {A = Unit {0}} P (if b then ok (tt, db) else ok (tt, db'))
Leaves-either P true db db' p q = p
Leaves-either P false db db' p q = q

-- A property of the four tables that more references, recipients and attachments do not harm.
module _ (F : List MessageRow → List ReferenceRow → List RecipientRow → List AttachmentRow → Type 0)
    (more_references : (ms : List MessageRow) (rs : List ReferenceRow) (cs : List RecipientRow)
        (ats : List AttachmentRow) (r : ReferenceRow)
      → F ms rs cs ats
      → F ms (rs ++ r ∷ []) cs ats)
    (more_recipients : (ms : List MessageRow) (rs : List ReferenceRow) (cs : List RecipientRow)
        (ats : List AttachmentRow) (c : RecipientRow)
      → F ms rs cs ats
      → F ms rs (cs ++ c ∷ []) ats)
    (more_attachments : (ms : List MessageRow) (rs : List ReferenceRow) (cs : List RecipientRow)
        (ats : List AttachmentRow) (a : AttachmentRow)
      → F ms rs cs ats
      → F ms rs cs (ats ++ a ∷ [])) where
  abbrev OfTables : Db → Type 0
  OfTables db = F db.messages db.message_references db.recipients db.attachments

  pub tables-Stays : Stays OfTables
  unfolding put_reference put_recipient put_attachment
  tables-Stays = record {
    reference = λ id ref db h. Leaves-either OfTables _ db _ h (more_references _ _ _ _ _ h);
    recipient =
        λ id kind email name db h. Leaves-either OfTables _ db _ h (more_recipients _ _ _ _ _ h);
    attachment = λ id a db h. more_attachments _ _ _ _ _ h;
  }

module _ (id : ℕ) where
  pub reference-Stays : (ref : Str) → Stays (HasReference id ref)
  reference-Stays ref =
      tables-Stays
        (λ ms rs cs ats.
          any_row (λ (r : ReferenceRow). r.message_id == id && eqs r.ref ref) rs ≡ true)
        (λ ms rs cs ats r h. any-append _ rs (r ∷ []) h) (λ ms rs cs ats r h. h)
        (λ ms rs cs ats r h. h)

  pub recipient-Stays : (kind email : Str) → Stays (HasRecipient id kind email)
  recipient-Stays kind email =
      tables-Stays
        (λ ms rs cs ats.
          any_row
            (λ (r : RecipientRow). r.message_id == id && eqs r.kind kind && citext_eq r.email email)
            cs
          ≡ true)
        (λ ms rs cs ats r h. h) (λ ms rs cs ats r h. any-append _ cs (r ∷ []) h)
        (λ ms rs cs ats r h. h)

  pub attachment-Stays : (a : Attachment) → Stays (HasAttachment id a)
  attachment-Stays a =
      tables-Stays
        (λ ms rs cs ats.
          any_row
            (λ (r : AttachmentRow).
              r.message_id == id
              && eqs r.sha256 a.sha256
              && eqs r.path a.path
              && r.size_bytes == a.size_bytes)
            ats
          ≡ true)
        (λ ms rs cs ats r h. h) (λ ms rs cs ats r h. h)
        (λ ms rs cs ats r h. any-append _ ats (r ∷ []) h)

unit-Leaves : {A : Type 0} (r : Result (A × Db)) → Leaves (λ _. Unit {0}) r
unit-Leaves (ok (a, db)) = tt
unit-Leaves (err e) = tt

unit-Stays : Stays (λ _. Unit {0})
unit-Stays = record {
  reference = λ id ref db h. unit-Leaves (put_reference id ref db);
  recipient = λ id kind email name db h. unit-Leaves (put_recipient id kind email name db);
  attachment = λ id a db h. unit-Leaves (put_attachment id a db);
}

either-Leaves :
    {A : Type 0} (C : Type 0) (Q : Db → Type 0) (old : Db) (r : Result (A × Db))
    → (Q old → Leaves Q r)
    → C ⊎ Q old
    → Leaves (λ db. C ⊎ Q db) r
either-Leaves C Q old (err e) h p = tt
either-Leaves C Q old (ok (a, db)) h (inl c) = inl c
either-Leaves C Q old (ok (a, db)) h (inr q) = inr (h q)

pub either-Stays : (C : Type 0) (Q : Db → Type 0) → Stays Q → Stays (λ db. C ⊎ Q db)
either-Stays C Q s = record {
  reference =
      λ id ref db h. either-Leaves C Q db (put_reference id ref db) (s.reference id ref db) h;
  recipient = λ id kind email name db h.
      either-Leaves C Q db (put_recipient id kind email name db) (s.recipient id kind email name db)
        h;
  attachment = λ id a db h. either-Leaves C Q db (put_attachment id a db) (s.attachment id a db) h;
}

pub all-Stays :
    {X : Type 0} (F : X → Db → Type 0)
    → ((x : X) → Stays (F x))
    → (xs : List X) → Stays (λ db. All (λ x. F x db) xs)
all-Stays F s [] = unit-Stays
all-Stays F s (x ∷ xs) = both-Stays (F x) _ (s x) (all-Stays F s xs)
