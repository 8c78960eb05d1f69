-- ===== src/Store/Children.antt =====
-- The loops of InsertMessage of tools/api/internal/store/store.go over the references, the recipients
-- and the attachments of a message.
use mathlib.Core.Path.{subst}
use balvibot.Prelude.{
  ℕ, ◌≡◌, refl, ◌⊎◌, inl, inr, Bool, true, false, Bool-cases, Option, List, [], ◌∷◌, Str, eqs_refl,
  citext_eq_refl, is_empty, to_lower, if◌then◌else◌, All, codes, arith,
}
use balvibot.Errors.{Result, ok, err}
use balvibot.Store.Schema.{Db, Address}
use balvibot.Store.Exec.{World, Exec, statement, context}
use balvibot.Store.Keeps.{Leaves}
use balvibot.Store.Gives.{Fits, Gives, Gives-pure, Gives-statement, Gives-bind, Gives-context}
use balvibot.Store.Text.{null_str, clean_text}
use balvibot.Store.Messages.{
  Attachment, put_reference, put_recipient, put_attachment, insert_references, insert_recipients,
  insert_attachments,
}
use balvibot.Store.Inserted.{
  HasReference, HasRecipient, HasAttachment, any-new, Stays, both-Stays, reference-Stays,
  recipient-Stays, attachment-Stays,
}

-- The references that are not empty, cleaned.
abbrev pub AllReferences : ℕ → List Str → Db → Type 0
AllReferences id refs db =
    All (λ ref. (is_empty ref ≡ true) ⊎ HasReference id (clean_text ref) db) refs

-- The addresses that are not empty, in lower case and cleaned.
abbrev pub AllRecipients : ℕ → Str → List Address → Db → Type 0
AllRecipients id kind addrs db =
    All
      (λ (a : Address).
        (is_empty a.email ≡ true) ⊎ HasRecipient id kind (clean_text (to_lower a.email)) db)
      addrs

abbrev pub AllAttachments : ℕ → List Attachment → Db → Type 0
AllAttachments id ats db = All (λ a. HasAttachment id a db) ats

weakened :
    {A : Type 0} (Q R : A → Db → Type 0) (r : Result A × World)
    → ((a : A) (db : Db) → Q a db → R a db)
    → Fits Q r
    → Fits R r
weakened Q R (ok a, w) h q = h a w.db q
weakened Q R (err e, w) h q = tt

pub Gives-weaken :
    {P : Db → Type 0} {A : Type 0} (Q R : A → Db → Type 0) (m : Exec A)
    → ((a : A) (db : Db) → Q a db → R a db)
    → Gives P Q m
    → Gives P R m
Gives-weaken Q R m h g = record { at = λ w p. weakened Q R (m w) h (g.at w p) }

-- A statement keeps one property and makes another.
Gives-put :
    (P Q : Db → Type 0) (f : Db → Result (Unit {0} × Db))
    → ((db : Db) → P db → Leaves P (f db))
    → ((db : Db) → Leaves Q (f db))
    → Gives P (λ _ db. P db × Q db) (statement f)
Gives-put P Q f keeps makes =
    Gives-statement _ _
      λ db p a db' e. (subst (Leaves P) e (keeps db p), subst (Leaves Q) e (makes db))

there_or_new :
    (Q : Db → Type 0) (b : Bool) (db db' : Db)
    → (b ≡ true → Q db)
    → Q db'
    → Leaves {A = Unit {0}} Q (if b then ok (tt, db) else ok (tt, db'))
there_or_new Q true db db' there new = there refl
there_or_new Q false db db' there new = new

module _ (id : ℕ) where
  put_reference_lem : (ref : Str) (db : Db) → Leaves (HasReference id ref) (put_reference id ref db)
  unfolding put_reference
  put_reference_lem ref db =
      there_or_new (HasReference id ref) _ db _ (λ e. e)
        (any-new _ db.message_references _ (rw (eqs_refl ref) (ground arith)))

  put_recipient_lem :
      (kind email : Str) (name : Option Str) (db : Db)
      → Leaves (HasRecipient id kind email) (put_recipient id kind email name db)
  unfolding put_recipient
  put_recipient_lem kind email name db =
      there_or_new (HasRecipient id kind email) _ db _ (λ e. e)
        (any-new _ db.recipients _ (rw (eqs_refl kind, citext_eq_refl email) (ground arith)))

  put_attachment_lem :
      (a : Attachment) (db : Db) → Leaves (HasAttachment id a) (put_attachment id a db)
  unfolding put_attachment
  put_attachment_lem a db =
      any-new _ db.attachments _ (rw (eqs_refl a.sha256, eqs_refl a.path) (ground arith))

  pub Gives-references :
      (P : Db → Type 0)
      → Stays P
      → (refs : List Str)
      → Gives P (λ _ db. P db × AllReferences id refs db) (insert_references id refs)
  unfolding insert_references
  Gives-references P s [] = Gives-pure _ tt (λ db p. (p, tt))
  Gives-references P s (ref ∷ refs) = elim (Bool-cases (is_empty ref)) [
    | inl e ↦ rw e (
        Gives-weaken (λ _ db. P db × AllReferences id refs db) _ _
          (λ a db q. (q.0, (inl refl, q.1))) (Gives-references P s refs))
    | inr e ↦ rw e (
        Gives-bind (λ _ db. P db × HasReference id (clean_text ref) db) _
          (statement (put_reference id (clean_text ref))) _
          (Gives-put P (HasReference id (clean_text ref)) _ (s.reference id (clean_text ref))
            (put_reference_lem (clean_text ref)))
          λ _.
            Gives-weaken
              (λ _ db. (P db × HasReference id (clean_text ref) db) × AllReferences id refs db) _ _
              (λ a db q. (q.0.0, (inr q.0.1, q.1)))
              (Gives-references (λ db. P db × HasReference id (clean_text ref) db)
                (both-Stays P _ s (reference-Stays id (clean_text ref))) refs))
  ]

  pub Gives-attachments :
      (P : Db → Type 0)
      → Stays P
      → (ats : List Attachment)
      → Gives P (λ _ db. P db × AllAttachments id ats db) (insert_attachments id ats)
  unfolding insert_attachments
  Gives-attachments P s [] = Gives-pure _ tt (λ db p. (p, tt))
  Gives-attachments P s (a ∷ ats) =
      Gives-bind (λ _ db. P db × HasAttachment id a db) _
        (context (codes "insert attachment: ") (statement (put_attachment id a))) _
        (Gives-context _ (codes "insert attachment: ") (statement (put_attachment id a)) (
          Gives-put P (HasAttachment id a) (put_attachment id a) (s.attachment id a)
            (put_attachment_lem a)))
        λ _.
          Gives-weaken (λ _ db. (P db × HasAttachment id a db) × AllAttachments id ats db) _ _
            (λ x db q. (q.0.0, (q.0.1, q.1)))
            (Gives-attachments (λ db. P db × HasAttachment id a db)
              (both-Stays P _ s (attachment-Stays id a)) ats)

  pub Gives-recipients :
      (kind : Str) (P : Db → Type 0)
      → Stays P
      → (addrs : List Address)
      → Gives P (λ _ db. P db × AllRecipients id kind addrs db) (insert_recipients id kind addrs)
  unfolding insert_recipients
  Gives-recipients kind P s [] = Gives-pure _ tt (λ db p. (p, tt))
  Gives-recipients kind P s (a ∷ addrs) =
      let address = clean_text (to_lower a.email) in
      elim (Bool-cases (is_empty a.email)) [
        | inl e ↦ rw e (
            Gives-weaken (λ _ db. P db × AllRecipients id kind addrs db) _ _
              (λ x db q. (q.0, (inl refl, q.1))) (Gives-recipients kind P s addrs))
        | inr e ↦ rw e (
            Gives-bind (λ _ db. P db × HasRecipient id kind address db) _
              (statement (put_recipient id kind address (null_str (clean_text a.name)))) _
              (Gives-put P (HasRecipient id kind address) _
                (s.recipient id kind address (null_str (clean_text a.name)))
                (put_recipient_lem kind address (null_str (clean_text a.name))))
              λ _.
                Gives-weaken
                  (λ _ db.
                    (P db × HasRecipient id kind address db) × AllRecipients id kind addrs db)
                  _ _ (λ x db q. (q.0.0, (inr q.0.1, q.1)))
                  (Gives-recipients kind (λ db. P db × HasRecipient id kind address db)
                    (both-Stays P _ s (recipient-Stays id kind address)) addrs))
      ]
