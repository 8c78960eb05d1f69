-- ===== src/Store/Complete.antt =====
-- InsertMessage of tools/api/internal/store/store.go: a message with all the rows below it.
use mathlib.Core.Path.{subst}
use balvibot.Prelude.{
  ◌+◌, ℕ, ◌≡◌, refl, ◌⊎◌, Bool, true, false, ◌&&◌, Option, none, some, List, [], ◌∷◌, ◌++◌, Str,
  eqs, eqs_refl, is_empty, to_lower, find_row, any_row, ◌==◌, if◌then◌else◌, codes, arith,
  find_row-holds, find-any,
}
use balvibot.Errors.{Result, ok, err, unique_violation, no_rows}
use balvibot.Store.Schema.{Db, Address, MessageRow}
use balvibot.Store.Exec.{World, now, select, statement, context}
use balvibot.Store.Keeps.{Keeps-now}
use balvibot.Store.Gives.{
  Gives, Gives-pure, Gives-statement, Gives-select, Gives-bind, Gives-context, Gives-Keeps,
}
use balvibot.Store.Text.{clean_text}
use balvibot.Store.Grantees.{foreign_key_violation}
use balvibot.Store.Approvals.{row_or_none}
use balvibot.Store.Messages.{
  Message, put_message, insert_references, insert_recipients, insert_attachments, insert_children,
  insert_rows, message_row, inserted_or_there, fetch_existing, insert_message, grantee_exists,
}
use balvibot.Store.Atomic.{AllOrNothing, transaction-AllOrNothing}
use balvibot.Store.Inserted.{
  HasRecipient, any-new, Stays, both-Stays, either-Stays, all-Stays, reference-Stays,
  recipient-Stays, tables-Stays,
}
use balvibot.Store.Children.{
  AllReferences, AllRecipients, AllAttachments, Gives-references, Gives-recipients,
  Gives-attachments,
}

-- The row with this id has the Message-ID of the message.
abbrev HasMessage : Message → ℕ → Db → Type 0
HasMessage m id db =
    any_row (λ (r : MessageRow). r.id == id && eqs r.message_id m.message_id) db.messages ≡ true

abbrev HasChildren : Message → ℕ → Db → Type 0
HasChildren m id db =
    ((((HasMessage m id db × AllReferences id m.references db)
          × AllRecipients id (codes "to") m.to db)
        × AllRecipients id (codes "cc") m.cc db)
      × AllRecipients id (codes "bcc") m.bcc db)
    × AllAttachments id m.attachments db

-- A message that was inserted has its row and all the rows below it; one that was there has its row.
abbrev pub IsComplete : Message → ℕ × Bool → Db → Type 0
IsComplete m (id, true) db = HasChildren m id db
IsComplete m (id, false) db = HasMessage m id db

module _ (m : Message) where
  HasMessage-Stays : (id : ℕ) → Stays (HasMessage m id)
  HasMessage-Stays id =
      tables-Stays
        (λ ms rs cs ats.
          any_row (λ (r : MessageRow). r.id == id && eqs r.message_id m.message_id) ms ≡ true)
        (λ ms rs cs ats r h. h) (λ ms rs cs ats r h. h) (λ ms rs cs ats r h. h)

  references-Stays : (id : ℕ) (refs : List Str) → Stays (AllReferences id refs)
  references-Stays id refs =
      all-Stays _ (λ ref. either-Stays _ _ (reference-Stays id (clean_text ref))) refs

  recipients-Stays :
      (id : ℕ) (kind : Str) (addrs : List Address) → Stays (AllRecipients id kind addrs)
  recipients-Stays id kind addrs =
      all-Stays
        (λ (a : Address) db.
          (is_empty a.email ≡ true) ⊎ HasRecipient id kind (clean_text (to_lower a.email)) db)
        (λ a. either-Stays _ _ (recipient-Stays id kind (clean_text (to_lower a.email)))) addrs

  module _ (id : ℕ) where
    abbrev Referred : Db → Type 0
    Referred db = HasMessage m id db × AllReferences id m.references db

    abbrev Sent : Db → Type 0
    Sent db = Referred db × AllRecipients id (codes "to") m.to db

    abbrev Copied : Db → Type 0
    Copied db = Sent db × AllRecipients id (codes "cc") m.cc db

    abbrev Addressed : Db → Type 0
    Addressed db = Copied db × AllRecipients id (codes "bcc") m.bcc db

    Referred-Stays : Stays Referred
    Referred-Stays = both-Stays _ _ (HasMessage-Stays id) (references-Stays id m.references)

    Sent-Stays : Stays Sent
    Sent-Stays = both-Stays _ _ Referred-Stays (recipients-Stays id (codes "to") m.to)

    Copied-Stays : Stays Copied
    Copied-Stays = both-Stays _ _ Sent-Stays (recipients-Stays id (codes "cc") m.cc)

    Addressed-Stays : Stays Addressed
    Addressed-Stays = both-Stays _ _ Copied-Stays (recipients-Stays id (codes "bcc") m.bcc)

    Gives-children : Gives (HasMessage m id) (IsComplete m) (insert_children m id)
    unfolding insert_children
    Gives-children =
        Gives-bind (λ _. Referred) _ (insert_references id m.references) _
          (Gives-references id _ (HasMessage-Stays id) m.references)
          λ _.
            Gives-bind (λ _. Sent) _ (insert_recipients id (codes "to") m.to) _
              (Gives-recipients id (codes "to") _ Referred-Stays m.to)
              λ _.
                Gives-bind (λ _. Copied) _ (insert_recipients id (codes "cc") m.cc) _
                  (Gives-recipients id (codes "cc") _ Sent-Stays m.cc)
                  λ _.
                    Gives-bind (λ _. Addressed) _ (insert_recipients id (codes "bcc") m.bcc) _
                      (Gives-recipients id (codes "bcc") _ Copied-Stays m.bcc)
                      λ _.
                        Gives-bind (λ _ db. Addressed db × AllAttachments id m.attachments db) _
                          (insert_attachments id m.attachments) _
                          (Gives-attachments id _ Addressed-Stays m.attachments)
                          λ _. Gives-pure _ (id, true) (λ db q. q)

  -- What INSERT … RETURNING gives.
  abbrev Returned : Option ℕ → Db → Type 0
  Returned none db = Unit
  Returned (some id) db = HasMessage m id db

  abbrev ReturnedBy : Result (Option ℕ × Db) → Type 0
  ReturnedBy (ok (o, db)) = Returned o db
  ReturnedBy (err e) = Unit

  put_message_lem : (t : ℕ) (db : Db) → ReturnedBy (put_message m t db)
  unfolding put_message message_row
  put_message_lem t db =
      cases (any_row (λ r. eqs r.message_id m.message_id) db.messages) _
        (any_row (λ r. r.id == m.thread_id) db.threads && grantee_exists m.grantee_id db)
    where
      cases :
          (there taken known : Bool)
          → ReturnedBy (
              if there
              then ok (none, record db { next_message = db.next_message + 1 })
              else if taken
              then err unique_violation
              else if known
              then ok (
                some db.next_message,
                record db {
                  messages = db.messages ++ message_row m db.next_message t ∷ [];
                  next_message = db.next_message + 1;
                },
              )
              else err foreign_key_violation)
      cases true taken known = tt
      cases false true known = tt
      cases false false true = any-new _ db.messages _ (rw (eqs_refl m.message_id) (ground arith))
      cases false false false = tt

  Gives-put_message : (t : ℕ) → Gives (λ _. Unit) Returned (statement (put_message m t))
  Gives-put_message t =
      Gives-statement _ _ λ db p o db' e. subst ReturnedBy e (put_message_lem t db)

  Gives-existing : Gives (λ _. Unit) (IsComplete m) (fetch_existing m.message_id)
  unfolding fetch_existing
  Gives-existing =
      Gives-bind (λ (r : MessageRow) db. HasMessage m r.id db) _
        (select λ db. row_or_none (find_row (λ r. eqs r.message_id m.message_id) db.messages)) _
        (Gives-select _ _ λ db p r e. found db r (find_row _ db.messages) refl e)
        (λ r. Gives-pure _ (r.id, false) (λ db q. q))
    where
      found :
          (db : Db) (r : MessageRow) (o : Option MessageRow)
          → find_row (λ x. eqs x.message_id m.message_id) db.messages ≡ o
          → row_or_none o ≡ ok r
          → HasMessage m r.id db
      found db r none q e = absurd (no_row e)
        where
          no_row : ◌≡◌ {A = Result MessageRow} (err no_rows) (ok r) → ⊥
          no_row e = cc
      found db r (some s) q e =
          subst (λ (x : MessageRow). HasMessage m x.id db) (same s r e)
            (find-any (λ x. eqs x.message_id m.message_id) _ db.messages s q
              (rw (find_row-holds (λ x. eqs x.message_id m.message_id) db.messages s q)
                (ground arith)))
        where
          same : (s r : MessageRow) → ◌≡◌ {A = Result MessageRow} (ok s) (ok r) → s ≡ r
          same s r e = cc

  Gives-rest : (o : Option ℕ) → Gives (Returned o) (IsComplete m) (inserted_or_there m o)
  Gives-rest none = Gives-existing
  Gives-rest (some id) = Gives-children id

  Gives-rows : Gives (λ _. Unit) (IsComplete m) (insert_rows m)
  unfolding insert_rows
  Gives-rows =
      Gives-bind (λ _ _. Unit {0}) _ now _ (Gives-Keeps now Keeps-now)
        λ t.
          Gives-bind Returned _ (context (codes "insert message: ") (statement (put_message m t))) _
            (Gives-context Returned (codes "insert message: ") (statement (put_message m t))
              (Gives-put_message t))
            Gives-rest

  -- InsertMessage, whatever statements fail. Where it answers that the message was inserted, the row
  -- with the id it answers has the message's Message-ID, and each reference that is not empty, each recipient
  -- (to, cc, bcc) whose address is not empty, and each attachment has a row with that id. Where it
  -- answers that the message was there, the row with that id has its Message-ID. Where it answers
  -- an error, the tables are as they were, but for the counters of the ids.
  pub insert_message-AllOrNothing :
      (w : World) → AllOrNothing (IsComplete m) w.db (insert_message m w)
  unfolding insert_message
  insert_message-AllOrNothing w =
      transaction-AllOrNothing (IsComplete m) (insert_rows m) w Gives-rows
