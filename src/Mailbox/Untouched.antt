-- ===== src/Mailbox/Untouched.antt =====
-- handleMessage leaves the saved state of the mailboxes alone.
use balvibot.Prelude.{
  ℕ, Bool, true, false, ◌&&◌, Option, none, some, List, [], ◌∷◌, Str, codes, eqs, is_empty, any_row,
  ◌==◌, to_lower, if◌then◌else◌,
}
use balvibot.Errors.{Result, is_no_rows, is_unique_violation}
use balvibot.Store.Schema.{Db, MailboxRow, Address}
use balvibot.Store.Exec.{pure, now, statement, context}
use balvibot.Store.Keeps.{
  Keeps, Leaves, Keeps-pure, Keeps-fail, Keeps-lift, Keeps-if, Keeps-or_else, Keeps-bind, Keeps-now,
  Keeps-select, Keeps-context, Keeps-statement, Keeps-transaction,
}
use balvibot.Store.Text.{null_str, clean_text}
use balvibot.Store.Grantees.{lookup_grantee_by_email, has_grantee, is_unassigned}
use balvibot.Store.Threads.{
  message_exists_by_id, find_thread_by_refs, insert_thread, create_thread, get_thread, claim_thread,
  claim_thread_messages, assign_thread, set_thread_grantee, see_thread, touch_thread,
}
use balvibot.Store.Messages.{
  Message, Attachment, put_message, put_reference, put_recipient, put_attachment, insert_references,
  insert_recipients, insert_attachments, insert_children, fetch_existing, inserted_or_there,
  insert_rows, insert_message, grantee_exists,
}
use balvibot.Mailbox.{
  Parser, Parsed, Fetched, inherit, by_sender, resolve, lost_race, new_thread, thread_of, promote,
  message_of, root_of, index_message, is_known, handle_message,
}

module _ (Q : List MailboxRow → Type 0) where
  abbrev pub OfMailboxes : Db → Type 0
  OfMailboxes db = Q db.mailboxes

  Leaves-if :
      {A : Type 0} (b : Bool) (r s : Result (A × Db))
      → Leaves OfMailboxes r
      → Leaves OfMailboxes s
      → Leaves OfMailboxes (if b then r else s)
  Leaves-if true r s p q = p
  Leaves-if false r s p q = q

  Keeps-find_thread : (refs : List Str) → Keeps OfMailboxes (find_thread_by_refs refs)
  unfolding find_thread_by_refs
  Keeps-find_thread [] = Keeps-pure 0
  Keeps-find_thread (r ∷ refs) =
      Keeps-or_else _ _ pure (Keeps-select _)
        (λ e.
          Keeps-if (is_no_rows e) _ _
            (λ _.
              Keeps-or_else _ _ pure (Keeps-select _)
                (λ e'. Keeps-if (is_no_rows e') _ _ (λ _. Keeps-pure 0) (λ _. Keeps-fail e'))
                Keeps-pure)
            (λ _. Keeps-fail e))
        Keeps-pure

  Keeps-create_thread :
      (root subject : Str) (g : Option Str) (t : ℕ)
      → Keeps OfMailboxes (create_thread root subject g t)
  unfolding create_thread insert_thread
  Keeps-create_thread root subject g t =
      Keeps-statement (insert_thread root subject g t)
        λ db q. Leaves-if (any_row (λ x. eqs x.root_message_id root) db.threads) _ _ tt q

  Keeps-set_thread_grantee : (id : ℕ) (g : Str) → Keeps OfMailboxes (set_thread_grantee id g)
  unfolding set_thread_grantee assign_thread claim_thread claim_thread_messages
  Keeps-set_thread_grantee id g =
      Keeps-transaction (assign_thread id g) (λ _ _ h. h)
        (Keeps-bind (statement (claim_thread id g)) _
          (Keeps-statement (claim_thread id g) λ db q. Leaves-if (has_grantee g db) _ _ q (
            Leaves-if (any_row (λ t. t.id == id && is_unassigned t.grantee_id) db.threads) _ _ tt
              q))
          λ _. Keeps-statement (claim_thread_messages id g) λ db q.
            Leaves-if (has_grantee g db) _ _ q (
              Leaves-if (any_row (λ m. m.thread_id == id && is_unassigned m.grantee_id) db.messages)
                _ _ tt q))

  Keeps-references : (id : ℕ) (refs : List Str) → Keeps OfMailboxes (insert_references id refs)
  unfolding insert_references put_reference
  Keeps-references id [] = Keeps-pure tt
  Keeps-references id (ref ∷ refs) =
      Keeps-if (is_empty ref) _ _ (λ _. Keeps-references id refs)
        λ _.
          Keeps-bind (statement (put_reference id (clean_text ref))) _
            (Keeps-statement (put_reference id (clean_text ref)) λ db q.
              Leaves-if
                (any_row (λ r. r.message_id == id && eqs r.ref (clean_text ref))
                  db.message_references)
                _ _ q q)
            λ _. Keeps-references id refs

  Keeps-recipients :
      (id : ℕ) (kind : Str) (addrs : List Address)
      → Keeps OfMailboxes (insert_recipients id kind addrs)
  unfolding insert_recipients put_recipient
  Keeps-recipients id kind [] = Keeps-pure tt
  Keeps-recipients id kind (a ∷ addrs) =
      Keeps-if (is_empty a.email) _ _ (λ _. Keeps-recipients id kind addrs)
        λ _.
          Keeps-bind
            (statement (
              put_recipient id kind (clean_text (to_lower a.email)) (null_str (clean_text a.name))))
            _ (Keeps-statement _ λ db q. Leaves-if (any_row _ db.recipients) _ _ q q)
            λ _. Keeps-recipients id kind addrs

  Keeps-attachments :
      (id : ℕ) (files : List Attachment) → Keeps OfMailboxes (insert_attachments id files)
  unfolding insert_attachments put_attachment
  Keeps-attachments id [] = Keeps-pure tt
  Keeps-attachments id (a ∷ rest) =
      Keeps-bind (context (codes "insert attachment: ") (statement (put_attachment id a))) _
        (Keeps-context _ _ (Keeps-statement (put_attachment id a) λ db q. q))
        λ _. Keeps-attachments id rest

  Keeps-children : (m : Message) (id : ℕ) → Keeps OfMailboxes (insert_children m id)
  unfolding insert_children
  Keeps-children m id = Keeps-bind _ _ (Keeps-references id m.references) λ _.
      Keeps-bind _ _ (Keeps-recipients id (codes "to") m.to) λ _.
        Keeps-bind _ _ (Keeps-recipients id (codes "cc") m.cc) λ _.
          Keeps-bind _ _ (Keeps-recipients id (codes "bcc") m.bcc)
            λ _. Keeps-bind _ _ (Keeps-attachments id m.attachments) λ _. Keeps-pure (id, Bool.true)

  Keeps-inserted : (m : Message) (r : Option ℕ) → Keeps OfMailboxes (inserted_or_there m r)
  unfolding fetch_existing
  Keeps-inserted m none = Keeps-bind _ _ (Keeps-select _) λ r. Keeps-pure _
  Keeps-inserted m (some id) = Keeps-children m id

  Keeps-insert_message : (m : Message) → Keeps OfMailboxes (insert_message m)
  unfolding insert_message insert_rows put_message
  Keeps-insert_message m =
      Keeps-transaction (insert_rows m) (λ _ _ h. h)
        (Keeps-bind now _ Keeps-now λ t.
          Keeps-bind (context (codes "insert message: ") (statement (put_message m t))) _
            (Keeps-context _ _ (
              Keeps-statement (put_message m t) λ db q. Leaves-if (any_row _ db.messages) _ _ q (
                Leaves-if (any_row _ db.messages) _ _ tt
                  (Leaves-if (any_row _ db.threads && grantee_exists m.grantee_id db) _ _ q tt))))
            (Keeps-inserted m))

  module _ (parser : Parser) (folder : Str) (uid_validity : ℕ) where
    Keeps-new_thread : (p : Parsed) → Keeps OfMailboxes (new_thread parser p)
    unfolding new_thread lost_race
    Keeps-new_thread p =
        Keeps-or_else _ _ pure (Keeps-create_thread (root_of p) _ none p.date)
          (λ e.
            Keeps-if (is_unique_violation e) _ _
              (λ _.
                Keeps-bind _ _ (Keeps-context _ _ (Keeps-find_thread (root_of p ∷ [])))
                  λ id. Keeps-if (id == 0) _ _ (λ _. Keeps-fail _) (λ _. Keeps-pure id))
              (λ _. Keeps-fail _))
          Keeps-pure

    Keeps-thread_of : (p : Parsed) → Keeps OfMailboxes (thread_of parser p)
    unfolding thread_of
    Keeps-thread_of p =
        Keeps-bind _ _ (Keeps-context _ _ (Keeps-find_thread _))
          λ id. Keeps-if (id == 0) _ _ (λ _. Keeps-new_thread p) (λ _. Keeps-pure id)

    Keeps-inherit : (id : ℕ) → Keeps OfMailboxes (inherit id)
    unfolding inherit get_thread
    Keeps-inherit id =
        Keeps-if (id == 0) _ _ (λ _. Keeps-pure _)
          (λ _. Keeps-bind _ _ (Keeps-select _) λ t. Keeps-pure _)

    Keeps-by_sender : (id : ℕ) (g : Option Str) → Keeps OfMailboxes (by_sender id g)
    Keeps-by_sender id none = Keeps-inherit id
    Keeps-by_sender id (some g) = Keeps-pure _

    Keeps-lookup : (email : Str) → Keeps OfMailboxes (lookup_grantee_by_email email)
    unfolding lookup_grantee_by_email
    Keeps-lookup email = Keeps-select _

    Keeps-resolve : (from_email : Str) (id : ℕ) → Keeps OfMailboxes (resolve from_email id)
    unfolding resolve
    Keeps-resolve from_email id =
        Keeps-if (is_empty from_email) _ _ (λ _. Keeps-inherit id)
          (λ _.
            Keeps-bind (lookup_grantee_by_email from_email) _ (Keeps-lookup from_email)
              (Keeps-by_sender id))

    Keeps-promote : (id : ℕ) (b : Bool) (g : Option Str) → Keeps OfMailboxes (promote id b g)
    Keeps-promote id true (some g) = Keeps-context _ _ (Keeps-set_thread_grantee id g)
    Keeps-promote id true none = Keeps-pure tt
    Keeps-promote id false g = Keeps-pure tt

    Keeps-touch : (id t : ℕ) → Keeps OfMailboxes (touch_thread id t)
    unfolding touch_thread see_thread
    Keeps-touch id t = Keeps-statement (see_thread id t) λ db q. q

    Keeps-index :
        (f : Fetched) (p : Parsed)
        → Keeps OfMailboxes (index_message parser folder uid_validity f p)
    unfolding index_message
    Keeps-index f p = Keeps-bind _ _ (Keeps-thread_of p) λ id.
        Keeps-bind _ _ (Keeps-context _ _ (Keeps-resolve p.from_address.email id)) λ r.
          Keeps-bind _ _
            (Keeps-context _ _ (Keeps-insert_message (message_of folder uid_validity f p id r)))
            λ _.
              Keeps-bind _ _ (Keeps-promote id r.from_sender r.grantee_id)
                λ _. Keeps-context _ _ (Keeps-touch id p.date)

    Keeps-known : (id : Str) → Keeps OfMailboxes (is_known parser folder uid_validity id)
    unfolding is_known message_exists_by_id
    Keeps-known id = Keeps-if (is_empty id) _ _ (λ _. Keeps-pure _) (λ _. Keeps-select _)

    -- Whatever of the states of the mailboxes holds before handleMessage holds after it.
    pub Keeps-handle :
        (f : Fetched) → Keeps OfMailboxes (handle_message parser folder uid_validity f)
    unfolding handle_message
    Keeps-handle f =
        Keeps-if (is_empty f.raw) _ _ (λ _. Keeps-fail _)
          λ _. Keeps-bind _ _ (Keeps-known f.envelope_id) λ known.
            Keeps-if known _ _ (λ _. Keeps-pure tt)
              λ _.
                Keeps-bind _ _ (Keeps-context _ _ (Keeps-lift (parser.parse f.raw))) (Keeps-index f)
