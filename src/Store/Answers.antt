-- ===== src/Store/Answers.antt =====
-- The transactions of tools/api/internal/store/store.go while the database answers: they succeed.
use balvibot.Prelude.{
  ℕ, ◌≡◌, refl, Bool, true, false, List, [], ◌∷◌, Str, codes, is_empty, to_lower, trim_space,
  if◌then◌else◌,
}
use balvibot.Errors.{Result, ok, err}
use balvibot.Store.Schema.{Db, Address}
use balvibot.Store.Exec.{World, statement, context}
use balvibot.Store.Calmly.{
  Achieved, Calmly, Calmly-pure, Calmly-statement, Calmly-if, Calmly-bind, Calmly-context,
  Calmly-transaction,
}
use balvibot.Store.Text.{null_str, clean_text}
use balvibot.Store.Grantees.{
  has_grantee, set_email, claim_threads, claim_messages, link_email, add_grantee_email,
}
use balvibot.Store.Messages.{
  Attachment, Message, put_reference, put_recipient, put_attachment, insert_references,
  insert_recipients, insert_attachments, insert_children,
}
use balvibot.Store.Atomic.{AllOrNothing}
use balvibot.Store.Linked.{Linked, add_grantee_email-AllOrNothing}

abbrev pub Any : Db → Type 0
Any db = Unit

abbrev pub AnyOf : {A : Type 0} → A → Db → Type 0
AnyOf a db = Unit

-- A call that is all or nothing and succeeds is all.
Achieved-all :
    {A : Type 0} (Q : A → Db → Type 0) (old : Db) (r : Result A × World)
    → AllOrNothing Q old r
    → Achieved AnyOf r
    → Achieved Q r
Achieved-all Q old (ok a, w) q s = (s.0, q)
Achieved-all Q old (err e, w) q s = absurd s

answers :
    {A : Type 0} (f : Db → Result (A × Db))
    → ((db : Db) → (a : A) × (db' : Db) × (f db ≡ ok (a, db')))
    → Calmly Any AnyOf (statement f)
answers f h = Calmly-statement _ f λ db p. let (a, db', e) = h db in (a, db', e, tt)

either_ok :
    (b : Bool) (x y : Db)
    → (a : Unit {0}) × (db' : Db) × (◌≡◌ {A = Result (Unit {0} × Db)}
        (if b then ok (tt, x) else ok (tt, y))
        (ok (a, db')))
either_ok true x y = (tt, x, refl)
either_ok false x y = (tt, y, refl)

module _ (id address : Str) where
  set_email_ok :
      (db : Db)
      → has_grantee id db ≡ true
      → (a : Unit {0}) × (db' : Db) × (set_email id address db ≡ ok (a, db'))
  unfolding set_email
  set_email_ok db h = rw h (tt, _, refl)

  Calmly-link : Calmly (λ db. has_grantee id db ≡ true) AnyOf (link_email id address)
  unfolding link_email claim_threads claim_messages
  Calmly-link =
      Calmly-bind AnyOf AnyOf (statement (set_email id address)) _
        (Calmly-statement AnyOf (set_email id address)
          λ db p. let (a, db', e) = set_email_ok db p in (a, db', e, tt))
        λ _.
          Calmly-bind AnyOf AnyOf (statement (claim_threads id address)) _
            (answers (claim_threads id address) λ db. (tt, _, refl))
            (λ _. answers (claim_messages id) λ db. (tt, _, refl))

-- AddGranteeEmail for a grantee that is there, with an address that is not empty, while the database
-- answers: it succeeds, the address in lower case and without space around it names the grantee,
-- every thread with a message from it has a grantee, and so has every message in a thread of this grantee.
pub add_grantee_email-Linked :
    (id email : Str) (w : World)
    → w.outages ≡ []
    → is_empty id ≡ false
    → is_empty (to_lower (trim_space email)) ≡ false
    → has_grantee id w.db ≡ true
    → Achieved (λ _. Linked id (to_lower (trim_space email))) (add_grantee_email id email w)
add_grantee_email-Linked id email w calm named addressed there =
    Achieved-all _ w.db (add_grantee_email id email w) (add_grantee_email-AllOrNothing id email w)
      succeeds
  where
    address : Str
    address = to_lower (trim_space email)

    succeeds : Achieved AnyOf (add_grantee_email id email w)
    succeeds =
        unfold add_grantee_email in
        rw (named, addressed)
          ((Calmly-transaction AnyOf (link_email id address) (Calmly-link id address)).at w calm
            there)

module _ (id : ℕ) where
  references_ok : (refs : List Str) → Calmly Any AnyOf (insert_references id refs)
  unfolding insert_references put_reference
  references_ok [] = Calmly-pure AnyOf tt (λ db p. p)
  references_ok (ref ∷ refs) =
      Calmly-if AnyOf (is_empty ref) _ _ (λ _. references_ok refs)
        λ _.
          Calmly-bind AnyOf AnyOf (statement (put_reference id (clean_text ref))) _
            (answers (put_reference id (clean_text ref)) λ db. either_ok _ db _)
            (λ _. references_ok refs)

  recipients_ok :
      (kind : Str) (addrs : List Address) → Calmly Any AnyOf (insert_recipients id kind addrs)
  unfolding insert_recipients put_recipient
  recipients_ok kind [] = Calmly-pure AnyOf tt (λ db p. p)
  recipients_ok kind (a ∷ addrs) =
      let put =
        put_recipient id kind (clean_text (to_lower a.email)) (null_str (clean_text a.name)) in
      Calmly-if AnyOf (is_empty a.email) _ _ (λ _. recipients_ok kind addrs)
        λ _.
          Calmly-bind AnyOf AnyOf (statement put) _ (answers put λ db. either_ok _ db _)
            (λ _. recipients_ok kind addrs)

  attachments_ok : (ats : List Attachment) → Calmly Any AnyOf (insert_attachments id ats)
  unfolding insert_attachments put_attachment
  attachments_ok [] = Calmly-pure AnyOf tt (λ db p. p)
  attachments_ok (a ∷ ats) =
      Calmly-bind AnyOf AnyOf
        (context (codes "insert attachment: ") (statement (put_attachment id a))) _
        (Calmly-context AnyOf (codes "insert attachment: ") (statement (put_attachment id a))
          (answers (put_attachment id a) λ db. (tt, _, refl)))
        (λ _. attachments_ok ats)

  pub children_ok : (m : Message) → Calmly Any (λ r _. r.1 ≡ true) (insert_children m id)
  unfolding insert_children
  children_ok m =
      Calmly-bind AnyOf (λ r _. r.1 ≡ true) (insert_references id m.references) _
        (references_ok m.references)
        λ _.
          Calmly-bind AnyOf (λ r _. r.1 ≡ true) (insert_recipients id (codes "to") m.to) _
            (recipients_ok (codes "to") m.to)
            λ _.
              Calmly-bind AnyOf (λ r _. r.1 ≡ true) (insert_recipients id (codes "cc") m.cc) _
                (recipients_ok (codes "cc") m.cc)
                λ _.
                  Calmly-bind AnyOf (λ r _. r.1 ≡ true) (insert_recipients id (codes "bcc") m.bcc) _
                    (recipients_ok (codes "bcc") m.bcc)
                    λ _.
                      Calmly-bind AnyOf (λ r _. r.1 ≡ true) (insert_attachments id m.attachments) _
                        (attachments_ok m.attachments)
                        (λ _. Calmly-pure (λ r _. r.1 ≡ true) (id, true) (λ db p. refl))
