-- ===== src/McpServer/Reads/Own.antt =====
-- What the reading tools tell of a grantee is that grantee's.
use mathlib.Core.Path.{subst}
use balvibot.Prelude.{
  and_true, ℕ, ◌≡◌, sym, ap, Bool, true, false, Option, none, some, List, Str, eqs, eqs_iff,
  is_empty, take, map, All, where_rows, sort_rows, if◌then◌else◌,
}
use balvibot.Errors.{Error, Result, ok, err}
use balvibot.Store.Schema.{Db, MessageRow}
use balvibot.Store.Exec.{World, Exec, fail, lift}
use balvibot.Store.Keeps.{Keeps-lift}
use balvibot.Store.Gives.{Fits, Gives, Gives-fail, Gives-bind, Gives-select, Gives-Keeps}
use balvibot.Store.Grantees.{is_for}
use balvibot.Store.Docs.{page_of}
use balvibot.Store.Queries.{
  MessageSummary, ThreadSummary, SearchParams, unassigned_grantee, grantee_where,
  scan_message_summary, message_before, message_matches, messages_after, list_messages_by_grantee,
  scan_thread_summary, thread_before, threads_after, list_threads_by_grantee, no_filter,
  search_matches, search_messages,
}
use balvibot.Store.Paged.{page_holds}
use balvibot.McpServer.Reads.{
  ListForGranteeInput, SearchEmailsInput, parse_time_bound, list_emails_for_grantee,
  list_threads_for_grantee, search_emails,
}

-- `Q` holds of the answer, if there is one.
abbrev pub IfOk : {A : Type 0} → (A → Type 0) → Result A → Type 0
IfOk Q (ok a) = Q a
IfOk Q (err e) = Unit

is_for-some : (g : Str) (o : Option Str) → is_for g o ≡ true → o ≡ some g
is_for-some g none h = cc
is_for-some g (some k) h = ap some ((eqs_iff k g).0 h)

grantee_where_own :
    (g : Str) (o : Option Str)
    → is_empty g ≡ false
    → eqs g unassigned_grantee ≡ false
    → grantee_where g o ≡ true
    → o ≡ some g
unfolding grantee_where
grantee_where_own g o named real h = is_for-some g o (rw (named, real) at h)

pub same_ok : {A : Type 0} (a b : A) → ◌≡◌ {A = Result A} (ok a) (ok b) → a ≡ b
same_ok a b h = cc

pub Gives-unless :
    {A : Type 0} {P : Db → Type 0} (Q : A → Db → Type 0) (b : Bool) (e : Error) (m : Exec A)
    → Gives P Q m
    → Gives P Q (if b then fail e else m)
Gives-unless Q true e m g = Gives-fail Q e
Gives-unless Q false e m g = g

abbrev pub Anything : {A : Type 0} → A → Db → Type 0
Anything a db = Unit

Gives-lift : {A : Type 0} (r : Result A) → Gives (λ _. Unit) Anything (lift r)
Gives-lift r = Gives-Keeps (lift r) (Keeps-lift r)

pub answered :
    {A : Type 0} (R : A → Type 0) (m : Exec A) (w : World)
    → Gives (λ _. Unit) (λ a db. R a) m
    → IfOk R (m w).0
answered {A} R m w gives = cases (m w) (gives.at w tt)
  where
    cases : (r : Result A × World) → Fits (λ a db. R a) r → IfOk R r.0
    cases (ok a, w) h = h
    cases (err e, w) h = tt

module _ (g : Str) (named : is_empty g ≡ false) (real : eqs g unassigned_grantee ≡ false) where
  abbrev OwnMessages : List MessageSummary × ℕ → Db → Type 0
  OwnMessages r db = All (λ m. m.grantee_id ≡ some g) r.0

  abbrev OwnThreads : List ThreadSummary × ℕ → Db → Type 0
  OwnThreads r db = All (λ t. t.grantee_id ≡ some g) r.0

  message_own :
      (since until : Option ℕ) (m : MessageRow)
      → message_matches g since until m ≡ true
      → m.grantee_id ≡ some g
  unfolding message_matches
  message_own since until m h =
      grantee_where_own g m.grantee_id named real (and_true _ _ (and_true _ _ h).0).0

  messages_own :
      (key : MessageSummary → ℕ) (limit more : ℕ) (pick : MessageRow → Bool) (db : Db)
      → ((m : MessageRow) → pick m ≡ true → m.grantee_id ≡ some g)
      → All
          (λ m. m.grantee_id ≡ some g)
          (page_of key limit (
            map
              (scan_message_summary db)
              (take more (sort_rows message_before (where_rows pick db.messages))))).0
  unfolding scan_message_summary
  messages_own key limit more pick db own =
      page_holds (λ m. m.grantee_id ≡ some g) (λ s. s.grantee_id ≡ some g) (scan_message_summary db)
        message_before pick (λ m q. q) key limit more db.messages (λ m within hit. own m hit)

  Gives-messages :
      (since until : Option ℕ) (limit cursor : ℕ)
      → Gives (λ _. Unit) OwnMessages (list_messages_by_grantee g since until limit cursor)
  unfolding list_messages_by_grantee messages_after
  Gives-messages since until limit cursor = Gives-unless OwnMessages (is_empty g) _ _ (
      Gives-select OwnMessages _ λ db p a e.
        subst (λ r. OwnMessages r db) (same_ok _ a e)
          (messages_own _ _ _ _ db λ m hit.
            message_own since until m (and_true (message_matches g since until m) _ hit).0))

  Gives-search :
      (p : SearchParams) → p.grantee_id ≡ g → Gives (λ _. Unit) OwnMessages (search_messages p)
  unfolding search_messages search_matches
  Gives-search p q = Gives-unless OwnMessages (no_filter p) _ _ (
      Gives-select OwnMessages _ λ db u a e.
        subst (λ r. OwnMessages r db) (same_ok _ a e)
          (messages_own _ _ _ _ db λ m hit. message_own p.since p.until m (
            subst (λ k. message_matches k p.since p.until m ≡ true) q
              (and_true _ _ (and_true _ _ (and_true _ _ (and_true _ _ hit).0).0).0).0)))

  Gives-threads :
      (since until : Option ℕ) (limit cursor : ℕ)
      → Gives (λ _. Unit) OwnThreads (list_threads_by_grantee g since until limit cursor)
  unfolding list_threads_by_grantee threads_after scan_thread_summary
  Gives-threads since until limit cursor = Gives-unless OwnThreads (is_empty g) _ _ (
      Gives-select OwnThreads _ λ db p a e.
        subst (λ r. OwnThreads r db) (same_ok _ a e)
          (page_holds (λ t. t.grantee_id ≡ some g) (λ s. s.grantee_id ≡ some g)
            (scan_thread_summary db) thread_before _ (λ t q. q) _ _ _ db.threads
            λ t within hit.
              grantee_where_own g t.grantee_id named real
                (and_true _ _ (and_true _ _ (and_true _ _ hit).0).0).0))

module _ (nano plain : Str → Result ℕ) (g : Str) (named : is_empty g ≡ false)
    (real : eqs g unassigned_grantee ≡ false) where
  emails_own :
      (input : ListForGranteeInput)
      → input.grantee_id ≡ g
      → Gives (λ _. Unit) (OwnMessages g named real) (list_emails_for_grantee nano plain input)
  unfolding list_emails_for_grantee
  emails_own input q = Gives-unless _ (is_empty input.grantee_id) _ _ (
      Gives-bind Anything _ (lift (parse_time_bound nano plain input.since)) _ (Gives-lift _)
        λ since.
          Gives-bind Anything _ (lift (parse_time_bound nano plain input.until)) _ (Gives-lift _)
            λ until.
              subst
                (λ k.
                  Gives (λ _. Unit) (OwnMessages g named real)
                    (list_messages_by_grantee k since until input.limit input.cursor))
                (sym q) (Gives-messages g named real since until input.limit input.cursor))

  threads_own :
      (input : ListForGranteeInput)
      → input.grantee_id ≡ g
      → Gives (λ _. Unit) (OwnThreads g named real) (list_threads_for_grantee nano plain input)
  unfolding list_threads_for_grantee
  threads_own input q = Gives-unless _ (is_empty input.grantee_id) _ _ (
      Gives-bind Anything _ (lift (parse_time_bound nano plain input.since)) _ (Gives-lift _)
        λ since.
          Gives-bind Anything _ (lift (parse_time_bound nano plain input.until)) _ (Gives-lift _)
            λ until.
              subst
                (λ k.
                  Gives (λ _. Unit) (OwnThreads g named real)
                    (list_threads_by_grantee k since until input.limit input.cursor))
                (sym q) (Gives-threads g named real since until input.limit input.cursor))

  found_own :
      (input : SearchEmailsInput)
      → input.grantee_id ≡ g
      → Gives (λ _. Unit) (OwnMessages g named real) (search_emails nano plain input)
  unfolding search_emails
  found_own input q =
      Gives-bind Anything _ (lift (parse_time_bound nano plain input.since)) _ (Gives-lift _)
        λ since.
          Gives-bind Anything _ (lift (parse_time_bound nano plain input.until)) _ (Gives-lift _)
            λ until.
              Gives-search g named real
                (record {
                  grantee_id = input.grantee_id;
                  from_text = input.from_text;
                  subject = input.subject;
                  body = input.body;
                  since = since;
                  until = until;
                  limit = input.limit;
                  cursor = input.cursor;
                })
                q

  -- Where the tools for mail are asked for a grantee, by a name that is not empty and not
  -- _unassigned, each message that list_emails_for_grantee and search_emails answer and each thread that
  -- list_threads_for_grantee answers is of that grantee, whatever else the input asks.
  pub mail_is_own :
      (input : ListForGranteeInput) (search : SearchEmailsInput) (w : World)
      → input.grantee_id ≡ g
      → search.grantee_id ≡ g
      → IfOk
          (λ r. All (λ m. m.grantee_id ≡ some g) r.0)
          (list_emails_for_grantee nano plain input w).0
        × IfOk
            (λ r. All (λ t. t.grantee_id ≡ some g) r.0)
            (list_threads_for_grantee nano plain input w).0
        × IfOk (λ r. All (λ m. m.grantee_id ≡ some g) r.0) (search_emails nano plain search w).0
  mail_is_own input search w q s = (
    answered (λ r. All (λ m. m.grantee_id ≡ some g) r.0) (list_emails_for_grantee nano plain input)
        w (emails_own input q),
    answered (λ r. All (λ t. t.grantee_id ≡ some g) r.0) (list_threads_for_grantee nano plain input)
        w (threads_own input q),
    answered (λ r. All (λ m. m.grantee_id ≡ some g) r.0) (search_emails nano plain search) w
        (found_own search s),
  )
