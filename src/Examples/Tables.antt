-- ===== src/Examples/Tables.antt =====
-- The theorems on the tables at the example world.
use balvibot.Prelude.{
  ◌≡◌, refl, true, none, [], ◌∷◌, codes, eqs, citext_eq, to_lower, trim_space, any_row, where_rows,
  not,
}
use balvibot.Errors.{ok, err}
use balvibot.Store.Schema.{Db, UserRow}
use balvibot.Store.Reads.{calm}
use balvibot.Store.Grantees.{has_grantee, add_grantee_email, foreign_key_violation}
use balvibot.Store.Threads.{set_thread_grantee}
use balvibot.Store.Messages.{Message, insert_message, put_message}
use balvibot.Store.Ownership.{ClaimedBy, add_grantee_email-Claims, set_thread_grantee-Claims}
use balvibot.Store.Atomic.{AllOrNothing}
use balvibot.Store.Calmly.{Achieved}
use balvibot.Store.Answers.{add_grantee_email-Linked}
use balvibot.Store.Linked.{Linked, add_grantee_email-AllOrNothing}
use balvibot.Store.Complete.{IsComplete, insert_message-AllOrNothing}
use balvibot.Prelude.{find_row, All, Str, is_empty, some, false}
use balvibot.Store.Exec.{World}
use balvibot.Store.Approvals.{action_with_id}
use balvibot.Store.Text.{clean_text}
use balvibot.Store.Text.Clean.{IsNonZero, clean_text-IsNonZero}
use balvibot.Store.Grantees.{grantee_with_id}
use balvibot.Actions.{run_add_grantee}
use balvibot.Actions.Effects.{or_new, add_grantee_ensures}
use balvibot.Examples.{test_codec, test_ssh, acme_args, test_db, test_world, world_of}
use balvibot.Prelude.{List, map, length, sort_rows, AreDistinct, ◌<◌, arith, ◌&&◌}
use balvibot.Store.Schema.{NoteRow}
use balvibot.Store.Notes.{NoteFilter, valid_note_kind, scan_note, note_before, note_matches}
use balvibot.Store.Users.Directory.{Change, put, drop, directory}
use balvibot.Store.Users.Refined.{apply_all, replay, operators_refine}
use balvibot.Prelude.{count_rows}
use balvibot.Store.Notes.Pages.{all_pages, pages_are_complete}

alice_is_there :
    any_row (λ (u : UserRow). citext_eq u.email (codes "ALICE@example.org")) test_db.users ≡ true
unfolding any_row citext_eq to_lower eqs
alice_is_there = refl

abbrev mail_db : Db
mail_db = record test_db {
  grantees =
      record {
        grantee_id = codes "acme";
        display_name = none;
        status = codes "active";
        created_at = 3;
      }
      ∷ [];
  threads =
      record {
        id = 1;
        root_message_id = codes "a@x";
        subject_norm = [];
        grantee_id = none;
        first_seen_at = 1;
        last_seen_at = 1;
      }
      ∷ [];
  next_thread = 2;
}

add_grantee_email-Claims_example :
    ClaimedBy
      (codes "acme")
      mail_db
      (add_grantee_email (codes "acme") (codes "bob@example.org") (world_of mail_db)).1.db
add_grantee_email-Claims_example =
    add_grantee_email-Claims (codes "acme") (codes "bob@example.org") (world_of mail_db)

set_thread_grantee-Claims_example :
    ClaimedBy (codes "acme") mail_db (set_thread_grantee 1 (codes "acme") (world_of mail_db)).1.db
set_thread_grantee-Claims_example = set_thread_grantee-Claims 1 (codes "acme") (world_of mail_db)

-- A message with a reference, two recipients and an attachment.
abbrev letter : Message
letter = record {
  message_id = codes "m@x";
  thread_id = 1;
  grantee_id = none;
  folder = codes "INBOX";
  uid = 4;
  uid_validity = 1;
  in_reply_to = [];
  references = codes "a@x" ∷ [];
  from_address = record { name = []; email = codes "bob@example.org" };
  to = record { name = []; email = codes "Ann@example.org" } ∷ [];
  cc = [];
  bcc = record { name = []; email = codes "eve@example.org" } ∷ [];
  subject = [];
  date = 50;
  body_text = [];
  body_html = [];
  size_bytes = 0;
  attachments =
      record {
        filename = [];
        mime_type = [];
        size_bytes = 3;
        sha256 = codes "ff";
        path = codes "f";
      }
      ∷ [];
}

insert_message-AllOrNothing_example :
    AllOrNothing (IsComplete letter) mail_db (insert_message letter (world_of mail_db))
insert_message-AllOrNothing_example = insert_message-AllOrNothing letter (world_of mail_db)

-- It is inserted, with the id 1.
letter_inserted : (insert_message letter (world_of mail_db)).0 ≡ ok (1, true)
unfolding insert_message any_row eqs put_message
letter_inserted = refl

add_grantee_email-AllOrNothing_example :
    AllOrNothing
      (λ _. Linked (codes "acme") (to_lower (trim_space (codes " Bob@example.org"))))
      mail_db
      (add_grantee_email (codes "acme") (codes " Bob@example.org") (world_of mail_db))
add_grantee_email-AllOrNothing_example =
    add_grantee_email-AllOrNothing (codes "acme") (codes " Bob@example.org") (world_of mail_db)

bob_linked :
    (add_grantee_email (codes "acme") (codes " Bob@example.org") (world_of mail_db)).0 ≡ ok tt
unfolding add_grantee_email any_row eqs to_lower trim_space
bob_linked = refl

acme_there : has_grantee (codes "acme") mail_db ≡ true
unfolding any_row eqs
acme_there = refl

bob_named : is_empty (to_lower (trim_space (codes " Bob@example.org"))) ≡ false
unfolding to_lower trim_space
bob_named = refl

add_grantee_email-Linked_example :
    Achieved
      (λ _. Linked (codes "acme") (to_lower (trim_space (codes " Bob@example.org"))))
      (add_grantee_email (codes "acme") (codes " Bob@example.org") (world_of mail_db))
add_grantee_email-Linked_example =
    add_grantee_email-Linked (codes "acme") (codes " Bob@example.org") (world_of mail_db) refl refl
      bob_named acme_there

-- There is no such grantee.
nobody_fails :
    (add_grantee_email (codes "nobody") (codes "bob@example.org") (world_of mail_db)).0
    ≡ err foreign_key_violation
unfolding add_grantee_email any_row eqs to_lower trim_space
nobody_fails = refl

nothing_fresh : action_with_id 2 test_db ≡ none
unfolding action_with_id find_row
nothing_fresh = refl

json_stays : (s : Str) → test_world.jsonb s ≡ some s
json_stays s = refl

decodes :
    test_codec.decode_add_grantee acme_args ≡ ok (record { slug = codes "acme"; display_name = [] })
unfolding eqs
decodes = refl

slug_named : is_empty (trim_space (codes "acme")) ≡ false
unfolding trim_space
slug_named = refl

add_grantee_ensures_example :
    (w' : World) × (run_add_grantee test_codec test_ssh acme_args (calm test_world) ≡ (ok tt, w'))
    × (grantee_with_id (trim_space (codes "acme")) w'.db
        ≡ some (
            or_new
              (trim_space (codes "acme"))
              []
              1000
              (grantee_with_id (trim_space (codes "acme")) test_db)))
add_grantee_ensures_example =
    add_grantee_ensures test_codec test_ssh acme_args
      (record { slug = codes "acme"; display_name = [] }) test_world decodes slug_named

clean_text-IsNonZero_example : All IsNonZero (clean_text (0xff ∷ 0 ∷ 65 ∷ []))
clean_text-IsNonZero_example = clean_text-IsNonZero (0xff ∷ 0 ∷ 65 ∷ [])

-- Two notes on one grantee, a page for each.
abbrev two_notes : List NoteRow
two_notes =
    record {
      id = 1;
      grantee_id = codes "acme";
      kind = codes "note";
      content = codes "call";
      signal_number = none;
      supersedes_id = none;
      created_at = 10;
    }
    ∷ record {
      id = 2;
      grantee_id = codes "acme";
      kind = codes "note";
      content = codes "met";
      signal_number = none;
      supersedes_id = none;
      created_at = 20;
    }
    ∷ []

abbrev noted : World
noted = world_of (record mail_db { notes = two_notes })

abbrev one_a_page : NoteFilter
one_a_page = record {
  grantee_id = codes "acme";
  kind = codes "note";
  since = none;
  until = none;
  include_superseded = true;
  limit = 1;
  cursor = 0;
}

acme_is_named : is_empty (trim_space one_a_page.grantee_id) ≡ false
unfolding trim_space
acme_is_named = refl

note_is_known : (not (is_empty one_a_page.kind) && not (valid_note_kind one_a_page.kind)) ≡ false
unfolding valid_note_kind any_row eqs
note_is_known = refl

two_notes-AreDistinct : AreDistinct (λ (n : NoteRow). n.id) noted.db.notes
two_notes-AreDistinct = ((λ e. omega (arith, e), tt), (tt, tt))

two_notes_positive : All (λ (n : NoteRow). 0 < n.id) noted.db.notes
two_notes_positive = (omega arith, (omega arith, tt))

two_match :
    length
      (sort_rows note_before (where_rows (note_matches one_a_page noted.db.notes) noted.db.notes))
    ≡ 2
unfolding sort_rows where_rows note_matches trim_space eqs
two_match = refl

enough_pages :
    length
      (sort_rows note_before (where_rows (note_matches one_a_page noted.db.notes) noted.db.notes))
    < 3
enough_pages = omega (arith, two_match)

pages_are_complete_example : all_pages 3 (record one_a_page { cursor = 0 }) (calm noted) ≡ (
  ok (
      map (scan_note noted.db.notes) (
        sort_rows note_before
          (where_rows (note_matches one_a_page noted.db.notes) noted.db.notes))),
  calm noted,
)
pages_are_complete_example =
    pages_are_complete one_a_page noted acme_is_named note_is_known two_notes-AreDistinct
      two_notes_positive 3 enough_pages

-- One operator comes, one without a key does not, and one goes.
abbrev operator_changes : List Change
operator_changes =
    put (codes "bob@example.org") (codes "k2") (codes "SHA256:k2")
    ∷ put (codes "eve@example.org") [] []
    ∷ drop (codes "ALICE@example.org")
    ∷ []

operator_changes_test :
    (apply_all operator_changes test_world).0
    ≡ put (codes "bob@example.org") (codes "k2") (codes "SHA256:k2")
      ∷ drop (codes "ALICE@example.org")
      ∷ []
unfolding apply_all any_row citext_eq to_lower eqs count_rows
operator_changes_test = refl

operators_refine_example :
    directory (apply_all operator_changes test_world).1.db (codes "Bob@example.org")
    ≡ replay
        (apply_all operator_changes test_world).0
        (directory test_world.db)
        (codes "Bob@example.org")
operators_refine_example = operators_refine operator_changes test_world (codes "Bob@example.org")
