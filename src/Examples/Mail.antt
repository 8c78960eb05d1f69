-- ===== src/Examples/Mail.antt =====
-- The theorems on the mail indexer and the threading at examples.
use balvibot.Prelude.{
  ◌<◌, ℕ, ◌≡◌, refl, ◌||◌, ◌⊎◌, ◌≤◌, [], ◌∷◌, All, Str, codes, eqs, any_row, find_row, arith,
}
use balvibot.Errors.{Result, ok, err, message, wrap}
use balvibot.Store.Exec.{pure, World}
use balvibot.Threading.{has, extract_ids, own_id, thread_candidates}
use balvibot.Threading.Candidates.{NoDup, IsId, candidates_distinct, candidates_complete}
use balvibot.Mailbox.{Parser, Parsed, Fetched, handle_message, index_all}
use balvibot.Mailbox.Watermark.{handled, Indexed, watermark_reached, failed_is_passed}
use balvibot.Examples.{test_world}

candidates_distinct_example :
    NoDup (thread_candidates (codes "<c@x>") (codes "<b@x>") (codes "<a@x> <b@x>"))
    × All IsId (thread_candidates (codes "<c@x>") (codes "<b@x>") (codes "<a@x> <b@x>"))
candidates_distinct_example =
    candidates_distinct (codes "<c@x>") (codes "<b@x>") (codes "<a@x> <b@x>")

candidates_complete_example :
    has (codes "b@x") (thread_candidates (codes "<c@x>") (codes "<b@x>") (codes "<a@x> <b@x>")) ≡ (
      has (codes "b@x") (extract_ids (codes "<a@x> <b@x>"))
      || has (codes "b@x") (extract_ids (codes "<b@x>"))
      || has (codes "b@x") (own_id (codes "<c@x>")))
candidates_complete_example =
    candidates_complete (codes "<c@x>") (codes "<b@x>") (codes "<a@x> <b@x>") (codes "b@x") refl

candidates_test :
    thread_candidates (codes "<c@x>") (codes "<b@x>") (codes "<a@x> <b@x>")
    ≡ codes "a@x" ∷ codes "b@x" ∷ codes "c@x" ∷ []
unfolding thread_candidates any_row eqs
candidates_test = refl

abbrev pub parsed : Parsed
parsed = record {
  message_id = codes "m@x";
  in_reply_to = [];
  references = [];
  refs_list = [];
  from_address = record { name = []; email = codes "bob@example.org" };
  to = [];
  cc = [];
  bcc = [];
  subject = codes "Hello";
  date = 60;
  body_text = codes "hi";
  body_html = [];
  attachments = [];
}

abbrev pub parse_raw : Str → Result Parsed
parse_raw [] = err (message (codes "empty"))
parse_raw (c ∷ []) = err (message (codes "bad header"))
parse_raw (c ∷ d ∷ s) = ok parsed

abbrev pub test_parser : Parser
test_parser = record { parse = parse_raw; normalize_subject = λ s. s }

abbrev bad : Fetched
bad = record { uid = 4; raw = codes "x"; envelope_id = []; size = 1 }

abbrev pub good : Fetched
good = record { uid = 5; raw = codes "From: bob"; envelope_id = []; size = 9 }

bad_fails :
    handled test_parser (codes "INBOX") 1 bad test_world
    ≡ (err (wrap (codes "parse: ") (message (codes "bad header")) []), test_world)
unfolding handle_message
bad_fails = refl

good_succeeds :
    handled test_parser (codes "INBOX") 1 good test_world
    ≡ (ok tt, (handled test_parser (codes "INBOX") 1 good test_world).1)
unfolding handle_message any_row eqs find_row
good_succeeds = refl

abbrev after_good : World
after_good = (handled test_parser (codes "INBOX") 1 good test_world).1

none_before : index_all test_parser (codes "INBOX") 1 3 [] test_world ≡ (ok 3, test_world)
unfolding index_all pure
none_before = refl

failed_is_passed_example :
    (n : ℕ) × (w' : World) × (index_all test_parser (codes "INBOX") 1 3 (bad ∷ good ∷ []) test_world
      ≡ (ok n, w'))
    × (5 ≤ n)
    × (4 < n)
failed_is_passed_example =
    failed_is_passed test_parser (codes "INBOX") 1 3 3 3 [] [] [] bad good
      (wrap (codes "parse: ") (message (codes "bad header")) []) test_world test_world test_world
      test_world after_good (omega arith) (omega arith) none_before bad_fails none_before
      good_succeeds

watermark_reached_example :
    (n : ℕ) × (w' : World) × (index_all test_parser (codes "INBOX") 1 3 (bad ∷ good ∷ []) test_world
      ≡ (ok n, w'))
    × (3 ≤ n)
    × ((n ≡ 3) ⊎ Indexed test_parser (codes "INBOX") 1 3 test_world (bad ∷ good ∷ []) n)
watermark_reached_example =
    watermark_reached test_parser (codes "INBOX") 1 3 (bad ∷ good ∷ []) test_world
