-- ===== src/Examples/Sessions.antt =====
-- The theorems on the sessions with the IMAP server at examples.
use balvibot.Prelude.{
  ℕ, ◌*◌, ◌≡◌, refl, none, some, [], ◌∷◌, codes, eqs, find_row, any_row, update_rows, arith,
}
use balvibot.Errors.{ok, err, message}
use balvibot.Store.Exec.{World}
use balvibot.Store.Threads.{mailbox_of, scan_mailbox}
use balvibot.Mailbox.{closed, handle_message}
use balvibot.Mailbox.Run.{idle_failed, renewed, changed, Turn, Log, second, run}
use balvibot.Mailbox.Backoff.{pauses_from, pauses_double}
use balvibot.Mailbox.Rising.{IsAtLeast, uid_never_falls}
use balvibot.Examples.{test_world}
use balvibot.Examples.Mail.{test_parser, good}

-- The server refuses the connection.
abbrev refused : Turn
refused = record {
  before = none;
  session = record {
    dial = err (message (codes "connection refused"));
    login = ok tt;
    select_folder = ok 1;
    fetch = λ uid. record { messages = []; ending = closed };
    passes = [];
  };
  after = none;
  pausing = none;
}

-- A session that brings a message and then breaks.
abbrev served : Turn
served = record {
  before = none;
  session = record {
    dial = ok tt;
    login = ok tt;
    select_folder = ok 1;
    fetch = λ uid. record { messages = []; ending = closed };
    passes =
        renewed
        ∷ changed (λ uid. record { messages = good ∷ []; ending = closed })
        ∷ idle_failed (message (codes "EOF"))
        ∷ [];
  };
  after = none;
  pausing = none;
}

abbrev seen_world : World
seen_world = record test_world {
  db = record test_world.db {
    mailboxes =
        record { folder = codes "INBOX"; uid_validity = 1; last_uid = 3; updated_at = 0 } ∷ [];
  };
}

three_turns :
    (run test_parser (codes "INBOX") (refused ∷ served ∷ refused ∷ []) seen_world).0
    ≡ ok (record { pauses = second ∷ 2 * second ∷ 4 * second ∷ []; ended = none })
unfolding run handle_message any_row eqs find_row update_rows
three_turns = refl

raised :
    mailbox_of
      (codes "INBOX")
      (run test_parser (codes "INBOX") (refused ∷ served ∷ []) seen_world).1.db
    ≡ some (record { folder = codes "INBOX"; uid_validity = 1; last_uid = 5 })
unfolding run handle_message any_row eqs find_row update_rows mailbox_of
raised = refl

pauses_double_example :
    (l : Log) × (n : ℕ) × ((run test_parser
        (codes "INBOX")
        (refused ∷ served ∷ refused ∷ [])
        seen_world).0
      ≡ ok l)
    × (l.pauses ≡ pauses_from 0 n)
pauses_double_example =
    pauses_double test_parser (codes "INBOX") (refused ∷ served ∷ refused ∷ []) seen_world

ok_same : (a b : ℕ) → ok a ≡ ok b → b ≡ a
ok_same a b h = cc

at_three : IsAtLeast 1 3 (mailbox_of (codes "INBOX") seen_world.db)
unfolding mailbox_of scan_mailbox find_row eqs
at_three = (refl, omega arith)

uid_never_falls_example : IsAtLeast 1 3 (
    mailbox_of
      (codes "INBOX")
      (run test_parser (codes "INBOX") (refused ∷ served ∷ []) seen_world).1.db)
uid_never_falls_example =
    uid_never_falls test_parser (codes "INBOX") 1 3 (refused ∷ served ∷ []) seen_world
      (ok_same 1, (ok_same 1, tt)) at_three
