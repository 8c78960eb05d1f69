-- ===== src/Store/Delivered.antt =====
-- InsertMessage of tools/api/internal/store/store.go for a new message, while the database answers.
use balvibot.Prelude.{ℕ, ◌≡◌, true, false, ◌&&◌, Option, none, some, eqs, any_row, ◌==◌}
use balvibot.Store.Schema.{Db}
use balvibot.Store.Calmly.{Calmly}
use balvibot.Store.Messages.{Message, grantee_exists}

-- No message has its Message-ID, none has its place in the folder, and its thread and its grantee,
-- if it has one, are there.
pub record IsNew (m : Message) (db : Db) : Type 0 where
  pub id : any_row (λ r. eqs r.message_id m.message_id) db.messages ≡ false
  pub place :
      any_row
        (λ r. eqs r.folder m.folder && r.uid_validity == m.uid_validity && r.uid == m.uid)
        db.messages
      ≡ false
  pub thread : any_row (λ r. r.id == m.thread_id) db.threads ≡ true
  pub grantee : grantee_exists m.grantee_id db ≡ true

module _ (m : Message) where
  abbrev IsSome : Option ℕ → Db → Type 0
  IsSome none db = ⊥
  IsSome (some id) db = Unit
