-- ===== src/Store/Enqueued.antt =====
-- What GetAction of tools/api/internal/store/approvals.go returns of an action that was queued.
use balvibot.Prelude.{
  ℕ, ◌≡◌, refl, ◌∙◌, Bool, false, none, some, [], ◌∷◌, ◌++◌, Str, is_empty, ◌==◌, ◌+◌, find_row,
  find-append, arith,
}
use balvibot.Errors.{ok}
use balvibot.Store.Schema.{ActionRow}
use balvibot.Store.Exec.{World, pure, now, ◌>>=◌}
use balvibot.Store.Text.{null_str}
use balvibot.Store.Reads.{calm, bind-ok, statement-calm, read_row_calm}
use balvibot.Store.Approvals.{
  raw_or_empty, to_jsonb, new_action, insert_action, enqueue_action, action_with_id, get_action,
  scan_action, missing,
}

module _ (action args metadata requested_by a m : Str) (w : World) (named : is_empty action ≡ false)
    (args_taken : w.jsonb (raw_or_empty args) ≡ some a)
    (metadata_taken : w.jsonb (raw_or_empty metadata) ≡ some m)
    (fresh : action_with_id w.db.next_action w.db ≡ none) where
  abbrev pub row : ActionRow
  row = new_action w.db.next_action action a m (null_str requested_by) w.clock

  abbrev pub queued_world : World
  queued_world = record w {
    db = record w.db { actions = w.db.actions ++ row ∷ []; next_action = w.db.next_action + 1 };
  }

  enqueues :
      enqueue_action action args metadata requested_by (calm w)
      ≡ (ok w.db.next_action, calm queued_world)
  unfolding enqueue_action now to_jsonb ◌>>=◌
  enqueues =
      rw (named, args_taken, metadata_taken)
        (statement-calm (insert_action action (some a) (some m) (null_str requested_by) w.clock) w
          w.db.next_action queued_world.db (unfold insert_action in refl))

  found : action_with_id w.db.next_action queued_world.db ≡ some row
  unfolding action_with_id
  found =
      find-append (λ (r : ActionRow). r.id == w.db.next_action) w.db.actions (row ∷ []) fresh
      ∙ unfold find_row in rw (same w.db.next_action) refl
    where
      same : (n : ℕ) → (n == n) ≡ Bool.true
      same n = ground arith

  -- EnqueueAction of a named action whose args and metadata the server takes, while the database
  -- answers and the next id is not in use, and then GetAction of the id it returned: the action
  -- stands in the queue as pending, with the server's form of its args and metadata (`{}` in the
  -- place of none), its requester if there is one, and approved by nobody.
  pub enqueue_then_get :
      (enqueue_action action args metadata requested_by >>= get_action) (calm w) ≡ (
        ok (scan_action (new_action w.db.next_action action a m (null_str requested_by) w.clock)),
        calm (record w {
          db = record w.db {
            actions =
                w.db.actions
                ++ new_action w.db.next_action action a m (null_str requested_by) w.clock ∷ [];
            next_action = w.db.next_action + 1;
          };
        }),
      )
  unfolding get_action pure
  enqueue_then_get =
      bind-ok (enqueue_action action args metadata requested_by) get_action (calm w)
        (calm queued_world) w.db.next_action enqueues
      ∙ read_row_calm (action_with_id w.db.next_action) missing (λ r. pure (scan_action r))
          queued_world row found
