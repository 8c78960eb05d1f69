-- ===== src/Actions/Effects.antt =====
-- What the handler of an approved grantee leaves in the tables.
use balvibot.Prelude.{
  ℕ, ◌≡◌, refl, ◌∙◌, Bool, true, false, Option, none, some, [], ◌∷◌, ◌++◌, Str, eqs, eqs_refl,
  is_empty, trim_space, find_row, find-append, any-find, none-find,
}
use balvibot.Errors.{ok}
use balvibot.Store.Schema.{Db, GranteeRow}
use balvibot.Store.Exec.{World, lift, now, ◌>>=◌}
use balvibot.Store.Text.{null_str}
use balvibot.Store.Reads.{calm, statement-calm}
use balvibot.Store.Grantees.{
  status_active, ensure_grantee, insert_grantee, has_grantee, grantee_with_id,
}
use balvibot.Approval.Keys.{Ssh}
use balvibot.Actions.{Codec, AddGranteeArgs, run_add_grantee}

-- The grantee that is there, or else an active one with this name.
abbrev pub or_new : Str → Str → ℕ → Option GranteeRow → GranteeRow
or_new slug name t (some g) = g
or_new slug name t none = record {
  grantee_id = slug;
  display_name = null_str name;
  status = status_active;
  created_at = t;
}

module _ (codec : Codec) (ssh : Ssh) (raw : Str) (a : AddGranteeArgs) (w : World)
    (decoded : codec.decode_add_grantee raw ≡ ok a)
    (named : is_empty (trim_space a.slug) ≡ false) where
  abbrev slug : Str
  slug = trim_space a.slug

  abbrev new_row : GranteeRow
  new_row = or_new slug a.display_name w.clock none

  abbrev left : Bool → Db
  left true = w.db
  left false = record w.db { grantees = w.db.grantees ++ new_row ∷ [] }

  inserted : (b : Bool) → has_grantee slug w.db ≡ b → insert_grantee new_row w.db ≡ ok (tt, left b)
  unfolding insert_grantee eqs
  inserted true h = rw h refl
  inserted false h = rw h refl

  runs :
      (b : Bool)
      → has_grantee slug w.db ≡ b
      → run_add_grantee codec ssh raw (calm w) ≡ (ok tt, calm (record w { db = left b }))
  unfolding run_add_grantee lift ensure_grantee now ◌>>=◌
  runs b h =
      rw (decoded, named) (statement-calm (insert_grantee new_row) w tt (left b) (inserted b h))

  there :
      (b : Bool)
      → has_grantee slug w.db ≡ b
      → grantee_with_id slug (left b)
        ≡ some (or_new slug a.display_name w.clock (grantee_with_id slug w.db))
  unfolding grantee_with_id
  there true h =
      let (g, e) = any-find (λ (g : GranteeRow). eqs g.grantee_id slug) w.db.grantees h in rw e refl
  there false h =
      let e = none-find (λ (g : GranteeRow). eqs g.grantee_id slug) w.db.grantees h in
      rw e (
        find-append (λ (g : GranteeRow). eqs g.grantee_id slug) w.db.grantees (new_row ∷ []) e
        ∙ unfold find_row in rw (eqs_refl slug) refl)

  -- The handler of add_grantee, over args that name a grantee, while the database answers: it
  -- succeeds, and the grantee stands in the table, the one that was there as it was, also a paused
  -- one, or else a new active one.
  pub add_grantee_ensures :
      (w' : World) × (run_add_grantee codec ssh raw (calm w) ≡ (ok tt, w'))
      × (grantee_with_id (trim_space a.slug) w'.db
          ≡ some (
              or_new
                (trim_space a.slug)
                a.display_name
                w.clock
                (grantee_with_id (trim_space a.slug) w.db)))
  add_grantee_ensures =
      let b = has_grantee slug w.db in (calm (record w { db = left b }), runs b refl, there b refl)
