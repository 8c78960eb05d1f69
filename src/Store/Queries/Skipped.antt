-- ===== src/Store/Queries/Skipped.antt =====
-- What a client that follows the cursors of ListMessagesByGrantee never sees.
use mathlib.Core.Path.{subst}
use balvibot.Prelude.{
  and_true, ℕ, zero, suc, ◌+◌, ◌≤◌, ◌<◌, ◌≡◌, refl, sym, ap, ◌⊎◌, inl, inr, Bool, true, false, ◌&&◌,
  Bool-cases, Option, List, [], ◌∷◌, ◌++◌, Str, is_empty, length, take, map, ltb, ◌==◌, All,
  All-append, IsIn, IsIn-All, arith, if◌then◌else◌,
}
use balvibot.Errors.{Result, ok, err}
use balvibot.Store.Exec.{World}
use balvibot.Store.Reads.{calm, select-calm}
use balvibot.Store.Notes.{clamp_limit, below_cursor}
use balvibot.Store.Docs.{last_or, page_of}
use balvibot.Store.Paged.{page_holds}
use balvibot.Store.Queries.{
  MessageSummary, scan_message_summary, message_before, message_matches, messages_after,
  list_messages_by_grantee,
}

-- The page and its cursor, where there is an answer.
abbrev answer_of : Result (List MessageSummary × ℕ) → List MessageSummary × ℕ
answer_of (ok page) = page
answer_of (err e) = ([], 0)

last_below : (c n : ℕ) (ns : List ℕ) → n < c → All (λ k. k < c) ns → last_or n ns < c
last_below c n [] lt h = lt
last_below c n (k ∷ ns) lt (p, h) = last_below c k ns p h

module _ (g : Str) (since until : Option ℕ) (limit : ℕ) (w : World) where
  -- The page from a cursor on, and the cursor of the next one.
  unfoldable pub page : ℕ → List MessageSummary × ℕ
  page cursor = answer_of (list_messages_by_grantee g since until limit cursor (calm w)).0

  abbrev pub ids : List MessageSummary → List ℕ
  ids = map (λ m. m.id)

  -- The ids on at most n pages, one after the other, from a cursor on.
  unfoldable pub ids_from : ℕ → ℕ → List ℕ
  unfolding page
  ids_from zero cursor = []
  ids_from (suc n) cursor =
      let rest = ids_from n (page cursor).1 in
      ids (page cursor).0 ++ (if (page cursor).1 == 0 then [] else rest)

  module _ (named : is_empty g ≡ false) where
    abbrev rows : ℕ → List MessageSummary
    rows cursor =
        map (scan_message_summary w.db)
          (take (clamp_limit limit + 1) (messages_after g since until cursor w.db))

    page_lem : (cursor : ℕ) → page cursor ≡ page_of (λ m. m.id) (clamp_limit limit) (rows cursor)
    unfolding page list_messages_by_grantee
    page_lem cursor = rw named (ap (λ r. answer_of r.0) (select-calm _ w _ refl))

    ids_below :
        (c : ℕ) (ms : List MessageSummary) → All (λ m. m.id < c) ms → All (λ k. k < c) (ids ms)
    ids_below c [] h = tt
    ids_below c (m ∷ ms) (p, h) = (p, ids_below c ms h)

    cursor_below : (c id : ℕ) → 0 < c → below_cursor c id ≡ true → id < c
    cursor_below c id pos h = ground (arith, h)

    page_below : (c : ℕ) → 0 < c → All (λ m. m.id < c) (page c).0
    unfolding messages_after scan_message_summary
    page_below c pos =
        subst (λ (r : List MessageSummary × ℕ). All (λ m. m.id < c) r.0) (sym (page_lem c))
          (page_holds (λ m. m.id < c) (λ s. s.id < c) (scan_message_summary w.db) message_before
            (λ m. message_matches g since until m && below_cursor c m.id) (λ m lt. lt) (λ m. m.id)
            (clamp_limit limit) (clamp_limit limit + 1) w.db.messages
            (λ m within hit.
              cursor_below c m.id pos
                (and_true (message_matches g since until m) (below_cursor c m.id) hit).1))

    next_of_below :
        (c k : ℕ) (ms : List MessageSummary)
        → 0 < c
        → All (λ m. m.id < c) (page_of (λ m. m.id) k ms).0
        → (page_of (λ m. m.id) k ms).1 < c
    unfolding page_of
    next_of_below c k ms pos = cases (ltb k (length ms))
      where
        chosen : Bool → List MessageSummary × ℕ
        chosen b = if b then (take k ms, last_or 0 (ids (take k ms))) else (ms, 0)

        cases : (b : Bool) → All (λ m. m.id < c) (chosen b).0 → (chosen b).1 < c
        cases true h = last_below c 0 (ids (take k ms)) pos (ids_below c (take k ms) h)
        cases false h = pos

    next_below : (c : ℕ) → 0 < c → (page c).1 < c
    next_below c pos =
        subst (λ (r : List MessageSummary × ℕ). r.1 < c) (sym (page_lem c))
          (next_of_below c (clamp_limit limit) (rows c) pos (
            subst (λ (r : List MessageSummary × ℕ). All (λ m. m.id < c) r.0) (page_lem c)
              (page_below c pos)))

    All-lower : (a c : ℕ) (ns : List ℕ) → a < c → All (λ k. k < a) ns → All (λ k. k < c) ns
    All-lower a c [] lt h = tt
    All-lower a c (k ∷ ns) lt (p, h) = (omega (arith, p, lt), All-lower a c ns lt h)

    rest_below :
        (c next : ℕ) (rest : List ℕ)
        → next < c
        → ((0 < next) → All (λ k. k < next) rest)
        → All (λ k. k < c) (if next == 0 then [] else rest)
    rest_below c next rest lt h = cases (Bool-cases (next == 0))
      where
        cases :
            ((next == 0) ≡ true) ⊎ ((next == 0) ≡ false)
            → All (λ k. k < c) (if next == 0 then [] else rest)
        cases (inl e) = rw e tt
        cases (inr e) = rw e (All-lower next c rest lt (h (ground arith)))

    ids_from_below : (n c : ℕ) → 0 < c → All (λ k. k < c) (ids_from n c)
    unfolding ids_from
    ids_from_below zero c pos = tt
    ids_from_below (suc n) c pos =
        All-append (λ k. k < c) (ids (page c).0) _ (ids_below c (page c).0 (page_below c pos))
          (rest_below c (page c).1 (ids_from n (page c).1) (next_below c pos)
            (ids_from_below n (page c).1))

    not_below : (c id : ℕ) (ns : List ℕ) → c ≤ id → All (λ k. k < c) ns → ¬ IsIn id ns
    not_below c id ns le h m = absurd_order (IsIn-All (λ k. k < c) id ns h m)
      where
        absurd_order : ¬ (id < c)
        absurd_order lt = omega (arith, lt, le)

    IsIn-append : (id : ℕ) (xs ys : List ℕ) → IsIn id (xs ++ ys) → IsIn id xs ⊎ IsIn id ys
    IsIn-append id [] ys m = inr m
    IsIn-append id (x ∷ xs) ys (inl e) = inl (inl e)
    IsIn-append id (x ∷ xs) ys (inr m) = elim (IsIn-append id xs ys m) [
      | inl h ↦ inl (inr h)
      | inr h ↦ inr h
    ]

    -- Where a grantee is named, a message that is not on the first page, with an id that is not below that of the last message
    -- on it, is on none of the pages that follow, however many the client asks for, though its date may put it
    -- after that message. The database answers and does not change.
    pub skipped_is_lost :
        (n id : ℕ) → ¬ IsIn id (ids (page 0).0) → (page 0).1 ≤ id → ¬ IsIn id (ids_from (suc n) 0)
    unfolding ids_from
    skipped_is_lost n id first le m =
        cases (Bool-cases ((page 0).1 == 0)) (IsIn-append id (ids (page 0).0) _ m)
      where
        cases :
            (((page 0).1 == 0) ≡ true) ⊎ (((page 0).1 == 0) ≡ false)
            → IsIn id (ids (page 0).0)
              ⊎ IsIn id (if (page 0).1 == 0 then [] else ids_from n (page 0).1)
            → ⊥
        cases z (inl h) = first h
        cases (inl z) (inr h) = rw z at h
        cases (inr z) (inr h) =
            not_below (page 0).1 id (ids_from n (page 0).1) le
              (ids_from_below n (page 0).1 (ground arith)) (rw z at h)
