-- ===== src/Store/Notes/Pages.antt =====
-- The pages of ListNotes, tools/api/internal/store/notes.go, one after the other.
use mathlib.Core.Path.{subst}
use balvibot.Prelude.{
  ℕ, zero, suc, ◌≡◌, refl, sym, ap, ◌∙◌, ◌<◌, ◌≤◌, ◌+◌, true, false, not, ◌&&◌, inl, inr,
  Bool-cases, List, [], ◌∷◌, ◌++◌, All, is_empty, trim_space, length, take, map, ltb, ltb→lt,
  ltb→ge, ◌==◌, where_rows, sort_rows, IsDescending, AreDistinct, last_key, drop, sort-IsDescending,
  where-sort, rest_of_page, take-drop, where-IsDescending, where_implied, where-holds, last_le,
  last_positive, length-drop, where-AreDistinct, where-where, All-sort, All-where, arith,
  if◌then◌else◌,
}
use balvibot.Errors.{ok}
use balvibot.Store.Schema.{NoteRow}
use balvibot.Store.Exec.{World, Exec, pure, ◌>>=◌}
use balvibot.Store.Reads.{calm, bind-ok, select-calm}
use balvibot.Store.Docs.{page_of}
use balvibot.Store.Paged.{map-append, page_short, page_long}
use balvibot.Store.Notes.{
  Note, NoteFilter, valid_note_kind, scan_note, clamp_limit, note_matches, below_cursor,
  note_before, notes_after, list_notes,
}

all_rows : (l : List NoteRow) → where_rows (λ n. below_cursor 0 n.id) l ≡ l
unfolding where_rows
all_rows [] = refl
all_rows (x ∷ l) = ap (λ t. x ∷ t) (all_rows l)

-- A client that follows the cursors, on fuel: one page after the other, from the cursor of `f` on.
unfoldable pub all_pages : ℕ → NoteFilter → Exec (List Note)
unfolding ◌>>=◌ list_notes
all_pages zero f = pure []
all_pages (suc fuel) f = do
  page ← list_notes f
  let rest = all_pages fuel (record f { cursor = page.1 })
  if page.1 == 0 then pure page.0 else (do notes ← rest; pure (page.0 ++ notes))

module _ (f : NoteFilter) (w : World) (given : is_empty (trim_space f.grantee_id) ≡ false)
    (kind_known : (not (is_empty f.kind) && not (valid_note_kind f.kind)) ≡ false)
    (distinct : AreDistinct (λ (n : NoteRow). n.id) w.db.notes)
    (positive : All (λ (n : NoteRow). 0 < n.id) w.db.notes) where
  -- The notes that the filter asks for, newest first.
  abbrev pub matching : List NoteRow
  matching = sort_rows note_before (where_rows (note_matches f w.db.notes) w.db.notes)

  abbrev at : ℕ → NoteFilter
  at c = record f { cursor = c }

  abbrev rows : ℕ → List NoteRow
  rows c = where_rows (λ n. below_cursor c n.id) matching

  abbrev scan : NoteRow → Note
  scan = scan_note w.db.notes

  after_cursor : (c : ℕ) → notes_after (at c) w.db ≡ rows c
  unfolding notes_after note_matches
  after_cursor c =
      ap (sort_rows note_before)
        (where-where (note_matches f w.db.notes) (λ n. below_cursor c n.id) w.db.notes)
      ∙ sym (
          where-sort (λ (n : NoteRow). n.id) (λ n. below_cursor c n.id)
            (where_rows (note_matches f w.db.notes) w.db.notes)
            (where-AreDistinct (λ (n : NoteRow). n.id) (note_matches f w.db.notes) w.db.notes
              distinct))

  descending : (c : ℕ) → IsDescending (λ (n : NoteRow). n.id) (rows c)
  descending c =
      where-IsDescending (λ (n : NoteRow). n.id) (λ n. below_cursor c n.id) matching
        (sort-IsDescending (λ (n : NoteRow). n.id)
          (where_rows (note_matches f w.db.notes) w.db.notes)
          (where-AreDistinct (λ (n : NoteRow). n.id) (note_matches f w.db.notes) w.db.notes
            distinct))

  All-positive : (c : ℕ) → All (λ (n : NoteRow). 0 < n.id) (rows c)
  All-positive c =
      All-where (λ (n : NoteRow). n.id) (λ n. 0 < n.id) (λ n. below_cursor c n.id) matching
        (All-sort (λ (n : NoteRow). n.id) (λ n. 0 < n.id)
          (where_rows (note_matches f w.db.notes) w.db.notes)
          (All-where (λ (n : NoteRow). n.id) (λ n. 0 < n.id) (note_matches f w.db.notes) w.db.notes
            positive))

  one_page :
      (c : ℕ)
      → list_notes (at c) (calm w) ≡ (
        ok (
            page_of
              (λ n. n.id)
              (clamp_limit f.limit)
              (map scan (take (suc (clamp_limit f.limit)) (rows c)))),
        calm w,
      )
  unfolding list_notes
  one_page c =
      rw (given, kind_known)
        (select-calm
          (λ db. ok (
            page_of (λ n. n.id) (clamp_limit f.limit)
              (map (scan_note db.notes) (take (clamp_limit f.limit + 1) (notes_after (at c) db)))))
          w
          (page_of (λ n. n.id) (clamp_limit f.limit)
            (map scan (take (suc (clamp_limit f.limit)) (rows c))))
          (ap
              (λ (k : ℕ). ok (
                page_of (λ (n : Note). n.id) (clamp_limit f.limit)
                  (map scan (take k (notes_after (at c) w.db)))))
              (plus_one (clamp_limit f.limit))
            ∙ ap
                (λ (l : List NoteRow). ok (
                  page_of (λ (n : Note). n.id) (clamp_limit f.limit)
                    (map scan (take (suc (clamp_limit f.limit)) l))))
                (after_cursor c)))
    where
      plus_one : (n : ℕ) → n + 1 ≡ suc n
      plus_one n = omega arith

  -- The rows after a page are those that the page left out.
  next_rows :
      (c n : ℕ) (x : NoteRow) (xs : List NoteRow)
      → rows c ≡ x ∷ xs
      → rows (last_key (λ (n : NoteRow). n.id) x (take n xs)) ≡ drop (λ (n : NoteRow). n.id) n xs
  next_rows c n x xs e = rw (nonzero (last_key (λ (n : NoteRow). n.id) x (take n xs)) above_zero) (
      sym (
        where_implied (λ (n : NoteRow). below_cursor c n.id)
          (λ (y : NoteRow). ltb y.id (last_key (λ (n : NoteRow). n.id) x (take n xs))) matching
          (λ y lt.
            inside (y.id) (last_key (λ (n : NoteRow). n.id) x (take n xs)) x.id lt
              (last_le (λ (n : NoteRow). n.id) n x xs sorted) head_below))
      ∙ ap (where_rows (λ (y : NoteRow). ltb y.id (last_key (λ (n : NoteRow). n.id) x (take n xs))))
          e
      ∙ rest_of_page (λ (n : NoteRow). n.id) n x xs sorted)
    where
      sorted : IsDescending (λ (n : NoteRow). n.id) (x ∷ xs)
      sorted = subst (IsDescending (λ (n : NoteRow). n.id)) e (descending c)

      above_zero : 0 < last_key (λ (n : NoteRow). n.id) x (take n xs)
      above_zero =
          last_positive (λ (n : NoteRow). n.id) n x xs
            (subst (All (λ (n : NoteRow). 0 < n.id)) e (All-positive c))

      head_below : below_cursor c x.id ≡ true
      head_below =
          (subst (All (λ (n : NoteRow). below_cursor c n.id ≡ true)) e
            (where-holds (λ (n : NoteRow). below_cursor c n.id) matching)).0

      nonzero : (l : ℕ) → 0 < l → (l == 0) ≡ false
      nonzero l h = ground (arith, h)

      inside :
          (y l x : ℕ) → ltb y l ≡ true → l ≤ x → below_cursor c x ≡ true → below_cursor c y ≡ true
      inside y l x lt le h = ground (arith, lt, le, h)

  limit_positive : (n : ℕ) × (clamp_limit f.limit ≡ suc n)
  limit_positive = predecessor (clamp_limit f.limit) (unfold clamp_limit in ground arith)
    where
      predecessor : (m : ℕ) → 0 < m → (n : ℕ) × (m ≡ suc n)
      predecessor zero h = absurd (omega (arith, h))
      predecessor (suc n) h = (n, refl)

  follow : (fuel c : ℕ) (page : List Note × ℕ) → Exec (List Note)
  follow fuel c page =
      if page.1 == 0
      then pure page.0
      else (do notes ← all_pages fuel (at page.1); pure (page.0 ++ notes))

  step :
      (fuel c : ℕ) (page : List Note × ℕ)
      → list_notes (at c) (calm w) ≡ (ok page, calm w)
      → all_pages (suc fuel) (at c) (calm w) ≡ follow fuel c page (calm w)
  unfolding all_pages follow
  step fuel c page e = bind-ok (list_notes (at c)) _ (calm w) (calm w) page e

  last_page :
      (fuel c : ℕ)
      → length (rows c) ≤ clamp_limit f.limit
      → all_pages (suc fuel) (at c) (calm w) ≡ (ok (map scan (rows c)), calm w)
  unfolding follow pure
  last_page fuel c le =
      step fuel c (map scan (rows c), 0)
        (one_page c
          ∙ ap (λ (p : List Note × ℕ). (ok p, calm w))
              (page_short (λ (n : NoteRow). n.id) (λ (n : Note). n.id) scan
                (λ n. unfold scan_note in refl) (clamp_limit f.limit) (rows c) le))

  full_page :
      (fuel c n : ℕ) (x : NoteRow) (xs : List NoteRow)
      → clamp_limit f.limit ≡ suc n
      → rows c ≡ x ∷ xs
      → n < length xs
      → all_pages fuel (at (last_key (λ (n : NoteRow). n.id) x (take n xs))) (calm w)
        ≡ (ok (map scan (drop (λ (n : NoteRow). n.id) n xs)), calm w)
      → all_pages (suc fuel) (at c) (calm w) ≡ (ok (map scan (rows c)), calm w)
  unfolding follow pure
  full_page fuel c n x xs lim e lt rest =
      step fuel c (map scan (x ∷ take n xs), l)
        (one_page c ∙ ap (λ (p : List Note × ℕ). (ok p, calm w)) this_page)
      ∙ rw (nonzero l above_zero) (
          bind-ok (all_pages fuel (at l)) (λ notes. pure (map scan (x ∷ take n xs) ++ notes))
            (calm w) (calm w) (map scan (drop (λ (n : NoteRow). n.id) n xs)) rest
          ∙ ap (λ (r : List Note). (ok r, calm w)) joined)
    where
      l : ℕ
      l = last_key (λ (n : NoteRow). n.id) x (take n xs)

      this_page :
          page_of
            (λ (n : Note). n.id)
            (clamp_limit f.limit)
            (map scan (take (suc (clamp_limit f.limit)) (rows c)))
          ≡ (map scan (x ∷ take n xs), last_key (λ (n : NoteRow). n.id) x (take n xs))
      this_page =
          rw (lim, e)
            (page_long (λ (n : NoteRow). n.id) (λ (n : Note). n.id) scan
              (λ n. unfold scan_note in refl) n x xs lt)

      above_zero : 0 < last_key (λ (n : NoteRow). n.id) x (take n xs)
      above_zero =
          last_positive (λ (n : NoteRow). n.id) n x xs
            (subst (All (λ (n : NoteRow). 0 < n.id)) e (All-positive c))

      nonzero : (l : ℕ) → 0 < l → (l == 0) ≡ false
      nonzero l h = ground (arith, h)

      joined :
          map scan (x ∷ take n xs) ++ map scan (drop (λ (n : NoteRow). n.id) n xs)
          ≡ map scan (rows c)
      joined =
          sym (map-append scan (x ∷ take n xs) (drop (λ (n : NoteRow). n.id) n xs))
          ∙ ap (λ (t : List NoteRow). map scan (x ∷ t)) (take-drop (λ (n : NoteRow). n.id) n xs)
          ∙ ap (map scan) (sym e)

  pages_from :
      (fuel c : ℕ)
      → length (rows c) < fuel
      → all_pages fuel (at c) (calm w) ≡ (ok (map scan (rows c)), calm w)
  pages_from zero c lt = absurd (omega (arith, lt))
  pages_from (suc fuel) c lt = elim (Bool-cases (ltb (clamp_limit f.limit) (length (rows c)))) [
    | inr small ↦ last_page fuel c (ltb→ge _ _ small)
    | inl large ↦ full (rows c) refl (ltb→lt _ _ large) (pages_from fuel) limit_positive
  ]
    where
      full :
          (r : List NoteRow)
          → rows c ≡ r
          → clamp_limit f.limit < length r
          → ((c : ℕ)
              → length (rows c) < fuel
              → all_pages fuel (at c) (calm w) ≡ (ok (map scan (rows c)), calm w))
          → ((n : ℕ) × (clamp_limit f.limit ≡ suc n))
          → all_pages (suc fuel) (at c) (calm w) ≡ (ok (map scan (rows c)), calm w)
      full [] e large again p = absurd (omega (arith, large))
      full (x ∷ xs) e large again (n, lim) =
          let next = next_rows c n x xs e in
          let l = last_key (λ (n : NoteRow). n.id) x (take n xs) in
          full_page fuel c n x xs lim e (omega (arith, lim, large)) (
            again l (
              omega
                (arith, ap length next, length-drop (λ (n : NoteRow). n.id) n xs, ap length e, lt))
            ∙ ap (λ (r : List NoteRow). (ok (map scan r), calm w)) next)

  everything : rows 0 ≡ matching
  everything = all_rows matching

  -- The pages of ListNotes, one after the other from the first by the cursors that they return, are
  -- all the notes that the filter asks for, newest first, each once: for a grantee that is named, a
  -- kind that is known, and notes with distinct ids from 1 on, while the database answers, and with
  -- more steps than there are such notes, whatever the limit is.
  pub pages_are_complete :
      (fuel : ℕ)
      → length (sort_rows note_before (where_rows (note_matches f w.db.notes) w.db.notes)) < fuel
      → all_pages fuel (record f { cursor = 0 }) (calm w) ≡ (
        ok (
            map
              (scan_note w.db.notes)
              (sort_rows note_before (where_rows (note_matches f w.db.notes) w.db.notes))),
        calm w,
      )
  pages_are_complete fuel lt =
      pages_from fuel 0 (omega (arith, lt, ap length everything))
      ∙ ap (λ (r : List NoteRow). (ok (map scan r), calm w)) everything
