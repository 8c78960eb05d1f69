-- ===== src/Threading/Candidates.antt =====
-- The candidates for the thread of a message: which they are, in which order.
use mathlib.Core.Path.{subst}
use balvibot.Prelude.{
  ◌≡◌, refl, ◌∙◌, inl, inr, Bool, true, false, not, ◌&&◌, ◌||◌, Bool-cases, Option, none, some,
  head?, List, [], ◌∷◌, ◌++◌, All, Str, eqs, eqs_iff, eqs_refl, is_empty, any_row, trim_space, ◌==◌,
  arith, if◌then◌else◌,
}
use balvibot.Threading.{
  has, first, in_order, trim_id, own_id, or_bare, put_id, bare_ids, trim_angles, angle_ids, fields,
  extract_ids, uniq, thread_candidates,
}

-- No string of the list comes twice.
abbrev pub NoDup : List Str → Type 0
NoDup [] = Unit
NoDup (x ∷ xs) = (has x xs ≡ false) × NoDup xs

abbrev pub IsId : Str → Type 0
IsId s = is_empty s ≡ false

uniq_avoids :
    (seen cands : List Str) (x : Str) → has x seen ≡ true → has x (uniq seen cands) ≡ false
unfolding uniq any_row
uniq_avoids seen [] x h = refl
uniq_avoids seen (c ∷ cands) x h =
    ground (arith, eqs_iff x c, uniq_avoids seen cands x, uniq_avoids (c ∷ seen) cands x)

uniq-NoDup : (seen cands : List Str) → NoDup (uniq seen cands)
unfolding uniq any_row
uniq-NoDup seen [] = tt
uniq-NoDup seen (c ∷ cands) = elim (Bool-cases (is_empty c || has c seen)) [
  | inl h ↦ rw h (uniq-NoDup seen cands)
  | inr h ↦ rw h (uniq_avoids (c ∷ seen) cands c (rw (eqs_refl c)), uniq-NoDup (c ∷ seen) cands)
]

uniq-IsId : (seen cands : List Str) → All IsId (uniq seen cands)
unfolding uniq any_row
uniq-IsId seen [] = tt
uniq-IsId seen (c ∷ cands) = elim (Bool-cases (is_empty c || has c seen)) [
  | inl h ↦ rw h (uniq-IsId seen cands)
  | inr h ↦ rw h (left (is_empty c) (has c seen) h, uniq-IsId (c ∷ seen) cands)
]
  where
    left : (a b : Bool) → (a || b) ≡ false → a ≡ false
    left true b h = cc
    left false b h = refl

has-uniq :
    (seen cands : List Str) (x : Str)
    → IsId x
    → has x seen ≡ false
    → has x (uniq seen cands) ≡ has x cands
unfolding uniq any_row
has-uniq seen [] x id h = refl
has-uniq seen (c ∷ cands) x id h = elim (Bool-cases (eqs x c)) [
  | inl e ↦ same c ((eqs_iff x c).0 e)
  | inr e ↦ elim (Bool-cases (is_empty c || has c seen)) [
    | inl b ↦ rw (e, b) (has-uniq seen cands x id h)
    | inr b ↦ rw (e, b) (rw e (has-uniq (c ∷ seen) cands x id (rw e h)))
  ]
]
  where
    same :
        (c : Str)
        → x ≡ c
        → has x (if is_empty c || has c seen then uniq seen cands else c ∷ uniq (c ∷ seen) cands)
          ≡ (if eqs x c then true else any_row (eqs x) cands)
    same c e =
        subst
          (λ c.
            has x (if is_empty c || has c seen then uniq seen cands else c ∷ uniq (c ∷ seen) cands)
            ≡ (if eqs x c then true else any_row (eqs x) cands))
          e (rw (id, h, eqs_refl x) refl)

-- The candidates of a message are distinct and none is empty.
pub candidates_distinct :
    (message_id in_reply_to references : Str)
    → NoDup (thread_candidates message_id in_reply_to references)
      × All IsId (thread_candidates message_id in_reply_to references)
unfolding thread_candidates
candidates_distinct message_id in_reply_to references =
    let ids = in_order (extract_ids references) (extract_ids in_reply_to) message_id in
    (uniq-NoDup [] ids, uniq-IsId [] ids)

has-append : (x : Str) (s t : List Str) → has x (s ++ t) ≡ (has x s || has x t)
unfolding any_row
has-append x [] t = refl
has-append x (c ∷ s) t = ground (arith, has-append x s t)

first-has : (x : Str) (s : List Str) → (has x (first s) || has x s) ≡ has x s
unfolding any_row
first-has x [] = refl
first-has x (c ∷ s) = ground arith

-- A string that is not empty is a candidate just if it is one of the ids of References, one of
-- those of In-Reply-To, or the message's own id.
pub candidates_complete :
    (message_id in_reply_to references x : Str)
    → is_empty x ≡ false
    → has x (thread_candidates message_id in_reply_to references) ≡ (
        has x (extract_ids references)
        || has x (extract_ids in_reply_to)
        || has x (own_id message_id))
unfolding thread_candidates
candidates_complete message_id in_reply_to references x id =
    let refs = extract_ids references in
    let irt = extract_ids in_reply_to in
    let own = own_id message_id in
    has-uniq [] (first refs ++ (first irt ++ (refs ++ (irt ++ own)))) x id (unfold any_row in refl)
    ∙ rw
        (
          has-append x (first refs) (first irt ++ (refs ++ (irt ++ own))),
          has-append x (first irt) (refs ++ (irt ++ own)),
          has-append x refs (irt ++ own),
          has-append x irt own,
        )
        (swallow (has x (first refs)) (has x (first irt)) (has x refs) (has x irt) (has x own)
          (first-has x refs) (first-has x irt))
  where
    swallow :
        (a b c d e : Bool)
        → (a || c) ≡ c
        → (b || d) ≡ d
        → (a || (b || (c || (d || e)))) ≡ (c || d || e)
    swallow a b c d e h k = ground arith

put_id-IsId : (v : Str) (ids : List Str) → All IsId ids → All IsId (put_id v ids)
put_id-IsId [] ids h = h
put_id-IsId (c ∷ v) ids h = (refl, h)

angle_ids-IsId : (o : Option Str) (s : Str) → All IsId (angle_ids o s)
unfolding angle_ids
angle_ids-IsId o [] = tt
angle_ids-IsId none (c ∷ s) = elim (Bool-cases (c == b'<')) [
  | inl h ↦ rw h (angle_ids-IsId (some []) s)
  | inr h ↦ rw h (angle_ids-IsId none s)
]
angle_ids-IsId (some acc) (c ∷ s) = elim (Bool-cases (c == b'>')) [
  | inr h ↦ rw h (angle_ids-IsId (some (acc ++ c ∷ [])) s)
  | inl h ↦ elim (Bool-cases (is_empty acc)) [
    | inl e ↦ rw (h, e) (angle_ids-IsId none s)
    | inr e ↦ rw (h, e) (put_id-IsId (trim_space acc) (angle_ids none s) (angle_ids-IsId none s))
  ]
]

bare_ids-IsId : (toks : List Str) → All IsId (bare_ids toks)
unfolding bare_ids
bare_ids-IsId [] = tt
bare_ids-IsId (tok ∷ toks) =
    keep (trim_angles tok) (any_row (λ c. c == b'@') (trim_angles tok)) _ (bare_ids-IsId toks)
  where
    keep :
        (t : Str) (b : Bool) (rest : List Str)
        → All IsId rest
        → All IsId (if not (is_empty t) && b then t ∷ rest else rest)
    keep [] b rest h = h
    keep (c ∷ t) true rest h = (refl, h)
    keep (c ∷ t) false rest h = h

or_bare-IsId : (ids : List Str) (s : Str) → All IsId ids → All IsId (or_bare ids s)
or_bare-IsId [] s h = bare_ids-IsId (fields [] s)
or_bare-IsId (x ∷ ids) s h = h

extract_ids-IsId : (s : Str) → All IsId (extract_ids s)
unfolding extract_ids
extract_ids-IsId s = or_bare-IsId (angle_ids none s) s (angle_ids-IsId none s)

head-uniq : (x : Str) (xs : List Str) → IsId x → head? (uniq [] (x ∷ xs)) ≡ some x
unfolding uniq any_row
head-uniq x xs id = rw id refl

head-own : (id : Str) → head? (uniq [] (id ∷ [])) ≡ head? (put_id id [])
unfolding uniq any_row
head-own [] = refl
head-own (c ∷ id) = refl

head-in_order :
    (refs irt : List Str) (message_id : Str)
    → All IsId refs
    → All IsId irt
    → head? (uniq [] (in_order refs irt message_id))
      ≡ head? (refs ++ (irt ++ put_id (trim_id message_id) []))
head-in_order (r ∷ refs) irt message_id h k = head-uniq r _ h.0
head-in_order [] (i ∷ irt) message_id h k = head-uniq i _ k.0
head-in_order [] [] [] h k = unfold uniq trim_id in refl
head-in_order [] [] (c ∷ m) h k = head-own (trim_id (c ∷ m))

-- The first candidate is the first id of References, or else the first of In-Reply-To, or else the
-- message's own id.
pub candidates_preferred :
    (message_id in_reply_to references : Str)
    → head? (thread_candidates message_id in_reply_to references)
      ≡ head?
          (extract_ids references ++ (extract_ids in_reply_to ++ put_id (trim_id message_id) []))
unfolding thread_candidates
candidates_preferred message_id in_reply_to references =
    head-in_order (extract_ids references) (extract_ids in_reply_to) message_id
      (extract_ids-IsId references) (extract_ids-IsId in_reply_to)
