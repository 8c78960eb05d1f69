-- ===== src/ApproveCli/Chosen.antt =====
-- Which key signs.
use mathlib.Core.Path.{subst}
use balvibot.Prelude.{
  ◌≡◌, refl, sym, ap, ◌∙◌, ◌⊎◌, inl, inr, Bool, true, false, not, ◌&&◌, Option, none, some, List,
  [], ◌∷◌, ◌++◌, append_assoc, append_nil, Str, eqs, eqs_iff, is_empty, IsIn, where_rows, find_row,
  Bool-cases, if◌then◌else◌,
}
use balvibot.Errors.{Error, Result, ok, err}
use balvibot.ApproveCli.Keys.{
  Signer, KeyRing, held, fingerprint_of, agent_key_by_fingerprint, contains, only_match,
  select_from, select_agent_key, pub_file_fingerprint, load_key_file, wanted_key, get_signer,
}

-- The comment of the key is not empty and contains the text.
abbrev pub has_comment : Str → Signer → Bool
has_comment sel s = not (is_empty s.comment) && contains s.comment sel

-- The key by its fingerprint, or else the only one by its comment.
abbrev by_comment : KeyRing → List Signer → Str → Option Signer → Result Signer
by_comment ring signers sel (some s) = ok s
by_comment ring signers sel none =
    only_match ring signers sel (where_rows (has_comment sel) signers)

-- The key that is first by its fingerprint, or else the only one of those by their comment, or an error.
abbrev pub IsSelected : Option Signer → List Signer → Result Signer → Type 0
IsSelected (some s) ms r = r ≡ ok s
IsSelected none (s ∷ []) r = r ≡ ok s
IsSelected none _ r = (e : Error) × (r ≡ err e)

module _ (ring : KeyRing) where
  abbrev rest_of : List Signer → Str → List Signer → List Signer → Option Signer → Result Signer
  rest_of signers sel matches rest (some s) = ok s
  rest_of signers sel matches rest none =
      only_match ring signers sel (matches ++ where_rows (has_comment sel) rest)

  select_from_lem :
      (signers : List Signer) (sel : Str) (matches rest : List Signer)
      → select_from ring signers sel matches rest
        ≡ rest_of signers sel matches rest (agent_key_by_fingerprint ring rest sel)
  unfolding select_from agent_key_by_fingerprint where_rows
  select_from_lem signers sel matches [] = ap (only_match ring signers sel) (append_nil matches)
  select_from_lem signers sel matches (s ∷ rest) =
      step (Bool-cases (eqs (fingerprint_of ring s) sel)) (Bool-cases (has_comment sel s))
        (λ m. select_from_lem signers sel m rest)
    where
      after : List Signer → Result Signer
      after m = select_from ring signers sel m rest

      matched :
          (o : Option Signer)
          → has_comment sel s ≡ true
          → rest_of signers sel (matches ++ s ∷ []) rest o
            ≡ rest_of signers sel matches (s ∷ rest) o
      matched (some t) c = refl
      matched none c = rw c (ap (only_match ring signers sel) (append_assoc matches (s ∷ []) _))

      passed :
          (o : Option Signer)
          → has_comment sel s ≡ false
          → rest_of signers sel matches rest o ≡ rest_of signers sel matches (s ∷ rest) o
      passed (some t) c = refl
      passed none c = rw c refl

      step :
          (eqs (fingerprint_of ring s) sel ≡ true) ⊎ (eqs (fingerprint_of ring s) sel ≡ false)
          → (has_comment sel s ≡ true) ⊎ (has_comment sel s ≡ false)
          → ((m : List Signer)
              → after m ≡ rest_of signers sel m rest (agent_key_by_fingerprint ring rest sel))
          → select_from ring signers sel matches (s ∷ rest)
            ≡ rest_of signers sel matches (s ∷ rest) (agent_key_by_fingerprint ring (s ∷ rest) sel)
      step (inl e) c ih = rw e refl
      step (inr e) (inl c) ih = rw (e, c) (ih (matches ++ s ∷ []) ∙ matched _ c)
      step (inr e) (inr c) ih = rw (e, c) (ih matches ∙ passed _ c)

  by_comment_lem :
      (signers : List Signer) (sel : Str)
      → select_agent_key ring signers sel
        ≡ by_comment ring signers sel (agent_key_by_fingerprint ring signers sel)
  unfolding select_agent_key
  by_comment_lem signers sel =
      select_from_lem signers sel [] signers ∙ same (agent_key_by_fingerprint ring signers sel)
    where
      same : (o : Option Signer) → rest_of signers sel [] signers o ≡ by_comment ring signers sel o
      same none = refl
      same (some s) = refl

  by_fingerprint_lem :
      (signers : List Signer) (sel : Str)
      → agent_key_by_fingerprint ring signers sel
        ≡ find_row (λ s. eqs (fingerprint_of ring s) sel) signers
  unfolding agent_key_by_fingerprint find_row
  by_fingerprint_lem [] sel = refl
  by_fingerprint_lem (s ∷ signers) sel = rw (by_fingerprint_lem signers sel) refl

  only_match_lem :
      (signers ms : List Signer) (sel : Str) → IsSelected none ms (only_match ring signers sel ms)
  unfolding only_match
  only_match_lem signers [] sel = (_, refl)
  only_match_lem signers (s ∷ []) sel = refl
  only_match_lem signers (s ∷ t ∷ more) sel = (_, refl)

  -- What --agent-key selects is the first key of the agent with that fingerprint, where there is
  -- one; else the key whose comment is not empty and contains the text, where there is exactly one; else an error.
  pub select_agent_key_lem :
      (signers : List Signer) (sel : Str)
      → IsSelected
          (find_row (λ s. eqs (fingerprint_of ring s) sel) signers)
          (where_rows (has_comment sel) signers)
          (select_agent_key ring signers sel)
  select_agent_key_lem signers sel =
      subst
        (λ (o : Option Signer).
          IsSelected o (where_rows (has_comment sel) signers) (select_agent_key ring signers sel))
        (by_fingerprint_lem signers sel)
        (subst
          (IsSelected (agent_key_by_fingerprint ring signers sel)
            (where_rows (has_comment sel) signers))
          (sym (by_comment_lem signers sel)) (outcome (agent_key_by_fingerprint ring signers sel)))
    where
      outcome :
          (o : Option Signer)
          → IsSelected o (where_rows (has_comment sel) signers) (by_comment ring signers sel o)
      outcome (some s) = refl
      outcome none = only_match_lem signers (where_rows (has_comment sel) signers) sel

  agent_key_found :
      (signers : List Signer) (fp : Str) (s : Signer)
      → agent_key_by_fingerprint ring signers fp ≡ some s
      → IsIn s signers × (fingerprint_of ring s ≡ fp)
  unfolding agent_key_by_fingerprint
  agent_key_found [] fp s h = absurd (no_key h)
    where
      no_key : Option.none ≡ some s → ⊥
      no_key h = cc
  agent_key_found (t ∷ signers) fp s h =
      step (Bool-cases (eqs (fingerprint_of ring t) fp)) (agent_key_found signers fp s)
    where
      same : (a b : Signer) → ◌≡◌ {A = Option Signer} (some a) (some b) → b ≡ a
      same a b e = cc

      step :
          (eqs (fingerprint_of ring t) fp ≡ true) ⊎ (eqs (fingerprint_of ring t) fp ≡ false)
          → (agent_key_by_fingerprint ring signers fp ≡ some s
              → IsIn s signers × (fingerprint_of ring s ≡ fp))
          → IsIn s (t ∷ signers) × (fingerprint_of ring s ≡ fp)
      step (inl e) ih =
          let q = same t s (rw e at h) in
          (inl q, ap (fingerprint_of ring) q ∙ (eqs_iff (fingerprint_of ring t) fp).0 e)
      step (inr e) ih = let (m, q) = ih (rw e at h) in (inr m, q)

  ok_same : (a b : Signer) → ◌≡◌ {A = Result Signer} (ok a) (ok b) → b ≡ a
  ok_same a b e = cc

  both_err :
      (b : Bool) (x y : Error) (a : Signer)
      → ◌≡◌ {A = Result Signer} (if b then err x else err y) (ok a)
      → ⊥
  both_err true x y a h = cc
  both_err false x y a h = cc

  -- Where the server names a key and the operator none, the key that is chosen is one of the agent's
  -- with that fingerprint, or the one in the key file, whose .pub file has that fingerprint.
  pub wanted_key_is_chosen :
      (path want : Str) (s : Signer)
      → is_empty want ≡ false
      → get_signer ring path [] want ≡ ok s
      → (IsIn s (held ring.agent) × (fingerprint_of ring s ≡ want))
        ⊎ ((pub_file_fingerprint ring path ≡ want) × (load_key_file ring path ≡ ok s))
  unfolding get_signer wanted_key
  wanted_key_is_chosen path want s named h =
      cases (agent_key_by_fingerprint ring (held ring.agent) want) refl
        (Bool-cases (eqs (pub_file_fingerprint ring path) want))
    where
      wanted : wanted_key ring path want (held ring.agent) ≡ ok s
      wanted = rw named at h

      cases :
          (o : Option Signer)
          → agent_key_by_fingerprint ring (held ring.agent) want ≡ o
          → (eqs (pub_file_fingerprint ring path) want ≡ true)
            ⊎ (eqs (pub_file_fingerprint ring path) want ≡ false)
          → (IsIn s (held ring.agent) × (fingerprint_of ring s ≡ want))
            ⊎ ((pub_file_fingerprint ring path ≡ want) × (load_key_file ring path ≡ ok s))
      cases (some t) q p = inl (
          agent_key_found (held ring.agent) want s
            (q ∙ ap some (sym (ok_same t s (rw q at wanted)))))
      cases none q (inl e) =
          inr ((eqs_iff (pub_file_fingerprint ring path) want).0 e, rw (q, e) at wanted)
      cases none q (inr e) = absurd (both_err _ _ _ s (rw (q, e) at wanted))
