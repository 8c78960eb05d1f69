-- ===== src/Json/Compact/Stable.antt =====
-- Compact JSON is its own compact form.
use mathlib.Core.Path.{subst₂}
use balvibot.Prelude.{
  ℕ, ◌≤◌, ◌≡◌, ◌≢◌, ◌⊎◌, refl, true, false, Option, none, some, List, [], ◌∷◌, Str, length, arith,
  Bool-cases, inl, inr, sym, ◌∙◌, ◌==◌, if◌then◌else◌,
}
use balvibot.Json.Scanner.{
  State, Frame, Step, begin_value, begin_value_or_empty, start_value, start_element, keep, skip,
  bad, step, end_of_value, is_json_space, is_complete, is_end_top, object_key, object_value,
  array_value,
}
use balvibot.Json.Compact.{prepend, compact_from, compact}

-- Behind a value, a byte that is kept is punctuation, and spaces before it change nothing.
end_of_value_resume :
    (st1 st2 : State) (k k1 k2 : List Frame) (c d : ℕ)
    → end_of_value k c ≡ skip st1 k1
    → step st1 k1 d ≡ keep st2 k2
    → end_of_value k d ≡ keep st2 k2
unfolding step
end_of_value_resume st1 st2 [] k1 k2 c d e h = ground arith
end_of_value_resume st1 st2 (object_key ∷ k) k1 k2 c d e h = ground arith
end_of_value_resume st1 st2 (object_value ∷ k) k1 k2 c d e h = ground arith
end_of_value_resume st1 st2 (array_value ∷ k) k1 k2 c d e h = ground arith

punctuation :
    (st2 : State) (k k2 : List Frame) (d : ℕ)
    → end_of_value k d ≡ keep st2 k2
    → ((d ≡ b':') ⊎ (d ≡ b',')) ⊎ ((d ≡ b'}') ⊎ (d ≡ b']'))
unfolding step
punctuation st2 [] k2 d h = ground arith
punctuation st2 (object_key ∷ k) k2 d h = ground arith
punctuation st2 (object_value ∷ k) k2 d h = ground arith
punctuation st2 (array_value ∷ k) k2 d h = ground arith

skip-not-punctuation :
    (st1 : State) (k k1 : List Frame) (c : ℕ)
    → end_of_value k c ≡ skip st1 k1
    → is_json_space c ≡ true
unfolding step
skip-not-punctuation st1 [] k1 c h = ground arith
skip-not-punctuation st1 (object_key ∷ k) k1 c h = ground arith
skip-not-punctuation st1 (object_value ∷ k) k1 c h = ground arith
skip-not-punctuation st1 (array_value ∷ k) k1 c h = ground arith

not_skip :
    (st1 : State) (k k1 : List Frame) (c : ℕ)
    → is_json_space c ≡ false
    → start_value k c ≢ skip st1 k1
unfolding step
not_skip st1 k k1 c p e = ground arith

start_value_skip :
    (st1 : State) (k k1 : List Frame) (c : ℕ)
    → start_value k c ≡ skip st1 k1
    → (st1 ≡ begin_value) × (k1 ≡ k) × (is_json_space c ≡ true)
unfolding step
start_value_skip st1 k k1 c e = elim (Bool-cases (is_json_space c)) [
  | inl p ↦ (cc (rw p at e), cc (rw p at e), p)
  | inr p ↦ absurd (not_skip st1 k k1 c p e)
]

skip_needs_space :
    (st1 : State) (k k1 : List Frame) (c : ℕ)
    → is_json_space c ≡ false
    → (if c == b']' then end_of_value k c else start_value k c) ≢ skip st1 k1
skip_needs_space st1 k k1 c p e =
    ground (arith, not_skip st1 k k1 c p, skip-not-punctuation st1 k k1 c)

start_element_skip :
    (st1 : State) (k k1 : List Frame) (c : ℕ)
    → start_element k c ≡ skip st1 k1
    → (st1 ≡ begin_value_or_empty) × (k1 ≡ k)
unfolding start_element
start_element_skip st1 k k1 c e = elim (Bool-cases (is_json_space c)) [
  | inl p ↦ (cc (rw p at e), cc (rw p at e))
  | inr p ↦ absurd (skip_needs_space st1 k k1 c p (rw p at e))
]

-- A byte that is kept behind spaces is kept without them, and leads to the same state.
step_resume :
    (st st1 st2 : State) (k k1 k2 : List Frame) (c d : ℕ)
    → step st k c ≡ skip st1 k1
    → step st1 k1 d ≡ keep st2 k2
    → step st k d ≡ keep st2 k2
unfolding step
step_resume State.end_value st1 st2 k k1 k2 c d e h = end_of_value_resume st1 st2 k k1 k2 c d e h
step_resume State.end_top st1 st2 k k1 k2 c d e h = ground arith
step_resume State.begin_value st1 st2 k k1 k2 c d e h =
    let (p, q, r) = start_value_skip st1 k k1 c e in rw (p, q) at h
step_resume State.begin_value_or_empty st1 st2 k k1 k2 c d e h =
    let (p, q) = start_element_skip st1 k k1 c e in rw (p, q) at h
step_resume State.begin_string st1 st2 k k1 k2 c d e h = ground arith
step_resume State.begin_string_or_empty st1 st2 [] k1 k2 c d e h = ground arith
step_resume State.begin_string_or_empty st1 st2 (f ∷ k) k1 k2 c d e h =
    ground (arith, skip-not-punctuation st1 (object_value ∷ k) k1 c)
step_resume _ st1 st2 k k1 k2 c d e h = ground (
  arith,
  skip-not-punctuation st1 k k1 c,
  end_of_value_resume st1 st2 k k1 k2 c d,
  punctuation st2 k k2 d,
)

end_of_value_complete :
    (st1 : State) (k k1 : List Frame) (c : ℕ)
    → end_of_value k c ≡ skip st1 k1
    → is_complete st1 k1 ≡ true
    → is_end_top (end_of_value k 32) ≡ true
unfolding is_complete
end_of_value_complete st1 [] k1 c e h = refl
end_of_value_complete st1 (object_key ∷ k) k1 c e h = ground arith
end_of_value_complete st1 (object_value ∷ k) k1 c e h = ground arith
end_of_value_complete st1 (array_value ∷ k) k1 c e h = ground arith

-- What is complete behind spaces is complete without them.
complete_resume :
    (st st1 : State) (k k1 : List Frame) (c : ℕ)
    → step st k c ≡ skip st1 k1
    → is_complete st1 k1 ≡ true
    → is_complete st k ≡ true
unfolding is_complete
complete_resume State.end_value st1 k k1 c e h = end_of_value_complete st1 k k1 c e h
complete_resume State.begin_value st1 k k1 c e h =
    let (p, q, r) = start_value_skip st1 k k1 c e in subst₂ (λ s f. is_complete s f ≡ true) p q h
complete_resume State.begin_value_or_empty st1 k k1 c e h =
    let (p, q) = start_element_skip st1 k k1 c e in subst₂ (λ s f. is_complete s f ≡ true) p q h
complete_resume State.begin_string_or_empty st1 [] k1 c e h = ground arith
complete_resume State.begin_string_or_empty st1 (f ∷ k) k1 c e h =
    ground (arith, skip-not-punctuation st1 (object_value ∷ k) k1 c)
complete_resume _ st1 k k1 c e h = ground (arith, end_of_value_complete st1 k k1 c)

-- The three ways in which the loop goes on.
module _ (st st' : State) (k k' : List Frame) (c : ℕ) (s : Str) where
  pub compact-keep :
      step st k c ≡ keep st' k' → compact_from st k (c ∷ s) ≡ prepend c (compact_from st' k' s)
  unfolding compact_from
  compact-keep e = rw (e, compact_from)

  pub compact-skip : step st k c ≡ skip st' k' → compact_from st k (c ∷ s) ≡ compact_from st' k' s
  unfolding compact_from
  compact-skip e = rw (e, compact_from)

pub compact-bad :
    (st : State) (k : List Frame) (c : ℕ) (s : Str)
    → step st k c ≡ bad
    → compact_from st k (c ∷ s) ≡ none
unfolding compact_from
compact-bad st k c s e = rw (e, compact_from)

pub step_cases :
    (r : Step)
    → ((st : State) × (k : List Frame) × (r ≡ keep st k))
      ⊎ (((st : State) × (k : List Frame) × (r ≡ skip st k)) ⊎ (r ≡ bad))
step_cases (keep st k) = inl (st, k, refl)
step_cases (skip st k) = inr (inl (st, k, refl))
step_cases bad = inr (inr refl)

module _ (c : ℕ) where
  pub prepend-some :
      (o : Option Str) (t : Str) → prepend c o ≡ some t → (u : Str) × (o ≡ some u) × (t ≡ c ∷ u)
  prepend-some none t h = cc
  prepend-some (some u) t h = (u, refl, cc)

pub compact_end : (st : State) (k : List Frame) (t : Str) → compact_from st k [] ≡ some t → t ≡ []
unfolding compact_from
compact_end st k t h = ground arith

compact_complete :
    (st : State) (k : List Frame) (t : Str)
    → compact_from st k [] ≡ some t
    → is_complete st k ≡ true
unfolding compact_from
compact_complete st k t h = ground arith

complete-compact :
    (st : State) (k : List Frame) → is_complete st k ≡ true → compact_from st k [] ≡ some []
unfolding compact_from
complete-compact st k h = rw h

length-compact :
    (st : State) (k : List Frame) (s t : Str) → compact_from st k s ≡ some t → length t ≤ length s
length-compact st k [] t h = rw (compact_end st k t h) (omega arith)
length-compact st k (c ∷ s) t h = elim (step_cases (step st k c)) [
  | inl (st', k', e) ↦
      let (u, p, q) =
        prepend-some c (compact_from st' k' s) t (sym (compact-keep st st' k k' c s e) ∙ h) in
      rw q (omega (arith, length-compact st' k' s u p))
  | inr (inl (st', k', e)) ↦
      omega (arith, length-compact st' k' s t (sym (compact-skip st st' k k' c s e) ∙ h))
  | inr (inr e) ↦ cc (compact-bad st k c s e)
]

-- What is compact behind spaces is compact without them.
compact_resume :
    (st st1 : State) (k k1 : List Frame) (c : ℕ) (t : Str)
    → step st k c ≡ skip st1 k1
    → compact_from st1 k1 t ≡ some t
    → compact_from st k t ≡ some t
compact_resume st st1 k k1 c [] e h =
    complete-compact st k (complete_resume st st1 k k1 c e (compact_complete st1 k1 [] h))
compact_resume st st1 k k1 c (d ∷ t) e h = elim (step_cases (step st1 k1 d)) [
  | inl (st2, k2, e') ↦
      compact-keep st st2 k k2 d t (step_resume st st1 st2 k k1 k2 c d e e')
      ∙ sym (compact-keep st1 st2 k1 k2 d t e')
      ∙ h
  | inr (inl (st2, k2, e')) ↦
      absurd (
        omega
          (arith, length-compact st2 k2 t (d ∷ t) (sym (compact-skip st1 st2 k1 k2 d t e') ∙ h)))
  | inr (inr e') ↦ cc (compact-bad st1 k1 d t e')
]

compact_from_stable :
    (st : State) (k : List Frame) (s t : Str)
    → compact_from st k s ≡ some t
    → compact_from st k t ≡ some t
compact_from_stable st k [] t h =
    rw (compact_end st k t h) (complete-compact st k (compact_complete st k t h))
compact_from_stable st k (c ∷ s) t h = elim (step_cases (step st k c)) [
  | inl (st', k', e) ↦
      let (u, p, q) =
        prepend-some c (compact_from st' k' s) t (sym (compact-keep st st' k k' c s e) ∙ h) in
      rw (q, compact-keep st st' k k' c u e, compact_from_stable st' k' s u p)
  | inr (inl (st', k', e)) ↦
      compact_resume st st' k k' c t e
        (compact_from_stable st' k' s t (sym (compact-skip st st' k k' c s e) ∙ h))
  | inr (inr e) ↦ cc (compact-bad st k c s e)
]

-- Compacting once is enough: the compact form of a text is its own compact form.
pub compact_stable : (s t : Str) → compact s ≡ some t → compact t ≡ some t
unfolding compact
compact_stable s t h = compact_from_stable begin_value [] s t h
