-- ===== src/Json/Compact/Bytes.antt =====
-- Which bytes compact JSON holds: some of the input's, and never a line feed.
use mathlib.Core.Path.{subst}
use balvibot.Prelude.{ℕ, ◌≡◌, ◌≢◌, some, List, [], ◌∷◌, Str, All, arith, inl, inr, sym, ◌∙◌}
use balvibot.Json.Scanner.{
  State, Frame, begin_value, keep, step, object_key, object_value, array_value,
}
use balvibot.Json.Compact.{compact_from, compact}
use balvibot.Json.Compact.Stable.{
  compact-keep, compact-skip, compact-bad, step_cases, prepend-some, compact_end,
}

step_line_feed :
    (st st' : State) (frames frames' : List Frame) → step st frames 10 ≢ keep st' frames'
unfolding step
step_line_feed State.end_value st' [] fs e = cc
step_line_feed _ st' [] fs e = ground arith
step_line_feed _ st' (object_key ∷ frames) fs e = ground arith
step_line_feed _ st' (object_value ∷ frames) fs e = ground arith
step_line_feed _ st' (array_value ∷ frames) fs e = ground arith

module _ (P : ℕ → Type 0) where
  All-compact_from :
      (st : State) (k : List Frame) (s t : Str) → compact_from st k s ≡ some t → All P s → All P t
  All-compact_from st k [] t h a = rw (compact_end st k t h) tt
  All-compact_from st k (c ∷ s) t h a = elim (step_cases (step st k c)) [
    | inl (st', k', e) ↦
        let (u, p, q) =
          prepend-some c (compact_from st' k' s) t (sym (compact-keep st st' k k' c s e) ∙ h) in
        rw q (a.0, All-compact_from st' k' s u p a.1)
    | inr (inl (st', k', e)) ↦
        All-compact_from st' k' s t (sym (compact-skip st st' k k' c s e) ∙ h) a.1
    | inr (inr e) ↦ cc (compact-bad st k c s e)
  ]

  -- Compacting adds no byte.
  pub All-compact : (s t : Str) → compact s ≡ some t → All P s → All P t
  unfolding compact
  All-compact s t h a = All-compact_from begin_value [] s t h a

abbrev pub NoLineFeed : Str → Type 0
NoLineFeed = All (λ c. c ≢ 10)

compact_from-NoLineFeed :
    (st : State) (k : List Frame) (s t : Str) → compact_from st k s ≡ some t → NoLineFeed t
compact_from-NoLineFeed st k [] t h = rw (compact_end st k t h) tt
compact_from-NoLineFeed st k (c ∷ s) t h = elim (step_cases (step st k c)) [
  | inl (st', k', e) ↦
      let (u, p, q) =
        prepend-some c (compact_from st' k' s) t (sym (compact-keep st st' k k' c s e) ∙ h) in
      rw q (
        λ line. step_line_feed st st' k k' (subst (λ x. step st k x ≡ keep st' k') line e),
        compact_from-NoLineFeed st' k' s u p,
      )
  | inr (inl (st', k', e)) ↦
      compact_from-NoLineFeed st' k' s t (sym (compact-skip st st' k k' c s e) ∙ h)
  | inr (inr e) ↦ cc (compact-bad st k c s e)
]

-- Compact JSON is one line.
pub compact-NoLineFeed : (s t : Str) → compact s ≡ some t → NoLineFeed t
unfolding compact
compact-NoLineFeed s t h = compact_from-NoLineFeed begin_value [] s t h
