-- ===== src/Json/Scanner.antt =====
-- The scanner of package encoding/json, as json.Compact runs it: the state after each byte, and
-- whether the byte belongs to the compact text.
use balvibot.Prelude.{
  ℕ, Bool, true, false, ◌&&◌, ◌||◌, List, [], ◌∷◌, length, ◌==◌, ltb, leb, if◌then◌else◌,
}

pub data State : Type 0 where
  begin_value begin_value_or_empty begin_string begin_string_or_empty end_value end_top : State
  in_string in_string_esc in_string_esc_u in_string_esc_u1 in_string_esc_u12 in_string_esc_u123 :
      State
  neg one zero_digit dot dot0 exponent exponent_sign exponent0 : State
  in_t in_tr in_tru in_f in_fa in_fal in_fals in_n in_nu in_nul : State

-- What encloses the current value.
pub data Frame : Type 0 where
  object_key object_value array_value : Frame

-- A byte is kept or skipped, and the scanner goes on; or it is an error.
pub data Step : Type 0 where
  keep : State → List Frame → Step
  skip : State → List Frame → Step
  bad : Step

abbrev pub is_json_space : ℕ → Bool
is_json_space c = c == 32 || c == 9 || c == 13 || c == 10

abbrev is_digit : ℕ → Bool
is_digit c = leb 48 c && leb c 57

abbrev is_digit19 : ℕ → Bool
is_digit19 c = leb 49 c && leb c 57

abbrev is_hex : ℕ → Bool
is_hex c = is_digit c || (leb 97 c && leb c 102) || (leb 65 c && leb c 70)

-- The state behind a value: at the top, or inside a frame.
abbrev pub after_value : List Frame → State
after_value [] = end_top
after_value (f ∷ frames) = end_value

-- pushParseState, with the limit on nesting
push : Frame → State → List Frame → Step
push f st frames = if ltb (length frames) 10000 then keep st (f ∷ frames) else bad

-- stateEndValue
pub end_of_value : List Frame → ℕ → Step
end_of_value [] c = if is_json_space c then skip end_top [] else bad
end_of_value (object_key ∷ frames) c =
    if is_json_space c
    then skip end_value (object_key ∷ frames)
    else if c == b':'
    then keep begin_value (object_value ∷ frames)
    else bad
end_of_value (object_value ∷ frames) c =
    if is_json_space c
    then skip end_value (object_value ∷ frames)
    else if c == b','
    then keep begin_string (object_key ∷ frames)
    else if c == b'}'
    then keep (after_value frames) frames
    else bad
end_of_value (array_value ∷ frames) c =
    if is_json_space c
    then skip end_value (array_value ∷ frames)
    else if c == b','
    then keep begin_value (array_value ∷ frames)
    else if c == b']'
    then keep (after_value frames) frames
    else bad

-- stateBeginValue
pub start_value : List Frame → ℕ → Step
unfolding push
start_value frames c =
    if is_json_space c
    then skip begin_value frames
    else if c == b'{'
    then push object_key begin_string_or_empty frames
    else if c == b'['
    then push array_value begin_value_or_empty frames
    else if c == 34
    then keep in_string frames
    else if c == b'-'
    then keep neg frames
    else if c == b'0'
    then keep zero_digit frames
    else if c == b't'
    then keep in_t frames
    else if c == b'f'
    then keep in_f frames
    else if c == b'n'
    then keep in_n frames
    else if is_digit19 c
    then keep one frames
    else bad

-- stateBeginString
start_string : List Frame → ℕ → Step
start_string frames c =
    if is_json_space c
    then skip begin_string frames
    else if c == 34
    then keep in_string frames
    else bad

-- state0, behind an integer part
after_integer : List Frame → ℕ → Step
unfolding end_of_value
after_integer frames c =
    if c == b'.'
    then keep dot frames
    else if c == b'e' || c == b'E'
    then keep exponent frames
    else end_of_value frames c

exponent_digit : List Frame → ℕ → Step
exponent_digit frames c = if is_digit c then keep exponent0 frames else bad

abbrev expect : ℕ → State → List Frame → ℕ → Step
expect want st frames c = if c == want then keep st frames else bad

abbrev expect_hex : State → List Frame → ℕ → Step
expect_hex st frames c = if is_hex c then keep st frames else bad

-- A value that starts in an empty array, or a key in an empty object, keeps the space states.
unfoldable pub start_element : List Frame → ℕ → Step
start_element frames c =
    if is_json_space c
    then skip begin_value_or_empty frames
    else if c == b']'
    then end_of_value frames c
    else start_value frames c

start_key : List Frame → ℕ → Step
unfolding start_string end_of_value
start_key [] c = bad
start_key (f ∷ frames) c =
    if is_json_space c
    then skip begin_string_or_empty (f ∷ frames)
    else if c == b'}'
    then end_of_value (object_value ∷ frames) c
    else start_string (f ∷ frames) c

-- scan.step
unfoldable pub step : State → List Frame → ℕ → Step
unfolding end_of_value start_value start_string start_element start_key after_integer exponent_digit
step begin_value frames c = start_value frames c
step begin_value_or_empty frames c = start_element frames c
step begin_string frames c = start_string frames c
step begin_string_or_empty frames c = start_key frames c
step end_value frames c = end_of_value frames c
step end_top frames c = if is_json_space c then skip end_top frames else bad
step in_string frames c =
    if c == 34
    then keep end_value frames
    else if c == 92
    then keep in_string_esc frames
    else if ltb c 32
    then bad
    else keep in_string frames
step in_string_esc frames c =
    if c == b'b'
      || c == b'f'
      || c == b'n'
      || c == b'r'
      || c == b't'
      || c == 92
      || c == b'/'
      || c == 34
    then keep in_string frames
    else expect b'u' in_string_esc_u frames c
step in_string_esc_u frames c = expect_hex in_string_esc_u1 frames c
step in_string_esc_u1 frames c = expect_hex in_string_esc_u12 frames c
step in_string_esc_u12 frames c = expect_hex in_string_esc_u123 frames c
step in_string_esc_u123 frames c = expect_hex in_string frames c
step neg frames c =
    if c == b'0' then keep zero_digit frames else if is_digit19 c then keep one frames else bad
step one frames c = if is_digit c then keep one frames else after_integer frames c
step zero_digit frames c = after_integer frames c
step dot frames c = if is_digit c then keep dot0 frames else bad
step dot0 frames c =
    if is_digit c
    then keep dot0 frames
    else if c == b'e' || c == b'E'
    then keep exponent frames
    else end_of_value frames c
step exponent frames c =
    if c == b'+' || c == b'-' then keep exponent_sign frames else exponent_digit frames c
step exponent_sign frames c = exponent_digit frames c
step exponent0 frames c = if is_digit c then keep exponent0 frames else end_of_value frames c
step in_t frames c = expect b'r' in_tr frames c
step in_tr frames c = expect b'u' in_tru frames c
step in_tru frames c = expect b'e' end_value frames c
step in_f frames c = expect b'a' in_fa frames c
step in_fa frames c = expect b'l' in_fal frames c
step in_fal frames c = expect b's' in_fals frames c
step in_fals frames c = expect b'e' end_value frames c
step in_n frames c = expect b'u' in_nu frames c
step in_nu frames c = expect b'l' in_nul frames c
step in_nul frames c = expect b'l' end_value frames c

abbrev pub is_end_top : Step → Bool
is_end_top (keep end_top frames) = true
is_end_top (skip end_top frames) = true
is_end_top _ = false

-- scan.eof: the top-level value is complete, at the latest by a space.
unfoldable pub is_complete : State → List Frame → Bool
unfolding step
is_complete st frames = is_end_top (step st frames 32)
