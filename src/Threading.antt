-- ===== src/Threading.antt =====
-- tools/api/internal/parse/threading.go: the Message-IDs that may name the thread of a message.
pub mod Candidates
use balvibot.Prelude.{
  ℕ, Bool, not, ◌&&◌, ◌||◌, Option, none, some, List, [], ◌∷◌, ◌++◌, Str, eqs, is_empty, is_space,
  trim_space, ◌==◌, any_row, if◌then◌else◌,
}

abbrev pub put_id : Str → List Str → List Str
put_id v ids = if is_empty v then ids else v ∷ ids

-- The matches of `<([^>]+)>`, trimmed, and the empty ones left out. `some acc` says that a `<` was
-- read and `acc` after it.
unfoldable pub angle_ids : Option Str → Str → List Str
unfolding trim_space
angle_ids o [] = []
angle_ids none (c ∷ s) =
    let inside = angle_ids (some []) s in
    let outside = angle_ids none s in if c == b'<' then inside else outside
angle_ids (some acc) (c ∷ s) =
    let inside = angle_ids (some (acc ++ c ∷ [])) s in
    let outside = angle_ids none s in
    if c == b'>'
    then (if is_empty acc then outside else put_id (trim_space acc) outside)
    else inside

abbrev put_token : Str → List Str → List Str
put_token tok toks = if is_empty tok then toks else tok ∷ toks

-- strings.Fields, with the token that is being read
unfoldable pub fields : Str → Str → List Str
unfolding is_space
fields tok [] = put_token tok []
fields tok (c ∷ s) =
    let next = fields [] s in
    let more = fields (tok ++ c ∷ []) s in if is_space c then put_token tok next else more

abbrev is_angle : ℕ → Bool
is_angle c = c == b'<' || c == b'>'

trim_angles_left : Str → Str
trim_angles_left [] = []
trim_angles_left (c ∷ s) = if is_angle c then trim_angles_left s else c ∷ s

trim_right : (ℕ → Bool) → Str → Str
trim_right p [] = []
trim_right p (c ∷ s) = let rest = trim_right p s in if is_empty rest && p c then [] else c ∷ rest

-- strings.Trim(tok, "<>")
unfoldable pub trim_angles : Str → Str
unfolding trim_angles_left trim_right
trim_angles s = trim_right is_angle (trim_angles_left s)

-- The bare tokens with an `@`.
unfoldable pub bare_ids : List Str → List Str
unfolding trim_angles any_row
bare_ids [] = []
bare_ids (tok ∷ toks) =
    let t = trim_angles tok in
    let rest = bare_ids toks in
    if not (is_empty t) && any_row (λ c. c == b'@') t then t ∷ rest else rest

abbrev pub or_bare : List Str → Str → List Str
or_bare [] s = bare_ids (fields [] s)
or_bare (id ∷ ids) s = id ∷ ids

-- ExtractIDs
unfoldable pub extract_ids : Str → List Str
unfolding angle_ids fields bare_ids
extract_ids s = or_bare (angle_ids none s) s

abbrev pub first : List Str → List Str
first [] = []
first (x ∷ xs) = x ∷ []

trim_id_left : Str → Str
trim_id_left [] = []
trim_id_left (c ∷ s) = if is_angle c || c == b' ' then trim_id_left s else c ∷ s

-- strings.Trim(messageID, "<> ")
unfoldable pub trim_id : Str → Str
unfolding trim_id_left trim_right
trim_id s = trim_right (λ c. is_angle c || c == b' ') (trim_id_left s)

abbrev pub own_id : Str → List Str
own_id message_id = if is_empty message_id then [] else trim_id message_id ∷ []

abbrev pub has : Str → List Str → Bool
has s seen = any_row (eqs s) seen

-- The candidates without the empty ones and the ones seen before.
unfoldable pub uniq : List Str → List Str → List Str
unfolding any_row
uniq seen [] = []
uniq seen (c ∷ cands) =
    let skip = uniq seen cands in
    let take = uniq (c ∷ seen) cands in if is_empty c || has c seen then skip else c ∷ take

-- All candidates, the preferred ones first.
abbrev pub in_order : List Str → List Str → Str → List Str
in_order refs irt message_id = first refs ++ (first irt ++ (refs ++ (irt ++ own_id message_id)))

-- ThreadCandidates
unfoldable pub thread_candidates : Str → Str → Str → List Str
unfolding extract_ids trim_id uniq
thread_candidates message_id in_reply_to references =
    uniq [] (in_order (extract_ids references) (extract_ids in_reply_to) message_id)
