-- ===== src/Config/Folders.antt =====
-- The folders of the mail indexer, as MAIL_FOLDERS names them.
use balvibot.Prelude.{
  split, join, ◌≡◌, refl, ap, ◌∙◌, false, List, [], ◌∷◌, ◌++◌, Str, codes, is_empty, trim_space,
  ◌==◌, All,
}
use balvibot.Config.{Durations, folder_names, getenv_default, folders_of}

-- A folder's name that MAIL_FOLDERS can hold: it is not empty, has no comma and no space at its ends.
pub record IsFolder (name : Str) : Type 0 where
  pub named : is_empty name ≡ false
  pub no_comma : All (λ c. (c == 44) ≡ false) name
  pub trimmed : trim_space name ≡ name

split_last : (s : Str) → All (λ c. (c == 44) ≡ false) s → split 44 s ≡ s ∷ []
unfolding split
split_last [] h = refl
split_last (c ∷ s) (h, k) = rw (h, split_last s k) refl

split_first : (s t : Str) → All (λ c. (c == 44) ≡ false) s → split 44 (s ++ 44 ∷ t) ≡ s ∷ split 44 t
unfolding split
split_first [] t h = refl
split_first (c ∷ s) t (h, k) = rw (h, split_first s t k) refl

split-join :
    (n : Str) (ns : List Str)
    → All IsFolder (n ∷ ns)
    → split 44 (join (codes ",") (n ∷ ns)) ≡ n ∷ ns
unfolding join
split-join n [] (h, k) = split_last n h.no_comma
split-join n (m ∷ ns) (h, k) =
    split_first n (join (codes ",") (m ∷ ns)) h.no_comma ∙ ap (λ l. n ∷ l) (split-join m ns k)

names_kept : (ns : List Str) → All IsFolder ns → folder_names ns ≡ ns
unfolding folder_names
names_kept [] h = refl
names_kept (n ∷ ns) (h, k) = rw (h.trimmed, h.named, names_kept ns k) refl

join_named :
    (n : Str) (ns : List Str) → is_empty n ≡ false → is_empty (join (codes ",") (n ∷ ns)) ≡ false
unfolding join
join_named n [] h = h
join_named [] (m ∷ ns) h = refl
join_named (c ∷ n) (m ∷ ns) h = refl

-- Names of folders that are not empty, have no comma and no space at their ends, and are at least
-- one, come back from MAIL_FOLDERS, joined there with commas, in their order.
pub named_folders_are_read :
    (durations : Durations) (env : Str → Str) (n : Str) (ns : List Str)
    → All IsFolder (n ∷ ns)
    → env (codes "MAIL_FOLDERS") ≡ join (codes ",") (n ∷ ns)
    → folders_of durations env ≡ n ∷ ns
unfolding getenv_default
named_folders_are_read durations env n ns h set =
    rw (set, join_named n ns h.0.named)
      (ap folder_names (split-join n ns h) ∙ names_kept (n ∷ ns) h)
