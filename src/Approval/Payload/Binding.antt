-- ===== src/Approval/Payload/Binding.antt =====
-- What a signature over a payload binds.
use mathlib.Core.Path.{subst}
use balvibot.Prelude.{
  ℕ, ◌≡◌, refl, sym, some, [], ◌∷◌, ◌++◌, Str, All, IsDigit, itoa, itoa-injective, itoa-IsDigit,
  arith,
}
use balvibot.Json.Compact.{compact}
use balvibot.Json.Compact.Bytes.{NoLineFeed, compact-NoLineFeed}
use balvibot.Approval.Payload.{payload_version, canonical, signing_payload}
use balvibot.Store.Approvals.{raw_or_empty}

tail_eq : {a b : ℕ} {s t : Str} → a ∷ s ≡ b ∷ t → s ≡ t
tail_eq e = cc

pub drop_first : (s x y : Str) → s ++ x ≡ s ++ y → x ≡ y
drop_first [] x y e = e
drop_first (c ∷ s) x y e = drop_first s x y (tail_eq e)

-- A first part with no line feed is read off up to the first one.
split_first :
    (s t x y : Str)
    → NoLineFeed s
    → NoLineFeed t
    → s ++ (10 ∷ x) ≡ t ++ (10 ∷ y)
    → (s ≡ t) × (x ≡ y)
split_first [] [] x y hs ht e = (refl, cc)
split_first [] (d ∷ t) x y hs ht e = absurd (ht.0 (cc))
split_first (c ∷ s) [] x y hs ht e = absurd (hs.0 (cc))
split_first (c ∷ s) (d ∷ t) x y hs ht e = let (p, q) = split_first s t x y hs.1 ht.1 (cc) in (cc, q)

has_line_feed : (s x : Str) → ¬ NoLineFeed (s ++ (10 ∷ x))
has_line_feed [] x h = h.0 refl
has_line_feed (c ∷ s) x h = has_line_feed s x h.1

-- A last part with no line feed is read off from the last one.
pub split_last :
    (s t x y : Str)
    → NoLineFeed x
    → NoLineFeed y
    → s ++ (10 ∷ x) ≡ t ++ (10 ∷ y)
    → (s ≡ t) × (x ≡ y)
split_last [] [] x y hx hy e = (refl, cc)
split_last [] (d ∷ t) x y hx hy e = absurd (has_line_feed t y (subst NoLineFeed (tail_eq e) hx))
split_last (c ∷ s) [] x y hx hy e =
    absurd (has_line_feed s x (subst NoLineFeed (sym (tail_eq e)) hy))
split_last (c ∷ s) (d ∷ t) x y hx hy e =
    let (p, q) = split_last s t x y hx hy (tail_eq e) in (cc, q)

digits-NoLineFeed : (s : Str) → All IsDigit s → NoLineFeed s
digits-NoLineFeed [] h = tt
digits-NoLineFeed (c ∷ s) h = (omega arith, digits-NoLineFeed s h.1)

-- The args are JSON, if only `{}` in place of none.
abbrev pub IsJson : Str → Type 0
IsJson args = (s : Str) × (compact (raw_or_empty args) ≡ some s)

canonical-NoLineFeed : (args : Str) → IsJson args → NoLineFeed (canonical args)
unfolding canonical
canonical-NoLineFeed args (s, e) = rw e (compact-NoLineFeed (raw_or_empty args) s e)

-- One payload is the payload of one action: for args that are JSON, equal payloads have the same
-- id, the same action name, whatever bytes it holds, and the same args up to spaces.
pub signing_payload-injective :
    (id id' : ℕ) (action action' args args' : Str)
    → IsJson args
    → IsJson args'
    → signing_payload id action args ≡ signing_payload id' action' args'
    → (id ≡ id') × (action ≡ action') × (canonical args ≡ canonical args')
unfolding signing_payload
signing_payload-injective id id' action action' args args' j j' e =
    let (same_id, rest) =
      split_first (itoa id) (itoa id') _ _ (digits-NoLineFeed _ (itoa-IsDigit id))
        (digits-NoLineFeed _ (itoa-IsDigit id'))
        (drop_first (payload_version ++ (10 ∷ [])) _ _ e) in
    let (same_action, same_args) =
      split_last action action' _ _ (canonical-NoLineFeed args j) (canonical-NoLineFeed args' j')
        rest in
    (itoa-injective id id' same_id, same_action, same_args)
