-- ===== src/ApproveCli/Keys.antt =====
-- tools/api/cmd/approve/main.go: the choice of the key that signs.
use balvibot.Prelude.{
  Bool, true, false, not, ◌&&◌, Option, none, some, List, [], ◌∷◌, ◌++◌, Str, codes, eqs, is_empty,
  itoa, length, ◌==◌, ltb, if◌then◌else◌,
}
use balvibot.Errors.{Error, Result, ok, err, message, wrap, quote}

-- ssh.Signer: its public key, the comment that the agent has for it, and Sign
pub record Signer : Type 0 where
  pub public_key : Str
  pub comment : Str
  pub sign : Str → Result Str

-- What ssh.ParsePrivateKey makes of a file.
pub data PrivateKey : Type 0 where
  parsed : Signer → PrivateKey
  passphrase_missing : PrivateKey
  malformed : Error → PrivateKey

-- The agent's keys, the files, and what is taken from golang.org/x/crypto/ssh.
pub record KeyRing : Type 0 where
  pub agent : Result (List Signer)
  pub read_file : Str → Result Str
  pub parse_authorized_key : Str → Result Str
  pub parse_private_key : Str → PrivateKey
  pub fingerprint_sha256 : Str → Str

unfoldable pub starts_with : Str → Str → Bool
starts_with [] s = true
starts_with (a ∷ p) [] = false
starts_with (a ∷ p) (b ∷ s) = a == b && starts_with p s

-- strings.Contains(s, sub)
unfoldable pub contains : Str → Str → Bool
unfolding starts_with
contains [] sub = is_empty sub
contains (c ∷ s) sub = if starts_with sub (c ∷ s) then true else contains s sub

-- strings.TrimRight(s, "\n")
unfoldable pub trim_right_lf : Str → Str
trim_right_lf [] = []
trim_right_lf (c ∷ s) =
    let rest = trim_right_lf s in if is_empty rest && c == 10 then [] else c ∷ rest

-- What agentSigners returns beside its error.
abbrev pub held : Result (List Signer) → List Signer
held (ok signers) = signers
held (err e) = []

-- `text: %w` with the error of the agent, or with nil where the agent has no keys
abbrev with_agent_error : Str → Result (List Signer) → Error
with_agent_error s (ok signers) = message (s ++ codes "%!w(<nil>)")
with_agent_error s (err e) = wrap s e []

module _ (ring : KeyRing) where
  abbrev pub fingerprint_of : Signer → Str
  fingerprint_of s = ring.fingerprint_sha256 s.public_key

  unfoldable pub key_lines : List Signer → Str
  key_lines [] = []
  key_lines (s ∷ rest) =
      codes "  " ++ (fingerprint_of s ++ (codes "  " ++ (s.comment ++ (10 ∷ key_lines rest))))

  -- formatAgentKeys
  unfoldable pub format_agent_keys : List Signer → Str
  unfolding key_lines trim_right_lf
  format_agent_keys signers = trim_right_lf (key_lines signers)

  -- agentKeyByFingerprint
  unfoldable pub agent_key_by_fingerprint : List Signer → Str → Option Signer
  agent_key_by_fingerprint [] fp = none
  agent_key_by_fingerprint (s ∷ signers) fp =
      if eqs (fingerprint_of s) fp then some s else agent_key_by_fingerprint signers fp

  -- The key that is chosen of those with the comment.
  unfoldable pub only_match : List Signer → Str → List Signer → Result Signer
  unfolding quote format_agent_keys itoa
  only_match signers sel [] = err (
      message (
        codes "no ssh-agent key matches "
        ++ (quote sel ++ (codes "; available keys:\n" ++ format_agent_keys signers))))
  only_match signers sel (s ∷ []) = ok s
  only_match signers sel (s ∷ t ∷ more) = err (
      message (
        quote sel
        ++ (codes " matches "
            ++ (itoa (length (s ∷ t ∷ more))
                ++ (codes " ssh-agent keys; use a full SHA256 fingerprint:\n"
                    ++ format_agent_keys (s ∷ t ∷ more))))))

  -- The loop of selectAgentKey over the keys that are left, with the matches so far.
  unfoldable pub select_from : List Signer → Str → List Signer → List Signer → Result Signer
  unfolding only_match contains
  select_from signers sel matches [] = only_match signers sel matches
  select_from signers sel matches (s ∷ rest) =
      let next =
        select_from signers sel
          (if not (is_empty s.comment) && contains s.comment sel
            then matches ++ s ∷ []
            else matches)
          rest in
      if eqs (fingerprint_of s) sel then ok s else next

  -- selectAgentKey
  unfoldable pub select_agent_key : List Signer → Str → Result Signer
  unfolding select_from
  select_agent_key signers sel = select_from signers sel [] signers

  abbrev fingerprint_or_none : Result Str → Str
  fingerprint_or_none (ok key) = ring.fingerprint_sha256 key
  fingerprint_or_none (err e) = []

  abbrev parsed_fingerprint : Result Str → Str
  parsed_fingerprint (ok text) = fingerprint_or_none (ring.parse_authorized_key text)
  parsed_fingerprint (err e) = []

  -- pubFileFingerprint
  unfoldable pub pub_file_fingerprint : Str → Str
  pub_file_fingerprint path = parsed_fingerprint (ring.read_file (path ++ codes ".pub"))

  abbrev loaded : Str → PrivateKey → Result Signer
  loaded path (parsed s) = ok s
  loaded path passphrase_missing = err (
      message (
        codes "key "
        ++ (path
            ++ (codes " is passphrase-protected; add it to ssh-agent (ssh-add "
                ++ (path ++ codes ") and retry")))))
  loaded path (malformed e) = err (wrap (codes "parse key " ++ (path ++ codes ": ")) e [])

  abbrev read_private : Str → Result Str → Result Signer
  read_private path (ok text) = loaded path (ring.parse_private_key text)
  read_private path (err e) = err (wrap (codes "read key " ++ (path ++ codes ": ")) e [])

  -- loadKeyFile
  unfoldable pub load_key_file : Str → Result Signer
  load_key_file path = read_private path (ring.read_file path)

  abbrev or_file : Str → Str → Option Signer → Result Signer → Result Signer
  or_file path want (some s) other = ok s
  or_file path want none other = other

  abbrev missing_text : Str → Str → Str
  missing_text path want =
      codes "your authorized key for this email ("
      ++ (want ++ (codes ") is not in ssh-agent or at " ++ path))

  -- The key with the fingerprint that the server wants.
  unfoldable pub wanted_key : Str → Str → List Signer → Result Signer
  unfolding agent_key_by_fingerprint pub_file_fingerprint load_key_file format_agent_keys
  wanted_key path want signers = or_file path want (agent_key_by_fingerprint signers want) (
      if eqs (pub_file_fingerprint path) want
      then load_key_file path
      else if ltb 0 (length signers)
      then err (
          message
            (missing_text path want ++ (codes "\nssh-agent holds:\n" ++ format_agent_keys signers)))
      else err (message (missing_text path want)))

  abbrev too_many : Str → List Signer → Error
  too_many path signers = message (
      codes "ssh-agent holds "
      ++ (itoa (length signers)
          ++ (codes " keys and none could be auto-selected (no "
              ++ (path
                  ++ (codes ".pub to match); pass --agent-key with a fingerprint or comment:\n"
                      ++ format_agent_keys signers)))))

  abbrev file_or_advice : Str → List Signer → Result Signer → Result Signer
  file_or_advice path signers (ok s) = ok s
  file_or_advice path signers (err e) =
      if ltb 1 (length signers) then err (too_many path signers) else err e

  abbrev sole_or_file : Str → List Signer → Result Signer
  sole_or_file path (s ∷ []) = ok s
  sole_or_file path signers = file_or_advice path signers (load_key_file path)

  -- The key where the server names none.
  unfoldable pub guessed_key : Str → List Signer → Result Signer
  unfolding agent_key_by_fingerprint pub_file_fingerprint load_key_file format_agent_keys itoa
  guessed_key path signers =
      let fp = pub_file_fingerprint path in
      or_file path fp (if is_empty fp then none else agent_key_by_fingerprint signers fp)
        (sole_or_file path signers)

  -- getSigner
  unfoldable pub get_signer : Str → Str → Str → Result Signer
  unfolding select_agent_key wanted_key guessed_key quote
  get_signer path agent_sel want =
      let signers = held ring.agent in
      if not (is_empty agent_sel)
      then (if length signers == 0
          then err (
              with_agent_error
                (codes "--agent-key "
                  ++ (quote agent_sel
                      ++ codes " given but ssh-agent has no usable keys (is SSH_AUTH_SOCK set?): "))
                ring.agent)
          else select_agent_key signers agent_sel)
      else if not (is_empty want)
      then wanted_key path want signers
      else guessed_key path signers
