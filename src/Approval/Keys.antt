-- ===== src/Approval/Keys.antt =====
-- tools/api/internal/approval/fingerprint.go and verify.go: SSH keys and signatures.
use balvibot.Prelude.{◌++◌, Str, codes}
use balvibot.Errors.{Result, ok, err, bad_signature, wrap, error_text}

-- What the program takes from golang.org/x/crypto/ssh, with the base64 form of a signature. A key
-- is what ParseAuthorizedKey makes of a line, a signature what Unmarshal makes of its bytes.
pub record Ssh : Type 0 where
  pub parse_key : Str → Result Str
  pub fingerprint_sha256 : Str → Str
  pub decode_base64 : Str → Result Str
  pub unmarshal : Str → Result Str
  pub verifies : Str → Str → Str → Result (Unit {0})

abbrev pub in_context : {A : Type 0} → Str → Result A → Result A
in_context s (ok a) = ok a
in_context s (err e) = err (wrap s e (codes ""))

infixl 10 ◌>>=◌
abbrev ◌>>=◌ : {A B : Type 0} → Result A → (A → Result B) → Result B
ok a >>= f = f a
err e >>= f = err e

-- `%w: %v` with ErrBadSignature
abbrev pub rejected : Result (Unit {0}) → Result (Unit {0})
rejected (ok a) = ok a
rejected (err e) = err (wrap (codes "") bad_signature (codes ": " ++ error_text e))

module _ (ssh : Ssh) where
  -- ParseAuthorizedKey
  unfoldable pub parse_authorized_key : Str → Result Str
  parse_authorized_key line = in_context (codes "parse public key: ") (ssh.parse_key line)

  -- Fingerprint
  unfoldable pub fingerprint : Str → Result Str
  unfolding parse_authorized_key
  fingerprint line = do key ← parse_authorized_key line; ok (ssh.fingerprint_sha256 key)

  -- Verify
  unfoldable pub verify : Str → Str → Str → Result (Unit {0})
  unfolding parse_authorized_key error_text
  verify line payload signature = do
    key ← parse_authorized_key line
    raw ← in_context (codes "decode signature: ") (ssh.decode_base64 signature)
    sig ← in_context (codes "parse signature: ") (ssh.unmarshal raw)
    rejected (ssh.verifies key payload sig)
