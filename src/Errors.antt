-- ===== src/Errors.antt =====
-- Go errors of tools/api as values: the sentinels that callers test for with `errors.Is`, the
-- driver's errors, plain messages, and wrapping by `%w`.
use balvibot.Prelude.{
  ℕ, ◌+◌, ◌/◌, ◌%◌, Bool, true, false, ◌||◌, [], ◌∷◌, ◌++◌, Str, codes, ◌==◌, ltb, itoa,
  if◌then◌else◌,
}

pub data Error : Type 0 where
  -- store.ErrNotFound
  not_found : Error
  -- sql.ErrNoRows
  no_rows : Error
  -- approval.ErrUnknownAction
  unknown_action : Error
  -- approval.ErrBadSignature
  bad_signature : Error
  -- a *pgconn.PgError with code 23505
  unique_violation : Error
  -- any other error of the database driver
  driver : Str → Error
  -- *drive.StatusError, with the status code
  status_error : ℕ → Error
  -- errors.New, and fmt.Errorf without %w
  message : Str → Error
  -- fmt.Errorf("before%wafter", err)
  wrap : Str → Error → Str → Error

pub data Result {ℓ} (A : Type ℓ) : Type ℓ where
  ok : A → Result A
  err : Error → Result A

-- errors.Is(err, store.ErrNotFound)
unfoldable pub is_not_found : Error → Bool
is_not_found not_found = true
is_not_found (wrap s e t) = is_not_found e
is_not_found _ = false

-- errors.Is(err, sql.ErrNoRows)
unfoldable pub is_no_rows : Error → Bool
is_no_rows no_rows = true
is_no_rows (wrap s e t) = is_no_rows e
is_no_rows _ = false

-- IsUniqueViolation
unfoldable pub is_unique_violation : Error → Bool
is_unique_violation unique_violation = true
is_unique_violation (wrap s e t) = is_unique_violation e
is_unique_violation _ = false

-- IsNotFoundOrForbidden
unfoldable pub is_not_found_or_forbidden : Error → Bool
is_not_found_or_forbidden (status_error code) = code == 404 || code == 403
is_not_found_or_forbidden (wrap s e t) = is_not_found_or_forbidden e
is_not_found_or_forbidden _ = false

-- One hexadecimal digit.
abbrev hex : ℕ → ℕ
hex n = if ltb n 10 then b'0' + n else b'a' + n % 10

-- One byte as strconv.Quote writes it; bytes from 128 on are taken to be printable text.
abbrev quote_byte : ℕ → Str
quote_byte c =
    if c == 34 || c == 92
    then 92 ∷ c ∷ []
    else if c == 7
    then codes "\\a"
    else if c == 8
    then codes "\\b"
    else if c == 9
    then codes "\\t"
    else if c == 10
    then codes "\\n"
    else if c == 11
    then codes "\\v"
    else if c == 12
    then codes "\\f"
    else if c == 13
    then codes "\\r"
    else if ltb c 32 || c == 127
    then 92 ∷ b'x' ∷ hex (c / 16) ∷ hex (c % 16) ∷ []
    else c ∷ []

quote_bytes : Str → Str
quote_bytes [] = []
quote_bytes (c ∷ s) = quote_byte c ++ quote_bytes s

-- The verb %q.
unfoldable pub quote : Str → Str
unfolding quote_bytes
quote s = 34 ∷ (quote_bytes s ++ 34 ∷ [])

-- err.Error()
unfoldable pub error_text : Error → Str
error_text not_found = codes "not found"
error_text no_rows = codes "sql: no rows in result set"
error_text unknown_action = codes "unknown action"
error_text bad_signature = codes "signature verification failed"
error_text unique_violation =
    codes "ERROR: duplicate key value violates unique constraint (SQLSTATE 23505)"
error_text (driver s) = s
error_text (status_error code) = codes "drive: HTTP " ++ itoa code
error_text (message s) = s
error_text (wrap s e t) = s ++ (error_text e ++ t)
