-- ===== src/Config.antt =====
-- tools/api/internal/config/config.go: the configuration from the environment.
pub mod Folders
pub mod Ready
use balvibot.Prelude.{
  split, join, ℕ, Bool, true, false, List, [], ◌∷◌, ◌++◌, Str, codes, eqs, is_empty, trim_space,
  to_lower, ◌==◌, ltb, if◌then◌else◌,
}
use balvibot.Errors.{Error, Result, ok, err, message, wrap, quote}

-- A whole number; negsuc n is -(n + 1).
pub data ℤ : Type 0 where
  pos : ℕ → ℤ
  negsuc : ℕ → ℤ

-- time.ParseDuration and Duration.String, in nanoseconds
pub record Durations : Type 0 where
  pub parse : Str → Result ℤ
  pub print : ℤ → Str

-- slog.Level
pub data LogLevel : Type 0 where
  level_debug : LogLevel
  level_info : LogLevel
  level_warn : LogLevel
  level_error : LogLevel

-- type Config
pub record Config : Type 0 where
  pub database_url : Str
  pub log_level : LogLevel
  pub mcp_bind_addr : Str
  pub mcp_bearer_token : Str
  pub google_sa_key_file : Str
  pub approval_bind_addr : Str
  pub approval_bootstrap_email : Str
  pub approval_bootstrap_pub_key : Str
  pub imap_addr : Str
  pub imap_user : Str
  pub imap_pass : Str
  pub imap_tls : Str
  pub attachments_dir : Str
  pub folders : List Str
  pub poll_interval : ℤ
  pub drive_base_url : Str

abbrev pub second : ℕ
second = 1000000000

-- DefaultPollInterval, DefaultMCPBindAddr, DefaultApprovalBindAddr
abbrev pub default_poll_interval : ℤ
default_poll_interval = pos 300000000000

abbrev pub default_mcp_bind_addr : Str
default_mcp_bind_addr = codes ":8080"

abbrev pub default_approval_bind_addr : Str
default_approval_bind_addr = codes ":8090"

-- The loop over the pieces of MAIL_FOLDERS.
unfoldable pub folder_names : List Str → List Str
folder_names [] = []
folder_names (f ∷ fs) =
    let rest = folder_names fs in if is_empty (trim_space f) then rest else trim_space f ∷ rest

abbrev level_of : Str → LogLevel
level_of s =
    if eqs s (codes "debug")
    then level_debug
    else if eqs s (codes "warn")
    then level_warn
    else if eqs s (codes "error")
    then level_error
    else level_info

module _ (durations : Durations) (env : Str → Str) where
  -- getenvDefault
  unfoldable pub getenv_default : Str → Str → Str
  getenv_default key default = if is_empty (env key) then default else env key

  abbrev read_interval : Str → Result ℤ
  read_interval v = elim (durations.parse v) as (λ _. Result ℤ) [
    | ok d ↦ ok d
    | err e ↦ err (wrap (codes "GDOCS_POLL_INTERVAL: ") e [])
  ]

  unfoldable pub poll_interval_of : Result ℤ
  poll_interval_of =
      let v = env (codes "GDOCS_POLL_INTERVAL") in
      if is_empty v then ok default_poll_interval else read_interval v

  abbrev pub folders_of : List Str
  folders_of = folder_names (split 44 (getenv_default (codes "MAIL_FOLDERS") (codes "INBOX,Sent")))

  abbrev pub with_interval : Result ℤ → Result Config
  with_interval (err e) = err e
  with_interval (ok d) = ok (record {
    database_url = env (codes "DATABASE_URL");
    log_level = level_of (to_lower (getenv_default (codes "LOG_LEVEL") (codes "info")));
    mcp_bind_addr = getenv_default (codes "MCP_BIND_ADDR") default_mcp_bind_addr;
    mcp_bearer_token = env (codes "MCP_BEARER_TOKEN");
    google_sa_key_file = trim_space (env (codes "GOOGLE_APPLICATION_CREDENTIALS"));
    approval_bind_addr = getenv_default (codes "APPROVAL_BIND_ADDR") default_approval_bind_addr;
    approval_bootstrap_email = trim_space (env (codes "APPROVAL_BOOTSTRAP_EMAIL"));
    approval_bootstrap_pub_key = trim_space (env (codes "APPROVAL_BOOTSTRAP_PUBKEY"));
    imap_addr = env (codes "IMAP_ADDR");
    imap_user = env (codes "IMAP_USER");
    imap_pass = env (codes "IMAP_PASS");
    imap_tls = getenv_default (codes "IMAP_TLS") (codes "starttls");
    attachments_dir = env (codes "MAIL_ATTACHMENTS_DIR");
    folders = folders_of;
    poll_interval = d;
    drive_base_url = env (codes "GDOCS_DRIVE_BASE_URL");
  })

  -- FromEnv
  unfoldable pub from_env : Result Config
  unfolding getenv_default poll_interval_of folder_names split to_lower trim_space
  from_env = with_interval poll_interval_of

abbrev fails : Str → Result (Unit {0})
fails s = err (message s)

-- RequireDB
unfoldable pub require_db : Config → Result (Unit {0})
require_db c =
    if is_empty c.database_url
    then fails (codes "missing required env var: DATABASE_URL")
    else ok tt

-- `if err := c.RequireDB(); err != nil { return err }`
abbrev pub with_db : Result (Unit {0}) → Result (Unit {0}) → Result (Unit {0})
with_db (ok u) rest = rest
with_db (err e) rest = err e

-- RequireMCP
unfoldable pub require_mcp : Config → Result (Unit {0})
unfolding require_db
require_mcp c = with_db (require_db c) (
    if is_empty c.mcp_bind_addr
    then fails (codes "MCP_BIND_ADDR is required")
    else if is_empty c.mcp_bearer_token
    then fails (codes "MCP_BEARER_TOKEN is required")
    else ok tt)

-- RequireApproval
unfoldable pub require_approval : Config → Result (Unit {0})
unfolding require_db
require_approval c = with_db (require_db c) (
    if is_empty c.approval_bind_addr then fails (codes "APPROVAL_BIND_ADDR is required") else ok tt)

abbrev pub name_if_empty : Str → Str → List Str
name_if_empty value name = if is_empty value then name ∷ [] else []

-- The names of the variables of the mail indexer that are not set.
unfoldable pub missing_mail : Config → List Str
missing_mail c =
    ((name_if_empty c.imap_addr (codes "IMAP_ADDR")
        ++ name_if_empty c.imap_user (codes "IMAP_USER"))
      ++ name_if_empty c.imap_pass (codes "IMAP_PASS"))
    ++ name_if_empty c.attachments_dir (codes "MAIL_ATTACHMENTS_DIR")

abbrev pub no_names : List Str → Bool
no_names [] = true
no_names (n ∷ ns) = false

abbrev pub is_tls_mode : Str → Bool
is_tls_mode s =
    if eqs s (codes "starttls")
    then true
    else if eqs s (codes "tls")
    then true
    else eqs s (codes "none")

abbrev pub check_tls : Config → Result (Unit {0})
check_tls c =
    if is_tls_mode c.imap_tls
    then (if no_names c.folders
        then fails (codes "MAIL_FOLDERS produced an empty folder list")
        else ok tt)
    else fails (codes "IMAP_TLS must be one of starttls|tls|none, got " ++ quote c.imap_tls)

-- RequireMail
unfoldable pub require_mail : Config → Result (Unit {0})
unfolding require_db missing_mail join quote
require_mail c = with_db (require_db c) (
    if no_names (missing_mail c)
    then check_tls c
    else fails (codes "missing required env vars: " ++ join (codes ", ") (missing_mail c)))

-- d < time.Second
abbrev pub below_second : ℤ → Bool
below_second (pos n) = ltb n second
below_second (negsuc n) = true

-- RequireGdocs
unfoldable pub require_gdocs : Durations → Config → Result (Unit {0})
unfolding require_db
require_gdocs durations c = with_db (require_db c) (
    if is_empty c.google_sa_key_file
    then fails (codes "missing required env var: GOOGLE_APPLICATION_CREDENTIALS")
    else if below_second c.poll_interval
    then fails (codes "GDOCS_POLL_INTERVAL too small: " ++ durations.print c.poll_interval)
    else ok tt)
