-- ===== src/Config/Ready.antt =====
-- What a configuration holds that its command takes.
use mathlib.Core.Path.{subst}
use balvibot.Prelude.{
  split, ℕ, ◌≡◌, refl, sym, ap, ◌∙◌, ◌⊎◌, inl, inr, ◌≤◌, ◌*◌, Bool, true, false, Bool-cases, List,
  [], ◌∷◌, ◌++◌, Str, codes, eqs, eqs_iff, is_empty, trim_space, All, arith, if◌then◌else◌,
}
use balvibot.Errors.{Error, Result, ok, err, wrap}
use balvibot.Config.{
  ℤ, pos, negsuc, getenv_default, Durations, Config, second, default_poll_interval, folder_names,
  poll_interval_of, with_interval, from_env, require_db, with_db, missing_mail, no_names,
  is_tls_mode, check_tls, require_mail, below_second, require_gdocs, name_if_empty,
}

abbrev pub IsNamed : Str → Type 0
IsNamed s = is_empty s ≡ false

no_err : {A : Type 0} (e : Error) (a : A) → ◌≡◌ {A = Result A} (err e) (ok a) → ⊥
no_err e a h = cc

ok_same : {A : Type 0} (a b : A) → ◌≡◌ {A = Result A} (ok a) (ok b) → a ≡ b
ok_same a b h = cc

if_fails :
    (b : Bool) (e : Error) (r : Result (Unit {0}))
    → (if b then err e else r) ≡ ok tt
    → (b ≡ false) × (r ≡ ok tt)
if_fails true e r h = absurd (no_err e tt h)
if_fails false e r h = (refl, h)

else_fails :
    (b : Bool) (e : Error) (r : Result (Unit {0}))
    → (if b then r else err e) ≡ ok tt
    → (b ≡ true) × (r ≡ ok tt)
else_fails true e r h = (refl, h)
else_fails false e r h = absurd (no_err e tt h)

with_db_ok : (r s : Result (Unit {0})) → with_db r s ≡ ok tt → (r ≡ ok tt) × (s ≡ ok tt)
with_db_ok (ok tt) s h = (refl, h)
with_db_ok (err e) s h = absurd (no_err e tt h)

no_names-append :
    (a b : List Str) → no_names (a ++ b) ≡ true → (no_names a ≡ true) × (no_names b ≡ true)
no_names-append [] b h = (refl, h)
no_names-append (n ∷ a) b h = absurd (false_true h)
  where
    false_true : Bool.false ≡ true → ⊥
    false_true h = cc

IsNamed-if_not_missing :
    (value name : Str) → no_names (name_if_empty value name) ≡ true → IsNamed value
IsNamed-if_not_missing [] name h = sym h
IsNamed-if_not_missing (c ∷ value) name h = refl

tls_mode :
    (s : Str)
    → is_tls_mode s ≡ true
    → (s ≡ codes "starttls") ⊎ ((s ≡ codes "tls") ⊎ (s ≡ codes "none"))
tls_mode s h = step (Bool-cases (eqs s (codes "starttls"))) (Bool-cases (eqs s (codes "tls")))
  where
    step :
        (eqs s (codes "starttls") ≡ true) ⊎ (eqs s (codes "starttls") ≡ false)
        → (eqs s (codes "tls") ≡ true) ⊎ (eqs s (codes "tls") ≡ false)
        → (s ≡ codes "starttls") ⊎ ((s ≡ codes "tls") ⊎ (s ≡ codes "none"))
    step (inl e) d = inl ((eqs_iff s (codes "starttls")).0 e)
    step (inr e) (inl d) = inr (inl ((eqs_iff s (codes "tls")).0 d))
    step (inr e) (inr d) = inr (inr ((eqs_iff s (codes "none")).0 (rw (e, d) at h)))

folder_names-IsNamed : (fs : List Str) → All IsNamed (folder_names fs)
unfolding folder_names
folder_names-IsNamed [] = tt
folder_names-IsNamed (f ∷ fs) = step (is_empty (trim_space f)) refl (folder_names-IsNamed fs)
  where
    step :
        (b : Bool)
        → is_empty (trim_space f) ≡ b
        → All IsNamed (folder_names fs)
        → All IsNamed (if b then folder_names fs else trim_space f ∷ folder_names fs)
    step true e rest = rest
    step false e rest = (e, rest)

-- What the mail indexer starts with.
pub record MailReady (c : Config) : Type 0 where
  pub database : IsNamed c.database_url
  pub server : IsNamed c.imap_addr
  pub user : IsNamed c.imap_user
  pub password : IsNamed c.imap_pass
  pub directory : IsNamed c.attachments_dir
  pub tls :
      (c.imap_tls ≡ codes "starttls") ⊎ ((c.imap_tls ≡ codes "tls") ⊎ (c.imap_tls ≡ codes "none"))
  pub some_folder : no_names c.folders ≡ false
  pub named_folders : All IsNamed c.folders

database-IsNamed : (c : Config) → require_db c ≡ ok tt → IsNamed c.database_url
unfolding require_db
database-IsNamed c h = (if_fails _ _ _ h).0

-- An interval of n nanoseconds is the default, five minutes, where the variable is not set, and
-- otherwise what the variable says.
abbrev pub IsSource : Durations → (Str → Str) → ℕ → Type 0
IsSource durations env n =
    ((is_empty (env (codes "GDOCS_POLL_INTERVAL")) ≡ true) × (n ≡ 300 * second))
    ⊎ ((is_empty (env (codes "GDOCS_POLL_INTERVAL")) ≡ false)
        × (durations.parse (env (codes "GDOCS_POLL_INTERVAL")) ≡ ok (pos n)))

module _ (durations : Durations) (env : Str → Str) (c : Config)
    (read : from_env durations env ≡ ok c) where
  folders-IsNamed : All IsNamed c.folders
  unfolding from_env
  folders-IsNamed = step (poll_interval_of durations env) read
    where
      step : (r : Result ℤ) → with_interval durations env r ≡ ok c → All IsNamed c.folders
      step (err e) h = absurd (no_err e c h)
      step (ok d) h =
          subst (λ (k : Config). All IsNamed k.folders) (ok_same _ c h)
            (folder_names-IsNamed
              (split 44 (getenv_default durations env (codes "MAIL_FOLDERS") (codes "INBOX,Sent"))))

  -- A configuration that was read from the environment and that the mail indexer takes names the
  -- database, the server, the user, the password and the directory, has one of the three modes of TLS, and
  -- has at least one folder, each with a name that is not empty.
  pub mail_is_ready : require_mail c ≡ ok tt → MailReady c
  unfolding require_mail missing_mail
  mail_is_ready h =
      let (db, mail) = with_db_ok (require_db c) _ h in
      let (none_missing, rest) = else_fails (no_names (missing_mail c)) _ (check_tls c) mail in
      let (three, dir) =
        no_names-append _ (name_if_empty c.attachments_dir (codes "MAIL_ATTACHMENTS_DIR"))
          none_missing in
      let (two, pass) = no_names-append _ (name_if_empty c.imap_pass (codes "IMAP_PASS")) three in
      let (addr, user) = no_names-append (name_if_empty c.imap_addr (codes "IMAP_ADDR")) _ two in
      let (mode, folders) = else_fails (is_tls_mode c.imap_tls) _ _ rest in
      record {
        database = database-IsNamed c db;
        server = IsNamed-if_not_missing _ _ addr;
        user = IsNamed-if_not_missing _ _ user;
        password = IsNamed-if_not_missing _ _ pass;
        directory = IsNamed-if_not_missing _ _ dir;
        tls = tls_mode c.imap_tls mode;
        some_folder = (if_fails _ _ _ folders).0;
        named_folders = folders-IsNamed;
      }

  interval_read : poll_interval_of durations env ≡ ok c.poll_interval
  unfolding from_env
  interval_read = step (poll_interval_of durations env) read
    where
      step : (r : Result ℤ) → with_interval durations env r ≡ ok c → r ≡ ok c.poll_interval
      step (err e) h = absurd (no_err e c h)
      step (ok d) h = ap (λ (k : Config). ok k.poll_interval) (ok_same _ c h)

  from_variable : (n : ℕ) → c.poll_interval ≡ pos n → IsSource durations env n
  unfolding poll_interval_of
  from_variable n e =
      step (Bool-cases (is_empty v)) (durations.parse v) refl (interval_read ∙ ap ok e)
    where
      v : Str
      v = env (codes "GDOCS_POLL_INTERVAL")

      five_minutes : ◌≡◌ {A = Result ℤ} (ok default_poll_interval) (ok (pos n)) → n ≡ 300 * second
      five_minutes h = cc

      given :
          (r : Result ℤ)
          → is_empty v ≡ false
          → durations.parse v ≡ r
          → (elim r as (λ _. Result ℤ) [
            | ok d ↦ ok d
            | err e ↦ err (wrap (codes "GDOCS_POLL_INTERVAL: ") e [])
          ])
            ≡ ok (pos n)
          → IsSource durations env n
      given (ok d) t q h = inr (t, q ∙ h)
      given (err e) t q h = absurd (no_err _ (pos n) h)

      step :
          (is_empty v ≡ true) ⊎ (is_empty v ≡ false)
          → (r : Result ℤ) → durations.parse v ≡ r
          → poll_interval_of durations env ≡ ok (pos n)
          → IsSource durations env n
      step (inl t) r q h = inl (t, five_minutes (rw t at h))
      step (inr t) r q h = given (durations.parse v) t refl (rw t at h)

  -- A configuration that was read from the environment and that the sync with Drive takes has an
  -- interval of at least one second, which is five minutes where the variable is not set and otherwise what
  -- the variable says.
  pub sync_interval :
      require_gdocs durations c ≡ ok tt
      → (n : ℕ) × (c.poll_interval ≡ pos n) × (second ≤ n) × IsSource durations env n
  unfolding require_gdocs
  sync_interval h =
      bounded c.poll_interval refl
        (if_fails (below_second c.poll_interval) _ _
          (if_fails _ _ _ (with_db_ok (require_db c) _ h).1).1).0
    where
      bounded :
          (d : ℤ)
          → c.poll_interval ≡ d
          → below_second d ≡ false
          → (n : ℕ) × (c.poll_interval ≡ pos n) × (second ≤ n) × IsSource durations env n
      bounded (pos n) e b = (n, e, ground arith, from_variable n e)
      bounded (negsuc n) e b = absurd (true_false b)
        where
          true_false : Bool.true ≡ false → ⊥
          true_false q = cc
