-- ===== src/Examples/Settings.antt =====
-- The theorems on the configuration at an environment.
use balvibot.Prelude.{
  join, ℕ, ◌≡◌, ◌≤◌, refl, Str, codes, eqs, [], ◌∷◌, to_lower, trim_space, if◌then◌else◌,
}
use balvibot.Errors.{ok, err, message}
use balvibot.Config.{
  pos, Durations, Config, second, default_mcp_bind_addr, default_approval_bind_addr, level_info,
  folders_of, from_env, require_mail, require_gdocs,
}
use balvibot.Config.Folders.{IsFolder, named_folders_are_read}
use balvibot.Config.Ready.{MailReady, IsSource, mail_is_ready, sync_interval}

abbrev test_durations : Durations
test_durations = record {
  parse = λ s.
      if eqs s (codes "2s")
      then ok (pos 2000000000)
      else err (message (codes "time: invalid duration"));
  print = λ d. codes "a duration";
}

abbrev test_env : Str → Str
test_env key =
    if eqs key (codes "DATABASE_URL")
    then codes "postgres://db"
    else if eqs key (codes "IMAP_ADDR")
    then codes "mail:143"
    else if eqs key (codes "IMAP_USER")
    then codes "bot"
    else if eqs key (codes "IMAP_PASS")
    then codes "secret"
    else if eqs key (codes "MAIL_ATTACHMENTS_DIR")
    then codes "/data"
    else if eqs key (codes "MAIL_FOLDERS")
    then codes "INBOX,Junk"
    else if eqs key (codes "GOOGLE_APPLICATION_CREDENTIALS")
    then codes "/key.json"
    else if eqs key (codes "GDOCS_POLL_INTERVAL")
    then codes "2s"
    else []

abbrev test_config : Config
test_config = record {
  database_url = codes "postgres://db";
  log_level = level_info;
  mcp_bind_addr = default_mcp_bind_addr;
  mcp_bearer_token = [];
  google_sa_key_file = codes "/key.json";
  approval_bind_addr = default_approval_bind_addr;
  approval_bootstrap_email = [];
  approval_bootstrap_pub_key = [];
  imap_addr = codes "mail:143";
  imap_user = codes "bot";
  imap_pass = codes "secret";
  imap_tls = codes "starttls";
  attachments_dir = codes "/data";
  folders = codes "INBOX" ∷ codes "Junk" ∷ [];
  poll_interval = pos 2000000000;
  drive_base_url = [];
}

env_read : from_env test_durations test_env ≡ ok test_config
unfolding from_env eqs to_lower
env_read = refl

mail_accepted : require_mail test_config ≡ ok tt
unfolding require_mail eqs
mail_accepted = refl

sync_accepted : require_gdocs test_durations test_config ≡ ok tt
unfolding require_gdocs
sync_accepted = refl

mail_is_ready_example : MailReady test_config
mail_is_ready_example = mail_is_ready test_durations test_env test_config env_read mail_accepted

sync_interval_example :
    (n : ℕ) × (test_config.poll_interval ≡ pos n)
    × (second ≤ n)
    × IsSource test_durations test_env n
sync_interval_example = sync_interval test_durations test_env test_config env_read sync_accepted

inbox-IsFolder : IsFolder (codes "INBOX")
unfolding trim_space
inbox-IsFolder = record {
  named = refl;
  no_comma = (refl, (refl, (refl, (refl, (refl, tt)))));
  trimmed = refl;
}

junk-IsFolder : IsFolder (codes "Junk")
unfolding trim_space
junk-IsFolder = record {
  named = refl;
  no_comma = (refl, (refl, (refl, (refl, tt))));
  trimmed = refl;
}

joined : test_env (codes "MAIL_FOLDERS") ≡ join (codes ",") (codes "INBOX" ∷ codes "Junk" ∷ [])
unfolding eqs join
joined = refl

named_folders_are_read_example :
    folders_of test_durations test_env ≡ codes "INBOX" ∷ codes "Junk" ∷ []
named_folders_are_read_example =
    named_folders_are_read test_durations test_env (codes "INBOX") (codes "Junk" ∷ [])
      (inbox-IsFolder, (junk-IsFolder, tt)) joined
