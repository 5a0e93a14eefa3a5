-- ===== src/Config/Accounts.antt =====
-- crates/esmail/src/config.rs: a new account with the settings of its provider, and the changes of
-- the configuration. A set of texts is the list of its items; the window's geometry and the OAuth
-- client are left out.
use esmail.Prelude.{
  ℕ, Bool, true, false, not, ◌||◌, Option, none, some, List, [], ◌∷◌, ◌++◌, Str, codes, is_empty,
  str_eq, any, keep, find, trim, take, drop, suc, strip_prefix, to_ascii_lowercase, unwrap_or,
  or_else, if◌then◌else◌,
}
use esmail.Prelude.Decimal.{parse_below}
use esmail.Mail.{rfind}
use esmail.Compose.{lines_from}
use esmail.Config.{AccountConfig, ssl, password}

-- `str::rsplit_once` with a character.
abbrev pub rsplit_at : Option ℕ → Str → Option (Str × Str)
rsplit_at none s = none
rsplit_at (some i) s = some (take i s, drop (suc i) s)

unfoldable pub rsplit_once : ℕ → Str → Option (Str × Str)
unfolding rfind
rsplit_once c s = rsplit_at (rfind c s) s

unfoldable pub derive_smtp_host : Str → Str
derive_smtp_host imap_host =
    codes "smtp." ++ unwrap_or (strip_prefix imap_host (codes "imap.")) imap_host

unfoldable pub new : Str → Str → ℕ → Str → AccountConfig
unfolding derive_smtp_host
new display_name imap_host imap_port username = record {
  id = username ++ (codes "@" ++ imap_host);
  display_name = display_name;
  smtp_host = derive_smtp_host imap_host;
  imap_host = imap_host;
  imap_port = imap_port;
  imap_tls = ssl;
  smtp_port = 465;
  smtp_tls = ssl;
  username = username;
  auth = password;
  watch_mailbox = none;
  oauth_token_issued_at = none;
}

pub record ProviderSettings : Type 0 where
  pub imap_host : Str
  pub imap_port : ℕ
  pub smtp_host : Str
  pub smtp_port : ℕ

abbrev provider : Str → ℕ → Str → ℕ → ProviderSettings
provider imap_host imap_port smtp_host smtp_port = record {
  imap_host = imap_host;
  imap_port = imap_port;
  smtp_host = smtp_host;
  smtp_port = smtp_port;
}

abbrev pub gmail : ProviderSettings
gmail = provider (codes "imap.gmail.com") 993 (codes "smtp.gmail.com") 465

abbrev pub outlook : ProviderSettings
outlook = provider (codes "outlook.office365.com") 993 (codes "smtp.office365.com") 587

abbrev pub icloud : ProviderSettings
icloud = provider (codes "imap.mail.me.com") 993 (codes "smtp.mail.me.com") 587

abbrev pub providers : List (Str × ProviderSettings)
providers =
    (codes "gmail.com", gmail)
    ∷ (codes "googlemail.com", gmail)
    ∷ (codes "outlook.com", outlook)
    ∷ (codes "hotmail.com", outlook)
    ∷ (codes "live.com", outlook)
    ∷ (
      codes "yahoo.com",
      provider (codes "imap.mail.yahoo.com") 993 (codes "smtp.mail.yahoo.com") 465,
    )
    ∷ (codes "icloud.com", icloud)
    ∷ (codes "me.com", icloud)
    ∷ (
      codes "fastmail.com",
      provider (codes "imap.fastmail.com") 993 (codes "smtp.fastmail.com") 465,
    )
    ∷ (codes "gmx.com", provider (codes "imap.gmx.com") 993 (codes "smtp.gmx.com") 465)
    ∷ (codes "zoho.com", provider (codes "imap.zoho.com") 993 (codes "smtp.zoho.com") 465)
    ∷ []

abbrev pub settings_of : Option (Str × ProviderSettings) → Option ProviderSettings
settings_of none = none
settings_of (some (domain, settings)) = some settings

abbrev pub provider_for_domain : Str → Option ProviderSettings
provider_for_domain domain =
    if is_empty domain
    then none
    else settings_of (find (λ (p : Str × ProviderSettings). str_eq p.0 domain) providers)

unfoldable pub provider_for_email : Str → Option ProviderSettings
provider_for_email email = elim (rsplit_once b'@' email) [
  | none ↦ none
  | some (local, domain) ↦ provider_for_domain (to_ascii_lowercase (trim domain))
]

pub data ThemeMode : Type 0 where
  dark light system : ThemeMode

unfoldable pub next : ThemeMode → ThemeMode
next dark = light
next light = system
next system = dark

unfoldable pub label : ThemeMode → Str
label dark = codes "Dark"
label light = codes "Light"
label system = codes "System"

pub record Config : Type 0 where
  pub accounts : List AccountConfig
  pub theme : ThemeMode
  pub image_trusted_senders : List Str
  pub collapsed_folders : List Str

unfoldable pub collapsed_folder_key : Str → Str → Str
collapsed_folder_key account_id folder_key = account_id ++ (codes "\t" ++ folder_key)

-- The account that takes the place of the one with its id.
abbrev pub merged : AccountConfig → AccountConfig → AccountConfig
merged account existing = record account {
  watch_mailbox = or_else account.watch_mailbox existing.watch_mailbox;
}

unfoldable pub upsert_in : AccountConfig → List AccountConfig → List AccountConfig
upsert_in account [] = account ∷ []
upsert_in account (a ∷ accounts) =
    let rest = upsert_in account accounts in
    if str_eq a.id account.id then merged account a ∷ accounts else a ∷ rest

unfoldable pub upsert_account : AccountConfig → Config → Config
unfolding upsert_in
upsert_account account c = record c { accounts = upsert_in account c.accounts }

unfoldable pub remove_account : Str → Config → Config
remove_account id c = record c {
  accounts = keep (λ (a : AccountConfig). not (str_eq a.id id)) c.accounts;
}

-- `BTreeSet::contains`, `insert` and `remove`, with what the last two return.
abbrev pub holds : Str → List Str → Bool
holds s set = any (λ t. str_eq t s) set

unfoldable pub insert : Str → List Str → List Str × Bool
insert s set = if holds s set then (set, false) else (s ∷ set, true)

unfoldable pub remove : Str → List Str → List Str × Bool
remove s set = (keep (λ t. not (str_eq t s)) set, holds s set)

unfoldable pub is_image_trusted : Str → Config → Bool
is_image_trusted address c = holds (to_ascii_lowercase address) c.image_trusted_senders

unfoldable pub set_image_trusted : Str → Bool → Config → Config × Bool
unfolding insert remove
set_image_trusted address trusted c =
    let address = to_ascii_lowercase address in
    let (set, changed) =
      if trusted
      then insert address c.image_trusted_senders
      else remove address c.image_trusted_senders in
    (record c { image_trusted_senders = set }, changed)

unfoldable pub set_folder_collapsed : Str → Str → Bool → Config → Config × Bool
unfolding insert remove collapsed_folder_key
set_folder_collapsed account_id folder_key collapsed c =
    let key = collapsed_folder_key account_id folder_key in
    let (set, changed) =
      if collapsed then insert key c.collapsed_folders else remove key c.collapsed_folders in
    (record c { collapsed_folders = set }, changed)

-- The host, the port and the user of the old format.
abbrev pub migrated : Str → Str → Str → Config → Config × Bool
migrated host port username c = if is_empty host || is_empty username then (c, false) else (
  record c {
    accounts =
        c.accounts ++ new username host (unwrap_or (parse_below 65536 port) 993) username ∷ [];
  },
  true,
)

abbrev pub migrate_lines : List Str → Config → Config × Bool
migrate_lines (host ∷ port ∷ username ∷ more) c = migrated (trim host) (trim port) (trim username) c
migrate_lines _ c = (c, false)

unfoldable pub migrate_legacy_content : Str → Config → Config × Bool
unfolding new lines_from
migrate_legacy_content content c =
    if not (is_empty c.accounts) then (c, false) else migrate_lines (lines_from [] content) c
