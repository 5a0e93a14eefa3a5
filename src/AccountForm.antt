-- ===== src/AccountForm.antt =====
-- crates/esmail-win32/src/core_glue/account_form.rs: the account form as it was typed, and the check
-- that makes an account of it. The messages of the errors are left out.
pub mod Usable
use esmail.Prelude.{
  ℕ, Bool, true, false, not, ◌&&◌, ◌||◌, Option, none, some, ◌++◌, Str, codes, is_empty, str_eq,
  any, contains, starts_with, ends_with, is_whitespace, trim, to_ascii_lowercase, ◌==◌,
  if◌then◌else◌, unwrap_or,
}
use esmail.Prelude.Decimal.{to_string, parse_below}
use esmail.Config.{AccountConfig, TlsMode, ssl, start_tls, AuthKind, password, google_oauth}
use esmail.Config.Accounts.{ProviderSettings, rsplit_once, provider_for_email, new}

abbrev pub gmail_imap_host : Str
gmail_imap_host = codes "imap.gmail.com"

pub record AccountForm : Type 0 where
  pub display_name : Str
  pub email : Str
  pub auth : AuthKind
  pub password : Str
  pub imap_host : Str
  pub imap_port : Str
  pub smtp_host : Str
  pub smtp_port : Str
  pub smtp_tls : TlsMode

pub data Field : Type 0 where
  email_field password_field imap_host_field imap_port_field smtp_host_field smtp_port_field : Field

pub record Preset : Type 0 where
  pub imap_host : Str
  pub imap_port : ℕ  -- u16
  pub smtp_host : Str
  pub smtp_port : ℕ  -- u16
  pub smtp_tls : TlsMode
  pub auth : AuthKind

pub record Detection : Type 0 where
  pub preset : Preset
  pub known : Bool

unfoldable pub smtp_security_for : ℕ → TlsMode
smtp_security_for port = if port == 587 then start_tls else ssl

unfoldable pub security_for_smtp_port : ℕ → Option TlsMode
security_for_smtp_port port =
    if port == 465 then some ssl else if port == 587 then some start_tls else none

abbrev pub preset_of : Str → Option ProviderSettings → Detection
preset_of domain (some p) = record {
  preset = record {
    imap_host = p.imap_host;
    imap_port = p.imap_port;
    smtp_host = p.smtp_host;
    smtp_port = p.smtp_port;
    smtp_tls = smtp_security_for p.smtp_port;
    auth = if str_eq p.imap_host gmail_imap_host then google_oauth else password;
  };
  known = true;
}
preset_of domain none = record {
  preset = record {
    imap_host = codes "imap." ++ domain;
    imap_port = 993;
    smtp_host = codes "smtp." ++ domain;
    smtp_port = 465;
    smtp_tls = ssl;
    auth = password;
  };
  known = false;
}

abbrev pub detect_domain : Str → Str → Option Detection
detect_domain email domain =
    if not (contains domain (codes "."))
      || any is_whitespace domain
      || starts_with domain (codes ".")
      || ends_with domain (codes ".")
    then none
    else some (preset_of domain (provider_for_email email))

unfoldable pub detect : Str → Option Detection
unfolding smtp_security_for
detect email = elim (rsplit_once b'@' email) [
  | none ↦ none
  | some (local, domain) ↦ detect_domain email (to_ascii_lowercase (trim domain))
]

abbrev pub default : AccountForm
default = record {
  display_name = codes "";
  email = codes "";
  auth = password;
  password = codes "";
  imap_host = codes "";
  imap_port = codes "993";
  smtp_host = codes "";
  smtp_port = codes "465";
  smtp_tls = ssl;
}

unfoldable pub from_account : AccountConfig → Str → AccountForm
from_account account saved_password = record {
  display_name = account.display_name;
  email = account.username;
  auth = account.auth;
  password = saved_password;
  imap_host = account.imap_host;
  imap_port = to_string account.imap_port;
  smtp_host = account.smtp_host;
  smtp_port = to_string account.smtp_port;
  smtp_tls = account.smtp_tls;
}

unfoldable pub apply : Preset → AccountForm → AccountForm
apply preset form = record form {
  imap_host = preset.imap_host;
  imap_port = to_string preset.imap_port;
  smtp_host = preset.smtp_host;
  smtp_port = to_string preset.smtp_port;
  smtp_tls = preset.smtp_tls;
  auth = preset.auth;
}

unfoldable pub id : AccountForm → Str
id form = trim form.email ++ (codes "@" ++ trim form.imap_host)

abbrev pub nonzero : Option ℕ → Option ℕ
nonzero none = none
nonzero (some port) = if port == 0 then none else some port

unfoldable pub parse_port : Str → Option ℕ
parse_port text = nonzero (parse_below 65536 (trim text))

unfoldable pub is_host : Str → Bool
is_host text =
    not (is_empty text) && not (any is_whitespace text) && not (contains text (codes "/"))

-- What the form gives: the account, or the field to fix.
pub data Checked : Type 0 where
  accepted : AccountConfig → Checked
  refused : Field → Checked

abbrev pub refused_unless : Bool → Field → Checked → Checked
refused_unless ok field rest = if ok then rest else refused field

abbrev pub with_port : Option ℕ → Field → (ℕ → Checked) → Checked
with_port none field rest = refused field
with_port (some port) field rest = rest port

unfoldable pub is_address : Str → Bool
is_address email =
    let (local, domain) = unwrap_or (rsplit_once b'@' email) (codes "", codes "") in
    not (is_empty local || not (contains domain (codes ".")) || any is_whitespace email)

-- The two guards of the `match` on the way to sign in.
abbrev pub with_auth : AuthKind → Str → Str → Checked → Checked
with_auth AuthKind.password secret imap_host rest =
    refused_unless (not (is_empty secret)) password_field rest
with_auth google_oauth secret imap_host rest =
    refused_unless (str_eq imap_host gmail_imap_host) imap_host_field rest

abbrev pub name_or : Str → Str → Str
name_or email name = if is_empty name then email else name

unfoldable pub account_of : AccountForm → Option AccountConfig → ℕ → ℕ → AccountConfig
account_of form base imap_port smtp_port =
    let email = trim form.email in
    let imap_host = trim form.imap_host in
    let display_name = name_or email (trim form.display_name) in
    let account = unwrap_or base (new display_name imap_host imap_port email) in
    record account {
      display_name = display_name;
      username = email;
      imap_host = imap_host;
      imap_port = imap_port;
      imap_tls = ssl;
      smtp_host = trim form.smtp_host;
      smtp_port = smtp_port;
      smtp_tls = form.smtp_tls;
      auth = form.auth;
    }

unfoldable pub to_account : AccountForm → Option AccountConfig → Checked
unfolding is_address is_host parse_port account_of
to_account form base =
    let imap_host = trim form.imap_host in
    refused_unless (is_address (trim form.email)) email_field (
      refused_unless (is_host imap_host) imap_host_field (
        with_port (parse_port form.imap_port) imap_port_field (λ imap_port.
          refused_unless (is_host (trim form.smtp_host)) smtp_host_field (
            with_port (parse_port form.smtp_port) smtp_port_field (λ smtp_port.
              with_auth form.auth form.password imap_host
                (accepted (account_of form base imap_port smtp_port)))))))
