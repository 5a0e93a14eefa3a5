-- ===== src/Config.antt =====
-- crates/esmail/src/config.rs: the configuration of an account, and crates/esmail/src/auth.rs: its
-- credential.
pub mod Accounts
pub mod Saved
use esmail.Prelude.{ℕ, Bool, true, false, ◌&&◌, Option, none, some, Str, ◌==◌, str_eq}

pub data TlsMode : Type 0 where
  ssl start_tls no_tls : TlsMode

pub data AuthKind : Type 0 where
  password google_oauth : AuthKind

pub record AccountConfig : Type 0 where
  pub id : Str
  pub display_name : Str
  pub imap_host : Str
  pub imap_port : ℕ  -- u16
  pub imap_tls : TlsMode
  pub smtp_host : Str
  pub smtp_port : ℕ  -- u16
  pub smtp_tls : TlsMode
  pub username : Str
  pub auth : AuthKind
  pub watch_mailbox : Option Str
  pub oauth_token_issued_at : Option ℕ  -- i64, not negative

tls_eq : TlsMode → TlsMode → Bool
tls_eq ssl ssl = true
tls_eq start_tls start_tls = true
tls_eq no_tls no_tls = true
tls_eq a b = false

auth_eq : AuthKind → AuthKind → Bool
auth_eq password password = true
auth_eq google_oauth google_oauth = true
auth_eq a b = false

abbrev pub option_eq {ℓ} : {A : Type ℓ} → (A → A → Bool) → Option A → Option A → Bool
option_eq e none none = true
option_eq e (some a) (some b) = e a b
option_eq e none (some b) = false
option_eq e (some a) none = false

-- The derived `PartialEq`.
unfoldable pub config_eq : AccountConfig → AccountConfig → Bool
unfolding tls_eq auth_eq
config_eq a b =
    str_eq a.id b.id
    && str_eq a.display_name b.display_name
    && str_eq a.imap_host b.imap_host
    && (a.imap_port == b.imap_port)
    && tls_eq a.imap_tls b.imap_tls
    && str_eq a.smtp_host b.smtp_host
    && (a.smtp_port == b.smtp_port)
    && tls_eq a.smtp_tls b.smtp_tls
    && str_eq a.username b.username
    && auth_eq a.auth b.auth
    && option_eq str_eq a.watch_mailbox b.watch_mailbox
    && option_eq (λ m n. m == n) a.oauth_token_issued_at b.oauth_token_issued_at

-- A credential: a password, or the shared source of tokens with its identity.
pub data Auth : Type 0 where
  secret : Str → Auth
  oauth : ℕ → Auth
