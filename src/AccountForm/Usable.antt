-- ===== src/AccountForm/Usable.antt =====
-- The account that the form gives, once it is saved in the configuration.
use esmail.Prelude.{
  ℕ, ◌≤◌, ◌≡◌, refl, subst, Bool, true, false, not, ◌&&◌, Option, none, some, Str, is_empty, str_eq,
  arith, trim,
}
use esmail.Prelude.Decimal.{parse_below}
use esmail.Config.{AccountConfig, ssl, AuthKind, password, google_oauth}
use esmail.Config.Accounts.{Config, upsert_account, new}
use esmail.Config.Saved.{account_at, saved_over, account_at-upsert_in, account_at-upsert_in_other}
use esmail.AccountForm.{
  AccountForm, Field, Checked, accepted, refused_unless, with_port, with_auth, nonzero, parse_port,
  is_host, is_address, account_of, to_account, gmail_imap_host, id, email_field, password_field,
  imap_host_field, imap_port_field, smtp_host_field, smtp_port_field,
}

abbrev pub is_google : AuthKind → Bool
is_google password = false
is_google google_oauth = true

refused_unless-accepted :
    (ok : Bool) (field : Field) (rest : Checked) (a : AccountConfig)
    → refused_unless ok field rest ≡ accepted a
    → (ok ≡ true) × (rest ≡ accepted a)
refused_unless-accepted true field rest a e = (refl, e)
refused_unless-accepted false field rest a e = absurd (ground (arith, e))

with_port-accepted :
    (p : Option ℕ) (field : Field) (rest : ℕ → Checked) (a : AccountConfig)
    → with_port p field rest ≡ accepted a
    → (port : ℕ) × (p ≡ some port) × (rest port ≡ accepted a)
with_port-accepted none field rest a e = absurd (ground (arith, e))
with_port-accepted (some port) field rest a e = (port, refl, e)

with_auth-accepted :
    (auth : AuthKind) (secret host : Str) (rest : Checked) (a : AccountConfig)
    → with_auth auth secret host rest ≡ accepted a
    → ((is_google auth && not (str_eq host gmail_imap_host)) ≡ false) × (rest ≡ accepted a)
with_auth-accepted password secret host rest a e =
    (refl, (refused_unless-accepted (not (is_empty secret)) password_field rest a e).1)
with_auth-accepted google_oauth secret host rest a e =
    let (same, done) =
      refused_unless-accepted (str_eq host gmail_imap_host) imap_host_field rest a e in
    (ground (arith, same), done)

nonzero-positive : (p : Option ℕ) (port : ℕ) → nonzero p ≡ some port → 1 ≤ port
nonzero-positive none port e = absurd (ground (arith, e))
nonzero-positive (some q) port e = ground (arith, e)

parse_port-positive : (text : Str) (port : ℕ) → parse_port text ≡ some port → 1 ≤ port
unfolding parse_port
parse_port-positive text port e = nonzero-positive (parse_below 65536 (trim text)) port e

-- An account that a session can be started with.
abbrev pub IsUsable : AccountConfig → Type 0
IsUsable a =
    (is_address a.username ≡ true)
    × (is_host a.imap_host ≡ true)
    × (is_host a.smtp_host ≡ true)
    × (1 ≤ a.imap_port)
    × (1 ≤ a.smtp_port)
    × (a.imap_tls ≡ ssl)
    × ((is_google a.auth && not (str_eq a.imap_host gmail_imap_host)) ≡ false)

-- The id of the account that is edited, or of the address and the host.
abbrev pub id_for : AccountForm → Option AccountConfig → Str
id_for form none = id form
id_for form (some base) = base.id

account_of-id :
    (form : AccountForm) (base : Option AccountConfig) (p q : ℕ)
    → (account_of form base p q).id ≡ id_for form base
unfolding account_of id new
account_of-id form none p q = refl
account_of-id form (some base) p q = refl

account_of-IsUsable :
    (form : AccountForm) (base : Option AccountConfig) (p q : ℕ)
    → is_address (trim form.email) ≡ true
    → is_host (trim form.imap_host) ≡ true
    → is_host (trim form.smtp_host) ≡ true
    → 1 ≤ p
    → 1 ≤ q
    → (is_google form.auth && not (str_eq (trim form.imap_host) gmail_imap_host)) ≡ false
    → IsUsable (account_of form base p q)
unfolding account_of
account_of-IsUsable form base p q e f g h i j = (e, f, g, h, i, refl, j)

to_account-IsUsable :
    (form : AccountForm) (base : Option AccountConfig) (a : AccountConfig)
    → to_account form base ≡ accepted a
    → IsUsable a × (a.id ≡ id_for form base)
unfolding to_account
to_account-IsUsable form base a e =
    let (address, r1) = refused_unless-accepted (is_address (trim form.email)) email_field _ a e in
    let (imap, r2) =
      refused_unless-accepted (is_host (trim form.imap_host)) imap_host_field _ a r1 in
    let (p, imap_port, r3) =
      with_port-accepted (parse_port form.imap_port) imap_port_field _ a r2 in
    let (smtp, r4) =
      refused_unless-accepted (is_host (trim form.smtp_host)) smtp_host_field _ a r3 in
    let (q, smtp_port, r5) =
      with_port-accepted (parse_port form.smtp_port) smtp_port_field _ a r4 in
    let (auth, r6) =
      with_auth-accepted form.auth form.password (trim form.imap_host)
        (accepted (account_of form base p q)) a r5 in
    let same : account_of form base p q ≡ a = ground (arith, r6) in
    subst (λ x. IsUsable x × (x.id ≡ id_for form base)) same
      (
        account_of-IsUsable form base p q address imap smtp
            (parse_port-positive form.imap_port p imap_port)
            (parse_port-positive form.smtp_port q smtp_port) auth,
        account_of-id form base p q,
      )

saved_over-IsUsable :
    (a : AccountConfig) (old : Option AccountConfig) → IsUsable a → IsUsable (saved_over a old)
saved_over-IsUsable a none u = u
saved_over-IsUsable a (some old) u = u

-- An account that the form gives has an address, hosts and ports that can be used, TLS for IMAP, and
-- the sign-in with Google only with Gmail; it keeps the id of the account that is edited, and a new
-- one is named by the address and the host. Once it is saved, the configuration has it under its id,
-- still usable, with the mailbox to watch of the account before where the new one names none, and
-- every other account as before.
pub to_account-upsert_account :
    (form : AccountForm) (base : Option AccountConfig) (a : AccountConfig) (c : Config)
    (other : Str)
    → to_account form base ≡ accepted a
    → str_eq a.id other ≡ false
    → let accounts = (upsert_account a c).accounts in
      let stored = saved_over a (account_at a.id c.accounts) in
      (a.id ≡ id_for form base)
      × IsUsable stored
      × (account_at a.id accounts ≡ some stored)
      × (account_at other accounts ≡ account_at other c.accounts)
unfolding upsert_account
to_account-upsert_account form base a c other e ne =
    let (usable, same) = to_account-IsUsable form base a e in
    (
      same,
      saved_over-IsUsable a (account_at a.id c.accounts) usable,
      account_at-upsert_in a c.accounts,
      account_at-upsert_in_other a other c.accounts ne,
    )
