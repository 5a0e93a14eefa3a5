-- ===== src/Links.antt =====
-- crates/esmail-win32/src/core_glue/links.rs: what a click on a link in the reading pane does. The
-- reasons of a refusal are left out. usize is 64 bits wide.
pub mod Utf8
pub mod Safe
use esmail.Prelude.{
  ℕ, zero, suc, ◌+◌, ◌*◌, ◌-◌, Bool, true, false, not, ◌&&◌, ◌||◌, Option, none, some, List, [],
  ◌∷◌, ◌++◌, Str, codes, Bytes, as_bytes, is_empty, str_eq, eq_ignore_ascii_case, any, contains,
  starts_with, is_whitespace, trim, split, split_once, to_ascii_lowercase, length, ltb, leb, ◌==◌,
  if◌then◌else◌, unwrap_or, u64_mod,
}
use esmail.Prelude.Decimal.{to_string, parse_below}
use esmail.Notify.{is_control}
use esmail.Links.Utf8.{from_utf8_lossy}

abbrev pub attachment_scheme : Str
attachment_scheme = codes "esmail-attachment"

abbrev pub reconnect_scheme : Str
reconnect_scheme = codes "esmail-reconnect"

abbrev pub max_link_bytes : ℕ
max_link_bytes = 8192

pub data LinkAction : Type 0 where
  browser : Str → LinkAction
  mail_to : Str → Option Str → LinkAction  -- to, subject
  save_attachment open_attachment reconnect : ℕ → LinkAction
  save_all_attachments refuse : LinkAction

unfoldable pub save_href : ℕ → Str
save_href n = attachment_scheme ++ (codes ":save/" ++ to_string n)

unfoldable pub open_href : ℕ → Str
open_href n = attachment_scheme ++ (codes ":open/" ++ to_string n)

unfoldable pub save_all_href : Str
save_all_href = attachment_scheme ++ codes ":save-all"

unfoldable pub reconnect_href : ℕ → Str
reconnect_href account = reconnect_scheme ++ (codes ":" ++ to_string account)

-- `u8::from_str_radix` of two digits; a plus sign in front of one digit is taken as well.
abbrev pub hex_digit : ℕ → Option ℕ
hex_digit c =
    if leb b'0' c && leb c b'9'
    then some (c - b'0')
    else if leb b'a' c && leb c b'f'
    then some (c - b'a' + 10)
    else if leb b'A' c && leb c b'F'
    then some (c - b'A' + 10)
    else none

abbrev pub hex_pair : Option ℕ → Option ℕ → Option ℕ
hex_pair (some a) (some b) = some (a * 16 + b)
hex_pair (some a) none = none
hex_pair none b = none

unfoldable pub hex_byte : ℕ → ℕ → Option ℕ
hex_byte c d = if c == b'+' then hex_digit d else hex_pair (hex_digit c) (hex_digit d)

abbrev pub escape_at : ℕ → Bytes → Option ℕ
escape_at c (d ∷ e ∷ bytes) = if c == b'%' then hex_byte d e else none
escape_at c _ = none

-- The loop: `skip` bytes of an escape are left to pass over.
unfoldable pub decode_from : ℕ → Bytes → Bytes
unfolding hex_byte
decode_from skip [] = []
decode_from (suc skip) (c ∷ bytes) = decode_from skip bytes
decode_from zero (c ∷ bytes) =
    let escaped = decode_from 2 bytes in
    let plain = decode_from 0 bytes in
    elim (escape_at c bytes) [ some byte ↦ byte ∷ escaped | none ↦ c ∷ plain ]

unfoldable pub percent_decode : Str → Str
unfolding decode_from
percent_decode text = from_utf8_lossy (decode_from 0 (as_bytes text))

-- The `find_map` of the fields of the query.
abbrev pub subject_field : Option (Str × Str) → Option Str → Option Str
subject_field none rest = rest
subject_field (some (name, value)) rest =
    if eq_ignore_ascii_case name (codes "subject") then some (percent_decode value) else rest

unfoldable pub subject_in : List Str → Option Str
unfolding percent_decode
subject_in [] = none
subject_in (pair ∷ pairs) = subject_field (split_once b'=' pair) (subject_in pairs)

unfoldable pub mail : Str → LinkAction
unfolding percent_decode subject_in
mail rest =
    let (address, query) = unwrap_or (split_once b'?' rest) (rest, codes "") in
    let to = percent_decode address in
    if contains to (codes "@") then mail_to to (subject_in (split b'&' query)) else refuse

abbrev pub numbered : (ℕ → LinkAction) → Option ℕ → LinkAction
numbered action none = refuse
numbered action (some n) = action n

abbrev pub attachment_at : Str → Option (Str × Str) → LinkAction
attachment_at rest none = if str_eq rest (codes "save-all") then save_all_attachments else refuse
attachment_at rest (some (verb, n)) =
    if str_eq verb (codes "save")
    then numbered save_attachment (parse_below u64_mod n)
    else if str_eq verb (codes "open")
    then numbered open_attachment (parse_below u64_mod n)
    else refuse

unfoldable pub attachment : Str → LinkAction
attachment rest = attachment_at rest (split_once b'/' rest)

abbrev pub is_malformed : Str → Bool
is_malformed href =
    ltb max_link_bytes (length (as_bytes href)) || any (λ c. is_control c || is_whitespace c) href

unfoldable pub by_scheme : Str → Option (Str × Str) → LinkAction
unfolding mail attachment
by_scheme href none = refuse
by_scheme href (some (prefix, rest)) =
    let scheme = to_ascii_lowercase prefix in
    if (str_eq scheme (codes "http") || str_eq scheme (codes "https"))
      && starts_with rest (codes "//")
      && ltb 2 (length (as_bytes rest))
    then browser href
    else if str_eq scheme (codes "mailto")
    then mail rest
    else if str_eq scheme attachment_scheme
    then attachment rest
    else if str_eq scheme reconnect_scheme
    then numbered reconnect (parse_below u64_mod rest)
    else refuse

unfoldable pub classify : Str → LinkAction
unfolding by_scheme
classify text =
    let href = trim text in
    if is_malformed href then refuse else by_scheme href (split_once b':' href)
