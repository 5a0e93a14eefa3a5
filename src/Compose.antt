-- ===== src/Compose.antt =====
-- crates/esmail/src/compose.rs: the message that a compose window starts from.
pub mod Subject
pub mod Recipients
use esmail.Prelude.{
  ℕ, Bool, true, false, not, ◌&&◌, Option, none, some, List, [], ◌∷◌, ◌++◌, map, Str, codes,
  is_empty, length, take, keep, join, split, trim, trim_start, contains, eq_ignore_ascii_case,
  strip_suffix, unwrap_or, ◌==◌, if◌then◌else◌, concat, Bytes, flush_piece,
}
use esmail.Prelude.Int.{ℤ}
use esmail.Mail.{MailHeader}

pub record ComposeState : Type 0 where
  pub to : Str
  pub cc : Str
  pub bcc : Str
  pub subject : Str
  pub body : Str
  pub in_reply_to : Option Str
  pub references : Option Str
  pub attachments : List (Str × Bytes)
  pub account_id : Option Str
  pub draft_id : Option ℤ  -- i64

unfoldable pub with_account : Option Str → ComposeState → ComposeState
with_account account_id s = record s { account_id = account_id }

-- The prefix is ASCII, so that `get(..prefix.len())` counts characters where it matches.
abbrev pub has_prefix : Str → Str → Bool
has_prefix subject prefix = eq_ignore_ascii_case (take (length prefix) (trim_start subject)) prefix

unfoldable pub add_prefix : Str → Str → Str
add_prefix subject prefix =
    if has_prefix subject prefix then subject else prefix ++ (codes " " ++ subject)

unfoldable pub split_addresses : Str → List Str
split_addresses field = keep (λ a. not (is_empty a)) (map trim (split b',' field))

abbrev pub addresses_match : Str → Str → Bool
addresses_match address my_address = not (is_empty my_address) && contains address my_address

unfoldable pub non_empty : Str → Option Str
non_empty s = if is_empty s then none else some s

-- `str::lines`, with the line read so far: a carriage return before a line feed goes with it.
unfoldable pub lines_from : Str → Str → List Str
lines_from current [] = flush_piece current []
lines_from current (c ∷ s) =
    let ended = unwrap_or (strip_suffix current (codes "\r")) current ∷ lines_from [] s in
    let pushed = lines_from (current ++ c ∷ []) s in if c == b'\n' then ended else pushed

-- `clean` is the sanitizer's, which leaves text without tags.
unfoldable pub quote_original : (Str → Str) → MailHeader → Str → Str
unfolding lines_from
quote_original clean original original_body_html =
    let quoted_lines = map (λ l. codes "> " ++ l) (lines_from [] (clean original_body_html)) in
    concat (
      codes "\n\nOn "
      ∷ original.date
      ∷ codes ", "
      ∷ original.from
      ∷ codes " wrote:\n"
      ∷ join quoted_lines (codes "\n")
      ∷ [])

unfoldable pub from_original : (Str → Str) → MailHeader → Str → Str → ComposeState
unfolding add_prefix quote_original non_empty
from_original clean original original_body_html cc = record {
  to = original.from;
  cc = cc;
  bcc = [];
  subject = add_prefix original.subject (codes "Re:");
  body = quote_original clean original original_body_html;
  in_reply_to = non_empty original.message_id;
  references = non_empty original.message_id;
  attachments = [];
  account_id = none;
  draft_id = none;
}

unfoldable pub reply : (Str → Str) → MailHeader → Str → ComposeState
unfolding from_original
reply clean original original_body_html = from_original clean original original_body_html []

unfoldable pub reply_all : (Str → Str) → MailHeader → Str → Str → ComposeState
unfolding from_original split_addresses
reply_all clean original original_body_html my_address =
    from_original clean original original_body_html (
      join (keep (λ a. not (addresses_match a my_address)) (split_addresses original.to))
        (codes ", "))

unfoldable pub forward : (Str → Str) → MailHeader → Str → ComposeState
unfolding add_prefix quote_original
forward clean original original_body_html = record {
  to = [];
  cc = [];
  bcc = [];
  subject = add_prefix original.subject (codes "Fwd:");
  body = quote_original clean original original_body_html;
  in_reply_to = none;
  references = none;
  attachments = [];
  account_id = none;
  draft_id = none;
}
