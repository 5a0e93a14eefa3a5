-- ===== src/Mail.antt =====
-- crates/esmail/src/imap.rs, the message header, and crates/esmail/src/view_model.rs, the row that
-- the message list shows for it. The date's conversion to local time is the date library's.
use esmail.Prelude.{
  ℕ, suc, Bool, Option, none, some, List, [], ◌∷◌, Str, codes, is_empty, ◌==◌, ◌&&◌, not, any,
  if◌then◌else◌, trim, take, drop, split_once, to_ascii_lowercase, eq_ignore_ascii_case, ltb,
}
use mathlib.Core.List.{reverse}

pub record MailHeader : Type 0 where
  pub uid : ℕ  -- u32
  pub subject : Str
  pub from : Str
  pub to : Str
  pub date : Str
  pub message_id : Str
  pub flags : List Str

abbrev pub flag_seen : Str
flag_seen = codes "\\Seen"

abbrev pub flag_flagged : Str
flag_flagged = codes "\\Flagged"

-- `str::rfind` with a character, as an index of the list.
unfoldable pub rfind : ℕ → Str → Option ℕ
rfind c [] = none
rfind c (x ∷ xs) =
    let rest = rfind c xs in
    elim rest [ some i ↦ some (suc i) | none ↦ if x == c then some 0 else none ]

-- `trim_matches` and `trim_end_matches` with a character.
abbrev pub trim_start_matches : ℕ → Str → Str
trim_start_matches c [] = []
trim_start_matches c (x ∷ xs) =
    let rest = trim_start_matches c xs in if x == c then rest else x ∷ xs

abbrev pub trim_end_matches : ℕ → Str → Str
trim_end_matches c s = reverse (trim_start_matches c (reverse s))

-- The slice between the last `<` and the last `>`, where they stand in this order.
unfoldable pub bracketed : Option ℕ → Option ℕ → Str → Str
bracketed (some open_at) (some close_at) from =
    if ltb open_at close_at then drop (suc open_at) (take close_at from) else from
bracketed (some open_at) none from = from
bracketed none close_at from = from

-- Both halves of the address must be there.
unfoldable pub checked_address : Str → Option (Str × Str) → Option Str
checked_address addr none = none
checked_address addr (some (local, domain)) =
    if not (is_empty local) && not (is_empty domain) then some (to_ascii_lowercase addr) else none

unfoldable pub address_of : Str → Option Str
unfolding bracketed rfind checked_address
address_of field =
    let from = trim field in
    let addr = trim (bracketed (rfind b'<' from) (rfind b'>' from) from) in
    checked_address addr (split_once b'@' addr)

name_at : Option ℕ → Str → Str
name_at none from = from
name_at (some open_at) from =
    let name = trim (trim_end_matches b'"' (trim_start_matches b'"' (trim (take open_at from)))) in
    let inner = trim (trim_end_matches b'>' (drop (suc open_at) from)) in
    if not (is_empty name) then name else if not (is_empty inner) then inner else from

unfoldable pub display_name_of : Str → Str
unfolding name_at rfind
display_name_of field = let from = trim field in name_at (rfind b'<' from) from

unfoldable pub is_seen : MailHeader → Bool
is_seen h = any (λ f. eq_ignore_ascii_case f flag_seen) h.flags

unfoldable pub is_flagged : MailHeader → Bool
is_flagged h = any (λ f. eq_ignore_ascii_case f flag_flagged) h.flags

unfoldable pub sender_address : MailHeader → Option Str
unfolding address_of
sender_address h = address_of h.from

unfoldable pub sender_name : MailHeader → Str
unfolding display_name_of
sender_name h = display_name_of h.from

pub record RowModel : Type 0 where
  pub sender : Str
  pub subject : Str
  pub from : Str
  pub raw_subject : Str
  pub raw_date : Str
  pub local_date_time : Option (Str × Str)
  pub seen : Bool
  pub flagged : Bool

-- `zone` is `format_date_time` with the local zone: the day and the time of a `Date` header.
unfoldable pub from_header : (Str → Option (Str × Str)) → MailHeader → RowModel
unfolding sender_name is_seen is_flagged
from_header zone header = record {
  sender = if is_empty (sender_name header) then codes "(unknown sender)" else sender_name header;
  subject = if is_empty header.subject then codes "(no subject)" else header.subject;
  from = header.from;
  raw_subject = header.subject;
  raw_date = header.date;
  local_date_time = zone header.date;
  seen = is_seen header;
  flagged = is_flagged header;
}
