-- ===== src/Contacts.antt =====
-- crates/esmail/src/contacts.rs: the suggestions for recipients, and the edits of a recipient field.
-- A text is its characters, as in the code.
pub mod Suggestions
pub mod Offers
pub mod Completion
use esmail.Prelude.{
  ℕ, suc, ◌+◌, ◌-◌, min, Bool, true, false, not, ◌||◌, Option, none, some, List, [], ◌∷◌, ◌++◌, map,
  Str, codes, is_empty, length, take, drop, keep, any, position, trim, trim_start, is_whitespace,
  contains, starts_with, str_eq, to_ascii_lowercase, eq_ignore_ascii_case, ◌==◌, ltb, if◌then◌else◌,
}
use esmail.Mail.{MailHeader, address_of, rfind}
use esmail.Compose.{split_addresses}

pub record Contact : Type 0 where
  pub address : Str
  pub display : Str

unfoldable pub contact_from_field : Str → Option Contact
unfolding address_of
contact_from_field field = elim (address_of (trim field)) [
  | none ↦ none
  | some a ↦ some (record { address = a; display = trim field })
]

-- A known address keeps its place; its display is replaced while it is the bare address.
unfoldable pub add : Contact → List Contact → List Contact
add contact [] = contact ∷ []
add contact (c ∷ cs) =
    let later = add contact cs in
    if str_eq c.address contact.address
    then (if eq_ignore_ascii_case c.display c.address
        then record c { display = contact.display }
        else c)
      ∷ cs
    else c ∷ later

unfoldable pub add_found : Option Contact → List Contact → List Contact
unfolding add
add_found none cs = cs
add_found (some contact) cs = add contact cs

-- The entries in turn.
unfoldable pub add_entries : List Str → List Contact → List Contact
unfolding add_found contact_from_field
add_entries [] cs = cs
add_entries (entry ∷ entries) cs = add_entries entries (add_found (contact_from_field entry) cs)

unfoldable pub add_headers : List MailHeader → List Contact → List Contact
unfolding add_entries split_addresses
add_headers [] cs = cs
add_headers (h ∷ hs) cs =
    add_headers hs (add_entries (split_addresses h.from ++ split_addresses h.to) cs)

unfoldable pub from_headers : List MailHeader → List Str → List Contact
unfolding add_headers add_entries
from_headers headers own_addresses = add_headers headers (add_entries own_addresses [])

unfoldable pub found_addresses : List Str → List Str
unfolding contact_from_field
found_addresses [] = []
found_addresses (entry ∷ entries) =
    let rest = found_addresses entries in
    elim (contact_from_field entry) [ none ↦ rest | some c ↦ c.address ∷ rest ]

unfoldable pub addresses_in : Str → List Str
unfolding found_addresses split_addresses
addresses_in field = found_addresses (split_addresses field)

abbrev pub is_taken : List Str → Contact → Bool
is_taken taken c = any (λ a. str_eq a c.address) taken

abbrev pub is_match : Str → Contact → Bool
is_match query c = contains c.address query || contains (to_ascii_lowercase c.display) query

-- `sort_by_key` with a Boolean key: it is stable, and false comes before true.
unfoldable pub sort_by_key : (Contact → Bool) → List Contact → List Contact
sort_by_key key cs = keep (λ c. not (key c)) cs ++ keep key cs

unfoldable pub matching_lower : Str → List Str → ℕ → List Contact → List Contact
unfolding sort_by_key
matching_lower query taken limit cs =
    if is_empty query
    then []
    else take limit (
        sort_by_key (λ c. not (starts_with c.address query))
          (keep (is_match query) (keep (λ c. not (is_taken taken c)) cs)))

unfoldable pub matching : Str → Str → ℕ → List Contact → List Contact
unfolding matching_lower addresses_in
matching query field limit cs =
    matching_lower (to_ascii_lowercase (trim query)) (addresses_in field) limit cs

abbrev pub start_after : Option ℕ → ℕ
start_after none = 0
start_after (some i) = suc i

abbrev pub end_before : ℕ → ℕ → Option ℕ → ℕ
end_before len cursor none = len
end_before len cursor (some i) = cursor + i

unfoldable pub token_bounds : Str → ℕ → ℕ × ℕ
unfolding rfind
token_bounds chars cursor =
    let at = min cursor (length chars) in
    (
      start_after (rfind b',' (take at chars)),
      end_before (length chars) at (position (λ c. c == b',') (drop at chars)),
    )

-- The slice from `start` to `end`; the loops drop the whitespace at its ends.
unfoldable pub recipient_token : Str → ℕ → Str
unfolding token_bounds
recipient_token text cursor =
    let (start, end) = token_bounds text cursor in trim (drop start (take end text))

unfoldable pub complete_at : Str → ℕ × ℕ → Str → Str × ℕ
complete_at chars (start, end) insertion = (
  take start chars
      ++ ((if ltb 0 start then codes " " else [])
          ++ (insertion
              ++ (codes ", "
                  ++ (if ltb end (length chars) then trim_start (drop (suc end) chars) else [])))),
  start + (if ltb 0 start then 1 else 0) + length insertion + 2,
)

unfoldable pub complete_recipient : Str → ℕ → Str → Str × ℕ
unfolding complete_at token_bounds
complete_recipient text cursor insertion = complete_at text (token_bounds text cursor) insertion
