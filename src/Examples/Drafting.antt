-- ===== src/Examples/Drafting.antt =====
-- Examples of crates/esmail/src/compose.rs, crates/esmail/src/contacts.rs and
-- crates/esmail/src/view_model.rs.
use esmail.Prelude.{some, List, [], ◌∷◌, ◌++◌, codes, take, ◌≡◌, refl}
use esmail.Mail.{MailHeader}
use esmail.Compose.{split_addresses, reply_all}
use esmail.Compose.Recipients.{others, reply_all-cc}
use esmail.ViewModel.{safe_attachment_filename}
use esmail.ViewModel.Names.{IsSafe, IsNamed, safe_attachment_filename-IsSafe}
use esmail.Contacts.{Contact, from_headers, addresses_in, matching, complete_recipient}
use esmail.Contacts.Suggestions.{IsDistinct, from_headers-IsDistinct}
use esmail.Contacts.Offers.{Offers, matching-Offers}
use esmail.Contacts.Completion.{complete_recipient-around}

abbrev message : MailHeader
message = record {
  uid = 1;
  subject = codes "Dinner";
  from = codes "Al <al@x.org>";
  to = codes "Bo <bo@x.org>, cy@x.org ,al@x.org";
  date = codes "Mon, 1 Jan 2026 12:00:00 +0000";
  message_id = codes "<1@x.org>";
  flags = [];
}

reply_all-cc_example :
    split_addresses (reply_all (λ s. s) message (codes "body") (codes "bo@x.org")).cc
    ≡ others (codes "bo@x.org") (split_addresses message.to)
reply_all-cc_example = reply_all-cc (λ s. s) message (codes "body") (codes "bo@x.org")

from_headers-IsDistinct_example : IsDistinct (from_headers (message ∷ []) (codes "bo@x.org" ∷ []))
from_headers-IsDistinct_example = from_headers-IsDistinct (message ∷ []) (codes "bo@x.org" ∷ [])

abbrev known : List Contact
known = from_headers (message ∷ []) (codes "bo@x.org" ∷ [])

matching-Offers_example :
    (xs : List Contact) × (ys : List Contact) × Offers
      (codes "x.org")
      (addresses_in (codes "bo@x.org, "))
      known
      xs
      ys
    × (matching (codes "X.org ") (codes "bo@x.org, ") 1 known ≡ take 1 (xs ++ ys))
matching-Offers_example = matching-Offers (codes "X.org ") (codes "bo@x.org, ") 1 known refl

complete_recipient-around_example :
    complete_recipient (codes "al@x.org, bo, cy") 11 (codes "Bo <bo@x.org>")
    ≡ (codes "al@x.org, Bo <bo@x.org>, cy", 25)
complete_recipient-around_example =
    complete_recipient-around (some (codes "al@x.org")) (codes " b") (codes "o")
      (some (codes " cy")) (codes "Bo <bo@x.org>") refl refl

safe_attachment_filename-IsSafe_example :
    IsSafe (safe_attachment_filename (codes "..\\a/evil.exe"))
    × IsNamed (codes "..\\a/evil.exe") (safe_attachment_filename (codes "..\\a/evil.exe"))
safe_attachment_filename-IsSafe_example = safe_attachment_filename-IsSafe (codes "..\\a/evil.exe")
