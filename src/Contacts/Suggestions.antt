-- ===== src/Contacts/Suggestions.antt =====
-- Which suggestions crates/esmail/src/contacts.rs collects.
use esmail.Prelude.{
  Bool, false, Option, none, some, List, [], ◌∷◌, ◌++◌, Str, any, str_eq, ◌≡◌, refl, sym, ◌∙◌,
  arith, Bool-cases, inl, inr,
}
use esmail.Mail.{MailHeader}
use esmail.Compose.{split_addresses}
use esmail.Contacts.{
  Contact, contact_from_field, add, add_found, add_entries, add_headers, from_headers,
}

abbrev pub has_address : Str → List Contact → Bool
has_address a cs = any (λ c. str_eq c.address a) cs

-- No two contacts have the same address.
abbrev pub IsDistinct : List Contact → Type 0
IsDistinct [] = Unit
IsDistinct (c ∷ cs) = (has_address c.address cs ≡ false) × IsDistinct cs

has_address-add :
    (a : Str) (contact : Contact) (cs : List Contact)
    → has_address a cs ≡ false
    → str_eq contact.address a ≡ false
    → has_address a (add contact cs) ≡ false
unfolding add
has_address-add a contact [] h k = ground arith
has_address-add a contact (c ∷ cs) h k = ground (arith, has_address-add a contact cs)

str_eq_sym : (s t : Str) → str_eq s t ≡ str_eq t s
str_eq_sym [] [] = refl
str_eq_sym [] (y ∷ ys) = refl
str_eq_sym (x ∷ xs) [] = refl
str_eq_sym (x ∷ xs) (y ∷ ys) = ground (arith, str_eq_sym xs ys)

add-IsDistinct :
    (contact : Contact) (cs : List Contact) → IsDistinct cs → IsDistinct (add contact cs)
unfolding add
add-IsDistinct contact [] h = (refl, tt)
add-IsDistinct contact (c ∷ cs) (fresh, h) = elim (Bool-cases (str_eq c.address contact.address)) [
  | inl e ↦ rw e (ground arith)
  | inr e ↦ rw e (
    has_address-add c.address contact cs fresh (sym (str_eq_sym c.address contact.address) ∙ e),
    add-IsDistinct contact cs h,
  )
]

add_found-IsDistinct :
    (found : Option Contact) (cs : List Contact) → IsDistinct cs → IsDistinct (add_found found cs)
unfolding add_found
add_found-IsDistinct none cs h = h
add_found-IsDistinct (some contact) cs h = add-IsDistinct contact cs h

add_entries-IsDistinct :
    (entries : List Str) (cs : List Contact) → IsDistinct cs → IsDistinct (add_entries entries cs)
unfolding add_entries
add_entries-IsDistinct [] cs h = h
add_entries-IsDistinct (entry ∷ entries) cs h =
    add_entries-IsDistinct entries _ (add_found-IsDistinct (contact_from_field entry) cs h)

add_headers-IsDistinct :
    (hs : List MailHeader) (cs : List Contact) → IsDistinct cs → IsDistinct (add_headers hs cs)
unfolding add_headers
add_headers-IsDistinct [] cs h = h
add_headers-IsDistinct (m ∷ ms) cs h =
    add_headers-IsDistinct ms _
      (add_entries-IsDistinct (split_addresses m.from ++ split_addresses m.to) cs h)

-- Whatever the headers and the accounts' own addresses are, no two of the contacts that they give
-- have the same address.
pub from_headers-IsDistinct :
    (headers : List MailHeader) (own_addresses : List Str)
    → IsDistinct (from_headers headers own_addresses)
unfolding from_headers
from_headers-IsDistinct headers own_addresses =
    add_headers-IsDistinct headers _ (add_entries-IsDistinct own_addresses [] tt)
