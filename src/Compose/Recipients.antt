-- ===== src/Compose/Recipients.antt =====
-- The recipients of a reply to all, for crates/esmail/src/compose.rs.
use esmail.Prelude.{
  not-true, ℕ, Bool, false, not, List, [], ◌∷◌, ◌++◌, map, Str, codes, is_empty, keep, any, All,
  All-keep, All-keep_where, split, split_go, join, trim, trim-trim, any-trim, ◌==◌, ◌≡◌, refl, ap,
  ◌∙◌, arith, Bool-cases, inl, inr,
}
use esmail.Mail.{MailHeader}
use esmail.Compose.{split_addresses, addresses_match, reply_all, from_original}

abbrev is_comma : ℕ → Bool
is_comma c = c == b','

-- An entry of a recipient field: it has a character, no comma, and no space at its ends.
abbrev pub IsEntry : Str → Type 0
IsEntry e = (is_empty e ≡ false) × (trim e ≡ e) × (any is_comma e ≡ false)

split_go-no_comma : (e : Str) → any is_comma e ≡ false → split_go b',' e ≡ (e, [])
split_go-no_comma [] h = refl
split_go-no_comma (c ∷ e) h =
    let other : (c == b',') ≡ false = ground arith in
    rw (other, split_go)
      (ap (λ (r : Str × List Str). (c ∷ r.0, r.1)) (split_go-no_comma e (ground arith)))

split_go-comma :
    (e s : Str) → any is_comma e ≡ false → split_go b',' (e ++ b',' ∷ s) ≡ (e, split b',' s)
split_go-comma [] s h = refl
split_go-comma (c ∷ e) s h =
    let other : (c == b',') ≡ false = ground arith in
    rw (other, split_go)
      (ap (λ (r : Str × List Str). (c ∷ r.0, r.1)) (split_go-comma e s (ground arith)))

-- No piece has the separator.
split_go-pieces :
    (s : Str)
    → (any is_comma (split_go b',' s).0 ≡ false)
      × All (λ e. any is_comma e ≡ false) (split_go b',' s).1
split_go-pieces [] = (refl, tt)
split_go-pieces (c ∷ s) = elim (Bool-cases (c == b',')) [
  | inl e ↦ rw (e, split_go) (refl, split_go-pieces s)
  | inr e ↦ let (h, k) = split_go-pieces s in rw (e, split_go) (rw (e, any) h, k)
]

abbrev IsTrimmed : Str → Type 0
IsTrimmed e = (trim e ≡ e) × (any is_comma e ≡ false)

IsTrimmed-pieces :
    (es : List Str) → All (λ e. any is_comma e ≡ false) es → All IsTrimmed (map trim es)
IsTrimmed-pieces [] h = tt
IsTrimmed-pieces (e ∷ es) (h, k) = ((trim-trim e, any-trim is_comma e h), IsTrimmed-pieces es k)

-- What a field is split into are entries.
split_addresses-IsEntry : (field : Str) → All IsEntry (split_addresses field)
unfolding split_addresses
split_addresses-IsEntry field =
    All-keep_where IsEntry (λ a. not (is_empty a)) (map trim (split b',' field))
      (λ e trimmed full. (not-true (is_empty e) full, trimmed.0, trimmed.1))
      (IsTrimmed-pieces (split b',' field) (split_go-pieces field))

abbrev cleaned : List Str → List Str
cleaned pieces = keep (λ a. not (is_empty a)) (map trim pieces)

keep-full :
    (e : Str) (rest : List Str)
    → is_empty e ≡ false
    → keep (λ a. not (is_empty a)) (e ∷ rest) ≡ e ∷ keep (λ a. not (is_empty a)) rest
keep-full e rest full = rw (full, keep) refl

cleaned-entry :
    (e : Str) (pieces : List Str)
    → is_empty e ≡ false
    → trim e ≡ e
    → cleaned (e ∷ pieces) ≡ e ∷ cleaned pieces
cleaned-entry e pieces full clean =
    ap (λ t. keep (λ a. not (is_empty a)) (t ∷ map trim pieces)) clean
    ∙ keep-full e (map trim pieces) full

-- Entries with ", " between each two are split into themselves.
split_addresses-join :
    (es : List Str) → All IsEntry es → split_addresses (join es (codes ", ")) ≡ es
unfolding split_addresses
split_addresses-join [] h = refl
split_addresses-join (e ∷ []) ((full, clean, no_comma), h) =
    ap (λ r. cleaned (r.0 ∷ r.1)) (split_go-no_comma e no_comma) ∙ cleaned-entry e [] full clean
split_addresses-join (e ∷ f ∷ es) ((full, clean, no_comma), h) =
    let rest = join (f ∷ es) (codes ", ") in
    ap (λ r. cleaned (r.0 ∷ r.1)) (split_go-comma e (b' ' ∷ rest) no_comma)
    ∙ cleaned-entry e (split b',' (b' ' ∷ rest)) full clean
    ∙ ap (λ more. e ∷ more) (split_addresses-join (f ∷ es) h)

abbrev pub others : Str → List Str → List Str
others my_address = keep (λ a. not (addresses_match a my_address))

-- The Cc of a reply to all, split again into its entries, has all the entries of the message's To, in
-- order, but those that match the own address.
pub reply_all-cc :
    (clean : Str → Str) (h : MailHeader) (html my_address : Str)
    → split_addresses (reply_all clean h html my_address).cc
      ≡ others my_address (split_addresses h.to)
unfolding reply_all from_original
reply_all-cc clean h html my_address =
    split_addresses-join (others my_address (split_addresses h.to)) (
      All-keep IsEntry (λ a. not (addresses_match a my_address)) (split_addresses h.to)
        (split_addresses-IsEntry h.to))
