-- ===== src/Contacts/Offers.antt =====
-- Which suggestions crates/esmail/src/contacts.rs offers.
use esmail.Prelude.{
  ℕ, Bool, true, false, not, List, [], ◌∷◌, ◌++◌, Str, keep, All, starts_with, str_eq, is_empty,
  to_ascii_lowercase, trim, ◌≡◌, refl, ap, ap₂, ◌⊎◌, ◌↔◌, contains, str_eq_iff, take, ◌∙◌, arith,
  Bool-cases, inl, inr,
}
use esmail.Contacts.{
  Contact, addresses_in, is_taken, is_match, sort_by_key, matching_lower, matching,
}

-- A text that starts with the query, and one that has it somewhere.
abbrev pub Starts : Str → Str → Type 0
Starts query text = (behind : Str) × (text ≡ query ++ behind)

abbrev pub Occurs : Str → Str → Type 0
Occurs query text = (before : Str) × (behind : Str) × (text ≡ before ++ (query ++ behind))

-- A contact that may be suggested: its address is not in the field, and it has the query in its
-- address or, in lower case, in its display.
abbrev pub IsOffer : Str → List Str → Contact → Type 0
IsOffer query taken c =
    All (λ a. a ≡ c.address → ⊥) taken
    × (Occurs query c.address ⊎ Occurs query (to_ascii_lowercase c.display))

-- The contacts that may be suggested, in their order, as two lists: those whose address starts with
-- the query, and the others.
pub data Offers (query : Str) (taken : List Str)
    : List Contact → List Contact → List Contact → Type 0 where
  none_known : Offers query taken [] [] []
  first :
      (c : Contact) (cs xs ys : List Contact)
      → IsOffer query taken c
      → Starts query c.address
      → Offers query taken cs xs ys
      → Offers query taken (c ∷ cs) (c ∷ xs) ys
  later :
      (c : Contact) (cs xs ys : List Contact)
      → IsOffer query taken c
      → (Starts query c.address → ⊥)
      → Offers query taken cs xs ys
      → Offers query taken (c ∷ cs) xs (c ∷ ys)
  skipped :
      (c : Contact) (cs xs ys : List Contact)
      → (IsOffer query taken c → ⊥)
      → Offers query taken cs xs ys
      → Offers query taken (c ∷ cs) xs ys

starts_with-Starts : (text query : Str) → starts_with text query ≡ true → Starts query text
starts_with-Starts text [] h = (text, refl)
starts_with-Starts [] (q ∷ query) h = absurd (ground (arith, h))
starts_with-Starts (c ∷ text) (q ∷ query) h =
    let (behind, e) = starts_with-Starts text query (ground (arith, h)) in
    (behind, ap₂ (λ d r. d ∷ r) (ground (arith, h)) e)

starts_with-append : (query behind : Str) → starts_with (query ++ behind) query ≡ true
starts_with-append [] behind = refl
starts_with-append (q ∷ query) behind = ground (arith, starts_with-append query behind)

contains-Occurs : (text query : Str) → contains text query ≡ true → Occurs query text
contains-Occurs [] query h = let (behind, e) = starts_with-Starts [] query h in ([], behind, e)
contains-Occurs (c ∷ text) query h = elim (Bool-cases (starts_with (c ∷ text) query)) [
  | inl s ↦ let (behind, e) = starts_with-Starts (c ∷ text) query s in ([], behind, e)
  | inr s ↦
      let (before, behind, e) = contains-Occurs text query (ground (arith, h, s)) in
      (c ∷ before, behind, ap (λ r. c ∷ r) e)
]

contains-append : (before query behind : Str) → contains (before ++ (query ++ behind)) query ≡ true
contains-append (c ∷ before) query behind = ground (arith, contains-append before query behind)
contains-append [] [] [] = refl
contains-append [] [] (c ∷ behind) = refl
contains-append [] (q ∷ query) behind = ground (arith, starts_with-append (q ∷ query) behind)

Starts-iff : (query text : Str) → (starts_with text query ≡ true) ↔ Starts query text
Starts-iff query text = (
  starts_with-Starts text query,
  λ (behind, e). ap (λ t. starts_with t query) e ∙ starts_with-append query behind,
)

Occurs-iff : (query text : Str) → (contains text query ≡ true) ↔ Occurs query text
Occurs-iff query text = (
  contains-Occurs text query,
  λ (before, behind, e). ap (λ t. contains t query) e ∙ contains-append before query behind,
)

is_taken-All :
    (taken : List Str) (c : Contact)
    → (is_taken taken c ≡ false) ↔ All (λ a. a ≡ c.address → ⊥) taken
is_taken-All [] c = (λ h. tt, λ h. refl)
is_taken-All (a ∷ taken) c = (
  λ h. (
    λ e. absurd (ground (arith, h, (str_eq_iff a c.address).1 e)),
    (is_taken-All taken c).0 (ground (arith, h)),
  ),
  λ h. elim (Bool-cases (str_eq a c.address)) [
    | inl e ↦ absurd (h.0 ((str_eq_iff a c.address).0 e))
    | inr e ↦ ground (arith, e, (is_taken-All taken c).1 h.1)
  ],
)

is_match_iff :
    (query : Str) (c : Contact)
    → (is_match query c ≡ true)
      ↔ (Occurs query c.address ⊎ Occurs query (to_ascii_lowercase c.display))
is_match_iff query c =
    let address = Occurs-iff query c.address in
    let display = Occurs-iff query (to_ascii_lowercase c.display) in
    (
      λ h. elim (Bool-cases (contains c.address query)) [
        | inl e ↦ inl (address.0 e)
        | inr e ↦ inr (display.0 (ground (arith, h, e)))
      ],
      λ h. elim h [ inl e ↦ ground (arith, address.1 e) | inr e ↦ ground (arith, display.1 e) ],
    )

abbrev offers : Str → List Str → List Contact → List Contact
offers query taken cs = keep (is_match query) (keep (λ c. not (is_taken taken c)) cs)

abbrev comes_later : Str → Contact → Bool
comes_later query c = not (starts_with c.address query)

-- The program's tests split the contacts so.
offers-Offers :
    (query : Str) (taken : List Str) (cs : List Contact)
    → Offers query taken cs
        (keep (λ c. not (comes_later query c)) (offers query taken cs))
        (keep (comes_later query) (offers query taken cs))
offers-Offers query taken [] = none_known
offers-Offers query taken (c ∷ cs) =
    let rest = offers-Offers query taken cs in
    let free = is_taken-All taken c in
    let match = is_match_iff query c in
    let starts = Starts-iff query c.address in
    elim (Bool-cases (is_taken taken c)) [
      | inl t ↦ rw (t, keep) (skipped c cs _ _ (λ o. absurd (ground (arith, t, free.1 o.0))) rest)
      | inr t ↦ elim (Bool-cases (is_match query c)) [
        | inr m ↦
            rw (t, keep, m) (skipped c cs _ _ (λ o. absurd (ground (arith, m, match.1 o.1))) rest)
        | inl m ↦ elim (Bool-cases (starts_with c.address query)) [
          | inl s ↦ rw (t, keep, m, s) (first c cs _ _ (free.0 t, match.0 m) (starts.0 s) rest)
          | inr s ↦
              rw (t, keep, m, s)
                (later c cs _ _ (free.0 t, match.0 m) (λ o. absurd (ground (arith, s, starts.1 o)))
                  rest)
        ]
      ]
    ]

-- For a query that has a character once it is trimmed, in lower case: the suggestions are the first
-- contacts, as many as the limit allows, of all that may be suggested, where those whose address
-- starts with the query come first and each kind keeps its order.
pub matching-Offers :
    (query field : Str) (limit : ℕ) (cs : List Contact)
    → is_empty (to_ascii_lowercase (trim query)) ≡ false
    → (xs : List Contact) × (ys : List Contact) × Offers
        (to_ascii_lowercase (trim query))
        (addresses_in field)
        cs
        xs
        ys
      × (matching query field limit cs ≡ take limit (xs ++ ys))
unfolding matching matching_lower sort_by_key
matching-Offers query field limit cs h =
    let wanted = to_ascii_lowercase (trim query) in
    let taken = addresses_in field in
    (
      keep (λ c. not (comes_later wanted c)) (offers wanted taken cs),
      keep (comes_later wanted) (offers wanted taken cs),
      offers-Offers wanted taken cs,
      rw h refl,
    )
