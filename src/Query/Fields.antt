-- ===== src/Query/Fields.antt =====
-- A query written out from its terms parses into these terms.
use esmail.Prelude.{
  ℕ, ◌≡◌, ◌∙◌, refl, ap, true, false, Option, none, some, List, [], ◌∷◌, ◌++◌, map, Str, codes,
  join, arith, ◌==◌, Bool-cases, Option-cases, any, any-append, All, inl, inr, strip_prefix, str_eq,
  str_eq→eq,
}
use mathlib.Core.List.{append-nil, append_assoc}
use esmail.Query.{ParsedQuery, empty, tokenize, add_token, add_tokens, parse, non_empty_suffix}
use esmail.Query.Terms.{
  Term, bare, from, to, subject, body, render, token_of, IsPlain, tokens_from-rendered,
}

strip_prefix-some : (s p r : Str) → strip_prefix s p ≡ some r → s ≡ p ++ r
strip_prefix-some s [] r e = ground arith
strip_prefix-some [] (p ∷ ps) r e = cc
strip_prefix-some (c ∷ s) (p ∷ ps) r e =
    let head : c ≡ p = ground arith in
    let rest : strip_prefix s ps ≡ some r = ground arith in
    ap (λ d. d ∷ s) head ∙ ap (λ t. p ∷ t) (strip_prefix-some s ps r rest)

-- A text with no colon has no prefix that holds one.
strip_prefix-colon :
    (s p : Str)
    → any (λ c. c == b':') s ≡ false
    → any (λ c. c == b':') p ≡ true
    → strip_prefix s p ≡ none
strip_prefix-colon s p no_colon colon = elim (Option-cases (strip_prefix s p)) [
  | inl e ↦ e
  | inr (r, e) ↦ absurd (
      ground (
        arith,
        ap (any (λ (c : ℕ). c == b':')) (strip_prefix-some s p r e),
        any-append (λ (c : ℕ). c == b':') p r,
      ))
]

str_eq-colon :
    (s p : Str)
    → any (λ c. c == b':') s ≡ false
    → any (λ c. c == b':') p ≡ true
    → str_eq s p ≡ false
str_eq-colon s p no_colon colon = elim (Bool-cases (str_eq s p)) [
  | inl e ↦ absurd (cc (ap (any (λ (c : ℕ). c == b':')) (str_eq→eq s p e)))
  | inr e ↦ e
]

-- What a term adds to a query.
add_term : Term → ParsedQuery → ParsedQuery
add_term (bare t) q = record q { text = q.text ++ t ∷ [] }
add_term (from t) q = record q { from = q.from ++ t ∷ [] }
add_term (to t) q = record q { to = q.to ++ t ∷ [] }
add_term (subject t) q = record q { subject = q.subject ++ t ∷ [] }
add_term (body t) q = record q { body = q.body ++ t ∷ [] }

add_token-token_of :
    (t : Term) (q : ParsedQuery) → IsPlain t → add_token (token_of t) q ≡ add_term t q
unfolding add_token token_of add_term
add_token-token_of (bare []) q p = elim p.0 [ ]
add_token-token_of (bare (c ∷ t)) q p =
    let s = c ∷ t in
    rw
      (
        strip_prefix-colon s (codes "from:") p.1 refl,
        strip_prefix-colon s (codes "to:") p.1 refl,
        strip_prefix-colon s (codes "subject:") p.1 refl,
        strip_prefix-colon s (codes "body:") p.1 refl,
        strip_prefix-colon s (codes "since:") p.1 refl,
        strip_prefix-colon s (codes "before:") p.1 refl,
        str_eq-colon s (codes "is:unread") p.1 refl,
        str_eq-colon s (codes "has:attachment") p.1 refl,
        add_token,
        non_empty_suffix,
      )
      refl
add_token-token_of (from []) q p = elim p [ ]
add_token-token_of (from (c ∷ t)) q p = refl
add_token-token_of (to []) q p = elim p [ ]
add_token-token_of (to (c ∷ t)) q p = refl
add_token-token_of (subject []) q p = elim p [ ]
add_token-token_of (subject (c ∷ t)) q p = refl
add_token-token_of (body []) q p = elim p [ ]
add_token-token_of (body (c ∷ t)) q p = refl

-- The query that a list of terms means: each field holds its terms in order.
abbrev pub or_nothing : Option Str → List Str → List Str
or_nothing none rest = rest
or_nothing (some t) rest = t ∷ rest

abbrev pub picked : (Term → Option Str) → List Term → List Str
picked pick [] = []
picked pick (t ∷ ts) = or_nothing (pick t) (picked pick ts)

abbrev pub bare_of : Term → Option Str
bare_of (bare t) = some t
bare_of t = none

abbrev pub from_of : Term → Option Str
from_of (from t) = some t
from_of t = none

abbrev pub to_of : Term → Option Str
to_of (to t) = some t
to_of t = none

abbrev pub subject_of : Term → Option Str
subject_of (subject t) = some t
subject_of t = none

abbrev pub body_of : Term → Option Str
body_of (body t) = some t
body_of t = none

abbrev pub meaning : List Term → ParsedQuery
meaning ts = record empty {
  text = picked bare_of ts;
  from = picked from_of ts;
  to = picked to_of ts;
  subject = picked subject_of ts;
  body = picked body_of ts;
}

add_meaning : ParsedQuery → List Term → ParsedQuery
add_meaning q ts = record q {
  text = q.text ++ picked bare_of ts;
  from = q.from ++ picked from_of ts;
  to = q.to ++ picked to_of ts;
  subject = q.subject ++ picked subject_of ts;
  body = q.body ++ picked body_of ts;
}

add_meaning-add_term :
    (t : Term) (q : ParsedQuery) (ts : List Term)
    → add_meaning (add_term t q) ts ≡ add_meaning q (t ∷ ts)
unfolding add_meaning add_term
add_meaning-add_term (bare t) q ts =
    ap (λ l. record (add_meaning q ts) { text = l })
      (append_assoc q.text (t ∷ []) (picked bare_of ts))
add_meaning-add_term (from t) q ts =
    ap (λ l. record (add_meaning q ts) { from = l })
      (append_assoc q.from (t ∷ []) (picked from_of ts))
add_meaning-add_term (to t) q ts =
    ap (λ l. record (add_meaning q ts) { to = l }) (append_assoc q.to (t ∷ []) (picked to_of ts))
add_meaning-add_term (subject t) q ts =
    ap (λ l. record (add_meaning q ts) { subject = l })
      (append_assoc q.subject (t ∷ []) (picked subject_of ts))
add_meaning-add_term (body t) q ts =
    ap (λ l. record (add_meaning q ts) { body = l })
      (append_assoc q.body (t ∷ []) (picked body_of ts))

add_meaning-nil : (q : ParsedQuery) → q ≡ add_meaning q []
unfolding add_meaning
add_meaning-nil q =
    rw
      (
        append-nil q.text,
        append-nil q.from,
        append-nil q.to,
        append-nil q.subject,
        append-nil q.body,
      )
      refl

add_tokens-token_of :
    (ts : List Term) (q : ParsedQuery)
    → All IsPlain ts
    → add_tokens (map token_of ts) q ≡ add_meaning q ts
unfolding add_tokens
add_tokens-token_of [] q p = add_meaning-nil q
add_tokens-token_of (t ∷ ts) q p =
    ap (λ r. add_tokens (map token_of ts) r) (add_token-token_of t q p.0)
    ∙ add_tokens-token_of ts (add_term t q) p.1
    ∙ add_meaning-add_term t q ts

-- A query written from terms, each with its text in quotes and separated by spaces, parses into
-- these terms: each field holds its terms in order, and there is no date or flag. No text is empty,
-- and a bare text has no colon; it may hold spaces and quotes.
pub parse-render :
    (ts : List Term) → All IsPlain ts → parse (join (map render ts) (codes " ")) ≡ meaning ts
unfolding parse tokenize add_meaning
parse-render ts p =
    ap (λ l. add_tokens l empty) (tokens_from-rendered ts p) ∙ add_tokens-token_of ts empty p
