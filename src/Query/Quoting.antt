-- ===== src/Query/Quoting.antt =====
-- Quoting: `fts_quote` against `tokenize`, and against a reader of the string literals of the
-- search index.
use esmail.Prelude.{
  ℕ, ◌≡◌, ◌∙◌, refl, ap, sym, Bool, true, false, not, Option, none, some, [], ◌∷◌, ◌++◌, Str, arith,
  ◌==◌, if◌then◌else◌, Bool-cases, get_elem?, is_just, nat_eq, inl, inr,
}
use mathlib.Core.List.{append-nil, append_assoc}
use esmail.Query.{tokens_from, double_quotes, fts_quote}

-- What follows a closing quote does not begin with another one.
abbrev pub NoQuote : Str → Type 0
NoQuote s = is_just nat_eq (get_elem? s 0) b'"' ≡ false

pub tokens_from-inside :
    (current s : Str) (c : ℕ)
    → (c == b'"') ≡ false
    → tokens_from false true current (c ∷ s) ≡ tokens_from false true (current ++ c ∷ []) s
unfolding tokens_from
tokens_from-inside current s c other = ground arith

-- Inside quotes, a doubled text is read back up to the closing quote.
pub tokens_from-quoted :
    (current term rest : Str)
    → NoQuote rest
    → tokens_from false true current (double_quotes term ++ b'"' ∷ rest)
      ≡ tokens_from false false (current ++ term) rest
unfolding tokens_from double_quotes
tokens_from-quoted current [] rest n = rw (n, append-nil) refl
tokens_from-quoted current (c ∷ term) rest n = elim (Bool-cases (c == b'"')) [
  | inl quote ↦
      let e : c ≡ b'"' = ground arith in
      rw quote (
        tokens_from-quoted (current ++ b'"' ∷ []) term rest n
        ∙ ap (λ t. tokens_from false false t rest)
            (append_assoc current (b'"' ∷ []) term ∙ ap (λ d. current ++ d ∷ term) (sym e)))
  | inr other ↦ rw other (
      tokens_from-inside current (double_quotes term ++ b'"' ∷ rest) c other
      ∙ tokens_from-quoted (current ++ c ∷ []) term rest n
      ∙ ap (λ t. tokens_from false false t rest) (append_assoc current (c ∷ []) term))
]

abbrev pub NonEmpty : Str → Type 0
NonEmpty [] = ⊥
NonEmpty (c ∷ s) = Unit

-- A text with a word before it.
pub tokens_from-fts_quote :
    (current term rest : Str)
    → NoQuote rest
    → tokens_from false false current (fts_quote term ++ rest)
      ≡ tokens_from false false (current ++ term) rest
unfolding fts_quote
tokens_from-fts_quote current term rest n =
    ap (tokens_from false false current)
      (ap (λ r. b'"' ∷ r) (append_assoc (double_quotes term) (b'"' ∷ []) rest))
    ∙ unfold tokens_from in tokens_from-quoted current term rest n

-- The string literal at the head of an expression of the search index, and what follows: quotes
-- around a text in which each quote is doubled.
read_literal_from : Bool → Str → Str → Option (Str × Str)
read_literal_from skip text [] = none
read_literal_from skip text (c ∷ s) =
    let skipped = read_literal_from false text s in
    let doubled = read_literal_from true (text ++ b'"' ∷ []) s in
    let inside = read_literal_from false (text ++ c ∷ []) s in
    if skip
    then skipped
    else if not (c == b'"')
    then inside
    else if is_just nat_eq (get_elem? s 0) b'"'
    then doubled
    else some (text, s)

unfoldable pub read_literal : Str → Option (Str × Str)
unfolding read_literal_from
read_literal [] = none
read_literal (c ∷ s) = if c == b'"' then read_literal_from false [] s else none

read_literal_from-doubled :
    (text term rest : Str)
    → NoQuote rest
    → read_literal_from false text (double_quotes term ++ b'"' ∷ rest) ≡ some (text ++ term, rest)
unfolding read_literal_from double_quotes
read_literal_from-doubled text [] rest n = rw (n, append-nil) refl
read_literal_from-doubled text (c ∷ term) rest n = elim (Bool-cases (c == b'"')) [
  | inl quote ↦
      let e : c ≡ b'"' = ground arith in
      rw quote (
        read_literal_from-doubled (text ++ b'"' ∷ []) term rest n
        ∙ ap (λ t. some (t, rest))
            (append_assoc text (b'"' ∷ []) term ∙ ap (λ d. text ++ d ∷ term) (sym e)))
  | inr other ↦
      rw (other, other)
        (read_literal_from-doubled (text ++ c ∷ []) term rest n
          ∙ ap (λ t. some (t, rest)) (append_assoc text (c ∷ []) term))
]

-- Whatever quotes a term holds, the index reads the quoted term as one literal that denotes the
-- term and ends where the term's quoting ends, if no quote follows.
read_literal-fts_quote :
    (term rest : Str) → NoQuote rest → read_literal (fts_quote term ++ rest) ≡ some (term, rest)
unfolding read_literal fts_quote
read_literal-fts_quote term rest n =
    ap (read_literal_from false []) (append_assoc (double_quotes term) (b'"' ∷ []) rest)
    ∙ read_literal_from-doubled [] term rest n
