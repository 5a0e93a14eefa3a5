-- ===== src/Query/Terms.antt =====
-- The tokens of a query that is written out from its terms.
use esmail.Prelude.{
  ◌≡◌, ◌∙◌, refl, ap, sym, false, List, [], ◌∷◌, ◌++◌, map, Str, codes, join, ◌==◌, any, All,
}
use mathlib.Core.List.{append-nil}
use esmail.Query.{flush, tokens_from, fts_quote}
use esmail.Query.Quoting.{NoQuote, NonEmpty, tokens_from-fts_quote}

-- A search term: a bare text or the text of a field.
pub data Term : Type 0 where
  bare from to subject body : Str → Term

-- The term as a user writes it, its text in quotes.
unfoldable pub render : Term → Str
render (bare t) = fts_quote t
render (from t) = codes "from:" ++ fts_quote t
render (to t) = codes "to:" ++ fts_quote t
render (subject t) = codes "subject:" ++ fts_quote t
render (body t) = codes "body:" ++ fts_quote t

-- The token that it becomes.
unfoldable pub token_of : Term → Str
token_of (bare t) = t
token_of (from t) = codes "from:" ++ t
token_of (to t) = codes "to:" ++ t
token_of (subject t) = codes "subject:" ++ t
token_of (body t) = codes "body:" ++ t

-- No text is empty, and a bare one holds no colon, so that it is no field.
abbrev pub IsPlain : Term → Type 0
IsPlain (bare t) = NonEmpty t × (any (λ c. c == b':') t ≡ false)
IsPlain (from t) = NonEmpty t
IsPlain (to t) = NonEmpty t
IsPlain (subject t) = NonEmpty t
IsPlain (body t) = NonEmpty t

tokens_from-render :
    (t : Term) (rest : Str)
    → NoQuote rest
    → tokens_from false false [] (render t ++ rest) ≡ tokens_from false false (token_of t) rest
unfolding render token_of tokens_from
tokens_from-render (bare t) rest n = tokens_from-fts_quote [] t rest n
tokens_from-render (from t) rest n = tokens_from-fts_quote (codes "from:") t rest n
tokens_from-render (to t) rest n = tokens_from-fts_quote (codes "to:") t rest n
tokens_from-render (subject t) rest n = tokens_from-fts_quote (codes "subject:") t rest n
tokens_from-render (body t) rest n = tokens_from-fts_quote (codes "body:") t rest n

flush-token_of :
    (t : Term) (rest : List Str) → IsPlain t → flush (token_of t) rest ≡ token_of t ∷ rest
unfolding token_of
flush-token_of (bare []) rest p = elim p.0 [ ]
flush-token_of (bare (c ∷ t)) rest p = refl
flush-token_of (from t) rest p = refl
flush-token_of (to t) rest p = refl
flush-token_of (subject t) rest p = refl
flush-token_of (body t) rest p = refl

tokens_from-space :
    (current rest : Str)
    → tokens_from false false current (codes " " ++ rest)
      ≡ flush current (tokens_from false false [] rest)
unfolding tokens_from
tokens_from-space current rest = refl

tokens_from-end : (current : Str) → tokens_from false false current [] ≡ flush current []
unfolding tokens_from
tokens_from-end current = refl

pub tokens_from-rendered :
    (ts : List Term)
    → All IsPlain ts
    → tokens_from false false [] (join (map render ts) (codes " ")) ≡ map token_of ts
tokens_from-rendered [] p = tokens_from-end []
tokens_from-rendered (t ∷ []) p =
    ap (tokens_from false false []) (sym (append-nil (render t)))
    ∙ tokens_from-render t [] refl
    ∙ tokens_from-end (token_of t)
    ∙ flush-token_of t [] p.0
tokens_from-rendered (t ∷ u ∷ ts) p =
    let rest = join (map render (u ∷ ts)) (codes " ") in
    tokens_from-render t (codes " " ++ rest) refl
    ∙ tokens_from-space (token_of t) rest
    ∙ flush-token_of t (tokens_from false false [] rest) p.0
    ∙ ap (λ r. token_of t ∷ r) (tokens_from-rendered (u ∷ ts) p.1)
