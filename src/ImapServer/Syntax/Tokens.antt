-- ===== src/ImapServer/Syntax/Tokens.antt =====
-- Reading back the tokens of a command line, for `tokenize` of
-- crates/mail-mock-server/src/imap_server.rs.
use esmail.Prelude.{
  ℕ, Option, none, some, any, Bool, true, false, List, [], ◌∷◌, ◌++◌, map, Str, codes, join, ◌==◌,
  ◌||◌, if◌then◌else◌, ◌≡◌, ◌∙◌, refl, sym, ap, arith, Bool-cases, inl, inr,
}
use mathlib.Core.List.{append_assoc, append-nil}
use esmail.ImapServer.Syntax.{between, plain, quoted, tokens_from, tokenize}

-- A character inside a quoted string of IMAP: a quote and a backslash have a backslash before them.
abbrev pub quote_char : ℕ → Str
quote_char c = if c == b'"' || c == b'\\' then b'\\' ∷ c ∷ [] else c ∷ []

abbrev pub quote_chars : Str → Str
quote_chars [] = []
quote_chars (c ∷ s) = quote_char c ++ quote_chars s

-- The quoted string for a text.
unfoldable pub quote : Str → Str
quote s = b'"' ∷ (quote_chars s ++ b'"' ∷ [])

tokens_from-quote_char :
    (c : ℕ) (s rest : Str)
    → tokens_from quoted s (quote_char c ++ rest) ≡ tokens_from quoted (s ++ c ∷ []) rest
unfolding tokens_from
tokens_from-quote_char c s rest = elim (Bool-cases (c == b'"' || c == b'\\')) [
  | inl e ↦ ground arith
  | inr e ↦ ground arith
]

tokens_from-quote_chars :
    (t s rest : Str)
    → tokens_from quoted s (quote_chars t ++ b'"' ∷ rest) ≡ (s ++ t) ∷ tokens_from between [] rest
unfolding tokens_from
tokens_from-quote_chars [] s rest = ap (λ u. u ∷ tokens_from between [] rest) (sym (append-nil s))
tokens_from-quote_chars (c ∷ t) s rest =
    ap (tokens_from quoted s) (append_assoc (quote_char c) (quote_chars t) (b'"' ∷ rest))
    ∙ tokens_from-quote_char c s (quote_chars t ++ b'"' ∷ rest)
    ∙ tokens_from-quote_chars t (s ++ c ∷ []) rest
    ∙ ap (λ u. u ∷ tokens_from between [] rest) (append_assoc s (c ∷ []) t)

tokens_from-quote :
    (t rest : Str) → tokens_from between [] (quote t ++ rest) ≡ t ∷ tokens_from between [] rest
unfolding tokens_from quote
tokens_from-quote t rest =
    ap (tokens_from quoted []) (append_assoc (quote_chars t) (b'"' ∷ []) rest)
    ∙ tokens_from-quote_chars t [] rest

abbrev pub has_space : Str → Bool
has_space s = any (λ c. c == b' ') s

-- A token as it is, or quoted where it has to be: without a character, with a space, or with a quote
-- in front.
abbrev pub needs_quotes : Str → Bool
needs_quotes [] = true
needs_quotes (c ∷ s) = c == b'"' || has_space (c ∷ s)

unfoldable pub write_token : Str → Str
write_token s = if needs_quotes s then quote s else s

-- What may follow a token: nothing, or a space and more.
abbrev after : Option Str → Str
after none = []
after (some rest) = b' ' ∷ rest

abbrev tokens_after : Option Str → List Str
tokens_after none = []
tokens_after (some rest) = tokens_from between [] rest

tokens_from-after : (more : Option Str) → tokens_from between [] (after more) ≡ tokens_after more
unfolding tokens_from
tokens_from-after none = refl
tokens_from-after (some rest) = refl

tokens_from-plain :
    (t s : Str) (more : Option Str)
    → has_space t ≡ false
    → tokens_from plain s (t ++ after more) ≡ (s ++ t) ∷ tokens_after more
unfolding tokens_from
tokens_from-plain [] s none h = ap (λ u. u ∷ []) (sym (append-nil s))
tokens_from-plain [] s (some rest) h =
    ap (λ u. u ∷ tokens_from between [] rest) (sym (append-nil s))
tokens_from-plain (c ∷ t) s more h =
    let no_space : (c == b' ') ≡ false = ground arith in
    rw no_space (
      tokens_from-plain t (s ++ c ∷ []) more (ground arith)
      ∙ ap (λ u. u ∷ tokens_after more) (append_assoc s (c ∷ []) t))

tokens_from-as_is :
    (t : Str) (more : Option Str)
    → needs_quotes t ≡ false
    → tokens_from between [] (t ++ after more) ≡ t ∷ tokens_after more
unfolding tokens_from
tokens_from-as_is [] more h = cc
tokens_from-as_is (c ∷ t) more h =
    let no_space : (c == b' ') ≡ false = ground arith in
    let no_quote : (c == b'"') ≡ false = ground arith in
    rw (no_space, no_quote) (tokens_from-plain t (c ∷ []) more (ground arith))

tokens_from-write_token :
    (t : Str) (more : Option Str)
    → tokens_from between [] (write_token t ++ after more) ≡ t ∷ tokens_after more
unfolding write_token
tokens_from-write_token t more = elim (Bool-cases (needs_quotes t)) [
  | inl e ↦ rw e (tokens_from-quote t (after more) ∙ ap (λ ts. t ∷ ts) (tokens_from-after more))
  | inr e ↦ rw e (tokens_from-as_is t more e)
]

-- A command line of tokens with a space between each two, each in quotes where it needs them, is
-- read back as those tokens, whatever quotes, backslashes and spaces they have.
pub tokenize-write_token : (ts : List Str) → tokenize (join (map write_token ts) (codes " ")) ≡ ts
unfolding tokenize tokens_from
tokenize-write_token [] = refl
tokenize-write_token (t ∷ []) =
    ap (tokens_from between []) (sym (append-nil (write_token t))) ∙ tokens_from-write_token t none
tokenize-write_token (t ∷ u ∷ ts) =
    tokens_from-write_token t (some (join (map write_token (u ∷ ts)) (codes " ")))
    ∙ ap (λ rest. t ∷ rest) (tokenize-write_token (u ∷ ts))
