-- ===== src/Notify/Toast.antt =====
-- The text of a toast: the escaping of its markup and the length of its fields.
use esmail.Prelude.{
  ℕ, zero, suc, ◌-◌, ◌≤◌, ◌≡◌, ◌↔◌, ◌∙◌, refl, ap, sym, inl, inr, Bool, false, ◌||◌, [], ◌∷◌, ◌++◌,
  arith, Bool-cases, ◌==◌, Str, codes, starts_with, if◌then◌else◌, any, any-append, take, length,
  length-append, ==_iff,
}
use mathlib.Core.Path.{subst}
use esmail.Notify.{xml_escape, escaped, truncate_chars}

-- The characters that an XML reader takes as markup.
abbrev pub is_markup : ℕ → Bool
is_markup c = (c == b'<') || (c == b'>') || (c == b'"') || (c == 39)

any-is_markup-escaped : (c : ℕ) → any is_markup (escaped c) ≡ false
any-is_markup-escaped c = ground arith

-- An escaped text holds no bracket and no quote.
any-xml_escape : (s : Str) → any is_markup (xml_escape s) ≡ false
unfolding xml_escape
any-xml_escape [] = refl
any-xml_escape (c ∷ s) = ground (
  arith,
  any-append is_markup (escaped c) (xml_escape s),
  any-is_markup-escaped c,
  any-xml_escape s,
)

-- What an XML reader makes of the five references and of the other characters; `skip` characters of
-- a reference are left to pass over.
unfoldable pub unescape : ℕ → Str → Str
unescape skip [] = []
unescape (suc skip) (c ∷ s) = unescape skip s
unescape zero (c ∷ s) =
    let amp = b'&' ∷ unescape 4 s in
    let lt = b'<' ∷ unescape 3 s in
    let gt = b'>' ∷ unescape 3 s in
    let quot = b'"' ∷ unescape 5 s in
    let apos = 39 ∷ unescape 5 s in
    let plain = c ∷ unescape 0 s in
    if starts_with (c ∷ s) (codes "&amp;")
    then amp
    else if starts_with (c ∷ s) (codes "&lt;")
    then lt
    else if starts_with (c ∷ s) (codes "&gt;")
    then gt
    else if starts_with (c ∷ s) (codes "&quot;")
    then quot
    else if starts_with (c ∷ s) (codes "&apos;")
    then apos
    else plain

unescape-plain : (c : ℕ) (s : Str) → (c == b'&') ≡ false → unescape 0 (c ∷ s) ≡ c ∷ unescape 0 s
unfolding unescape
unescape-plain c s e = ground arith

-- A test that the code makes on a character, with the character put in where it succeeds.
split_on : (k c : ℕ) (P : ℕ → Type 0) → P k → ((c == k) ≡ false → P c) → P c
split_on k c P at_k other = elim (Bool-cases (c == k)) [
  | inl e ↦ subst P (sym ((==_iff c k).0 e)) at_k
  | inr e ↦ other e
]

unescape-escaped : (c : ℕ) (s : Str) → unescape 0 (escaped c ++ s) ≡ c ∷ unescape 0 s
unfolding unescape
unescape-escaped c s =
    let P = λ (d : ℕ). unescape 0 (escaped d ++ s) ≡ d ∷ unescape 0 s in
    split_on b'&' c P refl (λ e1. split_on b'<' c P refl (λ e2. split_on b'>' c P refl (λ e3.
      split_on b'"' c P refl
        (λ e4. split_on 39 c P refl (λ e5. rw (e1, e2, e3, e4, e5) (unescape-plain c s e1))))))

-- An XML reader gets back the text that was escaped, so that nothing a sender writes can end the
-- element or the attribute that it stands in.
unescape-xml_escape : (s : Str) → unescape 0 (xml_escape s) ≡ s
unfolding xml_escape unescape
unescape-xml_escape [] = refl
unescape-xml_escape (c ∷ s) =
    unescape-escaped c (xml_escape s) ∙ ap (λ l. c ∷ l) (unescape-xml_escape s)

length-take : (n : ℕ) (s : Str) → length (take n s) ≤ n
length-take zero s = omega arith
length-take (suc n) [] = omega arith
length-take (suc n) (c ∷ s) = omega (arith, length-take n s)

length-truncate_le :
    (s : Str) (max_chars : ℕ) → 1 ≤ max_chars → length (truncate_chars s max_chars) ≤ max_chars
unfolding truncate_chars
length-truncate_le s max_chars le =
    ground
      (arith, length-take (max_chars - 1) s, length-append (take (max_chars - 1) s) (8230 ∷ []))

truncate_short : (s : Str) (max_chars : ℕ) → length s ≤ max_chars → truncate_chars s max_chars ≡ s
unfolding truncate_chars
truncate_short s max_chars le = ground arith

-- A cut text has at most the given number of characters, with the ellipsis, and is the text itself
-- exactly if that is not too long. The limit is not 0.
length-truncate_chars :
    (s : Str) (max_chars : ℕ)
    → 1 ≤ max_chars
    → (length (truncate_chars s max_chars) ≤ max_chars)
      × ((truncate_chars s max_chars ≡ s) ↔ (length s ≤ max_chars))
length-truncate_chars s max_chars le = (
  length-truncate_le s max_chars le,
  (
    (λ e. subst (λ t. length t ≤ max_chars) e (length-truncate_le s max_chars le)),
    truncate_short s max_chars,
  ),
)
