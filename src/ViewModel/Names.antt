-- ===== src/ViewModel/Names.antt =====
-- Which file names crates/esmail/src/view_model.rs lets an attachment have.
use esmail.Prelude.{
  ℕ, str_eq→eq, Bool, true, false, [], ◌∷◌, ◌++◌, Str, codes, any, any-append, if◌then◌else◌, ◌≡◌,
  refl, ◌∙◌, arith, Bool-cases, inl, inr, ◌⊎◌, ◌==◌, ◌||◌, str_eq, str_eq_refl, ap, sym,
}
use mathlib.Core.Path.{subst}
use mathlib.Core.List.{append-nil, append_assoc}
use esmail.ViewModel.{is_separator, last_piece, is_usable, safe_attachment_filename}

any-last_piece :
    (current s : Str)
    → any is_separator current ≡ false
    → any is_separator (last_piece current s) ≡ false
unfolding last_piece
any-last_piece current [] h = h
any-last_piece current (c ∷ s) h = elim (Bool-cases (is_separator c)) [
  | inl e ↦ rw (e, last_piece) (any-last_piece [] s refl)
  | inr e ↦
      rw (e, last_piece)
        (any-last_piece (current ++ c ∷ []) s
          (any-append is_separator current (c ∷ []) ∙ ground (arith, h, e)))
]

-- The last piece of a path: all of it, or what stands behind a slash or a backslash.
abbrev pub IsBehind : Str → Str → Type 0
IsBehind path piece =
    (path ≡ piece)
    ⊎ ((before : Str) × (c : ℕ) × ((c == b'/' || c == b'\\') ≡ true) × (path ≡ before ++ c ∷ piece))

last_piece-IsBehind : (current s : Str) → IsBehind (current ++ s) (last_piece current s)
unfolding last_piece
last_piece-IsBehind current [] = inl (append-nil current)
last_piece-IsBehind current (c ∷ s) = elim (Bool-cases (is_separator c)) [
  | inl e ↦
      rw (e, last_piece)
        (elim (last_piece-IsBehind [] s) [
          | inl whole ↦ inr (current, c, e, ap (λ r. current ++ c ∷ r) whole)
          | inr (before, d, sep, whole) ↦ inr (
            current ++ c ∷ before,
            d,
            sep,
            ap (λ r. current ++ c ∷ r) whole
                ∙ sym (append_assoc current (c ∷ before) (d ∷ last_piece [] s)),
          )
        ])
  | inr e ↦
      rw (e, last_piece)
        (subst (λ path. IsBehind path (last_piece (current ++ c ∷ []) s))
          (append_assoc current (c ∷ []) s) (last_piece-IsBehind (current ++ c ∷ []) s))
]

-- A name without a slash or a backslash, and not empty, "." or "..".
abbrev pub IsSafe : Str → Type 0
IsSafe name =
    (any (λ c. c == b'/' || c == b'\\') name ≡ false)
    × ((name ≡ []) → ⊥)
    × ((name ≡ codes ".") → ⊥)
    × ((name ≡ codes "..") → ⊥)

-- The name is the last piece of the path, or "attachment" where that piece cannot be a file's name.
abbrev pub IsNamed : Str → Str → Type 0
IsNamed path name =
    (piece : Str) × IsBehind path piece
    × (any (λ c. c == b'/' || c == b'\\') piece ≡ false)
    × ((name ≡ piece)
        ⊎ (((piece ≡ []) ⊎ (piece ≡ codes ".") ⊎ (piece ≡ codes ".."))
            × (name ≡ codes "attachment")))

differs : (name other : Str) → str_eq name other ≡ false → name ≡ other → ⊥
differs name other h e =
    let same : str_eq name other ≡ true = ap (λ n. str_eq n other) e ∙ str_eq_refl other in
    absurd (ground (arith, h, same))

chosen-IsSafe :
    (usable : Bool) (name : Str)
    → any is_separator name ≡ false
    → is_usable name ≡ usable
    → IsSafe (if usable then name else codes "attachment")
chosen-IsSafe true [] h e = absurd (ground (arith, e))
chosen-IsSafe true (c ∷ s) h e =
    let name = c ∷ s in
    (
      h,
      differs name [] refl,
      differs name (codes ".") (ground arith),
      differs name (codes "..") (ground arith),
    )
chosen-IsSafe false name h e =
    let fixed = codes "attachment" in
    (refl, differs fixed [] refl, differs fixed (codes ".") refl, differs fixed (codes "..") refl)

unusable : (s : Str) → is_usable s ≡ false → (s ≡ []) ⊎ (s ≡ codes ".") ⊎ (s ≡ codes "..")
unusable [] h = inl refl
unusable (c ∷ s) h = elim (Bool-cases (str_eq (c ∷ s) (codes "."))) [
  | inl e ↦ inr (inl (str_eq→eq (c ∷ s) (codes ".") e))
  | inr e ↦ inr (inr (str_eq→eq (c ∷ s) (codes "..") (ground (arith, h, e))))
]

chosen-IsNamed :
    (usable : Bool) (path piece : Str)
    → IsBehind path piece
    → any is_separator piece ≡ false
    → is_usable piece ≡ usable
    → IsNamed path (if usable then piece else codes "attachment")
chosen-IsNamed true path piece b h e = (piece, b, h, inl refl)
chosen-IsNamed false path piece b h e = (piece, b, h, inr (unusable piece e, refl))

-- Whatever name a message gives an attachment, the one it is saved under has no slash and no
-- backslash and is neither empty nor "." nor ".."; it is what stands behind the last slash or
-- backslash of the name given, or "attachment" where that is empty, "." or "..".
pub safe_attachment_filename-IsSafe :
    (filename : Str)
    → IsSafe (safe_attachment_filename filename)
      × IsNamed filename (safe_attachment_filename filename)
unfolding safe_attachment_filename
safe_attachment_filename-IsSafe filename =
    let piece = last_piece [] filename in
    let no_separator = any-last_piece [] filename refl in
    (
      chosen-IsSafe (is_usable piece) piece no_separator refl,
      chosen-IsNamed (is_usable piece) filename piece (last_piece-IsBehind [] filename) no_separator
          refl,
    )
