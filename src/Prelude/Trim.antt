-- ===== src/Prelude/Trim.antt =====
-- `str::trim` and the characters it leaves.
use Prim.Native.Nat.{ℕ}
use mathlib.Core.Path.{◌≡◌, refl, ap, ◌∙◌}
use mathlib.Core.Logic.{inl, inr}
use mathlib.Core.Bool.{Bool, false}
use mathlib.Core.List.{[], ◌∷◌, ◌++◌, reverse, reverse-append, reverse-cons, reverse-reverse}
use native.Mathlib.Omega.{arith}
use esmail.Prelude.Tests.{Bool-cases}
use esmail.Prelude.Lists.{any, any-append}
use esmail.Prelude.Text.{Str, is_whitespace, trim_start, trim_end, trim}

-- No space in front.
abbrev pub StartsClean : Str → Type 0
StartsClean [] = Unit
StartsClean (c ∷ s) = is_whitespace c ≡ false

trim_start-StartsClean : (s : Str) → StartsClean (trim_start s)
trim_start-StartsClean [] = tt
trim_start-StartsClean (c ∷ s) = elim (Bool-cases (is_whitespace c)) [
  | inl e ↦ rw (e, trim_start) (trim_start-StartsClean s)
  | inr e ↦ rw (e, trim_start) e
]

trim_start-stays : (s : Str) → StartsClean s → trim_start s ≡ s
trim_start-stays [] h = refl
trim_start-stays (c ∷ s) h = rw (h, trim_start) refl

trim_start-append :
    (s : Str) (c : ℕ) → is_whitespace c ≡ false → trim_start (s ++ c ∷ []) ≡ trim_start s ++ c ∷ []
trim_start-append [] c h = rw (h, trim_start) refl
trim_start-append (d ∷ s) c h = elim (Bool-cases (is_whitespace d)) [
  | inl e ↦ rw (e, trim_start) (trim_start-append s c h)
  | inr e ↦ rw (e, trim_start) refl
]

-- The end is trimmed behind a first character that is no space.
trim_end-cons : (c : ℕ) (s : Str) → is_whitespace c ≡ false → trim_end (c ∷ s) ≡ c ∷ trim_end s
trim_end-cons c s h =
    ap (λ r. reverse (trim_start r)) (reverse-append (c ∷ []) s)
    ∙ ap reverse (trim_start-append (reverse s) c h)
    ∙ reverse-append (trim_start (reverse s)) (c ∷ [])

trim_end-StartsClean : (s : Str) → StartsClean s → StartsClean (trim_end s)
trim_end-StartsClean [] h = tt
trim_end-StartsClean (c ∷ s) h = rw (trim_end-cons c s h) h

trim_end-twice : (s : Str) → trim_end (trim_end s) ≡ trim_end s
trim_end-twice s =
    ap (λ r. reverse (trim_start r)) (reverse-reverse (trim_start (reverse s)))
    ∙ ap reverse (trim_start-stays (trim_start (reverse s)) (trim_start-StartsClean (reverse s)))

pub trim-trim : (s : Str) → trim (trim s) ≡ trim s
trim-trim s =
    ap trim_end
      (trim_start-stays (trim s) (trim_end-StartsClean (trim_start s) (trim_start-StartsClean s)))
    ∙ trim_end-twice (trim_start s)

module _ (p : ℕ → Bool) where
  any-trim_start : (s : Str) → any p s ≡ false → any p (trim_start s) ≡ false
  any-trim_start [] h = refl
  any-trim_start (c ∷ s) h = ground (arith, any-trim_start s)

  any-reverse : (s : Str) → any p s ≡ false → any p (reverse s) ≡ false
  any-reverse [] h = refl
  any-reverse (c ∷ s) h =
      rw (reverse-cons c s, any-append p (reverse s) (c ∷ [])) (ground (arith, any-reverse s))

  pub any-trim : (s : Str) → any p s ≡ false → any p (trim s) ≡ false
  any-trim s h =
      any-reverse (trim_start (reverse (trim_start s)))
        (any-trim_start (reverse (trim_start s)) (any-reverse (trim_start s) (any-trim_start s h)))
