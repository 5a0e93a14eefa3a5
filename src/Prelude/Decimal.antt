-- ===== src/Prelude/Decimal.antt =====
-- Numbers as decimal text: Rust's `{}` of an unsigned integer and its `str::parse`.
use Prim.Native.Nat.{ℕ, zero, suc, ◌+◌, ◌-◌, ◌*◌, ◌/◌, ◌%◌, ◌≤◌, ◌<◌}
use mathlib.Core.Path.{◌≡◌, ◌∙◌, refl, ap}
use mathlib.Core.Logic.{inl, inr}
use mathlib.Core.Bool.{Bool, true, ◌&&◌}
use mathlib.Core.Option.{Option, none, some}
use mathlib.Core.List.{[], ◌∷◌}
use native.Mathlib.Omega.{arith}
use esmail.Prelude.Tests.{ltb, leb, ◌==◌, if◌then◌else◌, Bool-cases}
use esmail.Prelude.Text.{Str}

-- The digits of a number, in front of `acc`; more fuel than the number has digits is enough.
unfoldable pub digits : ℕ → ℕ → Str → Str
digits zero n acc = acc
digits (suc fuel) n acc =
    let next = (b'0' + n % 10) ∷ acc in
    let rest = digits fuel (n / 10) next in if ltb n 10 then next else rest

unfoldable pub to_string : ℕ → Str
unfolding digits
to_string n = digits (suc n) n []

abbrev pub is_digit : ℕ → Bool
is_digit c = leb b'0' c && leb c b'9'

-- The value so far and a digit; past the bound, an overflow.
abbrev pub push_digit : ℕ → ℕ → ℕ → Option ℕ
push_digit bound value c =
    if is_digit c && ltb (value * 10 + (c - b'0')) bound
    then some (value * 10 + (c - b'0'))
    else none

unfoldable pub parse_digits : ℕ → ℕ → Str → Option ℕ
parse_digits bound value [] = some value
parse_digits bound value (c ∷ s) = elim (push_digit bound value c) [
  | none ↦ none
  | some v ↦ parse_digits bound v s
]

-- `parse` to an unsigned integer below the bound: a sign `+` may stand in front.
unfoldable pub parse_below : ℕ → Str → Option ℕ
unfolding parse_digits
parse_below bound [] = none
parse_below bound (c ∷ []) = parse_digits bound 0 (c ∷ [])
parse_below bound (c ∷ d ∷ s) =
    if c == b'+' then parse_digits bound 0 (d ∷ s) else parse_digits bound 0 (c ∷ d ∷ s)

parse_digits-push :
    (bound value d : ℕ) (s : Str)
    → d < 10
    → value * 10 + d < bound
    → parse_digits bound value ((b'0' + d) ∷ s) ≡ parse_digits bound (value * 10 + d) s
unfolding parse_digits
parse_digits-push bound value d s small lt =
    let e : push_digit bound value (b'0' + d) ≡ some (value * 10 + d) = ground arith in
    rw (e, parse_digits) refl

parse_digits-digits :
    (bound fuel n : ℕ) (acc : Str)
    → n < bound
    → n < fuel
    → parse_digits bound 0 (digits fuel n acc) ≡ parse_digits bound n acc
unfolding digits
parse_digits-digits bound zero n acc lt h = elim h [ ]
parse_digits-digits bound (suc fuel) n acc lt h = elim (Bool-cases (ltb n 10)) [
  | inl one ↦
      let small : n < 10 = ground arith in
      rw one (
        parse_digits-push bound 0 (n % 10) acc (omega arith) (omega arith)
        ∙ ap (λ v. parse_digits bound v acc) (omega arith))
  | inr more ↦
      let large : 10 ≤ n = ground arith in
      rw more (
        parse_digits-digits bound fuel (n / 10) ((b'0' + n % 10) ∷ acc) (omega arith) (omega arith)
        ∙ parse_digits-push bound (n / 10) (n % 10) acc (omega arith) (omega arith)
        ∙ ap (λ v. parse_digits bound v acc) (omega arith))
]

abbrev StartsWithDigit : Str → Type 0
StartsWithDigit [] = ⊥
StartsWithDigit (c ∷ s) = is_digit c ≡ true

digits-StartsWithDigit : (fuel n : ℕ) (acc : Str) → n < fuel → StartsWithDigit (digits fuel n acc)
unfolding digits
digits-StartsWithDigit zero n acc h = elim h [ ]
digits-StartsWithDigit (suc fuel) n acc h = elim (Bool-cases (ltb n 10)) [
  | inl one ↦ rw one (ground arith)
  | inr more ↦
      let large : 10 ≤ n = ground arith in
      rw more (digits-StartsWithDigit fuel (n / 10) ((b'0' + n % 10) ∷ acc) (omega arith))
]

parse_below-digit :
    (bound : ℕ) (s : Str) → StartsWithDigit s → parse_below bound s ≡ parse_digits bound 0 s
unfolding parse_below
parse_below-digit bound [] h = elim h [ ]
parse_below-digit bound (c ∷ []) h = refl
parse_below-digit bound (c ∷ d ∷ s) h = ground arith

-- A number below the bound is read back from its text.
pub parse_below-to_string : (bound n : ℕ) → n < bound → parse_below bound (to_string n) ≡ some n
unfolding to_string parse_digits
parse_below-to_string bound n lt =
    parse_below-digit bound (digits (suc n) n [])
      (digits-StartsWithDigit (suc n) n [] (omega arith))
    ∙ parse_digits-digits bound (suc n) n [] lt (omega arith)
