-- ===== src/Prelude/Text.antt =====
-- Rust's `str` and `String` as the list of their code points, with the standard library's
-- operations on them that the code calls.
use Prim.Native.Nat.{ℕ, ◌+◌}
use Prim.Native.Char.{code}
use Prim.Native.String.{String}
use mathlib.Core.Path.{◌≡◌, refl, ap₂}
use mathlib.Core.Logic.{◌↔◌}
use mathlib.Core.Bool.{Bool, true, false, ◌&&◌, ◌||◌}
use mathlib.Core.Option.{Option, none, some}
use mathlib.Core.List.{List, [], ◌∷◌, ◌++◌, map, reverse}
use native.Mathlib.Omega.{arith}
use esmail.Prelude.Tests.{leb, ◌==◌, if◌then◌else◌}

abbrev pub Str : Type 0
Str = List ℕ

abbrev pub codes : String → Str
codes String.[] = []
codes (String.◌∷◌ c s) = code c ∷ codes s

-- `is_empty` of a string or a vector.
abbrev pub is_empty {ℓ} : {A : Type ℓ} → List A → Bool
is_empty [] = true
is_empty (x ∷ xs) = false

-- `==` on strings.
abbrev pub str_eq : Str → Str → Bool
str_eq [] [] = true
str_eq [] (y ∷ ys) = false
str_eq (x ∷ xs) [] = false
str_eq (x ∷ xs) (y ∷ ys) = x == y && str_eq xs ys

pub str_eq_refl : (s : Str) → str_eq s s ≡ true
str_eq_refl [] = refl
str_eq_refl (x ∷ xs) = ground (arith, str_eq_refl xs)

pub str_eq→eq : (s t : Str) → str_eq s t ≡ true → s ≡ t
str_eq→eq [] [] h = refl
str_eq→eq [] (y ∷ ys) h = cc
str_eq→eq (x ∷ xs) [] h = cc
str_eq→eq (x ∷ xs) (y ∷ ys) h = ap₂ (λ c r. c ∷ r) (ground arith) (str_eq→eq xs ys (ground arith))

pub str_eq_iff : (s t : Str) → (str_eq s t ≡ true) ↔ (s ≡ t)
str_eq_iff s t = (str_eq→eq s t, λ e. rw e (str_eq_refl t))

-- `str::strip_prefix`, `str::starts_with` and `str::contains` with a string.
abbrev pub strip_prefix : Str → Str → Option Str
strip_prefix s [] = some s
strip_prefix [] (p ∷ ps) = none
strip_prefix (c ∷ s) (p ∷ ps) = let rest = strip_prefix s ps in if c == p then rest else none

abbrev pub starts_with : Str → Str → Bool
starts_with s [] = true
starts_with [] (p ∷ ps) = false
starts_with (c ∷ s) (p ∷ ps) = c == p && starts_with s ps

abbrev pub contains : Str → Str → Bool
contains [] p = starts_with [] p
contains (c ∷ s) p = starts_with (c ∷ s) p || contains s p

-- `char::is_whitespace`: the code points with the property White_Space.
abbrev pub is_whitespace : ℕ → Bool
is_whitespace c =
    (leb 9 c && leb c 13)
    || c == 32
    || c == 133
    || c == 160
    || c == 5760
    || (leb 8192 c && leb c 8202)
    || c == 8232
    || c == 8233
    || c == 8239
    || c == 8287
    || c == 12288

-- `char::to_ascii_lowercase`, and `str::to_ascii_lowercase`, `str::eq_ignore_ascii_case`.
abbrev pub to_lower : ℕ → ℕ
to_lower c = if leb 65 c && leb c 90 then c + 32 else c

abbrev pub to_ascii_lowercase : Str → Str
to_ascii_lowercase = map to_lower

abbrev pub eq_ignore_ascii_case : Str → Str → Bool
eq_ignore_ascii_case s t = str_eq (to_ascii_lowercase s) (to_ascii_lowercase t)

-- `str::trim_start`, `str::trim_end`, `str::trim`.
abbrev pub trim_start : Str → Str
trim_start [] = []
trim_start (c ∷ s) =
    let rest = trim_start s in elim (is_whitespace c) [ true ↦ rest | false ↦ c ∷ s ]

abbrev pub trim_end : Str → Str
trim_end s = reverse (trim_start (reverse s))

abbrev pub trim : Str → Str
trim s = trim_end (trim_start s)

-- `[String]::join`.
abbrev pub join : List Str → Str → Str
join [] sep = []
join (s ∷ []) sep = s
join (s ∷ t ∷ ts) sep = s ++ (sep ++ join (t ∷ ts) sep)

-- The first piece and the others of `str::split` at a character: always at least one piece.
abbrev pub split_go : ℕ → Str → Str × List Str
split_go sep [] = ([], [])
split_go sep (c ∷ s) =
    let rest = split_go sep s in
    elim (c == sep) [ true ↦ ([], rest.0 ∷ rest.1) | false ↦ (c ∷ rest.0, rest.1) ]

abbrev pub split : ℕ → Str → List Str
split sep s = (split_go sep s).0 ∷ (split_go sep s).1

-- `str::split_once` at a character.
abbrev pub split_once : ℕ → Str → Option (Str × Str)
split_once sep [] = none
split_once sep (c ∷ s) =
    let rest = split_once sep s in
    elim (c == sep) [
      | true ↦ some ([], s)
      | false ↦ elim rest [ none ↦ none | some (a, b) ↦ some (c ∷ a, b) ]
    ]
