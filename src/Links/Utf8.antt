-- ===== src/Links/Utf8.antt =====
-- `String::from_utf8_lossy`: a sequence that is cut off or not allowed becomes one replacement
-- character, up to the first byte that does not fit.
use esmail.Prelude.{
  ℕ, suc, zero, ◌+◌, ◌*◌, ◌-◌, ◌&&◌, Option, none, some, [], ◌∷◌, ◌++◌, Str, Bytes, ltb, leb, ◌==◌,
  if◌then◌else◌,
}

-- A sequence that was begun: the value so far, how many bytes it wants after the next one, and the
-- bounds of the next.
pub record Begun : Type 0 where
  pub value : ℕ
  pub more : ℕ
  pub low : ℕ
  pub high : ℕ

abbrev pub replacement : Str
replacement = 65533 ∷ []

abbrev begun : ℕ → ℕ → ℕ → ℕ → Str × Option Begun
begun value more low high =
    ([], some (record { value = value; more = more; low = low; high = high }))

-- A first byte.
unfoldable pub start : ℕ → Str × Option Begun
start b =
    if ltb b 128
    then (b ∷ [], none)
    else if leb 194 b && leb b 223
    then begun (b - 192) 0 128 191
    else if b == 224
    then begun 0 1 160 191
    else if b == 237
    then begun 13 1 128 159
    else if leb 225 b && leb b 239
    then begun (b - 224) 1 128 191
    else if b == 240
    then begun 0 2 144 191
    else if leb 241 b && leb b 243
    then begun (b - 240) 2 128 191
    else if b == 244
    then begun 4 2 128 143
    else (replacement, none)

abbrev continued : ℕ → ℕ → Str × Option Begun
continued value zero = (value ∷ [], none)
continued value (suc more) = begun value more 128 191

unfoldable pub step : Option Begun → ℕ → Str × Option Begun
unfolding start
step none b = start b
step (some s) b =
    if leb s.low b && leb b s.high
    then continued (s.value * 64 + (b - 128)) s.more
    else (replacement ++ (start b).0, (start b).1)

unfoldable pub lossy_from : Option Begun → Bytes → Str
unfolding step
lossy_from none [] = []
lossy_from (some s) [] = replacement
lossy_from s (b ∷ bytes) = let (out, next) = step s b in out ++ lossy_from next bytes

unfoldable pub from_utf8_lossy : Bytes → Str
unfolding lossy_from
from_utf8_lossy bytes = lossy_from none bytes
