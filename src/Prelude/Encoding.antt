-- ===== src/Prelude/Encoding.antt =====
-- More of the standard library on strings: case, ends, and the bytes of a string in UTF-8.
use Prim.Native.Nat.{ℕ, ◌+◌, ◌-◌, ◌/◌, ◌%◌}
use mathlib.Core.Bool.{Bool, true, false, ◌&&◌}
use mathlib.Core.Option.{Option, none, some}
use mathlib.Core.List.{List, [], ◌∷◌, ◌++◌, map, reverse}
use esmail.Prelude.Tests.{ltb, leb, if◌then◌else◌}
use esmail.Prelude.Text.{Str, is_whitespace, starts_with, strip_prefix}

abbrev pub to_upper : ℕ → ℕ
to_upper c = if leb 97 c && leb c 122 then c - 32 else c

abbrev pub to_ascii_uppercase : Str → Str
to_ascii_uppercase = map to_upper

-- `ends_with` and `strip_suffix`.
abbrev pub ends_with : Str → Str → Bool
ends_with s p = starts_with (reverse s) (reverse p)

abbrev pub reversed : Option Str → Option Str
reversed none = none
reversed (some s) = some (reverse s)

abbrev pub strip_suffix : Str → Str → Option Str
strip_suffix s p = reversed (strip_prefix (reverse s) (reverse p))

-- `trim_start_matches` and `trim_end_matches` with a test on characters.
abbrev pub trim_start_where : (ℕ → Bool) → Str → Str
trim_start_where p [] = []
trim_start_where p (c ∷ s) =
    let rest = trim_start_where p s in elim (p c) [ true ↦ rest | false ↦ c ∷ s ]

abbrev pub trim_end_where : (ℕ → Bool) → Str → Str
trim_end_where p s = reverse (trim_start_where p (reverse s))

abbrev pub flush_piece : Str → List Str → List Str
flush_piece [] rest = rest
flush_piece (c ∷ cs) rest = (c ∷ cs) ∷ rest

-- `split_whitespace`, with the piece read so far.
abbrev pub pieces_from : Str → Str → List Str
pieces_from current [] = flush_piece current []
pieces_from current (c ∷ s) =
    let ended = flush_piece current (pieces_from [] s) in
    let pushed = pieces_from (current ++ c ∷ []) s in
    elim (is_whitespace c) [ true ↦ ended | false ↦ pushed ]

abbrev pub split_whitespace : Str → List Str
split_whitespace s = pieces_from [] s

-- `as_bytes`: UTF-8.
abbrev pub Bytes : Type 0
Bytes = List ℕ

abbrev pub utf8 : ℕ → Bytes
utf8 c =
    if ltb c 128
    then c ∷ []
    else if ltb c 2048
    then (192 + c / 64) ∷ (128 + c % 64) ∷ []
    else if ltb c 65536
    then (224 + c / 4096) ∷ (128 + c / 64 % 64) ∷ (128 + c % 64) ∷ []
    else (240 + c / 262144) ∷ (128 + c / 4096 % 64) ∷ (128 + c / 64 % 64) ∷ (128 + c % 64) ∷ []

unfoldable pub as_bytes : Str → Bytes
as_bytes [] = []
as_bytes (c ∷ s) = utf8 c ++ as_bytes s

abbrev pub crlf : Str
crlf = 13 ∷ 10 ∷ []

-- `format!` and a vector of parts: the parts in order.
abbrev pub concat : List (List ℕ) → List ℕ
concat [] = []
concat (p ∷ ps) = p ++ concat ps
