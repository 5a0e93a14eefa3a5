-- ===== src/Prelude/Pieces.antt =====
-- Words that are joined by spaces and split at white space.
use mathlib.Core.Path.{◌≡◌, refl, sym, ap, ◌∙◌}
use mathlib.Core.Bool.{false}
use mathlib.Core.List.{List, [], ◌∷◌, ◌++◌, append-nil, append_assoc}
use native.Mathlib.Omega.{arith}
use esmail.Prelude.Text.{Str, codes, is_empty, is_whitespace, join}
use esmail.Prelude.Lists.{any, All}
use esmail.Prelude.Encoding.{flush_piece, pieces_from, split_whitespace}

-- A text that is not empty and has no white space.
abbrev pub IsWord : Str → Type 0
IsWord s = (is_empty s ≡ false) × (any is_whitespace s ≡ false)

pieces_from-append :
    (current word rest : Str)
    → any is_whitespace word ≡ false
    → pieces_from current (word ++ rest) ≡ pieces_from (current ++ word) rest
pieces_from-append current [] rest e = ap (λ s. pieces_from s rest) (sym (append-nil current))
pieces_from-append current (c ∷ word) rest e =
    ground
      (arith, pieces_from-append (current ++ c ∷ []) word rest, append_assoc current (c ∷ []) word)

flush_piece-word : (s : Str) (rest : List Str) → is_empty s ≡ false → flush_piece s rest ≡ s ∷ rest
flush_piece-word [] rest e = cc
flush_piece-word (c ∷ s) rest e = refl

pub split_whitespace-join :
    (words : List Str) → All IsWord words → split_whitespace (join words (codes " ")) ≡ words
split_whitespace-join [] h = refl
split_whitespace-join (w ∷ []) h =
    ap (pieces_from []) (sym (append-nil w))
    ∙ pieces_from-append [] w [] h.0.1
    ∙ flush_piece-word w [] h.0.0
split_whitespace-join (w ∷ v ∷ ws) h =
    let rest = join (v ∷ ws) (codes " ") in
    pieces_from-append [] w (codes " " ++ rest) h.0.1
    ∙ flush_piece-word w (split_whitespace rest) h.0.0
    ∙ ap (λ xs. w ∷ xs) (split_whitespace-join (v ∷ ws) h.1)
