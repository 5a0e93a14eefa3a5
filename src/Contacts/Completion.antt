-- ===== src/Contacts/Completion.antt =====
-- The token at the caret and the edit that completes it, in crates/esmail/src/contacts.rs.
use esmail.Prelude.{
  ℕ, suc, ◌+◌, min, Bool, true, false, Option, none, some, [], ◌∷◌, ◌++◌, Str, codes, length, take,
  drop, any, position, length-append, trim_start, ltb, ◌==◌, if◌then◌else◌, ◌≡◌, refl, ap, ap₂, sym,
  ◌∙◌, arith,
}
use mathlib.Core.List.{append-nil, append_assoc}
use esmail.Mail.{rfind}
use esmail.Contacts.{start_after, end_before, token_bounds, complete_at, complete_recipient}

abbrev pub is_comma : ℕ → Bool
is_comma c = c == b','

rfind-absent : (s : Str) → any is_comma s ≡ false → rfind b',' s ≡ none
unfolding rfind
rfind-absent [] h = refl
rfind-absent (c ∷ s) h = ground (arith, rfind-absent s)

rfind-last : (b s : Str) → any is_comma s ≡ false → rfind b',' (b ++ b',' ∷ s) ≡ some (length b)
unfolding rfind
rfind-last [] s h = rw (rfind-absent s h) refl
rfind-last (c ∷ b) s h = rw (rfind-last b s h) refl

position-absent : (s : Str) → any is_comma s ≡ false → position is_comma s ≡ none
position-absent [] h = refl
position-absent (c ∷ s) h = ground (arith, position-absent s)

position-first :
    (s r : Str) → any is_comma s ≡ false → position is_comma (s ++ b',' ∷ r) ≡ some (length s)
position-first [] r h = refl
position-first (c ∷ s) r h = ground (arith, position-first s r)

take-all_before : (xs ys : Str) → take (length xs) (xs ++ ys) ≡ xs
take-all_before [] ys = refl
take-all_before (x ∷ xs) ys = ap (λ r. x ∷ r) (take-all_before xs ys)

drop-all_before : (xs ys : Str) → drop (length xs) (xs ++ ys) ≡ ys
drop-all_before [] ys = refl
drop-all_before (x ∷ xs) ys = drop-all_before xs ys

-- The text before a token, up to the comma before it, and the text behind one, from its comma on.
abbrev pub front : Option Str → Str
front none = []
front (some b) = b ++ b',' ∷ []

abbrev pub behind : Option Str → Str
behind none = []
behind (some r) = b',' ∷ r

-- What the edit makes of them.
abbrev pub kept_front : Option Str → Str
kept_front none = []
kept_front (some b) = b ++ codes ", "

abbrev pub kept_behind : Option Str → Str
kept_behind none = []
kept_behind (some r) = trim_start r

start-front :
    (b : Option Str) (s : Str)
    → any is_comma s ≡ false
    → start_after (rfind b',' (front b ++ s)) ≡ length (front b)
start-front none s h = rw (rfind-absent s h) refl
start-front (some b) s h =
    ap (λ t. start_after (rfind b',' t)) (append_assoc b (b',' ∷ []) s)
    ∙ rw (rfind-last b s h) (omega (arith, length-append b (b',' ∷ [])))

end-behind :
    (len at : ℕ) (s : Str) (r : Option Str)
    → any is_comma s ≡ false
    → len ≡ at + length (s ++ behind r)
    → end_before len at (position is_comma (s ++ behind r)) ≡ at + length s
end-behind len at s none h e =
    let whole = append-nil s in
    ap (λ t. end_before len at (position is_comma t)) whole
    ∙ rw (position-absent s h) (e ∙ ap (λ t. at + length t) whole)
end-behind len at s (some r) h e = rw (position-first s r h) refl

-- The token `s ++ t` between the text before and behind it, with the caret behind `s`.
abbrev pub around : Option Str → Str → Str → Option Str → Str
around b s t r = front b ++ (s ++ (t ++ behind r))

token_bounds-around :
    (b : Option Str) (s t : Str) (r : Option Str)
    → any is_comma s ≡ false
    → any is_comma t ≡ false
    → token_bounds (around b s t r) (length (front b) + length s)
      ≡ (length (front b), length (front b) + length s + length t)
unfolding token_bounds
token_bounds-around b s t r hs ht =
    let before = front b ++ s in
    let after = t ++ behind r in
    let text : around b s t r ≡ before ++ after = sym (append_assoc (front b) s after) in
    let len : length (around b s t r) ≡ length before + length after =
      ap length text ∙ length-append before after in
    let caret : length (front b) + length s ≡ length before = sym (length-append (front b) s) in
    let at : min (length (front b) + length s) (length (around b s t r)) ≡ length before =
      omega (arith, len, caret) in
    ap₂ (λ x y. (x, y))
      (ap₂ (λ n u. start_after (rfind b',' (take n u))) at text
        ∙ ap (λ u. start_after (rfind b',' u)) (take-all_before before after)
        ∙ start-front b s hs)
      (ap₂ (λ n u. end_before (length (around b s t r)) n (position is_comma (drop n u))) at text
        ∙ ap (λ u. end_before (length (around b s t r)) (length before) (position is_comma u))
            (drop-all_before before after)
        ∙ end-behind (length (around b s t r)) (length before) t r ht len
        ∙ ap (λ n. n + length t) (sym caret))

drop-behind : (c : ℕ) (xs ys : Str) → drop (suc (length xs)) (xs ++ c ∷ ys) ≡ ys
drop-behind c [] ys = refl
drop-behind c (x ∷ xs) ys = drop-behind c xs ys

-- The space goes behind the comma before the token.
front-gap :
    (b : Option Str) (rest : Str)
    → front b ++ ((if ltb 0 (length (front b)) then codes " " else []) ++ rest)
      ≡ kept_front b ++ rest
front-gap none rest = refl
front-gap (some b) rest =
    let some_text : ltb 0 (length (b ++ b',' ∷ [])) ≡ true =
      ground (arith, length-append b (b',' ∷ [])) in
    rw some_text
      (append_assoc b (b',' ∷ []) (codes " " ++ rest) ∙ sym (append_assoc b (codes ", ") rest))

length-front :
    (b : Option Str)
    → length (front b) + (if ltb 0 (length (front b)) then 1 else 0) ≡ length (kept_front b)
length-front none = refl
length-front (some b) = ground (arith, length-append b (b',' ∷ []), length-append b (codes ", "))

behind-rest :
    (before : Str) (r : Option Str)
    → (if ltb (length before) (length (before ++ behind r))
        then trim_start (drop (suc (length before)) (before ++ behind r))
        else [])
      ≡ kept_behind r
behind-rest before none =
    let none_left : ltb (length before) (length (before ++ [])) ≡ false =
      ground (arith, length-append before []) in
    rw none_left refl
behind-rest before (some r) =
    let some_left : ltb (length before) (length (before ++ b',' ∷ r)) ≡ true =
      ground (arith, length-append before (b',' ∷ r)) in
    rw some_left (ap trim_start (drop-behind b',' before r))

complete_at-around :
    (b : Option Str) (s t : Str) (r : Option Str) (insertion : Str)
    → complete_at
        (around b s t r)
        (length (front b), length (front b) + length s + length t)
        insertion
      ≡ (
        kept_front b ++ (insertion ++ (codes ", " ++ kept_behind r)),
        length (kept_front b ++ (insertion ++ codes ", ")),
      )
unfolding complete_at
complete_at-around b s t r insertion =
    let text = around b s t r in
    let before = front b ++ (s ++ t) in
    let whole : text ≡ before ++ behind r =
      ap (λ u. front b ++ u) (sym (append_assoc s t (behind r)))
      ∙ sym (append_assoc (front b) (s ++ t) (behind r)) in
    let end : length (front b) + length s + length t ≡ length before =
      omega (arith, length-append (front b) (s ++ t), length-append s t) in
    let gap = if ltb 0 (length (front b)) then codes " " else [] in
    let rest = λ (n : ℕ) (u : Str). if ltb n (length u) then trim_start (drop (suc n) u) else [] in
    ap₂ (λ x y. (x, y))
      (ap₂ (λ x y. x ++ (gap ++ (insertion ++ (codes ", " ++ y))))
          (take-all_before (front b) (s ++ (t ++ behind r)))
          (ap₂ rest end whole ∙ behind-rest before r)
        ∙ front-gap b (insertion ++ (codes ", " ++ kept_behind r)))
      (omega (
        arith,
        length-front b,
        length-append (kept_front b) (insertion ++ codes ", "),
        length-append insertion (codes ", "),
      ))

-- With the caret behind `s` in a token `s ++ t` without a comma, before which the field has nothing
-- or a text that ends with a comma, and behind which it has nothing or a comma and more: completing
-- the token puts the insertion and ", " in its place, with a space behind the comma before it; the
-- text before that comma stays, and so does, but for spaces at its start, the text behind the comma
-- after the token; and the caret comes to stand behind the insertion's ", ".
pub complete_recipient-around :
    (b : Option Str) (s t : Str) (r : Option Str) (insertion : Str)
    → any is_comma s ≡ false
    → any is_comma t ≡ false
    → complete_recipient (around b s t r) (length (front b) + length s) insertion ≡ (
      kept_front b ++ (insertion ++ (codes ", " ++ kept_behind r)),
      length (kept_front b ++ (insertion ++ codes ", ")),
    )
unfolding complete_recipient
complete_recipient-around b s t r insertion hs ht =
    ap (λ p. complete_at (around b s t r) p insertion) (token_bounds-around b s t r hs ht)
    ∙ complete_at-around b s t r insertion
