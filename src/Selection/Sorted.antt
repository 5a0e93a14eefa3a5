-- ===== src/Selection/Sorted.antt =====
-- The ascending row lists behind crates/esmail-win32/src/selection.rs.
use esmail.Prelude.{
  ℕ, zero, suc, ◌+◌, ◌-◌, ◌≤◌, ◌<◌, ◌≡◌, refl, Bool, false, not, ◌&&◌, ◌||◌, List, [], ◌∷◌, map,
  arith, ltb, leb, ◌==◌, if◌then◌else◌, keep, min, u64_mod,
}
use esmail.Selection.{
  binary_search, is_found, toggle, rows_from, shift_in, shift_out, filter_map, insert_sorted, sort,
  dedup_after, dedup,
}

-- Strictly ascending, with every row in lo..hi.
abbrev pub Within : ℕ → ℕ → List ℕ → Type 0
Within lo hi [] = Unit
Within lo hi (x ∷ xs) = (lo ≤ x) × (x < hi) × Within (suc x) hi xs

-- The same, where a row may be repeated.
abbrev pub WithinWeak : ℕ → ℕ → List ℕ → Type 0
WithinWeak lo hi [] = Unit
WithinWeak lo hi (x ∷ xs) = (lo ≤ x) × (x < hi) × WithinWeak x hi xs

abbrev pub has : ℕ → List ℕ → Bool
has y [] = false
has y (x ∷ xs) = y == x || has y xs

pub Within-widen :
    (lo hi lo' hi' : ℕ) (xs : List ℕ) → lo' ≤ lo → hi ≤ hi' → Within lo hi xs → Within lo' hi' xs
Within-widen lo hi lo' hi' [] p q w = tt
Within-widen lo hi lo' hi' (x ∷ xs) p q w =
    (omega arith, omega arith, Within-widen (suc x) hi (suc x) hi' xs (omega arith) q w.2)

pub has_below : (y lo hi : ℕ) (xs : List ℕ) → Within lo hi xs → y < lo → has y xs ≡ false
has_below y lo hi [] w lt = refl
has_below y lo hi (x ∷ xs) w lt = ground (arith, has_below y (suc x) hi xs)

pub binary_search-has :
    (y lo hi : ℕ) (xs : List ℕ) → Within lo hi xs → is_found (binary_search xs y) ≡ has y xs
unfolding binary_search is_found
binary_search-has y lo hi [] w = refl
binary_search-has y lo hi (x ∷ xs) w =
    ground (arith, has_below y (suc x) hi xs, binary_search-has y (suc x) hi xs)

pub toggle-Within :
    (y lo hi : ℕ) (xs : List ℕ)
    → Within lo hi xs
    → lo ≤ y
    → y < hi
    → Within lo hi (toggle (binary_search xs y) y xs)
unfolding binary_search toggle
toggle-Within y lo hi [] w p q = (p, q, tt)
toggle-Within y lo hi (x ∷ xs) w p q = ground (
  arith,
  toggle-Within y (suc x) hi xs,
  Within-widen (suc x) hi lo hi xs,
  Within-widen (suc x) hi (suc y) hi xs,
)

pub has-toggle :
    (z y lo hi : ℕ) (xs : List ℕ)
    → Within lo hi xs
    → has z (toggle (binary_search xs y) y xs) ≡ (if z == y then not (has y xs) else has z xs)
unfolding binary_search toggle
has-toggle z y lo hi [] w = ground arith
has-toggle z y lo hi (x ∷ xs) w =
    ground (arith, has-toggle z y (suc x) hi xs, has_below y (suc x) hi xs)

pub rows_from-Within : (start count : ℕ) → Within start (start + count) (rows_from start count)
unfolding rows_from
rows_from-Within start zero = tt
rows_from-Within start (suc count) = (
  omega arith,
  omega arith,
  Within-widen (suc start) (suc start + count) (suc start) (start + suc count)
      (rows_from (suc start) count) (omega arith) (omega arith)
      (rows_from-Within (suc start) count),
)

pub has-rows_from :
    (y start count : ℕ) → has y (rows_from start count) ≡ (leb start y && ltb y (start + count))
unfolding rows_from
has-rows_from y start zero = ground arith
has-rows_from y start (suc count) = ground (arith, has-rows_from y (suc start) count)

-- After `count` rows came in at `at`, the rows above one stay above it.
pub shift_in-Within :
    (at count lo hi : ℕ) (xs : List ℕ)
    → hi + count < u64_mod
    → lo ≤ hi
    → Within lo hi xs
    → Within (if leb at lo then lo + count else lo) (hi + count) (map (shift_in at count) xs)
unfolding shift_in
shift_in-Within at count lo hi [] p q w = tt
shift_in-Within at count lo hi (x ∷ xs) p q w =
    let rest = shift_in-Within at count (suc x) hi xs p (omega arith) w.2 in
    (
      ground arith,
      ground arith,
      Within-widen (if leb at (suc x) then suc x + count else suc x) (hi + count)
          (suc (shift_in at count x)) (hi + count) (map (shift_in at count) xs) (ground arith)
          (omega arith) rest,
    )

-- After `count` rows left at `at`, the rows that stayed are ascending.
pub shift_out-Within :
    (at count lo hi : ℕ) (xs : List ℕ)
    → at + count ≤ hi
    → hi < u64_mod
    → Within lo hi xs
    → Within
        (if leb (at + count) lo then lo - count else min lo at)
        (hi - count)
        (filter_map (shift_out at count) xs)
unfolding shift_out
shift_out-Within at count lo hi [] p q w = tt
shift_out-Within at count lo hi (x ∷ xs) p q w =
    let rest = shift_out-Within at count (suc x) hi xs p q w.2 in
    let moved = filter_map (shift_out at count) xs in
    let from = (if leb (at + count) (suc x) then suc x - count else min (suc x) at) in
    let to = (if leb (at + count) lo then lo - count else min lo at) in
    ground (
      arith,
      Within-widen from (hi - count) to (hi - count) moved,
      Within-widen from (hi - count) (suc x) (hi - count) moved,
      Within-widen from (hi - count) (suc (x - count)) (hi - count) moved,
    )

pub insert_sorted-WithinWeak :
    (y lo hi : ℕ) (xs : List ℕ)
    → WithinWeak lo hi xs
    → lo ≤ y
    → y < hi
    → WithinWeak lo hi (insert_sorted y xs)
unfolding insert_sorted
insert_sorted-WithinWeak y lo hi [] w p q = (p, q, tt)
insert_sorted-WithinWeak y lo hi (x ∷ xs) w p q = ground (arith, insert_sorted-WithinWeak y x hi xs)

pub has-insert_sorted : (z y : ℕ) (xs : List ℕ) → has z (insert_sorted y xs) ≡ (z == y || has z xs)
unfolding insert_sorted
has-insert_sorted z y [] = refl
has-insert_sorted z y (x ∷ xs) = ground (arith, has-insert_sorted z y xs)

pub sort-WithinWeak :
    (len : ℕ) (xs : List ℕ) → WithinWeak 0 len (sort (keep (λ row. ltb row len) xs))
unfolding sort
sort-WithinWeak len [] = tt
sort-WithinWeak len (x ∷ xs) = ground (
  arith,
  sort-WithinWeak len xs,
  insert_sorted-WithinWeak x 0 len (sort (keep (λ row. ltb row len) xs)),
)

pub has-sort-keep :
    (z len : ℕ) (xs : List ℕ)
    → has z (sort (keep (λ row. ltb row len) xs)) ≡ (has z xs && ltb z len)
unfolding sort
has-sort-keep z len [] = refl
has-sort-keep z len (x ∷ xs) =
    ground
      (arith, has-sort-keep z len xs, has-insert_sorted z x (sort (keep (λ row. ltb row len) xs)))

pub dedup_after-Within :
    (last hi : ℕ) (xs : List ℕ) → WithinWeak last hi xs → Within (suc last) hi (dedup_after last xs)
unfolding dedup_after
dedup_after-Within last hi [] w = tt
dedup_after-Within last hi (x ∷ xs) w =
    ground (arith, dedup_after-Within x hi xs, dedup_after-Within last hi xs)

pub has_below_weak : (y lo hi : ℕ) (xs : List ℕ) → WithinWeak lo hi xs → y < lo → has y xs ≡ false
has_below_weak y lo hi [] w lt = refl
has_below_weak y lo hi (x ∷ xs) w lt = ground (arith, has_below_weak y x hi xs)

pub has-dedup_after :
    (z last hi : ℕ) (xs : List ℕ)
    → WithinWeak last hi xs
    → has z (dedup_after last xs) ≡ (has z xs && not (z == last))
unfolding dedup_after
has-dedup_after z last hi [] w = refl
has-dedup_after z last hi (x ∷ xs) w =
    ground
      (arith, has-dedup_after z x hi xs, has-dedup_after z last hi xs, has_below_weak z x hi xs)

pub replaced-Within : (len : ℕ) (xs : List ℕ) → WithinWeak 0 len xs → Within 0 len (dedup xs)
unfolding dedup
replaced-Within len [] w = tt
replaced-Within len (x ∷ xs) w = ground (arith, dedup_after-Within x len xs)

pub has-dedup : (z len : ℕ) (xs : List ℕ) → WithinWeak 0 len xs → has z (dedup xs) ≡ has z xs
unfolding dedup
has-dedup z len [] w = refl
has-dedup z len (x ∷ xs) w = ground (arith, has-dedup_after z x len xs)
