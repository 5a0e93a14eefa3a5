-- ===== src/Selection/Rows.antt =====
-- Which rows are selected after each operation of crates/esmail-win32/src/selection.rs, as
-- `contains` answers.
use esmail.Prelude.{
  ℕ, suc, ◌+◌, ◌-◌, ◌≤◌, ◌<◌, ◌≡◌, ◌∙◌, sym, refl, ap, ◌&&◌, not, Option, none, some, List, [], ◌∷◌,
  map, arith, ltb, leb, ◌==◌, min, max, or_else, unwrap_or, if◌then◌else◌, u64_mod, keep,
}
use mathlib.Core.Option
use esmail.Selection.{
  Selection, ctrl_click, shift_click, insert, remove, replace, select_all, contains, range,
  shift_in, shift_out, and_then, filter_map, sort, toggle, binary_search,
}
use esmail.Selection.Sorted.{
  Within, has, binary_search-has, toggle-Within, has-toggle, has-rows_from, sort-WithinWeak,
  has-sort-keep, has-dedup,
}
use esmail.Selection.Bounds.{
  IsValid, InBounds, extended-Within, insert-IsValid, remove-IsValid, replace-IsValid,
}

contains-has : (row len : ℕ) (s : Selection) → IsValid len s → contains row s ≡ has row s.selected
unfolding contains
contains-has row len s v = binary_search-has row 0 len s.selected v.rows

-- A Ctrl+click on a row of a valid selection toggles that row and leaves every other as it was.
contains-ctrl_click :
    (row index len : ℕ) (s : Selection)
    → IsValid len s
    → index < len
    → contains row (ctrl_click index s)
      ≡ (if row == index then not (contains index s) else contains row s)
unfolding contains ctrl_click
contains-ctrl_click row index len s v lt = ground (
  arith,
  binary_search-has row 0 len (toggle (binary_search s.selected index) index s.selected)
      (toggle-Within index 0 len s.selected v.rows (omega arith) lt),
  binary_search-has row 0 len s.selected v.rows,
  binary_search-has index 0 len s.selected v.rows,
  has-toggle row index 0 len s.selected v.rows,
)

has-range : (row a b : ℕ) → has row (range a b) ≡ (leb (min a b) row && leb row (max a b))
unfolding range
has-range row a b =
    ground (arith, has-rows_from row a (suc (b - a)), has-rows_from row b (suc (a - b)))

-- A Shift+click selects exactly the rows between the anchor and the row clicked, both included;
-- the focus stands in for a missing anchor, and the row clicked for both.
contains-shift_click :
    (row index len : ℕ) (s : Selection)
    → IsValid len s
    → index < len
    → let from = unwrap_or (or_else s.anchor s.focus) index in
      contains row (shift_click index s) ≡ (leb (min from index) row && leb row (max from index))
unfolding contains shift_click
contains-shift_click row index len s v lt =
    let from = unwrap_or (or_else s.anchor s.focus) index in
    binary_search-has row 0 len (range from index) (extended-Within len index s lt v)
    ∙ has-range row from index

has-map-shift_in :
    (row at count hi : ℕ) (xs : List ℕ) (lo : ℕ)
    → hi + count < u64_mod
    → row < hi
    → Within lo hi xs
    → has (shift_in at count row) (map (shift_in at count) xs) ≡ has row xs
unfolding shift_in
has-map-shift_in row at count hi [] lo p q w = refl
has-map-shift_in row at count hi (x ∷ xs) lo p q w =
    ground (arith, has-map-shift_in row at count hi xs (suc x) p q w.2)

-- After `count` rows came in at `at`, each old row is selected at its new place exactly if it was
-- selected before.
contains-insert :
    (row at count len : ℕ) (s : Selection)
    → IsValid len s
    → len + count < u64_mod
    → row < len
    → contains (shift_in at count row) (insert at count s) ≡ contains row s
unfolding insert
contains-insert row at count len s v p q =
    contains-has (shift_in at count row) (len + count) (insert at count s)
      (insert-IsValid at count len s p v)
    ∙ has-map-shift_in row at count len s.selected 0 p q v.rows
    ∙ sym (contains-has row len s v)

shift_out-shift_in :
    (row at count len : ℕ)
    → len + count < u64_mod
    → row < len
    → at ≤ len
    → shift_out at count (shift_in at count row) ≡ some row
unfolding shift_out shift_in
shift_out-shift_in row at count len p q r = ground arith

filter_map-map :
    (at count len lo : ℕ) (xs : List ℕ)
    → len + count < u64_mod
    → at ≤ len
    → Within lo len xs
    → filter_map (shift_out at count) (map (shift_in at count) xs) ≡ xs
filter_map-map at count len lo [] p q w = refl
filter_map-map at count len lo (x ∷ xs) p q w =
    rw (shift_out-shift_in x at count len p w.1 q, filter_map)
      (ap (λ rest. x ∷ rest) (filter_map-map at count len (suc x) xs p q w.2))

back_home :
    (at count len : ℕ) (o : Option ℕ)
    → len + count < u64_mod
    → InBounds len o
    → at ≤ len
    → and_then (Option.map (shift_in at count) o) (shift_out at count) ≡ o
back_home at count len none p b q = refl
back_home at count len (some row) p b q = shift_out-shift_in row at count len p b q

-- Removing the rows that were just inserted restores the selection, the anchor and the focus.
remove-insert :
    (at count len : ℕ) (s : Selection)
    → IsValid len s
    → len + count < u64_mod
    → at ≤ len
    → remove at count (insert at count s) ≡ s
unfolding remove insert
remove-insert at count len s v p q = ground (
  arith,
  filter_map-map at count len 0 s.selected p q v.rows,
  back_home at count len s.anchor p v.anchor_in q,
  back_home at count len s.focus p v.focus_in q,
)

has-filter_map :
    (row to at count hi lo : ℕ) (xs : List ℕ)
    → at + count ≤ hi
    → hi < u64_mod
    → shift_out at count row ≡ some to
    → Within lo hi xs
    → has to (filter_map (shift_out at count) xs) ≡ has row xs
unfolding shift_out
has-filter_map row to at count hi lo [] p q e w = refl
has-filter_map row to at count hi lo (x ∷ xs) p q e w =
    ground (arith, has-filter_map row to at count hi (suc x) xs p q e w.2)

-- After `count` rows left at `at`, each row that stayed is selected at its new place exactly if it
-- was selected before.
contains-remove :
    (row to at count len : ℕ) (s : Selection)
    → IsValid len s
    → len < u64_mod
    → at + count ≤ len
    → shift_out at count row ≡ some to
    → contains to (remove at count s) ≡ contains row s
unfolding remove
contains-remove row to at count len s v p q e =
    contains-has to (len - count) (remove at count s) (remove-IsValid at count len s q p v)
    ∙ has-filter_map row to at count len 0 s.selected q p e v.rows
    ∙ sym (contains-has row len s v)

-- A selection that the application sets holds exactly the rows given that exist.
contains-replace :
    (row len : ℕ) (rows : List ℕ) (s : Selection)
    → contains row (replace rows len s) ≡ (has row rows && ltb row len)
unfolding replace
contains-replace row len rows s =
    contains-has row len (replace rows len s) (replace-IsValid rows len s)
    ∙ has-dedup row len (sort (keep (λ r. ltb r len) rows)) (sort-WithinWeak len rows)
    ∙ has-sort-keep row len rows

-- Select all on an empty list leaves a focus that exists in no later list: once `count` messages
-- have come in, the focus is the row just past the last one.
select_all-insert_empty :
    (count : ℕ) (s : Selection)
    → count < u64_mod
    → (insert 0 count (select_all 0 s)).focus ≡ some count
unfolding insert select_all shift_in
select_all-insert_empty count s lt = ground arith
