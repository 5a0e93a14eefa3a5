-- ===== src/Selection/Bounds.antt =====
-- The message list over time: every way in which crates/esmail-win32/src/selection.rs changes a
-- selection, with the model's length as crates/esmail-win32/src/state.rs keeps it.
use esmail.Prelude.{
  ℕ, zero, suc, ◌+◌, ◌-◌, ◌≤◌, ◌<◌, Bool, true, false, Option, none, some, List, [], ◌∷◌, map,
  arith, ltb, leb, min, or_else, unwrap_or, if◌then◌else◌, get_elem?, u64_mod, keep,
}
use native.Mathlib.Nat.{zero-add}
use esmail.Selection.{
  Selection, Key, home, end, up, down, page_up, page_down, other, new, click, ctrl_click,
  shift_click, move_focus, insert, remove, select_all, replace, clear, nav_target, navigate,
  navigate_to, range, rows_from, shift_in, shift_out, filter_map, sort, dedup,
}
use esmail.Selection.Sorted.{
  Within, Within-widen, toggle-Within, rows_from-Within, shift_in-Within, shift_out-Within,
  sort-WithinWeak, replaced-Within,
}

-- A row that exists, if there is one.
abbrev pub InBounds : ℕ → Option ℕ → Type 0
InBounds len none = Unit
InBounds len (some row) = row < len

-- The selected rows are ascending with no repetition, and they, the anchor and the focus are rows
-- of the model.
pub record IsValid (len : ℕ) (s : Selection) : Type 0 where
  pub rows : Within 0 len s.selected
  pub anchor_in : InBounds len s.anchor
  pub focus_in : InBounds len s.focus

pub new-IsValid : (len : ℕ) → IsValid len new
unfolding new
new-IsValid len = ground arith

pub range-Within : (a b len : ℕ) → a < len → b < len → Within 0 len (range a b)
unfolding range
range-Within a b len p q = ground (
  arith,
  rows_from-Within a (suc (b - a)),
  rows_from-Within b (suc (a - b)),
  Within-widen a (a + suc (b - a)) 0 len (rows_from a (suc (b - a))),
  Within-widen b (b + suc (a - b)) 0 len (rows_from b (suc (a - b))),
)

extend_row : (index : ℕ) (s : Selection) → ℕ
extend_row index s = unwrap_or (or_else s.anchor s.focus) index

module _ (len index : ℕ) (s : Selection) (lt : index < len) (v : IsValid len s) where
  click-IsValid : IsValid len (click index s)
  unfolding click
  click-IsValid = ground arith

  ctrl_click-IsValid : IsValid len (ctrl_click index s)
  unfolding ctrl_click
  ctrl_click-IsValid = ground (arith, toggle-Within index 0 len s.selected)

  extend-lt : unwrap_or (or_else s.anchor s.focus) index < len
  extend-lt = ground arith

  pub extended-Within : Within 0 len (range (unwrap_or (or_else s.anchor s.focus) index) index)
  extended-Within = range-Within (unwrap_or (or_else s.anchor s.focus) index) index len extend-lt lt

  shift_click-IsValid : IsValid len (shift_click index s)
  unfolding shift_click
  shift_click-IsValid = record { rows = extended-Within; anchor_in = v.anchor_in; focus_in = lt }

  move_focus-IsValid : (ctrl shift : Bool) → IsValid len (move_focus index ctrl shift s)
  unfolding move_focus
  move_focus-IsValid true shift = record { rows = v.rows; anchor_in = v.anchor_in; focus_in = lt }
  move_focus-IsValid false true = record {
    rows = extended-Within;
    anchor_in = v.anchor_in;
    focus_in = lt;
  }
  move_focus-IsValid false false = click-IsValid

-- A navigation key leads to a row of the model.
pub nav_target-lt :
    (key : Key) (focus : Option ℕ) (len page : ℕ) → InBounds len (nav_target key focus len page)
unfolding nav_target
nav_target-lt key focus zero page = tt
nav_target-lt home focus (suc last) page = omega arith
nav_target-lt end focus (suc last) page = omega arith
nav_target-lt up none (suc last) page = omega arith
nav_target-lt up (some row) (suc last) page = omega arith
nav_target-lt down none (suc last) page = omega arith
nav_target-lt down (some row) (suc last) page = omega arith
nav_target-lt page_up none (suc last) page = omega arith
nav_target-lt page_up (some row) (suc last) page = omega arith
nav_target-lt page_down none (suc last) page = omega arith
nav_target-lt page_down (some row) (suc last) page = omega arith
nav_target-lt other focus (suc last) page = tt

navigate_to-IsValid :
    (target : Option ℕ) (ctrl shift : Bool) (len : ℕ) (s : Selection)
    → InBounds len target
    → IsValid len s
    → IsValid len (navigate_to target ctrl shift s).0
unfolding navigate_to
navigate_to-IsValid none ctrl shift len s lt v = v
navigate_to-IsValid (some row) ctrl shift len s lt v = move_focus-IsValid len row s lt v ctrl shift

navigate-IsValid :
    (key : Key) (ctrl shift : Bool) (len page : ℕ) (s : Selection)
    → IsValid len s
    → IsValid len (navigate key ctrl shift len page s).0
unfolding navigate
navigate-IsValid key ctrl shift len page s v =
    navigate_to-IsValid (nav_target key s.focus len page) ctrl shift len s
      (nav_target-lt key s.focus len page) v

pub insert-IsValid :
    (at count len : ℕ) (s : Selection)
    → len + count < u64_mod
    → IsValid len s
    → IsValid (len + count) (insert at count s)
unfolding insert shift_in
insert-IsValid at count len s lt v = record {
  rows =
      Within-widen (if leb at 0 then 0 + count else 0) (len + count) 0 (len + count)
        (map (shift_in at count) s.selected) (omega arith) (omega arith)
        (shift_in-Within at count 0 len s.selected lt (omega arith) v.rows);
  anchor_in = ground arith;
  focus_in = ground arith;
}

pub remove-IsValid :
    (at count len : ℕ) (s : Selection)
    → at + count ≤ len
    → len < u64_mod
    → IsValid len s
    → IsValid (len - count) (remove at count s)
unfolding remove shift_out
remove-IsValid at count len s fits lt v = record {
  rows =
      Within-widen (if leb (at + count) 0 then 0 - count else min 0 at) (len - count) 0
        (len - count) (filter_map (shift_out at count) s.selected) (omega arith) (omega arith)
        (shift_out-Within at count 0 len s.selected fits lt v.rows);
  anchor_in = ground arith;
  focus_in = ground arith;
}

select_all-IsValid : (len : ℕ) (s : Selection) → 0 < len → IsValid len (select_all len s)
unfolding select_all
select_all-IsValid len s lt = record {
  rows = rw zero-add at (rows_from-Within 0 len);
  anchor_in = lt;
  focus_in = lt;
}

first-InBounds : (len : ℕ) (xs : List ℕ) → Within 0 len xs → InBounds len (get_elem? xs 0)
first-InBounds len [] w = tt
first-InBounds len (x ∷ xs) w = w.1

pub replace-IsValid : (rows : List ℕ) (len : ℕ) (s : Selection) → IsValid len (replace rows len s)
unfolding replace
replace-IsValid rows len s =
    let next = sort (keep (λ row. ltb row len) rows) in
    let w = replaced-Within len next (sort-WithinWeak len rows) in
    record {
      rows = w;
      anchor_in = first-InBounds len (dedup next) w;
      focus_in = first-InBounds len (dedup next) w;
    }

-- One change of the list: `Step n s m t` leads from a model of `n` rows with selection `s` to one
-- of `m` rows with selection `t`. Clicks are on rows that exist, edits are of rows that exist.
pub data Step : ℕ → Selection → ℕ → Selection → Type 0 where
  clicked : {n i : ℕ} {s : Selection} → i < n → Step n s n (click i s)
  ctrl_clicked : {n i : ℕ} {s : Selection} → i < n → Step n s n (ctrl_click i s)
  shift_clicked : {n i : ℕ} {s : Selection} → i < n → Step n s n (shift_click i s)
  navigated :
      {n : ℕ} {s : Selection} (key : Key) (ctrl shift : Bool) (page : ℕ)
      → Step n s n (navigate key ctrl shift n page s).0
  inserted :
      {n : ℕ} {s : Selection} (at count : ℕ)
      → n + count < u64_mod
      → Step n s (n + count) (insert at count s)
  removed :
      {n : ℕ} {s : Selection} (at count : ℕ)
      → at + count ≤ n
      → n < u64_mod
      → Step n s (n - count) (remove at count s)
  extended : {n m : ℕ} {s : Selection} → n ≤ m → Step n s m s
  all_selected : {n : ℕ} {s : Selection} → 0 < n → Step n s n (select_all n s)
  replaced : {n : ℕ} {s : Selection} (rows : List ℕ) → Step n s n (replace rows n s)
  cleared : {n m : ℕ} {s : Selection} → Step n s m (clear s)

pub data Reach : ℕ → Selection → Type 0 where
  start : {n : ℕ} → Reach n new
  next : {n m : ℕ} {s t : Selection} → Reach n s → Step n s m t → Reach m t

widen-IsValid : (n m : ℕ) (s : Selection) → n ≤ m → IsValid n s → IsValid m s
widen-IsValid n m s le v = record {
  rows = Within-widen 0 n 0 m s.selected (omega arith) le v.rows;
  anchor_in = ground arith;
  focus_in = ground arith;
}

clear-IsValid : (m : ℕ) (s : Selection) → IsValid m (clear s)
unfolding clear
clear-IsValid m s = ground arith

-- Every change of the list keeps the selection valid.
pub Step-IsValid : {n m : ℕ} {s t : Selection} → Step n s m t → IsValid n s → IsValid m t
Step-IsValid (clicked {n} {i} {s} lt) v = click-IsValid n i s lt v
Step-IsValid (ctrl_clicked {n} {i} {s} lt) v = ctrl_click-IsValid n i s lt v
Step-IsValid (shift_clicked {n} {i} {s} lt) v = shift_click-IsValid n i s lt v
Step-IsValid (navigated {n} {s} key ctrl shift page) v = navigate-IsValid key ctrl shift n page s v
Step-IsValid (inserted {n} {s} at count lt) v = insert-IsValid at count n s lt v
Step-IsValid (removed {n} {s} at count fits lt) v = remove-IsValid at count n s fits lt v
Step-IsValid (extended {n} {m} {s} le) v = widen-IsValid n m s le v
Step-IsValid (all_selected {n} {s} lt) v = select_all-IsValid n s lt
Step-IsValid (replaced {n} {s} rows) v = replace-IsValid rows n s
Step-IsValid (cleared {n} {m} {s}) v = clear-IsValid m s

-- In every state that the list reaches from an empty selection, by clicks on rows that exist,
-- navigation keys, edits of rows that exist and select all where there are rows, the selected rows
-- are ascending with no repetition, and they, the anchor and the focus are rows of the model.
pub Reach-IsValid : {n : ℕ} {s : Selection} → Reach n s → IsValid n s
Reach-IsValid (start {n}) = new-IsValid n
Reach-IsValid (next r st) = Step-IsValid st (Reach-IsValid r)
