-- ===== src/Selection.antt =====
-- crates/esmail-win32/src/selection.rs: the message list's selection. Row indices are `usize`, whose
-- addition wraps; `binary_search` stands for the standard library's on an ascending slice, which
-- every operation keeps (Selection/Bounds).
pub mod Sorted
pub mod Bounds
pub mod Rows
use esmail.Prelude.{
  ℕ, zero, suc, ◌+◌, ◌-◌, min, Bool, true, false, Option, none, some, List, [], ◌∷◌, map, ltb, leb,
  ◌==◌, if◌then◌else◌, keep, insert_at, remove_at, or_else, unwrap_or, add_u64, get_elem?,
}
use mathlib.Core.Option

pub record Selection : Type 0 where
  pub selected : List ℕ
  pub anchor : Option ℕ
  pub focus : Option ℕ

unfoldable pub new : Selection
new = record { selected = []; anchor = none; focus = none }

-- `slice::binary_search`: the position of the row, or where it would be inserted.
pub data Search : Type 0 where
  found : ℕ → Search
  missing : ℕ → Search

shift_search : Search → Search
shift_search (found i) = found (suc i)
shift_search (missing i) = missing (suc i)

unfoldable pub binary_search : List ℕ → ℕ → Search
unfolding shift_search
binary_search [] x = missing 0
binary_search (y ∷ ys) x =
    let rest = shift_search (binary_search ys x) in
    if x == y then found 0 else if ltb x y then missing 0 else rest

unfoldable pub click : ℕ → Selection → Selection
click index s = record { selected = index ∷ []; anchor = some index; focus = some index }

-- The `match` of `ctrl_click`.
pub toggle : Search → ℕ → List ℕ → List ℕ
toggle (found pos) index rows = remove_at rows pos
toggle (missing pos) index rows = insert_at rows pos index

unfoldable pub ctrl_click : ℕ → Selection → Selection
unfolding toggle
ctrl_click index s = record {
  selected = toggle (binary_search s.selected index) index s.selected;
  anchor = some index;
  focus = some index;
}

-- The rows `start, start + 1, ...`, `count` of them.
unfoldable pub rows_from : ℕ → ℕ → List ℕ
rows_from start zero = []
rows_from start (suc count) = start ∷ rows_from (suc start) count

-- The inclusive span between `a` and `b`: `(lo..=hi).collect()`.
unfoldable pub range : ℕ → ℕ → List ℕ
range a b = if leb a b then rows_from a (suc (b - a)) else rows_from b (suc (a - b))

unfoldable pub shift_click : ℕ → Selection → Selection
shift_click index s =
    let anchor = unwrap_or (or_else s.anchor s.focus) index in
    record s { selected = range anchor index; focus = some index }

unfoldable pub move_focus : ℕ → Bool → Bool → Selection → Selection
unfolding click
move_focus index ctrl shift s =
    if ctrl
    then record s { focus = some index }
    else if shift
    then (let anchor = unwrap_or (or_else s.anchor s.focus) index in
        record s { selected = range anchor index; focus = some index })
    else click index s

-- The closure `shift` of `insert`: where a row is after `count` rows came in at `at`.
unfoldable pub shift_in : ℕ → ℕ → ℕ → ℕ
shift_in at count row = if leb at row then add_u64 row count else row

unfoldable pub insert : ℕ → ℕ → Selection → Selection
insert at count s = record {
  selected = map (shift_in at count) s.selected;
  anchor = Option.map (shift_in at count) s.anchor;
  focus = Option.map (shift_in at count) s.focus;
}

-- The closure `shift` of `remove`: where a row is after `count` rows left at `at`, if it stayed.
unfoldable pub shift_out : ℕ → ℕ → ℕ → Option ℕ
shift_out at count row =
    if leb (add_u64 at count) row then some (row - count) else if ltb row at then some row else none

-- `filter_map` and `and_then`.
abbrev pub filter_map {ℓ κ} : {A : Type ℓ} {B : Type κ} → (A → Option B) → List A → List B
filter_map f [] = []
filter_map f (x ∷ xs) = let rest = filter_map f xs in elim (f x) [ none ↦ rest | some y ↦ y ∷ rest ]

abbrev pub and_then {ℓ κ} : {A : Type ℓ} {B : Type κ} → Option A → (A → Option B) → Option B
and_then none f = none
and_then (some a) f = f a

unfoldable pub remove : ℕ → ℕ → Selection → Selection
remove at count s = record {
  selected = filter_map (shift_out at count) s.selected;
  anchor = and_then s.anchor (shift_out at count);
  focus = and_then s.focus (shift_out at count);
}

unfoldable pub select_all : ℕ → Selection → Selection
unfolding rows_from
select_all len s = record { selected = rows_from 0 len; anchor = some 0; focus = some 0 }

-- `sort_unstable` and `dedup` of the standard library.
pub insert_sorted : ℕ → List ℕ → List ℕ
insert_sorted x [] = x ∷ []
insert_sorted x (y ∷ ys) = let rest = insert_sorted x ys in if leb x y then x ∷ y ∷ ys else y ∷ rest

pub sort : List ℕ → List ℕ
sort [] = []
sort (x ∷ xs) = insert_sorted x (sort xs)

-- `last` is the item kept before.
pub dedup_after : ℕ → List ℕ → List ℕ
dedup_after last [] = []
dedup_after last (x ∷ xs) =
    let rest = dedup_after x xs in
    let skip = dedup_after last xs in if x == last then skip else x ∷ rest

pub dedup : List ℕ → List ℕ
dedup [] = []
dedup (x ∷ xs) = x ∷ dedup_after x xs

unfoldable pub replace : List ℕ → ℕ → Selection → Selection
unfolding sort dedup insert_sorted dedup_after
replace rows len s =
    let next = dedup (sort (keep (λ row. ltb row len) rows)) in
    record { selected = next; anchor = get_elem? next 0; focus = get_elem? next 0 }

unfoldable pub clear : Selection → Selection
clear s = record { selected = []; anchor = none; focus = none }

pub is_found : Search → Bool
is_found (found i) = true
is_found (missing i) = false

unfoldable pub contains : ℕ → Selection → Bool
unfolding is_found
contains index s = is_found (binary_search s.selected index)

-- The key codes of the user interface library that the code compares with; `other` is any other key.
pub data Key : Type 0 where
  home end up down page_up page_down other : Key

nav_row : Key → Option ℕ → ℕ → ℕ → Option ℕ
nav_row home focus last page = some 0
nav_row end focus last page = some last
nav_row up none last page = some last
nav_row up (some row) last page = some (row - 1)
nav_row down none last page = some 0
nav_row down (some row) last page = some (add_u64 row 1)
nav_row page_up none last page = some last
nav_row page_up (some row) last page = some (row - page)
nav_row page_down none last page = some 0
nav_row page_down (some row) last page = some (add_u64 row page)
nav_row other focus last page = none

unfoldable pub nav_target : Key → Option ℕ → ℕ → ℕ → Option ℕ
unfolding nav_row
nav_target key focus zero page = none
nav_target key focus (suc last) page =
    Option.map (λ target. min target last) (nav_row key focus last page)

pub record Moved : Type 0 where
  pub focus : ℕ
  pub selection_changed : Bool

navigate_to : Option ℕ → Bool → Bool → Selection → Selection × Option Moved
navigate_to none ctrl shift s = (s, none)
navigate_to (some focus) ctrl shift s = (
  move_focus focus ctrl shift s,
  some (record { focus = focus; selection_changed = if ctrl then false else true }),
)

unfoldable pub navigate : Key → Bool → Bool → ℕ → ℕ → Selection → Selection × Option Moved
unfolding navigate_to
navigate key ctrl shift len page s = navigate_to (nav_target key s.focus len page) ctrl shift s
