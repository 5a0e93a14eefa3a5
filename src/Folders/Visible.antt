-- ===== src/Folders/Visible.antt =====
-- The rows that `visible_rows` keeps, from the tree.
use esmail.Prelude.{
  ℕ, suc, ◌≤◌, ◌<◌, ◌≡◌, ◌∙◌, refl, ap, sym, Bool, true, false, ◌&&◌, Option, none, some, List, [],
  ◌∷◌, ◌++◌, Str, arith, length, get_elem?, if◌then◌else◌, length-append,
}
use mathlib.Core.List.{append-nil, append_assoc}
use mathlib.Core.Path.{subst}
use esmail.Folders.{
  Nodes, end, node, MailboxRow, row_of, key_of, has_nodes, flatten_into, flatten_tree, is_hidden,
  visible_from, visible_rows,
}

-- The rows of the tree with the children of each collapsed node left out.
unfoldable pub shown : (Str → Bool) → Nodes → ℕ → Str → List MailboxRow
shown collapsed end depth parent_key = []
shown collapsed (node label f u children rest) depth parent_key =
    let below = shown collapsed children (suc depth) (key_of parent_key label) in
    let later = shown collapsed rest depth parent_key in
    row_of label f u children depth parent_key
    ∷ ((if collapsed (key_of parent_key label) then [] else below) ++ later)

-- The loop of `visible_rows` with the rows themselves.
scan : (Str → Bool) → Option ℕ → List MailboxRow → List MailboxRow
scan collapsed hidden [] = []
scan collapsed hidden (row ∷ rows) =
    let skipped = scan collapsed hidden rows in
    let below = scan collapsed (some row.depth) rows in
    let next = scan collapsed none rows in
    if is_hidden hidden row
    then skipped
    else row ∷ (if row.has_children && collapsed row.key then below else next)

-- Rows of depth `d` and less are not hidden.
abbrev IsOpen : ℕ → Option ℕ → Type 0
IsOpen d none = 0 ≤ d
IsOpen d (some h) = d ≤ h

scan-hidden :
    (collapsed : Str → Bool) (nodes : Nodes) (d h : ℕ) (k : Str) (after : List MailboxRow)
    → h < d
    → scan collapsed (some h) (flatten_into nodes d k ++ after) ≡ scan collapsed (some h) after
unfolding scan flatten_into row_of
scan-hidden collapsed end d h k after lt = refl
scan-hidden collapsed (node l f u ch rest) d h k after lt = ground (
  arith,
  append_assoc (flatten_into ch (suc d) (key_of k l)) (flatten_into rest d k) after,
  scan-hidden collapsed ch (suc d) h (key_of k l) (flatten_into rest d k ++ after),
  scan-hidden collapsed rest d h k after lt,
)

IsOpen-hidden :
    (d : ℕ) (hidden : Option ℕ) (row : MailboxRow)
    → IsOpen d hidden
    → row.depth ≡ d
    → is_hidden hidden row ≡ false
IsOpen-hidden d none row o e = refl
IsOpen-hidden d (some h) row o e = ground arith

IsOpen-suc : (d : ℕ) (hidden : Option ℕ) → IsOpen (suc d) hidden → IsOpen d hidden
IsOpen-suc d none o = omega arith
IsOpen-suc d (some h) o = omega arith

-- A first row that is not hidden is kept; below it, rows are hidden if it is collapsed.
scan-node :
    (collapsed : Str → Bool) (hidden : Option ℕ) (row : MailboxRow) (rows : List MailboxRow)
    → is_hidden hidden row ≡ false
    → scan collapsed hidden (row ∷ rows)
      ≡ row
        ∷ scan collapsed
            (if row.has_children && collapsed row.key then some row.depth else none)
            rows
unfolding scan
scan-node collapsed hidden row rows e = ground arith

-- The rows below a node: none if it has no children, hidden ones if it is collapsed.
below-shown :
    (has_children is_collapsed : Bool) (d : ℕ) (found : Option ℕ → List MailboxRow)
    (below rest : List MailboxRow)
    → found (some d) ≡ rest
    → found none ≡ below ++ rest
    → (has_children ≡ false → below ≡ [])
    → found (if has_children && is_collapsed then some d else none)
      ≡ (if is_collapsed then [] else below) ++ rest
below-shown true true d found below rest hidden plain none_below = hidden
below-shown true false d found below rest hidden plain none_below = plain
below-shown false true d found below rest hidden plain none_below =
    plain ∙ ap (λ l. l ++ rest) (none_below refl)
below-shown false false d found below rest hidden plain none_below = plain

shown-has_nodes :
    (collapsed : Str → Bool) (nodes : Nodes) (d : ℕ) (k : Str)
    → has_nodes nodes ≡ false
    → shown collapsed nodes d k ≡ []
unfolding shown
shown-has_nodes collapsed end d k e = refl
shown-has_nodes collapsed (node l f u ch rest) d k e = absurd (cc e)

scan-shown :
    (collapsed : Str → Bool) (nodes : Nodes) (d : ℕ) (k : Str) (hidden : Option ℕ)
    (after tail : List MailboxRow)
    → IsOpen d hidden
    → ((h : Option ℕ) → IsOpen d h → scan collapsed h after ≡ tail)
    → scan collapsed hidden (flatten_into nodes d k ++ after) ≡ shown collapsed nodes d k ++ tail
unfolding flatten_into shown row_of
scan-shown collapsed end d k hidden after tail o next = next hidden o
scan-shown collapsed (node l f u ch rest) d k hidden after tail o next =
    let row = row_of l f u ch d k in
    let key = key_of k l in
    let below = flatten_into ch (suc d) key in
    let later = flatten_into rest d k ++ after in
    let rest_shown = shown collapsed rest d k ++ tail in
    let ch_shown = shown collapsed ch (suc d) key in
    let on_rest =
      λ (h : Option ℕ) (oh : IsOpen d h). scan-shown collapsed rest d k h after tail oh next in
    ap (λ r. scan collapsed hidden (row ∷ r)) (append_assoc below (flatten_into rest d k) after)
    ∙ scan-node collapsed hidden row (below ++ later) (IsOpen-hidden d hidden row o refl)
    ∙ ap (λ r. row ∷ r)
        (below-shown (has_nodes ch) (collapsed key) d (λ h. scan collapsed h (below ++ later))
          ch_shown rest_shown
          (scan-hidden collapsed ch (suc d) d key later (omega arith)
            ∙ on_rest (some d) (omega arith))
          (scan-shown collapsed ch (suc d) key none later rest_shown (omega arith)
            (λ h oh. on_rest h (IsOpen-suc d h oh)))
          (shown-has_nodes collapsed ch (suc d) key))
    ∙ ap (λ r. row ∷ r)
        (sym
          (append_assoc (if collapsed key then [] else ch_shown) (shown collapsed rest d k) tail))

-- The rows at the indices.
unfoldable pub rows_at : List MailboxRow → List ℕ → List MailboxRow
rows_at rows [] = []
rows_at rows (i ∷ is) = elim (get_elem? rows i) [
  | some r ↦ r ∷ rows_at rows is
  | none ↦ rows_at rows is
]

get_elem?-append :
    (before : List MailboxRow) (row : MailboxRow) (rows : List MailboxRow)
    → get_elem? (before ++ row ∷ rows) (length before) ≡ some row
get_elem?-append [] row rows = refl
get_elem?-append (b ∷ before) row rows = get_elem?-append before row rows

rows_at-visible_from :
    (collapsed : Str → Bool) (before rows : List MailboxRow) (hidden : Option ℕ)
    → rows_at (before ++ rows) (visible_from collapsed (length before) hidden rows)
      ≡ scan collapsed hidden rows
unfolding rows_at visible_from scan
rows_at-visible_from collapsed before [] hidden = refl
rows_at-visible_from collapsed before (row ∷ rows) hidden =
    let next = λ (h : Option ℕ).
      subst
        (λ l.
          rows_at l (visible_from collapsed (suc (length before)) h rows) ≡ scan collapsed h rows)
        (append_assoc before (row ∷ []) rows)
        (subst
          (λ n.
            rows_at ((before ++ row ∷ []) ++ rows) (visible_from collapsed n h rows)
            ≡ scan collapsed h rows)
          (ground (arith, length-append before (row ∷ [])))
          (rows_at-visible_from collapsed (before ++ row ∷ []) rows h)) in
    ground (arith, get_elem?-append before row rows, next hidden, next none, next (some row.depth))

-- The rows that the folder list draws are those of the tree in which each collapsed node has no
-- children, in the order of the tree.
pub rows_at-visible_rows :
    (collapsed : Str → Bool) (nodes : Nodes)
    → rows_at (flatten_tree nodes) (visible_rows (flatten_tree nodes) collapsed)
      ≡ shown collapsed nodes 0 []
unfolding visible_rows flatten_tree scan
rows_at-visible_rows collapsed nodes =
    let rows = flatten_into nodes 0 [] in
    rows_at-visible_from collapsed [] rows none
    ∙ ap (scan collapsed none) (sym (append-nil rows))
    ∙ scan-shown collapsed nodes 0 [] none [] [] (omega arith) (λ h o. refl)
    ∙ append-nil (shown collapsed nodes 0 [])
