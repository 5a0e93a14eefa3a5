-- ===== src/Examples/Lists.antt =====
-- Examples of crates/esmail-win32/src/selection.rs and of the folder tree of
-- crates/esmail/src/imap.rs.
use esmail.Prelude.{◌≡◌, none, some, [], ◌∷◌, codes, arith, str_eq}
use esmail.Selection.{Selection, new, click, ctrl_click, shift_click, insert}
use esmail.Selection.Bounds.{
  IsValid, Reach, start, next, clicked, ctrl_clicked, shift_clicked, inserted, Reach-IsValid,
}
use esmail.Folders.{Nodes, end, node, inbox, flatten_tree, visible_rows}
use esmail.Folders.Visible.{shown, rows_at, rows_at-visible_rows}

-- Rows 1 and 3 of five, the anchor on 1.
abbrev two_rows : Selection
two_rows = record { selected = 1 ∷ 3 ∷ []; anchor = some 1; focus = some 3 }

two_rows-IsValid : IsValid 5 two_rows
two_rows-IsValid = record { rows = ground arith; anchor_in = ground arith; focus_in = ground arith }

clicks : Reach 7 (insert 0 2 (shift_click 3 (ctrl_click 4 (click 1 new))))
clicks =
    next
      (next
        (next (next (start {n = 5}) (clicked {n = 5} {i = 1} (omega arith)))
          (ctrl_clicked {i = 4} (omega arith)))
        (shift_clicked {i = 3} (omega arith)))
      (inserted 0 2 (omega arith))

Reach-IsValid_example : IsValid 7 (insert 0 2 (shift_click 3 (ctrl_click 4 (click 1 new))))
Reach-IsValid_example = Reach-IsValid clicks

-- INBOX and Work, which has one folder.
abbrev tree : Nodes
tree = node (codes "INBOX") (some (codes "INBOX")) (some inbox) end (
    node (codes "Work") none none (node (codes "Bills") (some (codes "Work/Bills")) none end end)
      end)

rows_at-visible_rows_example :
    rows_at (flatten_tree tree) (visible_rows (flatten_tree tree) (str_eq (codes "Work")))
    ≡ shown (str_eq (codes "Work")) tree 0 []
rows_at-visible_rows_example = rows_at-visible_rows (str_eq (codes "Work")) tree
