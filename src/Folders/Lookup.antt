-- ===== src/Folders/Lookup.antt =====
-- What stands in the tree under a path, after `insert_path`.
use esmail.Prelude.{
  ◌≡◌, ◌∙◌, refl, ap, sym, inl, inr, Bool, true, false, Option, none, some, List, [], ◌∷◌, Str,
  arith, str_eq, str_eq_refl, str_eq→eq, Bool-cases, if◌then◌else◌,
}
use mathlib.Core.Path.{subst}
use esmail.Folders.{SpecialUse, Nodes, end, node, Entry, with_node, set_leaf, insert_path}

-- The first node with the label.
unfoldable pub node_at : Str → Nodes → Option Entry
node_at label end = none
node_at label (node l full_name special_use children rest) =
    let later = node_at label rest in
    if str_eq l label
    then some (record { full_name = full_name; special_use = special_use; children = children })
    else later

abbrev pub fresh : Entry
fresh = record { full_name = none; special_use = none; children = end }

abbrev pub or_fresh : Option Entry → Entry
or_fresh none = fresh
or_fresh (some e) = e

node_at-with_node :
    (label : Str) (change : Entry → Entry) (nodes : Nodes)
    → node_at label (with_node label change nodes) ≡ some (change (or_fresh (node_at label nodes)))
unfolding node_at with_node
node_at-with_node label change end = rw (str_eq_refl label) refl
node_at-with_node label change (node l f u ch rest) =
    ground (arith, node_at-with_node label change rest)

node_at-with_node_other :
    (label other : Str) (change : Entry → Entry) (nodes : Nodes)
    → str_eq label other ≡ false
    → node_at other (with_node label change nodes) ≡ node_at other nodes
unfolding node_at with_node
node_at-with_node_other label other change end ne = rw ne refl
node_at-with_node_other label other change (node l f u ch rest) ne =
    ground (arith, node_at-with_node_other label other change rest ne, str_eq→eq l label)

-- The full name under a path, if a mailbox stands there that can be selected.
unfoldable pub find_path : List Str → Nodes → Option Str
unfolding node_at
find_path [] nodes = none
find_path (first ∷ []) nodes = (or_fresh (node_at first nodes)).full_name
find_path (first ∷ second ∷ rest) nodes =
    find_path (second ∷ rest) (or_fresh (node_at first nodes)).children

abbrev pub path_eq : List Str → List Str → Bool
path_eq [] [] = true
path_eq [] (b ∷ bs) = false
path_eq (a ∷ p) [] = false
path_eq (a ∷ p) (b ∷ q) = if str_eq a b then path_eq p q else false

-- What `find_path` and `insert_path` do in the node of the first label.
find_in : List Str → Entry → Option Str
unfolding find_path
find_in [] e = e.full_name
find_in (second ∷ rest) e = find_path (second ∷ rest) e.children

change_in : List Str → Str → Option SpecialUse → Bool → Entry → Entry
unfolding insert_path
change_in [] name u noselect e = set_leaf name u noselect e
change_in (second ∷ rest) name u noselect e = record e {
  children = insert_path e.children (second ∷ rest) name u noselect;
}

find_path-find_in :
    (first : Str) (rest : List Str) (nodes : Nodes)
    → find_path (first ∷ rest) nodes ≡ find_in rest (or_fresh (node_at first nodes))
unfolding find_path find_in
find_path-find_in first [] nodes = refl
find_path-find_in first (second ∷ rest) nodes = refl

insert_path-change_in :
    (first : Str) (rest : List Str) (nodes : Nodes) (name : Str) (u : Option SpecialUse)
    (noselect : Bool)
    → insert_path nodes (first ∷ rest) name u noselect
      ≡ with_node first (change_in rest name u noselect) nodes
unfolding insert_path change_in
insert_path-change_in first [] nodes name u noselect = refl
insert_path-change_in first (second ∷ rest) nodes name u noselect = refl

find_path-insert_path_first :
    (first : Str) (rest other : List Str) (nodes : Nodes) (name : Str) (u : Option SpecialUse)
    (noselect : Bool)
    → find_path (first ∷ other) (insert_path nodes (first ∷ rest) name u noselect)
      ≡ find_in other (change_in rest name u noselect (or_fresh (node_at first nodes)))
find_path-insert_path_first first rest other nodes name u noselect =
    find_path-find_in first other (insert_path nodes (first ∷ rest) name u noselect)
    ∙ ap (λ n. find_in other (or_fresh (node_at first n)))
        (insert_path-change_in first rest nodes name u noselect)
    ∙ ap (λ e. find_in other (or_fresh e))
        (node_at-with_node first (change_in rest name u noselect) nodes)

-- A mailbox that LIST reports as selectable stands under its path with its full name; one that it
-- reports as not selectable leaves the path as it was. The path is not empty.
find_path-insert_path :
    (first : Str) (rest : List Str) (nodes : Nodes) (name : Str) (u : Option SpecialUse)
    (noselect : Bool)
    → find_path (first ∷ rest) (insert_path nodes (first ∷ rest) name u noselect)
      ≡ (if noselect then find_path (first ∷ rest) nodes else some name)
unfolding find_in change_in
find_path-insert_path first [] nodes name u noselect =
    find_path-insert_path_first first [] [] nodes name u noselect
    ∙ (elim noselect
        as (λ n.
          find_in [] (change_in [] name u n (or_fresh (node_at first nodes)))
          ≡ (if n then find_path (first ∷ []) nodes else some name)) [
            | true ↦ sym (find_path-find_in first [] nodes)
            | false ↦ refl
          ])
find_path-insert_path first (second ∷ rest) nodes name u noselect =
    let e = or_fresh (node_at first nodes) in
    find_path-insert_path_first first (second ∷ rest) (second ∷ rest) nodes name u noselect
    ∙ find_path-insert_path second rest e.children name u noselect
    ∙ ap (λ p. if noselect then p else some name)
        (sym (find_path-find_in first (second ∷ rest) nodes))

-- A path to another node keeps what stands under it, if one through the same node does.
find_path-insert_path_step :
    (a b : Str) (path other : List Str) (nodes : Nodes) (name : Str) (u : Option SpecialUse)
    (noselect : Bool)
    → (str_eq a b ≡ true
        → (e : Entry) → find_in other (change_in path name u noselect e) ≡ find_in other e)
    → find_path (b ∷ other) (insert_path nodes (a ∷ path) name u noselect)
      ≡ find_path (b ∷ other) nodes
find_path-insert_path_step a b path other nodes name u noselect same =
    elim (Bool-cases (str_eq a b)) [
      | inl e ↦
          let tail = same e in
          subst
            (λ c.
              find_path (c ∷ other) (insert_path nodes (a ∷ path) name u noselect)
              ≡ find_path (c ∷ other) nodes)
            (str_eq→eq a b e)
            (find_path-insert_path_first a path other nodes name u noselect
              ∙ tail (or_fresh (node_at a nodes))
              ∙ sym (find_path-find_in a other nodes))
      | inr e ↦
          find_path-find_in b other (insert_path nodes (a ∷ path) name u noselect)
          ∙ ap (λ n. find_in other (or_fresh (node_at b n)))
              (insert_path-change_in a path nodes name u noselect)
          ∙ ap (λ n. find_in other (or_fresh n))
              (node_at-with_node_other a b (change_in path name u noselect) nodes e)
          ∙ sym (find_path-find_in b other nodes)
    ]

-- The other paths keep what stands under them.
find_path-insert_path_other :
    (path other : List Str) (nodes : Nodes) (name : Str) (u : Option SpecialUse) (noselect : Bool)
    → path_eq path other ≡ false
    → find_path other (insert_path nodes path name u noselect) ≡ find_path other nodes
unfolding find_path insert_path find_in change_in
find_path-insert_path_other [] other nodes name u noselect ne = refl
find_path-insert_path_other (a ∷ path) [] nodes name u noselect ne = refl
find_path-insert_path_other (a ∷ []) (b ∷ []) nodes name u noselect ne =
    find_path-insert_path_step a b [] [] nodes name u noselect (λ e n. absurd (ground arith))
find_path-insert_path_other (a ∷ []) (b ∷ b2 ∷ other) nodes name u noselect ne =
    find_path-insert_path_step a b [] (b2 ∷ other) nodes name u noselect (λ e n. refl)
find_path-insert_path_other (a ∷ a2 ∷ path) (b ∷ []) nodes name u noselect ne =
    find_path-insert_path_step a b (a2 ∷ path) [] nodes name u noselect (λ e n. refl)
find_path-insert_path_other (a ∷ a2 ∷ path) (b ∷ b2 ∷ other) nodes name u noselect ne =
    find_path-insert_path_step a b (a2 ∷ path) (b2 ∷ other) nodes name u noselect (λ e n.
      find_path-insert_path_other (a2 ∷ path) (b2 ∷ other) n.children name u noselect
        (ground arith))
