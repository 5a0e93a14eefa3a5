-- ===== src/Folders.antt =====
-- crates/esmail/src/imap.rs: the folder tree that is built from the answer to LIST, and its rows.
pub mod Lookup
pub mod Visible
use esmail.Prelude.{
  ℕ, zero, suc, ◌-◌, Bool, true, false, not, ◌&&◌, ◌||◌, Option, none, some, List, [], ◌∷◌, ◌++◌,
  Str, codes, is_empty, ltb, leb, ◌==◌, if◌then◌else◌, str_eq, starts_with, to_ascii_lowercase,
  keep, take, drop, position, length, get_elem?, unwrap_or,
}

pub data SpecialUse : Type 0 where
  inbox sent drafts trash archive junk : SpecialUse

-- The attributes of RFC 6154 in a LIST answer; `other` stands for the remaining ones.
pub data NameAttribute : Type 0 where
  sent_attr drafts_attr trash_attr archive_attr junk_attr other : NameAttribute

unfoldable pub from_attribute : NameAttribute → Option SpecialUse
from_attribute sent_attr = some sent
from_attribute drafts_attr = some drafts
from_attribute trash_attr = some trash
from_attribute archive_attr = some archive
from_attribute junk_attr = some junk
from_attribute other = none

unfoldable pub from_name : Str → Option SpecialUse
from_name name =
    let n = to_ascii_lowercase name in
    let is = λ (s : Str). str_eq n s in
    if is (codes "inbox")
    then some inbox
    else if is (codes "sent") || is (codes "sent items") || is (codes "sent mail")
    then some sent
    else if is (codes "drafts")
    then some drafts
    else if is (codes "trash") || is (codes "deleted items")
    then some trash
    else if is (codes "archive")
    then some archive
    else if is (codes "junk") || is (codes "spam") || is (codes "junk e-mail")
    then some junk
    else none

pub record MailboxInfo : Type 0 where
  pub name : Str
  pub delimiter : Option Str
  pub special_use : Option SpecialUse
  pub noselect : Bool

-- A `Vec<MailboxNode>`: the label, full name, special use and children of its first node, and the
-- other nodes.
pub data Nodes : Type 0 where
  end : Nodes
  node : Str → Option Str → Option SpecialUse → Nodes → Nodes → Nodes

-- What `insert_path` changes of a node.
pub record Entry : Type 0 where
  pub full_name : Option Str
  pub special_use : Option SpecialUse
  pub children : Nodes

-- Changes the first node with the label; a new one is pushed at the end when there is none.
unfoldable pub with_node : Str → (Entry → Entry) → Nodes → Nodes
with_node label change end =
    let e = change (record { full_name = none; special_use = none; children = end }) in
    node label e.full_name e.special_use e.children end
with_node label change (node l full_name special_use children rest) =
    let e =
      change (record { full_name = full_name; special_use = special_use; children = children }) in
    let later = with_node label change rest in
    if str_eq l label
    then node l e.full_name e.special_use e.children rest
    else node l full_name special_use children later

-- The change of the last node on the path.
abbrev pub set_leaf : Str → Option SpecialUse → Bool → Entry → Entry
set_leaf full_name special_use noselect e = record e {
  full_name = if noselect then e.full_name else some full_name;
  special_use = special_use;
}

unfoldable pub insert_path : Nodes → List Str → Str → Option SpecialUse → Bool → Nodes
unfolding with_node
insert_path nodes [] full_name special_use noselect = nodes
insert_path nodes (first ∷ []) full_name special_use noselect =
    with_node first (set_leaf full_name special_use noselect) nodes
insert_path nodes (first ∷ second ∷ rest) full_name special_use noselect =
    with_node first
      (λ e. record e {
        children = insert_path e.children (second ∷ rest) full_name special_use noselect;
      })
      nodes

-- `str::split` with a string that is not empty: `skip` characters of the separator are left to
-- pass over.
unfoldable pub split_from : Str → ℕ → Str → Str → List Str
split_from d skip current [] = current ∷ []
split_from d (suc skip) current (c ∷ s) = split_from d skip current s
split_from d zero current (c ∷ s) =
    let found = current ∷ split_from d (length d - 1) [] s in
    let pushed = split_from d zero (current ++ c ∷ []) s in
    if starts_with (c ∷ s) d then found else pushed

unfoldable pub segments_of : MailboxInfo → List Str
unfolding split_from
segments_of mb = elim mb.delimiter [
  | some d ↦
      if is_empty d
      then mb.name ∷ []
      else keep (λ (s : Str). not (is_empty s)) (split_from d 0 [] mb.name)
  | none ↦ mb.name ∷ []
]

rank : Option SpecialUse → ℕ
rank (some inbox) = 0
rank (some sent) = 1
rank (some drafts) = 2
rank (some archive) = 3
rank (some junk) = 4
rank (some trash) = 5
rank none = 6

-- The order of strings, by code points.
abbrev pub str_leb : Str → Str → Bool
str_leb [] t = true
str_leb (c ∷ s) [] = false
str_leb (c ∷ s) (d ∷ t) = ltb c d || ((c == d) && str_leb s t)

-- Whether the node with the first label and use may stand before the other, as `sort_key` orders.
key_leb : Str → Option SpecialUse → Str → Option SpecialUse → Bool
unfolding rank
key_leb l u m v =
    ltb (rank u) (rank v)
    || ((rank u == rank v) && str_leb (to_ascii_lowercase l) (to_ascii_lowercase m))

-- A node goes before the first that it may stand before.
insert_sorted : Str → Option Str → Option SpecialUse → Nodes → Nodes → Nodes
unfolding key_leb
insert_sorted l full_name special_use children end = node l full_name special_use children end
insert_sorted l full_name special_use children (node m f u ch rest) =
    let later = insert_sorted l full_name special_use children rest in
    if key_leb l special_use m u
    then node l full_name special_use children (node m f u ch rest)
    else node m f u ch later

unfoldable pub sort_tree : Nodes → Nodes
unfolding insert_sorted
sort_tree end = end
sort_tree (node l full_name special_use children rest) =
    insert_sorted l full_name special_use (sort_tree children) (sort_tree rest)

unfoldable pub insert_all : List MailboxInfo → Nodes → Nodes
unfolding insert_path segments_of
insert_all [] roots = roots
insert_all (mb ∷ mbs) roots =
    insert_all mbs (insert_path roots (segments_of mb) mb.name mb.special_use mb.noselect)

unfoldable pub mailbox_tree : List MailboxInfo → Nodes
unfolding sort_tree insert_all
mailbox_tree mailboxes = sort_tree (insert_all mailboxes end)

pub record MailboxRow : Type 0 where
  pub depth : ℕ
  pub label : Str
  pub full_name : Option Str
  pub special_use : Option SpecialUse
  pub key : Str
  pub has_children : Bool

abbrev pub has_nodes : Nodes → Bool
has_nodes end = false
has_nodes (node l f u ch rest) = true

abbrev pub key_of : Str → Str → Str
key_of parent_key label = if is_empty parent_key then label else parent_key ++ (b'/' ∷ label)

unfoldable pub row_of : Str → Option Str → Option SpecialUse → Nodes → ℕ → Str → MailboxRow
row_of label full_name special_use children depth parent_key = record {
  depth = depth;
  label = label;
  full_name = full_name;
  special_use = special_use;
  key = key_of parent_key label;
  has_children = has_nodes children;
}

unfoldable pub flatten_into : Nodes → ℕ → Str → List MailboxRow
flatten_into end depth parent_key = []
flatten_into (node label full_name special_use children rest) depth parent_key =
    row_of label full_name special_use children depth parent_key
    ∷ (flatten_into children (suc depth) (key_of parent_key label)
        ++ flatten_into rest depth parent_key)

unfoldable pub flatten_tree : Nodes → List MailboxRow
unfolding flatten_into
flatten_tree nodes = flatten_into nodes 0 []

-- Whether a row is below the collapsed one whose depth is given.
abbrev pub is_hidden : Option ℕ → MailboxRow → Bool
is_hidden none row = false
is_hidden (some depth) row = ltb depth row.depth

-- The loop of `visible_rows` from row `index` on, with the keys of `collapsed` as a test.
unfoldable pub visible_from : (Str → Bool) → ℕ → Option ℕ → List MailboxRow → List ℕ
visible_from collapsed index hidden_below [] = []
visible_from collapsed index hidden_below (row ∷ rows) =
    let skipped = visible_from collapsed (suc index) hidden_below rows in
    let below = visible_from collapsed (suc index) (some row.depth) rows in
    let next = visible_from collapsed (suc index) none rows in
    if is_hidden hidden_below row
    then skipped
    else index ∷ (if row.has_children && collapsed row.key then below else next)

unfoldable pub visible_rows : List MailboxRow → (Str → Bool) → List ℕ
unfolding visible_from
visible_rows rows collapsed = visible_from collapsed 0 none rows

-- The rows after row `index` up to the next that is not deeper; `rows[index]` panics past the end,
-- which is `none`.
unfoldable pub descendants : List MailboxRow → ℕ → Option (List MailboxRow)
descendants rows index = elim (get_elem? rows index) [
  | none ↦ none
  | some row ↦
      let rest = drop (suc index) rows in
      let len =
        unwrap_or (position (λ (r : MailboxRow). leb r.depth row.depth) rest) (length rest) in
      some (take len rest)
]
