-- ===== src/FolderTree.antt =====
-- crates/esmail-win32/src/core_glue/folders.rs: the tree of accounts and folders in the left pane. A
-- hash map is the list of its entries. A node's id, an i64 in the code, is its pattern of 64 bits.
pub mod Ids
use Prim.Native.Nat.{bit_xor}
use esmail.Prelude.{
  ℕ, zero, suc, ◌+◌, ◌*◌, ◌/◌, ◌%◌, ◌^◌, max, Bool, true, not, ◌&&◌, Option, none, some, List, [],
  ◌∷◌, ◌++◌, map, Str, codes, Bytes, as_bytes, str_eq, eq_ignore_ascii_case, is_empty, leb, ltb,
  ◌==◌, if◌then◌else◌, keep, drop, find, position, get_elem?, length, u32_mod, u64_mod, add_u32,
}
use esmail.Prelude.Decimal.{to_string}
use esmail.Folders.{SpecialUse, inbox, MailboxInfo, MailboxRow, mailbox_tree, flatten_tree}
use esmail.ViewModel.{find_special_use_mailbox}

pub record Node : Type 0 where
  pub text : Str
  pub id : ℕ
  pub has_children : Bool

pub record FolderRef : Type 0 where
  pub account : ℕ
  pub mailbox : Str

pub record AccountFolders : Type 0 where
  pub label : Str
  pub rows : List MailboxRow
  pub unread : List (Str × ℕ)

abbrev pub FolderTree : Type 0
FolderTree = List AccountFolders

-- The shift loses the high bits of the account.
unfoldable pub make_id : ℕ → ℕ → ℕ
make_id account folder = account * u32_mod % u64_mod + folder

unfoldable pub split_id : ℕ → ℕ × ℕ
split_id id = (id / u32_mod, id % u32_mod)

-- The steps of FNV-1a over the bytes.
unfoldable pub fnv : ℕ → Bytes → ℕ
fnv hash [] = hash
fnv hash (byte ∷ bytes) = fnv (bit_xor hash byte * 16777619 % u32_mod) bytes

unfoldable pub folder_hash : Str → ℕ
unfolding fnv
folder_hash key = max (fnv 2166136261 (as_bytes key)) 1

unfoldable pub new : List Str → FolderTree
new labels = map (λ label. record { label = label; rows = []; unread = [] }) labels

-- `if let Some(entry) = self.accounts.get_mut(account)`.
abbrev pub with_account : ℕ → (AccountFolders → AccountFolders) → FolderTree → FolderTree
with_account account change [] = []
with_account zero change (a ∷ tree) = change a ∷ tree
with_account (suc account) change (a ∷ tree) = a ∷ with_account account change tree

unfoldable pub set_mailboxes : ℕ → List MailboxInfo → FolderTree → FolderTree
set_mailboxes account mailboxes tree =
    with_account account (λ a. record a { rows = flatten_tree (mailbox_tree mailboxes) }) tree

unfoldable pub has_folders : ℕ → FolderTree → Bool
has_folders account tree = elim (get_elem? tree account) [
  | none ↦ Bool.false
  | some a ↦ not (is_empty a.rows)
]

abbrev pub cached_info : Str → MailboxInfo
cached_info name = record {
  name = name;
  delimiter = none;
  special_use = if eq_ignore_ascii_case name (codes "INBOX") then some inbox else none;
  noselect = Bool.false;
}

unfoldable pub set_cached_mailboxes : ℕ → List Str → FolderTree → FolderTree
unfolding has_folders set_mailboxes
set_cached_mailboxes account names tree =
    if has_folders account tree then tree else set_mailboxes account (map cached_info names) tree

-- `insert` and `get` of the map of the unread counts.
unfoldable pub put_count : Str → ℕ → List (Str × ℕ) → List (Str × ℕ)
put_count name count [] = (name, count) ∷ []
put_count name count ((n, c) ∷ m) =
    let rest = put_count name count m in if str_eq n name then (n, count) ∷ m else (n, c) ∷ rest

unfoldable pub count_of : Str → List (Str × ℕ) → Option ℕ
count_of name [] = none
count_of name ((n, c) ∷ m) = let rest = count_of name m in if str_eq n name then some c else rest

unfoldable pub extend : List (Str × ℕ) → List (Str × ℕ) → List (Str × ℕ)
unfolding put_count
extend [] m = m
extend ((name, count) ∷ counts) m = extend counts (put_count name count m)

unfoldable pub set_unread : ℕ → List (Str × ℕ) → FolderTree → FolderTree
unfolding extend
set_unread account unread tree =
    with_account account (λ a. record a { unread = extend unread a.unread }) tree

-- The label of a folder, with the count that was found.
abbrev pub text_with : Str → Option ℕ → Str
text_with label none = label
text_with label (some count) =
    if ltb 0 count then label ++ (codes " (" ++ (to_string count ++ codes ")")) else label

abbrev pub count_at : Option Str → List (Str × ℕ) → Option ℕ
count_at none m = none
count_at (some name) m = count_of name m

unfoldable pub folder_text : MailboxRow → AccountFolders → Str
folder_text row a = text_with row.label (count_at row.full_name a.unread)

-- `take_while` of the rows that are at least as deep.
unfoldable pub take_deep : ℕ → List MailboxRow → List MailboxRow
take_deep depth [] = []
take_deep depth (row ∷ rows) =
    let rest = take_deep depth rows in if leb depth row.depth then row ∷ rest else []

unfoldable pub nodes_from : ℕ → AccountFolders → ℕ → List MailboxRow → List Node
unfolding take_deep folder_text make_id folder_hash
nodes_from account a depth rows =
    map
      (λ (row : MailboxRow). record {
        text = folder_text row a;
        id = make_id account (folder_hash row.key);
        has_children = row.has_children;
      })
      (keep (λ (row : MailboxRow). row.depth == depth) (take_deep depth rows))

account_nodes : ℕ → FolderTree → List Node
unfolding make_id
account_nodes account [] = []
account_nodes account (a ∷ tree) =
    record { text = a.label; id = make_id account 0; has_children = true }
    ∷ account_nodes (suc account) tree

-- The rows behind the row with the hash, one level deeper.
unfoldable pub nodes_below : ℕ → AccountFolders → ℕ → List MailboxRow → List Node
nodes_below account a folder [] = []
nodes_below account a folder (row ∷ rows) =
    let later = nodes_below account a folder rows in
    if folder_hash row.key == folder then nodes_from account a (suc row.depth) rows else later

unfoldable pub nodes_of : ℕ → ℕ → Option AccountFolders → List Node
unfolding nodes_below nodes_from
nodes_of account folder none = []
nodes_of account folder (some a) =
    if folder == 0 then nodes_from account a 0 a.rows else nodes_below account a folder a.rows

unfoldable pub children : Option ℕ → FolderTree → List Node
unfolding account_nodes nodes_of split_id
children none tree = account_nodes 0 tree
children (some parent) tree =
    let (account, folder) = split_id parent in nodes_of account folder (get_elem? tree account)

-- The row with the hash, of an account that may be there.
abbrev pub row_in : ℕ → Option AccountFolders → Option MailboxRow
row_in folder none = none
row_in folder (some a) = find (λ (row : MailboxRow). folder_hash row.key == folder) a.rows

abbrev pub folder_ref : ℕ → Option MailboxRow → Option FolderRef
folder_ref account none = none
folder_ref account (some row) = elim row.full_name [
  | none ↦ none
  | some name ↦ some (record { account = account; mailbox = name })
]

abbrev pub folder_in : ℕ × ℕ → FolderTree → Option FolderRef
folder_in (account, folder) tree =
    if folder == 0 then none else folder_ref account (row_in folder (get_elem? tree account))

unfoldable pub selection : ℕ → FolderTree → Option FolderRef
unfolding split_id folder_hash
selection id tree = folder_in (split_id id) tree

abbrev pub key_at : ℕ → Option MailboxRow → Option (ℕ × Str)
key_at account none = none
key_at account (some row) = some (account, row.key)

abbrev pub key_in : ℕ × ℕ → FolderTree → Option (ℕ × Str)
key_in (account, folder) tree =
    if folder == 0 then none else key_at account (row_in folder (get_elem? tree account))

unfoldable pub row_key : ℕ → FolderTree → Option (ℕ × Str)
unfolding split_id folder_hash
row_key id tree = key_in (split_id id) tree

unfoldable pub rows_with_ids : ℕ → FolderTree → List (ℕ × Str × Bool × ℕ)
unfolding make_id folder_hash
rows_with_ids account tree = elim (get_elem? tree account) [
  | none ↦ []
  | some a ↦
      map
        (λ (row : MailboxRow).
          (make_id account (folder_hash row.key), row.key, row.has_children, row.depth))
        a.rows
]

special_folder : ℕ → SpecialUse → Str → FolderTree → Str
special_folder account want default tree = elim (get_elem? tree account) [
  | none ↦ default
  | some a ↦ find_special_use_mailbox a.rows want default
]

-- The sum over the inboxes of an account and of all accounts.
inbox_count : List (Str × ℕ) → ℕ
inbox_count [] = 0
inbox_count ((name, count) ∷ m) =
    let rest = inbox_count m in
    if eq_ignore_ascii_case name (codes "INBOX") then add_u32 count rest else rest

inbox_unread : FolderTree → ℕ
unfolding inbox_count
inbox_unread [] = 0
inbox_unread (a ∷ tree) = add_u32 (inbox_count a.unread) (inbox_unread tree)

unread : FolderRef → FolderTree → Option ℕ
unfolding count_of
unread folder tree = elim (get_elem? tree folder.account) [
  | none ↦ none
  | some a ↦ count_of folder.mailbox a.unread
]

full_names : List MailboxRow → List Str
full_names [] = []
full_names (row ∷ rows) =
    let rest = full_names rows in elim row.full_name [ none ↦ rest | some name ↦ name ∷ rest ]

mailbox_names : ℕ → FolderTree → List Str
unfolding full_names
mailbox_names account tree = elim (get_elem? tree account) [
  | none ↦ []
  | some a ↦ full_names a.rows
]
