-- ===== src/FolderTree/Ids.antt =====
-- That the id of a node leads back to the folder it was made for.
use Prim.Native.Nat.{bit_xor}
use esmail.Prelude.{
  ℕ, ◌*◌, ◌%◌, ◌^◌, ◌≤◌, ◌<◌, ◌≡◌, refl, ap, ◌∙◌, ap₂, Bool, true, false, some, List, [], ◌∷◌, Str,
  Bytes, as_bytes, arith, ◌==◌, find, get_elem?, All, All-imp, u32_mod,
}
use esmail.Folders.{MailboxRow}
use esmail.FolderTree.{
  AccountFolders, FolderTree, make_id, split_id, fnv, folder_hash, folder_ref, key_in, folder_in,
  selection, row_key,
}

split_id-make_id :
    (account folder : ℕ)
    → account < 2 ^ 31
    → folder < u32_mod
    → split_id (make_id account folder) ≡ (account, folder)
unfolding split_id make_id
split_id-make_id account folder few lt =
    ap₂ (λ a f. (a, f)) (omega (arith, few, lt)) (omega (arith, few, lt))

fnv-bound : (hash : ℕ) (bytes : Bytes) → hash < u32_mod → fnv hash bytes < u32_mod
unfolding fnv
fnv-bound hash [] lt = lt
fnv-bound hash (byte ∷ bytes) lt =
    fnv-bound (bit_xor hash byte * 16777619 % u32_mod) bytes (omega arith)

-- A folder's hash fits its half of the id and is not that of an account.
folder_hash-bound : (key : Str) → (1 ≤ folder_hash key) × (folder_hash key < u32_mod)
unfolding folder_hash
folder_hash-bound key =
    let small = fnv-bound 2166136261 (as_bytes key) (omega arith) in
    (omega arith, omega (arith, small))

abbrev has_hash : Str → MailboxRow → Bool
has_hash key row = folder_hash row.key == folder_hash key

-- No two folders have the same hash.
abbrev pub IsDistinct : List MailboxRow → Type 0
IsDistinct [] = true ≡ true
IsDistinct (row ∷ rows) =
    All (λ (r : MailboxRow). (folder_hash row.key == folder_hash r.key) ≡ false) rows
    × IsDistinct rows

abbrev IsFound : List MailboxRow → MailboxRow → Type 0
IsFound rows row = find (has_hash row.key) rows ≡ some row

All-IsFound_cons :
    (row : MailboxRow) (rows xs : List MailboxRow)
    → All (λ (r : MailboxRow). (folder_hash row.key == folder_hash r.key) ≡ false) xs
    → All (IsFound rows) xs
    → All (IsFound (row ∷ rows)) xs
All-IsFound_cons row rows [] d h = tt
All-IsFound_cons row rows (x ∷ xs) d h =
    (ground (arith, d.0, h.0), All-IsFound_cons row rows xs d.1 h.1)

All-IsFound : (rows : List MailboxRow) → IsDistinct rows → All (IsFound rows) rows
All-IsFound [] d = tt
All-IsFound (row ∷ rows) d =
    (ground arith, All-IsFound_cons row rows rows d.0 (All-IsFound rows d.1))

-- What the tree says of the node of a row.
unfoldable pub IsNode : ℕ → FolderTree → MailboxRow → Type 0
IsNode account tree row =
    let id = make_id account (folder_hash row.key) in
    (row_key id tree ≡ some (account, row.key))
    × (selection id tree ≡ folder_ref account (some row))

row-IsNode :
    (account : ℕ) (tree : FolderTree) (a : AccountFolders) (row : MailboxRow)
    → account < 2 ^ 31
    → get_elem? tree account ≡ some a
    → IsFound a.rows row
    → IsNode account tree row
unfolding IsNode row_key selection
row-IsNode account tree a row few e found =
    let folder = folder_hash row.key in
    let bound = folder_hash-bound row.key in
    let parts = split_id-make_id account folder few bound.1 in
    let positive : (folder == 0) ≡ false = ground (arith, bound.0) in
    (
      ap (λ p. key_in p tree) parts ∙ rw (positive, e, found) refl,
      ap (λ p. folder_in p tree) parts ∙ rw (positive, e, found) refl,
    )

-- For an account whose index is below 2 ^ 31, no two of whose folders have the same hash: the id of
-- every folder's node leads back to the account and the key of the folder, and a click on it opens
-- the folder of that name.
pub selection-make_id :
    (account : ℕ) (tree : FolderTree) (a : AccountFolders)
    → account < 2 ^ 31
    → get_elem? tree account ≡ some a
    → IsDistinct a.rows
    → All (IsNode account tree) a.rows
selection-make_id account tree a few e d =
    All-imp (IsNode account tree) a.rows (λ row. row-IsNode account tree a row few e)
      (All-IsFound a.rows d)
