-- ===== src/Table.antt =====
-- crates/esmail/src/db.rs: the tables whose rows an account, a mailbox and a uid tell apart, as the
-- lists of their rows in the order of their insertion.
pub mod Keys
pub mod Within
use esmail.Prelude.{
  ℕ, Bool, not, ◌&&◌, Option, none, some, List, [], ◌∷◌, Str, str_eq, ◌==◌, if◌then◌else◌, keep,
  any,
}

pub record Key : Type 0 where
  pub account_id : Str
  pub mailbox : Str
  pub uid : ℕ  -- u32

pub record Row (A : Type 0) : Type 0 where
  pub key : Key
  pub columns : A

-- `account_id = ?1 AND mailbox = ?2`, and with `AND uid = ?3`.
abbrev pub is_in : Str → Str → Key → Bool
is_in account_id mailbox k = str_eq k.account_id account_id && str_eq k.mailbox mailbox

unfoldable pub key_eq : Key → Key → Bool
key_eq j k = is_in k.account_id k.mailbox j && (j.uid == k.uid)

module _ {A : Type 0} where
  -- The row that a `SELECT` finds for a key.
  unfoldable pub row_at : Key → List (Row A) → Option A
  row_at k [] = none
  row_at k (r ∷ rs) = let rest = row_at k rs in if key_eq r.key k then some r.columns else rest

  -- `INSERT ... ON CONFLICT (account_id, mailbox, uid) DO UPDATE SET ...`.
  unfoldable pub upsert_row : (A → A) → Key → A → List (Row A) → List (Row A)
  upsert_row change k new [] = record { key = k; columns = new } ∷ []
  upsert_row change k new (r ∷ rs) =
      let rest = upsert_row change k new rs in
      if key_eq r.key k then record r { columns = change r.columns } ∷ rs else r ∷ rest

  -- `UPDATE ... SET ...`, for the row if there is one.
  unfoldable pub update_row : (A → A) → Key → List (Row A) → List (Row A)
  update_row change k [] = []
  update_row change k (r ∷ rs) =
      let rest = update_row change k rs in
      if key_eq r.key k then record r { columns = change r.columns } ∷ rest else r ∷ rest

  -- `DELETE FROM ...` of a key, of a mailbox and of an account.
  unfoldable pub delete_row : Key → List (Row A) → List (Row A)
  delete_row k rs = keep (λ (r : Row A). not (key_eq r.key k)) rs

  unfoldable pub delete_mailbox : Str → Str → List (Row A) → List (Row A)
  delete_mailbox account_id mailbox rs =
      keep (λ (r : Row A). not (is_in account_id mailbox r.key)) rs

  unfoldable pub delete_account : Str → List (Row A) → List (Row A)
  delete_account account_id rs = keep (λ (r : Row A). not (str_eq r.key.account_id account_id)) rs

  abbrev pub has_key : Key → List (Row A) → Bool
  has_key k rs = any (λ (r : Row A). key_eq r.key k) rs
