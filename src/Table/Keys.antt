-- ===== src/Table/Keys.antt =====
-- What the statements on a table do to the row of a key, and that no key gets a second row.
use esmail.Prelude.{
  ◌≡◌, refl, ap, Bool, true, false, ◌||◌, Option, none, some, List, [], ◌∷◌, arith, All,
  str_eq_refl, str_eq→eq, if◌then◌else◌, keep, Bool-cases, inl, inr, Str, str_eq,
}
use esmail.Table.{
  Key, Row, key_eq, row_at, upsert_row, update_row, delete_row, delete_account, has_key,
}

pub key_eq_refl : (k : Key) → key_eq k k ≡ true
unfolding key_eq
key_eq_refl k = ground (arith, str_eq_refl k.account_id, str_eq_refl k.mailbox)

pub key_eq→eq : (j k : Key) → key_eq j k ≡ true → j ≡ k
unfolding key_eq
key_eq→eq j k e =
    let p : j.account_id ≡ k.account_id = str_eq→eq j.account_id k.account_id (ground arith) in
    let q : j.mailbox ≡ k.mailbox = str_eq→eq j.mailbox k.mailbox (ground arith) in
    let r : j.uid ≡ k.uid = ground arith in
    λ i. record { account_id = p i; mailbox = q i; uid = r i }

-- Two keys that differ from each other do so in both orders.
pub key_eq_sym : (j k : Key) → key_eq j k ≡ false → key_eq k j ≡ false
key_eq_sym j k e = elim (Bool-cases (key_eq k j)) [
  | inl f ↦ absurd (ground (arith, key_eq→eq k j f, key_eq_refl j))
  | inr f ↦ f
]

-- What is written over a row, or put where there is none.
abbrev pub written {ℓ} : {A : Type ℓ} → (A → A) → A → Option A → A
written change new none = new
written change new (some old) = change old

abbrev pub changed {ℓ} : {A : Type ℓ} → (A → A) → Option A → Option A
changed change none = none
changed change (some old) = some (change old)

module _ {A : Type 0} where
  pub row_at-upsert_row :
      (change : A → A) (k : Key) (new : A) (rs : List (Row A))
      → row_at k (upsert_row change k new rs) ≡ some (written change new (row_at k rs))
  unfolding row_at upsert_row
  row_at-upsert_row change k new [] = ground (arith, key_eq_refl k)
  row_at-upsert_row change k new (r ∷ rs) = ground (arith, row_at-upsert_row change k new rs)

  pub row_at-overwrite :
      (k : Key) (new : A) (rs : List (Row A))
      → row_at k (upsert_row (λ old. new) k new rs) ≡ some new
  unfolding row_at upsert_row
  row_at-overwrite k new [] = ground (arith, key_eq_refl k)
  row_at-overwrite k new (r ∷ rs) = ground (arith, row_at-overwrite k new rs)

  pub row_at-upsert_row_other :
      (change : A → A) (j k : Key) (new : A) (rs : List (Row A))
      → key_eq k j ≡ false
      → row_at j (upsert_row change k new rs) ≡ row_at j rs
  unfolding row_at upsert_row
  row_at-upsert_row_other change j k new [] e = ground arith
  row_at-upsert_row_other change j k new (r ∷ rs) e = elim (Bool-cases (key_eq r.key k)) [
    | inl f ↦ ground (arith, f, ap (λ key. key_eq key j) (key_eq→eq r.key k f))
    | inr f ↦ ground (arith, f, row_at-upsert_row_other change j k new rs e)
  ]

  pub row_at-update_row :
      (change : A → A) (k : Key) (rs : List (Row A))
      → row_at k (update_row change k rs) ≡ changed change (row_at k rs)
  unfolding row_at update_row
  row_at-update_row change k [] = refl
  row_at-update_row change k (r ∷ rs) = ground (arith, row_at-update_row change k rs)

  pub row_at-delete_row : (k : Key) (rs : List (Row A)) → row_at k (delete_row k rs) ≡ none
  unfolding row_at delete_row
  row_at-delete_row k [] = refl
  row_at-delete_row k (r ∷ rs) = ground (arith, row_at-delete_row k rs)

  pub row_at-delete_row_other :
      (j k : Key) (rs : List (Row A))
      → key_eq k j ≡ false
      → row_at j (delete_row k rs) ≡ row_at j rs
  unfolding row_at delete_row
  row_at-delete_row_other j k [] e = refl
  row_at-delete_row_other j k (r ∷ rs) e = elim (Bool-cases (key_eq r.key k)) [
    | inl f ↦
        ground (
          arith,
          f,
          ap (λ key. key_eq key j) (key_eq→eq r.key k f),
          row_at-delete_row_other j k rs e,
        )
    | inr f ↦ ground (arith, f, row_at-delete_row_other j k rs e)
  ]

  pub row_at-delete_account :
      (a : Str) (k : Key) (rs : List (Row A))
      → row_at k (delete_account a rs) ≡ (if str_eq k.account_id a then none else row_at k rs)
  unfolding row_at delete_account
  row_at-delete_account a k [] = ground arith
  row_at-delete_account a k (r ∷ rs) = elim (Bool-cases (key_eq r.key k)) [
    | inl f ↦ ground (
      arith,
      f,
      ap (λ (key : Key). str_eq key.account_id a) (key_eq→eq r.key k f),
      row_at-delete_account a k rs,
    )
    | inr f ↦ ground (arith, f, row_at-delete_account a k rs)
  ]

  -- No two rows have the same key.
  abbrev pub IsUnique : List (Row A) → Type 0
  IsUnique [] = true ≡ true
  IsUnique (r ∷ rs) = (has_key r.key rs ≡ false) × IsUnique rs

  pub has_key-upsert_row :
      (change : A → A) (j k : Key) (new : A) (rs : List (Row A))
      → has_key j (upsert_row change k new rs) ≡ (key_eq k j || has_key j rs)
  unfolding upsert_row
  has_key-upsert_row change j k new [] = ground arith
  has_key-upsert_row change j k new (r ∷ rs) = elim (Bool-cases (key_eq r.key k)) [
    | inl f ↦ ground (arith, f, ap (λ key. key_eq key j) (key_eq→eq r.key k f))
    | inr f ↦ ground (arith, f, has_key-upsert_row change j k new rs)
  ]

  pub has_key-update_row :
      (change : A → A) (j k : Key) (rs : List (Row A))
      → has_key j (update_row change k rs) ≡ has_key j rs
  unfolding update_row
  has_key-update_row change j k [] = refl
  has_key-update_row change j k (r ∷ rs) = ground (arith, has_key-update_row change j k rs)

  -- What is kept of a table was in it.
  pub has_key-keep :
      (p : Row A → Bool) (j : Key) (rs : List (Row A))
      → has_key j rs ≡ false
      → has_key j (keep p rs) ≡ false
  has_key-keep p j [] e = refl
  has_key-keep p j (r ∷ rs) e = ground (arith, has_key-keep p j rs)

  pub IsUnique-keep : (p : Row A → Bool) (rs : List (Row A)) → IsUnique rs → IsUnique (keep p rs)
  IsUnique-keep p [] u = u
  IsUnique-keep p (r ∷ rs) u = ground (arith, IsUnique-keep p rs u.1, has_key-keep p r.key rs u.0)

  pub IsUnique-upsert_row :
      (change : A → A) (k : Key) (new : A) (rs : List (Row A))
      → IsUnique rs
      → IsUnique (upsert_row change k new rs)
  unfolding upsert_row
  IsUnique-upsert_row change k new [] u = ground arith
  IsUnique-upsert_row change k new (r ∷ rs) u = elim (Bool-cases (key_eq r.key k)) [
    | inl f ↦ ground (arith, f)
    | inr f ↦ ground (
      arith,
      f,
      key_eq_sym r.key k f,
      IsUnique-upsert_row change k new rs u.1,
      has_key-upsert_row change r.key k new rs,
    )
  ]

  pub IsUnique-update_row :
      (change : A → A) (k : Key) (rs : List (Row A))
      → IsUnique rs
      → IsUnique (update_row change k rs)
  unfolding update_row
  IsUnique-update_row change k [] u = u
  IsUnique-update_row change k (r ∷ rs) u =
      ground (arith, IsUnique-update_row change k rs u.1, has_key-update_row change r.key k rs)

  All-other :
      (k : Key) (rs : List (Row A))
      → has_key k rs ≡ false
      → All (λ (r : Row A). key_eq k r.key ≡ false) rs
  All-other k [] e = tt
  All-other k (r ∷ rs) e = elim (Bool-cases (key_eq r.key k)) [
    | inl f ↦ absurd (ground (arith, f))
    | inr f ↦ (key_eq_sym r.key k f, All-other k rs (ground (arith, f)))
  ]

  -- Every row is the one that its key finds.
  abbrev pub IsFound : List (Row A) → Row A → Type 0
  IsFound rs r = row_at r.key rs ≡ some r.columns

  All-IsFound_cons :
      (s : Row A) (rs xs : List (Row A))
      → All (λ (r : Row A). key_eq s.key r.key ≡ false) xs
      → All (IsFound rs) xs
      → All (IsFound (s ∷ rs)) xs
  unfolding row_at
  All-IsFound_cons s rs [] o h = tt
  All-IsFound_cons s rs (x ∷ xs) o h = (ground (arith, o.0, h.0), All-IsFound_cons s rs xs o.1 h.1)

  pub All-IsFound : (rs : List (Row A)) → IsUnique rs → All (IsFound rs) rs
  unfolding row_at
  All-IsFound [] u = tt
  All-IsFound (r ∷ rs) u = (
    ground (arith, key_eq_refl r.key),
    All-IsFound_cons r rs rs (All-other r.key rs u.0) (All-IsFound rs u.1),
  )
