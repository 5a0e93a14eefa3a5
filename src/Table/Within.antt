-- ===== src/Table/Within.antt =====
-- When the keys of one table stay among those of another, through the statements on either.
use esmail.Prelude.{
  ◌≡◌, refl, ap, Bool, true, false, not, ◌&&◌, ◌||◌, none, List, [], ◌∷◌, ◌++◌, arith, keep, All,
  any-append, Bool-cases, inl, inr,
}
use esmail.Table.{Key, Row, key_eq, row_at, upsert_row, delete_row, has_key}
use esmail.Table.Keys.{key_eq→eq, key_eq_refl, key_eq_sym, IsUnique}

module _ {A : Type 0} where
  pub has_key-row_at : (k : Key) (rs : List (Row A)) → row_at k rs ≡ none → has_key k rs ≡ false
  unfolding row_at
  has_key-row_at k [] e = refl
  has_key-row_at k (r ∷ rs) e = elim (Bool-cases (key_eq r.key k)) [
    | inl f ↦ absurd (ground (arith, f))
    | inr f ↦ ground (arith, f, has_key-row_at k rs)
  ]

  -- What a test on the keys keeps.
  has_key-keep_by :
      (q : Key → Bool) (k : Key) (rs : List (Row A))
      → has_key k (keep (λ (r : Row A). q r.key) rs) ≡ (has_key k rs && q k)
  has_key-keep_by q k [] = refl
  has_key-keep_by q k (r ∷ rs) = elim (Bool-cases (key_eq r.key k)) [
    | inl f ↦ ground (arith, f, ap q (key_eq→eq r.key k f), has_key-keep_by q k rs)
    | inr f ↦ ground (arith, f, has_key-keep_by q k rs)
  ]

  has_key-push :
      (j k : Key) (new : A) (rs : List (Row A))
      → has_key j (rs ++ record { key = k; columns = new } ∷ []) ≡ (has_key j rs || key_eq k j)
  has_key-push j k new rs = ground (
    arith,
    any-append (λ (r : Row A). key_eq r.key j) rs (record { key = k; columns = new } ∷ []),
  )

  pub IsUnique-push :
      (k : Key) (new : A) (rs : List (Row A))
      → has_key k rs ≡ false
      → IsUnique rs
      → IsUnique (rs ++ record { key = k; columns = new } ∷ [])
  IsUnique-push k new [] e u = ground arith
  IsUnique-push k new (r ∷ rs) e u = elim (Bool-cases (key_eq r.key k)) [
    | inl f ↦ absurd (ground (arith, f))
    | inr f ↦ (
      ground (arith, has_key-push r.key k new rs, key_eq_sym r.key k f, u.0),
      IsUnique-push k new rs (ground (arith, f)) u.1,
    )
  ]

  pub has_key-delete_row : (k : Key) (rs : List (Row A)) → has_key k (delete_row k rs) ≡ false
  unfolding delete_row
  has_key-delete_row k rs =
      ground (arith, has_key-keep_by (λ j. not (key_eq j k)) k rs, key_eq_refl k)

module _ {A B : Type 0} where
  -- Every row of the first table has one of the second.
  abbrev pub IsWithin : List (Row A) → List (Row B) → Type 0
  IsWithin rs ms = All (λ (r : Row A). has_key r.key ms ≡ true) rs

  pub IsWithin-grown :
      (rs : List (Row A)) (ms ns : List (Row B))
      → ((k : Key) → has_key k ms ≡ true → has_key k ns ≡ true)
      → IsWithin rs ms
      → IsWithin rs ns
  IsWithin-grown [] ms ns grown w = tt
  IsWithin-grown (r ∷ rs) ms ns grown w = (grown r.key w.0, IsWithin-grown rs ms ns grown w.1)

  pub IsWithin-keep_by :
      (q : Key → Bool) (rs : List (Row A)) (ms : List (Row B))
      → IsWithin rs ms
      → IsWithin (keep (λ (r : Row A). q r.key) rs) (keep (λ (m : Row B). q m.key) ms)
  IsWithin-keep_by q [] ms w = tt
  IsWithin-keep_by q (r ∷ rs) ms w = elim (Bool-cases (q r.key)) [
    | inl e ↦
        rw (e, keep)
          (ground (arith, has_key-keep_by q r.key ms, w.0, e), IsWithin-keep_by q rs ms w.1)
    | inr e ↦ rw (e, keep) (IsWithin-keep_by q rs ms w.1)
  ]

  -- A key that the second table does not have, the first has not either.
  pub IsWithin-absent :
      (k : Key) (rs : List (Row A)) (ms : List (Row B))
      → IsWithin rs ms
      → has_key k ms ≡ false
      → has_key k rs ≡ false
  IsWithin-absent k [] ms w e = refl
  IsWithin-absent k (r ∷ rs) ms w e = elim (Bool-cases (key_eq r.key k)) [
    | inl f ↦ absurd (ground (arith, ap (λ j. has_key j ms) (key_eq→eq r.key k f), w.0))
    | inr f ↦ ground (arith, f, IsWithin-absent k rs ms w.1 e)
  ]

  pub IsWithin-upserted :
      (change : A → A) (k : Key) (new : A) (rs : List (Row A)) (ms : List (Row B))
      → has_key k ms ≡ true
      → IsWithin rs ms
      → IsWithin (upsert_row change k new rs) ms
  unfolding upsert_row
  IsWithin-upserted change k new [] ms e w = (e, tt)
  IsWithin-upserted change k new (r ∷ rs) ms e w = elim (Bool-cases (key_eq r.key k)) [
    | inl f ↦ rw (f, upsert_row) w
    | inr f ↦ rw (f, upsert_row) (w.0, IsWithin-upserted change k new rs ms e w.1)
  ]
