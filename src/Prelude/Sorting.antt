-- ===== src/Prelude/Sorting.antt =====
-- The stable sorts: `sort_by_key`, and the `ORDER BY` of SQLite. `le` says that an item may stand
-- before another.
use Prim.Native.Nat.{suc}
use mathlib.Core.Path.{◌≡◌, refl}
use mathlib.Core.Logic.{inl, inr}
use mathlib.Core.Bool.{Bool, true, false}
use mathlib.Core.List.{List, [], ◌∷◌, Perm}
use mathlib.Core.List.Perm as Perms
use native.Mathlib.Omega.{arith}
use esmail.Prelude.Tests.{Bool-cases}
use esmail.Prelude.Lists.{length, All}

module _ {ℓ} {A : Type ℓ} (le : A → A → Bool) where
  unfoldable pub insert_by : A → List A → List A
  insert_by x [] = x ∷ []
  insert_by x (y ∷ ys) =
      let rest = insert_by x ys in elim (le x y) [ true ↦ x ∷ y ∷ ys | false ↦ y ∷ rest ]

  unfoldable pub sort_by : List A → List A
  unfolding insert_by
  sort_by [] = []
  sort_by (x ∷ xs) = insert_by x (sort_by xs)

  -- Every item may stand before all that follow.
  abbrev pub IsSorted : List A → Type 0
  IsSorted [] = true ≡ true
  IsSorted (x ∷ xs) = All (λ y. le x y ≡ true) xs × IsSorted xs

  length-insert_by : (x : A) (xs : List A) → length (insert_by x xs) ≡ suc (length xs)
  unfolding insert_by
  length-insert_by x [] = refl
  length-insert_by x (y ∷ ys) = ground (arith, length-insert_by x ys)

  pub length-sort_by : (xs : List A) → length (sort_by xs) ≡ length xs
  unfolding sort_by
  length-sort_by [] = refl
  length-sort_by (x ∷ xs) = omega (arith, length-insert_by x (sort_by xs), length-sort_by xs)

  Perm-insert_by : (x : A) (xs : List A) → Perm (insert_by x xs) (x ∷ xs)
  unfolding insert_by
  Perm-insert_by x [] = Perms.refl (x ∷ [])
  Perm-insert_by x (y ∷ ys) = elim (Bool-cases (le x y)) [
    | inl e ↦ rw (e, insert_by) (Perms.refl (x ∷ y ∷ ys))
    | inr e ↦
        rw (e, insert_by) (Perms.trans (Perms.cons y (Perm-insert_by x ys)) (Perms.swap x y ys))
  ]

  pub Perm-sort_by : (xs : List A) → Perm (sort_by xs) xs
  unfolding sort_by
  Perm-sort_by [] = Perms.refl []
  Perm-sort_by (x ∷ xs) =
      Perms.trans (Perm-insert_by x (sort_by xs)) (Perms.cons x (Perm-sort_by xs))

module _ {ℓ κ} {A : Type ℓ} (le : A → A → Bool) (P : A → Type κ) where
  All-insert_by : (x : A) (xs : List A) → P x → All P xs → All P (insert_by le x xs)
  unfolding insert_by
  All-insert_by x [] p h = (p, tt)
  All-insert_by x (y ∷ ys) p h = elim (Bool-cases (le x y)) [
    | inl e ↦ rw (e, insert_by) (p, h)
    | inr e ↦ rw (e, insert_by) (h.0, All-insert_by x ys p h.1)
  ]

  pub All-sort_by : (xs : List A) → All P xs → All P (sort_by le xs)
  unfolding sort_by
  All-sort_by [] h = tt
  All-sort_by (x ∷ xs) h = All-insert_by x (sort_by le xs) h.0 (All-sort_by xs h.1)

module _ {ℓ} {A : Type ℓ} (le : A → A → Bool)
    (le_trans : (x y z : A) → le x y ≡ true → le y z ≡ true → le x z ≡ true)
    (le_total : (x y : A) → le x y ≡ false → le y x ≡ true) where
  All-le_trans :
      (x y : A) (zs : List A)
      → le x y ≡ true
      → All (λ z. le y z ≡ true) zs
      → All (λ z. le x z ≡ true) zs
  All-le_trans x y [] e h = tt
  All-le_trans x y (z ∷ zs) e h = (le_trans x y z e h.0, All-le_trans x y zs e h.1)

  IsSorted-insert_by : (x : A) (xs : List A) → IsSorted le xs → IsSorted le (insert_by le x xs)
  unfolding insert_by
  IsSorted-insert_by x [] s = (tt, refl)
  IsSorted-insert_by x (y ∷ ys) s = elim (Bool-cases (le x y)) [
    | inl e ↦ rw (e, insert_by) ((e, All-le_trans x y ys e s.0), s)
    | inr e ↦
        rw (e, insert_by)
          (
            All-insert_by le (λ z. le y z ≡ true) x ys (le_total x y e) s.0,
            IsSorted-insert_by x ys s.1,
          )
  ]

  pub sort_by-IsSorted : (xs : List A) → IsSorted le (sort_by le xs)
  unfolding sort_by
  sort_by-IsSorted [] = refl
  sort_by-IsSorted (x ∷ xs) = IsSorted-insert_by x (sort_by le xs) (sort_by-IsSorted xs)
