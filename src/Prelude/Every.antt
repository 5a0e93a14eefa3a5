-- ===== src/Prelude/Every.antt =====
-- Predicates on every item of a list, through the operations on lists.
use Prim.Native.Nat.{ℕ, zero, suc, ◌+◌, min}
use mathlib.Core.Path.{◌≡◌, subst}
use mathlib.Core.Logic.{◌⊎◌, inl, inr}
use mathlib.Core.Bool.{Bool, true, false, not}
use mathlib.Core.List.{List, [], ◌∷◌, ◌++◌, map}
use native.Mathlib.Omega.{arith}
use esmail.Prelude.Tests.{Bool-cases}
use esmail.Prelude.Lists.{length, take, keep, All}

module _ {ℓ} {A : Type ℓ} where
  pub length-take : (n : ℕ) (xs : List A) → length (take n xs) ≡ min n (length xs)
  length-take zero xs = omega arith
  length-take (suc n) [] = omega arith
  length-take (suc n) (x ∷ xs) = omega (arith, length-take n xs)

  -- What a test picks and what it leaves are all the items.
  pub length-keep :
      (p : A → Bool) (xs : List A)
      → length (keep (λ x. not (p x)) xs) + length (keep p xs) ≡ length xs
  length-keep p [] = omega arith
  length-keep p (x ∷ xs) = ground (arith, length-keep p xs)

module _ {ℓ κ} {A : Type ℓ} (P : A → Type κ) where
  pub All-append : (xs ys : List A) → All P xs → All P ys → All P (xs ++ ys)
  All-append [] ys h k = k
  All-append (x ∷ xs) ys (p, h) k = (p, All-append xs ys h k)

  pub All-map : {B : Type ℓ} (f : B → A) (xs : List B) → All (λ x. P (f x)) xs → All P (map f xs)
  All-map f [] h = tt
  All-map f (x ∷ xs) h = (h.0, All-map f xs h.1)

  pub All-imp : {Q : A → Type κ} (xs : List A) → ((x : A) → Q x → P x) → All Q xs → All P xs
  All-imp [] make h = tt
  All-imp (x ∷ xs) make h = (make x h.0, All-imp xs make h.1)

  pub All-take : (n : ℕ) (xs : List A) → All P xs → All P (take n xs)
  All-take zero xs h = tt
  All-take (suc n) [] h = tt
  All-take (suc n) (x ∷ xs) (p, h) = (p, All-take n xs h)

  pub All-keep : (test : A → Bool) (xs : List A) → All P xs → All P (keep test xs)
  All-keep test [] h = tt
  All-keep test (x ∷ xs) (p, h) = elim (Bool-cases (test x)) [
    | inl e ↦ rw (e, keep) (p, All-keep test xs h)
    | inr e ↦ rw (e, keep) (All-keep test xs h)
  ]

  -- What passes the test and has another property has both.
  pub All-keep_where :
      {Q : A → Type κ} (test : A → Bool) (xs : List A)
      → ((x : A) → Q x → test x ≡ true → P x)
      → All Q xs
      → All P (keep test xs)
  All-keep_where test [] make h = tt
  All-keep_where test (x ∷ xs) make (q, h) = elim (Bool-cases (test x)) [
    | inl e ↦ rw (e, keep) (make x q e, All-keep_where test xs make h)
    | inr e ↦ rw (e, keep) (All-keep_where test xs make h)
  ]

  -- What a test leaves out fails it.
  pub All-keep_inv :
      (test : A → Bool) (xs : List A) → All P (keep test xs) → All (λ x. (test x ≡ false) ⊎ P x) xs
  All-keep_inv test [] h = tt
  All-keep_inv test (x ∷ xs) h = elim (Bool-cases (test x)) [
    | inl e ↦
        let same : keep test (x ∷ xs) ≡ x ∷ keep test xs = ground (arith, e) in
        let found = subst (All P) same h in (inr found.0, All-keep_inv test xs found.1)
    | inr e ↦
        let same : keep test (x ∷ xs) ≡ keep test xs = ground (arith, e) in
        (inl e, All-keep_inv test xs (subst (All P) same h))
  ]

-- What a test picks passes it.
pub All-tested {ℓ} :
    {A : Type ℓ} (test : A → Bool) (xs : List A) → All (λ x. test x ≡ true) (keep test xs)
All-tested test [] = tt
All-tested test (x ∷ xs) = elim (Bool-cases (test x)) [
  | inl e ↦ rw (e, keep) (e, All-tested test xs)
  | inr e ↦ rw (e, keep) (All-tested test xs)
]
