-- ===== src/Cache/Index/Evicted.antt =====
-- Which bodies the cap on the table of bodies lets go.
use esmail.Prelude.{
  ℕ, zero, suc, ◌-◌, ◌≤◌, ◌≡◌, refl, sym, subst, min, false, List, [], ◌∷◌, ◌++◌, arith, length,
  leb, All, Bool-cases, inl, inr,
}
use mathlib.Core.List.{Perm}
use mathlib.Core.List.Perm as Perms
use esmail.Table.{Key, Row, key_eq, has_key}
use esmail.Table.Keys.{IsUnique}
use esmail.Cache.{Body}
use esmail.Cache.Index.{split_oldest, drop_oldest, drop_oldest_rows, evict_lru_bodies}

abbrev pub IsOlder : Row Body → Row Body → Type 0
IsOlder r s = r.columns.cached_at ≤ s.columns.cached_at

-- Every one of the first rows is as old as every one of the others, or older.
abbrev pub AreOlder : List (Row Body) → List (Row Body) → Type 0
AreOlder gone kept = All (λ r. All (IsOlder r) kept) gone

module _ (P : Row Body → Type 0) where
  All-split_oldest :
      (r : Row Body) (rs : List (Row Body))
      → P r
      → All P rs
      → P (split_oldest r rs).0 × All P (split_oldest r rs).1
  unfolding split_oldest
  All-split_oldest r [] p h = (p, tt)
  All-split_oldest r (s ∷ rs) p h =
      let later = All-split_oldest s rs h.0 h.1 in
      elim (Bool-cases (leb r.columns.cached_at (split_oldest s rs).0.columns.cached_at)) [
        | inl e ↦ rw (e, split_oldest) (p, h)
        | inr e ↦ rw (e, split_oldest) (later.0, (p, later.1))
      ]

  All-drop_oldest : (rs : List (Row Body)) → All P rs → All P (drop_oldest rs)
  unfolding drop_oldest
  All-drop_oldest [] h = tt
  All-drop_oldest (r ∷ rs) h = (All-split_oldest r rs h.0 h.1).1

  All-drop_oldest_rows : (n : ℕ) (rs : List (Row Body)) → All P rs → All P (drop_oldest_rows n rs)
  unfolding drop_oldest_rows
  All-drop_oldest_rows zero rs h = h
  All-drop_oldest_rows (suc n) rs h = All-drop_oldest_rows n (drop_oldest rs) (All-drop_oldest rs h)

  pub All-evict_lru_bodies :
      (max_rows : ℕ) (rs : List (Row Body)) → All P rs → All P (evict_lru_bodies max_rows rs)
  unfolding evict_lru_bodies
  All-evict_lru_bodies max_rows rs h = All-drop_oldest_rows (length rs - max_rows) rs h

-- The rows that stay have different keys as before.
has_key-split_oldest :
    (k : Key) (r : Row Body) (rs : List (Row Body))
    → has_key k (r ∷ rs) ≡ false
    → (key_eq (split_oldest r rs).0.key k ≡ false) × (has_key k (split_oldest r rs).1 ≡ false)
unfolding split_oldest
has_key-split_oldest k r [] e = ground arith
has_key-split_oldest k r (s ∷ rs) e = ground (arith, has_key-split_oldest k s rs (ground arith))

IsUnique-split_oldest :
    (r : Row Body) (rs : List (Row Body)) → IsUnique (r ∷ rs) → IsUnique (split_oldest r rs).1
unfolding split_oldest
IsUnique-split_oldest r [] u = refl
IsUnique-split_oldest r (s ∷ rs) u =
    ground (arith, has_key-split_oldest r.key s rs u.0, IsUnique-split_oldest s rs u.1)

IsUnique-drop_oldest_rows :
    (n : ℕ) (rs : List (Row Body)) → IsUnique rs → IsUnique (drop_oldest_rows n rs)
unfolding drop_oldest_rows drop_oldest
IsUnique-drop_oldest_rows zero rs u = u
IsUnique-drop_oldest_rows (suc n) [] u = IsUnique-drop_oldest_rows n [] u
IsUnique-drop_oldest_rows (suc n) (r ∷ rs) u =
    IsUnique-drop_oldest_rows n (split_oldest r rs).1 (IsUnique-split_oldest r rs u)

pub IsUnique-evict_lru_bodies :
    (max_rows : ℕ) (rs : List (Row Body)) → IsUnique rs → IsUnique (evict_lru_bodies max_rows rs)
unfolding evict_lru_bodies
IsUnique-evict_lru_bodies max_rows rs u = IsUnique-drop_oldest_rows (length rs - max_rows) rs u

All-IsOlder :
    (o r : Row Body) (rs : List (Row Body)) → IsOlder o r → All (IsOlder r) rs → All (IsOlder o) rs
All-IsOlder o r [] le h = tt
All-IsOlder o r (s ∷ rs) le h = (omega (arith, h.0), All-IsOlder o r rs le h.1)

IsOlder-split_oldest :
    (r : Row Body) (rs : List (Row Body)) → All (IsOlder (split_oldest r rs).0) (r ∷ rs)
unfolding split_oldest
IsOlder-split_oldest r [] = (omega arith, tt)
IsOlder-split_oldest r (s ∷ rs) =
    let later = IsOlder-split_oldest s rs in
    let o = (split_oldest s rs).0 in
    elim (Bool-cases (leb r.columns.cached_at o.columns.cached_at)) [
      | inl e ↦
          let first : split_oldest r (s ∷ rs) ≡ (r, s ∷ rs) = ground (arith, e) in
          subst (λ o. All (IsOlder o.0) (r ∷ s ∷ rs)) (sym first)
            (omega arith, All-IsOlder r o (s ∷ rs) (ground arith) later)
      | inr e ↦
          let later_one : split_oldest r (s ∷ rs) ≡ (o, r ∷ (split_oldest s rs).1) =
            ground (arith, e) in
          subst (λ o. All (IsOlder o.0) (r ∷ s ∷ rs)) (sym later_one) (ground arith, later)
    ]

length-split_oldest :
    (r : Row Body) (rs : List (Row Body)) → length (split_oldest r rs).1 ≡ length rs
unfolding split_oldest
length-split_oldest r [] = refl
length-split_oldest r (s ∷ rs) = ground (arith, length-split_oldest s rs)

Perm-split_oldest :
    (r : Row Body) (rs : List (Row Body))
    → Perm ((split_oldest r rs).0 ∷ (split_oldest r rs).1) (r ∷ rs)
unfolding split_oldest
Perm-split_oldest r [] = Perms.refl (r ∷ [])
Perm-split_oldest r (s ∷ rs) =
    elim (Bool-cases (leb r.columns.cached_at (split_oldest s rs).0.columns.cached_at)) [
      | inl e ↦ rw (e, split_oldest) (Perms.refl (r ∷ s ∷ rs))
      | inr e ↦
          rw (e, split_oldest)
            (Perms.trans (Perms.swap r (split_oldest s rs).0 (split_oldest s rs).1)
              (Perms.cons r (Perm-split_oldest s rs)))
    ]

length-drop_oldest_rows :
    (n : ℕ) (rs : List (Row Body)) → length (drop_oldest_rows n rs) ≡ length rs - n
unfolding drop_oldest_rows drop_oldest
length-drop_oldest_rows zero rs = omega arith
length-drop_oldest_rows (suc n) [] = omega (arith, length-drop_oldest_rows n [])
length-drop_oldest_rows (suc n) (r ∷ rs) =
    omega (arith, length-drop_oldest_rows n (split_oldest r rs).1, length-split_oldest r rs)

-- The rows that go with the first `n` deletions.
Gone : ℕ → List (Row Body) → Type 0
Gone n rs =
    (gone : List (Row Body)) × (Perm (gone ++ drop_oldest_rows n rs) rs)
    × AreOlder gone (drop_oldest_rows n rs)

drop_oldest_rows-Gone : (n : ℕ) (rs : List (Row Body)) → Gone n rs
unfolding drop_oldest_rows drop_oldest Gone
drop_oldest_rows-Gone zero rs = ([], Perms.refl rs, tt)
drop_oldest_rows-Gone (suc n) [] = drop_oldest_rows-Gone n []
drop_oldest_rows-Gone (suc n) (r ∷ rs) =
    let o = (split_oldest r rs).0 in
    let later = drop_oldest_rows-Gone n (split_oldest r rs).1 in
    let older = All-split_oldest (IsOlder o) r rs in
    let all = IsOlder-split_oldest r rs in
    (
      o ∷ later.0,
      Perms.trans (Perms.cons o later.1) (Perm-split_oldest r rs),
      (All-drop_oldest_rows (IsOlder o) n (split_oldest r rs).1 (older all.0 all.1).1, later.2),
    )

-- The cap leaves at most `max_rows` bodies, all of them where there were not more, and the bodies
-- that go with those that stay are the ones there were, none that goes being newer than one that
-- stays.
pub evict_lru_bodies-oldest :
    (max_rows : ℕ) (rs : List (Row Body))
    → (length (evict_lru_bodies max_rows rs) ≡ min max_rows (length rs))
      × ((gone : List (Row Body)) × (Perm (gone ++ evict_lru_bodies max_rows rs) rs)
          × AreOlder gone (evict_lru_bodies max_rows rs))
unfolding evict_lru_bodies Gone
evict_lru_bodies-oldest max_rows rs = (
  omega (arith, length-drop_oldest_rows (length rs - max_rows) rs),
  drop_oldest_rows-Gone (length rs - max_rows) rs,
)
