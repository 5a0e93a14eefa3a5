-- ===== src/Deliveries/Maps.antt =====
-- Rust's `HashMap` with a number as the key.
use esmail.Prelude.{
  ℕ, ◌≤◌, ◌<◌, ◌≡◌, refl, Bool, false, Option, none, some, List, [], ◌∷◌, arith, ◌==◌, any, All,
  if◌then◌else◌,
}

abbrev pub HashMap : Type 0 → Type 0
HashMap A = List (ℕ × A)

module _ {A : Type 0} where
  unfoldable pub get : ℕ → HashMap A → Option A
  get k [] = none
  get k ((j, a) ∷ m) = let rest = get k m in if j == k then some a else rest

  unfoldable pub remove : ℕ → HashMap A → HashMap A
  remove k [] = []
  remove k ((j, a) ∷ m) = let rest = remove k m in if j == k then rest else (j, a) ∷ rest

  unfoldable pub insert : ℕ → A → HashMap A → HashMap A
  insert k a m = (k, a) ∷ remove k m

  unfoldable pub contains_key : ℕ → HashMap A → Bool
  contains_key k m = any (λ (e : ℕ × A). e.0 == k) m

  -- No key is greater than the number.
  abbrev pub AreKeys : ℕ → HashMap A → Type 0
  AreKeys last m = All (λ (e : ℕ × A). e.0 ≤ last) m

  pub remove-fresh : (k last : ℕ) (m : HashMap A) → last < k → AreKeys last m → remove k m ≡ m
  unfolding remove
  remove-fresh k last [] lt h = refl
  remove-fresh k last ((j, a) ∷ m) lt h = ground (arith, remove-fresh k last m lt h.1)

  pub AreKeys-grown :
      (last next : ℕ) (m : HashMap A) → last ≤ next → AreKeys last m → AreKeys next m
  AreKeys-grown last next [] le h = tt
  AreKeys-grown last next ((j, a) ∷ m) le h = (omega (arith, h.0), AreKeys-grown last next m le h.1)

  pub AreKeys-remove : (last k : ℕ) (m : HashMap A) → AreKeys last m → AreKeys last (remove k m)
  unfolding remove
  AreKeys-remove last k [] h = tt
  AreKeys-remove last k ((j, a) ∷ m) h = ground (arith, AreKeys-remove last k m h.1)

  get-remove :
      (k removed : ℕ) (m : HashMap A) → (removed == k) ≡ false → get k (remove removed m) ≡ get k m
  unfolding get remove
  get-remove k removed [] ne = refl
  get-remove k removed ((j, a) ∷ m) ne = ground (arith, get-remove k removed m ne)

  pub get-insert_other :
      (k inserted : ℕ) (a : A) (m : HashMap A)
      → (inserted == k) ≡ false
      → get k (insert inserted a m) ≡ get k m
  unfolding insert get
  get-insert_other k inserted a m ne = rw ne (get-remove k inserted m ne)
