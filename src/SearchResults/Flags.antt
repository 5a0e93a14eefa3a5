-- ===== src/SearchResults/Flags.antt =====
-- That each row of the list shows the hit behind it.
use esmail.Prelude.{
  ℕ, zero, suc, ◌≡◌, refl, ap, Option, none, some, List, [], ◌∷◌, map, Str, get_elem?, set,
  remove_at, Option-cases, inl, inr,
}
use esmail.Cache.Search.{SearchHit}
use esmail.SearchResults.{
  Hit, SearchResults, row_of, position_of, remove, set_flags, set_flags_at, with_flags, new,
}

map-set :
    {A B : Type 0} (f : A → B) (xs : List A) (i : ℕ) (x : A)
    → map f (set xs i x) ≡ set (map f xs) i (f x)
map-set f [] i x = refl
map-set f (y ∷ ys) zero x = refl
map-set f (y ∷ ys) (suc i) x = ap (λ zs. f y ∷ zs) (map-set f ys i x)

map-remove_at :
    {A B : Type 0} (f : A → B) (xs : List A) (i : ℕ)
    → map f (remove_at xs i) ≡ remove_at (map f xs) i
map-remove_at f [] i = refl
map-remove_at f (y ∷ ys) zero = refl
map-remove_at f (y ∷ ys) (suc i) = ap (λ zs. f y ∷ zs) (map-remove_at f ys i)

module _ (zone : Str → Option (Str × Str)) where
  abbrev pub IsShown : SearchResults → Type 0
  IsShown r = r.rows ≡ map (row_of zone) r.hits

  new-IsShown : (hits : List SearchHit) (ids : List Str) → IsShown (new zone hits ids)
  unfolding new
  new-IsShown hits ids = refl

  remove-IsShown :
      (account : ℕ) (mailbox : Str) (uid : ℕ) (r : SearchResults)
      → IsShown r
      → IsShown (remove account mailbox uid r).0
  unfolding remove
  remove-IsShown account mailbox uid r s = elim (Option-cases (position_of account mailbox uid r)) [
    | inl e ↦ rw (e, remove) s
    | inr (at, e) ↦ rw (e, remove, s, map-remove_at (row_of zone) r.hits at) refl
  ]

  set_flags_at-IsShown :
      (at : ℕ) (flags : List Str) (hit : Option Hit) (r : SearchResults)
      → IsShown r
      → IsShown (set_flags_at zone at flags hit r)
  set_flags_at-IsShown at flags none r s = s
  set_flags_at-IsShown at flags (some (folder, header)) r s =
      rw (s, map-set (row_of zone) r.hits at (folder, with_flags flags header)) refl

  -- After a change of the flags, as after the others, every row shows the header of its hit.
  set_flags-IsShown :
      (account : ℕ) (mailbox : Str) (uid : ℕ) (flags : List Str) (r : SearchResults)
      → IsShown r
      → IsShown (set_flags zone account mailbox uid flags r).0
  unfolding set_flags
  set_flags-IsShown account mailbox uid flags r s =
      elim (Option-cases (position_of account mailbox uid r)) [
        | inl e ↦ rw (e, set_flags) s
        | inr (at, e) ↦ rw (e, set_flags) (set_flags_at-IsShown at flags (get_elem? r.hits at) r s)
      ]
