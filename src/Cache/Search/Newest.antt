-- ===== src/Cache/Search/Newest.antt =====
-- Which messages of a folder are shown before the server answers.
use esmail.Prelude.{
  ℕ, ◌≡◌, refl, List, map, Str, arith, take, keep, sort_by, IsSorted, sort_by-IsSorted,
  Perm-sort_by,
}
use mathlib.Core.List.{Perm}
use esmail.Table.{Row, is_in}
use esmail.Cache.{Message, Cache}
use esmail.Cache.Index.{header_of}
use esmail.Cache.Search.{higher_uid, newest}

-- The messages that are shown are the first of all those of the folder, each once, in the order of
-- their uids from the highest down.
newest-IsSorted :
    (a m : Str) (limit : ℕ) (c : Cache)
    → (rows : List (Row Message)) × Perm rows
        (keep (λ (r : Row Message). is_in a m r.key) c.messages)
      × IsSorted higher_uid rows
      × (newest a m limit c
          ≡ map (λ (r : Row Message). header_of r.key r.columns) (take limit rows))
unfolding newest
newest-IsSorted a m limit c =
    let rows = keep (λ (r : Row Message). is_in a m r.key) c.messages in
    (
      sort_by higher_uid rows,
      Perm-sort_by higher_uid rows,
      sort_by-IsSorted higher_uid (λ x y z e f. ground arith) (λ x y e. ground arith) rows,
      refl,
    )
