-- ===== src/SearchResults.antt =====
-- crates/esmail-win32/src/core_glue/results.rs: the hits of a search in place of a folder's list.
-- `zone` is the display of a date in the local zone. Rows and hits are lists of one length.
pub mod Flags
use esmail.Prelude.{
  ℕ, suc, Bool, true, false, ◌&&◌, Option, none, some, List, [], ◌∷◌, map, Str, str_eq, position,
  get_elem?, set, remove_at, length, is_empty, ◌==◌, if◌then◌else◌,
}
use esmail.Mail.{MailHeader, RowModel, from_header, is_seen}
use esmail.FolderTree.{FolderRef}
use esmail.Cache.Search.{SearchHit}

abbrev pub Hit : Type 0
Hit = FolderRef × MailHeader

pub record SearchResults : Type 0 where
  pub hits : List Hit
  pub rows : List RowModel

-- The hit with the index of its account, before the others.
abbrev pub located : Option ℕ → SearchHit → List Hit → List Hit
located none hit rest = rest
located (some account) hit rest =
    (record { account = account; mailbox = hit.mailbox }, hit.header) ∷ rest

unfoldable pub locate : List Str → List SearchHit → List Hit
locate account_ids [] = []
locate account_ids (hit ∷ hits) =
    located (position (λ id. str_eq id hit.account_id) account_ids) hit (locate account_ids hits)

abbrev pub is_at : ℕ → Str → ℕ → Hit → Bool
is_at account mailbox uid (folder, header) =
    (folder.account == account) && str_eq folder.mailbox mailbox && (header.uid == uid)

unfoldable pub position_of : ℕ → Str → ℕ → SearchResults → Option ℕ
position_of account mailbox uid r = position (is_at account mailbox uid) r.hits

-- `self.hits[at]`; the index is that of a hit.
abbrev pub seen_at : Option Hit → Option Bool
seen_at none = none
seen_at (some (folder, header)) = some (is_seen header)

unfoldable pub seen : ℕ → Str → ℕ → SearchResults → Option Bool
unfolding position_of
seen account mailbox uid r = elim (position_of account mailbox uid r) [
  | none ↦ none
  | some at ↦ seen_at (get_elem? r.hits at)
]

unfoldable pub get : ℕ → SearchResults → Option Hit
get row r = get_elem? r.hits row

unfoldable pub remove : ℕ → Str → ℕ → SearchResults → SearchResults × Option ℕ
unfolding position_of
remove account mailbox uid r = elim (position_of account mailbox uid r) [
  | none ↦ (r, none)
  | some at ↦ (record { hits = remove_at r.hits at; rows = remove_at r.rows at }, some at)
]

abbrev pub with_flags : List Str → MailHeader → MailHeader
with_flags flags header = record header { flags = flags }

module _ (zone : Str → Option (Str × Str)) where
  abbrev pub row_of : Hit → RowModel
  row_of (folder, header) = from_header zone header

  unfoldable pub new : List SearchHit → List Str → SearchResults
  unfolding locate
  new hits account_ids =
      let found = locate account_ids hits in record { hits = found; rows = map row_of found }

  abbrev pub set_flags_at : ℕ → List Str → Option Hit → SearchResults → SearchResults
  set_flags_at at flags none r = r
  set_flags_at at flags (some (folder, header)) r =
      let changed = with_flags flags header in
      record {
        hits = set r.hits at (folder, changed);
        rows = set r.rows at (from_header zone changed);
      }

  unfoldable pub set_flags : ℕ → Str → ℕ → List Str → SearchResults → SearchResults × Bool
  unfolding position_of
  set_flags account mailbox uid flags r = elim (position_of account mailbox uid r) [
    | none ↦ (r, false)
    | some at ↦ (set_flags_at at flags (get_elem? r.hits at) r, true)
  ]
