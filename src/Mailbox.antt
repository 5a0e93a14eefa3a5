-- ===== src/Mailbox.antt =====
-- crates/esmail-win32/src/core_glue/mailbox.rs: `OpenFolder`, the messages loaded so far for one
-- folder, in pages of older messages and refreshes of the newest page. `zone` is the local time
-- zone's rendering of a date, which a row shows (Mail). The folder's own name is constant and takes
-- part in nothing, so it is left out.
pub mod Requests
pub mod Rows
pub mod Order
pub mod Merge
pub mod Edits
pub mod Steps
pub mod Paging
use esmail.Prelude.{
  ℕ, zero, suc, ◌+◌, ◌/◌, max, Bool, true, false, Option, none, some, List, [], ◌∷◌, ◌++◌, map, Str,
  ltb, leb, ◌==◌, ◌&&◌, ◌||◌, not, if◌then◌else◌, is_some, is_empty, keep, any, position, insert_at,
  remove_at, set, length, add_u32, u32_max, u32_mod, ◌%◌, unwrap_or, get_elem?, nat_eq, is_just,
}
use mathlib.Core.List.{reverse}
use esmail.Mail.{MailHeader, RowModel, from_header}
use esmail.Loads.{Latest, default, begin}

abbrev pub page_size : ℕ
page_size = 50

pub record PageRequest : Type 0 where
  pub page : ℕ  -- u32
  pub id : ℕ  -- u64

pub data Edit : Type 0 where
  removed : ℕ → Edit
  inserted : ℕ → Edit

pub data Applied : Type 0 where
  page : ℕ → Applied
  refreshed : List Edit → Applied

pub record OpenFolder : Type 0 where
  pub headers : List MailHeader
  pub rows : List RowModel
  pub next_page : ℕ  -- u32
  pub first_page_arrived : Bool
  pub total_pages : Option ℕ  -- u32
  pub ids : Latest
  pub page_request : Option ℕ  -- u64
  pub refresh_request : Option ℕ  -- u64

unfoldable pub new : OpenFolder
unfolding default
new = record {
  headers = [];
  rows = [];
  next_page = 1;
  first_page_arrived = false;
  total_pages = none;
  ids = default;
  page_request = none;
  refresh_request = none;
}

abbrev pub exceeds : ℕ → Option ℕ → Bool
exceeds next none = false
exceeds next (some total) = ltb total next

unfoldable pub is_complete : OpenFolder → Bool
is_complete f = exceeds f.next_page f.total_pages

unfoldable pub is_cached_only : OpenFolder → Bool
is_cached_only f = not f.first_page_arrived && not (is_empty f.headers)

unfoldable pub next_request : OpenFolder → OpenFolder × Option PageRequest
unfolding is_complete begin
next_request f =
    if is_some f.page_request || is_complete f
    then (f, none)
    else (let (ids, id) = begin f.ids in
        (
          record f { ids = ids; page_request = some id },
          some (record { page = f.next_page; id = id }),
        ))

unfoldable pub refresh_request : OpenFolder → OpenFolder × Option ℕ
unfolding begin
refresh_request f =
    if not f.first_page_arrived
    then (f, none)
    else (let (ids, id) = begin f.ids in
        (record f { ids = ids; refresh_request = some id }, some id))

unfoldable pub page_failed : OpenFolder → OpenFolder
page_failed f = record f { page_request = none }

-- `self.headers.iter().position(|header| header.uid == uid)`.
unfoldable pub row_in : ℕ → List MailHeader → Option ℕ
row_in uid headers = position (λ h. h.uid == uid) headers

unfoldable pub row_of : ℕ → OpenFolder → Option ℕ
unfolding row_in
row_of uid f = row_in uid f.headers

abbrev pub last_uid : ℕ → List MailHeader → ℕ
last_uid d [] = d
last_uid d (h ∷ hs) = last_uid h.uid hs

-- `Vec::get`, for the header that a closure indexes.
unfoldable pub header : OpenFolder → ℕ → Option MailHeader
header f row = get_elem? f.headers row

unfoldable pub loaded : OpenFolder → ℕ
loaded f = length f.headers

-- The rows of the loaded headers that the predicate picks, counted from `at`.
unfoldable pub rows_where : (MailHeader → Bool) → ℕ → List MailHeader → List ℕ
rows_where p at [] = []
rows_where p at (h ∷ hs) = let rest = rows_where p (suc at) hs in if p h then at ∷ rest else rest

-- `retain` with the running index: the items whose index, counted from `at`, is not in `gone`.
unfoldable pub retain_rows {ℓ} : {A : Type ℓ} → List ℕ → ℕ → List A → List A
retain_rows gone at [] = []
retain_rows gone at (x ∷ xs) =
    let rest = retain_rows gone (suc at) xs in if any (λ g. g == at) gone then rest else x ∷ rest

-- The rows that the newest page shows to be gone.
unfoldable pub gone_rows : List MailHeader → List MailHeader → List ℕ
unfolding rows_where
gone_rows fresh headers =
    rows_where (λ h. leb (last_uid 0 fresh) h.uid && not (any (λ g. g.uid == h.uid) fresh)) 0
      headers

-- The header lists, the rows and the edits that the loop of `merge_newest` carries.
pub record Merging : Type 0 where
  pub headers : List MailHeader
  pub rows : List RowModel
  pub edits : List Edit

module _ (zone : Str → Option (Str × Str)) where
  -- `match self.row_of(header.uid)` in the loop of `merge_newest`.
  unfoldable pub merge_at : Option ℕ → MailHeader → Merging → Merging
  merge_at (some at) header m = record {
    headers = set m.headers at header;
    rows = set m.rows at (from_header zone header);
    edits = m.edits;
  }
  merge_at none header m =
      let at = unwrap_or (position (λ old. ltb old.uid header.uid) m.headers) (length m.headers) in
      record {
        headers = insert_at m.headers at header;
        rows = insert_at m.rows at (from_header zone header);
        edits = m.edits ++ inserted at ∷ [];
      }

  unfoldable pub merge_all : List MailHeader → Merging → Merging
  unfolding merge_at row_in
  merge_all [] m = m
  merge_all (header ∷ fresh) m = merge_all fresh (merge_at (row_in header.uid m.headers) header m)

  unfoldable pub merge_newest : List MailHeader → OpenFolder → OpenFolder × List Edit
  unfolding merge_all gone_rows retain_rows
  merge_newest fresh f =
      let gone = gone_rows fresh f.headers in
      let kept : Merging = record {
        headers = retain_rows gone 0 f.headers;
        rows = retain_rows gone 0 f.rows;
        edits = map removed (reverse gone);
      } in
      let merged = merge_all fresh kept in
      (record f { headers = merged.headers; rows = merged.rows }, merged.edits)

  unfoldable pub append : List MailHeader → OpenFolder → OpenFolder × ℕ
  append headers f =
      let fresh = keep (λ h. ltb h.uid (last_uid u32_max f.headers)) headers in
      (
        record f { headers = f.headers ++ fresh; rows = f.rows ++ map (from_header zone) fresh },
        length fresh,
      )

  -- `apply_reply` once the request that it answers is known.
  unfoldable pub page_reply : ℕ → ℕ → List MailHeader → OpenFolder → OpenFolder × Option Applied
  unfolding is_cached_only merge_newest append
  page_reply page_no total headers f =
      let g = record f {
        page_request = none;
        total_pages = some total;
        first_page_arrived = true;
      } in
      if is_cached_only f
      then (let (merged, edits) =
            merge_newest headers (record g { next_page = max f.next_page (add_u32 page_no 1) }) in
          (merged, some (refreshed edits)))
      else (let (longer, added) = append headers (record g { next_page = add_u32 page_no 1 }) in
          (longer, some (page added)))

  unfoldable pub refresh_reply : ℕ → List MailHeader → OpenFolder → OpenFolder × Option Applied
  unfolding merge_newest
  refresh_reply total headers f =
      let (merged, edits) =
        merge_newest headers (record f { refresh_request = none; total_pages = some total }) in
      (merged, some (refreshed edits))

  unfoldable pub apply_reply :
      ℕ → ℕ → ℕ → List MailHeader → OpenFolder → OpenFolder × Option Applied
  unfolding page_reply refresh_reply
  apply_reply id page_no total headers f =
      if is_just nat_eq f.page_request id
      then page_reply page_no total headers f
      else if is_just nat_eq f.refresh_request id
      then refresh_reply total headers f
      else (f, none)

  unfoldable pub seed : List MailHeader → OpenFolder → OpenFolder × Bool
  seed headers f =
      if f.first_page_arrived || not (is_empty f.headers) || is_empty headers then (f, false) else (
        record f {
          next_page = max (length headers / page_size) 1 % u32_mod;
          rows = map (from_header zone) headers;
          headers = headers;
        },
        true,
      )

  pub set_flags_at : Option ℕ → Option MailHeader → List Str → OpenFolder → OpenFolder × Option ℕ
  set_flags_at (some at) (some old) flags f =
      let header = record old { flags = flags } in
      (
        record f {
          headers = set f.headers at header;
          rows = set f.rows at (from_header zone header);
        },
        some at,
      )
  set_flags_at (some at) none flags f = (f, none)
  set_flags_at none old flags f = (f, none)

  unfoldable pub set_flags : ℕ → List Str → OpenFolder → OpenFolder × Option ℕ
  unfolding set_flags_at row_of
  set_flags uid flags f =
      let at = row_of uid f in set_flags_at at (get_elem? f.headers (unwrap_or at 0)) flags f

pub remove_row : Option ℕ → OpenFolder → OpenFolder × Option ℕ
remove_row none f = (f, none)
remove_row (some at) f =
    (record f { headers = remove_at f.headers at; rows = remove_at f.rows at }, some at)

unfoldable pub remove : ℕ → OpenFolder → OpenFolder × Option ℕ
unfolding remove_row row_of
remove uid f = remove_row (row_of uid f) f
