-- ===== src/Mailbox/Edits.antt =====
-- The edits that `OpenFolder::merge_newest` reports are what a widget needs to follow the merge.
use esmail.Prelude.{
  ℕ, zero, suc, ◌≤◌, ◌<◌, ◌≡◌, ◌∙◌, refl, ap, sym, inl, inr, Bool, false, not, Option, none, some,
  List, [], ◌∷◌, ◌++◌, map, Str, arith, ltb, insert_at, remove_at, set, unwrap_or, keep, get_elem?,
  Bool-cases, Option-cases,
}
use mathlib.Core.List.{reverse, reverse-append, map-append, append-nil, append_assoc}
use esmail.Mail.{MailHeader}
use esmail.Mailbox.{
  OpenFolder, Edit, removed, inserted, Merging, retain_rows, rows_where, merge_at, merge_all,
  merge_newest, row_in, gone_rows,
}
use esmail.Mailbox.Order.{
  NewestFirst, NewestFirst-widen, insert_row, insert_row-cons, merge_at-NewestFirst,
  retain-NewestFirst,
}
use esmail.Mailbox.Merge.{retain_rows-keep}

abbrev pub uids : List MailHeader → List ℕ
uids = map (λ h. h.uid)

-- One edit of the list of uids that a widget shows: a removed row goes; an inserted row shows what
-- the final list has in its place.
abbrev pub apply_edit : List ℕ → Edit → List ℕ → List ℕ
apply_edit final (removed at) shown = remove_at shown at
apply_edit final (inserted at) shown = insert_at shown at (unwrap_or (get_elem? final at) 0)

-- The edits in the order in which they are reported.
abbrev pub replay : List ℕ → List Edit → List ℕ → List ℕ
replay final [] shown = shown
replay final (e ∷ es) shown = replay final es (apply_edit final e shown)

replay-append :
    (final : List ℕ) (es fs : List Edit) (l : List ℕ)
    → replay final (es ++ fs) l ≡ replay final fs (replay final es l)
replay-append final [] fs l = refl
replay-append final (e ∷ es) fs l = replay-append final es fs (apply_edit final e l)

-- The rows are removed last first.
remove_rows : List ℕ → List ℕ → List ℕ
remove_rows [] l = l
remove_rows (g ∷ gs) l = remove_at (remove_rows gs l) g

replay-removed :
    (final gs l : List ℕ) → replay final (map removed (reverse gs)) l ≡ remove_rows gs l
unfolding remove_rows
replay-removed final [] l = refl
replay-removed final (g ∷ gs) l =
    ap (λ r. replay final (map removed r) l) (reverse-append (g ∷ []) gs)
    ∙ ap (λ r. replay final r l) (map-append removed (reverse gs) (g ∷ []))
    ∙ replay-append final (map removed (reverse gs)) (removed g ∷ []) l
    ∙ ap (λ r. remove_at r g) (replay-removed final gs l)

remove_rows-cons :
    (p : MailHeader → Bool) (at u : ℕ) (hs : List MailHeader) (l : List ℕ)
    → remove_rows (rows_where p (suc at) hs) (u ∷ l) ≡ u ∷ remove_rows (rows_where p at hs) l
unfolding remove_rows rows_where
remove_rows-cons p at u [] l = refl
remove_rows-cons p at u (h ∷ hs) l = elim (Bool-cases (p h)) [
  | inl out ↦ rw out (ap (λ r. remove_at r (suc at)) (remove_rows-cons p (suc at) u hs l))
  | inr stays ↦ rw stays (remove_rows-cons p (suc at) u hs l)
]

uids-removed :
    (p : MailHeader → Bool) (hs : List MailHeader)
    → remove_rows (rows_where p 0 hs) (uids hs) ≡ uids (keep (λ h. not (p h)) hs)
unfolding remove_rows rows_where
uids-removed p [] = refl
uids-removed p (h ∷ hs) = elim (Bool-cases (p h)) [
  | inl out ↦
      rw (out, keep)
        (ap (λ r. remove_at r 0) (remove_rows-cons p 0 h.uid hs (uids hs)) ∙ uids-removed p hs)
  | inr stays ↦
      rw (stays, keep)
        (remove_rows-cons p 0 h.uid hs (uids hs) ∙ ap (λ r. h.uid ∷ r) (uids-removed p hs))
]

uids-set :
    (at : ℕ) (h : MailHeader) (hs : List MailHeader)
    → row_in h.uid hs ≡ some at
    → uids (set hs at h) ≡ uids hs
unfolding row_in
uids-set at h [] e = refl
uids-set zero h (x ∷ xs) e = let same : h.uid ≡ x.uid = ground arith in ap (λ u. u ∷ uids xs) same
uids-set (suc at) h (x ∷ xs) e = ap (λ r. x.uid ∷ r) (uids-set at h xs (ground arith))

uids-insert_at :
    (hs : List MailHeader) (at : ℕ) (h : MailHeader)
    → uids (insert_at hs at h) ≡ insert_at (uids hs) at h.uid
uids-insert_at [] zero h = refl
uids-insert_at [] (suc at) h = refl
uids-insert_at (x ∷ xs) zero h = refl
uids-insert_at (x ∷ xs) (suc at) h = ap (λ r. x.uid ∷ r) (uids-insert_at xs at h)

get-insert_row :
    (h : MailHeader) (hs : List MailHeader)
    → get_elem? (uids (insert_at hs (insert_row h hs) h)) (insert_row h hs) ≡ some h.uid
get-insert_row h [] = unfold insert_row in refl
get-insert_row h (x ∷ xs) = elim (Bool-cases (ltb x.uid h.uid)) [
  | inl older ↦ rw (insert_row-cons h x xs, older) refl
  | inr newer ↦ rw (insert_row-cons h x xs, newer) (get-insert_row h xs)
]

get-lt :
    (b u p : ℕ) (hs : List MailHeader) → NewestFirst b hs → get_elem? (uids hs) p ≡ some u → u < b
get-lt b u p [] d e = cc
get-lt b u zero (x ∷ xs) d e = ground arith
get-lt b u (suc p) (x ∷ xs) d e = omega (arith, get-lt x.uid u p xs d.1 e)

-- A header older than row `p` is inserted behind that row.
get-insert_older :
    (b u p : ℕ) (h : MailHeader) (hs : List MailHeader)
    → NewestFirst b hs
    → get_elem? (uids hs) p ≡ some u
    → h.uid < u
    → get_elem? (uids (insert_at hs (insert_row h hs) h)) p ≡ some u
get-insert_older b u p h [] d e lt = cc
get-insert_older b u zero h (x ∷ xs) d e lt =
    let newer : ltb x.uid h.uid ≡ false = ground arith in rw (insert_row-cons h x xs, newer) e
get-insert_older b u (suc p) h (x ∷ xs) d e lt =
    let newer : ltb x.uid h.uid ≡ false = ground (arith, get-lt x.uid u p xs d.1 e) in
    rw (insert_row-cons h x xs, newer) (get-insert_older x.uid u p h xs d.1 e lt)

module _ (zone : Str → Option (Str × Str)) where
  -- The edits that the loop of `merge_newest` adds.
  edit_for : Option ℕ → MailHeader → Merging → List Edit
  edit_for (some at) h m = []
  edit_for none h m = inserted (insert_row h m.headers) ∷ []

  added : List MailHeader → Merging → List Edit
  added [] m = []
  added (h ∷ fresh) m =
      edit_for (row_in h.uid m.headers) h m
      ++ added fresh (merge_at zone (row_in h.uid m.headers) h m)

  edits-merge_at :
      (at : Option ℕ) (h : MailHeader) (m : Merging)
      → (merge_at zone at h m).edits ≡ m.edits ++ edit_for at h m
  unfolding merge_at edit_for insert_row
  edits-merge_at (some at) h m = sym (append-nil m.edits)
  edits-merge_at none h m = refl

  edits-merge_all :
      (fresh : List MailHeader) (m : Merging)
      → (merge_all zone fresh m).edits ≡ m.edits ++ added fresh m
  unfolding merge_all added
  edits-merge_all [] m = sym (append-nil m.edits)
  edits-merge_all (h ∷ fresh) m =
      let at = row_in h.uid m.headers in
      edits-merge_all fresh (merge_at zone at h m)
      ∙ ap (λ r. r ++ added fresh (merge_at zone at h m)) (edits-merge_at at h m)
      ∙ append_assoc m.edits (edit_for at h m) (added fresh (merge_at zone at h m))

  get-merge_at :
      (b u p : ℕ) (h : MailHeader) (m : Merging)
      → NewestFirst b m.headers
      → get_elem? (uids m.headers) p ≡ some u
      → h.uid < u
      → get_elem? (uids (merge_at zone (row_in h.uid m.headers) h m).headers) p ≡ some u
  unfolding merge_at insert_row
  get-merge_at b u p h m d e lt = elim (Option-cases (row_in h.uid m.headers)) [
    | inl unseen ↦ rw unseen (get-insert_older b u p h m.headers d e lt)
    | inr (at, old) ↦ rw old (rw (uids-set at h m.headers old) e)
  ]

  -- What stands in row `p` is not moved by older messages.
  get-merge_all :
      (b u p : ℕ) (fresh : List MailHeader) (m : Merging)
      → u ≤ b
      → NewestFirst b m.headers
      → NewestFirst u fresh
      → get_elem? (uids m.headers) p ≡ some u
      → get_elem? (uids (merge_all zone fresh m).headers) p ≡ some u
  unfolding merge_all
  get-merge_all b u p [] m le d n e = e
  get-merge_all b u p (h ∷ fresh) m le d n e =
      get-merge_all b u p fresh (merge_at zone (row_in h.uid m.headers) h m) le
        (merge_at-NewestFirst zone b h m (omega arith) d)
        (NewestFirst-widen h.uid u fresh (omega arith) n.1) (get-merge_at b u p h m d e n.0)

  replay-edit_for :
      (at : Option ℕ) (h : MailHeader) (m : Merging) (final : List ℕ)
      → row_in h.uid m.headers ≡ at
      → ((p : ℕ)
          → get_elem? (uids (merge_at zone at h m).headers) p ≡ some h.uid
          → get_elem? final p ≡ some h.uid)
      → replay final (edit_for at h m) (uids m.headers) ≡ uids (merge_at zone at h m).headers
  unfolding merge_at edit_for insert_row
  replay-edit_for (some at) h m final e stable = sym (uids-set at h m.headers e)
  replay-edit_for none h m final e stable =
      let p = insert_row h m.headers in
      ap (λ o. insert_at (uids m.headers) p (unwrap_or o 0)) (stable p (get-insert_row h m.headers))
      ∙ sym (uids-insert_at m.headers p h)

  replay-added :
      (b : ℕ) (fresh : List MailHeader) (m : Merging)
      → NewestFirst b m.headers
      → NewestFirst b fresh
      → let final = uids (merge_all zone fresh m).headers in
        replay final (added fresh m) (uids m.headers) ≡ final
  unfolding merge_all added
  replay-added b [] m d n = refl
  replay-added b (h ∷ fresh) m d n =
      let at = row_in h.uid m.headers in
      let m' = merge_at zone at h m in
      let final = uids (merge_all zone fresh m').headers in
      let d' = merge_at-NewestFirst zone b h m n.0 d in
      let rest = replay-added b fresh m' d' (NewestFirst-widen h.uid b fresh (omega arith) n.1) in
      replay-append final (edit_for at h m) (added fresh m') (uids m.headers)
      ∙ ap (replay final (added fresh m')) (
          replay-edit_for at h m final refl
            (λ p e. get-merge_all b h.uid p fresh m' (omega arith) d' n.1 e))
      ∙ rest

  -- Where the loaded messages and those of the refreshed page each stand newest first, with
  -- descending uids below one bound `b`: a refresh reports the edits that lead from the old list to the new one: applied in the order
  -- in which they are reported, they turn the uids shown before into the uids loaded after, where
  -- an inserted row shows what the new list has in its place.
  pub replay-merge_newest :
      (b : ℕ) (fresh : List MailHeader) (f : OpenFolder)
      → NewestFirst b fresh
      → NewestFirst b f.headers
      → let (g, edits) = merge_newest zone fresh f in
        replay (uids g.headers) edits (uids f.headers) ≡ uids g.headers
  unfolding merge_newest gone_rows
  replay-merge_newest b fresh f n d =
      let gone = gone_rows fresh f.headers in
      let kept : Merging = record {
        headers = retain_rows gone 0 f.headers;
        rows = retain_rows gone 0 f.rows;
        edits = map removed (reverse gone);
      } in
      let final = uids (merge_all zone fresh kept).headers in
      let shrunk =
        replay-removed final gone (uids f.headers)
        ∙ uids-removed _ f.headers
        ∙ sym (ap uids (retain_rows-keep _ gone 0 f.headers (λ i le. refl))) in
      ap (λ es. replay final es (uids f.headers)) (edits-merge_all fresh kept)
      ∙ replay-append final (map removed (reverse gone)) (added fresh kept) (uids f.headers)
      ∙ ap (replay final (added fresh kept)) shrunk
      ∙ replay-added b fresh kept (retain-NewestFirst gone 0 b f.headers d) n
