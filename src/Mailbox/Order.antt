-- ===== src/Mailbox/Order.antt =====
-- The headers of an `OpenFolder` stand newest first: their uids fall strictly.
use esmail.Prelude.{
  ℕ, zero, suc, ◌≤◌, ◌<◌, ◌≡◌, ◌∙◌, refl, ap, sym, inl, inr, Bool, false, ◌||◌, Option, none, some,
  List, [], ◌∷◌, ◌++◌, Str, ltb, arith, ◌==◌, if◌then◌else◌, position, insert_at, remove_at, set,
  length, unwrap_or, keep, Bool-cases, get_elem?, Option-cases, All, is_just, nat_eq, u32_max,
}
use esmail.Mail.{MailHeader}
use esmail.Mailbox.{
  OpenFolder, Merging, new, apply_reply, seed, set_flags, remove, retain_rows, merge_at, merge_all,
  merge_newest, append, row_in, gone_rows, page_reply, set_flags_at, remove_row, row_of, last_uid,
  is_cached_only,
}

-- Strictly falling uids, all below `bound`.
abbrev pub NewestFirst : ℕ → List MailHeader → Type 0
NewestFirst bound [] = Unit
NewestFirst bound (h ∷ hs) = (h.uid < bound) × NewestFirst h.uid hs

pub NewestFirst-widen :
    (b b' : ℕ) (hs : List MailHeader) → b ≤ b' → NewestFirst b hs → NewestFirst b' hs
NewestFirst-widen b b' [] le d = tt
NewestFirst-widen b b' (h ∷ hs) le d = (omega arith, d.1)

abbrev pub has_uid : ℕ → List MailHeader → Bool
has_uid u [] = false
has_uid u (h ∷ hs) = h.uid == u || has_uid u hs

keep-NewestFirst :
    (p : MailHeader → Bool) (b : ℕ) (hs : List MailHeader)
    → NewestFirst b hs
    → NewestFirst b (keep p hs)
keep-NewestFirst p b [] d = tt
keep-NewestFirst p b (h ∷ hs) d =
    ground (arith, keep-NewestFirst p h.uid hs d.1, NewestFirst-widen h.uid b (keep p hs))

pub retain-NewestFirst :
    (gone : List ℕ) (at b : ℕ) (hs : List MailHeader)
    → NewestFirst b hs
    → NewestFirst b (retain_rows gone at hs)
unfolding retain_rows
retain-NewestFirst gone at b [] d = tt
retain-NewestFirst gone at b (h ∷ hs) d = ground (
  arith,
  retain-NewestFirst gone (suc at) h.uid hs d.1,
  NewestFirst-widen h.uid b (retain_rows gone (suc at) hs),
)

keep_below-NewestFirst :
    (limit c : ℕ) (fresh : List MailHeader)
    → NewestFirst c fresh
    → NewestFirst limit (keep (λ h. ltb h.uid limit) fresh)
keep_below-NewestFirst limit c [] d = tt
keep_below-NewestFirst limit c (h ∷ hs) d = ground (
  arith,
  keep-NewestFirst (λ g. ltb g.uid limit) h.uid hs d.1,
  keep_below-NewestFirst limit h.uid hs d.1,
)

append-NewestFirst :
    (b d : ℕ) (hs later : List MailHeader)
    → d ≤ b
    → NewestFirst b hs
    → NewestFirst (last_uid d hs) later
    → NewestFirst b (hs ++ later)
append-NewestFirst b d [] later le x y = NewestFirst-widen d b later le y
append-NewestFirst b d (h ∷ hs) later le x y =
    (x.0, append-NewestFirst h.uid h.uid hs later (omega arith) x.1 y)

unfoldable pub insert_row : MailHeader → List MailHeader → ℕ
insert_row h hs = unwrap_or (position (λ old. ltb old.uid h.uid) hs) (length hs)

pub insert_row-cons :
    (h x : MailHeader) (xs : List MailHeader)
    → insert_row h (x ∷ xs) ≡ (if ltb x.uid h.uid then 0 else suc (insert_row h xs))
unfolding insert_row
insert_row-cons h x xs = ground arith

-- A header with a new uid, put before the first older one.
pub insert-NewestFirst :
    (b : ℕ) (h : MailHeader) (hs : List MailHeader)
    → h.uid < b
    → has_uid h.uid hs ≡ false
    → NewestFirst b hs
    → NewestFirst b (insert_at hs (insert_row h hs) h)
insert-NewestFirst b h [] lt n d = unfold insert_row in (lt, tt)
insert-NewestFirst b h (x ∷ xs) lt n d = elim (Bool-cases (ltb x.uid h.uid)) [
  | inl older ↦ rw (insert_row-cons h x xs, older) (lt, (ground arith, d.1))
  | inr newer ↦
      rw (insert_row-cons h x xs, newer)
        (d.0, insert-NewestFirst x.uid h xs (ground arith) (ground arith) d.1)
]

pub row_in-none : (u : ℕ) (hs : List MailHeader) → row_in u hs ≡ none → has_uid u hs ≡ false
unfolding row_in
row_in-none u [] e = refl
row_in-none u (h ∷ hs) e = ground (arith, row_in-none u hs)

pub row_in-some :
    (u at : ℕ) (hs : List MailHeader) (h : MailHeader)
    → row_in u hs ≡ some at
    → get_elem? hs at ≡ some h
    → h.uid ≡ u
unfolding row_in
row_in-some u at [] h e g = cc
row_in-some u zero (x ∷ xs) h e g =
    let same : x.uid ≡ u = ground arith in
    let found : x ≡ h = cc in sym (ap (λ (y : MailHeader). y.uid) found) ∙ same
row_in-some u (suc at) (x ∷ xs) h e g = row_in-some u at xs h (ground arith) g

pub set-NewestFirst :
    (b u at : ℕ) (h : MailHeader) (hs : List MailHeader)
    → h.uid ≡ u
    → row_in u hs ≡ some at
    → NewestFirst b hs
    → NewestFirst b (set hs at h)
unfolding row_in
set-NewestFirst b u at h [] p e d = tt
set-NewestFirst b u zero h (x ∷ xs) p e d =
    let same : x.uid ≡ u = ground arith in
    (omega arith, NewestFirst-widen x.uid h.uid xs (omega arith) d.1)
set-NewestFirst b u (suc at) h (x ∷ xs) p e d =
    (d.0, set-NewestFirst x.uid u at h xs p (ground arith) d.1)

remove-NewestFirst :
    (b at : ℕ) (hs : List MailHeader) → NewestFirst b hs → NewestFirst b (remove_at hs at)
remove-NewestFirst b at [] d = tt
remove-NewestFirst b zero (x ∷ xs) d = NewestFirst-widen x.uid b xs (omega arith) d.1
remove-NewestFirst b (suc at) (x ∷ xs) d = (d.0, remove-NewestFirst x.uid at xs d.1)

module _ (zone : Str → Option (Str × Str)) (b : ℕ) where
  pub merge_at-NewestFirst :
      (h : MailHeader) (m : Merging)
      → h.uid < b
      → NewestFirst b m.headers
      → NewestFirst b (merge_at zone (row_in h.uid m.headers) h m).headers
  unfolding merge_at insert_row
  merge_at-NewestFirst h m lt d = elim (Option-cases (row_in h.uid m.headers)) [
    | inl unseen ↦
        rw unseen (insert-NewestFirst b h m.headers lt (row_in-none h.uid m.headers unseen) d)
    | inr (at, old) ↦ rw old (set-NewestFirst b h.uid at h m.headers refl old d)
  ]

  merge_all-NewestFirst :
      (fresh : List MailHeader) (m : Merging)
      → All (λ h. h.uid < b) fresh
      → NewestFirst b m.headers
      → NewestFirst b (merge_all zone fresh m).headers
  unfolding merge_all
  merge_all-NewestFirst [] m lt d = d
  merge_all-NewestFirst (h ∷ fresh) m lt d =
      merge_all-NewestFirst fresh (merge_at zone (row_in h.uid m.headers) h m) lt.1
        (merge_at-NewestFirst h m lt.0 d)

  pub All-below :
      (c : ℕ) (hs : List MailHeader) → c ≤ b → NewestFirst c hs → All (λ h. h.uid < b) hs
  All-below c [] le d = tt
  All-below c (h ∷ hs) le d = (omega arith, All-below h.uid hs (omega arith) d.1)

  pub merge_newest-NewestFirst :
      (fresh : List MailHeader) (f : OpenFolder)
      → NewestFirst b fresh
      → NewestFirst b f.headers
      → NewestFirst b (merge_newest zone fresh f).0.headers
  unfolding merge_newest
  merge_newest-NewestFirst fresh f new d =
      merge_all-NewestFirst fresh _ (All-below b fresh (omega arith) new)
        (retain-NewestFirst (gone_rows fresh f.headers) 0 b f.headers d)

  pub appended-NewestFirst :
      (headers : List MailHeader) (f : OpenFolder)
      → u32_max ≤ b
      → NewestFirst b headers
      → NewestFirst b f.headers
      → NewestFirst b (append zone headers f).0.headers
  unfolding append
  appended-NewestFirst headers f le new d =
      append-NewestFirst b u32_max f.headers
        (keep (λ h. ltb h.uid (last_uid u32_max f.headers)) headers) le d
        (keep_below-NewestFirst (last_uid u32_max f.headers) b headers new)

  module _ (f : OpenFolder) (le : u32_max ≤ b) (d : NewestFirst b f.headers) where
    page_reply-NewestFirst :
        (page_no total : ℕ) (headers : List MailHeader)
        → NewestFirst b headers
        → NewestFirst b (page_reply zone page_no total headers f).0.headers
    unfolding page_reply
    page_reply-NewestFirst page_no total headers new = elim (Bool-cases (is_cached_only f)) [
      | inl cached ↦ rw cached (merge_newest-NewestFirst headers f new d)
      | inr live ↦ rw live (appended-NewestFirst headers f le new d)
    ]

    pub apply_reply-NewestFirst :
        (id page_no total : ℕ) (headers : List MailHeader)
        → NewestFirst b headers
        → NewestFirst b (apply_reply zone id page_no total headers f).0.headers
    unfolding apply_reply
    apply_reply-NewestFirst id page_no total headers new =
        elim (Bool-cases (is_just nat_eq f.page_request id)) [
          | inl mine ↦ rw mine (page_reply-NewestFirst page_no total headers new)
          | inr other ↦ rw other (elim (Bool-cases (is_just nat_eq f.refresh_request id)) [
            | inl mine ↦ rw mine (merge_newest-NewestFirst headers f new d)
            | inr stale ↦ rw stale d
          ])
        ]

    pub seed-NewestFirst :
        (headers : List MailHeader)
        → NewestFirst b headers
        → NewestFirst b (seed zone headers f).0.headers
    unfolding seed
    seed-NewestFirst headers new = ground arith

    remove_row-NewestFirst : (at : Option ℕ) → NewestFirst b (remove_row at f).0.headers
    unfolding remove_row
    remove_row-NewestFirst none = d
    remove_row-NewestFirst (some at) = remove-NewestFirst b at f.headers d

    pub removed-NewestFirst : (uid : ℕ) → NewestFirst b (remove uid f).0.headers
    unfolding remove
    removed-NewestFirst uid = remove_row-NewestFirst (row_of uid f)

    set_flags_at-NewestFirst :
        (uid : ℕ) (at : Option ℕ) (old : Option MailHeader) (flags : List Str)
        → row_in uid f.headers ≡ at
        → get_elem? f.headers (unwrap_or at 0) ≡ old
        → NewestFirst b (set_flags_at zone at old flags f).0.headers
    unfolding set_flags_at
    set_flags_at-NewestFirst uid (some at) (some old) flags e g =
        set-NewestFirst b uid at (record old { flags = flags }) f.headers
          (row_in-some uid at f.headers old e g) e d
    set_flags_at-NewestFirst uid (some at) none flags e g = d
    set_flags_at-NewestFirst uid none old flags e g = d

    pub set_flags-NewestFirst :
        (uid : ℕ) (flags : List Str) → NewestFirst b (set_flags zone uid flags f).0.headers
    unfolding set_flags
    set_flags-NewestFirst uid flags =
        let at = row_of uid f in
        set_flags_at-NewestFirst uid at (get_elem? f.headers (unwrap_or at 0)) flags refl refl
