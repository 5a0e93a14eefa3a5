-- ===== src/Mailbox/Merge.antt =====
-- What `OpenFolder::merge_newest` does to each message, whatever its place in the list.
use esmail.Prelude.{
  ℕ, zero, suc, ◌≤◌, ◌<◌, ◌≡◌, ◌∙◌, refl, ap, inl, inr, Bool, false, not, ◌&&◌, ◌||◌, Option, none,
  some, List, [], ◌∷◌, Str, arith, any, ◌==◌, leb, if◌then◌else◌, insert_at, set, keep, Bool-cases,
  Option-cases,
}
use esmail.Mail.{MailHeader}
use esmail.Mailbox.{
  OpenFolder, Merging, retain_rows, rows_where, merge_at, merge_all, merge_newest, row_in,
  gone_rows, last_uid,
}
use esmail.Mailbox.Order.{NewestFirst, has_uid, row_in-none}

-- The loaded message with this uid.
abbrev pub message : ℕ → List MailHeader → Option MailHeader
message u [] = none
message u (h ∷ hs) = let rest = message u hs in if h.uid == u then some h else rest

-- Row numbers below `at` do not matter to rows from `at` on.
rows_where-below :
    (p : MailHeader → Bool) (i at : ℕ) (hs : List MailHeader)
    → i < at
    → any (λ g. g == i) (rows_where p at hs) ≡ false
unfolding rows_where
rows_where-below p i at [] lt = refl
rows_where-below p i at (h ∷ hs) lt = ground (arith, rows_where-below p i (suc at) hs)

pub retain_rows-keep :
    (p : MailHeader → Bool) (gone : List ℕ) (at : ℕ) (hs : List MailHeader)
    → ((i : ℕ) → at ≤ i → any (λ g. g == i) gone ≡ any (λ g. g == i) (rows_where p at hs))
    → retain_rows gone at hs ≡ keep (λ h. not (p h)) hs
unfolding retain_rows rows_where
retain_rows-keep p gone at [] same = refl
retain_rows-keep p gone at (h ∷ hs) same =
    let rest = retain_rows-keep p gone (suc at) hs (λ i le. same i (omega arith) ∙ ground arith) in
    ground (arith, same at, rows_where-below p at (suc at) hs)

message-keep :
    (u : ℕ) (q : ℕ → Bool) (hs : List MailHeader)
    → message u (keep (λ h. q h.uid) hs) ≡ (if q u then message u hs else none)
message-keep u q [] = ground arith
message-keep u q (h ∷ hs) = elim (Bool-cases (h.uid == u)) [
  | inl same ↦ let e : h.uid ≡ u = ground arith in ground (arith, message-keep u q hs, ap q e)
  | inr other ↦ ground (arith, message-keep u q hs)
]

message-set :
    (u at : ℕ) (h : MailHeader) (hs : List MailHeader)
    → row_in h.uid hs ≡ some at
    → message u (set hs at h) ≡ (if h.uid == u then some h else message u hs)
unfolding row_in
message-set u at h [] e = cc
message-set u zero h (x ∷ xs) e = ground arith
message-set u (suc at) h (x ∷ xs) e = ground (arith, message-set u at h xs)

message-insert_at :
    (u at : ℕ) (h : MailHeader) (hs : List MailHeader)
    → has_uid h.uid hs ≡ false
    → message u (insert_at hs at h) ≡ (if h.uid == u then some h else message u hs)
message-insert_at u zero h hs n = refl
message-insert_at u (suc at) h [] n = refl
message-insert_at u (suc at) h (x ∷ xs) n = ground (arith, message-insert_at u at h xs)

any-has_uid : (u : ℕ) (hs : List MailHeader) → any (λ g. g.uid == u) hs ≡ has_uid u hs
any-has_uid u [] = refl
any-has_uid u (h ∷ hs) = ap (λ b. h.uid == u || b) (any-has_uid u hs)

has_uid-older : (u b : ℕ) (hs : List MailHeader) → NewestFirst b hs → b ≤ u → has_uid u hs ≡ false
has_uid-older u b [] d le = refl
has_uid-older u b (h ∷ hs) d le = ground (arith, has_uid-older u h.uid hs)

message-none : (u : ℕ) (hs : List MailHeader) → has_uid u hs ≡ false → message u hs ≡ none
message-none u [] n = refl
message-none u (h ∷ hs) n = ground (arith, message-none u hs)

stays : List MailHeader → ℕ → Bool
stays fresh v = not (leb (last_uid 0 fresh) v && not (any (λ g. g.uid == v) fresh))

retained-keep :
    (fresh hs : List MailHeader)
    → retain_rows (gone_rows fresh hs) 0 hs ≡ keep (λ h. stays fresh h.uid) hs
unfolding gone_rows stays
retained-keep fresh hs = retain_rows-keep _ (gone_rows fresh hs) 0 hs (λ i le. refl)

stays_lem :
    (fresh : List MailHeader) (v : ℕ)
    → stays fresh v ≡ not (leb (last_uid 0 fresh) v && not (has_uid v fresh))
unfolding stays
stays_lem fresh v = ap (λ b. not (leb (last_uid 0 fresh) v && not b)) (any-has_uid v fresh)

message-retained :
    (u : ℕ) (fresh hs : List MailHeader)
    → message u (retain_rows (gone_rows fresh hs) 0 hs)
      ≡ (if leb (last_uid 0 fresh) u && not (has_uid u fresh) then none else message u hs)
message-retained u fresh hs =
    ap (message u) (retained-keep fresh hs)
    ∙ message-keep u (stays fresh) hs
    ∙ ground (arith, stays_lem fresh u)

module _ (zone : Str → Option (Str × Str)) where
  message-merge_at :
      (u : ℕ) (h : MailHeader) (m : Merging)
      → message u (merge_at zone (row_in h.uid m.headers) h m).headers
        ≡ (if h.uid == u then some h else message u m.headers)
  unfolding merge_at
  message-merge_at u h m = elim (Option-cases (row_in h.uid m.headers)) [
    | inl unseen ↦
        rw unseen (message-insert_at u _ h m.headers (row_in-none h.uid m.headers unseen))
    | inr (at, old) ↦ rw old (message-set u at h m.headers old)
  ]

  message-merge_all :
      (u b : ℕ) (fresh : List MailHeader) (m : Merging)
      → NewestFirst b fresh
      → message u (merge_all zone fresh m).headers
        ≡ (if has_uid u fresh then message u fresh else message u m.headers)
  unfolding merge_all
  message-merge_all u b [] m d = refl
  message-merge_all u b (h ∷ fresh) m d =
      let m' = merge_at zone (row_in h.uid m.headers) h m in
      ground (
        arith,
        message-merge_all u h.uid fresh m' d.1,
        message-merge_at u h m,
        has_uid-older u h.uid fresh,
      )

  -- A refresh with the newest page: a message on the page is loaded as the page has it; another one
  -- from the page's range of uids is dropped; one below that range stays as it was.
  pub message-merge_newest :
      (u b : ℕ) (fresh : List MailHeader) (f : OpenFolder)
      → NewestFirst b fresh
      → message u (merge_newest zone fresh f).0.headers ≡ (
          if has_uid u fresh
          then message u fresh
          else if leb (last_uid 0 fresh) u
          then none
          else message u f.headers)
  unfolding merge_newest
  message-merge_newest u b fresh f d =
      message-merge_all u b fresh _ d ∙ ground (arith, message-retained u fresh f.headers)
