-- ===== src/Mailbox/Requests.antt =====
-- The requests that an `OpenFolder` has outstanding, and which reply answers which.
use esmail.Prelude.{
  ℕ, suc, ◌≤◌, ◌<◌, ◌≡◌, ◌≢◌, sym, ◌∙◌, refl, ◌⊎◌, inl, inr, Option, none, some, List, Str, arith,
  Bool-cases, is_just, get_elem?, unwrap_or, is_just_iff, nat_eq, u64_mod,
}
use esmail.Mail.{MailHeader}
use esmail.Mailbox.{
  OpenFolder, new, next_request, refresh_request, page_failed, apply_reply, page_reply,
  refresh_reply, seed, set_flags, set_flags_at, remove, remove_row, row_of, is_cached_only,
}

-- An outstanding request has an id that was handed out, and no two share one.
pub record IdsValid (f : OpenFolder) : Type 0 where
  pub page_le : (i : ℕ) → f.page_request ≡ some i → i ≤ f.ids.current
  pub refresh_le : (i : ℕ) → f.refresh_request ≡ some i → i ≤ f.ids.current
  pub apart : (i : ℕ) → f.page_request ≡ some i → f.refresh_request ≢ some i

pub new-IdsValid : IdsValid new
unfolding new
new-IdsValid = record { page_le = λ i h. cc; refresh_le = λ i h. cc; apart = λ i h k. cc }

pub next_request-IdsValid :
    (f : OpenFolder) → suc f.ids.current < u64_mod → IdsValid f → IdsValid (next_request f).0
unfolding next_request
next_request-IdsValid f lt v = record {
  page_le = λ i h. ground (arith, v.page_le i);
  refresh_le = λ i h. ground (arith, v.refresh_le i);
  apart = λ i h k. ground (arith, v.apart i, v.refresh_le i);
}

pub refresh_request-IdsValid :
    (f : OpenFolder) → suc f.ids.current < u64_mod → IdsValid f → IdsValid (refresh_request f).0
unfolding refresh_request
refresh_request-IdsValid f lt v = record {
  page_le = λ i h. ground (arith, v.page_le i);
  refresh_le = λ i h. ground (arith, v.refresh_le i);
  apart = λ i h k. ground (arith, v.apart i, v.page_le i);
}

module _ (zone : Str → Option (Str × Str)) where
  -- A reply that answers no outstanding request changes nothing and reports nothing.
  apply_reply_stale :
      (id page_no total : ℕ) (headers : List MailHeader) (f : OpenFolder)
      → f.page_request ≢ some id
      → f.refresh_request ≢ some id
      → apply_reply zone id page_no total headers f ≡ (f, none)
  unfolding apply_reply
  apply_reply_stale id page_no total headers f p r =
      ground (arith, is_just_iff nat_eq f.page_request id, is_just_iff nat_eq f.refresh_request id)

  module _ (page_no total : ℕ) (headers : List MailHeader) (f : OpenFolder) where
    pub page_reply-requests :
        ((page_reply zone page_no total headers f).0.page_request ≡ none)
        × ((page_reply zone page_no total headers f).0.refresh_request ≡ f.refresh_request)
        × ((page_reply zone page_no total headers f).0.ids ≡ f.ids)
    unfolding page_reply
    page_reply-requests = elim (Bool-cases (is_cached_only f)) [
      | inl cached ↦ rw cached (refl, refl, refl)
      | inr live ↦ rw live (refl, refl, refl)
    ]

    pub refresh_reply-requests :
        ((refresh_reply zone total headers f).0.page_request ≡ f.page_request)
        × ((refresh_reply zone total headers f).0.refresh_request ≡ none)
        × ((refresh_reply zone total headers f).0.ids ≡ f.ids)
    unfolding refresh_reply
    refresh_reply-requests = (refl, refl, refl)

    -- The outstanding requests after a reply.
    apply_reply-requests :
        (id : ℕ)
        → IdsValid f
        → let g = (apply_reply zone id page_no total headers f).0 in
          (g.page_request ≢ some id) × (g.refresh_request ≢ some id)
    unfolding apply_reply
    apply_reply-requests id v = elim (Bool-cases (is_just nat_eq f.page_request id)) [
      | inl mine ↦
          let was = (is_just_iff nat_eq f.page_request id).0 mine in
          rw mine
            (λ h. cc (page_reply-requests.0), λ h. v.apart id was (sym page_reply-requests.1 ∙ h))
      | inr other ↦ rw other (elim (Bool-cases (is_just nat_eq f.refresh_request id)) [
        | inl mine ↦ rw mine (
          λ h.
              cc (
                other,
                (is_just_iff nat_eq f.page_request id).1 (sym refresh_reply-requests.0 ∙ h),
              ),
          λ h. cc (refresh_reply-requests.1),
        )
        | inr stale ↦ rw stale (
          λ h. cc (other, (is_just_iff nat_eq f.page_request id).1 h),
          λ h. cc (stale, (is_just_iff nat_eq f.refresh_request id).1 h),
        )
      ])
    ]

    pub apply_reply-IdsValid :
        (id : ℕ) → IdsValid f → IdsValid (apply_reply zone id page_no total headers f).0
    unfolding apply_reply
    apply_reply-IdsValid id v = elim (Bool-cases (is_just nat_eq f.page_request id)) [
      | inl mine ↦ rw mine (
          ids-IdsValid (page_reply zone page_no total headers f).0 page_reply-requests.2
            (inl page_reply-requests.0) (inr page_reply-requests.1))
      | inr other ↦ rw other (elim (Bool-cases (is_just nat_eq f.refresh_request id)) [
        | inl mine ↦ rw mine (
            ids-IdsValid (refresh_reply zone total headers f).0 refresh_reply-requests.2
              (inr refresh_reply-requests.0) (inl refresh_reply-requests.1))
        | inr stale ↦ rw stale v
      ])
    ]
      where
        ids-IdsValid :
            (g : OpenFolder)
            → g.ids ≡ f.ids
            → (g.page_request ≡ none) ⊎ (g.page_request ≡ f.page_request)
            → (g.refresh_request ≡ none) ⊎ (g.refresh_request ≡ f.refresh_request)
            → IdsValid g
        ids-IdsValid g e p r = record {
          page_le = λ i h. ground (arith, v.page_le i);
          refresh_le = λ i h. ground (arith, v.refresh_le i);
          apart = λ i h k. ground (arith, v.apart i);
        }

  -- A reply is applied at most once: whatever a second reply under the same id says, it changes
  -- nothing and reports nothing.
  apply_reply_once :
      (id page_no total page_no' total' : ℕ) (headers headers' : List MailHeader) (f : OpenFolder)
      → IdsValid f
      → let g = (apply_reply zone id page_no total headers f).0 in
        apply_reply zone id page_no' total' headers' g ≡ (g, none)
  apply_reply_once id page_no total page_no' total' headers headers' f v =
      let gone = apply_reply-requests page_no total headers f id v in
      apply_reply_stale id page_no' total' headers' _ gone.0 gone.1

-- The operations that ask for nothing and answer nothing keep the outstanding requests.
keeps-IdsValid :
    (f g : OpenFolder)
    → g.ids ≡ f.ids
    → g.page_request ≡ f.page_request
    → g.refresh_request ≡ f.refresh_request
    → IdsValid f
    → IdsValid g
keeps-IdsValid f g e p r v = record {
  page_le = λ i h. ground (arith, v.page_le i);
  refresh_le = λ i h. ground (arith, v.refresh_le i);
  apart = λ i h k. ground (arith, v.apart i);
}

pub page_failed-IdsValid : (f : OpenFolder) → IdsValid f → IdsValid (page_failed f)
unfolding page_failed
page_failed-IdsValid f v = record {
  page_le = λ i h. cc;
  refresh_le = v.refresh_le;
  apart = λ i h k. cc;
}

remove_row-IdsValid : (at : Option ℕ) (f : OpenFolder) → IdsValid f → IdsValid (remove_row at f).0
unfolding remove_row
remove_row-IdsValid none f v = v
remove_row-IdsValid (some at) f v = keeps-IdsValid f _ refl refl refl v

pub remove-IdsValid : (uid : ℕ) (f : OpenFolder) → IdsValid f → IdsValid (remove uid f).0
unfolding remove
remove-IdsValid uid f v = remove_row-IdsValid (row_of uid f) f v

module _ (zone : Str → Option (Str × Str)) where
  pub seed-IdsValid :
      (headers : List MailHeader) (f : OpenFolder) → IdsValid f → IdsValid (seed zone headers f).0
  unfolding seed
  seed-IdsValid headers f v =
      keeps-IdsValid f (seed zone headers f).0 (ground arith) (ground arith) (ground arith) v

  set_flags_at-IdsValid :
      (at : Option ℕ) (old : Option MailHeader) (flags : List Str) (f : OpenFolder)
      → IdsValid f
      → IdsValid (set_flags_at zone at old flags f).0
  unfolding set_flags_at
  set_flags_at-IdsValid (some at) (some old) flags f v = keeps-IdsValid f _ refl refl refl v
  set_flags_at-IdsValid (some at) none flags f v = v
  set_flags_at-IdsValid none old flags f v = v

  pub set_flags-IdsValid :
      (uid : ℕ) (flags : List Str) (f : OpenFolder)
      → IdsValid f
      → IdsValid (set_flags zone uid flags f).0
  unfolding set_flags
  set_flags-IdsValid uid flags f v =
      set_flags_at-IdsValid (row_of uid f) (get_elem? f.headers (unwrap_or (row_of uid f) 0)) flags
        f v
