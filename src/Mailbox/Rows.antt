-- ===== src/Mailbox/Rows.antt =====
-- The rows of an `OpenFolder` are the rows of its headers, in the same order.
use esmail.Prelude.{
  ℕ, zero, suc, ◌≡◌, ◌∙◌, refl, ap, sym, inl, inr, u32_max, Option, none, some, List, [], ◌∷◌, ◌++◌,
  map, Str, ltb, arith, any, ◌==◌, position, insert_at, remove_at, set, length, unwrap_or, keep,
  Bool-cases, get_elem?, is_just, nat_eq,
}
use mathlib.Core.List.{map-append}
use esmail.Mail.{MailHeader, from_header}
use esmail.Mailbox.{
  OpenFolder, Merging, apply_reply, seed, set_flags, remove, retain_rows, merge_at, merge_all,
  merge_newest, append, row_in, gone_rows, page_reply, set_flags_at, remove_row, is_cached_only,
  row_of, last_uid,
}

module _ {ℓ κ} {A : Type ℓ} {B : Type κ} (f : A → B) where
  map-set : (xs : List A) (i : ℕ) (v : A) → map f (set xs i v) ≡ set (map f xs) i (f v)
  map-set [] i v = refl
  map-set (x ∷ xs) zero v = refl
  map-set (x ∷ xs) (suc i) v = ap (λ r. f x ∷ r) (map-set xs i v)

  map-insert_at :
      (xs : List A) (i : ℕ) (v : A) → map f (insert_at xs i v) ≡ insert_at (map f xs) i (f v)
  map-insert_at [] zero v = refl
  map-insert_at [] (suc i) v = refl
  map-insert_at (x ∷ xs) zero v = refl
  map-insert_at (x ∷ xs) (suc i) v = ap (λ r. f x ∷ r) (map-insert_at xs i v)

  map-remove_at : (xs : List A) (i : ℕ) → map f (remove_at xs i) ≡ remove_at (map f xs) i
  map-remove_at [] i = refl
  map-remove_at (x ∷ xs) zero = refl
  map-remove_at (x ∷ xs) (suc i) = ap (λ r. f x ∷ r) (map-remove_at xs i)

  map-retain_rows :
      (gone : List ℕ) (at : ℕ) (xs : List A)
      → map f (retain_rows gone at xs) ≡ retain_rows gone at (map f xs)
  unfolding retain_rows
  map-retain_rows gone at [] = refl
  map-retain_rows gone at (x ∷ xs) = elim (Bool-cases (any (λ g. g == at) gone)) [
    | inl out ↦ rw out (map-retain_rows gone (suc at) xs)
    | inr stays ↦ rw stays (ap (λ r. f x ∷ r) (map-retain_rows gone (suc at) xs))
  ]

module _ (zone : Str → Option (Str × Str)) where
  -- The rows are the rows of the headers.
  pub record InStep (f : OpenFolder) : Type 0 where
    pub rows : f.rows ≡ map (from_header zone) f.headers

  record MergingInStep (m : Merging) : Type 0 where
    rows : m.rows ≡ map (from_header zone) m.headers

  merge_at-InStep :
      (at : Option ℕ) (h : MailHeader) (m : Merging)
      → MergingInStep m
      → MergingInStep (merge_at zone at h m)
  unfolding merge_at
  merge_at-InStep (some at) h m i = record {
    rows =
        rw (map-set (from_header zone) m.headers at h)
          (ap (λ r. set r at (from_header zone h)) i.rows);
  }
  merge_at-InStep none h m i =
      let at = unwrap_or (position (λ old. ltb old.uid h.uid) m.headers) (length m.headers) in
      record {
        rows =
            rw (map-insert_at (from_header zone) m.headers at h)
              (ap (λ r. insert_at r at (from_header zone h)) i.rows);
      }

  merge_all-InStep :
      (fresh : List MailHeader) (m : Merging)
      → MergingInStep m
      → MergingInStep (merge_all zone fresh m)
  unfolding merge_all
  merge_all-InStep [] m i = i
  merge_all-InStep (h ∷ fresh) m i =
      merge_all-InStep fresh (merge_at zone (row_in h.uid m.headers) h m)
        (merge_at-InStep (row_in h.uid m.headers) h m i)

  merge_newest-InStep :
      (fresh : List MailHeader) (f : OpenFolder) → InStep f → InStep (merge_newest zone fresh f).0
  unfolding merge_newest
  merge_newest-InStep fresh f i =
      let gone = gone_rows fresh f.headers in
      record {
        rows =
            (merge_all-InStep fresh _ (record {
              rows =
                  ap (retain_rows gone 0) i.rows
                  ∙ sym (map-retain_rows (from_header zone) gone 0 f.headers);
            })).rows;
      }

  append-InStep :
      (headers : List MailHeader) (f : OpenFolder) → InStep f → InStep (append zone headers f).0
  unfolding append
  append-InStep headers f i =
      let fresh = keep (λ h. ltb h.uid (last_uid u32_max f.headers)) headers in
      record {
        rows =
            ap (λ r. r ++ map (from_header zone) fresh) i.rows
            ∙ sym (map-append (from_header zone) f.headers fresh);
      }

  page_reply-InStep :
      (page_no total : ℕ) (headers : List MailHeader) (f : OpenFolder)
      → InStep f
      → InStep (page_reply zone page_no total headers f).0
  unfolding page_reply
  page_reply-InStep page_no total headers f i = elim (Bool-cases (is_cached_only f)) [
    | inl cached ↦ rw cached (merge_newest-InStep headers _ (record { rows = i.rows }))
    | inr live ↦ rw live (append-InStep headers _ (record { rows = i.rows }))
  ]

  pub apply_reply-InStep :
      (id page_no total : ℕ) (headers : List MailHeader) (f : OpenFolder)
      → InStep f
      → InStep (apply_reply zone id page_no total headers f).0
  unfolding apply_reply
  apply_reply-InStep id page_no total headers f i =
      elim (Bool-cases (is_just nat_eq f.page_request id)) [
        | inl mine ↦ rw mine (page_reply-InStep page_no total headers f i)
        | inr other ↦ rw other (elim (Bool-cases (is_just nat_eq f.refresh_request id)) [
          | inl mine ↦ rw mine (merge_newest-InStep headers _ (record { rows = i.rows }))
          | inr stale ↦ rw stale i
        ])
      ]

  pub seed-InStep :
      (headers : List MailHeader) (f : OpenFolder) → InStep f → InStep (seed zone headers f).0
  unfolding seed
  seed-InStep headers f i = ground arith

  set_flags_at-InStep :
      (at : Option ℕ) (old : Option MailHeader) (flags : List Str) (f : OpenFolder)
      → InStep f
      → InStep (set_flags_at zone at old flags f).0
  unfolding set_flags_at
  set_flags_at-InStep (some at) (some old) flags f i =
      let h = record old { flags = flags } in
      record {
        rows =
            rw (map-set (from_header zone) f.headers at h)
              (ap (λ r. set r at (from_header zone h)) i.rows);
      }
  set_flags_at-InStep (some at) none flags f i = i
  set_flags_at-InStep none old flags f i = i

  pub set_flags-InStep :
      (uid : ℕ) (flags : List Str) (f : OpenFolder)
      → InStep f
      → InStep (set_flags zone uid flags f).0
  unfolding set_flags
  set_flags-InStep uid flags f i =
      set_flags_at-InStep (row_of uid f) (get_elem? f.headers (unwrap_or (row_of uid f) 0)) flags f
        i

  remove_row-InStep : (at : Option ℕ) (f : OpenFolder) → InStep f → InStep (remove_row at f).0
  unfolding remove_row
  remove_row-InStep none f i = i
  remove_row-InStep (some at) f i = record {
    rows = rw (map-remove_at (from_header zone) f.headers at) (ap (λ r. remove_at r at) i.rows);
  }

  pub remove-InStep : (uid : ℕ) (f : OpenFolder) → InStep f → InStep (remove uid f).0
  unfolding remove
  remove-InStep uid f i = remove_row-InStep (row_of uid f) f i
