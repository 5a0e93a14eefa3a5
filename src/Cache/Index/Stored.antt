-- ===== src/Cache/Index/Stored.antt =====
-- What a search result that is opened from the cache shows of a message that was indexed.
use esmail.Prelude.{
  ℕ, suc, ◌≤◌, ◌<◌, ◌-◌, ◌≡◌, refl, ap, subst, true, false, none, some, List, [], ◌∷◌, map, Str,
  Bytes, arith, length, All, Bool-cases, Option-cases, inl, inr, ◌⊎◌, IsWord, split_whitespace-join,
  if◌then◌else◌, is_some, as_bytes,
}
use esmail.Mail.{MailHeader}
use esmail.Table.{Key, Row, key_eq, row_at, upsert_row}
use esmail.Table.Keys.{row_at-upsert_row, row_at-overwrite, key_eq_refl}
use esmail.Cache.{Body, Cache}
use esmail.Cache.Index.{
  Attachment, CachedAttachment, Codecs, cached_attachment, max_cached_bodies, flags_column,
  parse_flags_column, attachments_column, parse_attachments_column, decoded, split_oldest,
  drop_oldest, drop_oldest_rows, evict_lru_bodies, key_of, message_of, header_of, index_body,
  index_mail, joined_mail, fetch_mail,
}

-- What the JSON and base64 libraries write, they read back.
pub record IsCodec (lib : Codecs) : Type 0 where
  pub from_json-to_json :
      (xs : List CachedAttachment) (json : Str)
      → lib.to_json xs ≡ some json
      → lib.from_json json ≡ some xs
  pub decode-encode : (bytes : Bytes) → lib.decode (lib.encode bytes) ≡ some bytes

abbrev pub IsBefore : ℕ → Row Body → Type 0
IsBefore now r = r.columns.cached_at < now

decoded-map :
    (lib : Codecs) (xs : List Attachment)
    → IsCodec lib
    → decoded lib.decode (map (cached_attachment lib.encode) xs) ≡ xs
unfolding decoded
decoded-map lib [] laws = refl
decoded-map lib (x ∷ xs) laws = ground (arith, laws.decode-encode x.«data», decoded-map lib xs laws)

attachments_column-parsed :
    (lib : Codecs) (xs : List Attachment) (json : Str)
    → IsCodec lib
    → attachments_column lib xs ≡ some json
    → parse_attachments_column lib json ≡ xs
unfolding attachments_column parse_attachments_column
attachments_column-parsed lib xs json laws e = ground (
  arith,
  laws.from_json-to_json (map (cached_attachment lib.encode) xs) json e,
  decoded-map lib xs laws,
)

length-upsert_row :
    {A : Type 0} (change : A → A) (k : Key) (new : A) (rs : List (Row A))
    → length (upsert_row change k new rs)
      ≡ (if is_some (row_at k rs) then length rs else suc (length rs))
unfolding upsert_row row_at
length-upsert_row change k new [] = refl
length-upsert_row change k new (r ∷ rs) = ground (arith, length-upsert_row change k new rs)

-- Of older rows and a new one, the deletion of one row leaves the new one.
row_at-split_oldest :
    (k : Key) (new : Body) (r : Row Body) (rs : List (Row Body))
    → row_at k (r ∷ rs) ≡ none
    → All (IsBefore new.cached_at) (r ∷ rs)
    → row_at k (split_oldest r (upsert_row (λ old. new) k new rs)).1 ≡ some new
unfolding split_oldest row_at upsert_row
row_at-split_oldest k new r [] e h = ground (arith, key_eq_refl k)
row_at-split_oldest k new r (s ∷ rs) e h =
    let written = row_at-upsert_row (λ old. new) k new rs in
    ground (arith, row_at-split_oldest k new s rs (ground arith) h.1, written)

-- The body is there after no deletion, and after one if it is not the row of a key that was known.
row_at-drop_oldest_rows :
    (k : Key) (new : Body) (n : ℕ) (rs : List (Row Body))
    → All (IsBefore new.cached_at) rs
    → (n ≡ 0) ⊎ ((n ≡ 1) × (row_at k rs ≡ none) × (0 < length rs))
    → row_at k (drop_oldest_rows n (upsert_row (λ old. new) k new rs)) ≡ some new
unfolding drop_oldest_rows drop_oldest upsert_row row_at
row_at-drop_oldest_rows k new n rs h (inl e) = rw e (row_at-overwrite k new rs)
row_at-drop_oldest_rows k new n [] h (inr (e, absent, nonempty)) = absurd (omega (arith, nonempty))
row_at-drop_oldest_rows k new n (r ∷ rs) h (inr (e, absent, nonempty)) =
    let other : key_eq r.key k ≡ false = elim (Bool-cases (key_eq r.key k)) [
      | inl f ↦ absurd (ground (arith, f))
      | inr f ↦ f
    ] in
    rw (e, other) (row_at-split_oldest k new r rs absent h)

-- A body that was just written stays, whether it was there before or not.
row_at-evict_lru_bodies :
    (k : Key) (new : Body) (max_rows : ℕ) (rs : List (Row Body))
    → 0 < max_rows
    → length rs ≤ max_rows
    → All (IsBefore new.cached_at) rs
    → row_at k (evict_lru_bodies max_rows (upsert_row (λ old. new) k new rs)) ≡ some new
unfolding evict_lru_bodies
row_at-evict_lru_bodies k new max_rows rs positive le h =
    row_at-drop_oldest_rows k new (length (upsert_row (λ old. new) k new rs) - max_rows) rs h
      (elim (Option-cases (row_at k rs)) [
        | inr (old, f) ↦ inl (ground (arith, f, length-upsert_row (λ old. new) k new rs))
        | inl f ↦ ground (arith, f, length-upsert_row (λ old. new) k new rs)
      ])

header_of-message_of :
    (a m : Str) (header : MailHeader) (size : ℕ)
    → All IsWord header.flags
    → header_of (key_of a m header) (message_of header size) ≡ header
unfolding parse_flags_column flags_column
header_of-message_of a m header size words =
    ap (λ flags. record header { flags = flags }) (split_whitespace-join header.flags words)

-- A message that was indexed with success is found again by a fetch from the cache, with its header,
-- body and attachments, given that the libraries read back what they write, that no flag of it is
-- empty or has white space, that the cache has no more bodies than the cap and that these were
-- cached before now.
pub index_mail-fetch_mail :
    (lib : Codecs) (a m : Str) (header : MailHeader) (body : Str) (attachments : List Attachment)
    (now : ℕ) (c after : Cache)
    → IsCodec lib
    → length c.bodies ≤ max_cached_bodies
    → All (IsBefore now) c.bodies
    → All IsWord header.flags
    → index_mail lib a m header body attachments now c ≡ (after, true)
    → fetch_mail lib (key_of a m header) after
      ≡ some (record { header = header; body = body; attachments = attachments })
unfolding index_mail index_body fetch_mail joined_mail
index_mail-fetch_mail lib a m header body attachments now c after laws le h words e =
    let k = key_of a m header in
    elim (Option-cases (attachments_column lib attachments)) [
      | inl f ↦ absurd (ground (arith, f))
      | inr (json, f) ↦
          let new = message_of header (length (as_bytes body)) in
          let cached : Body = record { body = body; attachments = json; cached_at = now } in
          let stored = record c { messages = upsert_row (λ old. new) k new c.messages } in
          let same : index_body k header body json now stored ≡ after = ground (arith, f) in
          subst
            (λ d.
              fetch_mail lib k d
              ≡ some (record { header = header; body = body; attachments = attachments }))
            same
            (rw
              (
                row_at-overwrite k new c.messages,
                row_at-evict_lru_bodies k cached max_cached_bodies c.bodies (omega arith) le h,
                header_of-message_of a m header (length (as_bytes body)) words,
                attachments_column-parsed lib attachments json laws f,
              )
              refl)
    ]
