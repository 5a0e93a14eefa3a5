-- ===== src/Cache/Actor/Removed.antt =====
-- What is left in the cache of an account that was removed, and of the others.
use esmail.Prelude.{
  ◌≡◌, false, not, Option, none, some, List, [], ◌∷◌, Str, arith, str_eq, All, All-keep, All-imp,
  All-map, All-tested, not-true, keep, if◌then◌else◌, Option-cases, inl, inr, map, Bool-cases,
  All-sort_by,
}
use esmail.Query.{ParsedQuery, to_fts_match, query_is_empty}
use esmail.Table.{Key, Row, row_at, delete_account}
use esmail.Table.Keys.{row_at-delete_account}
use esmail.Cache.{Message, FtsText, Cache, remove_account}
use esmail.Cache.Index.{Codecs, fetch_mail, joined_mail}
use esmail.Cache.Search.{
  SearchHit, SearchLibraries, in_scope, hit_of, joined_hit, joined_hits, newest_first, passes,
  text_hits, scoped_hits, search,
}

-- A hit is of another account.
abbrev pub IsElsewhere : Str → SearchHit → Type 0
IsElsewhere a hit = str_eq hit.account_id a ≡ false

joined_hit-IsElsewhere :
    (a : Str) (k : Key) (m : Option Message) (rest : List SearchHit)
    → m ≡ (if str_eq k.account_id a then none else m)
    → All (IsElsewhere a) rest
    → All (IsElsewhere a) (joined_hit k m rest)
joined_hit-IsElsewhere a k none rest e h = h
joined_hit-IsElsewhere a k (some m) rest e h = elim (Bool-cases (str_eq k.account_id a)) [
  | inl f ↦ absurd (ground (arith, f))
  | inr f ↦ (f, h)
]

row_at-removed :
    {A : Type 0} (a : Str) (k : Key) (rs : List (Row A))
    → row_at k (delete_account a rs)
      ≡ (if str_eq k.account_id a then none else row_at k (delete_account a rs))
row_at-removed a k rs = ground (arith, row_at-delete_account a k rs)

joined_hits-IsElsewhere :
    (a : Str) (ms : List (Row Message)) (fs : List (Row FtsText))
    → All (IsElsewhere a) (joined_hits (delete_account a ms) fs)
unfolding joined_hits
joined_hits-IsElsewhere a ms [] = tt
joined_hits-IsElsewhere a ms (f ∷ fs) =
    joined_hit-IsElsewhere a f.key (row_at f.key (delete_account a ms))
      (joined_hits (delete_account a ms) fs) (row_at-removed a f.key ms)
      (joined_hits-IsElsewhere a ms fs)

abbrev IsLeft : Str → Row Message → Type 0
IsLeft a r = str_eq r.key.account_id a ≡ false

-- The rows that a deletion keeps, in a scope.
scoped-IsElsewhere :
    (a : Str) (account_id mailbox : Option Str) (ms : List (Row Message))
    → All (IsElsewhere a) (
        map
          (λ (r : Row Message). hit_of r.key r.columns)
          (keep (λ (r : Row Message). in_scope account_id mailbox r.key) (delete_account a ms)))
unfolding delete_account
scoped-IsElsewhere a account_id mailbox ms =
    let left = delete_account a ms in
    All-map (IsElsewhere a) (λ (r : Row Message). hit_of r.key r.columns)
      (keep (λ (r : Row Message). in_scope account_id mailbox r.key) left)
      (All-keep (IsLeft a) (λ (r : Row Message). in_scope account_id mailbox r.key) left
        (All-imp (IsLeft a) left (λ r e. not-true (str_eq r.key.account_id a) e)
          (All-tested (λ (r : Row Message). not (str_eq r.key.account_id a)) ms)))

search-IsElsewhere :
    (lib : SearchLibraries) (a : Str) (account_id mailbox : Option Str) (q : ParsedQuery)
    (c : Cache)
    → All (IsElsewhere a) (search lib account_id q mailbox (remove_account a c))
unfolding search text_hits scoped_hits remove_account
search-IsElsewhere lib a account_id mailbox q c = elim (Option-cases (to_fts_match q)) [
  | inr (text, e) ↦
      rw (e, search)
        (All-keep (IsElsewhere a) (passes lib q)
          (joined_hits (delete_account a c.messages) (
            keep (λ (r : Row FtsText). in_scope account_id mailbox r.key)
              (lib.fts_match text (delete_account a c.messages_fts))))
          (joined_hits-IsElsewhere a c.messages (
            keep (λ (r : Row FtsText). in_scope account_id mailbox r.key)
              (lib.fts_match text (delete_account a c.messages_fts)))))
  | inl e ↦ elim (Bool-cases (query_is_empty q)) [
    | inl f ↦ rw (e, f, search) tt
    | inr f ↦
        let hits = scoped_hits account_id mailbox (remove_account a c) in
        rw (e, f, search)
          (All-sort_by (newest_first lib.dateparse) (IsElsewhere a) (keep (passes lib q) hits) (
            All-keep (IsElsewhere a) (passes lib q) hits
              (scoped-IsElsewhere a account_id mailbox c.messages)))
  ]
]

-- What `fetch_mail` finds.
fetch_mail-remove_account :
    (codecs : Codecs) (a : Str) (k : Key) (c : Cache)
    → fetch_mail codecs k (remove_account a c)
      ≡ (if str_eq k.account_id a then none else fetch_mail codecs k c)
unfolding fetch_mail remove_account joined_mail
fetch_mail-remove_account codecs a k c =
    ground (arith, row_at-delete_account a k c.messages, row_at-delete_account a k c.bodies)

-- Once an account was removed, no search finds a message of it, whatever the query and its scope,
-- and no message of it is opened from the cache, while the messages of the other accounts are opened
-- from the cache as before.
pub remove_account-IsElsewhere :
    (lib : SearchLibraries) (codecs : Codecs) (a : Str) (account_id mailbox : Option Str)
    (q : ParsedQuery) (k : Key) (c : Cache)
    → All (IsElsewhere a) (search lib account_id q mailbox (remove_account a c))
      × (fetch_mail codecs k (remove_account a c)
          ≡ (if str_eq k.account_id a then none else fetch_mail codecs k c))
remove_account-IsElsewhere lib codecs a account_id mailbox q k c =
    (search-IsElsewhere lib a account_id mailbox q c, fetch_mail-remove_account codecs a k c)
