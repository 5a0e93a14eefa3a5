-- ===== src/Cache/Search/Hits.antt =====
-- What a search finds.
use esmail.Prelude.{
  ◌≡◌, refl, true, false, Option, none, some, List, [], ◌∷◌, Str, arith, All, All-map, All-sort_by,
  All-tested, All-keep_where, keep, IsSorted, sort_by-IsSorted, Perm-sort_by, if◌then◌else◌,
  Option-cases, Bool-cases, inl, inr,
}
use mathlib.Core.List.{Perm}
use mathlib.Core.List.Perm as Perms
use esmail.Prelude.Int.{ℤ}
use esmail.Query.{ParsedQuery, to_fts_match, query_is_empty, message_timestamp}
use esmail.Table.{Key, Row, row_at}
use esmail.Table.Keys.{IsUnique, All-IsFound}
use esmail.Cache.{Message, FtsText, Cache}
use esmail.Cache.Search.{
  SearchHit, SearchLibraries, in_scope, hit_of, joined_hit, joined_hits, is_newer, newest_first,
  passes, text_hits, scoped_hits, search,
}

is_newer_trans :
    (t u v : Option ℤ) → is_newer t u ≡ true → is_newer u v ≡ true → is_newer t v ≡ true
unfolding is_newer
is_newer_trans none none none e f = refl
is_newer_trans none none (some v) e f = f
is_newer_trans none (some u) v e f = cc
is_newer_trans (some t) u none e f = refl
is_newer_trans (some t) none (some v) e f = cc
is_newer_trans (some t) (some u) (some v) e f = ground arith

is_newer_total : (t u : Option ℤ) → is_newer t u ≡ false → is_newer u t ≡ true
unfolding is_newer
is_newer_total none none e = refl
is_newer_total none (some u) e = refl
is_newer_total (some t) none e = cc
is_newer_total (some t) (some u) e = ground arith

-- A hit shows a message that is cached, in the scope of the search.
unfoldable pub IsCached : Option Str → Option Str → Cache → SearchHit → Type 0
IsCached account_id mailbox c hit =
    (k : Key) × (m : Message) × (row_at k c.messages ≡ some m)
    × (hit ≡ hit_of k m)
    × (in_scope account_id mailbox k ≡ true)

joined_hit-IsCached :
    (account_id mailbox : Option Str) (c : Cache) (k : Key) (m : Option Message)
    (rest : List SearchHit)
    → row_at k c.messages ≡ m
    → in_scope account_id mailbox k ≡ true
    → All (IsCached account_id mailbox c) rest
    → All (IsCached account_id mailbox c) (joined_hit k m rest)
unfolding IsCached
joined_hit-IsCached account_id mailbox c k none rest e s h = h
joined_hit-IsCached account_id mailbox c k (some m) rest e s h = ((k, m, e, refl, s), h)

joined_hits-IsCached :
    (account_id mailbox : Option Str) (c : Cache) (fs : List (Row FtsText))
    → All (λ (f : Row FtsText). in_scope account_id mailbox f.key ≡ true) fs
    → All (IsCached account_id mailbox c) (joined_hits c.messages fs)
unfolding joined_hits
joined_hits-IsCached account_id mailbox c [] h = tt
joined_hits-IsCached account_id mailbox c (f ∷ fs) h =
    joined_hit-IsCached account_id mailbox c f.key (row_at f.key c.messages)
      (joined_hits c.messages fs) refl h.0 (joined_hits-IsCached account_id mailbox c fs h.1)

text_hits-IsCached :
    (lib : SearchLibraries) (account_id mailbox : Option Str) (text : Str) (c : Cache)
    → All (IsCached account_id mailbox c) (text_hits lib account_id mailbox text c)
unfolding text_hits
text_hits-IsCached lib account_id mailbox text c =
    joined_hits-IsCached account_id mailbox c
      (keep (λ (r : Row FtsText). in_scope account_id mailbox r.key)
        (lib.fts_match text c.messages_fts))
      (All-tested (λ (r : Row FtsText). in_scope account_id mailbox r.key)
        (lib.fts_match text c.messages_fts))

scoped_hits-IsCached :
    (account_id mailbox : Option Str) (c : Cache)
    → IsUnique c.messages
    → All (IsCached account_id mailbox c) (scoped_hits account_id mailbox c)
unfolding scoped_hits IsCached
scoped_hits-IsCached account_id mailbox c u =
    let hit = λ (r : Row Message). hit_of r.key r.columns in
    let scoped = λ (r : Row Message). in_scope account_id mailbox r.key in
    All-map (IsCached account_id mailbox c) hit (keep scoped c.messages) (
      All-keep_where (λ r. IsCached account_id mailbox c (hit r)) scoped c.messages
        (λ r found e. (r.key, r.columns, found, refl, e)) (All-IsFound c.messages u))

-- The hit passes the filters of the query as well.
unfoldable pub IsHit :
    SearchLibraries → ParsedQuery → Option Str → Option Str → Cache → SearchHit → Type 0
IsHit lib q account_id mailbox c hit = IsCached account_id mailbox c hit × (passes lib q hit ≡ true)

All-IsHit :
    (lib : SearchLibraries) (q : ParsedQuery) (account_id mailbox : Option Str) (c : Cache)
    (hits : List SearchHit)
    → All (IsCached account_id mailbox c) hits
    → All (IsHit lib q account_id mailbox c) (keep (passes lib q) hits)
unfolding IsHit
All-IsHit lib q account_id mailbox c hits h =
    All-keep_where (IsHit lib q account_id mailbox c) (passes lib q) hits
      (λ hit found e. (found, e)) h

-- All that a query without text to match should find.
abbrev pub filtered :
    SearchLibraries → Option Str → ParsedQuery → Option Str → Cache → List SearchHit
filtered lib account_id q mailbox c =
    if query_is_empty q then [] else keep (passes lib q) (scoped_hits account_id mailbox c)

-- A query without text to match gives these hits in the order of their time.
abbrev pub IsOrdered : SearchLibraries → Option Str → List SearchHit → List SearchHit → Type 0
IsOrdered lib none all hits = IsSorted (newest_first lib.dateparse) hits × Perm hits all
IsOrdered lib (some text) all hits = true ≡ true

-- Whatever the index matches, every hit of a search shows a message that is cached under its account
-- and mailbox, in the scope of the search, and passes the filters of the query; and a query with no
-- text to match gives all the messages of the scope that pass, or none if it has no filter either,
-- the later of two first and one whose time cannot be read last. The messages have one row each.
pub search-IsHit :
    (lib : SearchLibraries) (account_id : Option Str) (q : ParsedQuery) (mailbox : Option Str)
    (c : Cache)
    → IsUnique c.messages
    → All (IsHit lib q account_id mailbox c) (search lib account_id q mailbox c)
      × IsOrdered lib
          (to_fts_match q)
          (filtered lib account_id q mailbox c)
          (search lib account_id q mailbox c)
unfolding search
search-IsHit lib account_id q mailbox c u = elim (Option-cases (to_fts_match q)) [
  | inr (text, e) ↦
      rw (e, search)
        (
          All-IsHit lib q account_id mailbox c (text_hits lib account_id mailbox text c)
              (text_hits-IsCached lib account_id mailbox text c),
          refl,
        )
  | inl e ↦ elim (Bool-cases (query_is_empty q)) [
    | inl f ↦ rw (e, f, search) (tt, (refl, Perms.refl []))
    | inr f ↦
        let order = newest_first lib.dateparse in
        let hits = scoped_hits account_id mailbox c in
        let passing = keep (passes lib q) hits in
        rw (e, f, search)
          (
            All-sort_by order (IsHit lib q account_id mailbox c) passing (
                All-IsHit lib q account_id mailbox c hits
                  (scoped_hits-IsCached account_id mailbox c u)),
            (
              sort_by-IsSorted order
                  (λ g h i.
                    is_newer_trans (message_timestamp lib.dateparse g.header.date)
                      (message_timestamp lib.dateparse h.header.date)
                      (message_timestamp lib.dateparse i.header.date))
                  (λ g h.
                    is_newer_total (message_timestamp lib.dateparse g.header.date)
                      (message_timestamp lib.dateparse h.header.date))
                  passing,
              Perm-sort_by order passing,
            ),
          )
  ]
]
