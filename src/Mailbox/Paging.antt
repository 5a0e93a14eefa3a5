-- ===== src/Mailbox/Paging.antt =====
-- Loading a whole folder page by page with `OpenFolder`, from a server whose folder does not change.
use esmail.Prelude.{
  ℕ, zero, suc, ◌-◌, ◌≤◌, ◌<◌, ◌≡◌, ◌∙◌, refl, ap, sym, inl, inr, ◌⊎◌, true, false, Option, none,
  some, List, [], ◌∷◌, ◌++◌, Str, arith, ltb, length, length-append, get_elem?, unwrap_or, keep,
  is_just_iff, nat_eq, u32_max, u32_mod, add_u32, add_u64,
}
use mathlib.Core.Path.{subst}
use mathlib.Core.List.{append-nil, append_assoc}
use esmail.Mail.{MailHeader}
use esmail.Mailbox.{
  OpenFolder, PageRequest, new, next_request, is_complete, is_cached_only, apply_reply, page_reply,
  append, last_uid,
}
use esmail.Mailbox.Order.{NewestFirst}

-- The messages of the pages, in order.
abbrev pub messages : List (List MailHeader) → List MailHeader
messages [] = []
messages (p ∷ ps) = p ++ messages ps

module _ (zone : Str → Option (Str × Str)) (pages : List (List MailHeader)) where
  -- The server's answer: page `n`, counted from 1, and how many pages there are.
  answer : Option PageRequest → OpenFolder → OpenFolder
  answer none f = f
  answer (some r) f =
      (apply_reply zone r.id r.page (length pages) (unwrap_or (get_elem? pages (r.page - 1)) [])
        f).0

  -- Asks for the next page and gets it.
  round : OpenFolder → OpenFolder
  unfolding answer
  round f = let (g, r) = next_request f in answer r g

  pub rounds : ℕ → OpenFolder → OpenFolder
  unfolding round
  rounds zero f = f
  rounds (suc n) f = rounds n (round f)

  -- The state once the pages `before` have been loaded.
  record Loaded (before : List (List MailHeader)) (f : OpenFolder) : Type 0 where
    headers : f.headers ≡ messages before
    next : f.next_page ≡ suc (length before)
    idle : f.page_request ≡ none
    total : ((f.total_pages ≡ none) × (length before ≡ 0)) ⊎ (f.total_pages ≡ some (length pages))
    live : is_cached_only f ≡ false

  -- The page that a round gets, and the folder with it.
  next_of : OpenFolder → List MailHeader
  next_of f = unwrap_or (get_elem? pages (f.next_page - 1)) []

  paged : OpenFolder → OpenFolder
  paged f = record f {
    ids = record { current = add_u64 f.ids.current 1 };
    page_request = none;
    total_pages = some (length pages);
    first_page_arrived = true;
    next_page = add_u32 f.next_page 1;
  }

  round-append :
      (f : OpenFolder)
      → f.page_request ≡ none
      → is_complete f ≡ false
      → is_cached_only f ≡ false
      → round f ≡ (append zone (next_of f) (paged f)).0
  unfolding round next_request apply_reply page_reply next_of paged append
  round-append f idle more live =
      ground (arith, is_just_iff nat_eq (some (add_u64 f.ids.current 1)) (add_u64 f.ids.current 1))

  keep_older :
      (c limit : ℕ) (hs : List MailHeader)
      → c ≤ limit
      → NewestFirst c hs
      → keep (λ h. ltb h.uid limit) hs ≡ hs
  keep_older c limit [] le d = refl
  keep_older c limit (h ∷ hs) le d = ground (arith, keep_older h.uid limit hs)

  NewestFirst-behind :
      (d : ℕ) (xs ys : List MailHeader) → NewestFirst d (xs ++ ys) → NewestFirst (last_uid d xs) ys
  NewestFirst-behind d [] ys n = n
  NewestFirst-behind d (x ∷ xs) ys n = NewestFirst-behind x.uid xs ys n.1

  NewestFirst-before :
      (d : ℕ) (xs ys : List MailHeader) → NewestFirst d (xs ++ ys) → NewestFirst d xs
  NewestFirst-before d [] ys n = tt
  NewestFirst-before d (x ∷ xs) ys n = (n.0, NewestFirst-before x.uid xs ys n.1)

  messages-append :
      (ps qs : List (List MailHeader)) → messages (ps ++ qs) ≡ messages ps ++ messages qs
  messages-append [] qs = refl
  messages-append (p ∷ ps) qs =
      ap (λ r. p ++ r) (messages-append ps qs) ∙ sym (append_assoc p (messages ps) (messages qs))

  get-page :
      (before after : List (List MailHeader)) (p : List MailHeader)
      → get_elem? (before ++ p ∷ after) (length before) ≡ some p
  get-page [] after p = refl
  get-page (q ∷ before) after p = get-page before after p

  module _ (before after : List (List MailHeader)) (p : List MailHeader)
      (all : pages ≡ before ++ p ∷ after) (few : suc (length pages) < u32_mod)
      (order : NewestFirst u32_max (messages pages)) where
    some_left : length before < length pages
    some_left = rw (ap length all, length-append) (omega arith)

    next_page_order : NewestFirst (last_uid u32_max (messages before)) p
    next_page_order =
        let whole = rw (ap messages all, messages-append before (p ∷ after)) at order in
        NewestFirst-before (last_uid u32_max (messages before)) p (messages after)
          (NewestFirst-behind u32_max (messages before) (p ++ messages after) whole)

    round-Loaded : (f : OpenFolder) → Loaded before f → Loaded (before ++ p ∷ []) (round f)
    unfolding next_of paged append
    round-Loaded f l =
        let more : is_complete f ≡ false =
          unfold is_complete in ground (arith, l.next, l.total, some_left) in
        let at : f.next_page - 1 ≡ length before = omega (arith, l.next) in
        let got : next_of f ≡ p =
          ap (λ n. unwrap_or (get_elem? pages n) []) at
          ∙ ap (λ ps. unwrap_or (get_elem? ps (length before)) []) all
          ∙ ap (λ o. unwrap_or o []) (get-page before after p) in
        let limit = last_uid u32_max (messages before) in
        rw (round-append f l.idle more l.live) (record {
          headers =
              ap (λ hs. f.headers ++ keep (λ h. ltb h.uid (last_uid u32_max f.headers)) hs) got
              ∙ ap (λ xs. xs ++ keep (λ h. ltb h.uid (last_uid u32_max xs)) p) l.headers
              ∙ ap (λ r. messages before ++ r)
                  (keep_older limit limit p (omega arith) next_page_order)
              ∙ sym
                  (messages-append before (p ∷ []) ∙ ap (λ r. messages before ++ r) (append-nil p));
          next = omega (arith, l.next, length-append before (p ∷ []), some_left, few);
          idle = refl;
          total = inr refl;
          live = unfold is_cached_only in refl;
        })

  rounds-Loaded :
      (before after : List (List MailHeader)) (f : OpenFolder)
      → pages ≡ before ++ after
      → suc (length pages) < u32_mod
      → NewestFirst u32_max (messages pages)
      → Loaded before f
      → Loaded pages (rounds (length after) f)
  unfolding rounds
  rounds-Loaded before [] f all few order l =
      subst (λ ps. Loaded ps f) (sym (all ∙ append-nil before)) l
  rounds-Loaded before (p ∷ after) f all few order l =
      rounds-Loaded (before ++ p ∷ []) after (round f)
        (all ∙ sym (append_assoc before (p ∷ []) after)) few order
        (round-Loaded before after p all few order f l)

  new-Loaded : Loaded [] new
  unfolding new is_cached_only
  new-Loaded = record {
    headers = refl;
    next = refl;
    idle = refl;
    total = inl (refl, refl);
    live = refl;
  }

  -- A folder of at least one page and fewer than 2^32 - 1, whose messages stand newest first across
  -- its pages, each with a uid below 2^32 - 1 (that one uid is not covered: `append` drops it from a
  -- first page), and which does not change meanwhile, is loaded by as many requests as it has pages:
  -- all its messages are there, in order, once each, the folder counts as complete, and no further
  -- page is asked for.
  pub rounds-headers :
      0 < length pages
      → suc (length pages) < u32_mod
      → NewestFirst u32_max (messages pages)
      → let f = rounds (length pages) new in
        (f.headers ≡ messages pages) × (is_complete f ≡ true) × ((next_request f).1 ≡ none)
  unfolding is_complete next_request
  rounds-headers any few order =
      let l = rounds-Loaded [] pages new refl few order new-Loaded in
      (l.headers, ground (arith, l.next, l.total), ground (arith, l.next, l.total))
