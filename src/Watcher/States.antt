-- ===== src/Watcher/States.antt =====
-- The states of an account over the events of its session.
use esmail.Prelude.{
  ℕ, ◌≡◌, ◌∙◌, refl, ap, sym, inl, inr, Bool, true, false, Option, none, some, List, [], ◌∷◌, Str,
  arith, Bool-cases, Option-cases, if◌then◌else◌, str_eq, str_eq→eq, str_eq_refl,
}
use mathlib.Core.Path.{subst}
use esmail.Watcher.{
  AccountState, connecting, connected, watching, failed, Change, state_changed, unread_changed,
  Watched, Accounts, ImapEvent, connected_event, disconnected_event, error_event, mailbox_polled,
  unread_counts, other_event, get, insert, handle, handle_event, handle_counts, new_unread,
  total_unread, request_unread, is_up,
}

pub get-insert : (key : Str) (w : Watched) (es : Accounts) → get key (insert key w es) ≡ some w
get-insert key w [] = rw (str_eq_refl key) refl
get-insert key w (e ∷ es) = ground (arith, str_eq_refl key, get-insert key w es)

pub get-insert_other :
    (key other : Str) (w : Watched) (es : Accounts)
    → str_eq key other ≡ false
    → get other (insert key w es) ≡ get other es
get-insert_other key other w [] ne = rw ne refl
get-insert_other key other w (e ∷ es) ne =
    ground (arith, get-insert_other key other w es ne, str_eq→eq e.0 key)

-- What the caller shows of an account: its state and its unread count.
abbrev pub view_in : Option Watched → Option (AccountState × ℕ)
view_in none = none
view_in (some w) = some (w.state, w.unread)

unfoldable pub view : Str → Accounts → Option (AccountState × ℕ)
view account accounts = view_in (get account accounts)

-- What a caller makes of a change that is reported, for the account that it shows.
abbrev pub follow_here : Change → AccountState × ℕ → AccountState × ℕ
follow_here (state_changed b s) v = (s, v.1)
follow_here (unread_changed b n total) v = (v.0, n)

abbrev pub account_of : Change → Str
account_of (state_changed b s) = b
account_of (unread_changed b n total) = b

abbrev pub map_view :
    (AccountState × ℕ → AccountState × ℕ) → Option (AccountState × ℕ) → Option (AccountState × ℕ)
map_view f none = none
map_view f (some v) = some (f v)

unfoldable pub follow : Str → Option Change → Option (AccountState × ℕ) → Option (AccountState × ℕ)
follow account none v = v
follow account (some c) v = if str_eq (account_of c) account then map_view (follow_here c) v else v

-- A whole run of `handle`: the accounts and the changes, in order.
unfoldable pub run : List (Str × ImapEvent) → Accounts → Accounts
unfolding handle
run [] accounts = accounts
run ((b, e) ∷ es) accounts = run es (handle b e accounts).0

unfoldable pub follow_run :
    Str → List (Str × ImapEvent) → Accounts → Option (AccountState × ℕ) → Option (AccountState × ℕ)
unfolding handle follow
follow_run account [] accounts v = v
follow_run account ((b, e) ∷ es) accounts v =
    follow_run account es (handle b e accounts).0 (follow account (handle b e accounts).1 v)

-- The change is about the account of the event, and tells all that is new.
IsTold : Str → Watched → Watched × Option Change → Type 0
unfolding follow
IsTold b w r =
    (some (r.0.state, r.0.unread) ≡ follow b r.1 (some (w.state, w.unread)))
    × ((a : Str) (v : Option (AccountState × ℕ)) → str_eq b a ≡ false → follow a r.1 v ≡ v)

-- A change of the state that is told, and an entry whose state and count are as before.
told :
    (b : Str) (w v : Watched) (s : AccountState)
    → v.state ≡ s
    → v.unread ≡ w.unread
    → IsTold b w (v, some (state_changed b s))
unfolding IsTold follow
told b w v s es eu = (rw (str_eq_refl b, es, eu) refl, λ a x ne. rw ne refl)

silent : (b : Str) (w v : Watched) → v.state ≡ w.state → v.unread ≡ w.unread → IsTold b w (v, none)
unfolding IsTold follow
silent b w v es eu = (rw (es, eu) refl, λ a x ne. refl)

IsTold-unread :
    (b : Str) (w v : Watched) (n total : ℕ)
    → v.state ≡ w.state
    → v.unread ≡ n
    → IsTold b w (v, some (unread_changed b n total))
unfolding IsTold follow
IsTold-unread b w v n total es eu = (rw (str_eq_refl b, es, eu) refl, λ a x ne. rw ne refl)

IsTold-if :
    (c : Bool) (b : Str) (w : Watched) (p q : Watched × Option Change)
    → IsTold b w p
    → IsTold b w q
    → IsTold b w (if c then p else q)
IsTold-if true b w p q tp tq = tp
IsTold-if false b w p q tp tq = tq

handle_event-IsTold : (b : Str) (e : ImapEvent) (w : Watched) → IsTold b w (handle_event b e w)
unfolding handle_event request_unread
handle_event-IsTold b connected_event w =
    told b w (handle_event b connected_event w).0 connected refl refl
handle_event-IsTold b disconnected_event w =
    told b w (record w { state = connecting }) connecting refl refl
handle_event-IsTold b (error_event r) w =
    IsTold-if (is_up w.state) b w (w, none)
      (record w { state = failed r }, some (state_changed b (failed r))) (silent b w w refl refl)
      (told b w (record w { state = failed r }) (failed r) refl refl)
handle_event-IsTold b (mailbox_polled m) w =
    let polled = request_unread w in
    let start = record polled { state = watching } in
    IsTold-if (str_eq m w.watch_mailbox) b w
      (elim w.state [ connected ↦ (start, some (state_changed b watching)) | s ↦ (polled, none) ])
      (w, none)
      (elim w.state
        as (λ s.
          IsTold b w (elim s [
            | connected ↦ (start, some (state_changed b watching))
            | s ↦ (polled, none)
          ])) [
            | connected ↦ told b w start watching refl refl
            | connecting ↦ silent b w polled refl refl
            | watching ↦ silent b w polled refl refl
            | failed r ↦ silent b w polled refl refl
          ])
      (silent b w w refl refl)
handle_event-IsTold b (unread_counts c) w = silent b w w refl refl
handle_event-IsTold b other_event w = silent b w w refl refl

view-with_entry :
    (a b : Str) (accounts : Accounts) (w : Watched) (r : Watched × Option Change)
    → get b accounts ≡ some w
    → IsTold b w r
    → view a (insert b r.0 accounts) ≡ follow a r.1 (view a accounts)
unfolding view IsTold
view-with_entry a b accounts w r e told = elim (Bool-cases (str_eq b a)) [
  | inl same ↦
      subst (λ c. view_in (get c (insert b r.0 accounts)) ≡ follow c r.1 (view_in (get c accounts)))
        (str_eq→eq b a same)
        (ap view_in (get-insert b r.0 accounts)
          ∙ told.0
          ∙ sym (ap (λ g. follow b r.1 (view_in g)) e))
  | inr other ↦
      ap view_in (get-insert_other b a r.0 accounts other)
      ∙ sym (told.1 a (view_in (get a accounts)) other)
]

view-handle_counts :
    (a b : Str) (counts : List (Str × ℕ)) (accounts : Accounts) (w : Watched)
    → get b accounts ≡ some w
    → view a (handle_counts b counts w accounts).0
      ≡ follow a (handle_counts b counts w accounts).1 (view a accounts)
unfolding handle_counts follow
view-handle_counts a b counts accounts w e = elim (Option-cases (new_unread counts w)) [
  | inl n ↦ rw (n, handle_counts) refl
  | inr (u, s) ↦
      let v = record w { unread = u } in
      let r : Watched × Option Change =
        (v, some (unread_changed b u (total_unread (insert b v accounts)))) in
      rw (s, handle_counts)
        (view-with_entry a b accounts w r e
          (IsTold-unread b w v u (total_unread (insert b v accounts)) refl refl))
]

view-handle :
    (a b : Str) (e : ImapEvent) (accounts : Accounts)
    → view a (handle b e accounts).0 ≡ follow a (handle b e accounts).1 (view a accounts)
unfolding handle follow
view-handle a b e accounts = elim (Option-cases (get b accounts)) [
  | inl n ↦ rw (n, handle) refl
  | inr (w, s) ↦
      elim e
        as (λ ev.
          view a (handle b ev accounts).0 ≡ follow a (handle b ev accounts).1 (view a accounts)) [
            | unread_counts counts ↦ rw (s, handle) (view-handle_counts a b counts accounts w s)
            | connected_event ↦
                rw (s, handle)
                  (view-with_entry a b accounts w (handle_event b connected_event w) s
                    (handle_event-IsTold b connected_event w))
            | disconnected_event ↦
                rw (s, handle)
                  (view-with_entry a b accounts w (handle_event b disconnected_event w) s
                    (handle_event-IsTold b disconnected_event w))
            | error_event r ↦
                rw (s, handle)
                  (view-with_entry a b accounts w (handle_event b (error_event r) w) s
                    (handle_event-IsTold b (error_event r) w))
            | mailbox_polled m ↦
                rw (s, handle)
                  (view-with_entry a b accounts w (handle_event b (mailbox_polled m) w) s
                    (handle_event-IsTold b (mailbox_polled m) w))
            | other_event ↦
                rw (s, handle)
                  (view-with_entry a b accounts w (handle_event b other_event w) s
                    (handle_event-IsTold b other_event w))
          ]
]

-- The changes that `handle` reports over any run of events tell a caller all: one that follows only
-- these has, of each account, its state and its unread count at the end.
pub view-run :
    (account : Str) (events : List (Str × ImapEvent)) (accounts : Accounts)
    → view account (run events accounts)
      ≡ follow_run account events accounts (view account accounts)
unfolding run follow_run
view-run account [] accounts = refl
view-run account ((b, e) ∷ es) accounts =
    view-run account es (handle b e accounts).0
    ∙ ap (follow_run account es (handle b e accounts).0) (view-handle account b e accounts)
