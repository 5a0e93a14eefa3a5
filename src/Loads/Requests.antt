-- ===== src/Loads/Requests.antt =====
-- A whole session with body fetches: the requests that are sent, and that none is forgotten.
use esmail.Prelude.{
  ℕ, zero, suc, ◌+◌, ◌<◌, ◌≤◌, ◌≡◌, ◌⊎◌, ◌∙◌, ap, sym, inl, inr, Bool, true, false, Option, none,
  some, List, [], ◌∷◌, map, get_elem?, arith, length, is_some, is_just, is_just_iff, u64_mod,
  add_u64, Bool-cases, Option-cases, Eq, ◌&&◌, ◌||◌,
}
use native.Mathlib.Nat.{zero-add, add-zero, add-suc, suc-add}
use esmail.Loads.{BodyLoads, idle, want, cancel, finished}
use esmail.Loads.Invariant.{is_awaited_iff}

-- What happens to a `BodyLoads`: a selection, a deselection, a reply to some request.
pub data Event (K : Type 0) : Type 0 where
  select : K → Event K
  deselect : Event K
  reply : K → ℕ → Event K

-- The state with what an observer saw: the requests sent, newest first, and whether the body of
-- the wanted message was shown since it became wanted.
pub record Session (K : Type 0) : Type 0 where
  pub loads : BodyLoads K
  pub sent : List (K × ℕ)
  pub shown : Bool

-- The ids of `n` requests, newest first: n, n - 1, ..., 1.
abbrev pub count_down : ℕ → List ℕ
count_down zero = []
count_down (suc n) = suc n ∷ count_down n

module _ {K : Type 0} where
  abbrev pub push : Option (K × ℕ) → List (K × ℕ) → List (K × ℕ)
  push none l = l
  push (some r) l = r ∷ l

  abbrev pub id_of : K × ℕ → ℕ
  id_of r = r.1

  abbrev pub ids_sent : Session K → List ℕ
  ids_sent s = map id_of s.sent

unfoldable pub opened : (K : Type 0) → Session K
unfolding idle
opened K = record { loads = idle K; sent = []; shown = false }

module _ {K : Type 0} (e : Eq K) where
  unfoldable pub step : Event K → Session K → Session K
  unfolding want cancel finished
  step (select k) s =
      let (b, r) = want e k s.loads in
      record { loads = b; sent = push r s.sent; shown = is_just e s.loads.wanted k && s.shown }
  step deselect s = record { loads = cancel s.loads; sent = s.sent; shown = false }
  step (reply k id) s =
      let (b, f) = finished e k id s.loads in
      record { loads = b; sent = push f.next s.sent; shown = f.show || s.shown }

  unfoldable pub run : List (Event K) → Session K → Session K
  run [] s = s
  run (ev ∷ evs) s = run evs (step ev s)

  -- What holds of a session after `n` events.
  record IsSound (n : ℕ) (s : Session K) : Type 0 where
    sent_le : length s.sent ≤ n
    current : s.loads.ids.current ≡ length s.sent
    counted : ids_sent s ≡ count_down (length s.sent)
    newest : is_some s.loads.in_flight ≡ true → s.loads.in_flight ≡ get_elem? s.sent 0
    pending : is_some s.loads.wanted ≡ true → s.shown ≡ false → is_some s.loads.in_flight ≡ true
    idle_shown : s.shown ≡ true → is_some s.loads.wanted ≡ true

  step-IsSound :
      (n : ℕ) (ev : Event K) (s : Session K)
      → suc n < u64_mod
      → IsSound n s
      → IsSound (suc n) (step ev s)
  unfolding step
  step-IsSound n (select k) s lt h = ground (arith, is_just_iff e s.loads.wanted k)
  step-IsSound n deselect s lt h = ground arith
  step-IsSound n (reply k id) s lt h =
      ground (arith, is_just_iff e s.loads.wanted k, is_awaited_iff e s.loads.in_flight k id)

  run-IsSound :
      (n : ℕ) (evs : List (Event K)) (s : Session K)
      → n + length evs < u64_mod
      → IsSound n s
      → IsSound (n + length evs) (run evs s)
  unfolding run
  run-IsSound n [] s lt h = rw (add-zero) h
  run-IsSound n (ev ∷ evs) s lt h =
      rw (add-suc, ← suc-add)
        (run-IsSound (suc n) evs (step ev s) (omega arith) (step-IsSound n ev s (omega arith) h))

  opened-IsSound : IsSound 0 (opened K)
  unfolding opened
  opened-IsSound = ground arith

  reached-IsSound :
      (evs : List (Event K)) → length evs < u64_mod → IsSound (length evs) (run evs (opened K))
  reached-IsSound evs lt =
      rw zero-add at (run-IsSound 0 evs (opened K) (omega arith) opened-IsSound)

  -- Of the requests that a session of fewer than 2^64 events sends, the first has id 1 and each
  -- later one the next id: no two share an id. If one is in flight, it is the newest.
  run-ids_sent :
      (evs : List (Event K))
      → length evs < u64_mod
      → let s = run evs (opened K) in
        (ids_sent s ≡ count_down (length s.sent))
        × ((s.loads.in_flight ≡ none) ⊎ (s.loads.in_flight ≡ get_elem? s.sent 0))
  run-ids_sent evs lt =
      let h = reached-IsSound evs lt in
      let s = run evs (opened K) in
      (
        h.counted,
        elim (Option-cases s.loads.in_flight) [
          | inl n ↦ inl n
          | inr (r, e) ↦ inr (h.newest (ap is_some e))
        ],
      )

  -- The server answers the fetch in flight, if there is one.
  answer_to : Option (K × ℕ) → Session K → Session K
  unfolding step
  answer_to none s = s
  answer_to (some (k, id)) s = step (reply k id) s

  pub answer : Session K → Session K
  unfolding answer_to
  answer s = answer_to s.loads.in_flight s

  step-reply_self :
      (s : Session K) (k : K) (i : ℕ)
      → s.loads.in_flight ≡ some (k, i)
      → s.loads.wanted ≡ some k
      → let t = step (reply k i) s in
        (t.shown ≡ true) × (t.loads.wanted ≡ some k) × (t.loads.in_flight ≡ none)
  unfolding step
  step-reply_self s k i f w =
      ground (arith, is_awaited_iff e s.loads.in_flight k i, is_just_iff e s.loads.wanted k)

  step-reply_other :
      (s : Session K) (j k : K) (i : ℕ)
      → s.loads.in_flight ≡ some (j, i)
      → s.loads.wanted ≡ some k
      → e.beq k j ≡ false
      → let t = step (reply j i) s in
        (t.loads.wanted ≡ some k) × (t.loads.in_flight ≡ some (k, add_u64 s.loads.ids.current 1))
  unfolding step
  step-reply_other s j k i f w ne = ground (arith, is_awaited_iff e s.loads.in_flight j i)

  answer-some :
      (s : Session K) (k : K) (i : ℕ)
      → s.loads.in_flight ≡ some (k, i)
      → answer s ≡ step (reply k i) s
  unfolding answer
  answer-some s k i f = rw (f, answer_to)

  answer-none : (s : Session K) → s.loads.in_flight ≡ none → answer s ≡ s
  unfolding answer
  answer-none s f = rw (f, answer_to)

  answer-shown :
      (s : Session K) (k : K)
      → (s.shown ≡ false → is_some s.loads.in_flight ≡ true)
      → s.loads.wanted ≡ some k
      → ((answer (answer s)).shown ≡ true) × ((answer (answer s)).loads.wanted ≡ some k)
  answer-shown s k p w = elim (Option-cases s.loads.in_flight) [
    | inl f ↦ rw (answer-none s f) (rw (answer-none s f) (ground arith))
    | inr ((j, i), f) ↦ elim (Bool-cases (e.beq k j)) [
      | inl same ↦
          let here = step-reply_self s j i f (w ∙ ap some ((e.beq_iff k j).0 same)) in
          rw (answer-some s j i f) (
            rw (answer-none (step (reply j i) s) here.2)
              (here.0, here.1 ∙ ap some (sym ((e.beq_iff k j).0 same))))
      | inr other ↦
          let next = step-reply_other s j k i f w other in
          let t = step (reply j i) s in
          let id = add_u64 s.loads.ids.current 1 in
          let last = step-reply_self t k id next.1 next.0 in
          rw (answer-some s j i f) (rw (answer-some t k id next.1) (last.0, last.1))
    ]
  ]

  -- After any session of fewer than 2^64 events, the message that the user wants has been shown
  -- once the server has answered at most two fetches, and it is still the one wanted.
  pub run-answered :
      (evs : List (Event K)) (k : K)
      → length evs < u64_mod
      → (run evs (opened K)).loads.wanted ≡ some k
      → let s = answer (answer (run evs (opened K))) in (s.shown ≡ true) × (s.loads.wanted ≡ some k)
  run-answered evs k lt w =
      let s = run evs (opened K) in
      let h = (reached-IsSound evs lt).pending in answer-shown s k (λ new. h (ap is_some w) new) w
