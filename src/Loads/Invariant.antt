-- ===== src/Loads/Invariant.antt =====
-- `BodyLoads::finished`: which reply is shown, and which is dropped.
use esmail.Prelude.{ℕ, ◌≡◌, ◌≢◌, ◌↔◌, true, false, Option, none, some, arith, Eq, is_just_iff}
use esmail.Loads.{BodyLoads, is_awaited, finished}

module _ {K : Type 0} (e : Eq K) where
  pub is_awaited_iff :
      (o : Option (K × ℕ)) (key : K) (id : ℕ)
      → (is_awaited e o key id ≡ true) ↔ (o ≡ some (key, id))
  unfolding is_awaited
  is_awaited_iff none key id = ground arith
  is_awaited_iff (some (k, i)) key id = ground (arith, e.beq_iff k key)

  -- A reply that is not the awaited one is dropped: nothing is shown, nothing is requested, and
  -- the state stays as it was.
  finished_stale :
      (key : K) (id : ℕ) (b : BodyLoads K)
      → b.in_flight ≢ some (key, id)
      → finished e key id b ≡ (b, record { show = false; next = none })
  unfolding finished
  finished_stale key id b stale = ground (arith, is_awaited_iff b.in_flight key id)

  -- A reply is shown exactly when it answers the fetch in flight and its message is the one that
  -- the user looks at.
  finished-show :
      (key : K) (id : ℕ) (b : BodyLoads K)
      → ((finished e key id b).1.show ≡ true)
        ↔ ((b.in_flight ≡ some (key, id)) × (b.wanted ≡ some key))
  unfolding finished
  finished-show key id b =
      ground (arith, is_awaited_iff b.in_flight key id, is_just_iff e b.wanted key)
