-- ===== src/Loads.antt =====
-- crates/esmail-win32/src/core_glue/loads.rs: `Latest`, the counter of requests of which only the
-- newest reply is wanted, and `BodyLoads`, which keeps at most one body fetch in flight. A method
-- that takes `&mut self` returns the new state beside its result.
pub mod Invariant
pub mod Requests
use esmail.Prelude.{
  ℕ, zero, ◌&&◌, Bool, true, false, not, Option, none, some, ◌==◌, if◌then◌else◌, is_some, add_u64,
  Eq, is_just,
}

pub record Latest : Type 0 where
  pub current : ℕ

unfoldable pub default : Latest
default = record { current = 0 }

-- `self.current += 1` on a `u64`.
unfoldable pub begin : Latest → Latest × ℕ
begin l = let id = add_u64 l.current 1 in (record { current = id }, id)

unfoldable pub is_current : Latest → ℕ → Bool
is_current l id = id == l.current

pub record Finished (K : Type 0) : Type 0 where
  pub show : Bool
  pub next : Option (K × ℕ)

pub record BodyLoads (K : Type 0) : Type 0 where
  pub ids : Latest
  pub in_flight : Option (K × ℕ)
  pub wanted : Option K

unfoldable pub idle : (K : Type 0) → BodyLoads K
unfolding default
idle K = record { ids = default; in_flight = none; wanted = none }

module _ {K : Type 0} where
  -- The key is started if nothing is in flight.
  pub start_key : Option K → BodyLoads K → BodyLoads K × Option (K × ℕ)
  unfolding begin
  start_key none b = (b, none)
  start_key (some key) b =
      let (ids, id) = begin b.ids in
      (record b { ids = ids; in_flight = some (key, id) }, some (key, id))

  pub start_wanted : BodyLoads K → BodyLoads K × Option (K × ℕ)
  unfolding start_key
  start_wanted b = if is_some b.in_flight then (b, none) else start_key b.wanted b

  unfoldable pub cancel : BodyLoads K → BodyLoads K
  cancel b = record b { wanted = none }

module _ {K : Type 0} (e : Eq K) where
  unfoldable pub want : K → BodyLoads K → BodyLoads K × Option (K × ℕ)
  unfolding start_wanted
  want key b =
      if is_just e b.wanted key then (b, none) else start_wanted (record b { wanted = some key })

  -- Whether the reply is the one that is awaited: `in_flight` is `Some((key, id))`.
  pub is_awaited : Option (K × ℕ) → K → ℕ → Bool
  is_awaited none key id = false
  is_awaited (some (k, i)) key id = e.beq k key && (i == id)

  unfoldable pub finished : K → ℕ → BodyLoads K → BodyLoads K × Finished K
  unfolding is_awaited start_wanted
  finished key id b =
      if not (is_awaited b.in_flight key id)
      then (b, record { show = false; next = none })
      else let freed = record b { in_flight = none } in
        let show = is_just e b.wanted key in
        let (b', next) = if show then (freed, none) else start_wanted freed in
        (b', record { show = show; next = next })
