-- ===== src/MockStore/Uids.antt =====
-- The uids of a mailbox.
use esmail.Prelude.{
  ◌≤◌, ℕ, suc, ◌<◌, ◌≡◌, refl, Bool, not, List, [], ◌∷◌, ◌++◌, Str, arith, keep, u32_mod,
}
use esmail.MockStore.{
  StoredMessage, Mailbox, Envelope, new_mailbox, append, update_flags, changed_flags, store_flags,
  is_deleted, expunge, add_copy,
}

-- The uids go up from `low` or more and stay below `high`.
abbrev pub IsAscending : ℕ → List StoredMessage → ℕ → Type 0
IsAscending low [] high = low ≤ high
IsAscending low (m ∷ ms) high = (low ≤ m.uid) × IsAscending (suc m.uid) ms high

abbrev pub IsSound : Mailbox → Type 0
IsSound m = IsAscending 1 m.messages m.uid_next

-- The operations on one mailbox. A uid is given out only while the next one fits in 32 bits.
pub data Step : Mailbox → Mailbox → Type 0 where
  appended :
      (m : Mailbox) (raw : List ℕ) (envelope : Envelope)
      → suc m.uid_next < u32_mod
      → Step m (append raw envelope m).0
  copied : (m : Mailbox) (msg : StoredMessage) → suc m.uid_next < u32_mod → Step m (add_copy msg m)
  stored : (m : Mailbox) (uid : ℕ) (add remove : List Str) → Step m (store_flags uid add remove m).0
  expunged : (m : Mailbox) → Step m (expunge m).0

pub data Reach : Mailbox → Type 0 where
  opened : (name : Str) (uid_validity : ℕ) → Reach (new_mailbox name uid_validity)
  then : (m n : Mailbox) → Reach m → Step m n → Reach n

IsAscending-push :
    (low next : ℕ) (ms : List StoredMessage) (msg : StoredMessage)
    → msg.uid ≡ next
    → IsAscending low ms next
    → IsAscending low (ms ++ msg ∷ []) (suc next)
IsAscending-push low next [] msg e a = ground arith
IsAscending-push low next (m ∷ ms) msg e a =
    ground (arith, IsAscending-push (suc m.uid) next ms msg e a.1)

IsAscending-weaken :
    (low from high : ℕ) (ms : List StoredMessage)
    → low ≤ from
    → IsAscending from ms high
    → IsAscending low ms high
IsAscending-weaken low from high [] le a = omega arith
IsAscending-weaken low from high (m ∷ ms) le a = (omega (arith, a.0), a.1)

IsAscending-keep :
    (p : StoredMessage → Bool) (low high : ℕ) (ms : List StoredMessage)
    → IsAscending low ms high
    → IsAscending low (keep p ms) high
IsAscending-keep p low high [] a = a
IsAscending-keep p low high (m ∷ ms) a =
    let rest = IsAscending-keep p (suc m.uid) high ms a.1 in
    ground (arith, rest, IsAscending-weaken low (suc m.uid) high (keep p ms))

IsAscending-update_flags :
    (change : List Str → List Str) (uid low high : ℕ) (ms : List StoredMessage)
    → IsAscending low ms high
    → IsAscending low (update_flags change uid ms) high
unfolding update_flags
IsAscending-update_flags change uid low high [] a = a
IsAscending-update_flags change uid low high (m ∷ ms) a =
    ground (arith, IsAscending-update_flags change uid (suc m.uid) high ms a.1)

Step-IsSound : (m n : Mailbox) → IsSound m → Step m n → IsSound n
unfolding append add_copy store_flags expunge
Step-IsSound _ _ s (appended m raw envelope lt) = ground (
  arith,
  IsAscending-push 1 m.uid_next m.messages
      (record { uid = m.uid_next; raw = raw; envelope = envelope; flags = [] }) refl s,
)
Step-IsSound _ _ s (copied m msg lt) =
    ground
      (arith, IsAscending-push 1 m.uid_next m.messages (record msg { uid = m.uid_next }) refl s)
Step-IsSound _ _ s (stored m uid add remove) =
    ground
      (arith, IsAscending-update_flags (changed_flags add remove) uid 1 m.uid_next m.messages s)
Step-IsSound _ _ s (expunged m) =
    IsAscending-keep (λ msg. not (is_deleted msg)) 1 m.uid_next m.messages s

-- In a mailbox that was made empty and changed by deliveries, copies, STORE and EXPUNGE in any order,
-- the messages stand in the order of their uids, which are all different, at least 1 and less than
-- UIDNEXT, as long as that fits in 32 bits.
Reach-uids : (m : Mailbox) → Reach m → IsSound m
unfolding new_mailbox
Reach-uids _ (opened name v) = omega arith
Reach-uids _ (then m n r s) = Step-IsSound m n (Reach-uids m r) s
