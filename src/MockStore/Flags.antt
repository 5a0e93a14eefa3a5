-- ===== src/MockStore/Flags.antt =====
-- The flags of a message after `STORE`.
use esmail.Prelude.{
  ℕ, ◌≡◌, ◌≢◌, some, ◌∙◌, refl, ap, true, not, ◌&&◌, ◌||◌, List, [], ◌∷◌, ◌++◌, Str, arith, any,
  any-append, keep, str_eq, str_eq→eq, to_ascii_lowercase, eq_ignore_ascii_case,
}
use esmail.MockStore.{
  has_flag, add_flags, changed_flags, StoredMessage, Mailbox, with_uid, update_flags, store_flags,
}

has_flag-same :
    (g f : Str) (l : List Str) → eq_ignore_ascii_case g f ≡ true → has_flag g l ≡ has_flag f l
has_flag-same g f l e =
    ap (λ (t : Str). any (λ (x : Str). str_eq (to_ascii_lowercase x) t) l)
      (str_eq→eq (to_ascii_lowercase g) (to_ascii_lowercase f) e)

has_flag-keep :
    (f : Str) (remove flags : List Str)
    → has_flag f (keep (λ g. not (any (λ r. eq_ignore_ascii_case r g) remove)) flags)
      ≡ (has_flag f flags && not (has_flag f remove))
has_flag-keep f remove [] = refl
has_flag-keep f remove (g ∷ flags) =
    ground (arith, has_flag-keep f remove flags, has_flag-same g f remove)

has_flag-add_flags :
    (f : Str) (add flags : List Str)
    → has_flag f (add_flags add flags) ≡ (has_flag f flags || has_flag f add)
unfolding add_flags
has_flag-add_flags f [] flags = ground arith
has_flag-add_flags f (g ∷ add) flags = ground (
  arith,
  has_flag-add_flags f add flags,
  has_flag-add_flags f add (flags ++ g ∷ []),
  has_flag-same g f flags,
  any-append (λ (x : Str). eq_ignore_ascii_case x f) flags (g ∷ []),
)

with_uid-update_flags :
    (change : List Str → List Str) (uid : ℕ) (ms : List StoredMessage) (msg : StoredMessage)
    → with_uid uid ms ≡ some msg
    → with_uid uid (update_flags change uid ms) ≡ some (record msg { flags = change msg.flags })
unfolding with_uid update_flags
with_uid-update_flags change uid [] msg e = absurd (cc e)
with_uid-update_flags change uid (m ∷ ms) msg e =
    ground (arith, with_uid-update_flags change uid ms msg)

with_uid-update_flags_other :
    (change : List Str → List Str) (uid u : ℕ) (ms : List StoredMessage)
    → u ≢ uid
    → with_uid u (update_flags change uid ms) ≡ with_uid u ms
unfolding with_uid update_flags
with_uid-update_flags_other change uid u [] ne = refl
with_uid-update_flags_other change uid u (m ∷ ms) ne =
    ground (arith, with_uid-update_flags_other change uid u ms ne)

-- STORE on a message that is there answers with the flags that the message then has, and a flag is
-- among these, in any case, if it is one to add, or was there and is not one to remove. A flag in
-- both lists is kept, and a message with another uid is as before.
store_flags-with_uid :
    (uid other : ℕ) (add remove : List Str) (flag : Str) (m : Mailbox) (msg : StoredMessage)
    → with_uid uid m.messages ≡ some msg
    → other ≢ uid
    → (flags : List Str) × ((store_flags uid add remove m).1 ≡ some flags)
      × (with_uid uid (store_flags uid add remove m).0.messages
          ≡ some (record msg { flags = flags }))
      × (has_flag flag flags
          ≡ ((has_flag flag msg.flags && not (has_flag flag remove)) || has_flag flag add))
      × (with_uid other (store_flags uid add remove m).0.messages ≡ with_uid other m.messages)
unfolding store_flags changed_flags
store_flags-with_uid uid other add remove flag m msg e ne =
    let change = changed_flags add remove in
    rw (e, store_flags)
      (
        change msg.flags,
        refl,
        with_uid-update_flags change uid m.messages msg e,
        (has_flag-add_flags flag add
              (keep (λ g. not (any (λ r. eq_ignore_ascii_case r g) remove)) msg.flags)
            ∙ ap (λ b. b || has_flag flag add) (has_flag-keep flag remove msg.flags)),
        with_uid-update_flags_other change uid other m.messages ne,
      )
