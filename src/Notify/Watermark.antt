-- ===== src/Notify/Watermark.antt =====
-- The new mail that is announced over a run of polls of one mailbox.
use esmail.Prelude.{
  ℕ, zero, suc, ◌-◌, ◌+◌, ◌≤◌, ◌≡◌, refl, ap, Option, none, some, List, [], ◌∷◌, ◌++◌, arith,
}
use esmail.Notify.{MailWatermark, WatermarkUpdate, baseline, new_mail, unchanged, update_watermark}

-- The uids first, first + 1, ..., of which there are `n`.
abbrev pub uids : ℕ → ℕ → List ℕ
uids first zero = []
uids first (suc n) = first ∷ uids (suc first) n

abbrev pub announced : WatermarkUpdate → List ℕ
announced baseline = []
announced (new_mail first count) = uids first count
announced unchanged = []

-- The uids announced over the polls that follow a watermark.
unfoldable pub announcements : Option MailWatermark → List MailWatermark → List ℕ
unfolding update_watermark
announcements w [] = []
announcements w (p ∷ ps) =
    let (next, update) = update_watermark w p in announced update ++ announcements (some next) ps

-- The polls see one UIDVALIDITY, and UIDNEXT does not go down from `n`.
abbrev pub IsSteady : ℕ → ℕ → List MailWatermark → Type 0
IsSteady v n [] = 0 ≤ n
IsSteady v n (p ∷ ps) = (p.uid_validity ≡ v) × (n ≤ p.uid_next) × IsSteady v p.uid_next ps

-- UIDNEXT in the last poll, or `n`.
abbrev pub last_next : ℕ → List MailWatermark → ℕ
last_next n [] = n
last_next n (p ∷ ps) = last_next p.uid_next ps

uids-append : (a b m n k : ℕ) → b ≡ a + m → k ≡ m + n → uids a m ++ uids b n ≡ uids a k
uids-append a b zero n k eb ek = ground (arith, eb, ek)
uids-append a b (suc m) n zero eb ek = absurd (omega (arith, ek))
uids-append a b (suc m) n (suc k) eb ek =
    ap (λ l. a ∷ l) (uids-append (suc a) b m n k (omega (arith, eb)) (omega (arith, ek)))

last_next-le : (v n : ℕ) (ps : List MailWatermark) → IsSteady v n ps → n ≤ last_next n ps
last_next-le v n [] s = omega arith
last_next-le v n (p ∷ ps) s = omega (arith, s.1, last_next-le v p.uid_next ps s.2)

announcements-steady :
    (v : ℕ) (w : MailWatermark) (ps : List MailWatermark)
    → w.uid_validity ≡ v
    → IsSteady v w.uid_next ps
    → announcements (some w) ps ≡ uids w.uid_next (last_next w.uid_next ps - w.uid_next)
unfolding announcements update_watermark
announcements-steady v w [] e s = ground arith
announcements-steady v w (p ∷ ps) e s = ground (
  arith,
  announcements-steady v p ps s.0 s.2,
  last_next-le v p.uid_next ps s.2,
  uids-append w.uid_next p.uid_next (p.uid_next - w.uid_next) (last_next p.uid_next ps - p.uid_next)
      (last_next p.uid_next ps - w.uid_next),
)

-- Over the polls of a mailbox, from the first on, whose UIDVALIDITY stays the same and whose UIDNEXT
-- does not go down, exactly the uids from the first poll's UIDNEXT up to the last poll's are
-- announced, each once and in order: no message that was there before, and none twice.
pub announcements-uids :
    (first : MailWatermark) (ps : List MailWatermark)
    → IsSteady first.uid_validity first.uid_next ps
    → announcements none (first ∷ ps)
      ≡ uids first.uid_next (last_next first.uid_next ps - first.uid_next)
unfolding announcements update_watermark
announcements-uids first ps s = announcements-steady first.uid_validity first ps refl s
