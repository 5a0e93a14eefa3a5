-- ===== src/Prelude/Classes.antt =====
-- Rust's `PartialEq` where it is a lawful equality.
use mathlib.Core.Path.{◌≡◌}
use mathlib.Core.Logic.{◌↔◌}
use mathlib.Core.Bool.{Bool, true}
use mathlib.Core.Option.{Option, none, some}
use native.Mathlib.Omega.{arith}
use Prim.Native.Nat.{ℕ}
use esmail.Prelude.Tests.{◌==◌, ==_iff}

pub record Eq {ℓ} (A : Type ℓ) : Type ℓ where
  pub beq : A → A → Bool
  pub beq_iff : (a b : A) → (beq a b ≡ true) ↔ (a ≡ b)

-- `o.as_ref() == Some(&a)`.
abbrev pub is_just {ℓ} : {A : Type ℓ} → Eq A → Option A → A → Bool
is_just e none a = Bool.false
is_just e (some b) a = e.beq b a

abbrev pub nat_eq : Eq ℕ
nat_eq = record { beq = ◌==◌; beq_iff = ==_iff }

pub is_just_iff {ℓ} :
    {A : Type ℓ} (e : Eq A) (o : Option A) (a : A) → (is_just e o a ≡ true) ↔ (o ≡ some a)
is_just_iff e none a = ground arith
is_just_iff e (some b) a = ground (arith, e.beq_iff b a)
