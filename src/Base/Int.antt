-- ===== src/Base/Int.antt =====
-- Python integers over the native numbers, as far as the program compares and subtracts them.
use Prim.Native.Nat.{ℕ, suc, ◌+◌, ◌-◌}
use mathlib.Core.Path.{◌≡◌}
use mathlib.Core.Bool.{Bool, true}
use native.Mathlib.Omega.{arith}
use codex_sync.Base.Tests.{leb, ltb, nat_eq, if◌then◌else◌}

-- `negsuc n` is -(n + 1).
pub data ℤ : Type 0 where
  pos : ℕ → ℤ
  negsuc : ℕ → ℤ

abbrev pub pos_part : ℤ → ℕ
pos_part (pos n) = n
pos_part (negsuc n) = 0

abbrev pub neg_part : ℤ → ℕ
neg_part (pos n) = 0
neg_part (negsuc n) = suc n

-- `abs(a - b)`
unfoldable pub dist : ℤ → ℤ → ℕ
dist a b =
    let x = pos_part a + neg_part b in
    let y = pos_part b + neg_part a in if leb x y then y - x else x - y

-- `a < b`
unfoldable pub int_ltb : ℤ → ℤ → Bool
int_ltb a b = ltb (pos_part a + neg_part b) (pos_part b + neg_part a)

-- `a == b`
unfoldable pub int_eq : ℤ → ℤ → Bool
int_eq a b = nat_eq (pos_part a + neg_part b) (pos_part b + neg_part a)

pub dist_comm : (a b : ℤ) → dist a b ≡ dist b a
unfolding dist
dist_comm a b = ground arith

pub dist_self : (a : ℤ) → dist a a ≡ 0
unfolding dist
dist_self a = ground arith

pub int_eq_self : (a : ℤ) → int_eq a a ≡ true
unfolding int_eq
int_eq_self a = ground arith

pub int_eq_comm : (a b : ℤ) → int_eq a b ≡ int_eq b a
unfolding int_eq
int_eq_comm a b = ground arith
