-- ===== src/Base/Int.antt =====
-- Signed integers over the native numbers, as Go's `int32` and `int` use them here.
use Prim.Native.Nat.{ℕ, suc, ◌-◌, ◌%◌}
use native.Mathlib.Decide.{ℕ_discrete}
use clusterip_gw.Base.Equality.{Eq, ltb, if◌then◌else◌}

-- `negsuc n` is -(n + 1).
pub data ℤ : Type 0 where
  pos : ℕ → ℤ
  negsuc : ℕ → ℤ

pub ℤ_discrete : Discrete ℤ
ℤ_discrete = hlevel ℕ_discrete

instance unfoldable pub int_eq : Eq ℤ
unfolding ℤ_discrete
int_eq = record { dec = ℤ_discrete }

-- The conversion `int32(n)` of a length.
abbrev pub int32 : ℕ → ℤ
int32 n = let r = n % 4294967296 in if ltb r 2147483648 then pos r else negsuc (4294967296 - suc r)
