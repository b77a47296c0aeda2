-- ===== src/Base/Int.antt =====
-- Signed integers over the native numbers, and their conversions to machine words.
use Prim.Native.Nat.{ℕ, ◌-◌, ◌%◌, ◌^◌, ◌<◌}
use mathlib.Core.Path.{◌≡◌}
use mathlib.Core.Bool.{Bool, true, false}
use native.Mathlib.Omega.{arith}
use android_device_xenvm.Base.Tests.{◌==◌, ltb, if◌then◌else◌}

-- `negsuc n` is -(n + 1).
pub data ℤ : Type 0 where
  pos : ℕ → ℤ
  negsuc : ℕ → ℤ

abbrev pub eq_ℤ : ℤ → ℤ → Bool
eq_ℤ (pos a) (pos b) = a == b
eq_ℤ (negsuc a) (negsuc b) = a == b
eq_ℤ _ _ = false

abbrev pub ltb_ℤ : ℤ → ℤ → Bool
ltb_ℤ (pos a) (pos b) = ltb a b
ltb_ℤ (pos a) (negsuc b) = false
ltb_ℤ (negsuc a) (pos b) = true
ltb_ℤ (negsuc a) (negsuc b) = ltb b a

pub eq_ℤ_eq : (a b : ℤ) → eq_ℤ a b ≡ true → a ≡ b
eq_ℤ_eq (pos a) (pos b) h = ground arith
eq_ℤ_eq (pos a) (negsuc b) h = ground arith
eq_ℤ_eq (negsuc a) (pos b) h = ground arith
eq_ℤ_eq (negsuc a) (negsuc b) h = ground arith

pub eq_ℤ_refl : (a : ℤ) → eq_ℤ a a ≡ true
eq_ℤ_refl (pos a) = ground arith
eq_ℤ_refl (negsuc a) = ground arith

-- The w-bit pattern of an integer (two's complement), for the modulus m = 2 ^ w.
abbrev pub wrap : ℕ → ℤ → ℕ
wrap m (pos n) = n % m
wrap m (negsuc n) = m - 1 - n % m

-- The number that a 32-bit pattern stands for.
abbrev pub signed32 : ℕ → ℤ
signed32 w = if ltb w (2 ^ 31) then pos w else negsuc (2 ^ 32 - 1 - w)

-- The conversions `static_cast<int>(uint64_t)` and `static_cast<int32_t>(int64_t)`.
unfoldable pub to_int32 : ℤ → ℤ
to_int32 n = signed32 (wrap (2 ^ 32) n)

-- The conversion of an `int` to `uint32_t`.
unfoldable pub to_uint32 : ℤ → ℕ
to_uint32 n = wrap (2 ^ 32) n

-- A number below 2 ^ 31 survives the conversion to `int`.
pub to_int32-pos : (n : ℕ) → n < 2 ^ 31 → to_int32 (pos n) ≡ pos n
unfolding to_int32
to_int32-pos n h = ground arith

-- Converting to `int` and back to `uint32_t` loses nothing.
pub to_uint32-to_int32 : (n : ℕ) → n < 2 ^ 32 → to_uint32 (to_int32 (pos n)) ≡ n
unfolding to_int32 to_uint32
to_uint32-to_int32 n h = ground arith
