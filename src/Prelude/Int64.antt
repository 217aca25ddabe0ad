-- ===== src/Prelude/Int64.antt =====
-- Go's int64: integers with the wrap-around of 64-bit two's complement written out.
use Prim.Native.Nat.{ℕ, ◌+◌, ◌-◌, ◌*◌, ◌%◌, ◌≤◌, ◌<◌, ◌^◌}
use mathlib.Core.Path.{◌≡◌, refl}
use native.Mathlib.Omega.{arith}
use backend_go_role_organiza.Prelude.Int.{ℤ, pos, negsuc, pos_part, neg_part, sub_ℕ}

-- The bit pattern of an integer, modulo 2^64.
unfoldable pub pattern64 : ℤ → ℕ
pattern64 a = (pos_part a + (2 ^ 64 - neg_part a % 2 ^ 64)) % 2 ^ 64

-- The integer that a bit pattern stands for.
unfoldable pub signed64 : ℕ → ℤ
signed64 n = sub_ℕ ((n + 2 ^ 63) % 2 ^ 64) (2 ^ 63)

unfoldable pub add64 : ℤ → ℤ → ℤ
add64 a b = signed64 (pattern64 a + pattern64 b)

unfoldable pub sub64 : ℤ → ℤ → ℤ
sub64 a b = signed64 (pattern64 a + (2 ^ 64 - pattern64 b))

unfoldable pub mul64 : ℤ → ℤ → ℤ
mul64 a b = signed64 (pattern64 a * pattern64 b)

-- `int32(n)`
unfoldable pub int32 : ℤ → ℤ
int32 n = sub_ℕ ((pattern64 n + 2 ^ 31) % 2 ^ 32) (2 ^ 31)

-- The values of int64.
abbrev pub IsInt64 : ℤ → Type 0
IsInt64 a = (pos_part a < 2 ^ 63) × (neg_part a ≤ 2 ^ 63)

pub pattern64-lt : (a : ℤ) → pattern64 a < 2 ^ 64
unfolding pattern64
pattern64-lt a = omega arith

signed64-IsInt64 : (n : ℕ) → IsInt64 (signed64 n)
unfolding signed64
signed64-IsInt64 n = ground arith

pattern64-signed64 : (n : ℕ) → pattern64 (signed64 n) ≡ n % 2 ^ 64
unfolding pattern64 signed64
pattern64-signed64 n = ground arith

pub pattern64-zero : pattern64 (pos 0) ≡ 0
unfolding pattern64
pattern64-zero = refl

-- On patterns the operations are those of arithmetic modulo 2^64.
pub pattern64-add64 : (a b : ℤ) → pattern64 (add64 a b) ≡ (pattern64 a + pattern64 b) % 2 ^ 64
unfolding add64
pattern64-add64 a b = pattern64-signed64 _

pub pattern64-sub64 :
    (a b : ℤ) → pattern64 (sub64 a b) ≡ (pattern64 a + (2 ^ 64 - pattern64 b)) % 2 ^ 64
unfolding sub64
pattern64-sub64 a b = pattern64-signed64 _

pub add64-IsInt64 : (a b : ℤ) → IsInt64 (add64 a b)
unfolding add64
add64-IsInt64 a b = signed64-IsInt64 _

pub sub64-IsInt64 : (a b : ℤ) → IsInt64 (sub64 a b)
unfolding sub64
sub64-IsInt64 a b = signed64-IsInt64 _

-- An int64 is determined by its pattern.
pub eq_of_pattern64 : (a b : ℤ) → IsInt64 a → IsInt64 b → pattern64 a ≡ pattern64 b → a ≡ b
unfolding pattern64
eq_of_pattern64 (pos a) (pos b) ha hb e = ground arith
eq_of_pattern64 (pos a) (negsuc b) ha hb e = absurd (omega arith)
eq_of_pattern64 (negsuc a) (pos b) ha hb e = absurd (omega arith)
eq_of_pattern64 (negsuc a) (negsuc b) ha hb e = ground arith

pub ruleset int64_laws = (arith, pattern64-lt, pattern64-add64, pattern64-sub64)
