-- ===== src/Prelude/Int.antt =====
-- Signed integers over the native numbers, and Go's int64 with its wrap-around.
use Prim.Native.Nat.{ℕ, zero, suc, ◌+◌, ◌-◌, ◌*◌, ◌/◌, ◌%◌, ◌^◌, ◌≤◌, ◌<◌}
use mathlib.Core.Path.{◌≡◌, refl}
use mathlib.Core.Bool.{Bool}
use native.Mathlib.Omega.{arith}
use disgo.Prelude.Tests.{ltb, leb, ◌==◌, if◌then◌else◌}

-- `negsuc n` is -(n + 1).
pub data ℤ : Type 0 where
  pos : ℕ → ℤ
  negsuc : ℕ → ℤ

abbrev pub pos_part : ℤ → ℕ
pos_part (pos n) = n
pos_part (negsuc n) = 0

abbrev pub neg_part : ℤ → ℕ
neg_part (pos n) = 0
neg_part (negsuc n) = suc n

-- a - b, as an integer.
abbrev pub sub_ℕ : ℕ → ℕ → ℤ
sub_ℕ a b = if leb b a then pos (a - b) else negsuc (b - a - 1)

infixl 65 ◌+ℤ◌ ◌-ℤ◌
infix 50 ◌≤ℤ◌ ◌<ℤ◌
unfoldable pub ◌+ℤ◌ : ℤ → ℤ → ℤ
a +ℤ b = sub_ℕ (pos_part a + pos_part b) (neg_part a + neg_part b)

unfoldable pub ◌-ℤ◌ : ℤ → ℤ → ℤ
a -ℤ b = sub_ℕ (pos_part a + neg_part b) (neg_part a + pos_part b)

abbrev pub ◌≤ℤ◌ : ℤ → ℤ → Type 0
a ≤ℤ b = pos_part a + neg_part b ≤ pos_part b + neg_part a

abbrev pub ◌<ℤ◌ : ℤ → ℤ → Type 0
a <ℤ b = pos_part a + neg_part b < pos_part b + neg_part a

abbrev pub ltb_ℤ : ℤ → ℤ → Bool
ltb_ℤ a b = ltb (pos_part a + neg_part b) (pos_part b + neg_part a)

abbrev pub leb_ℤ : ℤ → ℤ → Bool
leb_ℤ a b = leb (pos_part a + neg_part b) (pos_part b + neg_part a)

abbrev pub eqb_ℤ : ℤ → ℤ → Bool
eqb_ℤ a b = (pos_part a + neg_part b) == (pos_part b + neg_part a)

pub +ℤ_parts :
    (a b : ℤ)
    → pos_part (a +ℤ b) + neg_part a + neg_part b ≡ neg_part (a +ℤ b) + pos_part a + pos_part b
unfolding ◌+ℤ◌
+ℤ_parts a b = ground arith

pub -ℤ_parts :
    (a b : ℤ)
    → pos_part (a -ℤ b) + neg_part a + pos_part b ≡ neg_part (a -ℤ b) + pos_part a + neg_part b
unfolding ◌-ℤ◌
-ℤ_parts a b = ground arith

pub eq_of_parts : (a b : ℤ) → pos_part a + neg_part b ≡ pos_part b + neg_part a → a ≡ b
eq_of_parts a b h = ground arith

pub parts_of_eq : (a b : ℤ) → a ≡ b → pos_part a + neg_part b ≡ pos_part b + neg_part a
parts_of_eq a b h = ground arith

pub ruleset int_laws = (arith, +ℤ_parts, -ℤ_parts, eq_of_parts)

-- The value of an int64 whose bits are the low 64 bits of an integer.
unfoldable pub wrap64 : ℤ → ℤ
wrap64 (pos n) =
    if ltb (n % 18446744073709551616) 9223372036854775808
    then pos (n % 18446744073709551616)
    else negsuc (18446744073709551615 - n % 18446744073709551616)
wrap64 (negsuc n) =
    if ltb (n % 18446744073709551616) 9223372036854775808
    then negsuc (n % 18446744073709551616)
    else pos (18446744073709551615 - n % 18446744073709551616)

-- The range of int64.
abbrev pub IsInt64 : ℤ → Type 0
IsInt64 a = (pos_part a < 9223372036854775808) × (neg_part a ≤ 9223372036854775808)

pub wrap64_self : (a : ℤ) → IsInt64 a → wrap64 a ≡ a
unfolding wrap64
wrap64_self (pos n) h = ground arith
wrap64_self (negsuc n) h = ground arith

pub wrap64-IsInt64 : (a : ℤ) → IsInt64 (wrap64 a)
unfolding wrap64
wrap64-IsInt64 (pos n) = ground arith
wrap64-IsInt64 (negsuc n) = ground arith

-- `a + b` and `a - b` on int64.
unfoldable pub add64 : ℤ → ℤ → ℤ
add64 a b = wrap64 (a +ℤ b)

unfoldable pub sub64 : ℤ → ℤ → ℤ
sub64 a b = wrap64 (a -ℤ b)

-- The operations on what is not negative and does not overflow.
pub add64_pos : (a b : ℕ) → a + b < 9223372036854775808 → add64 (pos a) (pos b) ≡ pos (a + b)
unfolding add64 ◌+ℤ◌
add64_pos a b h = ground (arith, wrap64_self (pos (a + b)))

pub sub64_pos : (a b : ℕ) → b ≤ a → a < 9223372036854775808 → sub64 (pos a) (pos b) ≡ pos (a - b)
unfolding sub64 ◌-ℤ◌
sub64_pos a b h k = ground (arith, wrap64_self (pos (a - b)))

infixl 70 ◌*ℤ◌
unfoldable pub ◌*ℤ◌ : ℤ → ℤ → ℤ
a *ℤ b =
    sub_ℕ (pos_part a * pos_part b + neg_part a * neg_part b)
      (pos_part a * neg_part b + neg_part a * pos_part b)

unfoldable pub mul64 : ℤ → ℤ → ℤ
mul64 a b = wrap64 (a *ℤ b)

pub mul64_pos : (a b : ℕ) → a * b < 9223372036854775808 → mul64 (pos a) (pos b) ≡ pos (a * b)
unfolding mul64 ◌*ℤ◌
mul64_pos a b h = ground (arith, wrap64_self (pos (a * b)))

-- float64, for integers: the nearest multiple of 2 ^ e, ties to the even one, for the least `e`
-- that leaves a significand of 53 bits.
exponent : ℕ → ℕ → ℕ → ℕ
exponent zero n e = e
exponent (suc k) n e =
    let more = exponent k n (suc e) in if ltb (n / 2 ^ e) 9007199254740992 then e else more

nearest : ℕ → ℕ → ℕ
nearest n e =
    let q = n / 2 ^ e in
    let r = 2 * (n % 2 ^ e) in
    if ltb (2 ^ e) r then (q + 1) * 2 ^ e else if r == 2 ^ e then (q + q % 2) * 2 ^ e else q * 2 ^ e

float_ℕ : ℕ → ℕ
float_ℕ n = if ltb n 9007199254740992 then n else nearest n (exponent 256 n 0)

-- int64(x), for the float64 nearest to an integer.
unfoldable pub float_int64 : ℤ → ℤ
unfolding float_ℕ nearest exponent
float_int64 (pos n) = wrap64 (pos (float_ℕ n))
float_int64 (negsuc n) = wrap64 (pos 0 -ℤ pos (float_ℕ (suc n)))

-- The float64 nearest to an integer, as an integer.
unfoldable pub float_ℤ : ℤ → ℤ
unfolding float_ℕ nearest exponent
float_ℤ (pos n) = pos (float_ℕ n)
float_ℤ (negsuc n) = pos 0 -ℤ pos (float_ℕ (suc n))

-- The integers that a float64 holds exactly, with everything between them.
abbrev pub IsExact : ℤ → Type 0
IsExact a = (pos_part a < 9007199254740992) × (neg_part a < 9007199254740992)

float_ℕ_self : (n : ℕ) → n < 9007199254740992 → float_ℕ n ≡ n
unfolding float_ℕ
float_ℕ_self n h = ground arith

neg_ℤ : (n : ℕ) → (pos 0 -ℤ pos (suc n)) ≡ negsuc n
unfolding ◌-ℤ◌
neg_ℤ n = ground arith

pub float_int64_self : (a : ℤ) → IsExact a → float_int64 a ≡ a
unfolding float_int64
float_int64_self (pos n) h = rw (float_ℕ_self n h.0) (wrap64_self (pos n) (omega arith))
float_int64_self (negsuc n) h =
    rw (float_ℕ_self (suc n) h.1, neg_ℤ n) (wrap64_self (negsuc n) (omega arith))

pub float_ℤ_self : (a : ℤ) → IsExact a → float_ℤ a ≡ a
unfolding float_ℤ
float_ℤ_self (pos n) h = rw (float_ℕ_self n h.0)
float_ℤ_self (negsuc n) h = rw (float_ℕ_self (suc n) h.1, neg_ℤ n)

float_above : float_int64 (pos 9007199254740993) ≡ pos 9007199254740992
unfolding float_int64 wrap64
float_above = refl

float_highest : float_int64 (pos 9223372036854775807) ≡ negsuc 9223372036854775807
unfolding float_int64 wrap64
float_highest = refl
