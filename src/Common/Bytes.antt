-- ===== src/Common/Bytes.antt =====
-- The object representation of C integers: least significant byte first, two's complement.
-- An `int` is its pattern below 2 ^ 32, an `off_t` its pattern below 2 ^ 64.
use Prim.Native.Nat.{ℕ, zero, suc, ◌+◌, ◌*◌, ◌/◌, ◌%◌, ◌<◌, ◌≤◌}
use mathlib.Core.Path.{◌≡◌, refl, ap}
use mathlib.Core.Bool.{Bool, true, false, ◌&&◌}
use mathlib.Core.List.{List, [], ◌∷◌}
use native.Mathlib.Omega.{arith}
use the_operating_system.Common.Lists.{length}
use the_operating_system.Common.Tests.{ltb, if◌then◌else◌}

abbrev pub le_bytes : ℕ → ℕ → List ℕ
le_bytes zero n = []
le_bytes (suc k) n = (n % 256) ∷ le_bytes k (n / 256)

abbrev pub le_value : List ℕ → ℕ
le_value [] = 0
le_value (b ∷ bs) = b + 256 * le_value bs

abbrev pub int_bytes : ℕ → List ℕ
int_bytes n = le_bytes 4 n

abbrev pub off_bytes : ℕ → List ℕ
off_bytes n = le_bytes 8 n

-- `-1` as an `int` and as an `off_t`.
abbrev pub int_minus_one : ℕ
int_minus_one = 0xffff_ffff

abbrev pub off_minus_one : ℕ
off_minus_one = 0xffff_ffff_ffff_ffff

-- `n > 0` of an `int`.
abbrev pub positive : ℕ → Bool
positive n = ltb 0 n && ltb n 0x8000_0000

-- `a < b` of two `int`s.
unfoldable pub signed_key : ℕ → ℕ
signed_key a = (a + 0x8000_0000) % 0x1_0000_0000

unfoldable pub signed_ltb : ℕ → ℕ → Bool
unfolding signed_key
signed_ltb a b = ltb (signed_key a) (signed_key b)

-- An `int` converted to `off_t`.
abbrev pub widen : ℕ → ℕ
widen n = if ltb n 0x8000_0000 then n else n + 0xffff_ffff_0000_0000

pub length-le_bytes : (k n : ℕ) → length (le_bytes k n) ≡ k
length-le_bytes zero n = refl
length-le_bytes (suc k) n = ap suc (length-le_bytes k (n / 256))

pub le_value-int_bytes : (n : ℕ) → n < 0x1_0000_0000 → le_value (int_bytes n) ≡ n
le_value-int_bytes n h = omega arith

pub le_value-off_bytes : (n : ℕ) → n < 0x1_0000_0000_0000_0000 → le_value (off_bytes n) ≡ n
le_value-off_bytes n h = omega arith

pub signed_ltb→lt : (a b : ℕ) → signed_ltb a b ≡ true → signed_key a < signed_key b
unfolding signed_ltb
signed_ltb→lt a b h = ground arith

pub not_signed_ltb→le : (a b : ℕ) → signed_ltb a b ≡ false → signed_key b ≤ signed_key a
unfolding signed_ltb
not_signed_ltb→le a b h = ground arith

pub signed_ltb_irrefl : (a : ℕ) → signed_ltb a a ≡ false
unfolding signed_ltb
signed_ltb_irrefl a = ground arith
