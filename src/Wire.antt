-- ===== src/Wire.antt =====
-- The bytes of numbers on the wire: samples/samples-server/include/ms_endian.h, of which the other
-- samples keep the same copies. An integer is its bit pattern; masks and shifts are remainders and
-- quotients, and fields that do not overlap are added.
pub mod Parse
pub mod Pack
pub mod Finds
pub mod Entries
pub mod Reads
pub mod Safe
pub mod Collections
use tcp_epoll.Prelude.{
  ℕ, zero, suc, ◌+◌, ◌*◌, ◌/◌, ◌%◌, ◌^◌, ◌<◌, ◌≡◌, refl, ◌∙◌, ap, List, [], ◌∷◌, ◌++◌, length,
  arith,
}

-- ms_endian of UINT16 and INT16.
unfoldable pub ms_endian16 : ℕ → ℕ
ms_endian16 n = n % 256 * 2 ^ 8 + n / 2 ^ 8 % 256

-- ms_endian of UINT32 and INT32.
unfoldable pub ms_endian32 : ℕ → ℕ
ms_endian32 n =
    n % 256 * 2 ^ 24 + n / 2 ^ 8 % 256 * 2 ^ 16 + n / 2 ^ 16 % 256 * 2 ^ 8 + n / 2 ^ 24 % 256

-- ms_endian of UINT64 and INT64.
unfoldable pub ms_endian64 : ℕ → ℕ
ms_endian64 n =
    n % 256 * 2 ^ 56
    + n / 2 ^ 8 % 256 * 2 ^ 48
    + n / 2 ^ 16 % 256 * 2 ^ 40
    + n / 2 ^ 24 % 256 * 2 ^ 32
    + n / 2 ^ 32 % 256 * 2 ^ 24
    + n / 2 ^ 40 % 256 * 2 ^ 16
    + n / 2 ^ 48 % 256 * 2 ^ 8
    + n / 2 ^ 56 % 256

-- The bytes of a number of `size` bytes in memory, the low byte first.
unfoldable pub le_bytes : ℕ → ℕ → List ℕ
le_bytes zero v = []
le_bytes (suc size) v = v % 256 ∷ le_bytes size (v / 256)

unfoldable pub of_le : List ℕ → ℕ
of_le [] = 0
of_le (b ∷ bs) = b + 256 * of_le bs

pub length-le_bytes : (size v : ℕ) → length (le_bytes size v) ≡ size
unfolding le_bytes
length-le_bytes zero v = refl
length-le_bytes (suc size) v = omega (arith, length-le_bytes size (v / 256))

ms_endian16_inv : (n : ℕ) → n < 2 ^ 16 → ms_endian16 (ms_endian16 n) ≡ n
unfolding ms_endian16
ms_endian16_inv n h = omega arith

ms_endian32_inv : (n : ℕ) → n < 2 ^ 32 → ms_endian32 (ms_endian32 n) ≡ n
unfolding ms_endian32
ms_endian32_inv n h = omega arith

ms_endian64_inv : (n : ℕ) → n < 2 ^ 64 → ms_endian64 (ms_endian64 n) ≡ n
unfolding ms_endian64
ms_endian64_inv n h = omega arith

ms_endian32_bound : (n : ℕ) → ms_endian32 n < 2 ^ 32
unfolding ms_endian32
ms_endian32_bound n = omega arith

ms_endian64_bound : (n : ℕ) → ms_endian64 n < 2 ^ 64
unfolding ms_endian64
ms_endian64_bound n = omega arith

of_le-le_bytes32 : (v : ℕ) → v < 2 ^ 32 → of_le (le_bytes 4 v) ≡ v
unfolding of_le le_bytes
of_le-le_bytes32 v h = omega arith

of_le-le_bytes64 : (v : ℕ) → v < 2 ^ 64 → of_le (le_bytes 8 v) ≡ v
unfolding of_le le_bytes
of_le-le_bytes64 v h = omega arith

of_le-le_bytes16 : (v : ℕ) → v < 2 ^ 16 → of_le (le_bytes 2 v) ≡ v
unfolding of_le le_bytes
of_le-le_bytes16 v h = omega arith

ms_endian16_bound : (n : ℕ) → ms_endian16 n < 2 ^ 16
unfolding ms_endian16
ms_endian16_bound n = omega arith

pub ms_endian16-round : (v : ℕ) → v < 2 ^ 16 → ms_endian16 (of_le (le_bytes 2 (ms_endian16 v))) ≡ v
ms_endian16-round v h =
    ap ms_endian16 (of_le-le_bytes16 (ms_endian16 v) (ms_endian16_bound v)) ∙ ms_endian16_inv v h

pub ms_endian32-round : (v : ℕ) → v < 2 ^ 32 → ms_endian32 (of_le (le_bytes 4 (ms_endian32 v))) ≡ v
ms_endian32-round v h =
    ap ms_endian32 (of_le-le_bytes32 (ms_endian32 v) (ms_endian32_bound v)) ∙ ms_endian32_inv v h

pub ms_endian64-round : (v : ℕ) → v < 2 ^ 64 → ms_endian64 (of_le (le_bytes 8 (ms_endian64 v))) ≡ v
ms_endian64-round v h =
    ap ms_endian64 (of_le-le_bytes64 (ms_endian64 v) (ms_endian64_bound v)) ∙ ms_endian64_inv v h

-- What the templates over a type of numbers use of it: its size, and its ms_endian, which brings
-- back what it has sent. A value of the type is less than `limit`.
pub record Scalar : Type 0 where
  pub size : ℕ
  pub limit : ℕ
  pub ms_endian : ℕ → ℕ
  pub round : (v : ℕ) → v < limit → ms_endian (of_le (le_bytes size (ms_endian v))) ≡ v

abbrev pub uint16 : Scalar
uint16 = record { size = 2; limit = 2 ^ 16; ms_endian = ms_endian16; round = ms_endian16-round }

-- UINT32, and INT32 by its bit pattern.
abbrev pub uint32 : Scalar
uint32 = record { size = 4; limit = 2 ^ 32; ms_endian = ms_endian32; round = ms_endian32-round }

abbrev pub uint64 : Scalar
uint64 = record { size = 8; limit = 2 ^ 64; ms_endian = ms_endian64; round = ms_endian64-round }
