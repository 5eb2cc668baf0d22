-- ===== src/Common/Bytes/Reading.antt =====
-- Reading back what was written: the readers and the big-endian forms of common/utils.go.
use archoncloud_go.Base.{
  ℕ, ◌^◌, ◌<◌, ◌≡◌, refl, ◌∙◌, ap, arith, [], ◌∷◌, ◌++◌, length, ==_refl, take-append, drop-append,
  ok,
}
use archoncloud_go.Base.Int.{
  ℤ, IsI32, IsI64, to_i32, to_i64, to_u32, to_u64, to_i32-to_u32, to_i64-to_u64, to_u32-lt,
  to_u64-lt,
}
use archoncloud_go.Common.Bytes.{
  Bytes, big_endian_uint32, big_endian_uint64, from_big_endian, read_exactly, read_byte,
  read_big_endian_uint32, read_big_endian_int32, read_big_endian_int64, checksum_ieee, crc32,
}

-- `ReadExactly` hands out the prefix of the length that is asked for, and leaves the rest.
pub read_exactly-append :
    (n : ℕ) (xs ys : Bytes) → 0 < n → length xs ≡ n → read_exactly n (xs ++ ys) ≡ ok (xs, ys)
unfolding read_exactly
read_exactly-append n [] ys p h = absurd (omega arith)
read_exactly-append n (x ∷ xs) ys p h =
    rw (take-append n (x ∷ xs) ys h, drop-append n (x ∷ xs) ys h, h, ==_refl n)

pub length-big_endian_uint32 : (v : ℕ) → length (big_endian_uint32 v) ≡ 4
unfolding big_endian_uint32
length-big_endian_uint32 v = refl

pub length-big_endian_uint64 : (v : ℤ) → length (big_endian_uint64 v) ≡ 8
unfolding big_endian_uint64
length-big_endian_uint64 v = refl

pub from_big_endian-uint32 : (v : ℕ) → v < 2 ^ 32 → from_big_endian 0 (big_endian_uint32 v) ≡ v
unfolding big_endian_uint32
from_big_endian-uint32 v h = omega arith

pub from_big_endian-uint64 : (v : ℤ) → from_big_endian 0 (big_endian_uint64 v) ≡ to_u64 v
unfolding big_endian_uint64
from_big_endian-uint64 v = omega (arith, to_u64-lt v)

pub read_byte-cons : (b : ℕ) (r : Bytes) → read_byte (b ∷ r) ≡ ok (b, r)
unfolding read_byte
read_byte-cons b r = refl

pub read_uint32-append :
    (v : ℕ) (r : Bytes) → v < 2 ^ 32 → read_big_endian_uint32 (big_endian_uint32 v ++ r) ≡ ok (v, r)
unfolding read_big_endian_uint32 big_endian_uint32
read_uint32-append v r h = ap (λ (n : ℕ). ok (n, r)) (from_big_endian-uint32 v h)

-- An `int32` value that was written as a `uint32` is read back.
pub read_int32-append :
    (x : ℤ) (r : Bytes)
    → IsI32 x
    → read_big_endian_int32 (big_endian_uint32 (to_u32 x) ++ r) ≡ ok (x, r)
unfolding read_big_endian_int32 big_endian_uint32
read_int32-append x r h =
    ap (λ (n : ℕ). ok (to_i32 n, r)) (from_big_endian-uint32 (to_u32 x) (to_u32-lt x))
    ∙ ap (λ (z : ℤ). ok (z, r)) (to_i32-to_u32 x h)

-- An `int64`, negative ones included, is read back from its eight big-endian bytes, and what
-- follows them is left to the reader.
pub read_int64-append :
    (x : ℤ) (r : Bytes) → IsI64 x → read_big_endian_int64 (big_endian_uint64 x ++ r) ≡ ok (x, r)
unfolding read_big_endian_int64 big_endian_uint64
read_int64-append x r h =
    ap (λ (n : ℕ). ok (to_i64 n, r)) (from_big_endian-uint64 x)
    ∙ ap (λ (z : ℤ). ok (z, r)) (to_i64-to_u64 x h)

pub checksum_ieee-lt : (bs : Bytes) → checksum_ieee bs < 2 ^ 32
unfolding checksum_ieee
checksum_ieee-lt bs = omega arith

pub length-crc32 : (bs : Bytes) → length (crc32 bs) ≡ 4
unfolding crc32
length-crc32 bs = refl

pub crc32_lem : (bs : Bytes) → crc32 bs ≡ big_endian_uint32 (checksum_ieee bs)
unfolding crc32
crc32_lem bs = refl
