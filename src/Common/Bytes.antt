-- ===== src/Common/Bytes.antt =====
-- common/utils.go: byte slices, readers and checksums. A byte is a number below 256, a slice is a
-- list, and a reader is the list of the bytes that it has not handed out. Its `Read` gives as many
-- bytes as it has, up to the buffer's length, and `io.EOF` when it has none, as those of a
-- `bytes.Reader` and of a regular file do.
pub mod Reading
use archoncloud_go.Base.{
  ℕ, zero, suc, ◌+◌, ◌-◌, ◌*◌, ◌/◌, ◌%◌, ◌^◌, ◌<◌, List, [], ◌∷◌, ◌++◌, length, take, drop,
  replicate, ltb, ◌==◌, if◌then◌else◌, Bool, true, false, Result, ok, err, panic, Error, eof,
  expected_bytes, ◌>>=◌,
}
use archoncloud_go.Base.Int.{ℤ, pos, negsuc, to_u64, to_i32, to_i64}
use Prim.Native.Nat.{bit_xor}
use mathlib.Core.List.{foldl}

abbrev pub Bytes : Type 0
Bytes = List ℕ

abbrev pub IsByte : ℕ → Type 0
IsByte b = b < 256

-- A read returns what it read and the reader after it.
abbrev pub Read : Type 0 → Type 0
Read A = Bytes → Result (A × Bytes)

-- `data[i]`, which panics out of range.
abbrev pub byte_at : Bytes → ℕ → Result ℕ
byte_at [] i = panic
byte_at (b ∷ bs) zero = ok b
byte_at (b ∷ bs) (suc i) = byte_at bs i

unfoldable pub big_endian_uint32 : ℕ → Bytes
big_endian_uint32 val =
    (val / 2 ^ 24 % 256) ∷ (val / 2 ^ 16 % 256) ∷ (val / 2 ^ 8 % 256) ∷ (val % 256) ∷ []

-- The argument is an `int64`.
unfoldable pub big_endian_uint64 : ℤ → Bytes
unfolding big_endian_uint32
big_endian_uint64 val =
    let w = to_u64 val in big_endian_uint32 (w / 2 ^ 32) ++ big_endian_uint32 (w % 2 ^ 32)

-- `binary.BigEndian.Uint32` and `Uint64` of a buffer of that length.
abbrev pub from_big_endian : ℕ → Bytes → ℕ
from_big_endian acc [] = acc
from_big_endian acc (b ∷ bs) = from_big_endian (acc * 256 + b) bs

unfoldable pub read_exactly : ℕ → Read Bytes
read_exactly n [] = err eof
read_exactly n (b ∷ r) =
    let buf = take n (b ∷ r) in
    if length buf == n then ok (buf, drop n (b ∷ r)) else err (expected_bytes n)

unfoldable pub read_byte : Read ℕ
unfolding read_exactly
read_byte r = do (buf, r') ← read_exactly 1 r; v ← byte_at buf 0; ok (v, r')

unfoldable pub read_big_endian_uint32 : Read ℕ
unfolding read_exactly
read_big_endian_uint32 r = do (buf, r') ← read_exactly 4 r; ok (from_big_endian 0 buf, r')

unfoldable pub read_big_endian_uint64 : Read ℕ
unfolding read_exactly
read_big_endian_uint64 r = do (buf, r') ← read_exactly 8 r; ok (from_big_endian 0 buf, r')

unfoldable pub read_big_endian_int32 : Read ℤ
unfolding read_exactly
read_big_endian_int32 r = do (buf, r') ← read_exactly 4 r; ok (to_i32 (from_big_endian 0 buf), r')

unfoldable pub read_big_endian_int64 : Read ℤ
unfolding read_exactly
read_big_endian_int64 r = do (buf, r') ← read_exactly 8 r; ok (to_i64 (from_big_endian 0 buf), r')

-- `crc32.ChecksumIEEE`: the reflected polynomial, a bit at a time. The result is a `uint32`.
crc_bit : ℕ → ℕ
crc_bit c = bit_xor (c / 2) (if c % 2 == 1 then 0xedb88320 else 0)

crc_byte : ℕ → ℕ → ℕ
unfolding crc_bit
crc_byte c b =
    crc_bit (crc_bit (crc_bit (crc_bit (crc_bit (crc_bit (crc_bit (crc_bit (bit_xor c b))))))))

unfoldable pub checksum_ieee : Bytes → ℕ
unfolding crc_byte
checksum_ieee input = bit_xor (foldl crc_byte 0xffffffff input) 0xffffffff % 2 ^ 32

unfoldable pub crc32 : Bytes → Bytes
unfolding checksum_ieee big_endian_uint32
crc32 input = big_endian_uint32 (checksum_ieee input)

-- `ExtendedSliceToMultipleOf` for a positive or zero multiple; `%` by 0 panics.
unfoldable pub extended_slice_to_multiple_of : ℕ → Bytes → Result Bytes
extended_slice_to_multiple_of multiple input =
    if multiple == 0
    then panic
    else let rem = length input % multiple in
      if rem == 0 then ok input else ok (input ++ replicate (multiple - rem) 0)
