-- ===== src/Shards/FileContainer/Layout.antt =====
-- Where the payload of a file container lies, and how a container that passes the checks is read.
use archoncloud_go.Base.{
  ℕ, ◌+◌, ◌-◌, ◌%◌, ◌^◌, ◌≤◌, ◌<◌, ◌≡◌, refl, ap, ◌∙◌, [], ◌++◌, length, length-append, take-append,
  drop-append, append_assoc, le→ltb, lt→ltb, bytes_eq_refl, ok, arith,
}
use archoncloud_go.Base.Arith.{ceil-bounds, ceil_unique}
use archoncloud_go.Base.Int.{pos, -ℤ_pos}
use archoncloud_go.Common.Bytes.{Bytes, byte_at}
use archoncloud_go.Common.Numbers.Rounding.{divide_round_up-ok}
use archoncloud_go.Shards.Types.{
  FileContainerType, browser_optimized, archive_optimized, file_container_type,
}
use archoncloud_go.Shards.Sizes.Exact.{share}
use archoncloud_go.Shards.Header.{ShardHeader, get_file_container_len, get_file_container_hash}
use archoncloud_go.Shards.FileContainer.{
  pay_load_end, hdr_len, check_container_header, get_original_data_from_container, slice_range,
}

pub pay_load_end-browser :
    (n : ℕ) → n < 2 ^ 62 → pay_load_end browser_optimized (pos (4 + (n + 69))) ≡ ok (pos (4 + n))
unfolding pay_load_end
pay_load_end-browser n lt =
    rw (-ℤ_pos (4 + (n + 69)) 69 (omega arith) (omega arith))
      (ap (λ (t : ℕ). ok (pos t)) (omega arith))

-- One parity byte for 25 bytes is one for 26 bytes of payload and parity together.
share-with_parity : (n : ℕ) → share (n + share n 25) 26 ≡ share n 25
share-with_parity n =
    let b = ceil-bounds n 25 (omega arith) in
    ceil_unique (n + share n 25) 26 (share n 25) (omega arith) (omega arith) (omega arith)

-- For an archive-optimised container of n bytes of payload, n < 2^62 (nine bytes of header, the
-- payload, a parity byte for every 25 bytes begun, and 69 bytes of CRC and signature),
-- `PayLoadEnd` gives from the total length the end of the payload, 9 + n.
pub pay_load_end-archive :
    (n : ℕ)
    → n < 2 ^ 62
    → pay_load_end archive_optimized (pos (9 + (n + (share n 25 + 69)))) ≡ ok (pos (9 + n))
unfolding pay_load_end
pay_load_end-archive n lt =
    let s : share n 25 ≤ n = omega arith in
    let inner : 9 + (n + (share n 25 + 69)) - 78 ≡ n + share n 25 = omega arith in
    let small : (n + share n 25) % 2 ^ 64 ≡ n + share n 25 = omega arith in
    let fits = lt→ltb (share n 25) (2 ^ 63) (omega arith) in
    rw
      (
        -ℤ_pos (9 + (n + (share n 25 + 69))) 78 (omega arith) (omega arith),
        inner,
        small,
        divide_round_up-ok (n + share n 25) 26 (omega arith) (omega arith),
        share-with_parity n,
        fits,
        -ℤ_pos (9 + (n + (share n 25 + 69))) (share n 25) (omega arith) (omega arith),
        -ℤ_pos (9 + (n + (share n 25 + 69)) - share n 25) 69 (omega arith) (omega arith),
      )
      (ap (λ (t : ℕ). ok (pos t)) (omega arith))

pub slice_range-middle :
    (lo hi : ℕ) (a b c : Bytes)
    → length a ≡ lo
    → lo + length b ≡ hi
    → slice_range lo (pos hi) (a ++ (b ++ c)) ≡ ok b
slice_range-middle lo hi a b c ea eb =
    let ordered = le→ltb hi lo (omega arith) in
    let fits =
      le→ltb (length (a ++ (b ++ c))) hi
        (omega (arith, length-append a (b ++ c), length-append b c)) in
    let size : hi - lo ≡ length b = omega arith in
    rw (ordered, fits, size, drop-append lo a (b ++ c) ea) (rw (take-append (length b) b c refl))

-- A container whose parts are in place gives its payload, whatever zeros or other bytes follow it.
pub read_container :
    (hash : Bytes → Bytes) (hdr : ShardHeader) (b : ℕ) (fct : FileContainerType)
    (head payload tail pad : Bytes)
    → byte_at (head ++ (payload ++ tail) ++ pad) 1 ≡ ok b
    → file_container_type b ≡ fct
    → length head ≡ hdr_len fct
    → check_container_header fct (head ++ (payload ++ tail) ++ pad) ≡ ok tt
    → get_file_container_len hdr ≡ pos (length (head ++ (payload ++ tail)))
    → get_file_container_hash hdr ≡ hash (head ++ (payload ++ tail))
    → pay_load_end fct (pos (length (head ++ (payload ++ tail))))
      ≡ ok (pos (length head + length payload))
    → get_original_data_from_container hash hdr (head ++ (payload ++ tail) ++ pad) ≡ ok payload
unfolding get_original_data_from_container
read_container hash hdr b fct head payload tail pad eb ef el ec en eh ep =
    let origin = head ++ (payload ++ tail) in
    let whole = origin ++ pad in
    let total = length-append origin pad in
    let long = le→ltb (length whole + 0) (length origin + 0) (omega arith) in
    let has_header =
      le→ltb (length whole) (hdr_len fct) (omega (arith, length-append head (payload ++ tail))) in
    let cut = slice_range-middle 0 (length origin) [] origin pad refl (omega arith) in
    let split : whole ≡ head ++ (payload ++ (tail ++ pad)) =
      append_assoc head (payload ++ tail) pad
      ∙ ap (λ (t : Bytes). head ++ t) (append_assoc payload tail pad) in
    let last =
      slice_range-middle (hdr_len fct) (length head + length payload) head payload (tail ++ pad) el
        (omega arith) in
    rw (en, long, eb, ef, has_header, ec, cut, eh, bytes_eq_refl (hash origin), ep)
      (rw (split, last))
