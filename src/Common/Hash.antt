-- ===== src/Common/Hash.antt =====
-- common/hash.go: the writer that hashes what it writes. The hash function (SHA3-256) is a
-- parameter, and a hasher is the list of the bytes that it has been given. The destination is a
-- buffer: a failing disk is not modelled.
use archoncloud_go.Base.{
  ◌++◌, [], Result, ok, err, wrong_hash_length, length, ◌==◌, if◌then◌else◌, take, replicate, ◌-◌,
  ℕ,
}
use archoncloud_go.Common.Bytes.{Bytes}
use archoncloud_go.Shards.Types.{archon_hash_len}

pub record HashingWriter : Type 0 where
  pub to_data : Bytes
  pub to_hash : Bytes

abbrev pub new_hashing_writer : HashingWriter
new_hashing_writer = record { to_data = []; to_hash = [] }

abbrev pub write : HashingWriter → Bytes → HashingWriter
write w p = record { to_data = w.to_data ++ p; to_hash = w.to_hash ++ p }

abbrev pub get_hash : (Bytes → Bytes) → HashingWriter → Bytes
get_hash hash w = hash w.to_hash

-- `ArchonHashFromString`, over the third-party base58 decoder.
unfoldable pub archon_hash_from_string : (Bytes → Bytes) → Bytes → Result Bytes
archon_hash_from_string decode hs =
    let content = decode hs in
    if length content == archon_hash_len
    then ok content
    else err (wrong_hash_length (length content))

-- `copy` into a fixed array of zeros, as `NewArchonSignature`, `NewEthAddress` and
-- `GetOriginDataHash` do.
abbrev pub copy_into : ℕ → Bytes → Bytes
copy_into n src = take n (src ++ replicate (n - length src) 0)
