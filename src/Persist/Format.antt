-- ===== src/Persist/Format.antt =====
-- The snapshot file: internal/persist/engine.go.
pub mod RoundTrip
use cache_custom.Prelude.{
  ℕ, zero, suc, ◌+◌, ◌*◌, ◌/◌, ◌%◌, Bool, true, false, not, List, [], ◌∷◌, ◌++◌, ltb, ◌==◌,
  if◌then◌else◌, ite, length, take, skip,
}
use cache_custom.Bytes.{Bytes, codes, dec_bytes}
use cache_custom.Persist.Log.{LoadError, bad_header, bad_magic, bad_version, bad_body, bad_checksum}

-- binary.LittleEndian, at a width in bytes.
unfoldable pub put_uint : ℕ → ℕ → Bytes
put_uint zero v = []
put_uint (suc w) v = v % 256 ∷ put_uint w (v / 256)

unfoldable pub get_uint : Bytes → ℕ
get_uint [] = 0
get_uint (b ∷ bs) = b + 256 * get_uint bs

abbrev pub snap_magic : Bytes
snap_magic = codes "CCSN"

abbrev pub snap_version : ℕ
snap_version = 1

-- `panics` is the end of the process: the body cannot be allocated.
pub data Unpacked : Type 0 where
  body_of : Bytes → Unpacked
  refuses : LoadError → Unpacked
  panics : Unpacked

-- `crc32` is `crc32.ChecksumIEEE`, and `allocates` tells of a length whether `make` can have it.
module _ (crc32 : Bytes → ℕ) where
  unfoldable pub pack : Bytes → Bytes
  unfolding put_uint
  pack body =
      snap_magic
      ++ (put_uint 4 snap_version
          ++ (put_uint 8 (length body) ++ (put_uint 4 (crc32 body) ++ body)))

  module _ (allocates : ℕ → Bool) where
    pub unpack_body : ℕ → ℕ → Bytes → Unpacked
    unpack_body n sum rest =
        if not (allocates n)
        then panics
        else if ltb (length rest) n
        then refuses bad_body
        else if crc32 (take n rest) == sum
        then body_of (take n rest)
        else refuses bad_checksum

    unfoldable pub unpack : Bytes → Unpacked
    unfolding unpack_body get_uint dec_bytes
    unpack file =
        if ltb (length file) 20
        then refuses bad_header
        else ite (dec_bytes (take 4 file) snap_magic)
            (if get_uint (take 4 (skip 4 file)) == snap_version
              then unpack_body (get_uint (take 8 (skip 8 file))) (get_uint (take 4 (skip 16 file)))
                  (skip 20 file)
              else refuses bad_version)
            (refuses bad_magic)
