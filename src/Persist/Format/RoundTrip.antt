-- ===== src/Persist/Format/RoundTrip.antt =====
-- Writing and reading a snapshot file (internal/persist/engine.go).
use cache_custom.Prelude.{
  ℕ, ◌^◌, ◌<◌, ◌≡◌, refl, ap, ◌∙◌, Bool, true, [], ◌∷◌, ◌++◌, length, arith, take, length-append,
}
use cache_custom.Bytes.{Bytes, dec_bytes}
use cache_custom.Persist.Format.{put_uint, get_uint, snap_magic, body_of, pack, unpack, unpack_body}

get-put_4 : (v : ℕ) → v < 2 ^ 32 → get_uint (put_uint 4 v) ≡ v
unfolding get_uint put_uint
get-put_4 v less = omega arith

get-put_8 : (v : ℕ) → v < 2 ^ 64 → get_uint (put_uint 8 v) ≡ v
unfolding get_uint put_uint
get-put_8 v less = omega arith

take_all : (xs ys : Bytes) → take (length xs) (xs ++ ys) ≡ xs
take_all [] ys = refl
take_all (x ∷ xs) ys = ap (◌∷◌ x) (take_all xs ys)

module _ (crc32 : Bytes → ℕ) (allocates : ℕ → Bool) where
  -- Past the magic and the version, a file of twenty bytes and more is read by its length and sum.
  unpack_header :
      (a b c d e f g h p q r t : ℕ) (rest : Bytes)
      → unpack crc32 allocates
          (snap_magic ++ (1 ∷ 0 ∷ 0 ∷ 0 ∷ a ∷ b ∷ c ∷ d ∷ e ∷ f ∷ g ∷ h ∷ p ∷ q ∷ r ∷ t ∷ rest))
        ≡ unpack_body crc32 allocates
            (get_uint (a ∷ b ∷ c ∷ d ∷ e ∷ f ∷ g ∷ h ∷ []))
            (get_uint (p ∷ q ∷ r ∷ t ∷ []))
            rest
  unfolding unpack dec_bytes
  unpack_header a b c d e f g h p q r t rest = ground arith

  read_body :
      (body rest : Bytes) (n s : ℕ)
      → n ≡ length body
      → s ≡ crc32 body
      → allocates (length body) ≡ true
      → unpack_body crc32 allocates n s (body ++ rest) ≡ body_of body
  unfolding unpack_body
  read_body body rest n s en es room =
      rw (en, es, take_all body rest) (ground (arith, room, length-append body rest))

  -- A snapshot file with a body shorter than 2^64 that can be allocated and a 32-bit checksum,
  -- whatever bytes follow it, is read back as that body.
  pub unpack_lem :
      (body rest : Bytes)
      → length body < 2 ^ 64
      → crc32 body < 2 ^ 32
      → allocates (length body) ≡ true
      → unpack crc32 allocates (pack crc32 body ++ rest) ≡ body_of body
  unfolding pack put_uint
  unpack_lem body rest small sum room =
      unpack_header _ _ _ _ _ _ _ _ _ _ _ _ (body ++ rest)
      ∙ read_body body rest _ _ (get-put_8 (length body) small) (get-put_4 (crc32 body) sum) room
