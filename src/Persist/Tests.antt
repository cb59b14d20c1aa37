-- ===== src/Persist/Tests.antt =====
-- A save of one key while it is written again, and a file that is read back.
use cache_custom.Prelude.{◌⊎◌}
use cache_custom.Prelude.Int.{pos}
use cache_custom.Policy.{allkeys_lru}
use cache_custom.Shard.{add64}
use cache_custom.Store.{Config, new, shard_index, Mutation, set_op}
use cache_custom.Store.Write.{set}
use cache_custom.Persist.Log.{line_of, apply_aof}
use cache_custom.Persist.Absorb.{effect, act}
use cache_custom.Persist.Seen.{seen}
use cache_custom.Persist.Effects.{MayEvict, apply_aof_lem}
use cache_custom.Bytes.{fnv32a, dec_bytes}
use cache_custom.Prelude.{
  ℕ, ◌≡◌, refl, Bool, true, false, Option, none, some, List, [], ◌∷◌, ◌++◌, arith,
}
use cache_custom.Bytes.{Bytes, codes}
use cache_custom.Numbers.{wrap64}
use cache_custom.Persist.Mode.{mode_aof, mode_both, fsync_always}
use cache_custom.Persist.Format.{pack, unpack, body_of}
use cache_custom.Persist.Format.RoundTrip.{unpack_lem}
use cache_custom.Persist.Log.{AofLine, unix_nano, set_line}
use cache_custom.Persist.Engine.{
  Engine, SnapTenant, OsCall, new_engine, export_lines, record_lines, bytes_of, save_while,
}
use cache_custom.Persist.Absorb.{replay}
use cache_custom.Persist.Complete.{
  Gathered, snapshot_lines, SameData, snapshot_of, packed_of, rewrite_complete, hybrid_complete,
}

abbrev all_zero : Bytes → ℕ
all_zero b = 0

abbrev any_length : ℕ → Bool
any_length n = true

unpack_lem_example :
    unpack all_zero any_length (pack all_zero (codes "[]") ++ codes "rest") ≡ body_of (codes "[]")
unpack_lem_example =
    unpack_lem all_zero any_length (codes "[]") (codes "rest") (omega arith) (omega arith) refl

abbrev first : AofLine
first = set_line (codes "t") (codes "k") (codes "1") none

abbrev second : AofLine
second = set_line (codes "t") (codes "k") (codes "2") none

-- The key is read before it is written again.
abbrev gathered : List SnapTenant
gathered =
    record {
      name = codes "t";
      keys = record { key = codes "k"; value = codes "1"; expires_at = none; freq = 1 } ∷ [];
    }
    ∷ []

abbrev key_only : AofLine → Bytes
key_only l = l.key

abbrev no_body : List SnapTenant → Bytes
no_body ts = []

-- The last rename fails.
abbrev works : OsCall → Bool
works OsCall.rename_delta = false
works c = true

abbrev engine : Engine
engine = record (new_engine mode_aof fsync_always (some (codes "k\n")) none) { aof = true }

gathered-Gathered : Gathered (export_lines gathered) (first ∷ []) (second ∷ [])
unfolding replay export_lines record_lines set_line
gathered-Gathered t k = ([], second ∷ [], refl, refl)

snapshot-Gathered : Gathered (snapshot_lines gathered) (first ∷ []) (second ∷ [])
unfolding replay snapshot_lines set_line unix_nano
snapshot-Gathered t k = ([], second ∷ [], refl, refl)

rewrite_complete_example :
    (lines : List AofLine) × ((save_while works key_only no_body all_zero 5 gathered
        (second ∷ [])
        []
        engine).1.aof_file
      ≡ some (bytes_of works key_only no_body all_zero lines))
    × SameData lines (first ∷ second ∷ [])
unfolding bytes_of set_line
rewrite_complete_example =
    rewrite_complete works key_only no_body all_zero refl refl 5 gathered (second ∷ []) [] engine
      (first ∷ []) refl refl refl refl gathered-Gathered

abbrev hybrid : Engine
hybrid = record (new_engine mode_both fsync_always (some (codes "k\n")) none) { aof = true }

hybrid_complete_example :
    (base : Option (List SnapTenant)) × (lines : List AofLine) × ((save_while works key_only no_body
        all_zero 5 gathered
        (second ∷ [])
        []
        hybrid).1.snap_file
      ≡ packed_of no_body all_zero base)
    × ((save_while works key_only no_body all_zero 5 gathered (second ∷ []) [] hybrid).1.aof_file
        ≡ some (bytes_of works key_only no_body all_zero lines))
    × SameData (snapshot_of base ++ lines) (first ∷ second ∷ [])
unfolding bytes_of set_line
hybrid_complete_example =
    hybrid_complete works key_only no_body all_zero refl refl 5 gathered (second ∷ []) [] hybrid
      none (first ∷ []) refl refl refl refl refl snapshot-Gathered

abbrev zeros : ℕ → ℕ → ℕ
zeros n m = 0

abbrev small : Config
small = record {
  max_memory = 600;
  shard_count = 1;
  strategy = 1;
  policy = allkeys_lru;
  max_ttl = pos 0;
}

abbrev one_write : Mutation
one_write = set_op (codes "k") (codes "1") (some 9)

apply_aof_lem_example :
    (seen 5 (codes "k") (apply_aof zeros 5 5 (line_of (codes "t") one_write) (new small)).1
      ≡ act
          (effect (codes "t") (codes "k") (line_of (codes "t") one_write))
          (seen 5 (codes "k") (new small)))
    ⊎ (MayEvict one_write (codes "k")
        × (seen 5 (codes "k") (apply_aof zeros 5 5 (line_of (codes "t") one_write) (new small)).1
            ≡ none))
unfolding new apply_aof set add64 shard_index fnv32a dec_bytes line_of set_line unix_nano wrap64
apply_aof_lem_example =
    apply_aof_lem zeros 5 (codes "t") (codes "k") one_write (new small) (omega arith) refl refl
      (omega arith, omega arith) refl
