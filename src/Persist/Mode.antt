-- ===== src/Persist/Mode.antt =====
-- Durability modes and fsync policies: internal/persist/mode.go.
use cache_custom.Prelude.{Option, none, some, [], ite}
use cache_custom.Bytes.{Bytes, codes, dec_bytes, to_lower, trim_space}

pub data Mode : Type 0 where
  mode_none mode_snapshot mode_aof mode_both : Mode

pub data FsyncPolicy : Type 0 where
  fsync_always fsync_everysec fsync_no : FsyncPolicy

mode_named : Bytes → Option Mode
unfolding dec_bytes
mode_named s = ite (dec_bytes s (codes "none")) (some mode_none) (
    ite (dec_bytes s (codes "snapshot")) (some mode_snapshot) (
      ite (dec_bytes s (codes "aof")) (some mode_aof) (
        ite (dec_bytes s (codes "snapshot+aof")) (some mode_both)
          (ite (dec_bytes s []) (some mode_none) none))))

unfoldable pub parse_mode : Bytes → Option Mode
unfolding mode_named to_lower trim_space
parse_mode s = mode_named (to_lower (trim_space s))

fsync_named : Bytes → FsyncPolicy
unfolding dec_bytes
fsync_named s =
    ite (dec_bytes s (codes "always")) fsync_always
      (ite (dec_bytes s (codes "no")) fsync_no fsync_everysec)

unfoldable pub parse_fsync : Bytes → FsyncPolicy
unfolding fsync_named to_lower trim_space
parse_fsync s = fsync_named (to_lower (trim_space s))
