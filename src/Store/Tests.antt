-- ===== src/Store/Tests.antt =====
-- Sequences of calls on a small keyspace.
use cache_custom.Prelude.{ℕ, ◌≡◌, ◌≢◌, refl, true}
use cache_custom.Prelude.Int.{pos}
use cache_custom.Bytes.{Bytes, codes, dec_bytes, fnv32a}
use cache_custom.Dict
use cache_custom.Shard.{add64, mem_size}
use cache_custom.Store.Space.{ensure_space}
use cache_custom.Store.Evict.Progress.{reads_lists}
use cache_custom.Policy.{allkeys_lru, name_of, parse_eviction_policy}
use cache_custom.Store.{Db, Config, new, find, is_global, shard_index}
use cache_custom.Store.Homed.{IsHomed, IsIndexed}
use cache_custom.Store.Write.{SetReply, no_options, purge, set}
use cache_custom.Store.Reach.{
  Reach, start, next, by_set, Reach-IsHomed, Reach-IsIndexed, set_settles,
}

abbrev intn : ℕ → ℕ → ℕ
intn t n = 0

abbrev config : Config
config = record {
  max_memory = 60;
  shard_count = 2;
  strategy = 1;
  policy = allkeys_lru;
  max_ttl = pos 0;
}

abbrev one_set : Db
one_set = (set intn 10 (codes "a") (codes "1") no_options (new config)).1

reaches : Reach intn config one_set
reaches = next start (by_set 10 (codes "a") (codes "1") no_options)

same_policy : reads_lists one_set.policy ≡ true
unfolding reads_lists new set name_of parse_eviction_policy dec_bytes mem_size purge find
    ensure_space is_global shard_index fnv32a add64 Dict.lookup
same_policy = refl

Reach-IsHomed_example : IsHomed one_set
Reach-IsHomed_example = Reach-IsHomed reaches

Reach-IsIndexed_example : IsIndexed one_set
Reach-IsIndexed_example = Reach-IsIndexed reaches

-- The other key has to go.
abbrev wide : Bytes
wide = codes "01234567890123456789"

set_settles_example : (set intn 11 (codes "b") wide no_options one_set).0 ≢ SetReply.fuel
set_settles_example =
    set_settles intn config 11 (codes "b") wide no_options one_set reaches same_policy
