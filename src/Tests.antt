-- ===== src/Tests.antt =====
-- Runs of the model on concrete data, and the theorems at inputs where their hypotheses hold.
use cache_custom.Prelude.{
  ℕ, ◌+◌, ◌≤◌, ◌<◌, ◌≡◌, ◌≢◌, refl, true, none, some, [], ◌∷◌, arith, length, ℕ_discrete, ite, ◌*◌,
  min, ◌-◌, ◌/◌, if◌then◌else◌,
}
use cache_custom.Prelude.Int.{pos, negsuc}
use cache_custom.Bytes.{Bytes, codes, dec_bytes, fnv32a}
use cache_custom.Dict
use cache_custom.Heap
use cache_custom.Heap.{Heap}
use cache_custom.Heap.Index.{Updates}
use cache_custom.Heap.Valid
use cache_custom.Lfu.{member, first_ok}
use cache_custom.Numbers.{wrap64, parse_int, format_int, is_int64}
use cache_custom.Policy.{allkeys_lru, name_of, parse_eviction_policy}
use cache_custom.Shard.{add64, mem_size, ttl_update, ttl_remove, drop}
use cache_custom.Shard.Pick.{pick_local_victim}
use cache_custom.Store.{Db, Config, new, find, live, shard_index, is_global, count_keys}
use cache_custom.Store.Evict.{evict_one_local}
use cache_custom.Store.Shrinks.{Shrinks}
use cache_custom.Store.Space.{ensure_space, ok}
use cache_custom.Store.Space.Bound.{ensure_space-Shrinks}
use cache_custom.Store.Write.{SetOptions, no_options, purge, done, refused, err_oom, set, del}
use cache_custom.Store.Write.Laws.{set-refused, set-oom, blocked}
use cache_custom.Store.Write.Fits.{IsWithin, size_of, set-IsWithin}
use cache_custom.Store.Write.Remove.{one_if, count_live_keys, del_lem}
use cache_custom.Store.Read.{get, pttl, ttl, max_duration}
use cache_custom.Store.Read.Laws.{value_of, SameEntry, get_lem, pttl_lem, ttl_rounds_up}
use cache_custom.Store.Incr
use cache_custom.Store.Incr.{incr_by}
use cache_custom.Store.Incr.Laws.{Counted, number_of, incr_by_lem}
use cache_custom.Store.Expiry.{cap_duration, expire, persist}
use cache_custom.Store.Expiry.Laws.{with_expiry, one_if_expiring, expire_pos, persist_lem}

program : Unit {0}
unfolding count_keys evict_one_local first_ok dec_bytes fnv32a ℕ_discrete Dict.lookup Dict.insert
    Dict.delete Heap.note Heap.clear add64 mem_size ttl_update ttl_remove drop name_of
    parse_eviction_policy new find live shard_index set get pttl ttl del expire persist purge
    pick_local_victim ensure_space is_global parse_int format_int is_int64 incr_by wrap64
program = tt

abbrev intn : ℕ → ℕ → ℕ
intn t n = 0

-- One shard of 60 bytes: two small entries fit.
abbrev config : Config
config = record {
  max_memory = 60;
  shard_count = 1;
  strategy = 3;
  policy = allkeys_lru;
  max_ttl = pos 0;
}

abbrev db0 : Db
db0 = new config

abbrev key_a : Bytes
key_a = codes "a"

abbrev key_b : Bytes
key_b = codes "b"

abbrev one : Bytes
one = codes "1"

abbrev in_a_second : SetOptions
in_a_second = record no_options { ex = pos 1_000_000_000 }

abbrev only_new : SetOptions
only_new = record no_options { nx = true }

-- After SET a 1 EX 1.
abbrev db1 : Db
db1 = (set intn 10 key_a one in_a_second db0).1

-- Three entries of 26 bytes do not fit: the least recent goes.
abbrev db3 : Db
db3 = (set intn 12 (codes "c") one no_options (set intn 11 key_b one no_options db1).1).1

evicted :
    ((get 13 key_a db3).0 ≡ none)
    × ((get 13 key_b db3).0 ≡ some one)
    × (db3.used ≡ 52)
    × (db3.evictions ≡ 1)
unfolding program
evicted = (refl, refl, refl, refl)

has_shards1 : 0 < length db1.shards
unfolding program
has_shards1 = omega arith

nx_refused : (set intn 11 key_a one only_new db1).0 ≡ refused
unfolding program
nx_refused = refl

set-refused_example :
    (blocked only_new (live 11 key_a db1) ≡ true)
    × ((set intn 11 key_a one only_new db1).1 ≡ purge 11 key_a db1)
set-refused_example = set-refused intn key_a one only_new 11 db1 has_shards1 nx_refused

abbrev wide : Bytes
wide = codes "01234567890123456789"

-- 25 bytes and 60 more pass the budget of the shard.
abbrev large : Bytes
large = codes "0123456789012345678901234567890123456789"

oom_a : (set intn 11 key_a large no_options db1).0 ≡ err_oom
unfolding program
oom_a = refl

set-oom_example : live 11 key_a (set intn 11 key_a large no_options db1).1 ≡ live 11 key_a db1
set-oom_example = set-oom intn key_a large no_options 11 db1 has_shards1 oom_a

get_lem_example :
    ((get 11 key_a db1).0 ≡ value_of (live 11 key_a db1))
    × SameEntry (live 11 key_a db1) (find key_a (get 11 key_a db1).1)
    × ((j : Bytes) → key_a ≢ j → find j (get 11 key_a db1).1 ≡ find j db1)
get_lem_example = get_lem 11 key_a db1 has_shards1

del_lem_example :
    ((del 11 (key_a ∷ key_b ∷ key_a ∷ []) db1).0
      ≡ count_live_keys 11 [] (key_a ∷ key_b ∷ key_a ∷ []) db1)
    × ((j : Bytes)
        → find j (del 11 (key_a ∷ key_b ∷ key_a ∷ []) db1).1
          ≡ (if member j (key_a ∷ key_b ∷ key_a ∷ []) then none else find j db1))
del_lem_example = del_lem 11 (key_a ∷ key_b ∷ key_a ∷ []) db1 has_shards1

expire_pos_example :
    ((expire 11 12 key_a (pos 500) db1).0 ≡ one_if (live 12 key_a db1))
    × ((j : Bytes)
        → find j (expire 11 12 key_a (pos 500) db1).1
          ≡ ite
              (dec_bytes key_a j)
              (with_expiry (some (11 + cap_duration db1.max_ttl (pos 500))) (live 12 key_a db1))
              (find j db1))
expire_pos_example = expire_pos key_a db1 has_shards1 11 12 (pos 500) refl

persist_lem_example :
    ((persist 11 key_a db1).0 ≡ one_if_expiring (live 11 key_a db1))
    × ((j : Bytes)
        → find j (persist 11 key_a db1).1
          ≡ ite (dec_bytes key_a j) (with_expiry none (live 11 key_a db1)) (find j db1))
persist_lem_example = persist_lem key_a db1 has_shards1 11

pttl_lem_example :
    ((pttl 11 key_a db1).0 ≡ elim (live 11 key_a db1) [
      | none ↦ negsuc 1
      | some e ↦ elim e.expires_at [
        | none ↦ negsuc 0
        | some t ↦ pos (min (t - 11) max_duration / 1000000)
      ]
    ])
    × ((j : Bytes) → key_a ≢ j → find j (pttl 11 key_a db1).1 ≡ find j db1)
pttl_lem_example = pttl_lem 11 key_a db1 has_shards1

ms_left : (pttl 20 key_a db1).0 ≡ pos 999
unfolding program
ms_left = refl

ttl_rounds_up_example :
    (s : ℕ) × ((ttl 20 key_a db1).0 ≡ pos s) × (999 ≤ 1000 * s) × (1000 * s < 999 + 1000)
ttl_rounds_up_example = ttl_rounds_up 20 key_a db1 999 ms_left

makes_room : (ensure_space intn 0 key_b 50 50 db1).0 ≡ ok
unfolding program
makes_room = refl

-- The entry of the other key is evicted.
evicts_a : (set intn 11 key_b wide no_options db1).0 ≡ done
unfolding program
evicts_a = refl

no_entry_b : size_of (live 11 key_b db1) ≤ mem_size key_b wide
unfolding program
no_entry_b = omega arith

set-IsWithin_example : IsWithin key_b (set intn 11 key_b wide no_options db1).1
set-IsWithin_example =
    set-IsWithin key_b wide no_options intn 11 db1 has_shards1 no_entry_b evicts_a

ensure_space-Shrinks_example : Shrinks key_b db1 (ensure_space intn 0 key_b 50 50 db1).1
ensure_space-Shrinks_example = ensure_space-Shrinks intn 0 key_b 50 50 db1 has_shards1

abbrev heap1 : Heap
heap1 = Heap.note key_a (some 7) Heap.empty

heap1-IsValid : Valid.IsValid heap1
heap1-IsValid = Valid.note-IsValid key_a (some 7) Heap.empty Valid.empty-IsValid

note_lem_example :
    Valid.IsValid (Heap.note key_b (some 5) heap1)
    × Updates (Heap.note key_b (some 5) heap1) heap1 key_b (some 5)
note_lem_example = Valid.note_lem key_b (some 5) heap1 heap1-IsValid

counts_to_six : (incr_by intn 11 11 key_a (pos 5) db1).0 ≡ Incr.value (pos 6)
unfolding program
counts_to_six = refl

incr_by_lem_example :
    Counted
      (number_of (live 11 key_a db1))
      (pos 5)
      (pos 6)
      (value_of (find key_a (incr_by intn 11 11 key_a (pos 5) db1).1))
incr_by_lem_example = incr_by_lem intn 11 11 key_a (pos 5) (pos 6) db1 has_shards1 counts_to_six
