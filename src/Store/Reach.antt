-- ===== src/Store/Reach.antt =====
-- The keyspaces that the operations of internal/store/ops.go and expiry.go lead to.
use cache_custom.Prelude.{
  ◌<◌, ℕ, zero, suc, ◌+◌, ◌/◌, ◌%◌, ◌≡◌, true, ◌≢◌, refl, sym, ap, ◌∙◌, subst, Bool, false, Option,
  none, some, List, [], ◌∷◌, arith, length, get_or, ◌==◌, if◌then◌else◌,
}
use cache_custom.Prelude.Int.{ℤ}
use cache_custom.Bytes.{Bytes}
use cache_custom.Dict
use cache_custom.Shard.{Entry, new_shard}
use cache_custom.Store.{Db, Config, new, make_shards}
use cache_custom.Lfu.{member}
use cache_custom.Shard.Pick.{is_some}
use cache_custom.Shard.Listed.{once, IsExact, held}
use cache_custom.Store.{shard_at, shard_index, find}
use cache_custom.Store.Homed.{IsHomed, IsTidy, IsIndexed, found}
use cache_custom.Store.Read.{get, pttl}
use cache_custom.Store.Read.Homed.{get-IsTidy, pttl-IsTidy}
use cache_custom.Store.Write.{SetOptions, set, del, exists}
use cache_custom.Store.Write.Homed.{del-IsTidy, exists-IsTidy}
use cache_custom.Store.Evict.Progress.{reads_lists}
use cache_custom.Store.Write.{SetReply}
use cache_custom.Store.Write.Ends.{set-ends}
use cache_custom.Store.Write.Sets.{set-IsTidy}
use cache_custom.Store.Expiry.{expire, persist, delete_if_expired, expire_due}
use cache_custom.Store.Expiry.Homed.{
  expire-IsTidy, persist-IsTidy, delete_if_expired-IsTidy, expire_due-IsTidy,
}
use cache_custom.Store.Incr.{incr_by}
use cache_custom.Store.Incr.Homed.{incr_by-IsTidy}

empty-shards : (n i base rem j : ℕ) → (get_or (make_shards n i base rem) j (new_shard 0)).data' ≡ []
unfolding make_shards new_shard
empty-shards zero i base rem j = refl
empty-shards (suc n) i base rem zero = refl
empty-shards (suc n) i base rem (suc j) = empty-shards n (i + 1) base rem j

length-make_shards : (n i base rem : ℕ) → length (make_shards n i base rem) ≡ n
unfolding make_shards
length-make_shards zero i base rem = refl
length-make_shards (suc n) i base rem = omega (arith, length-make_shards n (i + 1) base rem)

empty-lists :
    (n i base rem j : ℕ)
    → ((get_or (make_shards n i base rem) j (new_shard 0)).lru ≡ [])
      × ((get_or (make_shards n i base rem) j (new_shard 0)).fifo ≡ [])
unfolding make_shards new_shard
empty-lists zero i base rem j = (refl, refl)
empty-lists (suc n) i base rem zero = (refl, refl)
empty-lists (suc n) i base rem (suc j) = empty-lists n (i + 1) base rem j

lookup-empty : (k : Bytes) (d : Dict.Dict Entry) → d ≡ [] → Dict.lookup k d ≡ none
unfolding Dict.lookup
lookup-empty k [] q = refl
lookup-empty k (p ∷ d) q = absurd (cc)

none_listed : (p : Bytes → Bool) → ((j : Bytes) → p j ≡ false) → IsExact [] p
none_listed p e = record { single = unfold once in refl; holds = λ j. unfold member in sym (e j) }

module _ (cfg : Config) where
  shards_of_new : ℕ
  shards_of_new = if cfg.shard_count == 0 then 1 else cfg.shard_count

  empty-new : (i : ℕ) → (shard_at i (new cfg)).data' ≡ []
  unfolding new shards_of_new
  empty-new i =
      empty-shards shards_of_new 0 (cfg.max_memory / shards_of_new) (cfg.max_memory % shards_of_new)
        i

  lists-new : (i : ℕ) → ((shard_at i (new cfg)).lru ≡ []) × ((shard_at i (new cfg)).fifo ≡ [])
  unfolding new shards_of_new
  lists-new i =
      empty-lists shards_of_new 0 (cfg.max_memory / shards_of_new) (cfg.max_memory % shards_of_new)
        i

  some_shard-new : 0 < length (new cfg).shards
  unfolding new shards_of_new
  some_shard-new = ground (
    arith,
    length-make_shards shards_of_new 0 (cfg.max_memory / shards_of_new)
        (cfg.max_memory % shards_of_new),
  )

  no_key-new : (i : ℕ) (k : Bytes) → Dict.lookup k (shard_at i (new cfg)).data' ≡ none
  no_key-new i k = lookup-empty k (shard_at i (new cfg)).data' (empty-new i)

  found-new : (k : Bytes) → found (new cfg) k ≡ false
  unfolding find
  found-new k = ap is_some (no_key-new (shard_index k (new cfg)) k)

  new-IsTidy : IsTidy (new cfg)
  new-IsTidy = record {
    homed = record {
      some_shard = some_shard-new;
      home = λ i k e less here. absurd (some_apart (sym (no_key-new i k) ∙ here));
    };
    listed = λ i less. record {
      recency =
          subst (λ ks. IsExact ks (held (shard_at i (new cfg)).data')) (sym (lists-new i).0)
            (none_listed _ λ j. ap is_some (no_key-new i j));
      insertion =
          subst (λ ks. IsExact ks (held (shard_at i (new cfg)).data')) (sym (lists-new i).1)
            (none_listed _ λ j. ap is_some (no_key-new i j));
    };
    tracked = unfold new in λ g. (none_listed _ found-new, none_listed _ found-new);
  }
    where
      some_apart : {e : Entry} → ◌≡◌ {A = Option Entry} none (some e) → ⊥
      some_apart p = cc

-- One call on a tenant keyspace, at any time and with any argument.
pub data Step (intn : ℕ → ℕ → ℕ) (a : Db) : Db → Type 0 where
  by_get : (now : ℕ) (key : Bytes) → Step intn a (get now key a).1
  by_pttl : (now : ℕ) (key : Bytes) → Step intn a (pttl now key a).1
  by_set :
      (now : ℕ) (key value : Bytes) (opt : SetOptions)
      → Step intn a (set intn now key value opt a).1
  by_del : (now : ℕ) (keys : List Bytes) → Step intn a (del now keys a).1
  by_exists : (now : ℕ) (keys : List Bytes) → Step intn a (exists now keys a).1
  by_expire : (now now' : ℕ) (key : Bytes) (d : ℤ) → Step intn a (expire now now' key d a).1
  by_persist : (now : ℕ) (key : Bytes) → Step intn a (persist now key a).1
  by_incr :
      (now now' : ℕ) (key : Bytes) (delta : ℤ) → Step intn a (incr_by intn now now' key delta a).1
  by_expire_due : (now limit : ℕ) → Step intn a (expire_due now limit a).1
  by_delete_due : (now : ℕ) (key : Bytes) → Step intn a (delete_if_expired now key a).1

pub data Reach (intn : ℕ → ℕ → ℕ) (cfg : Config) : Db → Type 0 where
  start : Reach intn cfg (new cfg)
  next : {a b : Db} → Reach intn cfg a → Step intn a b → Reach intn cfg b

Step-IsTidy : {intn : ℕ → ℕ → ℕ} {a b : Db} → Step intn a b → IsTidy a → IsTidy b
Step-IsTidy {a = a} (by_get now key) h = get-IsTidy key a h now
Step-IsTidy {a = a} (by_pttl now key) h = pttl-IsTidy key a h now
Step-IsTidy {intn} {a} (by_set now key value opt) h = set-IsTidy key value opt intn now a h
Step-IsTidy {a = a} (by_del now keys) h = del-IsTidy now keys a h
Step-IsTidy {a = a} (by_exists now keys) h = exists-IsTidy now keys a h
Step-IsTidy {a = a} (by_expire now now' key d) h = expire-IsTidy now now' key d a h
Step-IsTidy {a = a} (by_persist now key) h = persist-IsTidy key a h now
Step-IsTidy {intn} {a} (by_incr now now' key delta) h = incr_by-IsTidy intn now now' key delta a h
Step-IsTidy {a = a} (by_expire_due now limit) h = expire_due-IsTidy now limit a h
Step-IsTidy {a = a} (by_delete_due now key) h = delete_if_expired-IsTidy key a h now

Reach-IsTidy : {intn : ℕ → ℕ → ℕ} {cfg : Config} {db : Db} → Reach intn cfg db → IsTidy db
Reach-IsTidy {cfg = cfg} start = new-IsTidy cfg
Reach-IsTidy (next r s) = Step-IsTidy s (Reach-IsTidy r)

-- On every keyspace reached from a new one by calls of Get, PTTL, Set, Del, Exists, Expire,
-- Persist, IncrBy, deleteIfExpired and the sweep of expired keys, whatever they evict, drop or
-- write, each entry stands in the shard that the hash of its key gives, so that a lookup finds it.
pub Reach-IsHomed : {intn : ℕ → ℕ → ℕ} {cfg : Config} {db : Db} → Reach intn cfg db → IsHomed db
Reach-IsHomed r = (Reach-IsTidy r).homed

-- On every keyspace reached from a new one by calls of Get, PTTL, Set, Del, Exists, Expire,
-- Persist, IncrBy, deleteIfExpired and the sweep of expired keys, whatever they evict, drop or
-- write: the recency list and the insertion list of each shard hold exactly the keys of its map,
-- each once, and under the global strategy those of the tenant hold exactly the keys of all
-- shards, each once.
pub Reach-IsIndexed : {intn : ℕ → ℕ → ℕ} {cfg : Config} {db : Db} → Reach intn cfg db → IsIndexed db
Reach-IsIndexed r = record { listed = (Reach-IsTidy r).listed; tracked = (Reach-IsTidy r).tracked }

-- On every keyspace reached from a new one by calls of Get, PTTL, Set, Del, Exists, Expire,
-- Persist, IncrBy, deleteIfExpired and the sweep of expired keys, whose policy is noeviction or
-- one of those that evict by recency or by insertion order (LRU and FIFO, of all keys or of those
-- with an expiry), the rounds given to the loop of ensureSpace are enough: a Set ends done,
-- refused or with ErrOOM.
pub set_settles :
    (intn : ℕ → ℕ → ℕ) (cfg : Config) (now : ℕ) (key value : Bytes) (opt : SetOptions) (db : Db)
    → Reach intn cfg db
    → reads_lists db.policy ≡ true
    → (set intn now key value opt db).0 ≢ SetReply.fuel
set_settles intn cfg now key value opt db r lists =
    set-ends key value opt intn now db lists (Reach-IsTidy r)
