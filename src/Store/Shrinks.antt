-- ===== src/Store/Shrinks.antt =====
-- The relation between the keyspace before and after an eviction.
use cache_custom.Prelude.{ℕ, ◌≡◌, refl, ◌∙◌, ◌⊎◌, inl, Option, none, List, length, arith}
use cache_custom.Prelude.Int.{ℤ}
use cache_custom.Bytes.{Bytes}
use cache_custom.Policy.{EvictionPolicy}
use cache_custom.Store.{Db, Strategy, Mutation, find, shard_at}

-- What no eviction changes: the configuration, and what the sink was given.
pub record Settings : Type 0 where
  pub max_memory : ℕ
  pub strategy : Strategy
  pub policy : EvictionPolicy
  pub max_ttl : ℤ
  pub sink : Option (List Mutation)

abbrev pub settings : Db → Settings
settings db = record {
  max_memory = db.max_memory;
  strategy = db.strategy;
  policy = db.policy;
  max_ttl = db.max_ttl;
  sink = db.sink;
}

-- `b` is `a`, but for the expiry heaps and the counters: the same maps and the same lists under the
-- same configuration.
pub record Same (a b : Db) : Type 0 where
  pub size : length b.shards ≡ length a.shards
  pub conf : settings b ≡ settings a
  pub finds : (j : Bytes) → find j b ≡ find j a
  pub maps : (i : ℕ) → (shard_at i b).data' ≡ (shard_at i a).data'
  pub lists :
      (i : ℕ)
      → ((shard_at i b).lru ≡ (shard_at i a).lru) × ((shard_at i b).fifo ≡ (shard_at i a).fifo)
  pub globals : (b.g_lru ≡ a.g_lru) × (b.g_fifo ≡ a.g_fifo)

-- `b` is `a` with some keys gone, `skip` not among them.
pub record Shrinks (skip : Bytes) (a b : Db) : Type 0 where
  pub size : length b.shards ≡ length a.shards
  pub conf : settings b ≡ settings a
  pub kept : find skip b ≡ find skip a
  pub others : (j : Bytes) → (find j b ≡ find j a) ⊎ (find j b ≡ none)

pub Same-refl : (a : Db) → Same a a
Same-refl a = record {
  size = refl;
  conf = refl;
  finds = λ j. refl;
  maps = λ i. refl;
  lists = λ i. (refl, refl);
  globals = (refl, refl);
}

pub Same-trans : {a b c : Db} → Same a b → Same b c → Same a c
Same-trans s t = record {
  size = t.size ∙ s.size;
  conf = t.conf ∙ s.conf;
  finds = λ j. t.finds j ∙ s.finds j;
  maps = λ i. t.maps i ∙ s.maps i;
  lists = λ i. ((t.lists i).0 ∙ (s.lists i).0, (t.lists i).1 ∙ (s.lists i).1);
  globals = (t.globals.0 ∙ s.globals.0, t.globals.1 ∙ s.globals.1);
}

pub Same-Shrinks : {skip : Bytes} {a b : Db} → Same a b → Shrinks skip a b
Same-Shrinks {skip} s = record {
  size = s.size;
  conf = s.conf;
  kept = s.finds skip;
  others = λ j. inl (s.finds j);
}

pub Shrinks-trans :
    {skip : Bytes} {a b c : Db} → Shrinks skip a b → Shrinks skip b c → Shrinks skip a c
Shrinks-trans s t = record {
  size = t.size ∙ s.size;
  conf = t.conf ∙ s.conf;
  kept = t.kept ∙ s.kept;
  others = λ j. ground (arith, s.others j, t.others j);
}
