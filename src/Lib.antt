-- ===== src/Lib.antt =====
-- A model of cache-custom, a multi-tenant in-memory string store that speaks the Redis protocol.
--
-- Each tenant has a keyspace (internal/store): a set of shards, each with a map, a memory counter and
-- the indexes from which an eviction policy picks its victims, under a memory limit, one of three
-- strategies, an expiry heap and a sink of mutations. A connection reads commands by the protocol
-- (internal/protocol), and the dispatch (internal/command) runs them on the keyspace and on the
-- Pub/Sub hub (internal/pubsub) of the tenant that it is bound to (internal/tenant). The sink writes
-- the mutations to an append-only file, which a save rewrites and a start replays (internal/persist).
--
-- Bytes        Go strings as lists of bytes; the FNV-1a hash that chooses a shard.
-- Numbers      the wrap-around of int64, and helpers for decimal numbers (strconv).
-- Dict         Go maps with string keys, as association lists.
-- Heap         the min-heap of deadlines of expiry.go. The tenant (expH, expIdx) and each shard
--              (ttlH, ttlIdx) run the same code, so both use this module.
-- Policy       policy.go. A policy is a string there; `other` is every string with no policy.
-- Lfu          lfu.go and lru.go: linked lists are lists of keys in the order of their links.
--              Order, Buckets, Occurs, Valid and Victim say what the frequency buckets do.
-- Shard        the state of one shard, with random.go (Random) and the choice of a victim by
--              evict.go (Pick).
-- Store        the state `Db` of store.go. Its children are the operations of ops.go, evict.go,
--              expiry.go and snapshot.go: Evict, Space (ensureSpace), Write (Set, Del, Exists), Read
--              (Get, PTTL, TTL, Type), Expiry (Expire, Persist, expireDue), Incr (IncrBy) and Snapshot.
--              Find and Shrinks say what the steps do to the entries of the map; Homed and Reach are
--              about the keyspaces that any calls lead to, with the lists of the keys in Shard.Listed.
-- Resp         internal/protocol/resp.go: values, Write, Read and ReadCommand. Lines, RoundTrip, Total
--              and Commands say what they do.
-- Tenant       internal/tenant/registry.go: tenants, login (Login) and connection slots (Slots).
-- Access       internal/command/policy.go: which commands a connection may run (Gate).
-- Pubsub       internal/pubsub/hub.go: subscriptions and the recipients of a message, over Sets (Go
--              maps used as sets). Synced and Calls are about the two sides of a
--              subscription, Publish about the recipients.
-- Persist      internal/persist: Mode (mode.go), Format (the snapshot file), Log (the lines of the
--              append-only file and applyAOF), Engine (appends, and SaveSnapshot while other
--              goroutines append), Load. Window and Complete are about a save, with Absorb, where
--              a line has an effect on a key, Seen and Effects about applyAOF.
-- Command      internal/command: context.go here, Strings, Auth, Channels (pubsub.go) and Dispatch
--              (registry.go). A connection's Context and the shared World go from command to command;
--              Isolation is about what a command may touch, SetGet about SET and GET.
-- Tests        runs on concrete data; Lfu, Resp, Tenant, Access, Store, Pubsub, Persist and Command
--              have their own.
--
-- An operation is a function from the state to its reply and the new state. The clock is an
-- argument, in nanoseconds, and the zero time is `none`; an operation that reads the clock twice
-- takes two times. rand.Intn is the parameter `intn`, a function of the number of the call and of the
-- bound. Every index names an entry by its key; a picker asks the map only for the expiry of an entry,
-- and takes a key that the map has lost for one that may go. The deadlines of the append-only file are
-- int64 numbers. Additions of memory counters are modulo 2^64, and a subtraction stops at 0 where the
-- code makes it stop.
--
-- Loops recur on lists or on fuel. sift_up has one round for each place above its start, sift_down
-- one for each item, and ttl_pick one for each item, since a round moves up, moves down or removes an
-- item. The loop of ensureSpace has a round for each key and for each item of the global list, since
-- an eviction removes one of them where the indexes list the keys of the maps, which is shown of the
-- lists and not of the random array and the frequency buckets; running out is an outcome of its own.
-- print_onto has twenty rounds, for the digits of 64 bits.
-- Read recurs on fuel, one more than the bytes of the input, since an array that is entered takes a byte.
--
-- Parameters of the model: rand.Intn, path.Match, encoding/json, crc32, bufio.Scanner, which calls of
-- the operating system succeed, which lengths can be allocated, and which writes a client accepts.
--
-- Not modelled: locks and what other goroutines do between them (an operation runs as one step,
-- but for a save, in which others append), the tickers, temporary files, and the packages around the
-- store: the commands INFO, TENANTSTATS, SAVE, BGSAVE and LASTSAVE, the server, metrics and configuration.
pub mod Prelude
pub mod Bytes
pub mod Numbers
pub mod Dict
pub mod Sets
pub mod Heap
pub mod Policy
pub mod Lfu
pub mod Shard
pub mod Store
pub mod Resp
pub mod Tenant
pub mod Access
pub mod Pubsub
pub mod Persist
pub mod Command
mod Tests
