-- ===== src/Policy.antt =====
-- Eviction policies: internal/store/policy.go.
use cache_custom.Prelude.{Bool, true, false, Option, none, some, [], if◌then◌else◌, ite}
use cache_custom.Bytes.{Bytes, codes, dec_bytes, to_lower, trim_space}

-- A policy is a string in the program. `other` stands for every string that is none of the ten.
pub data EvictionPolicy : Type 0 where
  noeviction allkeys_lru allkeys_lfu allkeys_random allkeys_fifo : EvictionPolicy
  volatile_lru volatile_lfu volatile_random volatile_ttl volatile_fifo : EvictionPolicy
  other : Bytes → EvictionPolicy

unfoldable pub policy_of : Bytes → EvictionPolicy
policy_of s = ite (dec_bytes s (codes "noeviction")) noeviction (
    ite (dec_bytes s (codes "allkeys-lru")) allkeys_lru (
      ite (dec_bytes s (codes "allkeys-lfu")) allkeys_lfu (
        ite (dec_bytes s (codes "allkeys-random")) allkeys_random (
          ite (dec_bytes s (codes "allkeys-fifo")) allkeys_fifo (
            ite (dec_bytes s (codes "volatile-lru")) volatile_lru (
              ite (dec_bytes s (codes "volatile-lfu")) volatile_lfu (
                ite (dec_bytes s (codes "volatile-random")) volatile_random (
                  ite (dec_bytes s (codes "volatile-ttl")) volatile_ttl
                    (ite (dec_bytes s (codes "volatile-fifo")) volatile_fifo (other s))))))))))

unfoldable pub name_of : EvictionPolicy → Bytes
name_of noeviction = codes "noeviction"
name_of allkeys_lru = codes "allkeys-lru"
name_of allkeys_lfu = codes "allkeys-lfu"
name_of allkeys_random = codes "allkeys-random"
name_of allkeys_fifo = codes "allkeys-fifo"
name_of volatile_lru = codes "volatile-lru"
name_of volatile_lfu = codes "volatile-lfu"
name_of volatile_random = codes "volatile-random"
name_of volatile_ttl = codes "volatile-ttl"
name_of volatile_fifo = codes "volatile-fifo"
name_of (other s) = s

accept_known : EvictionPolicy → Option EvictionPolicy
accept_known (other s) = ite (dec_bytes s []) (some allkeys_lru) none
accept_known p = some p

-- Case and outer spaces do not count; the empty name is the default.
unfoldable pub parse_eviction_policy : Bytes → Option EvictionPolicy
unfolding accept_known policy_of to_lower trim_space
parse_eviction_policy s = accept_known (policy_of (to_lower (trim_space s)))

unfoldable pub volatile_only : EvictionPolicy → Bool
volatile_only volatile_lru = true
volatile_only volatile_lfu = true
volatile_only volatile_random = true
volatile_only volatile_ttl = true
volatile_only volatile_fifo = true
volatile_only p = false

-- `noeviction` is compared as a whole string, so no other spelling is it.
unfoldable pub is_noeviction : EvictionPolicy → Bool
is_noeviction noeviction = true
is_noeviction p = false

-- `eligible`, from whether the entry has an expiry.
unfoldable pub eligible : EvictionPolicy → Bool → Bool
unfolding volatile_only
eligible p has_ttl = if volatile_only p then has_ttl else true
