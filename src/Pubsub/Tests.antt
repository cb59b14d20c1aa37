-- ===== src/Pubsub/Tests.antt =====
-- A hub with two clients.
use cache_custom.Prelude.{ℕ, ◌≡◌, ◌&&◌, Bool, true, some, none, [], ◌∷◌, arith}
use cache_custom.Bytes.{Bytes, codes, dec_bytes}
use cache_custom.Sets.{has}
use cache_custom.Resp.{Value}
use cache_custom.Pubsub.{
  Hub, new_hub, new_client, channel, pattern, subscribe, subscribe_one, add_member, client_at,
  targets,
}
use cache_custom.Pubsub.Synced.{IsSynced}
use cache_custom.Pubsub.Calls.{Calls, begin, then_call, joins, subscribes, Calls-IsSynced}
use cache_custom.Pubsub.Publish.{reached, targets_lem}

abbrev two_clients : Hub
two_clients = new_client (new_client new_hub)

abbrev with_channel : Hub
with_channel = (subscribe channel 0 (codes "news" ∷ []) two_clients).1

abbrev with_pattern : Hub
with_pattern = (subscribe pattern 1 (codes "n*" ∷ []) with_channel).1

calls : Calls with_pattern
unfolding subscribe subscribe_one add_member
calls =
    then_call
      (then_call (then_call (then_call begin joins) joins)
        (subscribes channel 0 (codes "news" ∷ []) (omega arith)))
      (subscribes pattern 1 (codes "n*" ∷ []) (omega arith))

Calls-IsSynced_example : IsSynced with_pattern
Calls-IsSynced_example = Calls-IsSynced calls

abbrev matches_all : Bytes → Bytes → Bool
matches_all p ch = true

abbrev accepts_all : ℕ → Value → Bool
accepts_all c v = true

targets_lem_example :
    (reached 1 none (targets matches_all accepts_all (codes "news") with_pattern)
      ≡ has dec_bytes (codes "news") (client_at 1 with_pattern).channels)
    × (reached 1 (some (codes "n*")) (targets matches_all accepts_all (codes "news") with_pattern)
        ≡ (matches_all (codes "n*") (codes "news")
            && has dec_bytes (codes "n*") (client_at 1 with_pattern).patterns))
targets_lem_example =
    targets_lem matches_all accepts_all (codes "news") 1 (codes "n*") with_pattern
      Calls-IsSynced_example
