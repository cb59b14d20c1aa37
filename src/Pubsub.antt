-- ===== src/Pubsub.antt =====
-- Subscriptions to channels and patterns, and the delivery of messages: internal/pubsub/hub.go. A
-- client is named by its place in the list of all clients of the hub.
pub mod Synced
pub mod Calls
pub mod Publish
mod Tests
use cache_custom.Prelude.{
  ℕ, zero, suc, ◌+◌, Bool, true, false, not, ◌&&◌, ◌||◌, Option, none, some, List, [], ◌∷◌, ◌++◌,
  if◌then◌else◌, ite, length, get_or, set, ℕ_discrete, ltb,
}
use cache_custom.Prelude.Int.{pos}
use cache_custom.Bytes.{Bytes, codes, dec_bytes}
use cache_custom.Dict
use cache_custom.Dict.{Dict}
use cache_custom.Sets.{has, remove, put}
use cache_custom.Tenant.{is_empty_text}
use cache_custom.Resp.{Value, bulk_string, integer, array, nil, cons}

pub record Client : Type 0 where
  pub channels : List Bytes
  pub patterns : List Bytes
  pub closed : Bool

pub record Hub : Type 0 where
  pub by_channel : Dict (List ℕ)
  pub by_pattern : Dict (List ℕ)
  pub clients : List Client

abbrev pub new_hub : Hub
new_hub = record { by_channel = []; by_pattern = []; clients = [] }

abbrev pub no_client : Client
no_client = record { channels = []; patterns = []; closed = false }

-- The new client is the last one.
abbrev pub new_client : Hub → Hub
new_client h = record h { clients = h.clients ++ no_client ∷ [] }

-- Channels and patterns are kept in the same way, in two maps of the hub and two of the client.
pub data Kind : Type 0 where
  channel pattern : Kind

abbrev pub client_at : ℕ → Hub → Client
client_at c h = get_or h.clients c no_client

abbrev pub topics : Kind → Client → List Bytes
topics channel c = c.channels
topics pattern c = c.patterns

abbrev pub registry : Kind → Hub → Dict (List ℕ)
registry channel h = h.by_channel
registry pattern h = h.by_pattern

abbrev pub set_topics : Kind → List Bytes → Client → Client
set_topics channel ts c = record c { channels = ts }
set_topics pattern ts c = record c { patterns = ts }

abbrev pub set_registry : Kind → Dict (List ℕ) → Hub → Hub
set_registry channel m h = record h { by_channel = m }
set_registry pattern m h = record h { by_pattern = m }

abbrev pub set_client : ℕ → Client → Hub → Hub
set_client c cl h = record h { clients = set h.clients c cl }

abbrev pub sub_count : Client → ℕ
sub_count c = length c.channels + length c.patterns

abbrev pub in_subscribe_mode : Client → Bool
in_subscribe_mode c = ltb 0 (sub_count c)

abbrev or_empty : Option (List ℕ) → List ℕ
or_empty none = []
or_empty (some cs) = cs

-- The subscribers of a topic.
unfoldable pub members : Bytes → Dict (List ℕ) → List ℕ
unfolding Dict.lookup
members t m = or_empty (Dict.lookup t m)

-- `subscribeChannel`, `psubscribePattern`
unfoldable pub add_member : Kind → ℕ → Bytes → Hub → Hub
unfolding members put Dict.insert ℕ_discrete
add_member k c t h =
    set_registry k (Dict.insert t (put ℕ_discrete c (members t (registry k h))) (registry k h)) h

-- A set that is left empty goes out of the map.
abbrev pub store_members : Bytes → List ℕ → Dict (List ℕ) → Dict (List ℕ)
store_members t [] m = Dict.delete t m
store_members t (c ∷ cs) m = Dict.insert t (c ∷ cs) m

remove_member_found : Kind → ℕ → Bytes → Option (List ℕ) → Hub → Hub
unfolding remove ℕ_discrete
remove_member_found k c t none h = h
remove_member_found k c t (some cs) h =
    set_registry k (store_members t (remove ℕ_discrete c cs) (registry k h)) h

unfoldable pub remove_member : Kind → ℕ → Bytes → Hub → Hub
unfolding remove_member_found
remove_member k c t h = remove_member_found k c t (Dict.lookup t (registry k h)) h

-- `unsubscribeChannels`, `punsubscribePatterns`
unfoldable pub remove_members : Kind → ℕ → List Bytes → Hub → Hub
unfolding remove_member
remove_members k c [] h = h
remove_members k c (t ∷ ts) h = remove_members k c ts (remove_member k c t h)

pub record SubConfirm : Type 0 where
  pub kind : Bytes
  pub name : Bytes
  pub count : ℕ

unfoldable pub to_value : SubConfirm → Value
to_value s =
    array (cons (bulk_string s.kind) (cons (bulk_string s.name) (cons (integer (pos s.count)) nil)))

abbrev pub subscribe_word : Kind → Bytes
subscribe_word channel = codes "subscribe"
subscribe_word pattern = codes "psubscribe"

abbrev pub unsubscribe_word : Kind → Bytes
unsubscribe_word channel = codes "unsubscribe"
unsubscribe_word pattern = codes "punsubscribe"

unfoldable pub subscribe_one : Kind → ℕ → Bytes → Hub → Hub
unfolding add_member put dec_bytes
subscribe_one k c t h =
    let cl = client_at c h in
    set_client c (set_topics k (put dec_bytes t (topics k cl)) cl) (add_member k c t h)

unfoldable pub unsubscribe_one : Kind → ℕ → Bytes → Hub → Hub
unfolding remove_members remove dec_bytes
unsubscribe_one k c t h =
    let cl = client_at c h in
    set_client c (set_topics k (remove dec_bytes t (topics k cl)) cl)
      (remove_members k c (t ∷ []) h)

-- An empty name is passed over.
unfoldable pub subscribe : Kind → ℕ → List Bytes → Hub → List SubConfirm × Hub
unfolding subscribe_one
subscribe k c [] h = ([], h)
subscribe k c (t ∷ ts) h =
    let h' = if is_empty_text t then h else subscribe_one k c t h in
    let (rest, h'') = subscribe k c ts h' in
    let confirm : SubConfirm = record {
      kind = subscribe_word k;
      name = t;
      count = sub_count (client_at c h');
    } in
    (if is_empty_text t then rest else confirm ∷ rest, h'')

pub unsubscribe_each : Kind → ℕ → List Bytes → Hub → List SubConfirm × Hub
unfolding unsubscribe_one
unsubscribe_each k c [] h = ([], h)
unsubscribe_each k c (t ∷ ts) h =
    let h' = unsubscribe_one k c t h in
    let (rest, h'') = unsubscribe_each k c ts h' in
    (record { kind = unsubscribe_word k; name = t; count = sub_count (client_at c h') } ∷ rest, h'')

-- No name stands for all the topics of the client.
unfoldable pub unsubscribe : Kind → ℕ → List Bytes → Hub → List SubConfirm × Hub
unfolding unsubscribe_each
unsubscribe k c [] h = unsubscribe_each k c (topics k (client_at c h)) h
unsubscribe k c (t ∷ ts) h = unsubscribe_each k c (t ∷ ts) h

abbrev closed_client : Client
closed_client = record { channels = []; patterns = []; closed = true }

unfoldable pub close : ℕ → Hub → Hub
unfolding remove_members
close c h =
    let cl = client_at c h in
    let h' = set_client c closed_client h in
    if cl.closed
    then h
    else remove_members pattern c cl.patterns (remove_members channel c cl.channels h')

-- A recipient, with the pattern that made it one.
abbrev pub Target : Type 0
Target = ℕ × Option Bytes

unfoldable pub as_targets : Option Bytes → List ℕ → List Target
as_targets p [] = []
as_targets p (c ∷ cs) = (c, p) ∷ as_targets p cs

message : Bytes → Bytes → Option Bytes → Value
message ch msg none =
    array
      (cons (bulk_string (codes "message")) (cons (bulk_string ch) (cons (bulk_string msg) nil)))
message ch msg (some p) = array (
    cons (bulk_string (codes "pmessage"))
      (cons (bulk_string p) (cons (bulk_string ch) (cons (bulk_string msg) nil))))

-- `matches` is `path.Match` without an error, and `accepts` tells whether the connection of a
-- client takes a value.
module _ (matches : Bytes → Bytes → Bool) (accepts : ℕ → Value → Bool) where
  unfoldable pub pattern_targets : Bytes → Dict (List ℕ) → List Target
  unfolding as_targets
  pattern_targets ch [] = []
  pattern_targets ch ((p, cs) ∷ m) =
      if matches p ch then as_targets (some p) cs ++ pattern_targets ch m else pattern_targets ch m

  unfoldable pub targets : Bytes → Hub → List Target
  unfolding pattern_targets members as_targets
  targets ch h = as_targets none (members ch h.by_channel) ++ pattern_targets ch h.by_pattern

  pub delivers : Bytes → Bytes → Hub → Target → Bool
  unfolding message
  delivers ch msg h (c, p) = not (client_at c h).closed && accepts c (message ch msg p)

  unfoldable pub count_delivered : Bytes → Bytes → Hub → List Target → ℕ
  unfolding delivers
  count_delivered ch msg h [] = 0
  count_delivered ch msg h (t ∷ ts) =
      (if delivers ch msg h t then 1 else 0) + count_delivered ch msg h ts

  unfoldable pub publish : Bytes → Bytes → Hub → ℕ
  unfolding count_delivered targets
  publish ch msg h = count_delivered ch msg h (targets ch h)

  -- PUBSUB CHANNELS; the empty pattern stands for all.
  unfoldable pub channels_like : Bytes → Dict (List ℕ) → List Bytes
  channels_like p [] = []
  channels_like p ((ch, cs) ∷ m) =
      let rest = channels_like p m in if is_empty_text p || matches p ch then ch ∷ rest else rest

unfoldable pub num_sub : List Bytes → Hub → List ℕ
unfolding members
num_sub [] h = []
num_sub (ch ∷ chs) h = length (members ch h.by_channel) ∷ num_sub chs h

unfoldable pub num_pat : Dict (List ℕ) → ℕ
num_pat [] = 0
num_pat ((p, cs) ∷ m) = length cs + num_pat m
