-- ===== src/State/Warmth.antt =====
-- crates/demiurge-state/src/warmth.rs: the blocks that a backend has cached. A `HashSet` is a list of
-- distinct keys. The hash of a block with a salt, `DefaultHasher` of the standard library whose
-- algorithm is not specified, is a parameter, as is the MAC that the salt is made with. A hit strength
-- is kept as the two numbers that the source divides.
pub mod Load
pub mod Isolation
pub mod Blocks
use demiurge.Base.{
  ℕ, zero, suc, ◌+◌, ◌/◌, max, Bool, true, false, List, [], ◌∷◌, map, ◌==◌, if◌then◌else◌, length,
  elem, saturating_mul, div_ceil, Bytes,
}
use demiurge.Base.Float.{quotient_at_least}
use demiurge.Cost.Params.{cache_cuckoo_max_loadfactor, cache_block_tokens}
use demiurge.Auth.{CacheDomainKey, SharedPrefixGroupRegistry, salt, resolve_domain_key}

-- `(from..from + n).map(|i| i.saturating_mul(block))`
pub blocks_from : ℕ → ℕ → ℕ → List ℕ
blocks_from block i zero = []
blocks_from block i (suc n) = saturating_mul i block ∷ blocks_from block (i + 1) n

pub routing_blocks : ℕ → ℕ → List ℕ
unfolding blocks_from
routing_blocks prompt_tokens block_tokens =
    let block = max block_tokens 1 in blocks_from block 0 (div_ceil prompt_tokens block)

unfoldable pub default_routing_blocks : ℕ → List ℕ
unfolding routing_blocks
default_routing_blocks prompt_tokens = routing_blocks prompt_tokens cache_block_tokens

pub record WarmthMap : Type 0 where
  pub keys : List ℕ
  pub capacity : ℕ

pub with_capacity : ℕ → WarmthMap
with_capacity capacity = record { keys = []; capacity = max capacity 1 }

pub default_map : WarmthMap
unfolding with_capacity
default_map = with_capacity 1024

pub len : WarmthMap → ℕ
len w = length w.keys

pub is_empty : WarmthMap → Bool
is_empty w = length w.keys == 0

-- `load_factor() >= CACHE_CUCKOO_MAX_LOADFACTOR`
pub is_full : WarmthMap → Bool
is_full w =
    quotient_at_least cache_cuckoo_max_loadfactor.0 cache_cuckoo_max_loadfactor.1 (length w.keys)
      w.capacity

pub contains : ℕ → WarmthMap → Bool
contains block_id w = elem block_id w.keys

-- `insert`: whether the block is in the map afterwards, and the map.
unfoldable pub insert : ℕ → WarmthMap → Bool × WarmthMap
unfolding is_full
insert block_id w =
    if elem block_id w.keys
    then (true, w)
    else if is_full w
    then (false, w)
    else (true, record w { keys = block_id ∷ w.keys })

-- The loop over the other map's keys.
unfoldable pub insert_all : List ℕ → WarmthMap → WarmthMap
unfolding insert
insert_all [] w = w
insert_all (k ∷ ks) w = insert_all ks (insert k w).1

pub merge : WarmthMap → WarmthMap → WarmthMap
unfolding insert_all
merge w other = insert_all other.keys w

pub count_hits : List ℕ → WarmthMap → ℕ
count_hits [] w = 0
count_hits (b ∷ bs) w = (if elem b w.keys then 1 else 0) + count_hits bs w

-- The hits and the blocks, whose quotient is the strength; 0 over 1 for no blocks.
unfoldable pub hit_strength : List ℕ → WarmthMap → ℕ × ℕ
unfolding count_hits
hit_strength [] w = (0, 1)
hit_strength (b ∷ bs) w = (count_hits (b ∷ bs) w, length (b ∷ bs))

module _ (mac : Bytes → Bytes) (salt_block : ℕ → ℕ → ℕ) where
  pub salted_blocks : List ℕ → CacheDomainKey → List ℕ
  salted_blocks blocks key = map (λ b. salt_block b (salt mac key)) blocks

  pub insert_salted : ℕ → CacheDomainKey → WarmthMap → Bool × WarmthMap
  unfolding insert
  insert_salted block_id key w = insert (salt_block block_id (salt mac key)) w

  pub hit_strength_salted : List ℕ → CacheDomainKey → WarmthMap → ℕ × ℕ
  unfolding hit_strength salted_blocks
  hit_strength_salted blocks key w = hit_strength (salted_blocks blocks key) w

  unfoldable pub gated_hit_strength :
      WarmthMap → SharedPrefixGroupRegistry → ℕ → ℕ → ℕ → List ℕ → ℕ × ℕ
  unfolding hit_strength_salted
  gated_hit_strength w registry requester group content_fp blocks =
      hit_strength_salted blocks (resolve_domain_key requester group content_fp registry) w
