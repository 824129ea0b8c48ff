-- ===== src/Router/Tests.antt =====
-- Runs of the router's checks, and their theorem at a concrete input.
use demiurge.Base.{
  ◌≡◌, refl, some, [], ◌∷◌, ◌++◌, Bytes, bytes, split, trim, strip_prefix, arith, nat_key,
}
use demiurge.Auth.{register_template, new as no_groups}
use demiurge.Cost.Kv.{kv_breakdown}
use demiurge.Ledger.{new}
use demiurge.Ledger.Invariant.{Inv, new-Inv}
use demiurge.Http.{parse_u64_maybe_hex}
use demiurge.Router.{claim_handoff, parse_cache_groups}
use demiurge.Router.Claim.{InBounds, claim_handoff_lem}

abbrev answer : Bytes
answer = bytes "x-demiurge-kv-handle: 42" ++ 13 ∷ 10 ∷ bytes "x-demiurge-kv-bytes: 5000"

claim_handoff_lem_example :
    InBounds 7
      (kv_breakdown 100 10).kv_reserved
      (claim_handoff 7 100 10 answer "pf-a" 0 (new 1000000)).0
    × Inv (claim_handoff 7 100 10 answer "pf-a" 0 (new 1000000)).1
claim_handoff_lem_example =
    claim_handoff_lem 7 100 10 answer "pf-a" 0 (new 1000000) (new-Inv 1000000 (omega arith))

one_group :
    parse_cache_groups (bytes "7@42@0x1F4@1+2")
    ≡ some (some (register_template 7 (1 ∷ 2 ∷ []) 500 42 no_groups))
unfolding parse_cache_groups parse_u64_maybe_hex split trim strip_prefix
one_group = refl
