-- ===== src/Auth/Tests.antt =====
-- A group of two tenants, and each theorem at a concrete input.
use demiurge.Base.{ℕ, ◌≡◌, ◌↔◌, ◌⊎◌, refl, true, some, [], ◌∷◌, nat_key, elem, ℕ_discrete, Bytes}
use demiurge.Base.Maps.{lookup, insert}
use demiurge.Auth.{
  CacheDomainKey, private_domain_key, salt, GroupEntry, SharedPrefixGroupRegistry, new,
  register_template, is_member, matches_template, resolve_shared_key, resolve_domain_key,
}
use demiurge.Auth.Sharing.{resolve_shared_key_iff, resolve_domain_key_isolates}

abbrev registry : SharedPrefixGroupRegistry
registry = register_template 7 (1 ∷ 2 ∷ []) 500 42 new

abbrev group_key : CacheDomainKey
group_key = record { owner = 7; domain = 42; shared = true }

members_share : resolve_shared_key 2 7 500 registry ≡ some group_key
unfolding resolve_shared_key register_template insert lookup elem new ℕ_discrete
members_share = refl

outsider_alone : resolve_domain_key 99 7 500 registry ≡ private_domain_key 99 0
unfolding resolve_domain_key resolve_shared_key register_template insert lookup elem new ℕ_discrete
outsider_alone = refl

resolve_shared_key_iff_example : (resolve_shared_key 2 7 500 registry ≡ some group_key) ↔ (
    (is_member 7 2 registry ≡ true)
    × (matches_template 7 500 registry ≡ true)
    × (e : GroupEntry) × (lookup 7 registry.groups ≡ some e)
    × (group_key ≡ record { owner = 7; domain = e.domain; shared = true }))
resolve_shared_key_iff_example = resolve_shared_key_iff 2 7 500 registry group_key

same_key : resolve_domain_key 1 7 500 registry ≡ resolve_domain_key 2 7 500 registry
unfolding resolve_domain_key resolve_shared_key register_template insert lookup elem new ℕ_discrete
same_key = refl

abbrev alice : ℕ
alice = 1

abbrev group : ℕ
group = 7

abbrev prefix : ℕ
prefix = 500

resolve_domain_key_isolates_example :
    (alice ≡ 2)
    ⊎ ((group ≡ 7)
        × (prefix ≡ 500)
        × (is_member 7 1 registry ≡ true)
        × (is_member 7 2 registry ≡ true)
        × (matches_template 7 500 registry ≡ true))
resolve_domain_key_isolates_example = resolve_domain_key_isolates 1 2 7 7 500 500 registry same_key

-- A stand-in for the MAC, which gives back its message.
abbrev echo : Bytes → Bytes
echo message = message

salt_of_echo : salt echo group_key ≡ 8026590349447356771
unfolding salt
salt_of_echo = refl
