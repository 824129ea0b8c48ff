-- ===== src/Auth/Sharing.antt =====
-- Only members that present the template share a cache, and a private cache has one tenant.
use demiurge.Base.{ℕ, ◌≡◌, ◌↔◌, ◌⊎◌, inl, inr, true, some, nat_key, arith, Option-cases}
use demiurge.Base.Maps.{lookup}
use demiurge.Auth.{
  CacheDomainKey, private_domain_key, GroupEntry, SharedPrefixGroupRegistry, is_member,
  matches_template, resolve_shared_key, resolve_domain_key,
}

-- A shared key is resolved exactly for a member of the group that presents content which matches
-- the template; it is the group's own.
pub resolve_shared_key_iff :
    (requester group content_fp : ℕ) (r : SharedPrefixGroupRegistry) (key : CacheDomainKey)
    → (resolve_shared_key requester group content_fp r ≡ some key) ↔ (
        (is_member group requester r ≡ true)
        × (matches_template group content_fp r ≡ true)
        × (e : GroupEntry) × (lookup group r.groups ≡ some e)
        × (key ≡ record { owner = group; domain = e.domain; shared = true }))
unfolding resolve_shared_key is_member matches_template
resolve_shared_key_iff requester group content_fp r key =
    elim (Option-cases (lookup group r.groups)) [
      | inl e ↦ (λ p. ground arith, λ q. ground arith)
      | inr (g, e) ↦ (λ p. (ground arith, ground arith, g, e, ground arith), λ q. ground arith)
    ]

-- Two requests that resolve to one key either both share it as members of one group that present its
-- template, or are of the same tenant: no tenant reaches another's private cache.
pub resolve_domain_key_isolates :
    (t t' g g' fp fp' : ℕ) (r : SharedPrefixGroupRegistry)
    → resolve_domain_key t g fp r ≡ resolve_domain_key t' g' fp' r
    → (t ≡ t')
      ⊎ ((g ≡ g')
          × (fp ≡ fp')
          × (is_member g t r ≡ true)
          × (is_member g t' r ≡ true)
          × (matches_template g fp r ≡ true))
unfolding resolve_domain_key resolve_shared_key private_domain_key is_member matches_template
resolve_domain_key_isolates t t' g g' fp fp' r e = ground arith
