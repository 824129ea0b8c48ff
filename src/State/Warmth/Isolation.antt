-- ===== src/State/Warmth/Isolation.antt =====
-- What is recorded under one cache domain is not seen under another.
use demiurge.Base.{ℕ, ◌≡◌, ◌≢◌, refl, ◌∙◌, List, [], ◌∷◌, map, elem, All, Bytes, arith}
use demiurge.Auth.{CacheDomainKey, SharedPrefixGroupRegistry, salt, resolve_domain_key}
use demiurge.State.Warmth.{
  WarmthMap, insert, insert_all, count_hits, hit_strength, insert_salted, gated_hit_strength,
}

elem-insert_other : (j b : ℕ) (w : WarmthMap) → j ≢ b → elem j (insert b w).1.keys ≡ elem j w.keys
unfolding insert elem
elem-insert_other j b w ne = ground arith

count_hits-insert :
    (bs : List ℕ) (b : ℕ) (w : WarmthMap)
    → All (λ j. j ≢ b) bs
    → count_hits bs (insert b w).1 ≡ count_hits bs w
unfolding count_hits
count_hits-insert [] b w h = refl
count_hits-insert (j ∷ bs) b w h =
    rw (elem-insert_other j b w h.0, count_hits-insert bs b w h.1) refl

hit_strength-insert :
    (bs : List ℕ) (b : ℕ) (w : WarmthMap)
    → All (λ j. j ≢ b) bs
    → hit_strength bs (insert b w).1 ≡ hit_strength bs w
unfolding hit_strength
hit_strength-insert [] b w h = refl
hit_strength-insert (j ∷ bs) b w h = rw (count_hits-insert (j ∷ bs) b w h) refl

All-map : (f : ℕ → ℕ) (b : ℕ) (bs : List ℕ) → All (λ j. f j ≢ b) bs → All (λ j. j ≢ b) (map f bs)
All-map f b [] h = tt
All-map f b (j ∷ bs) h = (h.0, All-map f b bs h.1)

-- A block recorded under a key changes nothing of what a request sees whose own domain hashes none of
-- its blocks to the same place: a request that is not authorized for a shared prefix sees nothing of it.
pub gated_hit_strength-insert_salted :
    (mac : Bytes → Bytes) (salt_block : ℕ → ℕ → ℕ) (w : WarmthMap)
    (registry : SharedPrefixGroupRegistry) (requester group content_fp : ℕ) (blocks : List ℕ)
    (b : ℕ) (key : CacheDomainKey)
    → All
        (λ j.
          salt_block j (salt mac (resolve_domain_key requester group content_fp registry))
          ≢ salt_block b (salt mac key))
        blocks
    → gated_hit_strength mac salt_block
        (insert_salted mac salt_block b key w).1
        registry
        requester
        group
        content_fp
        blocks
      ≡ gated_hit_strength mac salt_block w registry requester group content_fp blocks
unfolding gated_hit_strength insert_salted
gated_hit_strength-insert_salted mac salt_block w registry requester group content_fp blocks b key
      h =
    hit_strength-insert
      (map (λ j. salt_block j (salt mac (resolve_domain_key requester group content_fp registry)))
        blocks)
      (salt_block b (salt mac key)) w
      (All-map
        (λ j. salt_block j (salt mac (resolve_domain_key requester group content_fp registry)))
        (salt_block b (salt mac key)) blocks h)

hit_strength-insert_all :
    (bs ks : List ℕ) (w : WarmthMap)
    → All (λ k. All (λ j. j ≢ k) bs) ks
    → hit_strength bs (insert_all ks w) ≡ hit_strength bs w
unfolding insert_all
hit_strength-insert_all bs [] w h = refl
hit_strength-insert_all bs (k ∷ ks) w h =
    hit_strength-insert_all bs ks (insert k w).1 h.1 ∙ hit_strength-insert bs k w h.0

All-map_each :
    (f : ℕ → ℕ) (bs ks : List ℕ)
    → All (λ k. All (λ j. f j ≢ k) bs) ks
    → All (λ k. All (λ j. j ≢ k) (map f bs)) ks
All-map_each f bs [] h = tt
All-map_each f bs (k ∷ ks) h = (All-map f k bs h.0, All-map_each f bs ks h.1)

-- Blocks that are recorded as they are, with no salt, are not seen by a request whose salted blocks are
-- none of them.
pub gated_hit_strength-insert_all :
    (mac : Bytes → Bytes) (salt_block : ℕ → ℕ → ℕ) (w : WarmthMap)
    (registry : SharedPrefixGroupRegistry) (requester group content_fp : ℕ) (blocks ks : List ℕ)
    → All
        (λ k.
          All
            (λ j.
              salt_block j (salt mac (resolve_domain_key requester group content_fp registry)) ≢ k)
            blocks)
        ks
    → gated_hit_strength mac salt_block (insert_all ks w) registry requester group content_fp blocks
      ≡ gated_hit_strength mac salt_block w registry requester group content_fp blocks
unfolding gated_hit_strength
gated_hit_strength-insert_all mac salt_block w registry requester group content_fp blocks ks h =
    let f =
      λ (j : ℕ). salt_block j (salt mac (resolve_domain_key requester group content_fp registry)) in
    hit_strength-insert_all (map f blocks) ks w (All-map_each f blocks ks h)
