-- ===== src/Auth/Salt.antt =====
-- What the MAC of a salt is taken over tells the domains apart.
use demiurge.Base.{ℕ, ◌<◌, ◌≡◌, refl, ap, ◌∙◌, sym, take, drop, get_or, Bytes, u64_mod, arith}
use demiurge.Auth.{CacheDomainKey, byte_of, salt_payload}
use demiurge.Base.LittleEndian.{to_le_bytes, from_le_bytes, from_le_bytes-to_le_bytes}

-- The three parts of a payload, read back.
abbrev payload_owner : Bytes → ℕ
payload_owner p = from_le_bytes (take 8 p)

abbrev payload_domain : Bytes → ℕ
payload_domain p = from_le_bytes (take 8 (drop 8 p))

owner-read :
    (key : CacheDomainKey) → key.owner < u64_mod → payload_owner (salt_payload key) ≡ key.owner
unfolding salt_payload to_le_bytes
owner-read key h = from_le_bytes-to_le_bytes 8 key.owner h

domain-read :
    (key : CacheDomainKey) → key.domain < u64_mod → payload_domain (salt_payload key) ≡ key.domain
unfolding salt_payload to_le_bytes
domain-read key h = from_le_bytes-to_le_bytes 8 key.domain h

flag-read : (key : CacheDomainKey) → get_or (salt_payload key) 16 0 ≡ byte_of key.shared
unfolding salt_payload to_le_bytes
flag-read key = refl

-- Two keys over `u64` numbers with one payload are one key: distinct cache domains, a group's and a
-- tenant's of the same number among them, are never hashed from the same bytes.
pub salt_payload_injective :
    (key key' : CacheDomainKey)
    → key.owner < u64_mod
    → key.domain < u64_mod
    → key'.owner < u64_mod
    → key'.domain < u64_mod
    → salt_payload key ≡ salt_payload key'
    → key ≡ key'
salt_payload_injective key key' o d o' d' e =
    let owners : key.owner ≡ key'.owner =
      sym (owner-read key o) ∙ ap payload_owner e ∙ owner-read key' o' in
    let domains : key.domain ≡ key'.domain =
      sym (domain-read key d) ∙ ap payload_domain e ∙ domain-read key' d' in
    let flags : byte_of key.shared ≡ byte_of key'.shared =
      sym (flag-read key) ∙ ap (λ p. get_or p 16 0) e ∙ flag-read key' in
    ground arith
