-- ===== src/Auth.antt =====
-- crates/demiurge-auth/src/lib.rs: who may share a prefix cache. A `HashSet` of members is a list;
-- the identifiers and fingerprints are the numbers they wrap. The salts go through `keyed_hash` of
-- secret.rs beside it, whose MAC, BLAKE3 under the deployment's key, is a parameter: bytes to bytes.
pub mod Sharing
pub mod Salt
mod Tests
use demiurge.Base.{
  ℕ, zero, suc, ◌+◌, ◌*◌, ◌/◌, ◌%◌, Bool, true, false, not, Option, none, some, List, [], ◌∷◌, ◌++◌,
  Map, nat_key, ◌==◌, if◌then◌else◌, take, elem, Bytes, bytes,
}
use demiurge.Base.LittleEndian.{to_le_bytes, from_le_bytes}
use demiurge.Base.Maps.{lookup, insert}

pub record CacheDomainKey : Type 0 where
  pub owner : ℕ
  pub domain : ℕ
  pub shared : Bool

-- The first 8 bytes of the MAC over the domain, a zero byte and the data.
unfoldable pub keyed_hash : (Bytes → Bytes) → Bytes → Bytes → ℕ
unfolding from_le_bytes
keyed_hash mac domain payload = from_le_bytes (take 8 (mac (domain ++ 0 ∷ payload)))

-- `u8::from` of a flag
abbrev pub byte_of : Bool → ℕ
byte_of false = 0
byte_of true = 1

unfoldable pub salt_payload : CacheDomainKey → Bytes
unfolding to_le_bytes
salt_payload key = to_le_bytes 8 key.owner ++ to_le_bytes 8 key.domain ++ byte_of key.shared ∷ []

unfoldable pub salt : (Bytes → Bytes) → CacheDomainKey → ℕ
unfolding keyed_hash salt_payload
salt mac key = keyed_hash mac (bytes "cache-domain-salt") (salt_payload key)

-- `PrefixFingerprint::of`
pub fingerprint_of : (Bytes → Bytes) → Bytes → ℕ
unfolding keyed_hash
fingerprint_of mac content = keyed_hash mac (bytes "prefix-fp") content

unfoldable pub private_domain_key : ℕ → ℕ → CacheDomainKey
private_domain_key tenant domain = record { owner = tenant; domain = domain; shared = false }

pub record GroupEntry : Type 0 where
  pub members : List ℕ
  pub template : ℕ
  pub domain : ℕ

pub record SharedPrefixGroupRegistry : Type 0 where
  pub groups : Map ℕ GroupEntry

unfoldable pub new : SharedPrefixGroupRegistry
new = record { groups = [] }

unfoldable pub register_template :
    ℕ → List ℕ → ℕ → ℕ → SharedPrefixGroupRegistry → SharedPrefixGroupRegistry
register_template group members template domain r = record {
  groups =
      insert group (record { members = members; template = template; domain = domain }) r.groups;
}

unfoldable pub is_member : ℕ → ℕ → SharedPrefixGroupRegistry → Bool
is_member group tenant r = elim (lookup group r.groups) [
  | none ↦ false
  | some g ↦ elem tenant g.members
]

unfoldable pub matches_template : ℕ → ℕ → SharedPrefixGroupRegistry → Bool
matches_template group fp r = elim (lookup group r.groups) [
  | none ↦ false
  | some g ↦ g.template == fp
]

unfoldable pub resolve_shared_key : ℕ → ℕ → ℕ → SharedPrefixGroupRegistry → Option CacheDomainKey
resolve_shared_key requester group content_fp r = elim (lookup group r.groups) [
  | none ↦ none
  | some entry ↦
      if not (elem requester entry.members)
      then none
      else if not (entry.template == content_fp)
      then none
      else some (record { owner = group; domain = entry.domain; shared = true })
]

unfoldable pub resolve_domain_key : ℕ → ℕ → ℕ → SharedPrefixGroupRegistry → CacheDomainKey
unfolding resolve_shared_key private_domain_key
resolve_domain_key requester group content_fp r =
    elim (resolve_shared_key requester group content_fp r) [
      | none ↦ private_domain_key requester 0
      | some key ↦ key
    ]
