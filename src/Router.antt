-- ===== src/Router.antt =====
-- crates/demiurge-router: here the specification of cache groups in config.rs, and the checks of
-- routing.rs that a prefill answer passes before its decode is placed; below, the other specifications
-- of config.rs, the backends, the router's state, its routes and its queues. A text is the list of its
-- bytes, which are ASCII here; the environment's values are arguments.
pub mod Claim
pub mod Config
pub mod Backend
pub mod Plane
pub mod Routing
pub mod Complete
pub mod Connection
pub mod Serve
mod Tests
mod RouteTests
use demiurge.Base.{
  ℕ, ◌+◌, ◌*◌, Bool, true, false, ◌||◌, not, Option, none, some, List, [], ◌∷◌, String, ltb, ◌==◌,
  if◌then◌else◌, Bytes, bytes, bytes_eq, split, trim, saturating_mul,
}
use demiurge.Base.Utf8.{is_whitespace}
use demiurge.Auth.{SharedPrefixGroupRegistry, new, register_template}
use demiurge.Cost.Kv.{kv_breakdown}
use demiurge.Cost.Params.{kv_handoff_byte_ceiling_multiple}
use demiurge.Http.{parse_u64_maybe_hex}
use demiurge.Handoff.{HandoffDescriptor, parse_prefill_handoff, is_valid}
use demiurge.Ledger.{ReservationLedger, ReservationGuard, Admission, ok, err, try_reserve_from}

-- `split(sep).map(str::trim).filter(|s| !s.is_empty())`
abbrev kept : List Bytes → List Bytes
kept [] = []
kept ([] ∷ ps) = kept ps
kept ((x ∷ p) ∷ ps) = (x ∷ p) ∷ kept ps

trimmed : List Bytes → List Bytes
trimmed [] = []
trimmed (p ∷ ps) = trim is_whitespace p ∷ trimmed ps

pub items : ℕ → Bytes → List Bytes
unfolding trimmed
items sep spec = kept (trimmed (split (λ b. b == sep) spec))

-- The members, all of which must be numbers; no result where one is not.
pub parse_members : List Bytes → Option (List ℕ)
parse_members [] = some []
parse_members (m ∷ ms) = elim (parse_u64_maybe_hex m) [
  | none ↦ none
  | some t ↦ elim (parse_members ms) [ none ↦ none | some ts ↦ some (t ∷ ts) ]
]

infixl 5 ◌>>=◌
abbrev ◌>>=◌ {ℓ κ} : {A : Type ℓ} {B : Type κ} → Option A → (A → Option B) → Option B
none >>= f = none
some a >>= f = f a

register_members : ℕ → ℕ → ℕ → List ℕ → SharedPrefixGroupRegistry → Option SharedPrefixGroupRegistry
register_members group domain fp [] r = none
register_members group domain fp (m ∷ ms) r = some (register_template group (m ∷ ms) fp domain r)

-- One item `group@domain@template_fp@tenant1+tenant2`; no result for an error.
pub parse_group : List Bytes → SharedPrefixGroupRegistry → Option SharedPrefixGroupRegistry
unfolding parse_members register_members items
parse_group (group ∷ domain ∷ fp ∷ tenants ∷ []) r = do
  g ← parse_u64_maybe_hex group
  d ← parse_u64_maybe_hex domain
  f ← parse_u64_maybe_hex fp
  members ← parse_members (items b'+' tenants)
  register_members g d f members r
parse_group _ r = none

pub parse_groups : List Bytes → SharedPrefixGroupRegistry → Option SharedPrefixGroupRegistry
unfolding parse_group
parse_groups [] r = some r
parse_groups (item ∷ rest) r = elim (parse_group (split (λ b. b == b'@') item) r) [
  | none ↦ none
  | some r' ↦ parse_groups rest r'
]

pub parse_item_list : List Bytes → Option (Option SharedPrefixGroupRegistry)
unfolding parse_groups
parse_item_list [] = some none
parse_item_list (item ∷ rest) = elim (parse_groups (item ∷ rest) new) [
  | none ↦ none
  | some r ↦ some (some r)
]

-- The outer option is the result, where an error has none; the inner is the registry, if any.
pub parse_cache_groups : Bytes → Option (Option SharedPrefixGroupRegistry)
unfolding parse_item_list items
parse_cache_groups spec = parse_item_list (items b',' spec)

-- `env_bool`, on the variable's value
pub env_bool : Option Bytes → Bool → Bool
env_bool none default = default
env_bool (some v) default =
    bytes_eq v (bytes "1") || bytes_eq v (bytes "true") || bytes_eq v (bytes "yes")

pub data RouteError : Type 0 where
  no_backend handoff_missing kv_admit_rejected : RouteError
  prefill_io : String → RouteError

pub data Claimed : Type 0 where
  refused : RouteError → Claimed
  admitted : HandoffDescriptor → ReservationGuard → Claimed

-- What the ledger answered: every refusal is a rejected admission.
pub settle : HandoffDescriptor → Admission × ReservationLedger → Claimed × ReservationLedger
settle h (ok guard, l) = (admitted h guard, l)
settle h (err e, l) = (refused kv_admit_rejected, l)

abbrev pub is_out_of_bounds : ℕ → HandoffDescriptor → Bool
is_out_of_bounds expected h =
    ltb h.byte_len expected
    || ltb (saturating_mul expected kv_handoff_byte_ceiling_multiple) h.byte_len

-- The claim of a valid hand-off, against the bytes that the prompt is expected to take.
pub claim_bytes :
    ℕ → String → HandoffDescriptor → ℕ → ReservationLedger → Claimed × ReservationLedger
unfolding settle
claim_bytes expected prefill_label h now l =
    if is_out_of_bounds expected h
    then (refused handoff_missing, l)
    else settle h (try_reserve_from (some prefill_label) h.request_id h.byte_len now l)

-- The hand-off that was parsed, if any and valid.
pub claim_parsed :
    ℕ → String → ℕ → ReservationLedger → Option HandoffDescriptor → Claimed × ReservationLedger
unfolding claim_bytes
claim_parsed expected prefill_label now l none = (refused handoff_missing, l)
claim_parsed expected prefill_label now l (some h) =
    if not (is_valid h)
    then (refused handoff_missing, l)
    else claim_bytes expected prefill_label h now l

-- The first match of `on_prefill_complete`, with a ledger and a registry: the hand-off is parsed, checked
-- and reserved for.
unfoldable pub claim_handoff :
    ℕ → ℕ → ℕ → Bytes → String → ℕ → ReservationLedger → Claimed × ReservationLedger
unfolding claim_parsed
claim_handoff request_id prompt_tokens bytes_per_token response prefill_label now l =
    claim_parsed (kv_breakdown prompt_tokens bytes_per_token).kv_reserved prefill_label now l
      (parse_prefill_handoff response request_id prefill_label)
