-- ===== src/Dataplane/AdmitMode.antt =====
-- crates/demiurge-dataplane/src/admit_mode.rs: which layer admits. A text is the list of its
-- characters; the environment's value is an argument.
use demiurge.Base.{
  ◌≡◌, refl, ◌⊎◌, inl, inr, Bool, true, false, ◌||◌, not, Option, none, some, Bytes, bytes,
  bytes_eq, lower, map, trim, if◌then◌else◌,
}
use demiurge.Base.Utf8.{is_whitespace}

pub data AdmitMode : Type 0 where
  userspace kernel_xdp hybrid : AdmitMode

mode_of : Bytes → Option AdmitMode
mode_of s =
    if bytes_eq s (bytes "userspace") || bytes_eq s (bytes "user") || bytes_eq s (bytes "bucket")
    then some userspace
    else if bytes_eq s (bytes "xdp")
        || bytes_eq s (bytes "kernel")
        || bytes_eq s (bytes "kernel_xdp")
    then some kernel_xdp
    else if bytes_eq s (bytes "hybrid")
    then some hybrid
    else none

pub parse : Bytes → Option AdmitMode
unfolding mode_of
parse s = mode_of (map lower (trim is_whitespace s))

-- `from_env`, on the variable's value
unfoldable pub from_env : Option Bytes → AdmitMode
unfolding parse
from_env none = userspace
from_env (some v) = elim (parse v) [ none ↦ userspace | some mode ↦ mode ]

unfoldable pub uses_userspace_admit : Bool → AdmitMode → Bool
uses_userspace_admit kernel_attached userspace = true
uses_userspace_admit kernel_attached kernel_xdp = not kernel_attached
uses_userspace_admit kernel_attached hybrid = not kernel_attached

pub wants_kernel : AdmitMode → Bool
wants_kernel userspace = false
wants_kernel kernel_xdp = true
wants_kernel hybrid = true

-- Whatever the environment says, a connection is admitted by the bucket or by an attached kernel
-- program that the mode wants, and by exactly one of them.
pub admits_once :
    (value : Option Bytes) (kernel_attached : Bool)
    → let mode = from_env value in
      ((uses_userspace_admit kernel_attached mode ≡ true)
        × ((wants_kernel mode ≡ false) ⊎ (kernel_attached ≡ false)))
      ⊎ ((uses_userspace_admit kernel_attached mode ≡ false)
          × (wants_kernel mode ≡ true)
          × (kernel_attached ≡ true))
unfolding uses_userspace_admit wants_kernel
admits_once value kernel_attached = layers kernel_attached (from_env value)
  where
    layers :
        (k : Bool) (mode : AdmitMode)
        → ((uses_userspace_admit k mode ≡ true) × ((wants_kernel mode ≡ false) ⊎ (k ≡ false)))
          ⊎ ((uses_userspace_admit k mode ≡ false) × (wants_kernel mode ≡ true) × (k ≡ true))
    layers k userspace = inl (refl, inl refl)
    layers false kernel_xdp = inl (refl, inr refl)
    layers true kernel_xdp = inr (refl, refl, refl)
    layers false hybrid = inl (refl, inr refl)
    layers true hybrid = inr (refl, refl, refl)
