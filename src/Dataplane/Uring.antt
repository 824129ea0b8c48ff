-- ===== src/Dataplane/Uring.antt =====
-- crates/demiurge-dataplane/src/forwarder.rs and forwarder_io_uring.rs: the forwarder, which reads the
-- published table, and its session, which reads a request's head and copies a stream. The kernel's
-- ring is a parameter: what it answers to the submitted reads and writes is a list, of which the loops
-- take one answer a round. That the ring refuses a submission, or has no answer, is left out.
pub mod Copy
pub mod Head
mod Tests
use demiurge.Base.{
  ends_with, ℕ, ◌+◌, ◌-◌, ◌*◌, min, Bool, true, false, ◌&&◌, ◌||◌, not, Option, none, some, List,
  [], ◌∷◌, ◌++◌, ltb, leb, ◌==◌, if◌then◌else◌, length, take, drop, Bytes, bytes, bytes_eq,
  ends_with,
}
use demiurge.Base.F64.{F64}
use demiurge.Dataplane.Rcu.{RcuRoutingTable, read}

module _ (D : F64) where
  pub record ForwardDecision : Type 0 where
    pub pi : D.F
    pub generation : ℕ

  unfoldable pub forward_decision : RcuRoutingTable D → ForwardDecision
  unfolding read
  forward_decision rcu =
      let snap = read D rcu in record { pi = snap.pi; generation = snap.generation }

-- On the variable's value.
unfoldable pub io_uring_enabled_from_env : Option Bytes → Bool
unfolding bytes_eq
io_uring_enabled_from_env none = false
io_uring_enabled_from_env (some v) =
    bytes_eq v (bytes "1") || bytes_eq v (bytes "true") || bytes_eq v (bytes "yes")

-- The length of a session's buffer.
abbrev pub iov_max : ℕ
iov_max = 64 * 1024

-- What a read of `len` bytes gives when the kernel has `offer` of the bytes that are to come; that it has
-- none is the end of the stream, or an error, which the loops take alike.
abbrev pub given : ℕ → ℕ → Bytes → ℕ
given offer len incoming = min offer (min (min len iov_max) (length incoming))

-- The loop of `read_http_head`, with what was read before.
unfoldable pub read_http_head_from : ℕ → Bytes → Bytes → List ℕ → Bytes
unfolding ends_with
read_http_head_from max acc incoming [] = acc
read_http_head_from max acc incoming (offer ∷ offers) =
    let n = given offer (min (max - length acc) iov_max) incoming in
    let read = acc ++ take n incoming in
    let rest = read_http_head_from max read (drop n incoming) offers in
    if not (ltb (length acc) max)
    then acc
    else if n == 0
    then acc
    else if ends_with (bytes "\r\n\r\n") read
    then read
    else rest

unfoldable pub read_http_head : ℕ → Bytes → List ℕ → Bytes
unfolding read_http_head_from
read_http_head max incoming offers = read_http_head_from max [] incoming offers

-- What the kernel answers to a write: how many bytes it is ready to take, or the number of an error.
pub data Write : Type 0 where
  wrote : ℕ → Write
  write_failed : ℕ → Write

pub data Copied : Type 0 where
  ok : ℕ → Copied
  err : ℕ → Copied

-- The loop of `copy_stream`, a round of which reads and writes: what it answers, and the bytes that the
-- other side got.
unfoldable pub copy_from : ℕ → ℕ → Bytes → List (ℕ × Write) → Copied × Bytes
copy_from max total incoming [] = (ok total, [])
copy_from max total incoming ((offer, write_failed e) ∷ rounds) =
    if not (ltb total max)
    then (ok total, [])
    else if given offer (min (max - total) iov_max) incoming == 0
    then (ok total, [])
    else (err e, [])
copy_from max total incoming ((offer, wrote ready) ∷ rounds) =
    let n = given offer (min (max - total) iov_max) incoming in
    let (answer, sent) = copy_from max (total + n) (drop n incoming) rounds in
    if not (ltb total max)
    then (ok total, [])
    else if n == 0
    then (ok total, [])
    else (answer, take (min ready n) incoming ++ sent)

unfoldable pub copy_stream : ℕ → Bytes → List (ℕ × Write) → Copied × Bytes
unfolding copy_from
copy_stream max incoming rounds = copy_from max 0 incoming rounds
