-- ===== src/Router/Serve.antt =====
-- crates/demiurge-router/src/serve.rs: the budget of live connections and the queues of the workers.
-- Sockets and what is read and written on them are left: a connection is no more than a job.
pub mod Slots
pub mod Accept
pub mod Queues
mod Tests
use demiurge.Base.{
  ℕ, zero, suc, ◌+◌, ◌-◌, ◌%◌, Bool, true, false, not, Option, none, some, List, [], ◌∷◌, ltb, leb,
  ◌==◌, if◌then◌else◌, length, u64_mod, wrapping_add, wrapping_sub,
}
use demiurge.Base.F64.{F64}
use demiurge.Dataplane.AdmitMode.{uses_userspace_admit}
use demiurge.Dataplane.Bucket.{AdmitBucket, Admit, try_admit, release}
use demiurge.Dataplane.Bucket
use demiurge.Router.Plane.{Router}

-- `AdmitConn`: shed, or proceed with a guard of the bucket or without.
pub data AdmitConn : Type 0 where
  shed : AdmitConn
  proceed : Bool → AdmitConn

module _ (D : F64) where
  unfoldable pub admit_answer : Admit × AdmitBucket → Router D → AdmitConn × Router D
  admit_answer (Bucket.ok, bucket) r = (proceed true, record r { admit = bucket })
  admit_answer (Bucket.err e, bucket) r = (shed, record r { admit = bucket })

  unfoldable pub admit_conn : Router D → AdmitConn × Router D
  unfolding uses_userspace_admit try_admit admit_answer
  admit_conn r =
      if not (uses_userspace_admit r.kernel_attached r.admit_mode)
      then (proceed false, r)
      else admit_answer (try_admit r.admit) r

  -- `Drop for AdmitGuard`
  unfoldable pub drop_admit_guard : Bool → Router D → Router D
  unfolding release
  drop_admit_guard held r = if held then record r { admit = release 1 r.admit } else r

-- The atomic steps of `try_conn_slot` and of the drop of a slot, on the counter of live connections.
-- The first answers whether there is a slot; where there is none, `give_back` follows.
pub fetch_slot : ℕ → ℕ → Bool × ℕ
fetch_slot max_conns live = (ltb live max_conns, wrapping_add live 1)

pub give_back : ℕ → ℕ
give_back live = wrapping_sub live 1

-- A call with no other thread between its steps.
pub try_conn_slot : ℕ → ℕ → Bool × ℕ
unfolding fetch_slot give_back
try_conn_slot max_conns live =
    let (granted, live') = fetch_slot max_conns live in
    if granted then (true, live') else (false, give_back live')

-- A worker's queue: how many jobs wait in it, and whether the worker still receives.
pub record Worker : Type 0 where
  pub queued : ℕ
  pub connected : Bool

abbrev pub per_worker_backlog : ℕ
per_worker_backlog = 2

pub data TrySend : Type 0 where
  sent full disconnected : TrySend

pub try_send : Worker → TrySend
try_send w =
    if not w.connected then disconnected else if leb per_worker_backlog w.queued then full else sent

abbrev pub worker_at : List Worker → ℕ → Option Worker
worker_at [] i = none
worker_at (w ∷ ws) zero = some w
worker_at (w ∷ ws) (suc i) = worker_at ws i

abbrev pub enqueue_at : List Worker → ℕ → List Worker
enqueue_at [] i = []
enqueue_at (w ∷ ws) zero = record w { queued = w.queued + 1 } ∷ ws
enqueue_at (w ∷ ws) (suc i) = w ∷ enqueue_at ws i

-- What `senders[idx].try_send(job)` answers; an index is below the number of the senders.
pub send_at : List Worker → ℕ → TrySend
unfolding try_send
send_at ws i = elim (worker_at ws i) [ none ↦ disconnected | some w ↦ try_send w ]

pub data Dispatched : Type 0 where
  queued_at : ℕ → Dispatched
  shed_503 stopped : Dispatched

-- By what an attempt was answered; a full queue leaves it to the attempts that follow.
pub after_try : TrySend → ℕ → Dispatched → Dispatched
after_try sent idx rest = queued_at idx
after_try full idx rest = rest
after_try disconnected idx rest = stopped

-- The loop over the attempts, of which `fuel` are left.
pub dispatch_loop : List Worker → ℕ → ℕ → ℕ → Dispatched
unfolding send_at after_try
dispatch_loop ws next attempt zero = shed_503
dispatch_loop ws next attempt (suc fuel) =
    let idx = (next + attempt) % length ws in
    after_try (send_at ws idx) idx (dispatch_loop ws next (suc attempt) fuel)

-- What a dispatch changes: the counter of live connections, the queues and the next worker.
pub record Acceptor : Type 0 where
  pub live : ℕ
  pub workers : List Worker
  pub next : ℕ

-- The job is queued with its slot; else the slot is dropped.
pub settle_dispatch : ℕ → Acceptor → Dispatched → Dispatched × Acceptor
unfolding give_back
settle_dispatch live a (queued_at idx) = (
  queued_at idx,
  record { live = live; workers = enqueue_at a.workers idx; next = wrapping_add idx 1 },
)
settle_dispatch live a shed_503 = (shed_503, record a { live = give_back live })
settle_dispatch live a stopped = (stopped, record a { live = give_back live })

pub dispatch_conn : ℕ → Acceptor → Dispatched × Acceptor
unfolding try_conn_slot dispatch_loop settle_dispatch
dispatch_conn max_conns a =
    let (granted, live) = try_conn_slot max_conns a.live in
    if not granted
    then (shed_503, record a { live = live })
    else settle_dispatch live a (dispatch_loop a.workers a.next 0 (length a.workers))
