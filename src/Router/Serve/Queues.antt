-- ===== src/Router/Serve/Queues.antt =====
-- A connection that has a slot reaches a worker wherever one has room.
use demiurge.Base.{
  ℕ, zero, suc, ◌+◌, ◌-◌, ◌%◌, ◌≡◌, ◌≢◌, ◌≤◌, ◌<◌, refl, sym, ap, ◌∙◌, subst, true, List, length,
  wrapping_add, arith, dec_le, u64_mod,
}
use native.Mathlib.Nat.{mod-lt, mod-eq_of_lt, add-mod_right}
use demiurge.Router.Serve.{
  Worker, TrySend, sent, full, disconnected, send_at, Dispatched, queued_at, shed_503, stopped,
  after_try, dispatch_loop, Acceptor, enqueue_at, settle_dispatch, dispatch_conn, try_conn_slot,
  fetch_slot, give_back,
}

abbrev slot_of : List Worker → ℕ → ℕ → ℕ
slot_of ws next k = (next + k) % length ws

-- What the loop finds: the first attempt that meets a queue that is not full.
abbrev Found : List Worker → ℕ → ℕ → ℕ → Dispatched → Type 0
Found ws next attempt fuel (queued_at idx) =
    (k : ℕ) × (attempt ≤ k)
    × (k < attempt + fuel)
    × (idx ≡ slot_of ws next k)
    × (send_at ws idx ≡ sent)
    × ((i : ℕ) → attempt ≤ i → i < k → send_at ws (slot_of ws next i) ≡ full)
Found ws next attempt fuel shed_503 =
    (i : ℕ) → attempt ≤ i → i < attempt + fuel → send_at ws (slot_of ws next i) ≡ full
Found ws next attempt fuel stopped =
    (k : ℕ) × (attempt ≤ k) × (k < attempt + fuel) × (send_at ws (slot_of ws next k) ≡ disconnected)

at_first :
    (P : ℕ → Type 0) (attempt bound : ℕ)
    → P attempt
    → ((i : ℕ) → suc attempt ≤ i → i < bound → P i)
    → (i : ℕ) → attempt ≤ i
    → i < bound
    → P i
at_first P attempt bound h rest i le lt = elim (dec_le (suc attempt) i) [
  | yes more ↦ rest i more lt
  | no eq ↦ subst P (omega arith) h
]

-- A full queue at this attempt, before what the rest finds.
one_more :
    (ws : List Worker) (next attempt fuel : ℕ) (d : Dispatched)
    → send_at ws (slot_of ws next attempt) ≡ full
    → Found ws next (suc attempt) fuel d
    → Found ws next attempt (suc fuel) d
one_more ws next attempt fuel (queued_at idx) h (k, le, lt, e, s, before) = (
  k,
  omega arith,
  omega arith,
  e,
  s,
  at_first (λ i. send_at ws (slot_of ws next i) ≡ full) attempt k h before,
)
one_more ws next attempt fuel shed_503 h before = λ i le lt.
    at_first (λ j. send_at ws (slot_of ws next j) ≡ full) attempt (suc attempt + fuel) h before i le
      (omega arith)
one_more ws next attempt fuel stopped h (k, le, lt, s) = (k, omega arith, omega arith, s)

after_try-Found :
    (ws : List Worker) (next attempt fuel : ℕ) (t : TrySend) (rest : Dispatched)
    → send_at ws (slot_of ws next attempt) ≡ t
    → Found ws next (suc attempt) fuel rest
    → Found ws next attempt (suc fuel) (after_try t (slot_of ws next attempt) rest)
unfolding after_try
after_try-Found ws next attempt fuel sent rest e h =
    (attempt, omega arith, omega arith, refl, e, λ i le lt. absurd (omega arith))
after_try-Found ws next attempt fuel full rest e h = one_more ws next attempt fuel rest e h
after_try-Found ws next attempt fuel disconnected rest e h = (attempt, omega arith, omega arith, e)

dispatch_loop-Found :
    (ws : List Worker) (next attempt fuel : ℕ)
    → Found ws next attempt fuel (dispatch_loop ws next attempt fuel)
unfolding dispatch_loop
dispatch_loop-Found ws next attempt zero = λ i le lt. absurd (omega arith)
dispatch_loop-Found ws next attempt (suc fuel) =
    after_try-Found ws next attempt fuel (send_at ws (slot_of ws next attempt))
      (dispatch_loop ws next (suc attempt) fuel) refl
      (dispatch_loop-Found ws next (suc attempt) fuel)

-- Every worker is met by some attempt, of which there are as many as workers.
slot_of-onto :
    (ws : List Worker) (next j : ℕ)
    → next ≤ length ws
    → j < length ws
    → (k : ℕ) × (k < length ws) × (slot_of ws next k ≡ j)
slot_of-onto ws next j h lt = elim (dec_le next j) [
  | yes le ↦ (j - next, omega arith, ap (λ x. x % length ws) (the_sum le) ∙ mod-eq_of_lt lt)
  | no gt ↦ (
    j + length ws - next,
    omega arith,
    ap (λ x. x % length ws) (wrapped gt) ∙ add-mod_right j (length ws) ∙ mod-eq_of_lt lt,
  )
]
  where
    the_sum : next ≤ j → next + (j - next) ≡ j
    the_sum le = omega arith

    wrapped : ¬ (next ≤ j) → next + (j + length ws - next) ≡ j + length ws
    wrapped gt = omega arith

-- Where all workers receive.
abbrev pub AllReceive : List Worker → Type 0
AllReceive ws = (i : ℕ) → i < length ws → send_at ws i ≢ disconnected

-- What such a dispatch does.
abbrev pub Placed : ℕ → Acceptor → Dispatched × Acceptor → Type 0
Placed max_conns a (queued_at idx, b) =
    (send_at a.workers idx ≡ sent)
    × (idx < length a.workers)
    × (b ≡ record { live = a.live + 1; workers = enqueue_at a.workers idx; next = idx + 1 })
Placed max_conns a (shed_503, b) =
    ((i : ℕ) → i < length a.workers → send_at a.workers i ≡ full) × (b ≡ a)
Placed max_conns a (stopped, b) = ⊥

slot_of-lt : (ws : List Worker) (next k : ℕ) → 0 < length ws → slot_of ws next k < length ws
slot_of-lt ws next k pos = mod-lt (next + k) pos

granted_lem :
    (max_conns live : ℕ)
    → live < max_conns
    → max_conns < u64_mod
    → try_conn_slot max_conns live ≡ (true, live + 1)
unfolding try_conn_slot fetch_slot
granted_lem max_conns live lt h = ground arith

gave_back : (live : ℕ) → live + 1 < u64_mod → give_back (live + 1) ≡ live
unfolding give_back
gave_back live h = omega arith

next_worker : (idx : ℕ) → idx + 1 < u64_mod → wrapping_add idx 1 ≡ idx + 1
next_worker idx h = omega arith

settle_dispatch-Placed :
    (max_conns : ℕ) (a : Acceptor) (d : Dispatched)
    → a.live + 1 < u64_mod
    → a.next ≤ length a.workers
    → 0 < length a.workers
    → length a.workers < u64_mod
    → AllReceive a.workers
    → Found a.workers a.next 0 (length a.workers) d
    → Placed max_conns a (settle_dispatch (a.live + 1) a d)
unfolding settle_dispatch
settle_dispatch-Placed max_conns a (queued_at idx) hl hn pos hw all (k, _, lt, e, s, _) =
    let below = subst (λ i. i < length a.workers) (sym e) (slot_of-lt a.workers a.next k pos) in
    (
      s,
      below,
      ap (λ n. record { live = a.live + 1; workers = enqueue_at a.workers idx; next = n })
          (next_worker idx (omega (arith, below))),
    )
settle_dispatch-Placed max_conns a shed_503 hl hn pos hw all every = (
  λ i lt.
      let (k, below, e) = slot_of-onto a.workers a.next i hn lt in
      subst (λ j. send_at a.workers j ≡ full) e (every k (omega arith) (omega (arith, below))),
  ap (λ l. record { live = l; workers = a.workers; next = a.next }) (gave_back a.live hl),
)
settle_dispatch-Placed max_conns a stopped hl hn pos hw all (k, _, lt, s) =
    all (slot_of a.workers a.next k) (slot_of-lt a.workers a.next k pos) s

-- A dispatch under the budget, to one worker or more that all receive, from a worker among them or just
-- past the last: the connection is queued with a worker that had room, its slot counted and the next
-- dispatch to begin after that worker; or it is answered 503, its slot given back and nothing changed, and
-- this only where the queue of every worker is full. The budget and the workers are fewer than 2 ^ 64.
pub dispatch_conn-Placed :
    (max_conns : ℕ) (a : Acceptor)
    → a.live < max_conns
    → max_conns < u64_mod
    → a.next ≤ length a.workers
    → 0 < length a.workers
    → length a.workers < u64_mod
    → AllReceive a.workers
    → Placed max_conns a (dispatch_conn max_conns a)
unfolding dispatch_conn
dispatch_conn-Placed max_conns a lt hm hn pos hw all = rw (granted_lem max_conns a.live lt hm) (
    settle_dispatch-Placed max_conns a (dispatch_loop a.workers a.next 0 (length a.workers))
      (omega arith) hn pos hw all (dispatch_loop-Found a.workers a.next 0 (length a.workers)))
