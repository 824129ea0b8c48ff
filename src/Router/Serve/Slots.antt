-- ===== src/Router/Serve/Slots.antt =====
-- Any number of threads that take and drop slots of the budget of live connections, one atomic access
-- at a time.
use demiurge.Base.{
  ℕ, zero, suc, ◌+◌, ◌-◌, ◌≡◌, refl, ◌≤◌, ◌<◌, u64_mod, arith, true, false, List, [], ◌∷◌, ◌++◌,
  length, length-append,
}
use demiurge.Router.Serve.{fetch_slot, give_back}

-- Where a thread is in `try_conn_slot`: not within it, or refused and yet to give back.
pub data Caller : Type 0 where
  outside refused : Caller

-- The counter, the slots that are held, and the threads.
pub record Slots : Type 0 where
  pub live : ℕ
  pub held : ℕ
  pub threads : List Caller

unfoldable pub all_outside : ℕ → List Caller
all_outside zero = []
all_outside (suc n) = outside ∷ all_outside n

unfoldable pub start : ℕ → Slots
unfolding all_outside
start n = record { live = 0; held = 0; threads = all_outside n }

-- A step of one thread, among those before and after it, or of the drop of a slot that is held.
pub data Step (max_conns : ℕ) : Slots → Slots → Type 0 where
  grant :
      (s : Slots) (before after : List Caller)
      → s.threads ≡ before ++ (outside ∷ after)
      → (fetch_slot max_conns s.live).0 ≡ true
      → Step max_conns s (record {
        live = (fetch_slot max_conns s.live).1;
        held = s.held + 1;
        threads = before ++ (outside ∷ after);
      })
  refuse :
      (s : Slots) (before after : List Caller)
      → s.threads ≡ before ++ (outside ∷ after)
      → (fetch_slot max_conns s.live).0 ≡ false
      → Step max_conns s (record {
        live = (fetch_slot max_conns s.live).1;
        held = s.held;
        threads = before ++ (refused ∷ after);
      })
  undo :
      (s : Slots) (before after : List Caller)
      → s.threads ≡ before ++ (refused ∷ after)
      → Step max_conns s
          (record { live = give_back s.live; held = s.held; threads = before ++ (outside ∷ after) })
  drop_slot :
      (s : Slots)
      → 0 < s.held
      → Step max_conns s
          (record { live = give_back s.live; held = s.held - 1; threads = s.threads })

pub data Reach (max_conns threads : ℕ) : Slots → Type 0 where
  begin : Reach max_conns threads (start threads)
  next : (s t : Slots) → Reach max_conns threads s → Step max_conns s t → Reach max_conns threads t

-- How many threads have yet to give back.
unfoldable pub refusals : List Caller → ℕ
refusals [] = 0
refusals (outside ∷ threads) = refusals threads
refusals (refused ∷ threads) = suc (refusals threads)

refusals-append :
    (before after : List Caller) → refusals (before ++ after) ≡ refusals before + refusals after
unfolding refusals
refusals-append [] after = omega arith
refusals-append (outside ∷ before) after = refusals-append before after
refusals-append (refused ∷ before) after = omega (arith, refusals-append before after)

refusals-le-length : (threads : List Caller) → refusals threads ≤ length threads
unfolding refusals
refusals-le-length [] = omega arith
refusals-le-length (outside ∷ threads) = omega (arith, refusals-le-length threads)
refusals-le-length (refused ∷ threads) = omega (arith, refusals-le-length threads)

length-all_outside : (n : ℕ) → length (all_outside n) ≡ n
unfolding all_outside
length-all_outside zero = refl
length-all_outside (suc n) = omega (arith, length-all_outside n)

refusals-all_outside : (n : ℕ) → refusals (all_outside n) ≡ 0
unfolding all_outside refusals
refusals-all_outside zero = refl
refusals-all_outside (suc n) = refusals-all_outside n

-- A thread that moves changes the count by itself, and there are as many threads.
moved :
    {threads : List Caller} (before after : List Caller) (a b : Caller)
    → threads ≡ before ++ (a ∷ after)
    → (refusals (before ++ (b ∷ after)) + refusals (a ∷ []) ≡ refusals threads + refusals (b ∷ []))
      × (length (before ++ (b ∷ after)) ≡ length threads)
moved before after a b e = rw e (
  omega (
    arith,
    refusals-append before (a ∷ after),
    refusals-append before (b ∷ after),
    refusals-append (a ∷ []) after,
    refusals-append (b ∷ []) after,
  ),
  omega (arith, length-append before (a ∷ after), length-append before (b ∷ after)),
)

-- What holds of every state that is reached, of `n` threads.
abbrev Bounded : ℕ → ℕ → Slots → Type 0
Bounded max_conns n s =
    (s.held ≤ max_conns) × (s.live ≡ s.held + refusals s.threads) × (length s.threads ≡ n)

Step-Bounded :
    (max_conns n : ℕ) {s t : Slots}
    → max_conns + n < u64_mod
    → Step max_conns s t
    → Bounded max_conns n s
    → Bounded max_conns n t
unfolding fetch_slot give_back refusals
Step-Bounded max_conns n h (grant s before after e g) v =
    ground (arith, moved before after outside outside e, refusals-le-length s.threads)
Step-Bounded max_conns n h (refuse s before after e g) v =
    ground (
      arith,
      moved before after outside refused e,
      refusals-le-length (before ++ (refused ∷ after)),
    )
Step-Bounded max_conns n h (undo s before after e) v =
    ground (arith, moved before after refused outside e, refusals-le-length s.threads)
Step-Bounded max_conns n h (drop_slot s lt) v = ground (arith, refusals-le-length s.threads)

Reach-Bounded :
    (max_conns n : ℕ) (s : Slots)
    → max_conns + n < u64_mod
    → Reach max_conns n s
    → Bounded max_conns n s
unfolding start
Reach-Bounded max_conns n _ h begin =
    (omega arith, omega (arith, refusals-all_outside n), length-all_outside n)
Reach-Bounded max_conns n t h (next s _ r st) =
    Step-Bounded max_conns n h st (Reach-Bounded max_conns n s h r)

-- Whatever threads take and drop slots, and however their steps interleave, no more slots are held than
-- the budget allows, and the counter is just the slots that are held and the refused calls that have yet
-- to give back, of which there is one for a thread at most. The budget and the threads are together
-- fewer than 2 ^ 64, and a slot is dropped only while one is held.
pub Reach-bounded :
    (max_conns threads : ℕ) (s : Slots)
    → max_conns + threads < u64_mod
    → Reach max_conns threads s
    → (s.held ≤ max_conns) × (s.live ≡ s.held + refusals s.threads) × (refusals s.threads ≤ threads)
Reach-bounded max_conns threads s h r =
    let v = Reach-Bounded max_conns threads s h r in
    (v.0, v.1, omega (arith, refusals-le-length s.threads, v.2))
