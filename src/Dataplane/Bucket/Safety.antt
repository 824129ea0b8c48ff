-- ===== src/Dataplane/Bucket/Safety.antt =====
-- While nobody reseeds, the bucket is never above its capacity, and no more calls are admitted than
-- there were tokens.
use demiurge.Base.{ℕ, ◌+◌, ◌≤◌, ◌<◌, ◌≡◌, refl, arith}
use demiurge.Dataplane.Bucket.{AdmitBucket}
use demiurge.Dataplane.Bucket.Threads.{
  Pc, admit_swap, release_swap, Shared, Move, swapped, given_back, loaded, read_capacity, System,
  Step, moves, Reach, here, next, init,
}

-- What a thread has read still holds of the memory.
abbrev IsFresh : ℕ → Pc → Type 0
IsFresh capacity (admit_swap cur) = 0 < cur
IsFresh capacity (release_swap count cur cap) = cap ≡ capacity
IsFresh capacity p = Unit

record Inv (first : AdmitBucket) (s : System) : Type 0 where
  kept : s.mem.capacity ≡ first.capacity
  within : s.mem.tokens ≤ first.capacity
  conserved : s.mem.tokens + s.mem.admitted ≤ first.tokens + s.mem.returned
  fresh : (i : ℕ) → IsFresh first.capacity (s.pc i)

-- What a move does to the shared counts, and the place that it leaves the thread at.
record MoveKeeps (first : AdmitBucket) (m : Shared) (p : Pc) : Type 0 where
  kept : m.capacity ≡ first.capacity
  within : m.tokens ≤ first.capacity
  conserved : m.tokens + m.admitted ≤ first.tokens + m.returned
  fresh : IsFresh first.capacity p

Move-keeps :
    {first : AdmitBucket} {m m' : Shared} {p p' : Pc}
    → Move m p m' p'
    → MoveKeeps first m p
    → MoveKeeps first m' p'
Move-keeps (loaded e p) k = ground arith
Move-keeps (swapped e) k = ground arith
Move-keeps (read_capacity e) k = ground arith
Move-keeps (given_back e) k = ground arith
Move-keeps mv k = ground arith

Step-Inv : {first : AdmitBucket} {s t : System} → Step s t → Inv first s → Inv first t
Step-Inv {first} {s} (moves i {m} {p} mv) v = record {
  kept = k.kept;
  within = k.within;
  conserved = k.conserved;
  fresh = λ j. ground (arith, v.fresh j, k.fresh);
}
  where
    k : MoveKeeps first m p
    k =
        Move-keeps mv
          (record { kept = v.kept; within = v.within; conserved = v.conserved; fresh = v.fresh i })

Reach-Inv : {first : AdmitBucket} {s t : System} → Inv first s → Reach s t → Inv first t
Reach-Inv v here = v
Reach-Inv v (next r st) = Step-Inv st (Reach-Inv v r)

-- However the calls of any number of threads interleave, the capacity stays, the tokens never exceed
-- it, and the admissions are at most the tokens there were and those handed back. The bucket begins
-- within its capacity, and no reseed runs.
pub Reach-conserves :
    (b : AdmitBucket) {s : System}
    → b.tokens ≤ b.capacity
    → Reach (init b) s
    → (s.mem.capacity ≡ b.capacity)
      × (s.mem.tokens ≤ b.capacity)
      × (s.mem.tokens + s.mem.admitted ≤ b.tokens + s.mem.returned)
unfolding init
Reach-conserves b {s} h r = (v.kept, v.within, v.conserved)
  where
    v : Inv b s
    v = Reach-Inv (record { kept = refl; within = h; conserved = omega arith; fresh = λ _. tt }) r
