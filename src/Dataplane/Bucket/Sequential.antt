-- ===== src/Dataplane/Bucket/Sequential.antt =====
-- A call that runs alone does what the sequential functions say.
use demiurge.Base.{ℕ, ◌+◌, ◌-◌, ◌≤◌, ◌<◌, ◌≡◌, refl, min, arith, u64_mod, wrapping_add, dec_lt}
use demiurge.Dataplane.Bucket.{AdmitBucket, ok, err, bucket_exhausted, try_admit, release}
use demiurge.Dataplane.Bucket.Threads.{
  Pc, idle, admit_done, Shared, Move, call_admit, saw_empty, shed, loaded, swapped, call_release,
  read_tokens, read_capacity, given_back,
}

-- Moves of one thread while the others stand still.
pub data Alone (m : Shared) (p : Pc) : Shared → Pc → Type 0 where
  done : Alone m p m p
  also : {m' m'' : Shared} {p' p'' : Pc} → Alone m p m' p' → Move m' p' m'' p'' → Alone m p m'' p''

try_admit-pos :
    (b : AdmitBucket) → 0 < b.tokens → try_admit b ≡ (ok, record b { tokens = b.tokens - 1 })
unfolding try_admit
try_admit-pos b h = ground arith

try_admit-zero :
    (b : AdmitBucket)
    → b.tokens ≡ 0
    → try_admit b ≡ (err bucket_exhausted, record b { shed_total = wrapping_add b.shed_total 1 })
unfolding try_admit
try_admit-zero b h = ground arith

-- A `try_admit` that runs alone ends with the sequential outcome, in the sequential bucket.
pub try_admit-Alone :
    (m : Shared)
    → (n : ℕ) × Alone m idle
        (record m { bucket = (try_admit m.bucket).1; admitted = n })
        (admit_done (try_admit m.bucket).0)
try_admit-Alone m = elim (dec_lt 0 m.tokens) [
  | yes p ↦ (
    m.admitted + 1,
    rw (try_admit-pos m.bucket p)
        (also (also (also done call_admit) (loaded refl p)) (swapped refl)),
  )
  | no n ↦
      let empty : m.tokens ≡ 0 = omega arith in
      (
        m.admitted,
        rw (try_admit-zero m.bucket empty)
            (also (also (also done call_admit) (saw_empty empty)) shed),
      )
]

release-pos :
    (count : ℕ) (b : AdmitBucket)
    → 0 < count
    → release count b ≡ record b { tokens = min (wrapping_add b.tokens count) b.capacity }
unfolding release
release-pos count b h = ground arith

-- A `release` of some tokens that runs alone ends in the sequential bucket.
pub release-Alone :
    (count : ℕ) (m : Shared)
    → 0 < count
    → Alone m idle
        (record m { bucket = release count m.bucket; returned = m.returned + count })
        idle
release-Alone count m h = rw (release-pos count m.bucket h) (
    also (also (also (also done (call_release h)) (read_tokens refl)) (read_capacity refl))
      (given_back refl))

-- Without interference, tokens taken and handed back leave the bucket as it was, if it was within
-- its capacity: an admission followed by the release of one token.
pub release-try_admit :
    (b : AdmitBucket)
    → 0 < b.tokens
    → b.tokens ≤ b.capacity
    → b.capacity < u64_mod
    → release 1 (try_admit b).1 ≡ b
unfolding release try_admit
release-try_admit b p h c = ground arith
