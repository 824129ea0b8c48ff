-- ===== src/Dataplane/Bucket/Threads.antt =====
-- The bucket under any number of threads: each atomic load, store and compare-and-swap is one step.
-- `admitted` and `returned` count, beside the program, the tokens taken and handed back.
use demiurge.Base.{ℕ, ◌+◌, ◌-◌, ◌≡◌, ◌<◌, ite, min, max, ℕ_discrete, wrapping_add}
use demiurge.Dataplane.Bucket.{AdmitBucket, Admit, ok, err, bucket_exhausted}

-- Where a thread stands: `try_admit` and `release` before and after their loads, `reseed` between
-- its two stores, and what a `try_admit` returned.
pub data Pc : Type 0 where
  idle : Pc
  admit_load : Pc
  admit_swap : ℕ → Pc
  admit_shed : Pc
  admit_done : Admit → Pc
  release_load : ℕ → Pc
  release_read_cap : ℕ → ℕ → Pc
  release_swap : ℕ → ℕ → ℕ → Pc
  reseed_tokens : ℕ → Pc

pub record Shared : Type 0 where
  pub bucket : AdmitBucket
  pub open bucket use *
  pub admitted : ℕ
  pub returned : ℕ

abbrev pub set_tokens : ℕ → Shared → Shared
set_tokens n m = record m { bucket = record m.bucket { tokens = n } }

-- What one thread can do next to the shared state and its own place. A weak compare-and-swap may
-- fail also where the value is the expected one.
pub data Move (m : Shared) : Pc → Shared → Pc → Type 0 where
  call_admit : Move m idle m admit_load
  saw_empty : m.tokens ≡ 0 → Move m admit_load m admit_shed
  shed :
      Move m admit_shed
        (record m { bucket = record m.bucket { shed_total = wrapping_add m.shed_total 1 } })
        (admit_done (err bucket_exhausted))
  loaded : {cur : ℕ} → m.tokens ≡ cur → 0 < cur → Move m admit_load m (admit_swap cur)
  swapped :
      {cur : ℕ}
      → m.tokens ≡ cur
      → Move m
          (admit_swap cur)
          (record (set_tokens (cur - 1) m) { admitted = m.admitted + 1 })
          (admit_done ok)
  admit_retry : {cur : ℕ} → Move m (admit_swap cur) m admit_load
  finished : {r : Admit} → Move m (admit_done r) m idle
  call_release : {count : ℕ} → 0 < count → Move m idle m (release_load count)
  read_tokens :
      {count cur : ℕ} → m.tokens ≡ cur → Move m (release_load count) m (release_read_cap count cur)
  read_capacity :
      {count cur cap : ℕ}
      → m.capacity ≡ cap
      → Move m (release_read_cap count cur) m (release_swap count cur cap)
  given_back :
      {count cur cap : ℕ}
      → m.tokens ≡ cur
      → Move m
          (release_swap count cur cap)
          (record (set_tokens (min (wrapping_add cur count) cap) m) {
            returned = m.returned + count;
          })
          idle
  release_retry : {count cur cap : ℕ} → Move m (release_swap count cur cap) m (release_load count)

-- The two stores of a `reseed`, which the control plane makes.
pub data Reseeding (m : Shared) : Pc → Shared → Pc → Type 0 where
  store_capacity :
      (capacity : ℕ)
      → Reseeding m idle
          (record m { bucket = record m.bucket { capacity = max capacity 1 } })
          (reseed_tokens (max capacity 1))
  store_tokens : {cap : ℕ} → Reseeding m (reseed_tokens cap) (set_tokens cap m) idle

pub record System : Type 0 where
  pub mem : Shared
  pub pc : ℕ → Pc

abbrev pub update : (ℕ → Pc) → ℕ → Pc → ℕ → Pc
update f i p j = ite (ℕ_discrete i j) p (f j)

-- Some thread makes a move.
pub data Step (s : System) : System → Type 0 where
  moves :
      (i : ℕ) {m : Shared} {p : Pc}
      → Move s.mem (s.pc i) m p
      → Step s (record { mem = m; pc = update s.pc i p })

-- A reseed makes a move.
pub data ReseedStep (s : System) : System → Type 0 where
  reseeds :
      (i : ℕ) {m : Shared} {p : Pc}
      → Reseeding s.mem (s.pc i) m p
      → ReseedStep s (record { mem = m; pc = update s.pc i p })

-- What the steps reach while nobody reseeds.
pub data Reach (s : System) : System → Type 0 where
  here : Reach s s
  next : {t u : System} → Reach s t → Step t u → Reach s u

-- The same, with reseeds among the steps.
pub data ReachAny (s : System) : System → Type 0 where
  start : ReachAny s s
  then_step : {t u : System} → ReachAny s t → Step t u → ReachAny s u
  then_reseed : {t u : System} → ReachAny s t → ReseedStep t u → ReachAny s u

unfoldable pub init : AdmitBucket → System
init b = record { mem = record { bucket = b; admitted = 0; returned = 0 }; pc = λ _. idle }
