-- ===== src/Dataplane/Bucket.antt =====
-- crates/demiurge-dataplane/src/admission.rs: the token bucket. The functions below are the calls
-- without interference, where the compare-and-swap of a loop succeeds in its first round; `Threads`
-- has the loops as interleaved atomic steps.
pub mod Threads
pub mod Safety
pub mod Sequential
pub mod Reseed
mod Tests
use demiurge.Base.{ℕ, ◌+◌, ◌-◌, min, max, ◌==◌, if◌then◌else◌, wrapping_add}

pub data ShedReason : Type 0 where
  bucket_exhausted : ShedReason

pub data Admit : Type 0 where
  ok : Admit
  err : ShedReason → Admit

pub record AdmitBucket : Type 0 where
  pub tokens : ℕ
  pub capacity : ℕ
  pub shed_total : ℕ

unfoldable pub new : ℕ → AdmitBucket
new capacity = let cap = max capacity 1 in record { tokens = cap; capacity = cap; shed_total = 0 }

pub available : AdmitBucket → ℕ
available b = b.tokens

unfoldable pub try_admit : AdmitBucket → Admit × AdmitBucket
try_admit b =
    if b.tokens == 0
    then (err bucket_exhausted, record b { shed_total = wrapping_add b.shed_total 1 })
    else (ok, record b { tokens = b.tokens - 1 })

-- `cur + count` wraps in a release build.
unfoldable pub release : ℕ → AdmitBucket → AdmitBucket
release count b =
    if count == 0 then b else record b { tokens = min (wrapping_add b.tokens count) b.capacity }

unfoldable pub reseed : ℕ → AdmitBucket → AdmitBucket
reseed capacity b = let cap = max capacity 1 in record b { tokens = cap; capacity = cap }
