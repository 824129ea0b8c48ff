-- ===== src/Dataplane/Bucket/Tests.antt =====
-- Runs of the bucket, and each theorem at a concrete input.
use demiurge.Base.{◌+◌, ◌≤◌, ◌≡◌, refl, arith}
use demiurge.Dataplane.Bucket.{AdmitBucket, err, bucket_exhausted, new, try_admit}
use demiurge.Dataplane.Bucket.Threads.{
  Pc, idle, release_swap, Shared, call_admit, System, update, moves, here, next, init,
}
use demiurge.Dataplane.Bucket.Safety.{Reach-conserves}

-- One token: the second caller is shed.
shed_second : (try_admit (try_admit (new 1)).1).0 ≡ err bucket_exhausted
unfolding try_admit new
shed_second = refl

abbrev three : AdmitBucket
three = record { tokens = 3; capacity = 5; shed_total = 0 }

abbrev begun : System
begun = record {
  mem = record { bucket = three; admitted = 0; returned = 0 };
  pc = update (λ _. idle) 0 Pc.admit_load;
}

Reach-conserves_example :
    (begun.mem.capacity ≡ 5)
    × (begun.mem.tokens ≤ 5)
    × (begun.mem.tokens + begun.mem.admitted ≤ 3 + begun.mem.returned)
unfolding init
Reach-conserves_example =
    Reach-conserves three {s = begun} (omega arith) (next here (moves 0 call_admit))

abbrev quiet : Shared
quiet = record { bucket = three; admitted = 2; returned = 0 }

-- A release of 4 that read 3 tokens under the capacity 5, when the bucket is reseeded to 3.
abbrev overtaken : System
overtaken = record { mem = quiet; pc = update (λ _. idle) 0 (release_swap 4 3 5) }
