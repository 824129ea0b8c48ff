-- ===== src/Handoff/Registry.antt =====
-- `HandoffRegistry`: an artifact is taken once, the samples are bounded, and what is reported of them.
use demiurge.Base.{
  ℕ, every_below, every_below_lem, ◌+◌, ◌-◌, ◌/◌, ◌≤◌, ◌≡◌, ◌≢◌, refl, min, true, none, some, List,
  [], ◌∷◌, nat_key, length, length-append, length-pop_front, pop_front, sort, sort-IsSorted,
  length-sort, IsSorted, IsSorted-get_or, arith, leb, u64_max, Bool-cases, inl, inr,
}
use demiurge.Base.Float.{mul_floor}
use demiurge.Base.Maps.{lookup, lookup-insert, lookup-remove}
use demiurge.Handoff.{
  transfer_samples, HandoffDescriptor, is_valid, HandoffRegistry, new, publish, get, take_handoff,
  push_sample, record_transfer, percentile, p50, p99, transfer_metrics,
}

-- A published artifact is taken once: the first taker has it, the next finds nothing, and those of
-- the other requests are as they were. The artifact is a valid one.
pub take_handoff-publish :
    (desc : HandoffDescriptor) (r : HandoffRegistry)
    → is_valid desc ≡ true
    → ((take_handoff desc.request_id (publish desc r)).0 ≡ some desc)
      × (get desc.request_id (take_handoff desc.request_id (publish desc r)).1 ≡ none)
      × ((j : ℕ)
          → j ≢ desc.request_id
          → get j (take_handoff desc.request_id (publish desc r)).1 ≡ get j r)
unfolding take_handoff publish get
take_handoff-publish desc r h = (
  ground (arith, lookup-insert desc.request_id desc.request_id desc r.inner),
  ground (arith, lookup-remove desc.request_id desc.request_id (publish desc r).inner),
  λ j ne. ground (
    arith,
    lookup-remove j desc.request_id (publish desc r).inner,
    lookup-insert j desc.request_id desc r.inner,
  ),
)

-- The calls that change the registry.
pub data Call : Type 0 where
  published : HandoffDescriptor → Call
  taken : ℕ → Call
  recorded : ℕ → ℕ → Call

unfoldable pub apply : Call → HandoffRegistry → HandoffRegistry
apply (published desc) r = publish desc r
apply (taken request_id) r = (take_handoff request_id r).1
apply (recorded byte_count wall) r = record_transfer byte_count wall r

unfoldable pub run : List Call → HandoffRegistry → HandoffRegistry
unfolding apply
run [] r = r
run (c ∷ cs) r = run cs (apply c r)

-- What is stored is valid and stands under its own number; the two logs are as long as each other,
-- and bounded.
pub record IsSound (r : HandoffRegistry) : Type 0 where
  pub stored :
      (id : ℕ) (d : HandoffDescriptor)
      → get id r ≡ some d
      → (is_valid d ≡ true) × (d.request_id ≡ id)
  pub paired : length r.transfer_bytes ≡ length r.transfer_wall_us
  pub bounded : length r.transfer_bytes ≤ transfer_samples

length-push_sample :
    (x : ℕ) (xs : List ℕ)
    → length xs ≤ transfer_samples
    → length (push_sample x xs) ≡ min (length xs + 1) transfer_samples
length-push_sample x xs h =
    ground
      (arith, length-append xs (x ∷ []), length-append (pop_front xs) (x ∷ []), length-pop_front xs)

publish-IsSound :
    (desc : HandoffDescriptor) (r : HandoffRegistry) → IsSound r → IsSound (publish desc r)
unfolding publish get
publish-IsSound desc r v = elim (Bool-cases (is_valid desc)) [
  | inl e ↦ record {
    stored = λ id d p. ground (arith, lookup-insert id desc.request_id desc r.inner, v.stored id d);
    paired = ground (arith, v.paired);
    bounded = ground (arith, v.bounded);
  }
  | inr e ↦ rw (e) v
]

take_handoff-IsSound :
    (request_id : ℕ) (r : HandoffRegistry) → IsSound r → IsSound (take_handoff request_id r).1
unfolding take_handoff get
take_handoff-IsSound request_id r v = record {
  stored = λ id d p. ground (arith, lookup-remove id request_id r.inner, v.stored id d);
  paired = v.paired;
  bounded = v.bounded;
}

record_transfer-IsSound :
    (n wall : ℕ) (r : HandoffRegistry) → IsSound r → IsSound (record_transfer n wall r)
unfolding record_transfer get
record_transfer-IsSound n wall r v = record {
  stored = λ id d p. ground (arith, v.stored id d);
  paired = ground (
    arith,
    v.paired,
    v.bounded,
    length-push_sample n r.transfer_bytes v.bounded,
    length-push_sample (min (wall / 1000) u64_max) r.transfer_wall_us,
  );
  bounded = ground (arith, v.bounded, length-push_sample n r.transfer_bytes v.bounded);
}

apply-IsSound : (c : Call) (r : HandoffRegistry) → IsSound r → IsSound (apply c r)
unfolding apply
apply-IsSound (published desc) r v = publish-IsSound desc r v
apply-IsSound (taken id) r v = take_handoff-IsSound id r v
apply-IsSound (recorded n wall) r v = record_transfer-IsSound n wall r v

run-IsSound_of : (cs : List Call) (r : HandoffRegistry) → IsSound r → IsSound (run cs r)
unfolding run
run-IsSound_of [] r v = v
run-IsSound_of (c ∷ cs) r v = run-IsSound_of cs (apply c r) (apply-IsSound c r v)

new-IsSound : IsSound new
unfolding new get lookup
new-IsSound = record { stored = λ id d p. cc; paired = refl; bounded = omega arith }

-- After any calls on a new registry, every stored artifact is valid and stands under its own request,
-- and the logs of sizes and times are equally long and hold at most 1024 samples.
pub run-IsSound : (cs : List Call) → IsSound (run cs new)
run-IsSound cs = run-IsSound_of cs new new-IsSound

abbrev rank : ℕ × ℕ → ℕ → ℕ
rank p n = mul_floor p.0 p.1 n

ranks_table : every_below (λ n. leb (rank p50 n) (rank p99 n)) 1025 ≡ true
unfolding every_below mul_floor
ranks_table = refl

ranks_ordered : (n : ℕ) → n ≤ 1024 → rank p50 n ≤ rank p99 n
ranks_ordered n h =
    ground
      (arith, every_below_lem (λ n. leb (rank p50 n) (rank p99 n)) 1025 n ranks_table (omega arith))

percentile_ordered :
    (xs : List ℕ) → length xs ≤ 1024 → percentile (sort xs) p50 ≤ percentile (sort xs) p99
unfolding percentile
percentile_ordered xs h = go (sort xs) (sort-IsSorted xs) (omega (arith, length-sort xs))
  where
    go : (ys : List ℕ) → IsSorted ys → length ys ≤ 1024 → percentile ys p50 ≤ percentile ys p99
    go [] s b = omega arith
    go (y ∷ ys) s b =
        IsSorted-get_or (y ∷ ys) (min (rank p50 (length (y ∷ ys))) (length (y ∷ ys) - 1))
          (min (rank p99 (length (y ∷ ys))) (length (y ∷ ys) - 1)) s
          (omega (arith, ranks_ordered (length (y ∷ ys)) b)) (omega arith)

-- For a registry in such a state the report counts all samples, and no median is above its 99th percentile.
pub transfer_metrics_ordered :
    (r : HandoffRegistry)
    → IsSound r
    → ((transfer_metrics r).count ≡ length r.transfer_bytes)
      × ((transfer_metrics r).bytes_p50 ≤ (transfer_metrics r).bytes_p99)
      × ((transfer_metrics r).wall_us_p50 ≤ (transfer_metrics r).wall_us_p99)
unfolding transfer_metrics
transfer_metrics_ordered r v = go r.transfer_bytes refl
  where
    go :
        (bs : List ℕ)
        → r.transfer_bytes ≡ bs
        → ((transfer_metrics r).count ≡ length r.transfer_bytes)
          × ((transfer_metrics r).bytes_p50 ≤ (transfer_metrics r).bytes_p99)
          × ((transfer_metrics r).wall_us_p50 ≤ (transfer_metrics r).wall_us_p99)
    go [] e = ground arith
    go (b ∷ bs) e = ground (
      arith,
      v.paired,
      v.bounded,
      length-sort (b ∷ bs),
      percentile_ordered (b ∷ bs),
      percentile_ordered r.transfer_wall_us,
    )
