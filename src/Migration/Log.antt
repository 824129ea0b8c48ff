-- ===== src/Migration/Log.antt =====
-- The log keeps the newest samples.
use demiurge.Base.{
  ℕ, zero, suc, ◌-◌, ◌≤◌, ◌<◌, ◌≡◌, refl, ap, ◌∙◌, max, Option, none, some, List, [], ◌∷◌, ◌++◌,
  leb, length, drop, length-append, arith, Bool-cases, inl, inr,
}
use mathlib.Core.List.{append_assoc, append-nil}
use demiurge.Migration.{
  MigrationStallSample, MigrationStallLog, new, default_log, record_sample, remove_first,
}

-- The last `k` elements.
pub newest : ℕ → List MigrationStallSample → List MigrationStallSample
newest k xs = drop (length xs - k) xs

-- The samples recorded in turn; no result where a call panics.
pub record_all : List MigrationStallSample → MigrationStallLog → Option MigrationStallLog
record_all [] log = some log
record_all (s ∷ ss) log = elim (record_sample s log) [
  | none ↦ none
  | some log' ↦ record_all ss log'
]

drop-snoc :
    (n : ℕ) (xs : List MigrationStallSample) (x : MigrationStallSample)
    → n ≤ length xs
    → drop n (xs ++ x ∷ []) ≡ drop n xs ++ x ∷ []
drop-snoc zero xs x h = refl
drop-snoc (suc n) [] x h = absurd (omega arith)
drop-snoc (suc n) (y ∷ xs) x h = drop-snoc n xs x (omega arith)

drop-next :
    (n : ℕ) (xs : List MigrationStallSample)
    → n < length xs
    → remove_first (drop n xs) ≡ some (drop (suc n) xs)
drop-next zero [] h = absurd (omega arith)
drop-next zero (y ∷ xs) h = refl
drop-next (suc n) [] h = absurd (omega arith)
drop-next (suc n) (y ∷ xs) h = drop-next n xs (omega arith)

length-drop : (n : ℕ) (xs : List MigrationStallSample) → length (drop n xs) ≡ length xs - n
length-drop zero xs = omega arith
length-drop (suc n) [] = omega arith
length-drop (suc n) (y ∷ xs) = omega (arith, length-drop n xs)

-- The log after `xs`, with room for `k`
abbrev log_of : ℕ → List MigrationStallSample → MigrationStallLog
log_of k xs = record { inner = newest k xs; max_samples = k }

newest-snoc_full :
    (k : ℕ) (xs : List MigrationStallSample) (x : MigrationStallSample)
    → 0 < k
    → k ≤ length xs
    → newest k (xs ++ x ∷ []) ≡ drop (suc (length xs - k)) xs ++ x ∷ []
unfolding newest
newest-snoc_full k xs x pos h =
    ap (λ n. drop n (xs ++ x ∷ [])) {x = length (xs ++ x ∷ []) - k} {y = suc (length xs - k)}
      (omega (arith, length-append xs (x ∷ [])))
    ∙ drop-snoc (suc (length xs - k)) xs x (omega arith)

newest-room : (k : ℕ) (xs : List MigrationStallSample) → length xs ≤ k → newest k xs ≡ xs
unfolding newest
newest-room k xs h = ap (λ n. drop n xs) {x = length xs - k} {y = 0} (omega arith)

record_sample-log_of :
    (k : ℕ) (xs : List MigrationStallSample) (x : MigrationStallSample)
    → 0 < k
    → record_sample x (log_of k xs) ≡ some (log_of k (xs ++ x ∷ []))
unfolding record_sample newest
record_sample-log_of k xs x pos = elim (Bool-cases (leb k (length (newest k xs)))) [
  | inl e ↦
      let full : k ≤ length xs = ground (arith, length-drop (length xs - k) xs) in
      ground (arith, drop-next (length xs - k) xs (omega arith), newest-snoc_full k xs x pos full)
  | inr e ↦
      let room : length xs < k = ground (arith, length-drop (length xs - k) xs) in
      ground (
        arith,
        newest-room k xs (omega arith),
        newest-room k (xs ++ x ∷ []) (omega (arith, length-append xs (x ∷ []))),
      )
]

record_all-some :
    (y : MigrationStallSample) (ys : List MigrationStallSample) (log log' : MigrationStallLog)
    → record_sample y log ≡ some log'
    → record_all (y ∷ ys) log ≡ record_all ys log'
unfolding record_all
record_all-some y ys log log' e = ground arith

record_all-log_of :
    (k : ℕ) (xs ys : List MigrationStallSample)
    → 0 < k
    → record_all ys (log_of k xs) ≡ some (log_of k (xs ++ ys))
unfolding record_all
record_all-log_of k xs [] pos = rw (append-nil xs) refl
record_all-log_of k xs (y ∷ ys) pos =
    record_all-some y ys _ _ (record_sample-log_of k xs y pos)
    ∙ record_all-log_of k (xs ++ y ∷ []) ys pos
    ∙ ap (λ l. some (log_of k l)) (append_assoc xs (y ∷ []) ys)

new-log_of : (max_samples : ℕ) → new max_samples ≡ log_of (max max_samples 1) []
unfolding new
new-log_of max_samples = rw (newest-room (max max_samples 1) [] (omega arith)) refl

-- A new log takes every sample without a panic, and then holds the newest ones: the last
-- `max_samples`, or the last one where the bound given is 0.
pub record_all-new :
    (max_samples : ℕ) (ys : List MigrationStallSample)
    → record_all ys (new max_samples)
      ≡ some (record { inner = newest (max max_samples 1) ys; max_samples = max max_samples 1 })
record_all-new max_samples ys =
    ap (record_all ys) (new-log_of max_samples)
    ∙ record_all-log_of (max max_samples 1) [] ys (omega arith)

-- The log of the derived `Default` panics at its first sample.
pub record_sample-default : (s : MigrationStallSample) → record_sample s default_log ≡ none
unfolding record_sample default_log
record_sample-default s = refl
