-- ===== src/Cost/Compose/Assembly.antt =====
-- The assembly of the barriers, against what it promises: none is left out in silence.
use demiurge.Base.{
  ℕ, zero, suc, ◌-◌, ◌≡◌, ◌≤◌, ◌<◌, refl, sym, ap, ◌∙◌, false, List, [], ◌∷◌, ◌++◌, le→leb,
  length-append, length-take_le, leb, if◌then◌else◌, length, take, arith, Bool-cases, inl, inr,
}
use mathlib.Core.List.{append_assoc, append-nil}
use demiurge.Base.F64.{F64}
use demiurge.Cost.Factors.{one_f, max_value, clamped_barrier, time_core}
use demiurge.Cost.Compose.{
  max_service_barriers, set_slot, append_barriers, in_use, no_barriers, queue_barrier, compose,
  service_cost,
}

length-set_slot : {A : Type 0} (xs : List A) (i : ℕ) (x : A) → length (set_slot xs i x) ≡ length xs
length-set_slot [] i x = refl
length-set_slot (y ∷ ys) zero x = refl
length-set_slot (y ∷ ys) (suc i) x = ap suc (length-set_slot ys i x)

take-set_slot :
    {A : Type 0} (xs : List A) (i : ℕ) (x : A)
    → i < length xs
    → take (suc i) (set_slot xs i x) ≡ take i xs ++ (x ∷ [])
take-set_slot [] i x h = absurd (omega arith)
take-set_slot (y ∷ ys) zero x h = refl
take-set_slot (y ∷ ys) (suc i) x h = ap (λ r. y ∷ r) (take-set_slot ys i x (omega arith))

take-append : {A : Type 0} (n : ℕ) (xs ys : List A) → n ≤ length xs → take n (xs ++ ys) ≡ take n xs
take-append zero xs ys h = refl
take-append (suc n) [] ys h = absurd (omega arith)
take-append (suc n) (x ∷ xs) ys h = ap (λ r. x ∷ r) (take-append n xs ys (omega arith))

take-take : {A : Type 0} (m n : ℕ) (xs : List A) → m ≤ n → take m (take n xs) ≡ take m xs
take-take zero n xs h = refl
take-take (suc m) zero xs h = absurd (omega arith)
take-take (suc m) (suc n) [] h = refl
take-take (suc m) (suc n) (x ∷ xs) h = ap (λ r. x ∷ r) (take-take m n xs (omega arith))

module _ (D : F64) where
  abbrev largest : D.F
  largest = clamped_barrier D (max_value D)

  -- What is promised: all barriers where they fit in the slots; else as many as leave the last slot,
  -- which is the largest barrier.
  pub fit : ℕ → List D.F → List D.F
  fit slots wanted =
      if leb (length wanted) slots then wanted else take (slots - 1) wanted ++ (largest ∷ [])

  fit_step :
      (buf : List D.F) (len : ℕ) (b : D.F) (bs : List D.F)
      → len < length buf
      → fit (length (set_slot buf len b)) (take (suc len) (set_slot buf len b) ++ bs)
        ≡ fit (length buf) (take len buf ++ (b ∷ bs))
  fit_step buf len b bs h =
      rw
        (
          length-set_slot buf len b,
          take-set_slot buf len b h,
          append_assoc (take len buf) (b ∷ []) bs,
        )
        refl

  pred : (k : ℕ) → suc k - 1 ≡ k
  pred k = omega arith

  overflows :
      (buf : List D.F) (len : ℕ) (b : D.F) (bs : List D.F)
      → len ≡ length buf
      → leb (length (take len buf ++ (b ∷ bs))) (length buf) ≡ false
  overflows buf len b bs e =
      rw (length-append (take len buf) (b ∷ bs), length-take_le len buf (omega arith))
        (ground arith)

  -- A further barrier, where no slot is left.
  fit_full :
      (buf : List D.F) (len : ℕ) (b : D.F) (bs : List D.F)
      → len ≡ length buf
      → 0 < len
      → take len (set_slot buf (length buf - 1) largest)
        ≡ fit (length buf) (take len buf ++ (b ∷ bs))
  unfolding fit
  fit_full buf zero b bs e pos = absurd (omega arith)
  fit_full buf (suc k) b bs e pos =
      rw
        (
          overflows buf (suc k) b bs e,
          sym e,
          pred k,
          take-set_slot buf k largest (omega arith),
          take-append k (take (suc k) buf) (b ∷ bs)
              (omega (arith, length-take_le (suc k) buf (omega arith))),
          take-take k (suc k) buf (omega arith),
        )
        refl

  fit_all :
      (buf : List D.F) (len : ℕ)
      → len ≤ length buf
      → take len buf ≡ fit (length buf) (take len buf ++ [])
  unfolding fit
  fit_all buf len h =
      rw (append-nil (take len buf), length-take_le len buf h, le→leb len (length buf) h) refl

  in_use-append_barriers :
      (buf : List D.F) (len : ℕ) (extras : List D.F)
      → len ≤ length buf
      → 0 < len
      → in_use D (append_barriers D buf len extras) ≡ fit (length buf) (take len buf ++ extras)
  unfolding append_barriers in_use
  in_use-append_barriers buf len [] h pos = fit_all buf len h
  in_use-append_barriers buf len (b ∷ bs) h pos = elim (Bool-cases (leb (length buf) len)) [
    | inl full ↦ rw (full) (fit_full buf len b bs (ground arith) pos)
    | inr free ↦ rw (free) (
        in_use-append_barriers (set_slot buf len b) (suc len) bs
          (rw (length-set_slot buf len b) (ground arith)) (omega arith)
        ∙ fit_step buf len b bs (ground arith))
  ]

  -- A service's cost is composed of its core, its discounts and, in their order, the barrier of the queue
  -- and all further barriers where these are at most 15; where they are more, it is composed of the
  -- queue's, the first 14 of them and the largest barrier there is.
  pub service_cost_lem :
      (core_seconds : D.F) (inflight : ℕ) (extra discounts : List D.F)
      → service_cost D core_seconds inflight extra discounts
        ≡ compose D
            (time_core D core_seconds)
            (fit max_service_barriers (queue_barrier D inflight ∷ extra))
            discounts
            (one_f D)
  unfolding service_cost no_barriers
  service_cost_lem core_seconds inflight extra discounts =
      ap (λ bs. compose D (time_core D core_seconds) bs discounts (one_f D))
        (in_use-append_barriers (set_slot (no_barriers D) 0 (queue_barrier D inflight)) 1 extra
          (omega arith) (omega arith))
