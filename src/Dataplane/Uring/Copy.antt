-- ===== src/Dataplane/Uring/Copy.antt =====
-- What a session copies, when the kernel takes what is written whole and when it does not.
use demiurge.Base.{
  ℕ, zero, suc, ◌+◌, ◌-◌, ◌≤◌, ◌≡◌, ◌⊎◌, inl, inr, refl, ap, ap₂, ◌∙◌, sym, Bool, true, false, not,
  List, [], ◌∷◌, ◌++◌, min, ltb, ◌==◌, if◌then◌else◌, length, take, drop, length-drop, All, arith,
  Bytes,
}
use demiurge.Dataplane.Uring.{
  iov_max, given, Write, wrote, write_failed, Copied, ok, copy_from, copy_stream,
}

-- Every read has a byte at least, as long as the stream has, and every write takes a whole buffer.
abbrev pub IsWhole : ℕ × Write → Type 0
IsWhole (offer, wrote ready) = (1 ≤ offer) × (iov_max ≤ ready)
IsWhole (offer, write_failed e) = 1 ≤ 0

take-nil : (n : ℕ) → ◌≡◌ {A = Bytes} (take n []) []
take-nil zero = refl
take-nil (suc n) = refl

take-drop : (n m : ℕ) (xs : Bytes) → n ≤ m → take n xs ++ take (m - n) (drop n xs) ≡ take m xs
take-drop zero m xs h = ap (λ k. take k xs) (omega arith)
take-drop (suc n) zero xs h = absurd (omega arith)
take-drop (suc n) (suc m) [] h = rw (take-nil (suc m - suc n)) refl
take-drop (suc n) (suc m) (x ∷ xs) h =
    ap (◌∷◌ x)
      (ap (λ k. take n xs ++ take k (drop n xs)) (omega arith) ∙ take-drop n m xs (omega arith))

-- The loop ends when all is copied: there is no room, or nothing to read.
stopped :
    (max total : ℕ) (incoming : Bytes)
    → total ≤ max
    → (total ≡ max) ⊎ (length incoming ≡ 0)
    → ◌≡◌ {A = Copied × Bytes}
        (ok total, [])
        (ok (min max (total + length incoming)), take (max - total) incoming)
stopped max total incoming h (inl full) =
    let no_room : 0 ≡ max - total = omega arith in
    ap₂ (λ t b. (ok t, b)) (omega arith) (ap (λ k. take k incoming) no_room)
stopped max total [] h (inr nothing) =
    ap₂ (λ t b. (ok t, b)) (omega arith) (sym (take-nil (max - total)))
stopped max total (x ∷ incoming) h (inr nothing) = absurd (omega arith)

-- A round of the loop by its two tests.
round :
    (room nothing : Bool) {now more all : Copied × Bytes}
    → (room ≡ false → now ≡ all)
    → (room ≡ true → nothing ≡ true → now ≡ all)
    → (room ≡ true → nothing ≡ false → more ≡ all)
    → (if not room then now else if nothing then now else more) ≡ all
round false nothing full none go_on = full refl
round true true full none go_on = none refl refl
round true false full none go_on = go_on refl refl

copy_from-IsWhole :
    (max total : ℕ) (incoming : Bytes) (rounds : List (ℕ × Write))
    → total ≤ max
    → length incoming ≤ length rounds
    → All IsWhole rounds
    → copy_from max total incoming rounds
      ≡ (ok (min max (total + length incoming)), take (max - total) incoming)
unfolding copy_from
copy_from-IsWhole max total incoming [] h k o = stopped max total incoming h (inr (omega arith))
copy_from-IsWhole max total incoming ((offer, write_failed e) ∷ rounds) h k o =
    absurd (omega (arith, o.0))
copy_from-IsWhole max total incoming ((offer, wrote ready) ∷ rounds) h k o =
    let n = given offer (min (max - total) iov_max) incoming in
    let left = length-drop n incoming in
    let taken : min ready n ≡ n = omega (arith, o.0) in
    let room_left : max - (total + n) ≡ max - total - n = omega arith in
    round (ltb total max) (n == 0) (λ full. stopped max total incoming h (inl (ground arith)))
      (λ room nothing. stopped max total incoming h (inr (ground (arith, o.0))))
      (λ room some.
        ap (λ (c : Copied × Bytes). (c.0, take (min ready n) incoming ++ c.1))
          (copy_from-IsWhole max (total + n) (drop n incoming) rounds (omega arith)
            (ground (arith, left)) o.1)
        ∙ ap₂ (λ t b. (ok t, b)) (omega (arith, left))
            (ap₂ (λ r m. take r incoming ++ take m (drop n incoming)) taken room_left
              ∙ take-drop n (max - total) incoming (omega arith)))

-- When every read has a byte as long as the stream does, every write takes a whole buffer, and there are
-- as many rounds as bytes, the session copies the first `max` bytes of the stream, or all, and says so.
pub copy_stream_lem :
    (max : ℕ) (incoming : Bytes) (rounds : List (ℕ × Write))
    → length incoming ≤ length rounds
    → All IsWhole rounds
    → copy_stream max incoming rounds ≡ (ok (min max (length incoming)), take max incoming)
unfolding copy_stream
copy_stream_lem max incoming rounds k o =
    copy_from-IsWhole max 0 incoming rounds (omega arith) k o
    ∙ ap₂ (λ t b. (ok t, b)) (omega arith) (ap (λ m. take m incoming) (omega arith))

-- When the first write takes one byte of the two that were read, without an error, and all the others
-- take a whole buffer, the second byte of the stream is lost, while the session says that it copied as
-- many bytes as it does when none is.
pub copy_stream_loses :
    (max x y : ℕ) (incoming : Bytes) (rounds : List (ℕ × Write))
    → 2 ≤ max
    → length incoming ≤ length rounds
    → All IsWhole rounds
    → copy_stream max (x ∷ y ∷ incoming) ((2, wrote 1) ∷ rounds)
      ≡ (ok (min max (2 + length incoming)), x ∷ take (max - 2) incoming)
unfolding copy_stream copy_from
copy_stream_loses max x y incoming rounds h k o =
    let stream = x ∷ y ∷ incoming in
    let n = given 2 (min (max - 0) iov_max) stream in
    let two : n ≡ 2 = omega arith in
    round (ltb 0 max) (n == 0) (λ full. absurd (ground arith))
      (λ room nothing. absurd (ground arith))
      (λ room some.
        ap
          (λ m.
            let c = copy_from max (0 + m) (drop m stream) rounds in
            (c.0, take (min 1 m) stream ++ c.1))
          two
        ∙ ap (λ (c : Copied × Bytes). (c.0, x ∷ c.1))
            (copy_from-IsWhole max 2 incoming rounds h k o))
