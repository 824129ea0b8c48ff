-- ===== src/Dataplane/Uring/Head.antt =====
-- The head that a session reads is the first part of the stream.
use demiurge.Base.{
  ends_with, ℕ, ◌-◌, ◌≤◌, ◌≡◌, refl, ap, ◌∙◌, sym, subst, Bool, true, false, ◌⊎◌, inl, inr, not,
  List, [], ◌∷◌, ◌++◌, min, ltb, ◌==◌, if◌then◌else◌, length, take, drop, length-append,
  length-take, length-drop, take-append-drop, All, arith, Bytes, bytes,
}
use mathlib.Core.List.{append_assoc, append-nil}
use demiurge.Dataplane.Uring.{iov_max, given, read_http_head_from, read_http_head}

-- Every read has a byte at least, as long as the stream has.
abbrev pub Offered : List ℕ → Type 0
Offered offers = All (λ offer. 1 ≤ offer) offers

-- A head ends as a head does, or has the greatest length, or is the whole stream.
abbrev pub Ended : ℕ → Bytes → Bytes → Type 0
Ended max head whole =
    (ends_with (bytes "\r\n\r\n") head ≡ true) ⊎ ((length head ≡ max) ⊎ (head ≡ whole))

-- What a head is, of a stream of which some is read already.
abbrev IsHead : ℕ → Bytes → Bytes → Type 0
IsHead max whole head =
    (length head ≤ max) × ((rest : Bytes) × (head ++ rest ≡ whole)) × Ended max head whole

-- A round of the loop by its three tests.
round :
    (P : Bytes → Type 0) (room nothing done : Bool) {acc read rest : Bytes}
    → (room ≡ false → P acc)
    → (room ≡ true → nothing ≡ true → P acc)
    → (done ≡ true → room ≡ true → P read)
    → (room ≡ true → nothing ≡ false → P rest)
    → P (if not room then acc else if nothing then acc else if done then read else rest)
round P false nothing done full none last more = full refl
round P true true done full none last more = none refl refl
round P true false true full none last more = last refl refl
round P true false false full none last more = more refl refl

nothing_left : (bytes : Bytes) → length bytes ≡ 0 → bytes ≡ []
nothing_left [] h = refl
nothing_left (x ∷ bytes) h = absurd (omega arith)

read_http_head_from_lem :
    (max : ℕ) (acc incoming : Bytes) (offers : List ℕ)
    → length acc ≤ max
    → length incoming ≤ length offers
    → Offered offers
    → IsHead max (acc ++ incoming) (read_http_head_from max acc incoming offers)
unfolding read_http_head_from
read_http_head_from_lem max acc incoming [] h k o =
    let left = nothing_left incoming (omega arith) in
    (h, (incoming, refl), inr (inr (sym (append-nil acc) ∙ ap (◌++◌ acc) (sym left))))
read_http_head_from_lem max acc incoming (offer ∷ offers) h k o =
    let n = given offer (min (max - length acc) iov_max) incoming in
    let read = acc ++ take n incoming in
    let whole : read ++ drop n incoming ≡ acc ++ incoming =
      append_assoc acc (take n incoming) (drop n incoming)
      ∙ ap (◌++◌ acc) (take-append-drop n incoming) in
    let length-read : length read ≤ max =
      omega (arith, length-append acc (take n incoming), length-take n incoming) in
    round (IsHead max (acc ++ incoming)) (ltb (length acc) max) (n == 0)
      (ends_with (bytes "\r\n\r\n") read) (λ full. (h, (incoming, refl), inr (inl (ground arith))))
      (λ room nothing.
        let left = nothing_left incoming (ground (arith, o.0)) in
        (h, (incoming, refl), inr (inr (sym (append-nil acc) ∙ ap (◌++◌ acc) (sym left)))))
      (λ done room. (length-read, (drop n incoming, whole), inl done))
      (λ room some.
        subst (λ w. IsHead max w (read_http_head_from max read (drop n incoming) offers)) whole
          (read_http_head_from_lem max read (drop n incoming) offers length-read
            (ground (arith, length-drop n incoming)) o.1))

-- When every read has a byte as long as the stream does, and there are as many reads as bytes, the
-- head that a session reads is the first part of the stream, of the greatest length at most; and it
-- ends as a head does, has the greatest length, or is the whole stream.
pub read_http_head_lem :
    (max : ℕ) (incoming : Bytes) (offers : List ℕ)
    → length incoming ≤ length offers
    → Offered offers
    → let head = read_http_head max incoming offers in
      (length head ≤ max) × ((rest : Bytes) × (head ++ rest ≡ incoming)) × Ended max head incoming
unfolding read_http_head
read_http_head_lem max incoming offers k o =
    read_http_head_from_lem max [] incoming offers (omega arith) k o
