-- ===== src/Http/Head.antt =====
-- `read_head`: the buffer is bounded, and holds the stream's first bytes.
use demiurge.Base.{
  ℕ, ◌-◌, ◌*◌, ◌≤◌, ◌≡◌, ap, ◌∙◌, sym, Bool, false, ◌||◌, some, List, [], ◌∷◌, ◌++◌, min, length,
  take, drop, length-append, length-take, take-append-drop, take_all, arith, Bytes, contains, leb,
  Bool-cases, inl, inr,
}
use mathlib.Core.List.{append_assoc}
use demiurge.Http.{Read, chunk, failed, max_head, read_from, read_head}

-- The buffer after a chunk, and whether the loop stops there.
abbrev grown : Bytes → Bytes → Bytes
grown buf c = buf ++ take (min (length c) (max_head - length buf)) c

abbrev stops : Bytes → Bool
stops buf = contains (13 ∷ 10 ∷ 13 ∷ 10 ∷ []) buf || leb max_head (length buf)

length-grown : (buf c : Bytes) → length buf ≤ max_head → length (grown buf c) ≤ max_head
length-grown buf c h = omega (
  arith,
  length-append buf (take (min (length c) (max_head - length buf)) c),
  length-take (min (length c) (max_head - length buf)) c,
)

-- A chunk that does not fill the buffer is taken whole.
grown_whole :
    (buf c : Bytes) → length buf ≤ max_head → stops (grown buf c) ≡ false → grown buf c ≡ buf ++ c
grown_whole buf c h go_on = ap (◌++◌ buf) (
    take_all (min (length c) (max_head - length buf)) c (
      ground (
        arith,
        length-append buf (take (min (length c) (max_head - length buf)) c),
        length-take (min (length c) (max_head - length buf)) c,
      )))

read_from_bounded :
    (buf : Bytes) (reads : List Read) {head : Bytes}
    → length buf ≤ max_head
    → read_from buf reads ≡ some head
    → length head ≤ max_head
unfolding read_from
read_from_bounded buf [] h e = ground arith
read_from_bounded buf (failed ∷ reads) h e = cc
read_from_bounded buf (chunk [] ∷ reads) h e = ground arith
read_from_bounded buf (chunk (x ∷ xs) ∷ reads) h e =
    elim (Bool-cases (stops (grown buf (x ∷ xs)))) [
      | inl stop ↦ ground (arith, length-grown buf (x ∷ xs) h)
      | inr go_on ↦
          read_from_bounded (grown buf (x ∷ xs)) reads (length-grown buf (x ∷ xs) h) (ground arith)
    ]

-- What the stream holds up to its end or its first error.
pub stream : List Read → Bytes
stream [] = []
stream (failed ∷ reads) = []
stream (chunk [] ∷ reads) = []
stream (chunk (x ∷ xs) ∷ reads) = (x ∷ xs) ++ stream reads

read_from_prefix :
    (buf : Bytes) (reads : List Read) {head : Bytes}
    → length buf ≤ max_head
    → read_from buf reads ≡ some head
    → (rest : Bytes) × (head ++ rest ≡ buf ++ stream reads)
unfolding read_from stream
read_from_prefix buf [] h e = ([], ground arith)
read_from_prefix buf (failed ∷ reads) h e = cc
read_from_prefix buf (chunk [] ∷ reads) h e = ([], ground arith)
read_from_prefix buf (chunk (x ∷ xs) ∷ reads) {head} h e =
    elim (Bool-cases (stops (grown buf (x ∷ xs)))) [
      | inl stop ↦
          let taken : head ≡ grown buf (x ∷ xs) = ground arith in
          (drop room (x ∷ xs) ++ stream reads, rw taken regroup)
      | inr go_on ↦
          let (rest, p) =
            read_from_prefix (grown buf (x ∷ xs)) reads (length-grown buf (x ∷ xs) h)
              (ground arith) in
          (
            rest,
            p
                ∙ ap (λ b. b ++ stream reads) (grown_whole buf (x ∷ xs) h go_on)
                ∙ append_assoc buf (x ∷ xs) (stream reads),
          )
    ]
  where
    room : ℕ
    room = min (length (x ∷ xs)) (max_head - length buf)

    regroup :
        grown buf (x ∷ xs) ++ (drop room (x ∷ xs) ++ stream reads)
        ≡ buf ++ ((x ∷ xs) ++ stream reads)
    regroup =
        append_assoc buf (take room (x ∷ xs)) (drop room (x ∷ xs) ++ stream reads)
        ∙ ap (◌++◌ buf) (
            sym (append_assoc (take room (x ∷ xs)) (drop room (x ∷ xs)) (stream reads))
            ∙ ap (λ b. b ++ stream reads) (take-append-drop room (x ∷ xs)))

-- A head that is read is at most 64 KiB long, and is a first part of what the stream holds: no byte
-- is lost, changed or read twice.
pub read_head_lem :
    (reads : List Read) (head : Bytes)
    → read_head reads ≡ some head
    → (length head ≤ 64 * 1024) × (rest : Bytes) × (head ++ rest ≡ stream reads)
unfolding read_head
read_head_lem reads head e =
    let (rest, p) = read_from_prefix [] reads (omega arith) e in
    (read_from_bounded [] reads (omega arith) e, rest, p)
