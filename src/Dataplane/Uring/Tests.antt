-- ===== src/Dataplane/Uring/Tests.antt =====
-- Runs of a session's loops.
use demiurge.Base.{ends_with, ◌≡◌, refl, ◌≤◌, [], ◌∷◌, ◌++◌, length, Bytes, bytes, bytes_eq, arith}
use demiurge.Dataplane.Uring.{read_http_head, wrote, write_failed, ok, err, copy_stream}
use demiurge.Dataplane.Uring.Head.{read_http_head_lem, Ended}
use demiurge.Dataplane.Uring.Copy.{copy_stream_lem, copy_stream_loses}

abbrev request : Bytes
request = bytes "GET\r\n\r\nbody"

-- The head comes alone: the body is left.
alone : read_http_head 4096 request (7 ∷ 4 ∷ []) ≡ bytes "GET\r\n\r\n"
unfolding read_http_head ends_with bytes_eq
alone = refl

-- The head comes with a part of the body: the loop reads on.
with_body : read_http_head 4096 request (9 ∷ 2 ∷ []) ≡ request
unfolding read_http_head ends_with bytes_eq
with_body = refl

read_http_head_lem_example :
    let head = read_http_head 4096 (bytes "GET") (1 ∷ 1 ∷ 5 ∷ []) in
    (length head ≤ 4096)
    × ((rest : Bytes) × (head ++ rest ≡ bytes "GET"))
    × Ended 4096 head (bytes "GET")
read_http_head_lem_example =
    read_http_head_lem 4096 (bytes "GET") (1 ∷ 1 ∷ 5 ∷ []) (ground arith)
      (ground arith, (ground arith, (ground arith, tt)))

failed_write :
    copy_stream 10 (bytes "abcd") ((2, wrote 9) ∷ (2, write_failed 32) ∷ []) ≡ (err 32, bytes "ab")
unfolding copy_stream
failed_write = refl

copy_stream_lem_example :
    copy_stream 3
      (bytes "abcd")
      ((2, wrote 65536) ∷ (9, wrote 70000) ∷ (1, wrote 65536) ∷ (1, wrote 65536) ∷ [])
    ≡ (ok 3, bytes "abc")
copy_stream_lem_example =
    copy_stream_lem 3 (bytes "abcd")
      ((2, wrote 65536) ∷ (9, wrote 70000) ∷ (1, wrote 65536) ∷ (1, wrote 65536) ∷ [])
      (ground arith)
      (
        (ground arith, ground arith),
        (
          (ground arith, ground arith),
          ((ground arith, ground arith), ((ground arith, ground arith), tt)),
        ),
      )

copy_stream_loses_example :
    copy_stream 9 (bytes "abc") ((2, wrote 1) ∷ (1, wrote 65536) ∷ []) ≡ (ok 3, bytes "ac")
copy_stream_loses_example =
    copy_stream_loses 9 b'a' b'b' (bytes "c") ((1, wrote 65536) ∷ []) (ground arith) (ground arith)
      ((ground arith, ground arith), tt)
