-- ===== src/Handoff/Tests.antt =====
-- Runs of the parser and the registry, and each theorem at a concrete input.
use demiurge.Base.{
  ◌≡◌, refl, true, none, some, List, [], ◌∷◌, ◌++◌, nat_key, Bytes, bytes, contains, strip_prefix,
  trim, sort,
}
use demiurge.Base.Utf8.{from_utf8_lossy}
use demiurge.Handoff.{
  HandoffDescriptor, is_valid, parse_prefill_handoff, new, publish, take_handoff, record_transfer,
  transfer_metrics,
}
use demiurge.Handoff.Parse.{blank_line}
use demiurge.Handoff.Registry.{Call, published, taken, recorded, apply, run}

abbrev head : Bytes
head =
    bytes "HTTP/1.1 200 OK"
    ++ 13 ∷ 10 ∷ bytes "X-Demiurge-KV-Handle: 42"
    ++ 13 ∷ 10 ∷ bytes "x-demiurge-kv-bytes: 4096"
    ++ blank_line

abbrev desc : HandoffDescriptor
desc = record {
  request_id = 7;
  kv_handle = 42;
  byte_len = 4096;
  source_label = "prefill-0";
  decode_label = none;
}

head-parsed : parse_prefill_handoff head 7 "prefill-0" ≡ some desc
unfolding parse_prefill_handoff strip_prefix trim from_utf8_lossy
head-parsed = refl

head-blank : contains blank_line head ≡ true
unfolding contains strip_prefix
head-blank = refl

desc-valid : is_valid desc ≡ true
unfolding is_valid
desc-valid = refl

abbrev calls : List Call
calls =
    published desc
    ∷ recorded 4096 3000
    ∷ recorded 0 1
    ∷ taken 7
    ∷ recorded 100 9000000
    ∷ taken 7
    ∷ []

calls-count : (transfer_metrics (run calls new)).count ≡ 2
unfolding transfer_metrics run apply new record_transfer publish take_handoff sort
calls-count = refl
