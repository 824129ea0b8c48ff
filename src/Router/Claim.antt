-- ===== src/Router/Claim.antt =====
-- What a prefill answer can claim of the ledger.
use demiurge.Base.{
  ℕ, ◌*◌, ◌≤◌, ◌≡◌, refl, subst, false, Option, none, some, String, Bytes, arith, Bool-cases, inl,
  inr,
}
use demiurge.Cost.Kv.{kv_breakdown}
use demiurge.Handoff.{HandoffDescriptor, parse_prefill_handoff, is_valid}
use demiurge.Handoff.Parse.{parse_prefill_handoff_lem}
use demiurge.Ledger.{ReservationLedger, Admission, ok, err, try_reserve_from}
use demiurge.Ledger.Invariant.{Inv}
use demiurge.Ledger.Reserve.{try_reserve_from-Inv}
use demiurge.Router.{
  Claimed, refused, admitted, settle, is_out_of_bounds, claim_bytes, claim_parsed, claim_handoff,
}

-- What is admitted lies between the bytes that were expected and four times as many.
abbrev pub InBounds : ℕ → ℕ → Claimed → Type 0
InBounds request_id expected (refused e) = Unit
InBounds request_id expected (admitted h g) =
    (h.request_id ≡ request_id) × (expected ≤ h.byte_len) × (h.byte_len ≤ expected * 4)

settle_lem :
    (expected : ℕ) (h : HandoffDescriptor) (p : Admission × ReservationLedger)
    → is_out_of_bounds expected h ≡ false
    → Inv p.1
    → InBounds h.request_id expected (settle h p).0 × Inv (settle h p).1
unfolding settle
settle_lem expected h (ok guard, l) b v = ((refl, ground arith, ground arith), v)
settle_lem expected h (err e, l) b v = (tt, v)

claim_bytes_lem :
    (expected : ℕ) (prefill_label : String) (h : HandoffDescriptor) (now : ℕ)
    (l : ReservationLedger)
    → Inv l
    → InBounds h.request_id expected (claim_bytes expected prefill_label h now l).0
      × Inv (claim_bytes expected prefill_label h now l).1
unfolding claim_bytes
claim_bytes_lem expected prefill_label h now l v = elim (Bool-cases (is_out_of_bounds expected h)) [
  | inl e ↦ rw (e) (tt, v)
  | inr e ↦ rw (e) (
      settle_lem expected h (try_reserve_from (some prefill_label) h.request_id h.byte_len now l) e
        (try_reserve_from-Inv (some prefill_label) h.request_id h.byte_len now l v))
]

claim_parsed_lem :
    (request_id expected : ℕ) (prefill_label : String) (now : ℕ) (l : ReservationLedger)
    (parsed : Option HandoffDescriptor)
    → Inv l
    → ((h : HandoffDescriptor) → parsed ≡ some h → h.request_id ≡ request_id)
    → InBounds request_id expected (claim_parsed expected prefill_label now l parsed).0
      × Inv (claim_parsed expected prefill_label now l parsed).1
unfolding claim_parsed
claim_parsed_lem request_id expected prefill_label now l none v own = (tt, v)
claim_parsed_lem request_id expected prefill_label now l (some h) v own =
    elim (Bool-cases (is_valid h)) [
      | inl valid ↦ rw (valid) (
          subst
            (λ id.
              InBounds id expected (claim_bytes expected prefill_label h now l).0
              × Inv (claim_bytes expected prefill_label h now l).1)
            (own h refl) (claim_bytes_lem expected prefill_label h now l v))
      | inr invalid ↦ rw (invalid) (tt, v)
    ]

-- Whatever a prefill peer answers, the accounts of a ledger that were sound stay sound; and what is
-- admitted is for the request that was asked, and claims no fewer bytes than its prompt is expected to
-- take and no more than four times as many.
pub claim_handoff_lem :
    (request_id prompt_tokens bytes_per_token : ℕ) (response : Bytes) (prefill_label : String)
    (now : ℕ) (l : ReservationLedger)
    → Inv l
    → InBounds request_id
        (kv_breakdown prompt_tokens bytes_per_token).kv_reserved
        (claim_handoff request_id prompt_tokens bytes_per_token response prefill_label now l).0
      × Inv (claim_handoff request_id prompt_tokens bytes_per_token response prefill_label now l).1
unfolding claim_handoff
claim_handoff_lem request_id prompt_tokens bytes_per_token response prefill_label now l v =
    claim_parsed_lem request_id (kv_breakdown prompt_tokens bytes_per_token).kv_reserved
      prefill_label now l (parse_prefill_handoff response request_id prefill_label) v
      (λ h e. (parse_prefill_handoff_lem response request_id prefill_label h e).1)
