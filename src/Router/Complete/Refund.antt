-- ===== src/Router/Complete/Refund.antt =====
-- A prefill that is answered with an error holds nothing of the ledger afterwards.
use demiurge.Base.{
  ℕ, ◌≡◌, refl, sym, ap, ◌∙◌, subst, Bool, true, false, not, Option, none, some, String, nat_key,
  string_key, if◌then◌else◌, Bytes, inl, inr,
}
use demiurge.Base.F64.{F64}
use demiurge.Base.Maps.{lookup}
use demiurge.Cost.Kv.{kv_breakdown}
use demiurge.Handoff.{HandoffDescriptor, HandoffRegistry, parse_prefill_handoff, is_valid}
use demiurge.Ledger.{
  ReservationLedger, ReservationGuard, Admission, AdmitError, or_zero, try_reserve_from, release,
  guard_drop,
}
use demiurge.Ledger
use demiurge.Ledger.Invariant.{Inv}
use demiurge.Ledger.Reserve.{
  Admission-cases, admitted-Admissible, try_reserve_from_admits, try_reserve_from_refusal,
  try_reserve_from-Inv,
}
use demiurge.Ledger.Release.{release-try_reserve_from, release-Inv}
use demiurge.Router.{
  RouteError, handoff_missing, Claimed, refused, admitted, settle, is_out_of_bounds, claim_bytes,
  claim_parsed, claim_handoff,
}
use demiurge.Router.Backend.{Backend}
use demiurge.Router.Plane.{Router}
use demiurge.Router.Plane.Tick.{Readings}
use demiurge.Router.Complete.{
  PrefillSignals, Held, ClaimStage, stop, go_on, stage_of_claim, drop_held, claim_with, claim_stage,
  note_wall, place_decode, Completed, ok, err, finish, after_claim, on_prefill_complete,
}

-- Two ledgers that hold the same reservations; what they count of rejects may differ.
pub record SameHoldings (l m : ReservationLedger) : Type 0 where
  pub same_total : l.reserved_bytes ≡ m.reserved_bytes
  pub same_entries : (j : ℕ) → lookup j l.reservations ≡ lookup j m.reservations
  pub same_outstanding :
      (label : String)
      → or_zero (lookup label l.source_outstanding) ≡ or_zero (lookup label m.source_outstanding)

abbrev guard_for : ℕ → ReservationGuard
guard_for id = record { request_id = id; released = false }

-- Of an admission, that its release gives all back; of a refusal, that nothing is held.
abbrev Answered : ReservationLedger → ℕ → Admission → ReservationLedger → Type 0
Answered l id (Ledger.ok g) l' = (g ≡ guard_for id) × SameHoldings (release id l') l × Inv l'
Answered l id (Ledger.err e) l' = SameHoldings l' l × Inv l'

module _ (source : Option String) (id bytes now : ℕ) (l : ReservationLedger) (v : Inv l) where
  abbrev answer : Admission × ReservationLedger
  answer = try_reserve_from source id bytes now l

  admitted-Answered :
      (g : ReservationGuard) → answer.0 ≡ Ledger.ok g → Answered l id answer.0 answer.1
  admitted-Answered g e =
      let a = admitted-Admissible source id bytes now l g v e in
      let same = release-try_reserve_from source id bytes now l v a in
      subst (λ x. Answered l id x answer.1)
        (sym ((try_reserve_from_admits source id bytes now l v).1 a))
        (
          refl,
          record {
            same_total = same.same_total;
            same_entries = same.same_entries;
            same_outstanding = same.same_outstanding;
          },
          try_reserve_from-Inv source id bytes now l v,
        )

  refused-holdings : (e : AdmitError) → answer.0 ≡ Ledger.err e → SameHoldings answer.1 l
  refused-holdings e h = elim (try_reserve_from_refusal source id bytes now l e h) [
    | inl (_, _, same) ↦
        subst (λ m. SameHoldings m l) (sym same)
          (record { same_total = refl; same_entries = λ j. refl; same_outstanding = λ j. refl })
    | inr (_, counted) ↦
        subst (λ m. SameHoldings m l) (sym counted)
          (record { same_total = refl; same_entries = λ j. refl; same_outstanding = λ j. refl })
  ]

  try_reserve_from-Answered : Answered l id answer.0 answer.1
  try_reserve_from-Answered = elim (Admission-cases answer.0) [
    | inl (g, e) ↦ admitted-Answered g e
    | inr (x, e) ↦
        subst (λ a. Answered l id a answer.1) (sym e)
          (refused-holdings x e, try_reserve_from-Inv source id bytes now l v)
  ]

-- The same of a claim.
abbrev Settled : ReservationLedger → Claimed → ReservationLedger → Type 0
Settled l (refused e) l' = SameHoldings l' l × Inv l'
Settled l (admitted h g) l' =
    (g ≡ guard_for h.request_id) × SameHoldings (release h.request_id l') l × Inv l'

settle-Settled :
    (l : ReservationLedger) (h : HandoffDescriptor) (p : Admission × ReservationLedger)
    → Answered l h.request_id p.0 p.1
    → Settled l (settle h p).0 (settle h p).1
unfolding settle
settle-Settled l h (Ledger.ok g, l') a = a
settle-Settled l h (Ledger.err e, l') a = a

unchanged : (l : ReservationLedger) → SameHoldings l l
unchanged l = record { same_total = refl; same_entries = λ j. refl; same_outstanding = λ j. refl }

either-Settled :
    (l : ReservationLedger) (test : Bool) (x y : Claimed × ReservationLedger)
    → Settled l x.0 x.1
    → Settled l y.0 y.1
    → Settled l (if test then x else y).0 (if test then x else y).1
either-Settled l true x y h k = h
either-Settled l false x y h k = k

claim_parsed-Settled :
    (expected : ℕ) (label : String) (now : ℕ) (l : ReservationLedger)
    (parsed : Option HandoffDescriptor)
    → Inv l
    → Settled l
        (claim_parsed expected label now l parsed).0
        (claim_parsed expected label now l parsed).1
unfolding claim_parsed claim_bytes
claim_parsed-Settled expected label now l none v = (unchanged l, v)
claim_parsed-Settled expected label now l (some h) v =
    let reserved = settle h (try_reserve_from (some label) h.request_id h.byte_len now l) in
    let missing : Claimed × ReservationLedger = (refused handoff_missing, l) in
    either-Settled l (not (is_valid h)) missing
      (if is_out_of_bounds expected h then missing else reserved) (unchanged l, v)
      (either-Settled l (is_out_of_bounds expected h) missing reserved (unchanged l, v)
        (settle-Settled l h (try_reserve_from (some label) h.request_id h.byte_len now l)
          (try_reserve_from-Answered (some label) h.request_id h.byte_len now l v)))

-- Where a claim leaves the ledger of the router, `held` being what an error would have to give back.
abbrev pub Staged : ReservationLedger → ClaimStage → Option ReservationLedger → Type 0
Staged l (stop e) after = (l' : ReservationLedger) × (after ≡ some l') × SameHoldings l' l × Inv l'
Staged l (go_on none) after =
    (l' : ReservationLedger) × (after ≡ some l') × SameHoldings l' l × Inv l'
Staged l (go_on (some (h, g))) after =
    (l' : ReservationLedger) × (after ≡ some l')
    × (g ≡ guard_for h.request_id)
    × SameHoldings (release h.request_id l') l
    × Inv l'

stage_of_claim-Staged :
    (l : ReservationLedger) (c : Claimed) (l' : ReservationLedger)
    → Settled l c l'
    → Staged l (stage_of_claim c) (some l')
unfolding stage_of_claim
stage_of_claim-Staged l (refused e) l' h = (l', refl, h.0, h.1)
stage_of_claim-Staged l (admitted h g) l' k = (l', refl, k.0, k.1, k.2)

module _ (D : F64) where
  claim_with-Staged :
      (sig : PrefillSignals) (now : ℕ) (response : Bytes) (label : String) (r : Router D)
      (l : ReservationLedger) (reg : Option HandoffRegistry)
      → r.ledger ≡ some l
      → Inv l
      → Staged l
          (claim_with D sig now response label r (some l) reg).0
          (claim_with D sig now response label r (some l) reg).1.ledger
  unfolding claim_with claim_handoff
  claim_with-Staged sig now response label r l none e v = (l, e, unchanged l, v)
  claim_with-Staged sig now response label r l (some reg) e v =
      let expected = (kv_breakdown sig.prompt_tokens r.bytes_per_token).kv_reserved in
      let parsed = parse_prefill_handoff response sig.request_id label in
      let claimed = claim_parsed expected label now l parsed in
      stage_of_claim-Staged l claimed.0 claimed.1
        (claim_parsed-Settled expected label now l parsed v)

  pub claim_stage-Staged :
      (sig : PrefillSignals) (now : ℕ) (response : Bytes) (label : String) (r : Router D)
      (l : ReservationLedger)
      → r.ledger ≡ some l
      → Inv l
      → let c = claim_stage D sig now response label r in Staged l c.0 c.1.ledger
  unfolding claim_stage
  claim_stage-Staged sig now response label r l known v =
      subst
        (λ lg.
          Staged l (claim_with D sig now response label r lg r.handoffs).0
            (claim_with D sig now response label r lg r.handoffs).1.ledger)
        (sym known) (claim_with-Staged sig now response label r l r.handoffs known v)

  -- After an error the ledger holds what it held.
  abbrev Refunded : ReservationLedger → Completed D → Option ReservationLedger → Type 0
  Refunded l (ok placed) after = Unit
  Refunded l (err e) after =
      (l' : ReservationLedger) × (after ≡ some l') × SameHoldings l' l × Inv l'

  pub drop_held-Staged :
      (l : ReservationLedger) (held : Held) (before : Option ReservationLedger)
      → Staged l (go_on held) before
      → (l' : ReservationLedger) × (drop_held held before ≡ some l') × SameHoldings l' l × Inv l'
  unfolding drop_held
  drop_held-Staged l none before h = h
  drop_held-Staged l (some (h, g)) before (l', e, own, same, v) = (
    release h.request_id l',
    ap (drop_held (some (h, g))) e ∙ ap (λ x. some (guard_drop x l')) own,
    same,
    release-Inv h.request_id l' v,
  )

  module _ (mac : Bytes → Bytes) (salt_block : ℕ → ℕ → ℕ) where
    finish-Refunded :
        (t : Readings) (sig : PrefillSignals) (label : String) (held : Held)
        (found : Option (Backend D)) (r : Router D) (l : ReservationLedger)
        → Staged l (go_on held) r.ledger
        → let p = finish D mac salt_block t sig label held found r in Refunded l p.0 p.1.ledger
    unfolding finish
    finish-Refunded t sig label held none r l h = drop_held-Staged l held r.ledger h
    finish-Refunded t sig label held (some b) r l h = tt

    after_claim-Refunded :
        (t : Readings) (value : Option Bytes) (sig : PrefillSignals) (label : String)
        (p : ClaimStage × Router D) (l : ReservationLedger)
        → Staged l p.0 p.1.ledger
        → let q = after_claim D mac salt_block t value sig label p in Refunded l q.0 q.1.ledger
    unfolding after_claim note_wall
    after_claim-Refunded t value sig label (stop e, r) l h = h
    after_claim-Refunded t value sig label (go_on held, r) l h =
        let noted = note_wall D label sig.prefill_wall r in
        finish-Refunded t sig label held (place_decode D mac salt_block value sig label held noted)
          noted l h

    -- Whatever a prefill answered, an error of the placement that follows it leaves a ledger with sound
    -- accounts with the reservations, the total and each source's outstanding bytes that it had, and its
    -- accounts sound: where no backend is left for the decode, what was reserved for it is given back.
    pub on_prefill_complete-refunds :
        (t : Readings) (value : Option Bytes) (now : ℕ) (sig : PrefillSignals) (response : Bytes)
        (label : String) (r : Router D) (l : ReservationLedger) (e : RouteError)
        → r.ledger ≡ some l
        → Inv l
        → (on_prefill_complete D mac salt_block t value now sig response label r).0 ≡ err e
        → (l' : ReservationLedger) × ((on_prefill_complete D mac salt_block t value now sig response
              label r).1.ledger
            ≡ some l')
          × SameHoldings l' l
          × Inv l'
    unfolding on_prefill_complete
    on_prefill_complete-refunds t value now sig response label r l e known v failed =
        let q = on_prefill_complete D mac salt_block t value now sig response label r in
        subst (λ c. Refunded l c q.1.ledger) failed
          (after_claim-Refunded t value sig label (claim_stage D sig now response label r) l
            (claim_stage-Staged sig now response label r l known v))
