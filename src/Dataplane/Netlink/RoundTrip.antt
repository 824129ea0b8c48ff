-- ===== src/Dataplane/Netlink/RoundTrip.antt =====
-- What is pushed as attributes is read as these attributes, in their order, padded or not.
use demiurge.Base.{
  ℕ, zero, suc, ◌+◌, ◌-◌, ◌/◌, ◌%◌, ◌^◌, ◌≡◌, ◌≢◌, ◌≤◌, ◌<◌, refl, sym, ap, ◌∙◌, true, false,
  Option, none, List, [], ◌∷◌, ◌++◌, ◌==◌, if◌then◌else◌, length, take, drop, All, arith,
  length-append, take-append_exact, drop-append_exact, Bytes,
}
use mathlib.Core.List.{append_assoc, append-nil}
use demiurge.Base.LittleEndian.{to_le_bytes, from_le_bytes}
use demiurge.Dataplane.Netlink.{
  nla_align, pad, push_nla_bytes, nla_len, nla_type, nla_payload, is_readable, nla_next, XdpIds,
  no_ids, note_attr, note_attrs, xdp_id, parse_xdp_nested, find_xdp, parse_xdp_prog_id,
}

abbrev zeros : ℕ → Bytes
zeros zero = []
zeros (suc n) = 0 ∷ zeros n

length-zeros : (n : ℕ) → length (zeros n) ≡ n
length-zeros zero = refl
length-zeros (suc n) = ap suc (length-zeros n)

-- The bytes that a payload wants to a multiple of 4.
abbrev padding : ℕ → ℕ
padding n = (4 - n % 4) % 4

pad_lem :
    (rounds k : ℕ) (buf : Bytes)
    → k ≤ rounds
    → k < 4
    → (length buf + k) % 4 ≡ 0
    → pad rounds buf ≡ buf ++ zeros k
unfolding pad
pad_lem zero zero buf le lt h = sym (append-nil buf)
pad_lem zero (suc k) buf le lt h = absurd (omega arith)
pad_lem (suc rounds) zero buf le lt h = rw (append-nil buf) (ground arith)
pad_lem (suc rounds) (suc k) buf le lt h =
    let more : (length buf % 4 == 0) ≡ false = ground arith in
    rw more (
      pad_lem rounds k (buf ++ 0 ∷ []) (omega arith) (omega arith)
        (omega (arith, length-append buf (0 ∷ [])))
      ∙ append_assoc buf (0 ∷ []) (zeros k))

-- An attribute as it is sent, with what follows it.
abbrev block : ℕ → Bytes → Bytes → Bytes
block kind payload rest =
    (4 + length payload) % 256
      ∷ (4 + length payload) / 256 % 256
      ∷ kind % 256
      ∷ kind / 256 % 256
      ∷ (payload ++ zeros (padding (length payload)))
    ++ rest

push_nla_bytes_lem :
    (buf : Bytes) (kind : ℕ) (payload : Bytes)
    → length buf % 4 ≡ 0
    → push_nla_bytes buf kind payload ≡ buf ++ block kind payload []
unfolding push_nla_bytes to_le_bytes
push_nla_bytes_lem buf kind payload h =
    let n = 4 + length payload in
    let head = buf ++ n % 256 ∷ n / 256 % 256 ∷ kind % 256 ∷ kind / 256 % 256 ∷ payload in
    pad_lem 3 (padding (length payload)) head (omega arith) (omega arith) (
      omega (
        arith,
        length-append buf (n % 256 ∷ n / 256 % 256 ∷ kind % 256 ∷ kind / 256 % 256 ∷ payload),
      ))
    ∙ append_assoc buf (n % 256 ∷ n / 256 % 256 ∷ kind % 256 ∷ kind / 256 % 256 ∷ payload)
        (zeros (padding (length payload)))
    ∙ ap (λ r. buf ++ n % 256 ∷ n / 256 % 256 ∷ kind % 256 ∷ kind / 256 % 256 ∷ r)
        (sym (append-nil (payload ++ zeros (padding (length payload)))))

-- An attribute that its header can state.
abbrev pub Fits : ℕ × Bytes → Type 0
Fits (kind, payload) = (kind < 2 ^ 16) × (4 + length payload < 2 ^ 16)

module _ (kind : ℕ) (payload rest : Bytes) (fits : Fits (kind, payload)) where
  abbrev attrs : Bytes
  attrs = block kind payload rest

  abbrev padded : Bytes
  padded = payload ++ zeros (padding (length payload))

  length-padded : length padded ≡ length payload + padding (length payload)
  length-padded =
      length-append payload (zeros (padding (length payload)))
      ∙ ap (λ n. length payload + n) (length-zeros (padding (length payload)))

  nla_len-block : nla_len attrs ≡ suc (suc (suc (suc (length payload))))
  unfolding nla_len from_le_bytes
  nla_len-block = omega arith

  nla_type-block : nla_type attrs ≡ kind % 2 ^ 14
  unfolding nla_type from_le_bytes
  nla_type-block = omega arith

  nla_payload-block : nla_payload attrs ≡ payload
  unfolding nla_payload
  nla_payload-block = rw nla_len-block (
      ap (take (length payload)) (append_assoc payload (zeros (padding (length payload))) rest)
      ∙ take-append_exact (length payload) payload _ refl)

  is_readable-block : is_readable attrs ≡ true
  unfolding is_readable
  is_readable-block = rw nla_len-block (ground (arith, length-append padded rest, length-padded))

  nla_next-block : nla_next attrs ≡ rest
  unfolding nla_next
  nla_next-block = rw nla_len-block (
      let e : nla_align (suc (suc (suc (suc (length payload)))))
          ≡ suc (suc (suc (suc (length padded)))) =
        omega (arith, length-padded) in
      ap (λ n. drop n attrs) e ∙ drop-append_exact (length padded) padded rest refl)

-- Attributes, one after another, pushed onto a buffer, and what their loop makes of them.
unfoldable pub push_all : List (ℕ × Bytes) → Bytes → Bytes
unfolding push_nla_bytes
push_all [] buf = buf
push_all ((kind, payload) ∷ ps) buf = push_all ps (push_nla_bytes buf kind payload)

unfoldable pub note_all : List (ℕ × Bytes) → XdpIds → XdpIds
unfolding note_attr
note_all [] ids = ids
note_all ((kind, payload) ∷ ps) ids = note_all ps (note_attr (kind % 2 ^ 14) payload ids)

encoded : List (ℕ × Bytes) → Bytes
encoded [] = []
encoded ((kind, payload) ∷ ps) = block kind payload (encoded ps)

length-block_aligned :
    (buf : Bytes) (kind : ℕ) (payload : Bytes)
    → length buf % 4 ≡ 0
    → length (buf ++ block kind payload []) % 4 ≡ 0
length-block_aligned buf kind payload h = omega (
  arith,
  length-append buf (block kind payload []),
  length-append (payload ++ zeros (padding (length payload))) [],
  length-append payload (zeros (padding (length payload))),
  length-zeros (padding (length payload)),
)

push_all_lem :
    (ps : List (ℕ × Bytes)) (buf : Bytes) → length buf % 4 ≡ 0 → push_all ps buf ≡ buf ++ encoded ps
unfolding push_all encoded
push_all_lem [] buf h = sym (append-nil buf)
push_all_lem ((kind, payload) ∷ ps) buf h =
    let padded = payload ++ zeros (padding (length payload)) in
    ap (push_all ps) (push_nla_bytes_lem buf kind payload h)
    ∙ push_all_lem ps (buf ++ block kind payload []) (length-block_aligned buf kind payload h)
    ∙ append_assoc buf (block kind payload []) (encoded ps)
    ∙ ap
        (λ r.
          buf
          ++ (4 + length payload) % 256
            ∷ (4 + length payload) / 256 % 256
            ∷ kind % 256
            ∷ kind / 256 % 256
            ∷ r)
        (ap (λ r. r ++ encoded ps) (append-nil padded))

note_attrs-encoded :
    (rounds : ℕ) (ps : List (ℕ × Bytes)) (ids : XdpIds)
    → All Fits ps
    → length (encoded ps) ≤ rounds
    → note_attrs rounds (encoded ps) ids ≡ note_all ps ids
unfolding encoded note_attrs note_all
note_attrs-encoded zero [] ids fits h = refl
note_attrs-encoded (suc rounds) [] ids fits h = unfold is_readable in refl
note_attrs-encoded zero ((kind, payload) ∷ ps) ids fits h = absurd (omega arith)
note_attrs-encoded (suc rounds) ((kind, payload) ∷ ps) ids fits h =
    rw (is_readable-block kind payload (encoded ps) fits.0) (
      rw
        (
          nla_next-block kind payload (encoded ps) fits.0,
          nla_type-block kind payload (encoded ps) fits.0,
          nla_payload-block kind payload (encoded ps) fits.0,
        )
        (note_attrs-encoded rounds ps (note_attr (kind % 2 ^ 14) payload ids) fits.1 (
          omega (arith, length-append (payload ++ zeros (padding (length payload))) (encoded ps)))))

-- Nested attributes are read back whole.
parse_xdp_nested-push_all :
    (ps : List (ℕ × Bytes))
    → All Fits ps
    → parse_xdp_nested (push_all ps []) ≡ xdp_id (note_all ps no_ids)
unfolding parse_xdp_nested
parse_xdp_nested-push_all ps fits =
    ap parse_xdp_nested (push_all_lem ps [] refl)
    ∙ ap xdp_id (note_attrs-encoded (length (encoded ps)) ps no_ids fits (omega arith))

module _ (ifla_xdp : ℕ) where
  -- What is found in attributes: what the first one for XDP holds.
  pub xdp_of : List (ℕ × Bytes) → Option ℕ
  unfolding parse_xdp_nested
  xdp_of [] = none
  xdp_of ((kind, payload) ∷ ps) =
      let rest = xdp_of ps in if kind % 2 ^ 14 == ifla_xdp then parse_xdp_nested payload else rest

  find_xdp-encoded :
      (rounds : ℕ) (ps : List (ℕ × Bytes))
      → All Fits ps
      → length (encoded ps) ≤ rounds
      → find_xdp ifla_xdp rounds (encoded ps) ≡ xdp_of ps
  unfolding encoded find_xdp xdp_of
  find_xdp-encoded zero [] fits h = refl
  find_xdp-encoded (suc rounds) [] fits h = unfold is_readable in refl
  find_xdp-encoded zero ((kind, payload) ∷ ps) fits h = absurd (omega arith)
  find_xdp-encoded (suc rounds) ((kind, payload) ∷ ps) fits h =
      rw (is_readable-block kind payload (encoded ps) fits.0) (
        rw
          (
            nla_next-block kind payload (encoded ps) fits.0,
            nla_type-block kind payload (encoded ps) fits.0,
            nla_payload-block kind payload (encoded ps) fits.0,
          )
          (ap (λ r. if kind % 2 ^ 14 == ifla_xdp then parse_xdp_nested payload else r)
            (find_xdp-encoded rounds ps fits.1 (
              omega (
                arith,
                length-append (payload ++ zeros (padding (length payload))) (encoded ps),
              )))))

  -- An attribute that is not for XDP.
  abbrev pub Other : ℕ × Bytes → Type 0
  Other (kind, payload) = kind % 2 ^ 14 ≢ ifla_xdp

  xdp_of-others :
      (before after : List (ℕ × Bytes)) → All Other before → xdp_of (before ++ after) ≡ xdp_of after
  unfolding xdp_of
  xdp_of-others [] after h = refl
  xdp_of-others ((kind, payload) ∷ before) after h =
      ground (arith, h.0, xdp_of-others before after h.1)

  -- What the kernel reports of a link as attributes, of which the first one for XDP, flagged as nested
  -- or not, holds attributes itself, is read as these: a program's number is found just where they
  -- say that one is attached, the first of the general, the driver's, the generic and the hardware's that
  -- is not 0. Each attribute fits its header.
  pub parse_xdp_prog_id-push_all :
      (before after nested : List (ℕ × Bytes)) (kind : ℕ)
      → All Other before
      → kind % 2 ^ 14 ≡ ifla_xdp
      → All Fits nested
      → All Fits (before ++ (kind, push_all nested []) ∷ after)
      → parse_xdp_prog_id ifla_xdp (push_all (before ++ (kind, push_all nested []) ∷ after) [])
        ≡ xdp_id (note_all nested no_ids)
  unfolding parse_xdp_prog_id
  parse_xdp_prog_id-push_all before after nested kind others e inner fits =
      let ps = before ++ (kind, push_all nested []) ∷ after in
      ap (parse_xdp_prog_id ifla_xdp) (push_all_lem ps [] refl)
      ∙ find_xdp-encoded (length (encoded ps)) ps fits (omega arith)
      ∙ xdp_of-others before ((kind, push_all nested []) ∷ after) others
      ∙ unfold xdp_of in ground (arith, e, parse_xdp_nested-push_all nested inner)
