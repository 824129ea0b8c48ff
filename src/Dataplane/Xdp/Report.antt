-- ===== src/Dataplane/Xdp/Report.antt =====
-- How the kernel reports an interface's programs, and how the router reads it. Of the kernel the
-- theorems rely on what is documented of RTM_GETLINK.
use demiurge.Base.{
  ℕ, ◌≡◌, ◌≢◌, ◌≤◌, ◌<◌, ◌%◌, ◌^◌, Option, none, some, List, [], ◌∷◌, ◌++◌, length, take, All, refl,
  sym, ap, ◌∙◌, arith, Bytes, take_all, length-append,
}
use mathlib.Core.List.{append-nil}
use demiurge.Base.LittleEndian.{to_le_bytes, from_le_bytes-to_le_bytes}
use demiurge.Dataplane.Netlink.{
  no_ids, xdp_id, word, first_id, note_attr, read_answer, answered, os_error, Query,
}
use demiurge.Dataplane.Netlink.RoundTrip.{
  Fits, Other, push_all, note_all, parse_xdp_prog_id-push_all,
}
use demiurge.Dataplane.Netlink.Messages.{link_message, read_answer-link}
use demiurge.Dataplane.Xdp.Link.{LinkKernel, KernelReply, received, failed, query_iface_xdp_prog_id}

-- The number of a program, if there is one: not 0, and a word.
abbrev pub IsId : Option ℕ → Type 0
IsId none = Unit
IsId (some id) = (id ≢ 0) × (id < 2 ^ 32)

-- The attributes by which the kernel reports the driver's and the generic program of a link.
unfoldable pub report : Option ℕ → Option ℕ → List (ℕ × Bytes)
report none none = (2, 0 ∷ []) ∷ []
report (some n) none = (5, to_le_bytes 4 n) ∷ (2, 1 ∷ []) ∷ (4, to_le_bytes 4 n) ∷ []
report none (some g) = (6, to_le_bytes 4 g) ∷ (2, 2 ∷ []) ∷ (4, to_le_bytes 4 g) ∷ []
report (some n) (some g) = (6, to_le_bytes 4 g) ∷ (5, to_le_bytes 4 n) ∷ (2, 4 ∷ []) ∷ []

-- The driver's program, or else the generic one.
unfoldable pub first_program : Option ℕ → Option ℕ → Option ℕ
first_program none generic = generic
first_program (some n) generic = some n

word-to_le_bytes : (n : ℕ) → n < 2 ^ 32 → word (to_le_bytes 4 n) ≡ n
unfolding word to_le_bytes
word-to_le_bytes n h = from_le_bytes-to_le_bytes 4 n h

note_all-report :
    (native generic : Option ℕ)
    → IsId native
    → IsId generic
    → xdp_id (note_all (report native generic) no_ids) ≡ first_program native generic
unfolding note_all report first_program xdp_id first_id note_attr to_le_bytes
note_all-report none none hn hg = refl
note_all-report (some n) none hn hg = ground (arith, word-to_le_bytes n hn.1)
note_all-report none (some g) hn hg = ground (arith, word-to_le_bytes g hg.1)
note_all-report (some n) (some g) hn hg =
    ground (arith, word-to_le_bytes n hn.1, word-to_le_bytes g hg.1)

module _ (N : LinkKernel) where
  -- What is documented of the kernel's answer: the link's message, among whose attributes the first one
  -- for XDP holds the report; and it is not longer than the buffer.
  pub record Reports (native generic : Option ℕ) (reply : KernelReply) : Type 0 where
    pub headers : Bytes
    pub before : List (ℕ × Bytes)
    pub after : List (ℕ × Bytes)
    pub kind : ℕ
    pub native_id : IsId native
    pub generic_id : IsId generic
    pub two_headers : length headers ≡ 26
    pub others : All (Other N.ifla_xdp) before
    pub is_xdp : kind % 2 ^ 14 ≡ N.ifla_xdp
    pub report_fits : All Fits (report native generic)
    pub fits : All Fits (before ++ (kind, push_all (report native generic) []) ∷ after)
    pub short :
        length (push_all (before ++ (kind, push_all (report native generic) []) ∷ after) []) ≤ 8160
    pub answer :
        reply
        ≡ received (
            link_message headers
              (push_all (before ++ (kind, push_all (report native generic) []) ∷ after) []))

  -- What is made of the kernel's reply.
  abbrev asked : KernelReply → Query
  asked reply = elim reply [
    | failed e ↦ os_error e
    | received b ↦ read_answer N.ifla_xdp (take 8192 b)
  ]

  pub query_iface_xdp_prog_id-Reports :
      (native generic : Option ℕ) (i : ℕ) (k : N.K)
      → Reports native generic (N.get_link i k)
      → query_iface_xdp_prog_id N i k ≡ answered (first_program native generic)
  unfolding query_iface_xdp_prog_id to_le_bytes
  query_iface_xdp_prog_id-Reports native generic i k r =
      let ps = r.before ++ (r.kind, push_all (report native generic) []) ∷ r.after in
      let attrs = push_all ps [] in
      let message = link_message r.headers attrs in
      let lengths = length-append r.headers attrs in
      let whole : take 8192 message ≡ message =
        take_all 8192 message (omega (arith, lengths, r.two_headers, r.short)) in
      ap asked r.answer
      ∙ ap (read_answer N.ifla_xdp) (whole ∙ sym (append-nil message))
      ∙ read_answer-link N.ifla_xdp r.headers attrs [] r.two_headers (omega (arith, r.short))
      ∙ ap answered (
          parse_xdp_prog_id-push_all N.ifla_xdp r.before r.after (report native generic) r.kind
            r.others r.is_xdp r.report_fits r.fits
          ∙ note_all-report native generic r.native_id r.generic_id)
