-- ===== src/Router/Config/RoundTrip.antt =====
-- The specification of a topology is read back as it was written.
use mathlib.Core.Bool.{◌&&◌}
use demiurge.Base.{
  ℕ, ◌≡◌, refl, ap, ap₂, ◌∙◌, Bool, true, false, not, some, inr, List, [], ◌∷◌, ◌++◌, All, String,
  Map, map, ◌==◌, Bytes, split, split-append, trim, trim_start, trim_end, arith, string_key,
}
use demiurge.Base.Maps.{insert}
use demiurge.Base.Utf8.{is_whitespace}
use demiurge.Cost.Rdma.{TopologyId}
use demiurge.Router.{items, kept, trimmed}
use demiurge.Router.Config.{
  split_once, labelled, item_of_halves, topology_of, topology_item, topology_items,
  parse_topology_map,
}

-- A part of an item: no separator and no white space.
abbrev is_plain : ℕ → Bool
is_plain b = not (b == b',') && not (b == b'@') && not (b == b'/') && not (is_whitespace b)

abbrev pub Plain : Bytes → Type 0
Plain part = All (λ b. is_plain b ≡ true) part

pub record Entry : Type 0 where
  pub label : Bytes
  pub node : Bytes
  pub rack : Bytes
  pub cluster : Bytes

abbrev pub PlainEntry : Entry → Type 0
PlainEntry e = Plain e.label × Plain e.node × Plain e.rack × Plain e.cluster

-- An entry as it is written, `label@node/rack/cluster`, and a specification, where a comma follows each.
abbrev pub written : Entry → Bytes
written e = e.label ++ b'@' ∷ (e.node ++ b'/' ∷ (e.rack ++ b'/' ∷ e.cluster))

unfoldable pub specification : List Entry → Bytes
specification [] = []
specification (e ∷ es) = written e ++ b',' ∷ specification es

module _ (P : ℕ → Type 0) where
  All-append : (xs ys : Bytes) → All P xs → All P ys → All P (xs ++ ys)
  All-append [] ys h k = k
  All-append (x ∷ xs) ys h k = (h.0, All-append xs ys h.1 k)

module _ (P Q : ℕ → Type 0) (f : (b : ℕ) → P b → Q b) where
  All-map : (xs : Bytes) → All P xs → All Q xs
  All-map [] h = tt
  All-map (x ∷ xs) h = (f x h.0, All-map xs h.1)

split_whole : (p : ℕ → Bool) (xs : Bytes) → All (λ b. p b ≡ false) xs → split p xs ≡ xs ∷ []
unfolding split
split_whole p [] h = refl
split_whole p (x ∷ xs) h = rw (h.0, split_whole p xs h.1) refl

split_once-append :
    (sep : ℕ) (xs ys : Bytes)
    → All (λ b. (b == sep) ≡ false) xs
    → split_once sep (xs ++ sep ∷ ys) ≡ some (xs, ys)
unfolding split_once
split_once-append sep [] ys h = ground arith
split_once-append sep (x ∷ xs) ys h = rw (h.0, split_once-append sep xs ys h.1) refl

trim_start_plain :
    (xs : Bytes) → All (λ b. is_whitespace b ≡ false) xs → trim_start is_whitespace xs ≡ xs
unfolding trim_start
trim_start_plain [] h = refl
trim_start_plain (x ∷ xs) h = rw h.0 refl

trim_end_plain :
    (xs : Bytes) → All (λ b. is_whitespace b ≡ false) xs → trim_end is_whitespace xs ≡ xs
unfolding trim_end
trim_end_plain [] h = refl
trim_end_plain (x ∷ []) h = rw h.0 refl
trim_end_plain (x ∷ y ∷ xs) h = rw (trim_end_plain (y ∷ xs) h.1) refl

-- What holds of a part's bytes and of the two inner separators holds of the bytes of an entry.
written_all :
    (P : ℕ → Type 0)
    → ((b : ℕ) → is_plain b ≡ true → P b)
    → P b'@'
    → P b'/'
    → (e : Entry) → PlainEntry e
    → All P (written e)
written_all P plain at slash e h =
    let part = All-map (λ b. is_plain b ≡ true) P plain in
    let inner =
      All-append P e.rack (b'/' ∷ e.cluster) (part e.rack h.2) (slash, part e.cluster h.3) in
    let rest =
      All-append P e.node (b'/' ∷ (e.rack ++ b'/' ∷ e.cluster)) (part e.node h.1) (slash, inner) in
    All-append P e.label (b'@' ∷ (e.node ++ b'/' ∷ (e.rack ++ b'/' ∷ e.cluster))) (part e.label h.0)
      (at, rest)

trim-written : (e : Entry) → PlainEntry e → trim is_whitespace (written e) ≡ written e
unfolding trim
trim-written e h =
    let spaceless =
      written_all (λ b. is_whitespace b ≡ false) (λ b p. ground arith) refl refl e h in
    ap (trim_end is_whitespace) (trim_start_plain (written e) spaceless)
    ∙ trim_end_plain (written e) spaceless

kept_written :
    (label rest : Bytes) (ps : List Bytes)
    → kept ((label ++ b'@' ∷ rest) ∷ ps) ≡ (label ++ b'@' ∷ rest) ∷ kept ps
kept_written [] rest ps = refl
kept_written (x ∷ label) rest ps = refl

items-specification :
    (es : List Entry) → All PlainEntry es → items b',' (specification es) ≡ map written es
unfolding items specification split trimmed trim trim_start trim_end
items-specification [] h = refl
items-specification (e ∷ es) h =
    let comma : ℕ → Bool = λ b. b == b',' in
    let rest = split comma (specification es) in
    let one : split comma (written e) ≡ written e ∷ [] =
      split_whole comma (written e)
        (written_all (λ b. comma b ≡ false) (λ b p. ground arith) refl refl e h.0) in
    ap (λ ps. kept (trimmed ps))
      (split-append comma (written e) b',' (specification es) refl ∙ ap (λ w. w ++ rest) one)
    ∙ ap (λ w. kept (w ∷ trimmed rest)) (trim-written e h.0)
    ∙ kept_written e.label (e.node ++ b'/' ∷ (e.rack ++ b'/' ∷ e.cluster)) (trimmed rest)
    ∙ ap (◌∷◌ (written e)) (items-specification es h.1)

topology_item-written :
    (text : Bytes → String) (e : Entry)
    → PlainEntry e
    → topology_item text (written e)
      ≡ some (
        text e.label,
        record { node = text e.node; rack = text e.rack; cluster = text e.cluster },
      )
unfolding topology_item item_of_halves labelled topology_of
topology_item-written text e h =
    let slash : ℕ → Bool = λ b. b == b'/' in
    let whole = λ (part : Bytes) (plain : Plain part).
      split_whole slash part (
        All-map (λ b. is_plain b ≡ true) (λ b. slash b ≡ false) (λ b p. ground arith) part plain) in
    let halves = split_once-append b'@' e.label (e.node ++ b'/' ∷ (e.rack ++ b'/' ∷ e.cluster)) (
      All-map (λ b. is_plain b ≡ true) (λ b. (b == b'@') ≡ false) (λ b p. ground arith) e.label
        h.0) in
    let parts : split slash (e.node ++ b'/' ∷ (e.rack ++ b'/' ∷ e.cluster))
        ≡ e.node ∷ e.rack ∷ e.cluster ∷ [] =
      split-append slash e.node b'/' (e.rack ++ b'/' ∷ e.cluster) refl
      ∙ ap₂ ◌++◌ (whole e.node h.1) (
          split-append slash e.rack b'/' e.cluster refl
          ∙ ap₂ ◌++◌ (whole e.rack h.2) (whole e.cluster h.3)) in
    ap (item_of_halves text) halves ∙ ap (λ ps. labelled text e.label (topology_of text ps)) parts

-- The entries, inserted in their order.
abbrev pub inserted : (Bytes → String) → List Entry → Map String TopologyId → Map String TopologyId
inserted text [] out = out
inserted text (e ∷ es) out = inserted text es (
    insert (text e.label)
      (record { node = text e.node; rack = text e.rack; cluster = text e.cluster }) out)

topology_items-written :
    (text : Bytes → String) (quoted : Bytes → Bytes) (es : List Entry) (out : Map String TopologyId)
    → All PlainEntry es
    → topology_items text quoted (map written es) out ≡ inr (inserted text es out)
unfolding topology_items
topology_items-written text quoted [] out h = refl
topology_items-written text quoted (e ∷ es) out h =
    rw (topology_item-written text e h.0, topology_items)
      (topology_items-written text quoted es _ h.1)

-- A specification of a topology that was written from entries, of which no part has a separator or white
-- space, is read back as these entries, where a later one replaces an earlier one of the same label.
pub parse_topology_map-specification :
    (text : Bytes → String) (quoted : Bytes → Bytes) (es : List Entry)
    → All PlainEntry es
    → parse_topology_map text quoted (specification es) ≡ inr (inserted text es [])
unfolding parse_topology_map
parse_topology_map-specification text quoted es h =
    ap (λ is. topology_items text quoted is []) (items-specification es h)
    ∙ topology_items-written text quoted es [] h
