-- ===== src/Router/Config/Tests.antt =====
-- A topology, read.
use demiurge.Base.{
  ◌≡◌, refl, List, [], ◌∷◌, String, Bytes, bytes, bytes_eq, if◌then◌else◌, inl, inr, split, trim,
  trim_start, trim_end,
}
use demiurge.Router.Config.{parse_topology_map, split_once}
use demiurge.Router.Config.RoundTrip.{
  Entry, specification, inserted, parse_topology_map-specification,
}

-- Two labels as texts, and any other.
abbrev text : Bytes → String
text b = if bytes_eq b (bytes "a") then "a" else if bytes_eq b (bytes "b") then "b" else "n"

abbrev entries : List Entry
entries =
    record { label = bytes "a"; node = bytes "x"; rack = bytes "r"; cluster = bytes "c" }
    ∷ record { label = bytes "b"; node = bytes "y"; rack = []; cluster = bytes "c" }
    ∷ []

parse_topology_map-specification_example :
    parse_topology_map text (λ b. b) (bytes "a@x/r/c,b@y//c,") ≡ inr (inserted text entries [])
unfolding specification
parse_topology_map-specification_example =
    parse_topology_map-specification text (λ b. b) entries
      (
        ((refl, tt), (refl, tt), (refl, tt), (refl, tt)),
        (((refl, tt), (refl, tt), tt, (refl, tt)), tt),
      )

two_parts :
    parse_topology_map text (λ b. b) (bytes " a@x/r ,")
    ≡ inl (bytes "bad topology spec a@x/r; want label@node/rack/cluster")
unfolding parse_topology_map split trim trim_start trim_end split_once
two_parts = refl
