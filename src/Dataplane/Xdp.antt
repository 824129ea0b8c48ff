-- ===== src/Dataplane/Xdp.antt =====
-- crates/demiurge-dataplane/src/xdp.rs and xdp_linux.rs: the admission program in the kernel, its
-- configuration and the maps that it shares with the router. What it does with a packet is the
-- kernel's; the clock's reading is an argument.
pub mod Link
pub mod Report
pub mod Loss
mod Tests
use demiurge.Base.{
  ℕ, ◌+◌, ◌<◌, ◌^◌, ◌≡◌, max, min, refl, Option, none, some, List, [], ◌∷◌, ltb, if◌then◌else◌,
  arith, wrapping_add,
}

-- The section's constants, `DATAPLANE_ADMIT_BURST` and `DATAPLANE_ADMIT_REFILL_PER_SEC`
abbrev pub default_capacity : ℕ
default_capacity = 4096

abbrev pub admit_refill_per_sec : ℕ
admit_refill_per_sec = 4096

pub record XdpAdmitConfig : Type 0 where
  pub capacity : ℕ
  pub refill_per_sec : ℕ
  pub listen_port : Option ℕ

unfoldable pub with_capacity : ℕ → XdpAdmitConfig
with_capacity capacity = record {
  capacity = capacity;
  refill_per_sec = admit_refill_per_sec;
  listen_port = none;
}

unfoldable pub default_config : XdpAdmitConfig
unfolding with_capacity
default_config = with_capacity default_capacity

-- The tokens are the 64 bits of an `i64`, which the kernel also lets fall below 0.
pub record AdmitMapState : Type 0 where
  pub tokens : ℕ
  pub capacity : ℕ
  pub refill_per_sec : ℕ
  pub last_refill_ns : ℕ
  pub listen_port : ℕ

-- `config.listen_port.unwrap_or(0)`
abbrev port_or_all : Option ℕ → ℕ
port_or_all none = 0
port_or_all (some port) = port

unfoldable pub seed_admit_state : ℕ → XdpAdmitConfig → AdmitMapState
seed_admit_state now_ns config =
    let cap = max config.capacity 1 in
    record {
      tokens = cap;
      capacity = cap;
      refill_per_sec = config.refill_per_sec;
      last_refill_ns = now_ns;
      listen_port = port_or_all config.listen_port;
    }

-- What it writes over the state that it reads.
unfoldable pub reseed_admit_state : ℕ → ℕ → AdmitMapState → AdmitMapState
reseed_admit_state now_ns capacity state =
    let cap = max capacity 1 in
    record state { tokens = cap; capacity = cap; last_refill_ns = now_ns }

-- `tokens.max(0) as u64`
unfoldable pub available : AdmitMapState → ℕ
available state = if ltb state.tokens (2 ^ 63) then state.tokens else 0

pub record AdmitMapStats : Type 0 where
  pub shed_total : ℕ
  pub pass_total : ℕ

-- The sum over the processors, which wraps in a release build.
unfoldable add_stats : AdmitMapStats → List AdmitMapStats → AdmitMapStats
add_stats total [] = total
add_stats total (v ∷ vs) =
    add_stats
      (record {
        shed_total = wrapping_add total.shed_total v.shed_total;
        pass_total = wrapping_add total.pass_total v.pass_total;
      })
      vs

unfoldable pub read_admit_stats : List AdmitMapStats → AdmitMapStats
unfolding add_stats
read_admit_stats values = add_stats (record { shed_total = 0; pass_total = 0 }) values
