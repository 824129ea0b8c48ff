-- ===== src/Lib.antt =====
-- A verification library for Demiurge, a load balancer for fleets of inference servers that split
-- the prefill and the decode of a request.
--
-- The program and the files that model it:
--   * Ledger models crates/demiurge-control/src/lib.rs, the reservation ledger: every operation of
--     `ReservationLedger` and of `ReservationGuard` is the function of the same name (`release_inner`,
--     `try_reserve_from`, `reclaim_expired`, `resolve_migration`), a function on the ledger's state.
--     `Ledger.Invariant` is its invariant, `Ledger.History` the histories of any number of threads.
--   * Cost models crates/demiurge-cost/src/kv.rs, the factors of lib.rs beside it and the constants
--     of generated_params.rs: the bytes that a prompt reserves, which the ledger charges.
--   * Migration models crates/demiurge-control/src/migration.rs: the budget, the copy passes, the
--     decision (by which the ledger releases or keeps a reservation) and the log of stalls.
--   * Dataplane models crates/demiurge-dataplane/src/admission.rs, the token bucket, once with each
--     call in one step and once with each atomic access in one step (`Bucket.Threads`).
--   * Http models crates/demiurge-router/src/http.rs: how the router reads a request's head, its
--     token count, its phase and its identity.
--   * Handoff models crates/demiurge-handoff/src/lib.rs and the plain transports of transport.rs
--     beside it: the headers by which a prefill peer hands its cache on, and the registry from which
--     the decode path takes it.
--   * Auth models crates/demiurge-auth/src/lib.rs and the keyed hash of secret.rs beside it: which
--     tenants share a prefix cache, and the salts of the cache domains.
--   * State models crates/demiurge-state: the warmth maps (warmth.rs), the snapshot (snapshot.rs) and
--     its updates by gossip and by the merge that heals a partition (gossip.rs).
--   * Control models predictor.rs, rebalancer.rs, pressure.rs, corrector_grad.rs and corrector_shadow.rs
--     of crates/demiurge-control/src: the percentiles of lengths, the share of the prefill pool and the
--     graduation of the corrector. Dataplane has admit_mode.rs and rcu.rs beside the bucket too.
--   * Router models the specification of cache groups in crates/demiurge-router/src/config.rs, and in
--     routing.rs beside it the checks of a prefill answer and its reservation in the ledger.
--   * Cost has the composition of a cost (`Cost.Compose`, lib.rs) and the distance and time of a transfer,
--     the discount for warmth and the barrier of memory (`Cost.Rdma`, rdma.rs, warmth.rs and kv.rs).
--   * `Control.Pairing` models pairing.rs and scored.rs, `Control.Shadow` the logs of corrector_shadow.rs
--     and rdma_cost_shadow.rs, `State.Pool` the strengths and pressures of snapshot.rs.
--   * `Router.Backend` models crates/demiurge-router/src/backend.rs, `Router.Plane` lib.rs beside it (the
--     state, its counters, the choices and the tick of the control plane), `Router.Routing` and
--     `Router.Complete` routing.rs (the classification, and what follows a prefill), and from serve.rs
--     `Router.Serve` the budget of connections and their dispatch, and `Router.Connection` a connection
--     from its admission to the drop of its guards. A pool is the list of its backends'
--     states, so that a backend stands in one pool only. What is read of the environment, the clocks, a
--     lock that is tried and the counter of requests is an argument (`Settings`, `Surroundings`,
--     `Readings`); of the kernel's program it is kept whether it is attached.
--   * `Dataplane.Netlink` models how crates/demiurge-dataplane/src/xdp_linux.rs writes and reads the
--     kernel's attributes and messages, `Dataplane.Xdp` its maps and its link with the configuration of
--     xdp.rs beside it, and `Dataplane.Uring` the loops of forwarder_io_uring.rs and the decision of
--     forwarder.rs. The kernel is a parameter: `LinkKernel` is its state and how it answers a request,
--     and a session's reads and writes have a list of answers. The loops over messages and attributes
--     have the number of bytes for fuel; `Netlink.Loops` has their rounds with no fuel.
--   * `Control.Fleet` models fleet_pilot.rs of crates/demiurge-control/src and `Control.Fleet.Sim`
--     fleet_sim.rs beside it.
--   * `Router.Config` models the specifications of the topology and of a pool in config.rs of the router,
--     `Router.Serve.Accept` the loops that accept connections in serve.rs beside it, and
--     `Handoff.Modeled` the modeled transport of crates/demiurge-handoff/src/transport.rs.
--   * `Router.Plane.Kernel` models how lib.rs of the router attaches the kernel's program, and `Tooling`
--     the reading of the specification in xtask/src/main.rs. A round over the macros moves past one, and
--     there are as many rounds as bytes and one more.
--   * Base holds what the others share: machine words, lists by native numbers, sorting, maps, texts,
--     UTF-8 and the rounding of doubles.
-- A connection takes a slot and a worker's queue (`Router.Serve`) and a token (Dataplane); the request's
-- head is read (Http) and routed (`Router.Routing`, by the costs of Cost, the warmth of State and the cache
-- domains of Auth); prefill runs; its answer is parsed (Handoff), its bytes are reserved (Ledger), a decode
-- backend is chosen and the hand-off published (`Router.Complete`); and the reservation is released,
-- reclaimed or resolved after a migration (Ledger, Migration).
--
-- How the source is modelled:
--   * a `u64` is a natural number; each operation wraps, saturates or checks as the source's does in
--     a release build;
--   * an `Instant` or a `Duration` is a number of nanoseconds, and a clock's reading is an argument;
--   * a `HashMap` is an association list, and a `HashSet` a list, so that what holds for every list
--     holds for every order of iteration; a text of a header is the list of its bytes or characters;
--   * a product of a `u64` and a `f64` is computed exactly and rounded to 53 bits, to even on a tie
--     (`Base.Float`); the search for the unit in the last place has fuel 100, which serves every
--     number below 2 ^ 153, and the products are below 2 ^ 117. The lossy decoding of UTF-8 has
--     the number of bytes for fuel, and takes at least one at each step;
--   * a call that holds one mutex throughout is one step; an atomic access is one step, and the
--     weaker orderings of the processor are not modelled;
--   * BLAKE3 and the hash of a warmth block are parameters;
--   * the costs, the routing, the rebalancer and the corrector are written over an interface of the
--     operations of `f64` (`Base.F64`); what is shown of them holds for any such operations, and where
--     the order of doubles matters its laws are named hypotheses, of which a test has an instance.
-- What only reads or writes sockets, files or the kernel, and the rest of the tooling are not modelled.
pub mod Auth
pub mod Base
pub mod Control
pub mod Cost
pub mod Dataplane
pub mod Handoff
pub mod Http
pub mod Ledger
pub mod Migration
pub mod Router
pub mod State
pub mod Tooling
