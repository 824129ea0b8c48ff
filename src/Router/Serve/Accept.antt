-- ===== src/Router/Serve/Accept.antt =====
-- crates/demiurge-router/src/serve.rs: the two loops that accept connections. What an accept gives is
-- an argument, with what the workers did to the queues and the slots before it.
use demiurge.Base.{ℕ, max, ◌≡◌, refl, ap, List, [], ◌∷◌, ◌++◌, All, ◌∙◌, arith}
use demiurge.Router.Serve.{Acceptor, Dispatched, queued_at, shed_503, stopped, dispatch_conn}

pub data Accept : Type 0 where
  accepted interrupted : Accept
  accept_failed : ℕ → Accept

-- What a loop has come to: it accepts, it has returned, or it has returned the error of an accept.
pub data Serving : Type 0 where
  serving returned : Serving
  returned_error : ℕ → Serving

-- What the loops give: what became of the connections, in their order, and how far they are.
pub record Served : Type 0 where
  pub dispatched : List Dispatched
  pub state : Serving

abbrev pub Events : Type 0
Events = List (Accept × (Acceptor → Acceptor))

abbrev after : Dispatched → Served → Served
after d rest = record rest { dispatched = d ∷ rest.dispatched }

-- `if !dispatch_conn(..) { break }`
abbrev goes_on : Dispatched → Served → Served
goes_on stopped rest = record { dispatched = stopped ∷ []; state = returned }
goes_on shed_503 rest = after shed_503 rest
goes_on (queued_at i) rest = after (queued_at i) rest

-- The loop of `serve_std_accept`: a failed accept is passed over, and an interrupted one is tried again.
unfoldable pub std_loop : ℕ → Events → Acceptor → Served
std_loop max_conns [] a = record { dispatched = []; state = serving }
std_loop max_conns ((accepted, meanwhile) ∷ events) a =
    let (d, a') = dispatch_conn max_conns (meanwhile a) in goes_on d (std_loop max_conns events a')
std_loop max_conns ((interrupted, meanwhile) ∷ events) a = std_loop max_conns events (meanwhile a)
std_loop max_conns ((accept_failed e, meanwhile) ∷ events) a =
    std_loop max_conns events (meanwhile a)

-- The loop of `serve_iouring_accept`
unfoldable pub iouring_loop : ℕ → Events → Acceptor → Served
iouring_loop max_conns [] a = record { dispatched = []; state = serving }
iouring_loop max_conns ((accepted, meanwhile) ∷ events) a =
    let (d, a') = dispatch_conn max_conns (meanwhile a) in
    goes_on d (iouring_loop max_conns events a')
iouring_loop max_conns ((interrupted, meanwhile) ∷ events) a =
    iouring_loop max_conns events (meanwhile a)
iouring_loop max_conns ((accept_failed e, meanwhile) ∷ events) a = record {
  dispatched = [];
  state = returned_error e;
}

unfoldable pub serve_std_accept : ℕ → Events → Acceptor → Served
unfolding std_loop
serve_std_accept max_conns events a = std_loop (max max_conns 1) events a

unfoldable pub serve_iouring_accept : ℕ → Events → Acceptor → Served
unfolding iouring_loop
serve_iouring_accept max_conns events a = iouring_loop (max max_conns 1) events a

-- An accept that did not fail.
abbrev pub NotFailed : Accept × (Acceptor → Acceptor) → Type 0
NotFailed (accepted, meanwhile) = Unit {0}
NotFailed (interrupted, meanwhile) = Unit {0}
NotFailed (accept_failed e, meanwhile) = ◌≡◌ {A = ℕ} 1 0

-- What a failed accept makes of the io_uring loop: if it is still accepting, it returns the error.
abbrev errored : ℕ → Serving → Serving
errored e serving = returned_error e
errored e returned = returned
errored e (returned_error e') = returned_error e'

abbrev pub or_error : ℕ → Served → Served
or_error e s = record s { state = errored e s.state }

goes_on-or_error :
    (e : ℕ) (d : Dispatched) (s : Served) → goes_on d (or_error e s) ≡ or_error e (goes_on d s)
goes_on-or_error e stopped s = refl
goes_on-or_error e shed_503 s = refl
goes_on-or_error e (queued_at i) s = refl

iouring_loop-failed :
    (max_conns e : ℕ) (before rest : Events) (meanwhile : Acceptor → Acceptor) (a : Acceptor)
    → All NotFailed before
    → iouring_loop max_conns (before ++ (accept_failed e, meanwhile) ∷ rest) a
      ≡ or_error e (std_loop max_conns before a)
unfolding iouring_loop std_loop
iouring_loop-failed max_conns e [] rest meanwhile a h = refl
iouring_loop-failed max_conns e ((accepted, m) ∷ before) rest meanwhile a h =
    let (d, a') = dispatch_conn max_conns (m a) in
    ap (goes_on d) (iouring_loop-failed max_conns e before rest meanwhile a' h.1)
    ∙ goes_on-or_error e d (std_loop max_conns before a')
iouring_loop-failed max_conns e ((interrupted, m) ∷ before) rest meanwhile a h =
    iouring_loop-failed max_conns e before rest meanwhile (m a) h.1
iouring_loop-failed max_conns e ((accept_failed e', m) ∷ before) rest meanwhile a h =
    absurd (omega (arith, h.0))

std_loop-failed :
    (max_conns e : ℕ) (before rest : Events) (meanwhile : Acceptor → Acceptor) (a : Acceptor)
    → std_loop max_conns (before ++ (accept_failed e, meanwhile) ∷ rest) a
      ≡ std_loop max_conns (before ++ (interrupted, meanwhile) ∷ rest) a
unfolding std_loop
std_loop-failed max_conns e [] rest meanwhile a = refl
std_loop-failed max_conns e ((accepted, m) ∷ before) rest meanwhile a =
    let (d, a') = dispatch_conn max_conns (m a) in
    ap (goes_on d) (std_loop-failed max_conns e before rest meanwhile a')
std_loop-failed max_conns e ((interrupted, m) ∷ before) rest meanwhile a =
    std_loop-failed max_conns e before rest meanwhile (m a)
std_loop-failed max_conns e ((accept_failed e', m) ∷ before) rest meanwhile a =
    std_loop-failed max_conns e before rest meanwhile (m a)

-- Up to the first accept that fails the two loops do the same. That one ends the io_uring loop with its
-- error, if the loop has not ended, whatever would come later, while the other loop goes on with what
-- comes later.
pub serve_iouring_accept-failed :
    (max_conns e : ℕ) (before rest : Events) (meanwhile : Acceptor → Acceptor) (a : Acceptor)
    → All NotFailed before
    → (serve_iouring_accept max_conns (before ++ (accept_failed e, meanwhile) ∷ rest) a
        ≡ or_error e (serve_std_accept max_conns before a))
      × (serve_std_accept max_conns (before ++ (accept_failed e, meanwhile) ∷ rest) a
          ≡ serve_std_accept max_conns (before ++ (interrupted, meanwhile) ∷ rest) a)
unfolding serve_iouring_accept serve_std_accept
serve_iouring_accept-failed max_conns e before rest meanwhile a h = (
  iouring_loop-failed (max max_conns 1) e before rest meanwhile a h,
  std_loop-failed (max max_conns 1) e before rest meanwhile a,
)
