-- ===== src/Router/Serve/Tests.antt =====
-- Runs of the budget and of a dispatch, and each theorem at a concrete input.
use demiurge.Base.{zero, suc, ◌+◌, ◌≡◌, ◌≤◌, refl, true, [], ◌∷◌, arith}
use demiurge.Router.Serve.Accept.{
  accepted, interrupted, accept_failed, or_error, serve_std_accept, serve_iouring_accept,
  serve_iouring_accept-failed,
}
use demiurge.Router.Serve.{Acceptor, send_at, queued_at, dispatch_conn, fetch_slot}
use demiurge.Router.Serve.Slots.{
  Slots, outside, refused, all_outside, start, grant, refuse, Reach, begin, next, refusals,
  Reach-bounded,
}
use demiurge.Router.Serve.Queues.{AllReceive, Placed, dispatch_conn-Placed}

-- Two threads on a budget of one: the first holds its slot, the second is refused and has yet to give
-- back, for which the counter is above the budget.
abbrev one_held : Slots
one_held = record { live = 1; held = 1; threads = outside ∷ outside ∷ [] }

abbrev one_refused : Slots
one_refused = record { live = 2; held = 1; threads = outside ∷ refused ∷ [] }

one_refused-Reach : Reach 1 2 one_refused
unfolding fetch_slot start all_outside
one_refused-Reach =
    next one_held one_refused
      (next (start 2) one_held begin (grant (start 2) [] (outside ∷ []) refl refl))
      (refuse one_held (outside ∷ []) [] refl refl)

Reach-bounded_example :
    (one_refused.held ≤ 1)
    × (one_refused.live ≡ one_refused.held + refusals one_refused.threads)
    × (refusals one_refused.threads ≤ 2)
Reach-bounded_example = Reach-bounded 1 2 one_refused (omega arith) one_refused-Reach

-- The first worker's queue is full.
abbrev acceptor : Acceptor
acceptor = record {
  live = 3;
  workers = record { queued = 2; connected = true } ∷ record { queued = 1; connected = true } ∷ [];
  next = 0;
}

to_the_second : (dispatch_conn 8 acceptor).0 ≡ queued_at 1
unfolding dispatch_conn
to_the_second = refl

all_receive : AllReceive acceptor.workers
unfolding send_at
all_receive zero lt = λ e. cc
all_receive (suc zero) lt = λ e. cc
all_receive (suc (suc i)) lt = absurd (omega arith)

dispatch_conn-Placed_example : Placed 8 acceptor (dispatch_conn 8 acceptor)
dispatch_conn-Placed_example =
    dispatch_conn-Placed 8 acceptor (omega arith) (omega arith) (omega arith) (omega arith)
      (omega arith) all_receive

serve_iouring_accept-failed_example :
    (serve_iouring_accept 8
        ((accepted, λ a. a) ∷ (accept_failed 103, λ a. a) ∷ (accepted, λ a. a) ∷ [])
        acceptor
      ≡ or_error 103 (serve_std_accept 8 ((accepted, λ a. a) ∷ []) acceptor))
    × (serve_std_accept 8
          ((accepted, λ a. a) ∷ (accept_failed 103, λ a. a) ∷ (accepted, λ a. a) ∷ [])
          acceptor
        ≡ serve_std_accept 8
            ((accepted, λ a. a) ∷ (interrupted, λ a. a) ∷ (accepted, λ a. a) ∷ [])
            acceptor)
serve_iouring_accept-failed_example =
    serve_iouring_accept-failed 8 103 ((accepted, λ a. a) ∷ []) ((accepted, λ a. a) ∷ []) (λ a. a)
      acceptor (tt, tt)
