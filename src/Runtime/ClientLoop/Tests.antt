-- ===== src/Runtime/ClientLoop/Tests.antt =====
-- Instances for `run_client_loop` of nwep/src/runtime.rs.
use mathlib.Core.List.{Perm, Pairwise, mem-cons, not-mem-nil}
use mathlib.Core.Logic.Or
use mathlib.Core.HLevel.{¬_prop}
use nwep_rs.Runtime.ClientLoop.Terminating.{Loops, poll_pass-Loops}
use nwep_rs.Base.{
  length, ℕ, zero, suc, pos, ◌+◌, ◌≤◌, ◌≡◌, ◌⊎◌, refl, true, false, some, List, [], ◌∷◌, ascii,
  count, ℤ, neg, if◌then◌else◌, ◌==◌, arith,
}
use nwep_rs.Error.{err, check, network_closed, Result}
use nwep_rs.Wire.{read}
use nwep_rs.Lifecycle.{contains}
use nwep_rs.Client.{ClientApi, poll_request, tick, is_alive, Response}
use nwep_rs.Client.Samples.{sample_client}
use nwep_rs.Runtime.ClientLoop.{Command, Answer, Owner, Turn, turn, run, start, poll_pass, dispatch}
use nwep_rs.Runtime.ClientLoop.Dispatching.{received, dispatch_returns}
use nwep_rs.Runtime.ClientLoop.Conservation.{held, asked, replies, run_conserves, run_returned}
use nwep_rs.Runtime.ClientLoop.PollPass.{Independent, Distinct, in_flight, over, poll_pass-filter}

abbrev ask : ℕ → Command
ask reply = record { method = read; path = ascii "/a"; headers = []; body = []; reply = reply }

-- Two requests and then a turn on which the channel is disconnected.
abbrev two_turns : List Turn
two_turns =
    record { commands = ask 8 ∷ ask 9 ∷ []; disconnected = false; now_ms = pos 5 }
    ∷ record { commands = ask 10 ∷ []; disconnected = true; now_ms = pos 6 }
    ∷ []

run_conserves_example :
    held 9 (run sample_client (start 0) two_turns).0
      + asked 9 (run sample_client (start 0) two_turns).1
    ≡ asked 9 two_turns
run_conserves_example = run_conserves sample_client 0 two_turns 9

two_turns-end : (run sample_client (start 0) two_turns).2 ≡ false
unfolding run turn tick check is_alive
two_turns-end = refl

run_returned_example :
    ((run sample_client (start 0) two_turns).0.pending ≡ [])
    × (count 8 (replies (run sample_client (start 0) two_turns).0.answered)
          + asked 8 (run sample_client (start 0) two_turns).1
        ≡ asked 8 two_turns)
run_returned_example = run_returned sample_client 0 two_turns 8 two_turns-end

abbrev three_pending : Owner ℕ
three_pending = record {
  world = 0;
  pending =
      record { id = 1; reply = 8 }
      ∷ record { id = 0; reply = 9 }
      ∷ record { id = 2; reply = 10 }
      ∷ [];
  answered = [];
}

-- A library that retires a request once it is over: its state holds those that it has retired. Request 0 is in
-- flight, any other has a response.
abbrev retire : ℕ → List ℕ → (ℤ × ℕ) × List ℕ
retire zero gone = ((neg 803, 0), gone)
retire (suc n) gone = (if contains (suc n) gone then (neg 503, 0) else (pos 0, 42), suc n ∷ gone)

abbrev retiring : ClientApi (List ℕ)
retiring = record {
  send = λ m p h b w. ((pos 0, 7), w);
  request_submit = λ m p h b w. ((pos 0, 3), w);
  request_poll = retire;
  request_cancel = λ id w. w;
  tick = λ now w. (pos 0, w);
  is_alive = λ w. pos 1;
  next_timeout_ms = λ now w. pos 50;
}

retiring-Independent : Independent retiring
unfolding poll_request
retiring-Independent zero q w n = refl
retiring-Independent (suc p) zero w n = refl
retiring-Independent (suc p) (suc q) w n =
    let other : (suc p == suc q) ≡ false = ground (arith, n) in rw (other) refl

abbrev unsettled : Owner (List ℕ)
unsettled = record {
  world = [];
  pending =
      record { id = 1; reply = 8 }
      ∷ record { id = 0; reply = 9 }
      ∷ record { id = 2; reply = 10 }
      ∷ [];
  answered = [];
}

unsettled-Distinct : Distinct unsettled.pending
unsettled-Distinct =
    Pairwise.cons
      (λ q m.
        Or.elim ¬_prop (mem-cons.0 m) (λ e. rw e (omega arith))
          (λ m'.
            Or.elim ¬_prop (mem-cons.0 m') (λ e. rw e (omega arith)) (λ n. absurd (not-mem-nil n))))
      (Pairwise.cons
        (λ q m.
          Or.elim ¬_prop (mem-cons.0 m) (λ e. rw e (omega arith)) (λ n. absurd (not-mem-nil n)))
        (Pairwise.cons (λ q n. absurd (not-mem-nil n)) Pairwise.nil))

poll_pass-filter_example :
    (new : List Answer) × Perm
      (poll_pass retiring unsettled).pending
      (in_flight retiring [] unsettled.pending)
    × ((poll_pass retiring unsettled).answered ≡ new)
    × Perm new (over retiring [] unsettled.pending)
poll_pass-filter_example =
    poll_pass-filter retiring retiring-Independent unsettled unsettled-Distinct

poll_pass-Loops_example :
    (n : ℕ) × (n ≤ length three_pending.pending)
    × Loops sample_client n 0 three_pending (poll_pass sample_client three_pending)
poll_pass-Loops_example = poll_pass-Loops sample_client three_pending

dispatch_returns_example :
    ((asked 9 (run sample_client (start 0) two_turns).1 ≡ 0)
      × (count 9 (replies (run sample_client (start 0) two_turns).0.answered) ≡ 1)
      × ((r : Result Response) × (received 9 (run sample_client (start 0) two_turns).0.answered
            ≡ some r)
          × (dispatch true (received 9 (run sample_client (start 0) two_turns).0.answered) ≡ r)))
    ⊎ ((asked 9 (run sample_client (start 0) two_turns).1 ≡ 1)
        × (dispatch true (received 9 (run sample_client (start 0) two_turns).0.answered)
            ≡ err network_closed))
dispatch_returns_example = dispatch_returns sample_client 0 two_turns 9 two_turns-end refl
