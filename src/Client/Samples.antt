-- ===== src/Client/Samples.antt =====
-- A library for the tests of the client: its state counts its calls; request 0 is in flight, request
-- 1 has a response, and any other is refused.
use nwep_rs.Base.{ℤ, ℕ, pos, neg, suc, zero}
use nwep_rs.Error.{Result, ok, err, from_code}
use nwep_rs.Client.Api.{ClientApi, Response}
use nwep_rs.Base.{Option, none, some}

abbrev poll_code : ℕ → ℤ
poll_code zero = neg 803
poll_code (suc zero) = pos 0
poll_code (suc (suc n)) = neg 203

abbrev pub sample_client : ClientApi ℕ
sample_client = record {
  send = λ m p h b w. ((pos 0, 7), suc w);
  request_submit = λ m p h b w. ((pos 0, w), suc w);
  request_poll = λ id w. ((poll_code id, 42), w);
  request_cancel = λ id w. 100;
  tick = λ now w. (pos 0, w);
  is_alive = λ w. pos 1;
  next_timeout_ms = λ now w. pos 50;
}

abbrev pub sample_answer : ℕ → Result (Option Response)
sample_answer zero = ok none
sample_answer (suc zero) = ok (some (record { msg = 42 }))
sample_answer (suc (suc n)) = err (from_code (neg 203))
