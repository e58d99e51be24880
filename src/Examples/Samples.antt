-- ===== src/Examples/Samples.antt =====
-- Instances that the tests below share: a library that counts its calls, and a request.
use nwep_rs.Base.{ℕ, suc, pos, true, none, some, Bytes, ascii, bytes_eq, if◌then◌else◌}
use nwep_rs.Message.Reading.{ReadApi}
use nwep_rs.Server.Responder.{ResponseApi}
use nwep_rs.Server.Deferred.{RespondApi}

abbrev pub counted : ResponseApi ℕ
counted = record {
  response_ok = λ body w. (pos 0, suc w);
  response_status = λ st body w. (pos 0, suc w);
  response_not_modified = λ etag w. (pos 0, suc w);
  response_partial = λ body ranges ctype w. (pos 0, suc w);
  response_range_not_satisfiable = λ total w. (pos 0, suc w);
  response_header = λ n v w. suc w;
  begin_stream = λ path st hs w. (pos 0, suc w);
  response_blit = λ frame w. (pos 0, suc w);
  response_relay = λ origin w. (pos 0, suc w);
  response_capture = λ buf cap w. ((pos 0, record { buf = ascii ""; len = 0 }), suc w);
}

abbrev pub pushed : RespondApi ℕ
pushed = record {
  respond_header = λ n v w. (pos 0, suc w);
  respond = λ st body w. (pos 0, suc w);
  relay = λ origin w. (pos 0, suc w);
  respond_blit = λ body w. (pos 0, suc w);
  notify = λ event body w. (pos 0, suc w);
  stream_send = λ body w. (pos 0, suc w);
  stream_end = λ w. (pos 0, suc w);
}

-- A request with a method and a path, whose body has three bytes.
abbrev pub asking : Bytes → Bytes → ReadApi
asking method path = record {
  get_status = none;
  get_header = λ n. if bytes_eq n (ascii ":method") then some method else some path;
  get_body = some (ascii "abc");
  body_len = 3;
  utf8 = λ s. true;
}
