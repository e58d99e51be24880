-- ===== src/Message/Tests.antt =====
-- Instances for the iterator of nwep/src/message.rs and for the readers of a message.
use nwep_rs.Base.{pos, ◌-◌, ◌≡◌, true, some, List, Bytes, ascii, length, arith}
use nwep_rs.Message.{MessageApi, new, collect, size_hint}
use nwep_rs.Message.WireOrder.{ReadsFrom, advanced, collect_lem}

abbrev three_headers : MessageApi
three_headers = record {
  header_count = 3;
  header_at = λ i. record { rc = pos 0; name = some (ascii "name"); value = some (ascii "v") };
  utf8 = λ s. true;
}

collect_lem_example :
    (xs : List (Bytes × Bytes)) × (collect 4 three_headers
        (advanced 1 three_headers (new three_headers))
      ≡ some xs)
    × ReadsFrom three_headers 1 (3 - 1) xs
    × (size_hint (advanced 1 three_headers (new three_headers)) ≡ length xs)
collect_lem_example = collect_lem three_headers 1 (omega arith)
