-- ===== src/Examples/Drop/Ranges.antt =====
-- How the sender of nwep/examples/nwdrop.rs answers a window of its file, and what the network and libnwep do
-- with the answer.
use mathlib.Core.List.{reverse}
use nwep_rs.Error.Display.{take_digits}
use nwep_rs.Ffi.{HeaderArray, BodyArg, slice_parts}
use nwep_rs.Base.{
  Option, if◌then◌else◌, ℕ, suc, pos, ◌+◌, ◌-◌, ◌≤◌, ◌<◌, min, ◌≡◌, refl, ap, true, false, none,
  some, List, [], ◌∷◌, Bytes, ascii, length, take, drop, bytes_eq, leb, arith,
}
use nwep_rs.Wire.{read, method_code, partial_content, range_not_satisfiable}
use nwep_rs.Message.Reading.{ReadApi}
use nwep_rs.Message.Reading
use nwep_rs.Client.{ClientApi}
use nwep_rs.Server.Responder.{ByteRange, ResponseApi, Ran, replied, panicked}
use nwep_rs.Server.Responder
use nwep_rs.Server.Reading.{ServerReaderApi, no_ranges, max_ranges, range, outcome}
use nwep_rs.Examples.Drop.{sender, by_range, asks_for}

-- What a handler has told libnwep to answer.
pub data Reply : Type 0 where
  whole : Bytes → Reply
  parts : Bytes → List ByteRange → Reply
  none_of : ℕ → Reply
  other : Reply

abbrev body_of : BodyArg → Bytes
body_of b = elim b.bytes [ none ↦ [] | some s ↦ s ]

-- A library that remembers it.
abbrev pub recording : ResponseApi Reply
recording = record {
  response_ok = λ body w. (pos 0, whole (body_of body));
  response_status = λ st body w. (pos 0, other);
  response_not_modified = λ etag w. (pos 0, other);
  response_partial = λ body ranges ctype w. (pos 0, parts (body_of body) ranges);
  response_range_not_satisfiable = λ total w. (pos 0, none_of total);
  response_header = λ n v w. w;
  begin_stream = λ path st hs w. (pos 0, other);
  response_blit = λ frame w. (pos 0, other);
  response_relay = λ origin w. (pos 0, other);
  response_capture = λ buf cap w. ((pos 0, record { buf = []; len = 0 }), w);
}

abbrev pub reply_of : Ran Reply → Reply
reply_of (replied s) = s.world
reply_of (panicked w) = w

-- The bytes of an inclusive range.
abbrev pub slice : ByteRange → Bytes → Bytes
slice r body = take (r.end + 1 - r.start) (drop r.start body)

-- A response that carries an answer: one range of a body, or none.
abbrev pub Shows : ReadApi → Reply → Type 0
Shows m (parts body (r ∷ [])) =
    (Reading.status m ≡ some partial_content) × (Reading.body m ≡ slice r body)
Shows m (parts body []) = Unit {0}
Shows m (parts body (r ∷ s ∷ rs)) = Unit {0}
Shows m (none_of total) = Reading.status m ≡ some range_not_satisfiable
Shows m (whole body) = Unit {0}
Shows m other = Unit {0}

-- The window from `a` to `b`, cut at the end of the file, and the one that starts at `have`.
abbrev pub cut : ℕ → ℕ → ℕ → ByteRange
cut a b total = record { start = a; end = min b (total - 1) }

abbrev pub window : ℕ → ℕ → ByteRange
window have total = cut have (have + 15) total

-- The text of the first range header in an array as it is sent.
abbrev pub ranged : HeaderArray → Option Bytes
ranged [] = none
ranged (none ∷ hs) = none
ranged (some (n, text) ∷ hs) = if bytes_eq n (ascii "range") then some text else ranged hs

-- A range text that names a window: "bytes=" and the two ends with a dash between them, each end read back from
-- its last digit.
abbrev pub Names : Bytes → ℕ → ℕ → Type 0
Names text a b =
    (front : Bytes) × (take_digits (reverse text) ≡ (b, 45 ∷ front))
    × (take_digits front ≡ (a, reverse (ascii "bytes=")))

-- The contract of libnwep between the getter and the sender, where `asked path sent` is the request as the sender
-- sees it that was sent for a path with an array of headers. Its path arrives; the window that its range header
-- names is parsed, cut at the end of the file, and is unsatisfiable behind it; and the response to the
-- read of a window of 16 bytes carries what the sender's handler answers.
pub record Carries {W V : Type 0} (api : ClientApi W) (messages : ℕ → ReadApi) (content : Bytes)
    (asked : Bytes → HeaderArray → ReadApi) (readers : Bytes → HeaderArray → ServerReaderApi V)
    : Type 0 where
  pub arrives : (path : Bytes) (sent : HeaderArray) → Reading.path (asked path sent) ≡ some path
  pub inside :
      (path : Bytes) (sent : HeaderArray) (text : Bytes) (a b : ℕ)
      → ranged sent ≡ some text
      → Names text a b
      → a ≤ b
      → a < length content
      → (rest : List ByteRange) × ((readers path sent).request_range
            (length content)
            none
            no_ranges
            max_ranges
          ≡ record { rc = pos 0; out = cut a b (length content) ∷ rest; count = 1 })
  pub outside :
      (path : Bytes) (sent : HeaderArray) (text : Bytes) (a b : ℕ)
      → ranged sent ≡ some text
      → Names text a b
      → a ≤ b
      → length content ≤ a
      → ((readers path sent).request_range (length content) none no_ranges max_ranges).rc ≡ pos 2
  pub shown :
      (path : Bytes) (sent : HeaderArray) (text : Bytes) (a : ℕ) (w : W)
      → ranged sent ≡ some text
      → Names text a (a + 15)
      → (m : ℕ) × (w' : W) × (api.send (method_code read) path sent (slice_parts []) w
          ≡ ((pos 0, m), w'))
        × Shows (messages m) (
            reply_of (
              sender recording
                (readers path sent)
                content
                (asked path sent)
                (record { rc = pos 0; world = other })))

body_of-slice_parts : (b : Bytes) → body_of (slice_parts b) ≡ b
unfolding slice_parts
body_of-slice_parts [] = refl
body_of-slice_parts (x ∷ xs) = refl

-- The sender has nothing for another path.
pub sender-elsewhere :
    {V : Type 0} (reader : ServerReaderApi V) (content : Bytes) (req : ReadApi)
    → asks_for (ascii "/blob") (Reading.path req) ≡ false
    → reply_of (sender recording reader content req (record { rc = pos 0; world = other })) ≡ other
unfolding sender Responder.not_found Responder.status
sender-elsewhere reader content req e = rw (e) refl

module _ {V : Type 0} (reader : ServerReaderApi V) (content : Bytes) (req : ReadApi)
    (arrived : asks_for (ascii "/blob") (Reading.path req) ≡ true) where
  -- Inside the file the sender answers with the window, and behind it that there is none.
  pub sender-inside :
      (have : ℕ) (rest : List ByteRange)
      → reader.request_range (length content) none no_ranges max_ranges
        ≡ record { rc = pos 0; out = window have (length content) ∷ rest; count = 1 }
      → reply_of (sender recording reader content req (record { rc = pos 0; world = other }))
        ≡ parts content (window have (length content) ∷ [])
  unfolding sender range outcome by_range Responder.partial bytes_eq
  sender-inside have rest e =
      let counted : leb 1 (suc (length rest)) ≡ true = ground arith in
      rw (arrived, e, counted)
        (ap (λ b. parts b (window have (length content) ∷ [])) (body_of-slice_parts content))

  pub sender-outside :
      (reader.request_range (length content) none no_ranges max_ranges).rc ≡ pos 2
      → reply_of (sender recording reader content req (record { rc = pos 0; world = other }))
        ≡ none_of (length content)
  unfolding sender range outcome by_range Responder.range_not_satisfiable bytes_eq
  sender-outside e = rw (arrived, outcome, e) refl
