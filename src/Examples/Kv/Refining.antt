-- ===== src/Examples/Kv/Refining.antt =====
-- What the service of nwep/examples/nwkv.rs promises: a map from paths to values, a reply for each request, and
-- a notice for each write.
use nwep_rs.Base.{
  ℕ, ◌≡◌, refl, ap, ◌∙◌, sym, inl, inr, Option, none, some, List, [], ◌∷◌, ◌++◌, append_assoc,
  append-nil, Bytes, ascii, bytes_eq, arith, Bool-cases, Option-cases, if◌then◌else◌, pos, map,
}
use nwep_rs.Wire.{created, no_content}
use nwep_rs.Message.Reading
use nwep_rs.Server.Responder.{ResponseApi, Slot, ok, status, not_found, returned}
use nwep_rs.Ffi.{slice_parts, cstring_or_invalid, has_nul}
use nwep_rs.Server.Deferred.{RespondApi, notify}
use nwep_rs.Examples.Kv.{
  Kv, Incoming, request_path, request_method, answer_read, handle, serve_all, push_all, turn,
}
use nwep_rs.Examples.Kv.Storage.{get, get-insert, get-remove, bytes_eq_iff}

-- What a request asks for.
pub data Act : Type 0 where
  write : Bytes → Bytes → Act
  delete read : Bytes → Act

abbrev pub act_of : Incoming → Act
act_of req =
    if bytes_eq (request_method req) (ascii "write")
    then write (request_path req) (Reading.body req.message)
    else if bytes_eq (request_method req) (ascii "delete")
    then delete (request_path req)
    else read (request_path req)

-- What the service holds, and what it replies.
abbrev pub Held : Type 0
Held = Bytes → Option Bytes

pub data Answer : Type 0 where
  written deleted missing : Answer
  value : Bytes → Answer

abbrev pub after : Act → Held → Held
after (write p v) m q = if bytes_eq p q then some v else m q
after (delete p) m q = if bytes_eq p q then none else m q
after (read p) m q = m q

abbrev pub value_or_missing : Option Bytes → Answer
value_or_missing none = missing
value_or_missing (some v) = value v

abbrev pub deleted_or_missing : Option Bytes → Answer
deleted_or_missing none = missing
deleted_or_missing (some v) = deleted

abbrev pub answer : Act → Held → Answer
answer (write p v) m = written
answer (delete p) m = deleted_or_missing (m p)
answer (read p) m = value_or_missing (m p)

abbrev pub after_all : List Act → Held → Held
after_all [] m = m
after_all (a ∷ acts) m = after_all acts (after a m)

abbrev pub answers : List Act → Held → List Answer
answers [] m = []
answers (a ∷ acts) m = answer a m ∷ answers acts (after a m)

-- The connections of the writes.
abbrev pub writer_of : Act → ℕ → List ℕ
writer_of (write p v) conn = conn ∷ []
writer_of (delete p) conn = []
writer_of (read p) conn = []

abbrev pub writers : List Incoming → List ℕ
writers [] = []
writers (req ∷ reqs) = writer_of (act_of req) req.conn_id ++ writers reqs

-- What libnwep is told: to push one notice with no body to each connection, in order.
abbrev pub pushed_each : {W : Type 0} → (ℕ → RespondApi W) → List ℕ → W → W
pushed_each pushes [] w = w
pushed_each pushes (conn ∷ conns) w =
    pushed_each pushes conns
      ((pushes conn).notify (ascii "kv.changed") (record { bytes = none; len = 0 }) w).1

push_all-pushed_each :
    {W : Type 0} (pushes : ℕ → RespondApi W) (conns : List ℕ) (w : W)
    → push_all pushes conns w ≡ pushed_each pushes conns w
unfolding push_all notify slice_parts cstring_or_invalid has_nul
push_all-pushed_each pushes [] w = refl
push_all-pushed_each pushes (conn ∷ conns) w = push_all-pushed_each pushes conns _

module _ {W : Type 0} (api : ResponseApi W) where
  abbrev pub reply : Answer → Slot W → Slot W
  reply written s = status api created [] s
  reply deleted s = status api no_content [] s
  reply missing s = not_found api s
  reply (value v) s = ok api v s

  abbrev pub reply_all : List Answer → W → W
  reply_all [] w = w
  reply_all (a ∷ as_) w = reply_all as_ (reply a (record { rc = pos 0; world = w })).world

  -- The store that is held, the notices that wait, and the reply, after one request.
  pub data Follows (m : Held) (kv : Kv) (s : Slot W) (a : Act) (conn : ℕ)
      : Kv × Slot W → Type 0 where
    follows :
        {kv' : Kv} {s' : Slot W}
        → ((q : Bytes) → get q kv'.store ≡ after a m q)
        → kv'.to_notify ≡ kv.to_notify ++ writer_of a conn
        → s' ≡ reply (answer a m) s
        → Follows m kv s a conn (kv', s')

  read-Follows :
      (p : Bytes) (conn : ℕ) (m : Held) (kv : Kv) (s : Slot W)
      → ((q : Bytes) → get q kv.store ≡ m q)
      → Follows m kv s (read p) conn (kv, answer_read api (get p kv.store) s)
  unfolding answer_read
  read-Follows p conn m kv s h = elim (Option-cases (get p kv.store)) [
    | inl e ↦
        rw (answer_read, e) (follows h (sym (append-nil kv.to_notify)) (rw (sym (h p) ∙ e) refl))
    | inr (v, e) ↦
        rw (answer_read, e) (follows h (sym (append-nil kv.to_notify)) (rw (sym (h p) ∙ e) refl))
  ]

  -- A delete of a path that has no value leaves the map.
  absent :
      (p : Bytes) (m : Held) (kv : Kv)
      → ((q : Bytes) → get q kv.store ≡ m q)
      → get p kv.store ≡ none
      → (q : Bytes) → get q kv.store ≡ (if bytes_eq p q then none else m q)
  absent p m kv h e q = elim (Bool-cases (bytes_eq p q)) [
    | inl same ↦ rw same (ap (λ r. get r kv.store) (sym ((bytes_eq_iff p q).0 same)) ∙ e)
    | inr other ↦ rw other (h q)
  ]

  handle-Follows :
      (req : Incoming) (m : Held) (kv : Kv) (s : Slot W)
      → ((q : Bytes) → get q kv.store ≡ m q)
      → Follows m kv s (act_of req) req.conn_id (handle api req kv s)
  unfolding handle
  handle-Follows req m kv s h =
      let path = request_path req in
      elim (Bool-cases (bytes_eq (request_method req) (ascii "write"))) [
        | inl e ↦
            rw (handle, e)
              (follows
                (λ q. get-insert path q (Reading.body req.message) kv.store ∙ ground (arith, h q))
                refl refl)
        | inr e ↦ elim (Bool-cases (bytes_eq (request_method req) (ascii "delete"))) [
          | inr f ↦ rw (handle, e, f) (read-Follows path req.conn_id m kv s h)
          | inl f ↦ elim (Option-cases (get path kv.store)) [
            | inl g ↦
                rw (handle, e, f, g)
                  (follows (absent path m kv h g) (sym (append-nil kv.to_notify))
                    (rw (sym (h path) ∙ g) refl))
            | inr (v, g) ↦
                rw (handle, e, f, g)
                  (follows (λ q. get-remove path q kv.store ∙ ground (arith, h q))
                    (sym (append-nil kv.to_notify)) (rw (sym (h path) ∙ g) refl))
          ]
        ]
      ]

  -- What requests leave of a service that held `m`, with the notices that wait.
  pub record Agrees (acts : List Act) (m : Held) (queue : List ℕ) (w : W) (r : Kv × W)
      : Type 0 where
    pub held : (q : Bytes) → get q r.0.store ≡ after_all acts m q
    pub queued : r.0.to_notify ≡ queue
    pub replied_in_order : r.1 ≡ reply_all (answers acts m) w

  serve_all-Agrees :
      (reqs : List Incoming) (m : Held) (kv : Kv) (w : W)
      → ((q : Bytes) → get q kv.store ≡ m q)
      → Agrees (map act_of reqs) m (kv.to_notify ++ writers reqs) w (serve_all api reqs kv w)
  unfolding serve_all returned
  serve_all-Agrees [] m kv w h = record {
    held = h;
    queued = sym (append-nil kv.to_notify);
    replied_in_order = refl;
  }
  serve_all-Agrees (req ∷ reqs) m kv w h =
      go (handle api req kv (record { rc = pos 0; world = w }))
        (handle-Follows req m kv (record { rc = pos 0; world = w }) h)
        (serve_all-Agrees reqs (after (act_of req) m))
    where
      go :
          (r : Kv × Slot W)
          → Follows m kv (record { rc = pos 0; world = w }) (act_of req) req.conn_id r
          → ((kv' : Kv) (w' : W)
              → ((q : Bytes) → get q kv'.store ≡ after (act_of req) m q)
              → Agrees
                  (map act_of reqs)
                  (after (act_of req) m)
                  (kv'.to_notify ++ writers reqs)
                  w'
                  (serve_all api reqs kv' w'))
          → Agrees
              (act_of req ∷ map act_of reqs)
              m
              (kv.to_notify ++ (writer_of (act_of req) req.conn_id ++ writers reqs))
              w
              (serve_all api reqs r.0 r.1.world)
      go _ (follows {kv' = kv'} {s' = s'} held queued said) ih =
          let rest = ih kv' s'.world held in
          record {
            held = rest.held;
            queued =
                rest.queued
                ∙ ap (◌++ writers reqs) queued
                ∙ append_assoc kv.to_notify (writer_of (act_of req) req.conn_id) (writers reqs);
            replied_in_order =
                rest.replied_in_order
                ∙ ap
                    (λ (t : Slot W).
                      reply_all (answers (map act_of reqs) (after (act_of req) m)) t.world)
                    said;
          }

-- A service that holds a map from paths to values, whatever requests arrive in a turn of its loop, and
-- wherever they come from: the map afterwards is the one that the requests make of it in their order, each
-- request is answered by what the map then has for its path, and once all are answered libnwep is told of one
-- notice `kv.changed` with no body for each write, to its connection, in their order, after those that still
-- waited; none waits any more. A delete pushes no notice.
pub turn-Agrees :
    {W : Type 0} (api : ResponseApi W) (pushes : ℕ → RespondApi W) (reqs : List Incoming) (m : Held)
    (kv : Kv) (w : W)
    → ((q : Bytes) → get q kv.store ≡ m q)
    → let r = turn api pushes reqs (kv, w) in
      ((q : Bytes) → get q r.0.store ≡ after_all (map act_of reqs) m q)
      × (r.0.to_notify ≡ [])
      × (r.1
          ≡ pushed_each pushes
              (kv.to_notify ++ writers reqs)
              (reply_all api (answers (map act_of reqs) m) w))
unfolding turn
turn-Agrees api pushes reqs m kv w h =
    let served = serve_all-Agrees api reqs m kv w h in
    (
      served.held,
      refl,
      ap (λ ns. push_all pushes ns (serve_all api reqs kv w).1) served.queued
          ∙ ap (push_all pushes (kv.to_notify ++ writers reqs)) served.replied_in_order
          ∙ push_all-pushed_each pushes (kv.to_notify ++ writers reqs) _,
    )
