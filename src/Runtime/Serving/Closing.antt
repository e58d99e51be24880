-- ===== src/Runtime/Serving/Closing.antt =====
-- What becomes of the DHT of the owner thread of `ServerBuilder::serve` in nwep/src/runtime.rs.
use mathlib.Core.Path.{subst}
use nwep_rs.Base.{
  ℕ, suc, ◌+◌, ◌-◌, ◌≡◌, ◌∙◌, refl, ap, inl, inr, Bool, true, false, Option, none, some, List, [],
  ◌∷◌, arith, Option-cases,
}
use nwep_rs.Error.{Error, Result, ok, err, check, Result-cases}
use nwep_rs.Ffi.{◌>>=◌}
use nwep_rs.Lifecycle.{Event}
use nwep_rs.Dht
use nwep_rs.Dht.{DhtApi, DhtBuilder, attach, join, with_bootstraps, with_initial_seq}
use nwep_rs.Server.Build.{
  ServerBuilder, Server, ListenApi, build, handler_set, install_handler, listened, finish_build,
  parked, managed_dht, take_managed_dht,
}
use nwep_rs.Runtime.Serving.{
  Info, NodeApi, Started, ready_sent, report, attached, with_server, serve_thread, after_loop,
  dht_dropped, joined, attach_managed_dht, node_info,
}

-- The contract of libnwep for its DHTs, of which `dhts` is how many are open: attaching opens one unless it fails,
-- closing closes one, and no other call of the thread's start does either.
pub record CountsDhts {W : Type 0} (listen : ListenApi W) (dht : DhtApi W) (node : NodeApi W)
    (dhts : W → ℕ) : Type 0 where
  pub listens : (reuse : Bool) (i a : ℕ) (w : W) → dhts (listen.listen reuse i a w).1 ≡ dhts w
  pub parks : (n : ℕ) (w : W) → dhts (listen.set_max_parked n w) ≡ dhts w
  pub sets_handler : (w : W) → dhts (listen.set_handler w).1 ≡ dhts w
  pub names_node : (w : W) → dhts (node.local_nodeid w).1 ≡ dhts w
  pub attaches :
      (contacts : List ℕ) (seq : ℕ) (w : W)
      → check (dht.dht_attach contacts seq w).0 ≡ ok tt
      → dhts (dht.dht_attach contacts seq w).1 ≡ suc (dhts w)
  pub fails :
      (contacts : List ℕ) (seq : ℕ) (w : W) (e : Error)
      → check (dht.dht_attach contacts seq w).0 ≡ err e
      → dhts (dht.dht_attach contacts seq w).1 ≡ dhts w
  pub bootstraps : (secs : ℕ) (w : W) → dhts (dht.dht_bootstrap secs w).1 ≡ dhts w
  pub closes : (w : W) → dhts (dht.dht_close w) ≡ dhts w - 1

-- Whether a builder has a managed DHT, and the number of DHTs that are open for it.
abbrev pub has_contacts : List ℕ → Bool
has_contacts [] = false
has_contacts (c ∷ cs) = true

abbrev pub open_dhts : Bool → ℕ
open_dhts true = 1
open_dhts false = 0

module _ {W : Type 0} (listen : ListenApi W) (dht : DhtApi W) (node : NodeApi W)
    (dhts : W → ℕ) where
  -- The thread has a server, and the DHT if there is to be one, which its end closes whatever the loop has done
  -- that leaves it open; or it has given up, and no DHT of its own is open.
  pub data Closes (has_dht : Bool) (n : ℕ) (t : Started W) : Type 0 where
    goes_on :
        {s : Server}
        → t.server ≡ some s
        → dhts t.world ≡ n + open_dhts has_dht
        → ((v : W) → dhts v ≡ dhts t.world → dhts (after_loop listen dht node has_dht s v).0 ≡ n)
        → Closes has_dht n t
    given_up : t.server ≡ none → dhts t.world ≡ n → Closes has_dht n t

  -- An attempt to attach a DHT: one more is open exactly where it works.
  abbrev Counted : ℕ → Result (Unit {0}) × W → Type 0
  Counted n (ok u, w) = dhts w ≡ suc n
  Counted n (err e, w) = dhts w ≡ n

  module _ (c : CountsDhts listen dht node dhts) where
    dropped_dhts :
        (has_dht : Bool) (n : ℕ) (v : W)
        → dhts v ≡ n + open_dhts has_dht
        → dhts (dht_dropped listen dht node has_dht v) ≡ n
    unfolding dht_dropped Dht.drop
    dropped_dhts false n v h = h ∙ omega arith
    dropped_dhts true n v h = c.closes v ∙ omega (arith, h)

    ready_sent-Closes :
        (has_dht : Bool) (n : ℕ) (alive : Bool) (r : Result Info) (s : Server) (w : W)
        (es : List Event)
        → dhts w ≡ n + open_dhts has_dht
        → Closes has_dht n (ready_sent alive r s w (dht_dropped listen dht node has_dht w) es)
    unfolding ready_sent after_loop
    ready_sent-Closes has_dht n alive (err e) s w es h = given_up refl (dropped_dhts has_dht n w h)
    ready_sent-Closes has_dht n true (ok info) s w es h =
        goes_on refl h (λ v q. dropped_dhts has_dht n v (q ∙ h))
    ready_sent-Closes has_dht n false (ok info) s w es h =
        given_up refl (dropped_dhts has_dht n w h)

    node_info_world : (w : W) → (node_info listen dht node w).1 ≡ (node.local_nodeid w).1
    unfolding node_info
    node_info_world w = elim (Result-cases (check (node.local_nodeid w).0.0)) [
      | inl (u, e) ↦ ground (arith, e)
      | inr (x, e) ↦ ground (arith, e)
    ]

    report-Closes :
        (has_dht : Bool) (n : ℕ) (alive : Bool) (s : Server) (w : W) (es : List Event)
        → dhts w ≡ n + open_dhts has_dht
        → Closes has_dht n (report listen dht node alive has_dht s w es)
    unfolding report
    report-Closes has_dht n alive s w es h =
        ready_sent-Closes has_dht n alive _ s (node_info listen dht node w).1 es
          (ap dhts (node_info_world w) ∙ c.names_node w ∙ h)

    joined-Counted :
        (n : ℕ) (r : Result (Unit {0}) × W)
        → dhts r.1 ≡ suc n
        → Counted n (joined listen dht node r)
    unfolding joined Dht.drop
    joined-Counted n (ok u, w) h = h
    joined-Counted n (err e, w) h = c.closes w ∙ omega (arith, h)

    attach_managed_dht-Counted :
        (contact : ℕ) (contacts : List ℕ) (seq secs : ℕ) (w : W)
        → Counted (dhts w) (attach_managed_dht listen dht node (contact ∷ contacts) seq secs w)
    unfolding attach_managed_dht attach join with_bootstraps with_initial_seq Dht.builder
    attach_managed_dht-Counted contact contacts seq secs w =
        elim (Result-cases (check (dht.dht_attach (contact ∷ contacts) seq w).0)) [
          | inl (u, e) ↦
              rw (attach_managed_dht, ◌>>=◌, e)
                (joined-Counted (dhts w) (join dht secs _)
                  (c.bootstraps secs _ ∙ c.attaches (contact ∷ contacts) seq w e))
          | inr (x, e) ↦ rw (attach_managed_dht, ◌>>=◌, e) (c.fails (contact ∷ contacts) seq w x e)
        ]

    attached-Closes :
        (n : ℕ) (alive : Bool) (s : Server) (r : Result (Unit {0}) × W) (es : List Event)
        → Counted n r
        → Closes true n (attached listen dht node alive s r es)
    unfolding attached
    attached-Closes n alive s (ok u, w) es h = report-Closes true n alive s w es (h ∙ omega arith)
    attached-Closes n alive s (err e, w) es h = given_up refl h

    handler_set_world : (r : Result (Unit {0})) (w : W) → (handler_set r w).1 ≡ w
    unfolding handler_set
    handler_set_world (ok u) w = refl
    handler_set_world (err e) w = refl

    install_handler_dhts : (o : Option ℕ) (w : W) → dhts (install_handler listen o w).1 ≡ dhts w
    unfolding install_handler
    install_handler_dhts none w = refl
    install_handler_dhts (some f) w = ap dhts (handler_set_world _ _) ∙ c.sets_handler w

    parked_dhts : (o : Option ℕ) (w : W) → dhts (parked listen o w) ≡ dhts w
    unfolding parked
    parked_dhts none w = refl
    parked_dhts (some n) w = c.parks n w

    listened_dhts :
        (b : ServerBuilder) (r : Result (Unit {0})) (w : W)
        → dhts (listened listen b (r, w)).1 ≡ dhts w
    unfolding listened finish_build
    listened_dhts b (ok u) w = install_handler_dhts b.handler _ ∙ parked_dhts b.max_parked w
    listened_dhts b (err e) w = refl

    build_dhts : (b : ServerBuilder) (w : W) → dhts (build listen b w).1 ≡ dhts w
    unfolding build
    build_dhts b w = elim (Option-cases b.identity) [
      | inl e ↦ rw (build, e) refl
      | inr (i, e) ↦ elim (Option-cases b.bind) [
        | inl f ↦ rw (build, e, f) refl
        | inr (a, f) ↦ rw (build, e, f) (listened_dhts _ _ _ ∙ c.listens b.reuse_port i a w)
      ]
    ]

    with_server-Closes :
        (cfg : Option (List ℕ × Option ℕ × ℕ)) (alive : Bool) (secs n : ℕ)
        (r : Result Server × W × List Event)
        → dhts r.1 ≡ n
        → (contact : ℕ) × (contacts : List ℕ) × (ann : Option ℕ) × (seq : ℕ) × (cfg
            ≡ some (contact ∷ contacts, ann, seq))
        → Closes true n (with_server listen dht node cfg alive secs r)
    unfolding with_server
    with_server-Closes _ alive secs n (err e, w, es) h k = given_up refl h
    with_server-Closes _ alive secs n (ok s, w, es) h (contact, contacts, ann, seq, q) = rw q (
        attached-Closes n alive s
          (attach_managed_dht listen dht node (contact ∷ contacts) seq secs w) es
          (subst
            (λ m. Counted m (attach_managed_dht listen dht node (contact ∷ contacts) seq secs w)) h
            (attach_managed_dht-Counted contact contacts seq secs w)))

    without-Closes :
        (alive : Bool) (secs n : ℕ) (r : Result Server × W × List Event)
        → dhts r.1 ≡ n
        → Closes false n (with_server listen dht node none alive secs r)
    unfolding with_server
    without-Closes alive secs n (err e, w, es) h = given_up refl h
    without-Closes alive secs n (ok s, w, es) h =
        report-Closes false n alive s w es (h ∙ omega arith)

    with_contacts-Closes :
        (contacts : List ℕ) (alive : Bool) (secs : ℕ) (b : ServerBuilder) (w : W)
        → let (cfg, b') = managed_dht contacts b in
          Closes
            (has_contacts contacts)
            (dhts w)
            (with_server listen dht node cfg alive secs (build listen b' w))
    unfolding managed_dht
    with_contacts-Closes [] alive secs b w =
        without-Closes alive secs (dhts w) (build listen b w) (build_dhts b w)
    with_contacts-Closes (contact ∷ contacts) alive secs b w =
        let b' : ServerBuilder = record b { dht_bootstraps = []; dht_announce = none } in
        with_server-Closes (some (contact ∷ contacts, b.dht_announce, b.dht_initial_seq)) alive secs
          (dhts w) (build listen b' w) (build_dhts b' w)
          (contact, contacts, b.dht_announce, b.dht_initial_seq, refl)

    -- Where libnwep counts its DHTs by its contract, whatever it answers and whenever the caller goes away: if the
    -- thread of `serve` goes on to its loop, it has opened one DHT more where the builder has contacts and
    -- none where it has not, and from any later state with as many open, its end closes that one. If it gives
    -- up, as many are open as before, also where the DHT was attached and did not join.
    pub serve_thread-Closes :
        (alive : Bool) (secs : ℕ) (b : ServerBuilder) (w : W)
        → Closes
            (has_contacts b.dht_bootstraps)
            (dhts w)
            (serve_thread listen dht node alive secs b w)
    unfolding serve_thread take_managed_dht
    serve_thread-Closes alive secs b w = with_contacts-Closes b.dht_bootstraps alive secs b w
