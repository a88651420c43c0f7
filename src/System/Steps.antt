-- ===== src/System/Steps.antt =====
-- What the steps of the clients preserve, endpoint by endpoint.
use cracen.Base.{◌≡◌, subst, Bool, true, false, List, [], ◌∷◌, ◌++◌}
use cracen.Base.StdMap.{Key}
use cracen.Backend.{Message, register}
use cracen.Client.{Client, stop}
use cracen.Client.Creation.{creating}
use cracen.System.{
  Settings, Peer, unstarted, constructing, managing, over, System, update, letters_to, since, log,
  receive, stopped, peer_step, start_peer, read_next, stop_peer,
}
use cracen.System.Channels.{update_two, update_three}
use cracen.System.Clients.{constructed_lem}

-- A property of an endpoint, its peer, and the channels to and from the server.
abbrev pub Family : Type 0 → Type 1
Family E = E → Peer E → List (Message E) → List (Message E) → Type 0

abbrev pub Everywhere :
    {E : Type 0}
    → Family E
    → (E → Peer E)
    → (E → List (Message E))
    → (E → List (Message E))
    → Type 0
Everywhere {E} F peers uplink downlink = (q : E) → F q (peers q) (uplink q) (downlink q)

module _ {E : Type 0} ⦃o : Key E⦄ (up : E → Bool) (srv : E) (settings : E → Settings E) where
  -- What a peer that gets from `before` to `after` sends to the server.
  abbrev pub request_letters : Peer E → Peer E → List (Message E)
  request_letters before after = letters_to srv (since (log before) (log after))

  -- The client that has registered.
  abbrev pub newborn : E → Client E
  newborn ep =
      creating srv (settings ep).data_endpoint (settings ep).role_id 0 false ((srv, register) ∷ [])

  -- The steps of a client preserve `F`.
  pub record Closed (F : Family E) : Type 0 where
    pub starts :
        (ep : E) (u d : List (Message E))
        → F ep unstarted u d
        → F ep
            (constructing (newborn ep))
            (u ++ request_letters unstarted (constructing (newborn ep)))
            d
    pub constructs :
        (ep : E) (c : Client E) (m : Message E) (u d : List (Message E))
        → let p = receive up srv (settings ep).role_graph m (constructing c) in
          F ep (constructing c) u (m ∷ d) → F ep p (u ++ request_letters (constructing c) p) d
    pub manages :
        (ep : E) (c : Client E) (m : Message E) (u d : List (Message E))
        → let p = receive up srv (settings ep).role_graph m (managing c) in
          F ep (managing c) u (m ∷ d) → F ep p (u ++ request_letters (managing c) p) d
    pub stops :
        (ep : E) (c : Client E) (u d : List (Message E))
        → F ep (managing c) u d
        → F ep (stopped (stop up c)) (u ++ request_letters (managing c) (stopped (stop up c))) d

  module _ (all_up : (ep : E) → up ep ≡ true) {G : Type 0} (F : Family E) (closed : Closed F) where
    abbrev Holds : System E G → Type 0
    Holds s = Everywhere F s.peers s.uplink s.downlink

    peer_step-Holds :
        (ep : E) (p q : Peer E) (s : System E G)
        → F ep q (s.uplink ep ++ request_letters p q) (s.downlink ep)
        → Holds s
        → Holds (peer_step up srv settings ep p q s)
    unfolding peer_step
    peer_step-Holds ep p q s here h =
        update_two (λ k x u. F k x u (s.downlink k)) ep q s.peers
          (s.uplink ep ++ request_letters p q) s.uplink here (λ k ne. h k)

    pub start_peer-Holds :
        (ep : E) (p : Peer E) (s : System E G)
        → s.peers ep ≡ p
        → Holds s
        → Holds (start_peer up srv settings ep p s)
    unfolding start_peer
    start_peer-Holds ep unstarted s e h =
        rw
          (constructed_lem up all_up srv (settings ep).data_endpoint (settings ep).role_id
            (settings ep).role_graph)
          (peer_step-Holds ep unstarted (constructing (newborn ep)) s
            (closed.starts ep (s.uplink ep) (s.downlink ep)
              (subst (λ x. F ep x (s.uplink ep) (s.downlink ep)) e (h ep)))
            h)
    start_peer-Holds ep (constructing c) s e h = h
    start_peer-Holds ep (managing c) s e h = h
    start_peer-Holds ep (over c) s e h = h

    pub stop_peer-Holds :
        (ep : E) (p : Peer E) (s : System E G)
        → s.peers ep ≡ p
        → Holds s
        → Holds (stop_peer up srv settings ep p s)
    unfolding stop_peer
    stop_peer-Holds ep (managing c) s e h =
        peer_step-Holds ep (managing c) (stopped (stop up c)) s
          (closed.stops ep c (s.uplink ep) (s.downlink ep)
            (subst (λ x. F ep x (s.uplink ep) (s.downlink ep)) e (h ep)))
          h
    stop_peer-Holds ep unstarted s e h = h
    stop_peer-Holds ep (constructing c) s e h = h
    stop_peer-Holds ep (over c) s e h = h

    read_step-Holds :
        (ep : E) (p q : Peer E) (rest : List (Message E)) (s : System E G)
        → F ep q (s.uplink ep ++ request_letters p q) rest
        → Holds s
        → Holds
            (peer_step up srv settings ep p q (record s { downlink = update ep rest s.downlink }))
    unfolding peer_step
    read_step-Holds ep p q rest s here h =
        update_three F ep q s.peers (s.uplink ep ++ request_letters p q) s.uplink rest s.downlink
          here (λ k ne. h k)

    pub read_next-Holds :
        (ep : E) (ms : List (Message E)) (p : Peer E) (s : System E G)
        → s.downlink ep ≡ ms
        → s.peers ep ≡ p
        → Holds s
        → Holds (read_next up srv settings ep ms p s)
    unfolding read_next
    read_next-Holds ep (m ∷ rest) (constructing c) s d e h =
        read_step-Holds ep (constructing c) _ rest s
          (closed.constructs ep c m (s.uplink ep) rest (
            subst (λ x. F ep x (s.uplink ep) (m ∷ rest)) e
              (subst (λ x. F ep (s.peers ep) (s.uplink ep) x) d (h ep))))
          h
    read_next-Holds ep (m ∷ rest) (managing c) s d e h =
        read_step-Holds ep (managing c) _ rest s
          (closed.manages ep c m (s.uplink ep) rest (
            subst (λ x. F ep x (s.uplink ep) (m ∷ rest)) e
              (subst (λ x. F ep (s.peers ep) (s.uplink ep) x) d (h ep))))
          h
    read_next-Holds ep [] p s d e h = h
    read_next-Holds ep (m ∷ rest) unstarted s d e h = h
    read_next-Holds ep (m ∷ rest) (over c) s d e h = h
