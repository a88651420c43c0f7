-- ===== src/System/Induction.antt =====
-- Induction on the steps of the system.
use cracen.Base.{◌≡◌, refl, Bool, true, List, [], ◌∷◌}
use cracen.Base.StdMap.{Key}
use cracen.Backend.{Message}
use cracen.Server.{Bimap, AddressKind, Server, Serving}
use cracen.System.{
  Settings, Peer, unstarted, constructing, managing, over, System, Event, starts, serves, reads,
  stops, start_peer, read_next, stop_peer, serve_next, step, run, peer_step,
}
use cracen.System.Steps.{
  Family, Everywhere, Closed, start_peer-Holds, stop_peer-Holds, read_next-Holds,
}

module _ {E G : Type 0} ⦃o : Key E⦄ (up : E → Bool) (srv : E) (settings : E → Settings E) where
  -- The step of a client: the server stays, and each property that clients preserve holds still.
  abbrev pub ClientStep : System E G → System E G → Type 1
  ClientStep s s' =
      (F : Family E)
      → Closed up srv settings F
      → Everywhere F s.peers s.uplink s.downlink
      → Everywhere F s'.peers s'.uplink s'.downlink

  start_peer-server :
      (ep : E) (p : Peer E) (s : System E G) → (start_peer up srv settings ep p s).server ≡ s.server
  unfolding start_peer peer_step
  start_peer-server ep unstarted s = refl
  start_peer-server ep (constructing c) s = refl
  start_peer-server ep (managing c) s = refl
  start_peer-server ep (over c) s = refl

  stop_peer-server :
      (ep : E) (p : Peer E) (s : System E G) → (stop_peer up srv settings ep p s).server ≡ s.server
  unfolding stop_peer peer_step
  stop_peer-server ep unstarted s = refl
  stop_peer-server ep (constructing c) s = refl
  stop_peer-server ep (managing c) s = refl
  stop_peer-server ep (over c) s = refl

  read_next-server :
      (ep : E) (ms : List (Message E)) (p : Peer E) (s : System E G)
      → (read_next up srv settings ep ms p s).server ≡ s.server
  unfolding read_next peer_step
  read_next-server ep [] p s = refl
  read_next-server ep (m ∷ rest) unstarted s = refl
  read_next-server ep (m ∷ rest) (constructing c) s = refl
  read_next-server ep (m ∷ rest) (managing c) s = refl
  read_next-server ep (m ∷ rest) (over c) s = refl

module _ {E G : Type 0} ⦃o : Key E⦄ (b : Bimap G) (kind : AddressKind E) (up : E → Bool)
    (all_up : (ep : E) → up ep ≡ true) (srv : E) (settings : E → Settings E) where
  -- What the steps of the clients and of the server preserve, each step preserves.
  pub step_intro :
      (Q : System E G → Type 0)
      → ((s s' : System E G) → s'.server ≡ s.server → ClientStep up srv settings s s' → Q s → Q s')
      → ((ep : E) (ms : List (Message E)) (sv : Serving (Server E G)) (s : System E G)
          → s.uplink ep ≡ ms
          → s.server ≡ sv
          → Q s
          → Q (serve_next b kind up ep ms sv s))
      → (e : Event E) (s : System E G) → Q s
      → Q (step b kind up srv settings e s)
  unfolding step
  step_intro Q client serve (starts ep) s h =
      client s _ (start_peer-server up srv settings ep (s.peers ep) s)
        (λ F closed. start_peer-Holds up srv settings all_up F closed ep (s.peers ep) s refl) h
  step_intro Q client serve (stops ep) s h =
      client s _ (stop_peer-server up srv settings ep (s.peers ep) s)
        (λ F closed. stop_peer-Holds up srv settings all_up F closed ep (s.peers ep) s refl) h
  step_intro Q client serve (reads ep) s h =
      client s _ (read_next-server up srv settings ep (s.downlink ep) (s.peers ep) s)
        (λ F closed.
          read_next-Holds up srv settings all_up F closed ep (s.downlink ep) (s.peers ep) s refl
            refl)
        h
  step_intro Q client serve (serves ep) s h = serve ep (s.uplink ep) s.server s refl refl h

  pub run_intro :
      (Q : System E G → Type 0)
      → ((e : Event E) (s : System E G) → Q s → Q (step b kind up srv settings e s))
      → (es : List (Event E)) (s : System E G) → Q s
      → Q (run b kind up srv settings es s)
  unfolding run
  run_intro Q go [] s h = h
  run_intro Q go (e ∷ es) s h = run_intro Q go es (step b kind up srv settings e s) (go e s h)
