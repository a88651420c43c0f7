-- ===== src/System/Reserved.antt =====
-- The server's endpoint is never one of a participant, and is never said to leave.
use cracen.Base.{◌≡◌, sym, subst, ◌≢◌, Bool, true, List, [], ◌∷◌, if_intro}
use cracen.Base.StdMap.{Key, find}
use cracen.Outcome.{Outcome, ok, throw, Ensures}
use cracen.Backend.{Message}
use cracen.Server.{
  Bimap, AddressKind, Server, Serving, waiting, closed, failed, resume, handle, server_function,
  server_init,
}
use cracen.System.{Settings, System, Event, at_server, server_step, serve_next, start, run}
use cracen.System.Channels.{update_intro}
use cracen.System.Steps.{Everywhere}
use cracen.System.Induction.{ClientStep, step_intro, run_intro}
use cracen.Server.Absent.{Avoids, Absent, handle-Absent}
use cracen.Server.{normalize}
use cracen.System.Ownership.{Own, Sayings, Own-Closed}

module _ {E : Type 0} (kind : AddressKind E) (srv : E) (settings : E → Settings E) where
  -- No client has the server's endpoint, as it is or as the server would complete its address.
  abbrev pub Apart : Type 0
  Apart =
      (q : E)
      → ((settings q).data_endpoint ≢ srv) × (normalize kind (settings q).data_endpoint q ≢ srv)

  -- No letter of the client at `q` brings the server's endpoint in.
  abbrev Shuns : E → Message E → Type 0
  Shuns q m = Avoids kind srv m q

  Shuns-Sayings : Apart → Sayings settings Shuns
  Shuns-Sayings apart = record {
    says_register = λ q. tt;
    says_edge = λ q edge. tt;
    says_complete = λ q. tt;
    says_embody = λ q r. (apart q).1;
    says_disembody = λ q. (apart q).0;
  }

module _ {E G : Type 0} ⦃o : Key E⦄ (b : Bimap G) (kind : AddressKind E) (up : E → Bool)
    (all_up : (ep : E) → up ep ≡ true) (srv : E) (settings : E → Settings E)
    (apart : Apart kind srv settings) where
  abbrev Reserved : System E G → Type 0
  Reserved s =
      Absent srv (at_server s.server)
      × Everywhere (Own srv settings (Shuns kind srv settings)) s.peers s.uplink s.downlink

  client-Reserved :
      (s s' : System E G)
      → s'.server ≡ s.server
      → ClientStep up srv settings s s'
      → Reserved s
      → Reserved s'
  client-Reserved s s' same move h = (
    subst (λ sv. Absent srv (at_server sv)) (sym same) h.0,
    move _
        (Own-Closed srv settings (Shuns kind srv settings) up all_up
          (Shuns-Sayings kind srv settings apart))
        h.1,
  )

  abbrev Serves : Serving (Server E G) → Type 0
  Serves sv = Absent srv (at_server sv)

  resume-Absent :
      (r : Outcome (Server E G) (Unit {0}))
      → Ensures (Absent srv) r
      → Serves (resume r (server_function b kind up []))
  unfolding server_function
  resume-Absent (ok a t) h = if_intro Serves t.running {x = waiting t} {y = closed t} h h
  resume-Absent (throw e t) h = h

  server_function-Absent :
      (m : Message E) (ep : E) (t : Server E G)
      → Avoids kind srv m ep
      → Absent srv t
      → Serves (server_function b kind up ((m, ep) ∷ []) t)
  unfolding server_function
  server_function-Absent m ep t av h =
      if_intro Serves t.running
        {x = resume (handle b kind up m ep t) (server_function b kind up [])} {y = closed t}
        (resume-Absent (handle b kind up m ep t) (handle-Absent b kind up all_up srv m ep t av h)) h

  serve_next-Reserved :
      (ep : E) (ms : List (Message E)) (sv : Serving (Server E G)) (s : System E G)
      → s.uplink ep ≡ ms
      → s.server ≡ sv
      → Reserved s
      → Reserved (serve_next b kind up ep ms sv s)
  unfolding serve_next server_step
  serve_next-Reserved ep (m ∷ rest) (waiting t) s next same h =
      let (owns, sound, av) =
        subst (λ l. Own srv settings (Shuns kind srv settings) ep (s.peers ep) l (s.downlink ep))
          next (h.1 ep) in
      (
        server_function-Absent m ep t av.0 (subst (λ sv. Absent srv (at_server sv)) same h.0),
        update_intro
            (λ q u. Own srv settings (Shuns kind srv settings) q (s.peers q) u (s.downlink q)) ep
            rest s.uplink (owns, sound, av.1) (λ q ne. h.1 q),
      )
  serve_next-Reserved ep [] sv s next same h = h
  serve_next-Reserved ep (m ∷ rest) (closed t) s next same h = h
  serve_next-Reserved ep (m ∷ rest) (failed e t) s next same h = h

  start-Reserved : Reserved (start b kind up srv settings)
  unfolding start server_init find
  start-Reserved = ((λ k p e. absurd (cc), tt), λ q. (tt, tt, tt))

  pub run-Reserved :
      (es : List (Event E))
      → Reserved (run b kind up srv settings es (start b kind up srv settings))
  run-Reserved es =
      run_intro b kind up all_up srv settings Reserved
        (step_intro b kind up all_up srv settings Reserved client-Reserved serve_next-Reserved) es _
        start-Reserved
