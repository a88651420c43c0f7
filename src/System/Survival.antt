-- ===== src/System/Survival.antt =====
-- How the server can end while clients start, work and stop.
use cracen.Base.{◌≡◌, refl, sym, subst, if_true, Bool, true, List, [], ◌∷◌}
use cracen.Base.StdMap.{Key}
use cracen.Outcome.{Outcome, ok, throw}
use cracen.Backend.{Message}
use cracen.Server.{
  Bimap, AddressKind, Server, Serving, waiting, closed, failed, resume, handle, server_function,
  server_init,
}
use cracen.System.{Settings, System, Event, server_step, serve_next, start, reached}
use cracen.System.Channels.{update_intro}
use cracen.System.Steps.{Family, Everywhere}
use cracen.System.Induction.{step_intro, run_intro}
use cracen.System.Ownership.{Own, Sayings, Own-Closed}
use cracen.Outcome.{out_of_range}
use cracen.Server.Failure.{requests, Survives, handle-Survives}

module _ {E : Type 0} (settings : E → Settings E) where
  abbrev Requests : E → Message E → Type 0
  Requests q m = requests m ≡ true

  Requests-Sayings : Sayings settings Requests
  Requests-Sayings = record {
    says_register = λ q. refl;
    says_edge = λ q edge. refl;
    says_complete = λ q. refl;
    says_embody = λ q r. refl;
    says_disembody = λ q. refl;
  }

module _ {E G : Type 0} ⦃o : Key E⦄ (b : Bimap G) (kind : AddressKind E) (up : E → Bool)
    (all_up : (ep : E) → up ep ≡ true) (srv : E) (settings : E → Settings E) where
  -- The server waits for the next message, or has thrown `std::out_of_range`.
  abbrev pub Lives : Serving (Server E G) → Type 0
  Lives (waiting t) = t.running ≡ true
  Lives (closed t) = ⊥
  Lives (failed e t) = e ≡ out_of_range

  abbrev Speaking : Family E
  Speaking = Own srv settings (Requests settings)

  abbrev Surviving : System E G → Type 0
  Surviving s = Lives s.server × Everywhere Speaking s.peers s.uplink s.downlink

  resume-Lives :
      (r : Outcome (Server E G) (Unit {0}))
      → Survives r
      → Lives (resume r (server_function b kind up []))
  unfolding server_function
  resume-Lives (ok a t) h = subst Lives (sym (if_true _ _ h)) h
  resume-Lives (throw e t) h = h

  server_function-Lives :
      (m : Message E) (ep : E) (t : Server E G)
      → requests m ≡ true
      → t.running ≡ true
      → Lives (server_function b kind up ((m, ep) ∷ []) t)
  unfolding server_function
  server_function-Lives m ep t asks runs =
      subst Lives (sym (if_true _ _ runs))
        (resume-Lives (handle b kind up m ep t) (handle-Survives b kind up all_up t runs m ep asks))

  serve_next-Surviving :
      (ep : E) (ms : List (Message E)) (sv : Serving (Server E G)) (s : System E G)
      → s.uplink ep ≡ ms
      → s.server ≡ sv
      → Surviving s
      → Surviving (serve_next b kind up ep ms sv s)
  unfolding serve_next server_step
  serve_next-Surviving ep (m ∷ rest) (waiting t) s next same h =
      let (owns, sound, asks) =
        subst (λ l. Speaking ep (s.peers ep) l (s.downlink ep)) next (h.1 ep) in
      (
        server_function-Lives m ep t asks.0 (subst Lives same h.0),
        update_intro (λ q u. Speaking q (s.peers q) u (s.downlink q)) ep rest s.uplink
            (owns, sound, asks.1) (λ q ne. h.1 q),
      )
  serve_next-Surviving ep [] sv s next same h = h
  serve_next-Surviving ep (m ∷ rest) (closed t) s next same h = h
  serve_next-Surviving ep (m ∷ rest) (failed e t) s next same h = h

  start-Surviving : Surviving (start b kind up srv settings)
  unfolding start server_init
  start-Surviving = (refl, λ q. (tt, tt, tt))

  -- While every send returns and the channels lose nothing: in every run, whichever clients start,
  -- stop and read whenever, the server waits for its next message, unless `std::out_of_range` has
  -- ended it.
  pub run-Lives : (es : List (Event E)) → Lives (reached b kind up srv settings es).server
  run-Lives es =
      (run_intro b kind up all_up srv settings Surviving
        (step_intro b kind up all_up srv settings Surviving
          (λ s s' same move h. (
            subst Lives (sym same) h.0,
            move _
                (Own-Closed srv settings (Requests settings) up all_up (Requests-Sayings settings))
                h.1,
          ))
          serve_next-Surviving)
        es _ start-Surviving).0
