-- ===== src/System/Waiting.antt =====
-- In every run, whoever waits in its constructor is owed an answer.
use cracen.Base.{◌≡◌, sym, ap, ◌∙◌, subst, Bool, true, List, [], ◌∷◌, ◌++◌, if_intro}
use cracen.Base.StdMap.{Key}
use cracen.Outcome.{Outcome, ok, throw, Ensures}
use cracen.Backend.{Message}
use cracen.Server.{
  Bimap, AddressKind, Server, Serving, waiting, closed, failed, resume, handle, server_function,
}
use cracen.Server.Answers.{Answers, handle-Answers}
use cracen.System.{
  Settings, System, Event, update, letters_to, since, server_step, serve_next, start, run,
}
use cracen.System.Channels.{since-append, update_intro}
use cracen.System.Steps.{Everywhere}
use cracen.System.Induction.{ClientStep, step_intro, run_intro}
use cracen.System.Pending.{Pends, Pends-Closed}
use cracen.System.Queue.{Pends-served, Pends-other}

module _ {E G : Type 0} ⦃o : Key E⦄ (b : Bimap G) (kind : AddressKind E) (up : E → Bool)
    (all_up : (ep : E) → up ep ≡ true) (srv : E) (settings : E → Settings E) where
  abbrev pub Pending : Serving (Server E G) → System E G → Type 0
  Pending (waiting t) s = Everywhere (Pends srv t) s.peers s.uplink s.downlink
  Pending (closed t) s = Unit
  Pending (failed e t) s = Unit

  client-Pending :
      (s s' : System E G) (sv : Serving (Server E G))
      → ClientStep up srv settings s s'
      → Pending sv s
      → Pending sv s'
  client-Pending s s' (waiting t) move h = move _ (Pends-Closed srv up all_up settings t) h
  client-Pending s s' (closed t) move h = h
  client-Pending s s' (failed e t) move h = h

  module _ (ep : E) (m : Message E) (rest : List (Message E)) (t : Server E G) (s : System E G)
      (next : s.uplink ep ≡ m ∷ rest) (h : Pending (waiting t) s) where
    abbrev served : Serving (Server E G) → System E G
    served sv = server_step b kind up t sv (record s { uplink = update ep rest s.uplink })

    abbrev Good : Serving (Server E G) → Type 0
    Good sv = Pending sv (served sv)

    waiting-Good : (t' : Server E G) → Answers m ep t t' → Good (waiting t')
    unfolding server_step
    waiting-Good t' answers q =
        subst
          (λ l.
            Pends srv t' q (s.peers q) (update ep rest s.uplink q) (s.downlink q ++ letters_to q l))
          (sym (ap (since t.sent) answers.sent ∙ since-append t.sent answers.new))
          (update_intro
            (λ q u. Pends srv t' q (s.peers q) u (s.downlink q ++ letters_to q answers.new)) ep rest
            s.uplink
            (Pends-served srv m ep t t' (s.peers ep) rest (s.downlink ep) answers
              (subst (λ l. Pends srv t ep (s.peers ep) l (s.downlink ep)) next (h ep)))
            (λ q ne.
              Pends-other srv m ep q t t' (s.peers q) (s.uplink q) (s.downlink q) answers (h q))
            q)

    resume-Good :
        (r : Outcome (Server E G) (Unit {0}))
        → Ensures (Answers m ep t) r
        → Good (resume r (server_function b kind up []))
    unfolding server_function
    resume-Good (ok a t') answers =
        if_intro Good t'.running {x = waiting t'} {y = closed t'} (waiting-Good t' answers) tt
    resume-Good (throw e t') answers = tt

    server_function-Good : Good (server_function b kind up ((m, ep) ∷ []) t)
    unfolding server_function
    server_function-Good =
        if_intro Good t.running
          {x = resume (handle b kind up m ep t) (server_function b kind up [])} {y = closed t}
          (resume-Good (handle b kind up m ep t) (handle-Answers b kind up all_up m ep t)) tt

  serve_next-Pending :
      (ep : E) (ms : List (Message E)) (sv : Serving (Server E G)) (s : System E G)
      → s.uplink ep ≡ ms
      → s.server ≡ sv
      → Pending s.server s
      → (let s' = serve_next b kind up ep ms sv s in Pending s'.server s')
  unfolding serve_next server_step
  serve_next-Pending ep (m ∷ rest) (waiting t) s next same h =
      server_function-Good ep m rest t s next (subst (λ sv. Pending sv s) same h)
  serve_next-Pending ep [] sv s next same h = h
  serve_next-Pending ep (m ∷ rest) (closed t) s next same h = h
  serve_next-Pending ep (m ∷ rest) (failed e t) s next same h = h

  abbrev Answered : System E G → Type 0
  Answered s = Pending s.server s

  start-Answered : Answered (start b kind up srv settings)
  unfolding start
  start-Answered q = tt

  pub run-Pending :
      (es : List (Event E))
      → (let s = run b kind up srv settings es (start b kind up srv settings) in Pending s.server s)
  run-Pending es =
      run_intro b kind up all_up srv settings Answered
        (step_intro b kind up all_up srv settings Answered
          (λ s s' same move h.
            subst (λ sv. Pending sv s') (sym same) (client-Pending s s' s.server move h))
          serve_next-Pending)
        es _ start-Answered
