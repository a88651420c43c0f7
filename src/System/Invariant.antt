-- ===== src/System/Invariant.antt =====
-- The invariant of the system: how far the context is, and what the server has told.
use mathlib.Core.List.{not-mem-nil}
use cracen.Base.{◌≡◌, refl, ap, sym, subst, ◌∙◌, Bool, true, List, [], ◌∷◌, ◌++◌, if_intro}
use cracen.Base.StdMap.{Key}
use cracen.Outcome.{Error, Outcome, ok, throw, Ensures}
use cracen.Backend.{Message}
use cracen.Server.{
  Bimap, AddressKind, Server, Serving, waiting, closed, failed, resume, State,
  context_uninitialised, context_inizialising, context_initialised, handle, server_function,
  server_init,
}
use cracen.Server.Informed.{Informed}
use cracen.Server.Life.{empty-Informed}
use cracen.Server.Replies.{Replies, Replies-nothing, handle-Replies}
use cracen.System.{
  Settings, System, Event, at_server, update, letters_to, since, server_step, serve_next, start,
  run,
}
use cracen.System.Channels.{since-append}
use cracen.System.Steps.{Everywhere}
use cracen.System.Progress.{Plain-Closed, Stage-Closed, Settled-Closed}
use cracen.System.Context.{Phase, After}
use cracen.System.Complete.{handle-After}
use cracen.System.Knowledge.{Known, Known-Closed, Known-server}
use cracen.System.Induction.{ClientStep, step_intro, run_intro}

module _ {E G : Type 0} ⦃o : Key E⦄ (b : Bimap G) (kind : AddressKind E) (up : E → Bool)
    (all_up : (ep : E) → up ep ≡ true) (srv : E) (settings : E → Settings E) where
  abbrev pub PhaseOf : State → Server E G → System E G → Type 0
  PhaseOf x t s = Phase b kind up all_up srv s.peers x t s.uplink s.downlink

  -- While the server waits, the phase of its context holds; behind that, what it has told.
  abbrev pub InPhase : Serving (Server E G) → System E G → Type 0
  InPhase (waiting t) s = PhaseOf t.state t s
  InPhase (closed t) s = Informed b t
  InPhase (failed e t) s = Informed b t

  abbrev pub Tells : Server E G → System E G → Type 0
  Tells t s = Everywhere (Known up srv t.sent) s.peers s.uplink s.downlink

  abbrev pub Invariant : System E G → Type 0
  Invariant s = InPhase s.server s × Tells (at_server s.server) s

  pub Phase-Informed : (x : State) (t : Server E G) (s : System E G) → PhaseOf x t s → Informed b t
  Phase-Informed context_uninitialised t s h = empty-Informed b kind up all_up t h.0
  Phase-Informed context_inizialising t s h = empty-Informed b kind up all_up t h.0
  Phase-Informed context_initialised t s h = h.0

  client-PhaseOf :
      (s s' : System E G) (x : State) (t : Server E G)
      → ClientStep up srv settings s s'
      → PhaseOf x t s
      → PhaseOf x t s'
  client-PhaseOf s s' context_uninitialised t move h =
      (h.0, move _ (Plain-Closed srv up all_up settings) h.1)
  client-PhaseOf s s' context_inizialising t move (empty, first, h) =
      (empty, first, move _ (Stage-Closed srv up all_up settings first) h)
  client-PhaseOf s s' context_initialised t move h =
      (h.0, move _ (Settled-Closed srv up all_up settings) h.1)

  client-InPhase :
      (s s' : System E G) (sv : Serving (Server E G))
      → ClientStep up srv settings s s'
      → InPhase sv s
      → InPhase sv s'
  client-InPhase s s' (waiting t) move h = client-PhaseOf s s' t.state t move h
  client-InPhase s s' (closed t) move h = h
  client-InPhase s s' (failed e t) move h = h

  client-Invariant :
      (s s' : System E G)
      → s'.server ≡ s.server
      → ClientStep up srv settings s s'
      → Invariant s
      → Invariant s'
  client-Invariant s s' same move h =
      subst (λ sv. InPhase sv s' × Tells (at_server sv) s') (sym same)
        (
          client-InPhase s s' s.server move h.0,
          move _ (Known-Closed up srv all_up settings (at_server s.server).sent) h.1,
        )

  -- The server has received a message from `ep`.
  module _ (ep : E) (rest : List (Message E)) (t : Server E G) (s : System E G)
      (h : PhaseOf t.state t s) (told : Tells t s) where
    abbrev served : Serving (Server E G) → System E G
    served sv = server_step b kind up t sv (record s { uplink = update ep rest s.uplink })

    abbrev Answered : Server E G → Type 0
    Answered t' = After b kind up all_up srv s.peers s.uplink s.downlink ep rest t t'

    served-Tells :
        (t' : Server E G)
        → Replies t t'
        → (q : E)
        → Known up srv t'.sent q
            (s.peers q)
            (update ep rest s.uplink q)
            (s.downlink q ++ letters_to q (since t.sent t'.sent))
    served-Tells t' replies q =
        subst
          (λ l.
            Known up srv t'.sent q (s.peers q) (update ep rest s.uplink q)
              (s.downlink q ++ letters_to q l))
          (sym (ap (since t.sent) replies.sent ∙ since-append t.sent replies.new))
          (Known-server up srv t.sent t'.sent replies.new q (s.peers q) (s.uplink q) (s.uplink q)
            (s.downlink q) replies.sent (told q))

    served-waiting :
        (t' : Server E G) → Answered t' → Replies t t' → Invariant (served (waiting t'))
    unfolding server_step
    served-waiting t' after replies = (after, served-Tells t' replies)

    Answered-Informed : (t' : Server E G) → Answered t' → Informed b t'
    unfolding server_step
    Answered-Informed t' after = Phase-Informed t'.state t' (served (waiting t')) after

    served-closed : (t' : Server E G) → Answered t' → Replies t t' → Invariant (served (closed t'))
    unfolding server_step
    served-closed t' after replies = (Answered-Informed t' after, served-Tells t' replies)

    served-failed :
        (e : Error) (t' : Server E G)
        → Answered t'
        → Replies t t'
        → Invariant (served (failed e t'))
    unfolding server_step
    served-failed e t' after replies = (Answered-Informed t' after, served-Tells t' replies)

    served-dropped : Invariant (served (closed t))
    unfolding server_step
    served-dropped = (Phase-Informed t.state t s h, served-Tells t (Replies-nothing t t refl refl))

    abbrev Fine : Serving (Server E G) → Type 0
    Fine sv = Invariant (served sv)

    resume-Invariant :
        (r : Outcome (Server E G) (Unit {0}))
        → Ensures Answered r
        → Ensures (Replies t) r
        → Fine (resume r (server_function b kind up []))
    unfolding server_function
    resume-Invariant (ok a t') after replies =
        if_intro Fine t'.running {x = waiting t'} {y = closed t'} (served-waiting t' after replies)
          (served-closed t' after replies)
    resume-Invariant (throw e t') after replies = served-failed e t' after replies

    server_function-Invariant :
        (m : Message E) → s.uplink ep ≡ m ∷ rest → Fine (server_function b kind up ((m, ep) ∷ []) t)
    unfolding server_function
    server_function-Invariant m next =
        if_intro Fine t.running
          {x = resume (handle b kind up m ep t) (server_function b kind up [])} {y = closed t}
          (resume-Invariant (handle b kind up m ep t)
            (handle-After b kind up all_up srv s.peers s.uplink s.downlink ep rest t t.state m next
              refl h)
            (handle-Replies b kind up all_up m ep t))
          served-dropped

  serve_next-Invariant :
      (ep : E) (ms : List (Message E)) (sv : Serving (Server E G)) (s : System E G)
      → s.uplink ep ≡ ms
      → s.server ≡ sv
      → Invariant s
      → Invariant (serve_next b kind up ep ms sv s)
  unfolding serve_next
  serve_next-Invariant ep (m ∷ rest) (waiting t) s next same h =
      let now = subst (λ sv. InPhase sv s × Tells (at_server sv) s) same h in
      server_function-Invariant ep rest t s now.0 now.1 m next
  serve_next-Invariant ep [] sv s next same h = h
  serve_next-Invariant ep (m ∷ rest) (closed t) s next same h = h
  serve_next-Invariant ep (m ∷ rest) (failed e t) s next same h = h

  start-Invariant : Invariant (start b kind up srv settings)
  unfolding start server_init
  start-Invariant =
      ((refl, λ q. (refl, refl)), λ q. (tt, λ k e r quiet told. absurd (not-mem-nil told)))

  pub run-Invariant :
      (es : List (Event E))
      → Invariant (run b kind up srv settings es (start b kind up srv settings))
  run-Invariant es =
      run_intro b kind up all_up srv settings Invariant
        (step_intro b kind up all_up srv settings Invariant client-Invariant serve_next-Invariant)
        es _ start-Invariant
