-- ===== src/System/Pending.antt =====
-- Who registers gets out of its constructor: the answer cannot get lost.
use mathlib.Core.List.{mem-append_left, mem-append_right, mem-cons, mem-cons_self, Mem-prop}
use mathlib.Core.Logic.Or
use cracen.Base.{◌≡◌, refl, sym, ◌≢◌, ◌∨₁◌, Bool, true, List, [], ◌∷◌, ◌++◌, Mem}
use cracen.Base.StdMap.{Key}
use cracen.Backend.{
  Edge, Message, register, role_graph_request, add_role_connection, roles_complete, announce,
  embody, disembody, server_close,
}
use cracen.Server.{Server}
use cracen.Server.Answers.{Queued}
use cracen.Client.{Client, create_context, handle_creation, embody_after, alive, Receiving}
use cracen.Client
use cracen.System.{
  managed, Settings, unstarted, constructing, managing, over, letters_to, since, log, receive,
}
use cracen.System.Channels.{mem-letters_to}
use cracen.System.Clients.{
  receive-role_graph_request, receive-add_role_connection, receive-roles_complete, stopped_lem,
}
use cracen.System.Phases.{IsNew}
use cracen.System.Steps.{Family, Closed}

module _ {E G : Type 0} ⦃o : Key E⦄ (srv : E) where
  -- The Register of the client is on its way, or the client is in the queue, or RolesComplete is on
  -- its way to it.
  abbrev pub Owed : Server E G → E → List (Message E) → List (Message E) → Type 0
  Owed t q u d = Mem register u ∨₁ (Queued t q ∨₁ Mem roles_complete d)

  abbrev pub Pends : Server E G → Family E
  Pends t q unstarted u d = Unit {0}
  Pends t q (constructing c) u d = IsNew srv c × Owed t q u d
  Pends t q (managing c) u d = Unit
  Pends t q (over c) u d = Unit

  Owed-read :
      (t : Server E G) (q : E) (m : Message E) (u l d : List (Message E))
      → m ≢ roles_complete
      → Owed t q u (m ∷ d)
      → Owed t q (u ++ l) d
  Owed-read t q m u l d other = Or.imp (mem-append_left l) (
      Or.imp (λ k. k) (λ h. Or.elim Mem-prop (mem-cons.0 h) (λ e. absurd (other (sym e))) (λ k. k)))

  module _ (up : E → Bool) (all_up : (ep : E) → up ep ≡ true) (settings : E → Settings E)
      (t : Server E G) where
    reads-Pends :
        (q : E) (graph : List Edge) (c : Client E) (m : Message E) (u d : List (Message E))
        → Pends t q (constructing c) u (m ∷ d)
        → Pends t q
            (receive up srv graph m (constructing c))
            (u ++ letters_to srv (since c.sent (log (receive up srv graph m (constructing c)))))
            d
    unfolding receive create_context handle_creation embody_after
    reads-Pends q graph c role_graph_request u d h =
        rw (receive-role_graph_request up all_up srv graph c (h.0).0)
          (h.0, Owed-read t q role_graph_request u _ d (λ k. cc) h.1)
    reads-Pends q graph c (add_role_connection x y) u d h =
        rw (receive-add_role_connection up all_up srv graph c (h.0).0 x y)
          (h.0, Owed-read t q (add_role_connection x y) u _ d (λ k. cc) h.1)
    reads-Pends q graph c roles_complete u d h =
        rw (receive-roles_complete up all_up srv graph c (h.0).0) tt
    reads-Pends q graph c register u d h = tt
    reads-Pends q graph c (announce x r) u d h = tt
    reads-Pends q graph c (embody x r) u d h = tt
    reads-Pends q graph c (disembody x) u d h = tt
    reads-Pends q graph c server_close u d h = tt

    managed-Pends :
        (q : E) (r : Receiving (Client E) (Message E × E)) (u d : List (Message E))
        → Pends t q (managed r) u d
    managed-Pends q (Client.waiting c) u d = tt
    managed-Pends q (Client.finished c inbox) u d = tt
    managed-Pends q (Client.failed e c) u d = tt

    manages-Pends :
        (q : E) (graph : List Edge) (c : Client E) (m : Message E) (u d : List (Message E))
        → Pends t q (receive up srv graph m (managing c)) u d
    unfolding receive
    manages-Pends q graph c m u d = managed-Pends q (alive ((m, srv) ∷ []) c) u d

    pub Pends-Closed : Closed up srv settings (Pends t)
    Pends-Closed = record {
      starts = λ ep u d h. (
        (refl, refl),
        Or.inl
            (mem-append_right u (mem-letters_to srv register ((srv, register) ∷ []) mem-cons_self)),
      );
      constructs = λ ep c m u d h. reads-Pends ep (settings ep).role_graph c m u d h;
      manages = λ ep c m u d h. manages-Pends ep (settings ep).role_graph c m _ d;
      stops = λ ep c u d h. rw (stopped_lem up all_up c) tt;
    }
