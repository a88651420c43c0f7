-- ===== src/System/Progress.antt =====
-- What the steps of a client preserve in each phase.
use cracen.Base.{
  ◌≡◌, refl, ap, sym, subst, ◌⊎◌, inl, inr, Bool, true, List, [], ◌∷◌, ◌++◌, All, All-append,
  append-nil, drop,
}
use cracen.Base.StdMap.{Key}
use cracen.Backend.{
  Edge, Message, register, role_graph_request, add_role_connection, roles_complete, announce,
  embody, disembody, server_close,
}
use cracen.Client.{Client, Receiving, create_context, handle_creation, embody_after, alive}
use cracen.Client
use cracen.System.{managed, Settings, constructing, managing, letters_to, since, log, receive}
use cracen.System.Channels.{since-append, since_self, All-letters_to}
use cracen.System.Clients.{
  receive-role_graph_request, receive-add_role_connection, receive-roles_complete, stopped_lem,
  log-receive,
}
use cracen.System.Steps.{Closed}
use cracen.System.Phases.{
  Registers, Graph, Graph-append, Graph-role_graph_messages, Plain, Requester, Stage, IsSound,
  Settled,
}

on_sides : {A B C D : Type 0} → (A → C) → (B → D) → A ⊎ B → C ⊎ D
on_sides f g (inl a) = inl (f a)
on_sides f g (inr b) = inr (g b)

module _ {E : Type 0} ⦃o : Key E⦄ (srv : E) where
  managed-IsSound : (r : Receiving (Client E) (Message E × E)) → IsSound srv (managed r)
  managed-IsSound (Client.waiting c) = tt
  managed-IsSound (Client.finished c inbox) = tt
  managed-IsSound (Client.failed e c) = tt

  pub receive-IsSound :
      (up : E → Bool) (graph : List Edge) (c : Client E) (m : Message E)
      → IsSound srv (receive up srv graph m (managing c))
  unfolding receive
  receive-IsSound up graph c m = managed-IsSound (alive ((m, srv) ∷ []) c)

  module _ (up : E → Bool) (all_up : (ep : E) → up ep ≡ true) (settings : E → Settings E) where
    pub Plain-Closed : Closed up srv settings (λ q. Plain srv)
    unfolding letters_to
    Plain-Closed = record {
      starts = λ ep u d h. (
        (refl, refl),
        All-append _ u _ (subst Registers (sym h.0) tt)
            (All-letters_to _ srv ((srv, register) ∷ []) (refl, tt)),
        h.1,
      );
      constructs = λ ep c m u d h. absurd (cc h.2);
      manages = λ ep c m u d h. absurd h;
      stops = λ ep c u d h. absurd h;
    }

    reads-Requester :
        (graph : List Edge) (c : Client E) (m : Message E) (u d : List (Message E))
        → Requester srv (constructing c) u (m ∷ d)
        → Requester srv
            (receive up srv graph m (constructing c))
            (u ++ letters_to srv (since c.sent (log (receive up srv graph m (constructing c)))))
            d
    unfolding letters_to
    reads-Requester graph c role_graph_request u d (new, inl (reg, e)) =
        rw (receive-role_graph_request up all_up srv graph c new.0, new.1, since-append)
          (
            (new.0, refl),
            inr (
              subst (All _) (sym (ap (drop 1) e)) tt,
              Graph-append u _ reg (Graph-role_graph_messages srv graph),
            ),
          )
    reads-Requester graph c (add_role_connection r q) u d (new, inr (acks, g)) =
        rw (receive-add_role_connection up all_up srv graph c new.0 r q, since_self)
          (new, inr (acks.1, subst Graph (sym (append-nil u)) g))
    reads-Requester graph c register u d (new, inl (reg, e)) = absurd (cc)
    reads-Requester graph c roles_complete u d (new, inl (reg, e)) = absurd (cc)
    reads-Requester graph c (announce x r) u d (new, inl (reg, e)) = absurd (cc)
    reads-Requester graph c (embody x r) u d (new, inl (reg, e)) = absurd (cc)
    reads-Requester graph c (disembody x) u d (new, inl (reg, e)) = absurd (cc)
    reads-Requester graph c server_close u d (new, inl (reg, e)) = absurd (cc)
    reads-Requester graph c register u d (new, inr (acks, g)) = absurd (cc acks.0)
    reads-Requester graph c role_graph_request u d (new, inr (acks, g)) = absurd (cc acks.0)
    reads-Requester graph c roles_complete u d (new, inr (acks, g)) = absurd (cc acks.0)
    reads-Requester graph c (announce x r) u d (new, inr (acks, g)) = absurd (cc acks.0)
    reads-Requester graph c (embody x r) u d (new, inr (acks, g)) = absurd (cc acks.0)
    reads-Requester graph c (disembody x) u d (new, inr (acks, g)) = absurd (cc acks.0)
    reads-Requester graph c server_close u d (new, inr (acks, g)) = absurd (cc acks.0)
    reads-Requester graph c (add_role_connection r q) u d (new, inl (reg, e)) = absurd (cc)

    Requester-Closed : Closed up srv settings (λ q. Requester srv)
    Requester-Closed = record {
      starts = λ ep u d h. absurd h;
      constructs = λ ep c m u d h. reads-Requester (settings ep).role_graph c m u d h;
      manages = λ ep c m u d h. absurd h;
      stops = λ ep c u d h. absurd h;
    }

    pub Stage-Closed : (first : E) → Closed up srv settings (Stage srv first)
    Stage-Closed first = record {
      starts = λ ep u d.
          on_sides (λ h. (h.0, Requester-Closed.starts ep u d h.1))
            (λ h. (h.0, Plain-Closed.starts ep u d h.1));
      constructs = λ ep c m u d.
          on_sides (λ h. (h.0, Requester-Closed.constructs ep c m u d h.1))
            (λ h. (h.0, Plain-Closed.constructs ep c m u d h.1));
      manages = λ ep c m u d.
          on_sides (λ h. (h.0, Requester-Closed.manages ep c m u d h.1))
            (λ h. (h.0, Plain-Closed.manages ep c m u d h.1));
      stops = λ ep c u d.
          on_sides (λ h. (h.0, Requester-Closed.stops ep c u d h.1))
            (λ h. (h.0, Plain-Closed.stops ep c u d h.1));
    }

    reads-Settled :
        (graph : List Edge) (c : Client E) (m : Message E) (u d : List (Message E))
        → Settled srv (constructing c) u (m ∷ d)
        → Settled srv
            (receive up srv graph m (constructing c))
            (u ++ letters_to srv (since c.sent (log (receive up srv graph m (constructing c)))))
            d
    unfolding receive letters_to create_context handle_creation embody_after
    reads-Settled graph c role_graph_request u d h = absurd (cc (h.2).0)
    reads-Settled graph c (add_role_connection r q) u d h =
        rw (receive-add_role_connection up all_up srv graph c (h.0).0 r q, since_self)
          (h.0, All-append _ u [] h.1 tt, (h.2).1)
    reads-Settled graph c roles_complete u d h =
        rw (receive-roles_complete up all_up srv graph c (h.0).0, since-append)
          (tt, All-append _ u _ h.1 (All-letters_to _ srv (_ ∷ []) (refl, tt)), (h.2).1)
    reads-Settled graph c register u d h = rw since_self (tt, All-append _ u [] h.1 tt, (h.2).1)
    reads-Settled graph c (announce x r) u d h =
        rw since_self (tt, All-append _ u [] h.1 tt, (h.2).1)
    reads-Settled graph c (embody x r) u d h = rw since_self (tt, All-append _ u [] h.1 tt, (h.2).1)
    reads-Settled graph c (disembody x) u d h =
        rw since_self (tt, All-append _ u [] h.1 tt, (h.2).1)
    reads-Settled graph c server_close u d h = rw since_self (tt, All-append _ u [] h.1 tt, (h.2).1)

    pub Settled-Closed : Closed up srv settings (λ q. Settled srv)
    unfolding letters_to
    Settled-Closed = record {
      starts = λ ep u d h. (
        (refl, refl),
        All-append _ u _ h.1 (All-letters_to _ srv ((srv, register) ∷ []) (refl, tt)),
        h.2,
      );
      constructs = λ ep c m u d h. reads-Settled (settings ep).role_graph c m u d h;
      manages = λ ep c m u d h.
          rw (log-receive up srv (settings ep).role_graph c m, since_self)
            (receive-IsSound up (settings ep).role_graph c m, All-append _ u [] h.1 tt, (h.2).1);
      stops = λ ep c u d h.
          rw (stopped_lem up all_up c, since-append)
            (tt, All-append _ u _ h.1 (All-letters_to _ srv (_ ∷ []) (refl, tt)), h.2);
    }
