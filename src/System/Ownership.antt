-- ===== src/System/Ownership.antt =====
-- A client speaks of no endpoint but its own.
use cracen.Base.{◌≡◌, refl, sym, subst, Bool, true, List, [], ◌∷◌, ◌++◌, map, All, All-append}
use cracen.Base.StdMap.{Key}
use cracen.Backend.{
  Edge, edge_message, RoleId, Message, register, role_graph_request, add_role_connection,
  roles_complete, announce, embody, disembody, server_close,
}
use cracen.Server.Replies.{All-map}
use cracen.Client.{Client, create_context, handle_creation, embody_after}
use cracen.Client.Creation.{role_graph_messages}
use cracen.System.{Settings, constructing, managing, letters_to, since, log, receive}
use cracen.System.Channels.{since-append, since_self, All-letters_to}
use cracen.System.Clients.{
  receive-role_graph_request, receive-add_role_connection, receive-roles_complete, stopped_lem,
  log-receive, Owns, receive-Owns,
}
use cracen.System.Phases.{IsSound}
use cracen.System.Progress.{receive-IsSound}
use cracen.System.Steps.{Family, Closed}

-- What a client says to the server: the messages of its constructor and of `stop`, with its own data
-- endpoint.
pub record Sayings {E : Type 0} (settings : E → Settings E) (P : E → Message E → Type 0)
    : Type 0 where
  pub says_register : (q : E) → P q register
  pub says_edge : (q : E) (edge : Edge) → P q (edge_message edge)
  pub says_complete : (q : E) → P q roles_complete
  pub says_embody : (q : E) (r : RoleId) → P q (embody (settings q).data_endpoint r)
  pub says_disembody : (q : E) → P q (disembody (settings q).data_endpoint)

module _ {E : Type 0} ⦃o : Key E⦄ (srv : E) (settings : E → Settings E)
    (P : E → Message E → Type 0) where
  -- The peer has the data endpoint of its settings, and its letters are such sayings.
  abbrev pub Own : Family E
  Own q p u d = Owns (settings q).data_endpoint p × IsSound srv p × All (P q) u

  module _ (up : E → Bool) (all_up : (ep : E) → up ep ≡ true) (says : Sayings settings P) where
    All-role_graph_messages :
        (q to : E) (graph : List Edge)
        → All (λ (l : E × Message E). P q l.1) (role_graph_messages to graph)
    All-role_graph_messages q to graph =
        All-append _ (map (λ edge. (to, edge_message edge)) graph) _
          (All-map _ (λ edge. (to, edge_message edge)) graph (says.says_edge q))
          (says.says_complete q, tt)

    reads-Own :
        (q : E) (graph : List Edge) (c : Client E) (m : Message E) (u d : List (Message E))
        → Own q (constructing c) u (m ∷ d)
        → Own q
            (receive up srv graph m (constructing c))
            (u ++ letters_to srv (since c.sent (log (receive up srv graph m (constructing c)))))
            d
    unfolding receive letters_to create_context handle_creation embody_after
    reads-Own q graph c role_graph_request u d (own, new, av) =
        rw (receive-role_graph_request up all_up srv graph c new.0, since-append)
          (
            own,
            new,
            All-append _ u _ av
                (All-letters_to _ srv _ (All-role_graph_messages q c.server_endpoint graph)),
          )
    reads-Own q graph c (add_role_connection x y) u d (own, new, av) =
        rw (receive-add_role_connection up all_up srv graph c new.0 x y, since_self)
          (own, new, All-append _ u [] av tt)
    reads-Own q graph c roles_complete u d (own, new, av) =
        rw (receive-roles_complete up all_up srv graph c new.0, since-append)
          (
            own,
            tt,
            All-append _ u _ av (
                All-letters_to _ srv (_ ∷ []) (
                  subst (λ e. P q (embody e c.role_id)) (sym own) (says.says_embody q c.role_id),
                  tt,
                )),
          )
    reads-Own q graph c register u d (own, new, av) =
        rw since_self (own, tt, All-append _ u [] av tt)
    reads-Own q graph c (announce x r) u d (own, new, av) =
        rw since_self (own, tt, All-append _ u [] av tt)
    reads-Own q graph c (embody x r) u d (own, new, av) =
        rw since_self (own, tt, All-append _ u [] av tt)
    reads-Own q graph c (disembody x) u d (own, new, av) =
        rw since_self (own, tt, All-append _ u [] av tt)
    reads-Own q graph c server_close u d (own, new, av) =
        rw since_self (own, tt, All-append _ u [] av tt)

    pub Own-Closed : Closed up srv settings Own
    unfolding letters_to
    Own-Closed = record {
      starts = λ ep u d h. (
        refl,
        (refl, refl),
        All-append _ u _ h.2
            (All-letters_to _ srv ((srv, register) ∷ []) (says.says_register ep, tt)),
      );
      constructs = λ ep c m u d h. reads-Own ep (settings ep).role_graph c m u d h;
      manages = λ ep c m u d h.
          rw (log-receive up srv (settings ep).role_graph c m, since_self)
            (
              subst (λ e. Owns e (receive up srv (settings ep).role_graph m (managing c))) h.0
                  (receive-Owns up srv (settings ep).role_graph c m),
              receive-IsSound srv up (settings ep).role_graph c m,
              All-append _ u [] h.2 tt,
            );
      stops = λ ep c u d h.
          rw (stopped_lem up all_up c, since-append)
            (
              h.0,
              tt,
              All-append _ u _ h.2 (
                  All-letters_to _ srv (_ ∷ [])
                    (subst (λ e. P ep (disembody e)) (sym h.0) (says.says_disembody ep), tt)),
            );
    }
