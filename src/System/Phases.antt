-- ===== src/System/Phases.antt =====
-- How far the peers and their channels are while the role graph is built, and behind that.
use cracen.Base.{◌≡◌, refl, ◌≢◌, ◌⊎◌, Bool, true, false, List, [], ◌∷◌, ◌++◌, All}
use cracen.Base.StdMap.{Key}
use cracen.Backend.{
  Edge, Message, register, role_graph_request, add_role_connection, roles_complete, announce,
  embody, disembody, server_close, adds_edge,
}
use cracen.Server.Replies.{asks_graph}
use cracen.Client.{Client}
use cracen.Client.Creation.{role_graph_messages}
use cracen.System.{Peer, unstarted, constructing, managing, over, letters_to}
use cracen.System.Steps.{Family}

abbrev pub registers : {E : Type 0} → Message E → Bool
registers register = true
registers _ = false

abbrev pub Registers : {E : Type 0} → List (Message E) → Type 0
Registers ms = All (λ m. registers m ≡ true) ms

-- Edges of the graph, and RolesComplete as the last message; Register may come before.
abbrev pub Graph : {E : Type 0} → List (Message E) → Type 0
Graph [] = ⊥
Graph (register ∷ ms) = Graph ms
Graph (add_role_connection r q ∷ ms) = Graph ms
Graph (roles_complete ∷ ms) = ms ≡ []
Graph (_ ∷ ms) = ⊥

pub Graph-append :
    {E : Type 0} (xs ys : List (Message E)) → Registers xs → Graph ys → Graph (xs ++ ys)
Graph-append [] ys h g = g
Graph-append (register ∷ xs) ys h g = Graph-append xs ys h.1 g
Graph-append (role_graph_request ∷ xs) ys h g = absurd (cc)
Graph-append (add_role_connection r q ∷ xs) ys h g = absurd (cc)
Graph-append (roles_complete ∷ xs) ys h g = absurd (cc)
Graph-append (announce e r ∷ xs) ys h g = absurd (cc)
Graph-append (embody e r ∷ xs) ys h g = absurd (cc)
Graph-append (disembody e ∷ xs) ys h g = absurd (cc)
Graph-append (server_close ∷ xs) ys h g = absurd (cc)

module _ {E : Type 0} ⦃o : Key E⦄ (srv : E) where
  pub Graph-role_graph_messages :
      (graph : List Edge) → Graph (letters_to srv (role_graph_messages srv graph))
  unfolding letters_to
  Graph-role_graph_messages [] = rw ((o.eq_iff srv srv).1 refl) refl
  Graph-role_graph_messages (edge ∷ graph) =
      rw ((o.eq_iff srv srv).1 refl) (Graph-role_graph_messages graph)

  -- A client in its constructor.
  abbrev pub IsNew : Client E → Type 0
  IsNew c = (c.context_ready ≡ false) × (c.server_endpoint ≡ srv)

  -- A client that has at most registered, and that nobody has answered.
  abbrev pub Plain : Peer E → List (Message E) → List (Message E) → Type 0
  Plain unstarted u d = (u ≡ []) × (d ≡ [])
  Plain (constructing c) u d = IsNew c × Registers u × (d ≡ [])
  Plain (managing c) u d = ⊥
  Plain (over c) u d = ⊥

  -- The client that is asked for the role graph, before it has got the question and behind it.
  abbrev pub Requester : Peer E → List (Message E) → List (Message E) → Type 0
  Requester (constructing c) u d =
      IsNew c
      × ((Registers u × (d ≡ role_graph_request ∷ []))
          ⊎ (All (λ m. adds_edge m ≡ true) d × Graph u))
  Requester unstarted u d = ⊥
  Requester (managing c) u d = ⊥
  Requester (over c) u d = ⊥

  abbrev pub Stage : E → Family E
  Stage first q p u d = ((first ≡ q) × Requester p u d) ⊎ ((first ≢ q) × Plain p u d)

  abbrev pub IsSound : Peer E → Type 0
  IsSound unstarted = Unit
  IsSound (constructing c) = IsNew c
  IsSound (managing c) = Unit
  IsSound (over c) = Unit

  -- Nobody is asked for the graph any more, and no more edges come.
  abbrev pub Settled : Peer E → List (Message E) → List (Message E) → Type 0
  Settled p u d = IsSound p × All (λ m. adds_edge m ≡ false) u × All (λ m. asks_graph m ≡ false) d
