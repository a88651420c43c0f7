-- ===== src/System/Building.antt =====
-- What the server's answers do to the peers and their channels, from the first registration on.
use cracen.Base.{
  ◌≡◌, refl, sym, subst, inl, inr, Bool, true, false, List, [], ◌∷◌, ◌++◌, All, All-append, All-imp,
  append-nil,
}
use cracen.Base.StdMap.{Key}
use cracen.Backend.{
  RoleId, Message, register, role_graph_request, add_role_connection, roles_complete, announce,
  embody, disembody, server_close, adds_edge,
}
use cracen.Server.Replies.{asks_graph}
use cracen.System.{Peer, unstarted, constructing, managing, over, letters_to}
use cracen.System.Channels.{letters_to-one}
use cracen.System.Phases.{registers, Plain, Requester, Settled}

-- The messages by which a client builds the context.
abbrev pub builds : {E : Type 0} → Message E → Bool
builds register = true
builds (add_role_connection r q) = true
builds roles_complete = true
builds _ = false

module _ {E : Type 0} ⦃o : Key E⦄ (srv : E) where
  pub Plain-head :
      (p : Peer E) (m : Message E) (u d : List (Message E))
      → Plain srv p (m ∷ u) d
      → (registers m ≡ true) × Plain srv p u d
  Plain-head unstarted m u d h = absurd (cc h.0)
  Plain-head (managing c) m u d h = absurd h
  Plain-head (over c) m u d h = absurd h
  Plain-head (constructing c) m u d h = ((h.1).0, (h.0, (h.1).1, h.2))

  -- The first client that registers is asked for the graph.
  pub Plain-asked :
      (p : Peer E) (m : Message E) (ep : E) (u d : List (Message E))
      → Plain srv p (m ∷ u) d
      → Requester srv p u (d ++ letters_to ep ((ep, role_graph_request) ∷ []))
  Plain-asked unstarted m ep u d h = absurd (cc h.0)
  Plain-asked (managing c) m ep u d h = absurd h
  Plain-asked (over c) m ep u d h = absurd h
  Plain-asked (constructing c) m ep u d h =
      rw (letters_to-one ep role_graph_request, h.2) (h.0, inl ((h.1).1, refl))

  pub Plain-quiet :
      (p : Peer E) (u d : List (Message E)) → Plain srv p u d → Plain srv p u (d ++ [])
  Plain-quiet p u d h = subst (Plain srv p u) (sym (append-nil d)) h

  pub Plain-Settled :
      (p : Peer E) (u d l : List (Message E))
      → All (λ m. asks_graph m ≡ false) l
      → Plain srv p u d
      → Settled srv p u (d ++ l)
  Plain-Settled unstarted u d l a h = rw (h.0, h.1) (tt, tt, a)
  Plain-Settled (managing c) u d l a h = absurd h
  Plain-Settled (over c) u d l a h = absurd h
  Plain-Settled (constructing c) u d l a h = rw h.2 (h.0, All-imp _ _ u registers-adds_edge h.1, a)
    where
      registers-adds_edge : (m : Message E) → registers m ≡ true → adds_edge m ≡ false
      registers-adds_edge register e = refl
      registers-adds_edge role_graph_request e = refl
      registers-adds_edge (add_role_connection r q) e = absurd (cc)
      registers-adds_edge roles_complete e = refl
      registers-adds_edge (announce x r) e = refl
      registers-adds_edge (embody x r) e = refl
      registers-adds_edge (disembody x) e = refl
      registers-adds_edge server_close e = refl

  pub Requester-builds :
      (p : Peer E) (m : Message E) (u d : List (Message E))
      → Requester srv p (m ∷ u) d
      → builds m ≡ true
  Requester-builds (constructing c) register u d h = refl
  Requester-builds (constructing c) (add_role_connection r q) u d h = refl
  Requester-builds (constructing c) roles_complete u d h = refl
  Requester-builds (constructing c) role_graph_request u d (new, inl (reg, e)) = absurd (cc reg.0)
  Requester-builds (constructing c) role_graph_request u d (new, inr (acks, g)) = absurd g
  Requester-builds (constructing c) (announce x r) u d (new, inl (reg, e)) = absurd (cc reg.0)
  Requester-builds (constructing c) (announce x r) u d (new, inr (acks, g)) = absurd g
  Requester-builds (constructing c) (embody x r) u d (new, inl (reg, e)) = absurd (cc reg.0)
  Requester-builds (constructing c) (embody x r) u d (new, inr (acks, g)) = absurd g
  Requester-builds (constructing c) (disembody x) u d (new, inl (reg, e)) = absurd (cc reg.0)
  Requester-builds (constructing c) (disembody x) u d (new, inr (acks, g)) = absurd g
  Requester-builds (constructing c) server_close u d (new, inl (reg, e)) = absurd (cc reg.0)
  Requester-builds (constructing c) server_close u d (new, inr (acks, g)) = absurd g
  Requester-builds unstarted m u d h = absurd h
  Requester-builds (managing c) m u d h = absurd h
  Requester-builds (over c) m u d h = absurd h

  pub Requester-register :
      (p : Peer E) (u d : List (Message E))
      → Requester srv p (register ∷ u) d
      → Requester srv p u (d ++ [])
  Requester-register (constructing c) u d (new, inl (reg, e)) =
      rw (append-nil d) (new, inl (reg.1, e))
  Requester-register (constructing c) u d (new, inr (acks, g)) =
      rw (append-nil d) (new, inr (acks, g))
  Requester-register unstarted u d h = absurd h
  Requester-register (managing c) u d h = absurd h
  Requester-register (over c) u d h = absurd h

  -- An edge is acknowledged.
  pub Requester-edge :
      (p : Peer E) (r q : RoleId) (ep : E) (u d : List (Message E))
      → Requester srv p (add_role_connection r q ∷ u) d
      → Requester srv p u (d ++ letters_to ep ((ep, add_role_connection r q) ∷ []))
  Requester-edge (constructing c) r q ep u d (new, inl (reg, e)) = absurd (cc reg.0)
  Requester-edge (constructing c) r q ep u d (new, inr (acks, g)) =
      rw (letters_to-one ep (add_role_connection r q))
        (new, inr (All-append _ d _ acks (refl, tt), g))
  Requester-edge unstarted r q ep u d h = absurd h
  Requester-edge (managing c) r q ep u d h = absurd h
  Requester-edge (over c) r q ep u d h = absurd h

  -- RolesComplete is the last message.
  pub Requester-complete :
      (p : Peer E) (u d l : List (Message E))
      → All (λ m. asks_graph m ≡ false) l
      → Requester srv p (roles_complete ∷ u) d
      → Settled srv p u (d ++ l)
  Requester-complete (constructing c) u d l a (new, inl (reg, e)) = absurd (cc reg.0)
  Requester-complete (constructing c) u d l a (new, inr (acks, g)) =
      (new, subst (All _) (sym g) tt, All-append _ d l (All-imp _ _ d edge-asks_graph acks) a)
    where
      edge-asks_graph : (m : Message E) → adds_edge m ≡ true → asks_graph m ≡ false
      edge-asks_graph register e = refl
      edge-asks_graph role_graph_request e = absurd (cc)
      edge-asks_graph (add_role_connection r q) e = refl
      edge-asks_graph roles_complete e = refl
      edge-asks_graph (announce x r) e = refl
      edge-asks_graph (embody x r) e = refl
      edge-asks_graph (disembody x) e = refl
      edge-asks_graph server_close e = refl
  Requester-complete unstarted u d l a h = absurd h
  Requester-complete (managing c) u d l a h = absurd h
  Requester-complete (over c) u d l a h = absurd h
