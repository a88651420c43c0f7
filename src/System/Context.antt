-- ===== src/System/Context.antt =====
-- The context of the server and the phase of its clients; the first message of all.
use cracen.Base.{◌≡◌, refl, subst, inl, inr, Bool, true, List, [], ◌∷◌, ◌++◌}
use cracen.Base.StdMap.{Key}
use cracen.Outcome.{Ensures}
use cracen.Backend.{
  Message, register, role_graph_request, add_role_connection, roles_complete, announce, embody,
  disembody, server_close,
}
use cracen.Server.{
  Bimap, AddressKind, Server, State, context_uninitialised, context_inizialising,
  context_initialised, handle,
}
use cracen.Server.Sends.{Envelope}
use cracen.Server.Informed.{Informed}
use cracen.Server.Replies.{on_register-first}
use cracen.System.{Peer, letters_to, since, update}
use cracen.System.Channels.{update_intro, since-append, letters_to-other}
use cracen.System.Steps.{Everywhere}
use cracen.System.Phases.{registers, Plain, Stage, Settled}
use cracen.System.Building.{Plain-asked, Plain-quiet}

module _ {E G : Type 0} ⦃o : Key E⦄ (b : Bimap G) (kind : AddressKind E) (up : E → Bool)
    (all_up : (ep : E) → up ep ≡ true) (srv : E) (peers : E → Peer E) where
  -- Nobody is asked yet; one client is asked, and nobody has joined; the graph is complete.
  abbrev pub Phase : State → Server E G → (E → List (Message E)) → (E → List (Message E)) → Type 0
  Phase context_uninitialised t uplink downlink =
      (t.participants ≡ []) × Everywhere (λ q. Plain srv) peers uplink downlink
  Phase context_inizialising t uplink downlink =
      (t.participants ≡ []) × (first : E) × Everywhere (Stage srv first) peers uplink downlink
  Phase context_initialised t uplink downlink =
      Informed b t × Everywhere (λ q. Settled srv) peers uplink downlink

  module _ (uplink downlink : E → List (Message E)) (ep : E) (rest : List (Message E))
      (t : Server E G) where
    -- The phase after the server has received a message from `ep`.
    abbrev pub After : Server E G → Type 0
    After t' =
        Phase t'.state t' (update ep rest uplink)
          (λ q. downlink q ++ letters_to q (since t.sent t'.sent))

    abbrev pub downlink_with : List (Envelope E) → E → List (Message E)
    downlink_with new q = downlink q ++ letters_to q new

    module _ (h : Phase context_uninitialised t uplink downlink)
        (e : t.state ≡ context_uninitialised) where
      pub Plain-uplink :
          (m : Message E) → uplink ep ≡ m ∷ rest → Plain srv (peers ep) (m ∷ rest) (downlink ep)
      Plain-uplink m next = subst (λ l. Plain srv (peers ep) l (downlink ep)) next (h.1 ep)

      pub uninitialised-After :
          (m : Message E)
          → uplink ep ≡ m ∷ rest
          → registers m ≡ true
          → Ensures After (handle b kind up m ep t)
      unfolding handle
      uninitialised-After register next r =
          rw (on_register-first b kind up all_up ep t e, since-append)
            (
              h.0,
              ep,
              update_intro
                  (λ q u.
                    Stage srv ep q (peers q) u (downlink_with ((ep, role_graph_request) ∷ []) q))
                  ep rest uplink
                  (inl (
                    refl,
                    Plain-asked srv (peers ep) register ep rest (downlink ep)
                        (Plain-uplink register next),
                  ))
                  (λ q ne. inr (
                    ne,
                    rw (letters_to-other ep q role_graph_request ne)
                        (Plain-quiet srv (peers q) (uplink q) (downlink q) (h.1 q)),
                  )),
            )
      uninitialised-After role_graph_request next r = absurd (cc)
      uninitialised-After (add_role_connection x y) next r = absurd (cc)
      uninitialised-After roles_complete next r = absurd (cc)
      uninitialised-After (announce x y) next r = absurd (cc)
      uninitialised-After (embody x y) next r = absurd (cc)
      uninitialised-After (disembody x) next r = absurd (cc)
      uninitialised-After server_close next r = absurd (cc)
