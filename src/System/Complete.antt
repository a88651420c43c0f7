-- ===== src/System/Complete.antt =====
-- Behind the role graph, and all phases together: the messages to the server.
use cracen.Base.{
  ◌≡◌, ap, sym, subst, ◌∙◌, inl, inr, Bool, true, false, List, ◌∷◌, ◌++◌, All, All-append, All-imp,
  Bool-cases,
}
use cracen.Base.StdMap.{Key}
use cracen.Outcome.{Outcome, ok, throw, Ensures}
use cracen.Backend.{Message}
use cracen.Server.{
  Bimap, AddressKind, Server, State, context_uninitialised, context_inizialising,
  context_initialised, handle,
}
use cracen.Server.Sends.{Envelope}
use cracen.Server.Informed.{Informed, handle-Informed}
use cracen.Server.Replies.{Replies, asks_graph, handle-Replies}
use cracen.System.{Peer, letters_to, since, update}
use cracen.System.Channels.{update_intro, since-append, All-letters_to}
use cracen.System.Steps.{Everywhere}
use cracen.System.Phases.{Settled}
use cracen.System.Building.{Plain-head}
use cracen.System.Context.{Phase, After, downlink_with, uninitialised-After, Plain-uplink}
use cracen.System.Asking.{inizialising-After}

Ensures-both :
    {S A : Type 0} (P Q R : S → Type 0) (r : Outcome S A)
    → ((s : S) → P s → Q s → R s)
    → Ensures P r
    → Ensures Q r
    → Ensures R r
Ensures-both P Q R (ok a s) f p q = f s p q
Ensures-both P Q R (throw e s) f p q = f s p q

module _ {E G : Type 0} ⦃o : Key E⦄ (b : Bimap G) (kind : AddressKind E) (up : E → Bool)
    (all_up : (ep : E) → up ep ≡ true) (srv : E) (peers : E → Peer E) where
  module _ (uplink downlink : E → List (Message E)) (ep : E) (rest : List (Message E))
      (t : Server E G) where
    module _ (h : Phase b kind up all_up srv peers context_initialised t uplink downlink)
        (e : t.state ≡ context_initialised) where
      not_asks :
          (m : Message E)
          → (asks_graph m ≡ true → t.state ≡ context_uninitialised)
          → asks_graph m ≡ false
      not_asks m asks = elim (Bool-cases (asks_graph m)) [
        | inl a ↦ absurd (cc (asks a))
        | inr n ↦ n
      ]

      Settled-uplink :
          (m : Message E) → uplink ep ≡ m ∷ rest → Settled srv (peers ep) (m ∷ rest) (downlink ep)
      Settled-uplink m next = subst (λ l. Settled srv (peers ep) l (downlink ep)) next (h.1 ep)

      Settled-answered :
          (new : List (Envelope E)) (q : E) (p : Peer E) (u d : List (Message E))
          → All (λ l. asks_graph l.1 ≡ true → t.state ≡ context_uninitialised) new
          → Settled srv p u d
          → Settled srv p u (d ++ letters_to q new)
      Settled-answered new q p u d asks (sound, edges, old) = (
        sound,
        edges,
        All-append _ d _ old (
            All-letters_to _ q new (
              All-imp _ (λ (l : Envelope E). asks_graph l.1 ≡ false) new (λ l. not_asks l.1) asks)),
      )

      answered :
          (m : Message E)
          → uplink ep ≡ m ∷ rest
          → (t' : Server E G) → Informed b t'
          → Replies t t'
          → After b kind up all_up srv peers uplink downlink ep rest t t'
      answered m next t' inf replies =
          subst
            (λ x.
              Phase b kind up all_up srv peers x t' (update ep rest uplink)
                (λ q. downlink q ++ letters_to q (since t.sent t'.sent)))
            (sym (replies.stays e))
            (
              inf,
              subst
                  (λ l.
                    Everywhere (λ q. Settled srv) peers (update ep rest uplink)
                      (λ q. downlink q ++ letters_to q l))
                  (sym (ap (since t.sent) replies.sent ∙ since-append t.sent replies.new))
                  (update_intro
                    (λ q u. Settled srv (peers q) u (
                      downlink_with b kind up all_up srv peers uplink downlink ep rest t replies.new
                        q))
                    ep rest uplink
                    (Settled-answered replies.new ep (peers ep) rest (downlink ep) replies.asks
                      (let (sound, edges, old) = Settled-uplink m next in (sound, edges.1, old)))
                    (λ q ne.
                      Settled-answered replies.new q (peers q) (uplink q) (downlink q) replies.asks
                        (h.1 q))),
            )

      initialised-After :
          (m : Message E)
          → uplink ep ≡ m ∷ rest
          → Ensures
              (After b kind up all_up srv peers uplink downlink ep rest t)
              (handle b kind up m ep t)
      initialised-After m next =
          Ensures-both (Informed b) (Replies t)
            (After b kind up all_up srv peers uplink downlink ep rest t) (handle b kind up m ep t)
            (answered m next)
            (handle-Informed b kind up all_up m ep t ((Settled-uplink m next).1).0 h.0)
            (handle-Replies b kind up all_up m ep t)

    -- The phase is kept, whatever the next message of a client is.
    pub handle-After :
        (x : State) (m : Message E)
        → uplink ep ≡ m ∷ rest
        → t.state ≡ x
        → Phase b kind up all_up srv peers x t uplink downlink
        → Ensures
            (After b kind up all_up srv peers uplink downlink ep rest t)
            (handle b kind up m ep t)
    handle-After context_uninitialised m next e h =
        uninitialised-After b kind up all_up srv peers uplink downlink ep rest t h e m next
          (Plain-head srv (peers ep) m rest (downlink ep)
            (Plain-uplink b kind up all_up srv peers uplink downlink ep rest t h e m next)).0
    handle-After context_inizialising m next e (empty, first, h) =
        inizialising-After b kind up all_up srv peers uplink downlink ep rest t first empty h m next
          e
    handle-After context_initialised m next e h = initialised-After h e m next
