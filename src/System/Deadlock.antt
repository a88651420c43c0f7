-- ===== src/System/Deadlock.antt =====
-- No client is left in its constructor.
use mathlib.Core.List.{not-mem-nil}
use mathlib.Core.Logic.Or
use cracen.Base.{◌≡◌, refl, subst, ◌≢◌, inl, inr, Bool, true, List, []}
use cracen.Base.StdMap.{Key}
use cracen.Server.{
  Bimap, AddressKind, Server, waiting, State, context_uninitialised, context_inizialising,
  context_initialised,
}
use cracen.Client.{Client}
use cracen.System.{Settings, Peer, unstarted, constructing, managing, over, System, Event, reached}
use cracen.System.Phases.{Requester, Stage}
use cracen.System.Invariant.{InPhase, PhaseOf, run-Invariant}
use cracen.System.Pending.{Owed, Pends}
use cracen.System.Waiting.{Pending, run-Pending}

module _ {E : Type 0} ⦃o : Key E⦄ (srv : E) where
  Requester-busy : (p : Peer E) → ¬ Requester srv p [] []
  Requester-busy (constructing c) (new, inl (reg, e)) = absurd (cc e)
  Requester-busy (constructing c) (new, inr (acks, g)) = g
  Requester-busy unstarted h = h
  Requester-busy (managing c) h = h
  Requester-busy (over c) h = h

  Stage-busy : (first : E) (p : Peer E) → ¬ Stage srv first first p [] []
  Stage-busy first p (inl (same, asked)) = Requester-busy p asked
  Stage-busy first p (inr (other, plain)) = other refl

module _ {E G : Type 0} ⦃o : Key E⦄ (b : Bimap G) (kind : AddressKind E) (up : E → Bool)
    (all_up : (ep : E) → up ep ≡ true) (srv : E) (settings : E → Settings E) where
  -- With no message on its way, the context is not in the making.
  not_inizialising :
      (x : State) (t : Server E G) (s : System E G)
      → ((q : E) → s.uplink q ≡ [])
      → ((q : E) → s.downlink q ≡ [])
      → PhaseOf b kind up all_up srv settings x t s
      → x ≢ context_inizialising
  not_inizialising context_uninitialised t s no_up no_down h e = absurd (cc e)
  not_inizialising context_inizialising t s no_up no_down (empty, first, h) e =
      Stage-busy srv first (s.peers first) (
        subst (λ d. Stage srv first first (s.peers first) [] d) (no_down first)
          (subst (λ u. Stage srv first first (s.peers first) u (s.downlink first)) (no_up first)
            (h first)))
  not_inizialising context_initialised t s no_up no_down h e = absurd (cc e)

  not-Owed : (t : Server E G) (q : E) → t.state ≢ context_inizialising → ¬ Owed srv t q [] []
  not-Owed t q other h =
      Or.elim (λ x y. absurd x) h not-mem-nil
        (λ back. Or.elim (λ x y. absurd x) back (λ k. other k.0) not-mem-nil)

  -- While every send returns and the channels lose nothing: in every run, whichever clients start,
  -- stop and read whenever, if the server waits and no message is on its way, then no client is left
  -- in its constructor.
  pub no_deadlock :
      (es : List (Event E)) (t : Server E G)
      → (reached b kind up srv settings es).server ≡ waiting t
      → ((q : E) → (reached b kind up srv settings es).uplink q ≡ [])
      → ((q : E) → (reached b kind up srv settings es).downlink q ≡ [])
      → (q : E) (c : Client E) → (reached b kind up srv settings es).peers q ≢ constructing c
  no_deadlock es t waits no_up no_down q c e =
      not-Owed t q
        (not_inizialising t.state t s no_up no_down (
          subst (λ sv. InPhase b kind up all_up srv settings sv s) waits
            (run-Invariant b kind up all_up srv settings es).0))
        (subst (λ u. Owed srv t q u []) (no_up q)
          (subst (λ d. Owed srv t q (s.uplink q) d) (no_down q)
            (subst (λ p. Pends srv t q p (s.uplink q) (s.downlink q)) e
              (subst (λ sv. Pending b kind up all_up srv settings sv s) waits
                (run-Pending b kind up all_up srv settings es) q)).1))
    where
      s : System E G
      s = reached b kind up srv settings es
