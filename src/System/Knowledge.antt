-- ===== src/System/Knowledge.antt =====
-- What a client knows of what the server has told it.
use mathlib.Core.List.{mem-append, mem-append_left, mem-append_right, mem-cons}
use mathlib.Core.Logic.Or
use mathlib.Core.Logic.{∨₁_prop}
use cracen.Base.{
  ◌≡◌, sym, subst, ◌≢◌, ◌∨₁◌, Bool, true, false, List, ◌∷◌, ◌++◌, Mem, All, All-append, All-imp,
}
use cracen.Base.StdMap.{Key}
use cracen.Backend.{Edge, RoleId, Message, disembody}
use cracen.Client.{Client, create_context, handle_creation, embody_after}
use cracen.System.{Settings, Peer, constructing, managing, receive, letters_to}
use cracen.System.Clients.{stopped_lem}
use cracen.System.Channels.{All-letters_to_mem, mem-letters_to}
use cracen.System.Learning.{introduce, Learned, learns, keeps}
use cracen.System.Steps.{Closed}

module _ {E : Type 0} ⦃o : Key E⦄ (up : E → Bool) (srv : E) where
  -- All that waits in the downlink was sent. What was sent about a participant waits there or is
  -- known, unless the server has said that its own endpoint leaves.
  abbrev pub Known :
      List (E × Message E) → E → Peer E → List (Message E) → List (Message E) → Type 0
  Known sent q p u d =
      All (λ m. Mem (q, m) sent) d
      × ((k : Bool) (e : E) (r : RoleId)
          → ¬ Mem (q, disembody srv) sent
          → Mem (q, introduce k e r) sent
          → Mem (introduce k e r) d ∨₁ Learned e r p)

  closed_step :
      (sent : List (E × Message E)) (q : E) (p p' : Peer E) (m : Message E)
      (u u' d : List (Message E))
      → ((k : Bool) (e : E) (r : RoleId) → m ≡ introduce k e r → Learned e r p')
      → ((e : E) (r : RoleId) → m ≢ disembody srv → Learned e r p → Learned e r p')
      → Known sent q p u (m ∷ d)
      → Known sent q p' u' d
  closed_step sent q p p' m u u' d learn keep h = (
    (h.0).1,
    λ k e r quiet told.
        Or.elim ∨₁_prop (h.1 k e r quiet told)
          (λ here.
            Or.elim ∨₁_prop (mem-cons.0 here) (λ eq. Or.inr (learn k e r (sym eq))) (λ t. Or.inl t))
          (λ l. Or.inr (keep e r (λ eq. quiet (subst (λ x. Mem (q, x) sent) eq (h.0).0)) l)),
  )

  refuses :
      (role_graph : List Edge) (c : Client E) (k : Bool) (e : E) (r : RoleId)
      → Learned e r (receive up srv role_graph (introduce k e r) (constructing c))
  unfolding receive create_context handle_creation embody_after
  refuses role_graph c true e r = tt
  refuses role_graph c false e r = tt

  pub Known-Closed :
      (all_up : (ep : E) → up ep ≡ true) (settings : E → Settings E) (sent : List (E × Message E))
      → Closed up srv settings (Known sent)
  Known-Closed all_up settings sent = record {
    starts = λ ep u d h.
        (h.0, λ k e r quiet told. Or.imp (λ w. w) (λ l. absurd l) (h.1 k e r quiet told));
    constructs = λ ep c m u d.
        closed_step sent ep (constructing c) _ m u u d
          (λ k e r eq.
            subst (λ x. Learned e r (receive up srv (settings ep).role_graph x (constructing c)))
              (sym eq) (refuses (settings ep).role_graph c k e r))
          (λ e r far l. absurd l);
    manages = λ ep c m u d.
        closed_step sent ep (managing c) _ m u u d
          (λ k e r eq.
            subst (λ x. Learned e r (receive up srv (settings ep).role_graph x (managing c)))
              (sym eq) (learns up srv (settings ep).role_graph c k e r))
          (λ e r far l. keeps up srv (settings ep).role_graph c e r m far l);
    stops = λ ep c u d h. rw (stopped_lem up all_up c) h;
  }

  -- The server has sent more, and it has gone to the downlinks.
  pub Known-server :
      (sent sent' new : List (E × Message E)) (q : E) (p : Peer E) (u u' d : List (Message E))
      → sent' ≡ sent ++ new
      → Known sent q p u d
      → Known sent' q p u' (d ++ letters_to q new)
  Known-server sent sent' new q p u u' d grown h =
      subst (λ l. Known l q p u' (d ++ letters_to q new)) (sym grown)
        (
          All-append _ d (letters_to q new) (All-imp _ _ d (λ m. mem-append_left new) h.0)
              (All-letters_to_mem _ q new (λ m. mem-append_right sent)),
          λ k e r quiet told.
              Or.elim ∨₁_prop (mem-append.0 told)
                (λ old.
                  Or.imp (mem-append_left _) (λ l. l)
                    (h.1 k e r (λ z. quiet (mem-append_left new z)) old))
                (λ recent. Or.inl (mem-append_right d (mem-letters_to q _ new recent))),
        )
