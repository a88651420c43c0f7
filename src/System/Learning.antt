-- ===== src/System/Learning.antt =====
-- What one message makes of the endpoints that a client knows.
use mathlib.Core.List.{mem-append_left, mem-append_right, mem-cons_self}
use cracen.Base.{
  ◌≡◌, refl, ap, ◌∙◌, sym, subst, ◌≢◌, Bool, Bool-cases, inl, inr, true, false, List, [], Mem,
  if_intro, if_true, ==_iff,
}
use cracen.Base.StdMap.{Key}
use cracen.Outcome.{ok}
use cracen.Backend.{
  Edge, RoleId, Message, register, role_graph_request, add_role_connection, roles_complete,
  announce, embody, disembody, server_close,
}
use cracen.Client.{
  Client, Receiving, waiting, finished, endpoints, handle, alive, resume, on_disembody,
  add_endpoint,
}
use cracen.Client.Peers.{on_disembody_ignored, endpoints-add_endpoint}
use cracen.System.{Peer, unstarted, constructing, managing, over, managed, receive}

-- The two messages by which the server tells of an endpoint on a role.
abbrev pub introduce : {E : Type 0} → Bool → E → RoleId → Message E
introduce true = announce
introduce false = embody

-- The peer has the endpoint in the list of the role, or does not run any more.
abbrev pub Learned : {E : Type 0} → E → RoleId → Peer E → Type 0
Learned d r unstarted = ⊥
Learned d r (constructing c) = ⊥
Learned d r (managing c) = Mem d (endpoints r c.role_endpoint_map)
Learned d r (over c) = Unit {0}

module _ {E : Type 0} ⦃o : Key E⦄ (up : E → Bool) (srv : E) where
  module _ (role_graph : List Edge) (c : Client E) where
    abbrev next : Message E → Peer E
    next m = receive up srv role_graph m (managing c)

    next-stopped : (e : E) (r : RoleId) (m : Message E) → c.running ≡ false → Learned e r (next m)
    unfolding receive alive
    next-stopped e r m off = rw off tt

    -- The handler returns with a client that has the endpoint, running or not.
    next_lem :
        (e : E) (r : RoleId) (m : Message E) (d : Client E)
        → c.running ≡ true
        → handle m srv c ≡ ok tt d
        → Learned e r (managing d)
        → Learned e r (next m)
    unfolding receive alive
    next_lem e r m d on h got =
        subst (λ x. Learned e r (managed x))
          (sym (if_true _ _ on ∙ ap (λ x. resume x (alive [])) h))
          (if_intro (λ (x : Receiving (Client E) (Message E × E)). Learned e r (managed x))
            d.running {x = waiting d} {y = finished d []} got tt)

    next-add_endpoint :
        (e : E) (r : RoleId) (x : E) (q : RoleId)
        → c.running ≡ true
        → Mem e (endpoints r (add_endpoint x q c).role_endpoint_map)
        → (k : Bool) → Learned e r (next (introduce k x q))
    unfolding handle
    next-add_endpoint e r x q on h true = next_lem e r (announce x q) (add_endpoint x q c) on refl h
    next-add_endpoint e r x q on h false = next_lem e r (embody x q) (add_endpoint x q c) on refl h

    mem-add_endpoint :
        (e x : E) (r q : RoleId)
        → Mem e (endpoints r c.role_endpoint_map)
        → Mem e (endpoints r (add_endpoint x q c).role_endpoint_map)
    mem-add_endpoint e x r q h =
        subst (Mem e) (sym (endpoints-add_endpoint x q r c)) (mem-append_left _ h)

    mem-add_endpoint_self :
        (e : E) (r : RoleId) → Mem e (endpoints r (add_endpoint e r c).role_endpoint_map)
    mem-add_endpoint_self e r = subst (Mem e) (sym (endpoints-add_endpoint e r r c)) (
        mem-append_right (endpoints r c.role_endpoint_map)
          (subst (Mem e) (sym (if_true _ _ ((==_iff r r).1 refl))) mem-cons_self))

    pub learns : (k : Bool) (e : E) (r : RoleId) → Learned e r (next (introduce k e r))
    learns k e r = elim (Bool-cases c.running) [
      | inl on ↦ next-add_endpoint e r e r on (mem-add_endpoint_self e r) k
      | inr off ↦ next-stopped e r (introduce k e r) off
    ]

    keeps-disembody :
        (e x : E) (r : RoleId)
        → x ≢ srv
        → c.running ≡ true
        → Mem e (endpoints r c.role_endpoint_map)
        → Learned e r (next (disembody x))
    unfolding receive alive handle on_disembody
    keeps-disembody e x r far on h = elim (Bool-cases (o.eq x c.data_endpoint)) [
      | inl own ↦ rw on (rw own tt)
      | inr other ↦
          next_lem e r (disembody x) c on
            (ap (ok tt) (
              on_disembody_ignored x srv c (λ k. cc ((o.eq_iff x c.data_endpoint).1 k))
                (λ k. far (sym k))))
            h
    ]

    keeps_on :
        (e : E) (r : RoleId) (m : Message E)
        → m ≢ disembody srv
        → c.running ≡ true
        → Mem e (endpoints r c.role_endpoint_map)
        → Learned e r (next m)
    unfolding receive alive handle
    keeps_on e r (disembody x) far on h = keeps-disembody e x r (λ k. far (ap disembody k)) on h
    keeps_on e r (announce x q) far on h =
        next-add_endpoint e r x q on (mem-add_endpoint e x r q h) true
    keeps_on e r (embody x q) far on h =
        next-add_endpoint e r x q on (mem-add_endpoint e x r q h) false
    keeps_on e r register far on h = rw on tt
    keeps_on e r role_graph_request far on h = rw on tt
    keeps_on e r (add_role_connection x y) far on h = rw on tt
    keeps_on e r roles_complete far on h = rw on tt
    keeps_on e r server_close far on h = rw on tt

    pub keeps :
        (e : E) (r : RoleId) (m : Message E)
        → m ≢ disembody srv
        → Mem e (endpoints r c.role_endpoint_map)
        → Learned e r (next m)
    keeps e r m far h = elim (Bool-cases c.running) [
      | inl on ↦ keeps_on e r m far on h
      | inr off ↦ next-stopped e r m off
    ]
