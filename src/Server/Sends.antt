-- ===== src/Server/Sends.antt =====
-- What the loops of the handlers send, while every `communicator.sendTo` returns.
use mathlib.Core.List.{flat_map, map, map-append}
use cracen.Base.{
  ◌≡◌, refl, ap, ◌∙◌, sym, ◌==◌, true, List, [], ◌∷◌, ◌++◌, if◌then◌else◌, Bool, Bool-cases, inl,
  inr, append_assoc, append-nil, arith,
}
use cracen.Base.StdMap.{Key, StdMap}
use cracen.Outcome.{Outcome, ok, ◌>>◌, done, for_each}
use cracen.Backend.{RoleId, Message}
use cracen.Server.{
  Bimap, AddressKind, Participant, Server, send_to, execute_on_role, execute_on_range,
  execute_on_neighbor,
}

abbrev pub Envelope : Type 0 → Type 0
Envelope E = E × Message E

module _ {E G : Type 0} where
  -- The server after it has sent `out` as well.
  unfoldable pub add_sent : List (Envelope E) → Server E G → Server E G
  add_sent out s = record s { sent = s.sent ++ out }

  pub add_sent-nil : (s : Server E G) → add_sent [] s ≡ s
  unfolding add_sent
  add_sent-nil s = ap (λ l. record s { sent = l }) (append-nil s.sent)

  module _ (s : Server E G) where
    -- `body` sends `f x`, whatever has been sent before.
    abbrev pub Sends :
        {A : Type 0}
        → (A → List (Envelope E))
        → (A → Server E G → Outcome (Server E G) (Unit {0}))
        → Type 0
    Sends {A} f body =
        (x : A) (out : List (Envelope E))
        → body x (add_sent out s) ≡ ok tt (add_sent (out ++ f x) s)

    pub for_each-Sends :
        {A : Type 0} (f : A → List (Envelope E))
        (body : A → Server E G → Outcome (Server E G) (Unit {0}))
        → Sends f body
        → (xs : List A) (out : List (Envelope E))
        → for_each xs body (add_sent out s) ≡ ok tt (add_sent (out ++ flat_map f xs) s)
    unfolding for_each flat_map
    for_each-Sends f body h [] out = ap (λ l. ok tt (add_sent l s)) (sym (append-nil out))
    for_each-Sends f body h (x ∷ xs) out =
        rw (h x out, for_each)
          (for_each-Sends f body h xs (out ++ f x)
            ∙ ap (λ l. ok tt (add_sent l s)) (append_assoc out (f x) (flat_map f xs)))

-- The participants of a role, in the order of the map.
unfoldable pub of_role : {E : Type 0} → StdMap E (Participant E) → RoleId → List (Participant E)
of_role [] role_id = []
of_role ((k, p) ∷ m) role_id =
    let rest = of_role m role_id in if p.role_id == role_id then p ∷ rest else rest

module _ {E : Type 0} where
  flat_map-of_role :
      (letter : Participant E → Envelope E) (role_id : RoleId) (m : StdMap E (Participant E))
      → flat_map (λ entry. if (entry.1).role_id == role_id then letter entry.1 ∷ [] else []) m
        ≡ map letter (of_role m role_id)
  unfolding of_role flat_map
  flat_map-of_role letter role_id [] = refl
  flat_map-of_role letter role_id ((k, p) ∷ m) = ground (arith, flat_map-of_role letter role_id m)

  -- The participants whose role is one of `roles`, role by role.
  unfoldable pub of_roles : StdMap E (Participant E) → List RoleId → List (Participant E)
  of_roles m roles = flat_map (of_role m) roles

  of_roles-append :
      (m : StdMap E (Participant E)) (xs ys : List RoleId)
      → of_roles m (xs ++ ys) ≡ of_roles m xs ++ of_roles m ys
  unfolding of_roles flat_map
  of_roles-append m [] ys = refl
  of_roles-append m (x ∷ xs) ys =
      ap (◌++◌ (of_role m x)) (of_roles-append m xs ys) ∙ sym (append_assoc (of_role m x) _ _)

  flat_map-map :
      (letter : Participant E → Envelope E) (m : StdMap E (Participant E)) (roles : List RoleId)
      → flat_map (λ r. map letter (of_role m r)) roles ≡ map letter (of_roles m roles)
  unfolding of_roles flat_map
  flat_map-map letter m [] = refl
  flat_map-map letter m (r ∷ roles) = rw (flat_map-map letter m roles, map-append) refl

module _ {E G : Type 0} (b : Bimap G) (s : Server E G) where
  -- The roles that an edge joins to `r`, in either direction.
  abbrev pub adjacent : RoleId → List RoleId
  adjacent r = b.left_range r s.role_graph_connections ++ b.right_range r s.role_graph_connections

module _ {E G : Type 0} ⦃o : Key E⦄ (b : Bimap G) (kind : AddressKind E) (up : E → Bool)
    (all_up : (ep : E) → up ep ≡ true) (letter : Participant E → Envelope E) (s : Server E G) where
  -- A callable that sends one message for each participant.
  abbrev sender : Participant E → Server E G → Outcome (Server E G) (Unit {0})
  sender p = send_to b kind up (letter p).0 (letter p).1

  send_to-Sends : Sends s (λ p. letter p ∷ []) sender
  unfolding add_sent send_to
  send_to-Sends p out =
      rw (all_up (letter p).0) (ap (λ l. ok tt (record s { sent = l })) (append_assoc s.sent out _))

  guarded-Sends :
      (r : RoleId)
      → Sends s
          (λ (entry : E × Participant E).
            if (entry.1).role_id == r then letter entry.1 ∷ [] else [])
          (λ entry. if (entry.1).role_id == r then sender entry.1 else done)
  guarded-Sends r entry out = elim (Bool-cases ((entry.1).role_id == r)) [
    | inl e ↦ rw e (send_to-Sends entry.1 out)
    | inr e ↦ rw e (ap (λ l. ok tt (add_sent l s)) (sym (append-nil out)))
  ]

  execute_on_role-Sends :
      Sends s (λ r. map letter (of_role s.participants r)) (λ r. execute_on_role b kind up r sender)
  unfolding execute_on_role add_sent
  execute_on_role-Sends r out =
      for_each-Sends s _ _ (guarded-Sends r) s.participants out
      ∙ ap (λ l. ok tt (add_sent (out ++ l) s)) (flat_map-of_role letter r s.participants)

  execute_on_range-Sends :
      Sends s
        (λ roles. map letter (of_roles s.participants roles))
        (λ roles. execute_on_range b kind up roles sender)
  unfolding execute_on_range
  execute_on_range-Sends roles out =
      for_each-Sends s _ _ execute_on_role-Sends roles out
      ∙ ap (λ l. ok tt (add_sent (out ++ l) s)) (flat_map-map letter s.participants roles)

  -- `execute_on_neighbor` sends to the neighbours of the role and changes nothing else.
  pub execute_on_neighbor-Sends :
      Sends s
        (λ r. map letter (of_roles s.participants (adjacent b s r)))
        (λ r. execute_on_neighbor b kind up r sender)
  unfolding execute_on_neighbor add_sent
  execute_on_neighbor-Sends r out =
      rw (execute_on_range-Sends lefts out, ◌>>◌)
        (execute_on_range-Sends rights (out ++ map letter (of_roles s.participants lefts))
          ∙ ap (λ l. ok tt (add_sent l s))
              (joined
                ∙ ap (λ l. out ++ map letter l)
                    (sym (of_roles-append s.participants lefts rights))))
    where
      lefts : List RoleId
      lefts = b.left_range r s.role_graph_connections

      rights : List RoleId
      rights = b.right_range r s.role_graph_connections

      joined :
          (out ++ map letter (of_roles s.participants lefts))
            ++ map letter (of_roles s.participants rights)
          ≡ out ++ map letter (of_roles s.participants lefts ++ of_roles s.participants rights)
      joined = rw (append_assoc, map-append)

module _ {E G : Type 0} ⦃o : Key E⦄ (b : Bimap G) (kind : AddressKind E) (up : E → Bool)
    (all_up : (ep : E) → up ep ≡ true) where
  pub send_to_lem :
      (to : E) (m : Message E) (t : Server E G)
      → send_to b kind up to m t ≡ ok tt (record t { sent = t.sent ++ ((to, m) ∷ []) })
  unfolding send_to
  send_to_lem to m t = rw (all_up to)

  pub for_each-send_to :
      (m : Message E) (eps : List E) (s : Server E G)
      → for_each eps (λ ep. send_to b kind up ep m) s
        ≡ ok tt (record s { sent = s.sent ++ map (λ ep. (ep, m)) eps })
  unfolding for_each
  for_each-send_to m [] s = ap (λ l. ok tt (record s { sent = l })) (sym (append-nil s.sent))
  for_each-send_to m (ep ∷ eps) s =
      rw (send_to_lem ep m s, for_each)
        (for_each-send_to m eps (record s { sent = s.sent ++ ((ep, m) ∷ []) })
          ∙ ap (λ l. ok tt (record s { sent = l })) (append_assoc s.sent _ _))
