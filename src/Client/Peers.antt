-- ===== src/Client/Peers.antt =====
-- What the management thread of a client makes of Disembody, Embody and Announce.
use cracen.Base.{
  suc, ◌≡◌, refl, ap, ◌∙◌, sym, ◌≢◌, ◌==◌, true, false, List, [], ◌∷◌, ◌++◌, length, if◌then◌else◌,
  Bool-cases, inl, inr, arith, All, append-nil, append_assoc, if_true,
}
use cracen.Base.StdMap.{Key, ℕ_key, find, assign, find-assign}
use cracen.Backend.{
  RoleId, Message, embody, announce, disembody, register, role_graph_request, add_role_connection,
  roles_complete, server_close,
}
use cracen.Outcome.{ok}
use cracen.Client.{
  Client, RoleEndpointMap, endpoints, position, erase_position, erase_at, remove_endpoint,
  on_disembody, add_endpoint, handle, alive, waiting, resume,
}

module _ {E : Type 0} ⦃o : Key E⦄ where
  position_ne :
      (from endpoint : E) (xs : List E)
      → o.eq from endpoint ≡ false
      → position from endpoint xs ≡ length xs
  unfolding position
  position_ne from endpoint [] h = refl
  position_ne from endpoint (x ∷ xs) h = rw h (ap suc (position_ne from endpoint xs h))

  remove_endpoint_ne :
      (from endpoint : E) (m : RoleEndpointMap E)
      → o.eq from endpoint ≡ false
      → remove_endpoint from endpoint m ≡ m
  unfolding remove_endpoint erase_position
  remove_endpoint_ne from endpoint [] h = refl
  remove_endpoint_ne from endpoint ((r, xs) ∷ m) h =
      ground (arith, position_ne from endpoint xs h, remove_endpoint_ne from endpoint m h)

  pub eq_ne : (a b : E) → a ≢ b → o.eq a b ≡ false
  eq_ne a b h = elim (Bool-cases (o.eq a b)) [ inl e ↦ absurd (h ((o.eq_iff a b).0 e)) | inr e ↦ e ]

  -- A Disembody about another endpoint than the client's own, sent from an endpoint that is not the
  -- one in the message, changes nothing: whoever has left stays in the map.
  pub on_disembody_ignored :
      (endpoint from : E) (c : Client E)
      → endpoint ≢ c.data_endpoint
      → from ≢ endpoint
      → on_disembody endpoint from c ≡ c
  unfolding on_disembody
  on_disembody_ignored endpoint from c other far =
      rw (eq_ne endpoint c.data_endpoint other, on_disembody)
        (ap (λ m. record c { role_endpoint_map = m })
          (remove_endpoint_ne from endpoint c.role_endpoint_map (eq_ne from endpoint far)))

  abbrev pub tail : List E → List E
  tail [] = []
  tail (x ∷ xs) = xs

  erase_position_eq : (endpoint : E) (xs : List E) → erase_position endpoint endpoint xs ≡ tail xs
  unfolding erase_position position erase_at
  erase_position_eq endpoint [] = refl
  erase_position_eq endpoint (x ∷ xs) = rw ((o.eq_iff endpoint endpoint).1 refl) (ground arith)

  endpoints-remove_endpoint_eq :
      (endpoint : E) (r : RoleId) (m : RoleEndpointMap E)
      → endpoints r (remove_endpoint endpoint endpoint m) ≡ tail (endpoints r m)
  unfolding remove_endpoint find
  endpoints-remove_endpoint_eq endpoint r [] = refl
  endpoints-remove_endpoint_eq endpoint r ((q, xs) ∷ m) =
      ground (arith, erase_position_eq endpoint xs, endpoints-remove_endpoint_eq endpoint r m)

  -- A Disembody that arrives from the very endpoint in the message takes the first endpoint off
  -- the list of every role, whichever it is.
  on_disembody_first :
      (endpoint : E) (c : Client E) (r : RoleId)
      → endpoint ≢ c.data_endpoint
      → endpoints r (on_disembody endpoint endpoint c).role_endpoint_map
        ≡ tail (endpoints r c.role_endpoint_map)
  unfolding on_disembody
  on_disembody_first endpoint c r other =
      rw (eq_ne endpoint c.data_endpoint other)
        (endpoints-remove_endpoint_eq endpoint r c.role_endpoint_map)

  endpoints-assign :
      (q r : RoleId) (xs : List E) (m : RoleEndpointMap E)
      → endpoints r (assign q xs m) ≡ (if q == r then xs else endpoints r m)
  endpoints-assign q r xs m = ground (arith, find-assign q r xs m)

  -- The endpoints that a message adds to the list of a role.
  abbrev pub heard : RoleId → Message E → List E
  heard r (embody endpoint q) = if q == r then endpoint ∷ [] else []
  heard r (announce endpoint q) = if q == r then endpoint ∷ [] else []
  heard r _ = []

  abbrev pub heard_all : RoleId → List (Message E × E) → List E
  heard_all r [] = []
  heard_all r ((m, from) ∷ inbox) = heard r m ++ heard_all r inbox

  -- An Embody, an Announce, or a Disembody that `on_disembody_ignored` is about.
  abbrev pub IsNews : E → Message E × E → Type 0
  IsNews data_endpoint (embody endpoint q, from) = Unit {0}
  IsNews data_endpoint (announce endpoint q, from) = Unit {0}
  IsNews data_endpoint (disembody endpoint, from) = (endpoint ≢ data_endpoint) × (from ≢ endpoint)
  IsNews data_endpoint _ = ⊥

  pub endpoints-add_endpoint :
      (endpoint : E) (q r : RoleId) (c : Client E)
      → endpoints r (add_endpoint endpoint q c).role_endpoint_map
        ≡ endpoints r c.role_endpoint_map ++ (if q == r then endpoint ∷ [] else [])
  unfolding add_endpoint
  endpoints-add_endpoint endpoint q r c = ground (
    arith,
    endpoints-assign q r (endpoints q c.role_endpoint_map ++ (endpoint ∷ [])) c.role_endpoint_map,
    append-nil (endpoints r c.role_endpoint_map),
  )

  abbrev Mirrors : Client E → List (Message E × E) → Client E → Type 0
  Mirrors c inbox d =
      (alive inbox c ≡ waiting d)
      × ((r : RoleId)
          → endpoints r d.role_endpoint_map ≡ endpoints r c.role_endpoint_map ++ heard_all r inbox)

  -- One message more in front.
  Mirrors-cons :
      (m : Message E) (from : E) (inbox : List (Message E × E)) (c c' : Client E)
      → c.running ≡ true
      → handle m from c ≡ ok tt c'
      → ((r : RoleId)
          → endpoints r c'.role_endpoint_map ≡ endpoints r c.role_endpoint_map ++ heard r m)
      → (d : Client E) × Mirrors c' inbox d
      → (d : Client E) × Mirrors c ((m, from) ∷ inbox) d
  unfolding alive
  Mirrors-cons m from inbox c c' on h one (d, (rest, all)) = (
    d,
    (
      if_true _ _ on ∙ ap (λ x. resume x (alive inbox)) h ∙ rest,
      λ r.
          all r
          ∙ ap (λ l. l ++ heard_all r inbox) (one r)
          ∙ append_assoc (endpoints r c.role_endpoint_map) (heard r m) (heard_all r inbox),
    ),
  )

  -- A running client that gets any number of Embody and Announce messages, and Disembody messages
  -- about others that come from another endpoint than the one in the message, stays running, and
  -- the list of each role grows by exactly the endpoints that were sent for it, in their order.
  pub alive-Mirrors :
      (inbox : List (Message E × E)) (c : Client E)
      → c.running ≡ true
      → All (IsNews c.data_endpoint) inbox
      → (d : Client E) × ((alive inbox c ≡ waiting d)
          × ((r : RoleId)
              → endpoints r d.role_endpoint_map
                ≡ endpoints r c.role_endpoint_map ++ heard_all r inbox))
  unfolding alive handle add_endpoint
  alive-Mirrors [] c on news = (c, (if_true _ _ on, λ r. sym (append-nil _)))
  alive-Mirrors ((embody endpoint q, from) ∷ inbox) c on news =
      Mirrors-cons (embody endpoint q) from inbox c (add_endpoint endpoint q c) on refl
        (λ r. endpoints-add_endpoint endpoint q r c)
        (alive-Mirrors inbox (add_endpoint endpoint q c) on news.1)
  alive-Mirrors ((announce endpoint q, from) ∷ inbox) c on news =
      Mirrors-cons (announce endpoint q) from inbox c (add_endpoint endpoint q c) on refl
        (λ r. endpoints-add_endpoint endpoint q r c)
        (alive-Mirrors inbox (add_endpoint endpoint q c) on news.1)
  alive-Mirrors ((disembody endpoint, from) ∷ inbox) c on news =
      Mirrors-cons (disembody endpoint) from inbox c c on
        (ap (ok tt) (on_disembody_ignored endpoint from c (news.0).0 (news.0).1))
        (λ r. sym (append-nil _)) (alive-Mirrors inbox c on news.1)
  alive-Mirrors ((register, from) ∷ inbox) c on news = absurd news.0
  alive-Mirrors ((role_graph_request, from) ∷ inbox) c on news = absurd news.0
  alive-Mirrors ((add_role_connection r q, from) ∷ inbox) c on news = absurd news.0
  alive-Mirrors ((roles_complete, from) ∷ inbox) c on news = absurd news.0
  alive-Mirrors ((server_close, from) ∷ inbox) c on news = absurd news.0
