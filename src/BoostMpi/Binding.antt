-- ===== src/BoostMpi/Binding.antt =====
-- Sockets that are bound without a tag do not get the endpoint of one another.
use mathlib.Core.Path.{ap₂}
use cracen.Base.{
  ℕ, ◌==◌, ==_iff, ◌≡◌, ap, ◌∙◌, sym, ◌≢◌, Bool, true, false, ◌&&◌, List, [], ◌∷◌, Option, none,
  some, arith, inl, inr, Bool-cases,
}
use cracen.BoostMpi.{Endpoint, same, count, block, release, next, Socket, freed, bind, bind_to}

both_true : (a b : Bool) → (a && b) ≡ true → (a ≡ true) × (b ≡ true)
both_true a b h = ground arith

eq_of_same : (a b : Endpoint) → same a b ≡ true → a ≡ b
eq_of_same (r, t) (r', t') h =
    let (e, f) = both_true (r == r') (t == t') h in
    ap₂ (λ x y. (x, y)) ((==_iff r r').0 e) ((==_iff t t').0 f)

count-block :
    (ep q : Endpoint) (blocked : List Endpoint)
    → count q blocked ≡ true
    → count q (block ep blocked) ≡ true
unfolding count block
count-block ep q blocked h = ground arith

count-block_self : (ep : Endpoint) (blocked : List Endpoint) → count ep (block ep blocked) ≡ true
unfolding count block
count-block_self ep blocked = ground (arith, ==_iff ep.0 ep.0, ==_iff ep.1 ep.1)

-- An endpoint that is not `ep` is not lost with an entry that is.
ne_of : (ep x q : Endpoint) → q ≢ ep → same ep x ≡ true → same q x ≡ false
ne_of ep x q ne h = elim (Bool-cases (same q x)) [
  | inl e ↦ absurd (ne (eq_of_same q x e ∙ sym (eq_of_same ep x h)))
  | inr e ↦ e
]

count-release :
    (ep q : Endpoint) (blocked : List Endpoint)
    → q ≢ ep
    → count q blocked ≡ true
    → count q (release ep blocked) ≡ true
unfolding count release
count-release ep q [] ne h = h
count-release ep q (x ∷ blocked) ne h =
    ground (arith, count-release ep q blocked ne, ne_of ep x q ne)

next-free :
    (rank : ℕ) (rands : List ℕ) (blocked : List Endpoint) (ep : Endpoint)
    → next rank rands blocked ≡ some ep
    → (count ep blocked ≡ false) × (ep.0 ≡ rank)
unfolding next
next-free rank [] blocked ep h = absurd (cc)
next-free rank (r ∷ rands) blocked ep h = ground (arith, next-free rank rands blocked ep)

-- The endpoints that others than `s` have blocked.
abbrev pub Foreign : Socket → List Endpoint → Endpoint → Type 0
Foreign s blocked q = (count q blocked ≡ true) × (q ≢ s.local)

freed-Foreign :
    (s : Socket) (blocked : List Endpoint) (q : Endpoint)
    → Foreign s blocked q
    → count q (freed s blocked) ≡ true
freed-Foreign s blocked q h = ground (arith, count-release s.local q blocked h.1 h.0)

bind_to-some :
    (s t : Socket) (blocked after : List Endpoint) (o : Option Endpoint)
    → bind_to s blocked o ≡ some (t, after)
    → (o ≡ some t.local) × (after ≡ block t.local blocked)
unfolding bind_to
bind_to-some s t blocked after none h = absurd (cc)
bind_to-some s t blocked after (some ep) h = ground arith

-- A bind without a tag, if `std::rand` gives a free tag at last: the socket gets an endpoint of its
-- own rank that no other socket has blocked, this endpoint is blocked afterwards, and so are those of
-- all others.
pub bind-Foreign :
    (rank : ℕ) (rands : List ℕ) (s t : Socket) (blocked after : List Endpoint)
    → bind (rank, 0) rands s blocked ≡ some (t, after)
    → ((t.local).0 ≡ s.rank)
      × (count t.local after ≡ true)
      × ((q : Endpoint) → Foreign s blocked q → (t.local ≢ q) × (count q after ≡ true))
unfolding bind
bind-Foreign rank rands s t blocked after h =
    let (found, e) = bind_to-some s t (freed s blocked) after _ h in
    let (free, own) = next-free s.rank rands (freed s blocked) t.local found in
    (
      own,
      ap (count t.local) e ∙ count-block_self t.local (freed s blocked),
      λ q f. (
        λ tq. ground (arith, freed-Foreign s blocked q f),
        ap (count q) e ∙ count-block t.local q (freed s blocked) (freed-Foreign s blocked q f),
      ),
    )
