-- ===== src/System/Queue.antt =====
-- What the server answers to those who wait in their constructors.
use mathlib.Core.List.{mem-append_left, mem-append_right, mem-cons}
use mathlib.Core.Logic.Or
use mathlib.Core.Logic.{∨₁_prop}
use cracen.Base.{sym, List, ◌∷◌, ◌++◌, Mem}
use cracen.Base.StdMap.{Key}
use cracen.Backend.{Message, roles_complete}
use cracen.Server.{Server}
use cracen.Server.Answers.{Answers}
use cracen.System.{Peer, unstarted, constructing, managing, over, letters_to}
use cracen.System.Channels.{mem-letters_to}
use cracen.System.Pending.{Owed, Pends}

module _ {E G : Type 0} ⦃o : Key E⦄ (srv : E) where
  Owed-served :
      (m : Message E) (ep : E) (t t' : Server E G) (u d : List (Message E))
      → (answers : Answers m ep t t') → Owed srv t ep (m ∷ u) d
      → Owed srv t' ep u (d ++ letters_to ep answers.new)
  Owed-served m ep t t' u d answers h =
      Or.elim ∨₁_prop h
        (λ here.
          Or.elim ∨₁_prop (mem-cons.0 here)
            (λ e. Or.inr (Or.imp (λ k. k) later (answers.moved (sym e)))) Or.inl)
        (λ back.
          Or.elim ∨₁_prop back (λ k. Or.inr (Or.imp (λ k. k) later (answers.kept ep k)))
            (λ k. Or.inr (Or.inr (mem-append_left _ k))))
    where
      later :
          Mem (ep, roles_complete) answers.new → Mem roles_complete (d ++ letters_to ep answers.new)
      later k = mem-append_right d (mem-letters_to ep roles_complete answers.new k)

  Owed-other :
      (m : Message E) (ep q : E) (t t' : Server E G) (u d : List (Message E))
      → (answers : Answers m ep t t') → Owed srv t q u d
      → Owed srv t' q u (d ++ letters_to q answers.new)
  Owed-other m ep q t t' u d answers =
      Or.imp (λ k. k)
        (λ h.
          Or.elim ∨₁_prop h
            (λ k.
              Or.imp (λ k. k)
                (λ k. mem-append_right d (mem-letters_to q roles_complete answers.new k))
                (answers.kept q k))
            (λ k. Or.inr (mem-append_left _ k)))

  pub Pends-served :
      (m : Message E) (ep : E) (t t' : Server E G) (p : Peer E) (u d : List (Message E))
      → (answers : Answers m ep t t') → Pends srv t ep p (m ∷ u) d
      → Pends srv t' ep p u (d ++ letters_to ep answers.new)
  Pends-served m ep t t' unstarted u d answers h = tt
  Pends-served m ep t t' (constructing c) u d answers h =
      (h.0, Owed-served m ep t t' u d answers h.1)
  Pends-served m ep t t' (managing c) u d answers h = tt
  Pends-served m ep t t' (over c) u d answers h = tt

  pub Pends-other :
      (m : Message E) (ep q : E) (t t' : Server E G) (p : Peer E) (u d : List (Message E))
      → (answers : Answers m ep t t') → Pends srv t q p u d
      → Pends srv t' q p u (d ++ letters_to q answers.new)
  Pends-other m ep q t t' unstarted u d answers h = tt
  Pends-other m ep q t t' (constructing c) u d answers h =
      (h.0, Owed-other m ep q t t' u d answers h.1)
  Pends-other m ep q t t' (managing c) u d answers h = tt
  Pends-other m ep q t t' (over c) u d answers h = tt
