-- ===== src/BoostMpi/Transfer.antt =====
-- What is sent over MPI arrives, with four bytes too many in the header.
use mathlib.Core.Path.{ap₂}
use cracen.Base.{
  ℕ, zero, suc, ◌+◌, ◌^◌, ◌<◌, ◌≤◌, ◌≡◌, ap, ◌∙◌, sym, List, [], ◌∷◌, ◌++◌, length, take, drop,
  arith, append_assoc, length-append, take-append_length, drop-append_length,
}
use cracen.Base.Bytes.{to_bytes, of_bytes, length-to_bytes, of_bytes-to_bytes}
use cracen.BoostMpi.{Socket, send_to, datagram}

take-append_add :
    (xs ys : List ℕ) (m n : ℕ) → m ≡ length xs + n → take m (xs ++ ys) ≡ xs ++ take n ys
take-append_add [] ys m n h = ap (λ k. take k ys) (omega arith)
take-append_add (x ∷ xs) ys zero n h = absurd (omega arith)
take-append_add (x ∷ xs) ys (suc m) n h = ap (◌∷◌ x) (take-append_add xs ys m n (omega arith))

-- If the memory behind the header buffer is `behind`, at least four bytes, and the sender is bound:
-- the datagram has the body that was sent and the endpoint of the sender, and its header is the one
-- that was sent followed by the first four bytes of `behind`.
pub datagram-send_to :
    (s : Socket) (body header behind : List ℕ)
    → (s.local).0 ≡ s.rank
    → (s.local).1 < 2 ^ 32
    → 4 ≤ length behind
    → datagram behind (send_to s body header)
      ≡ record { header = header ++ take 4 behind; body = body; remote = s.local }
unfolding datagram send_to
datagram-send_to s body header behind own small enough =
    ap₂ (λ h r. record { header = h; body = body; remote = r }) header_lem remote_lem
  where
    tag : List ℕ
    tag = to_bytes 4 (s.local).1

    tag_size : 4 ≡ length tag
    tag_size = sym (length-to_bytes 4 (s.local).1)

    header_lem :
        take (length (tag ++ header)) (drop 4 ((tag ++ header) ++ behind)) ≡ header ++ take 4 behind
    header_lem =
        ap (λ l. take (length (tag ++ header)) (drop 4 l)) (append_assoc tag header behind)
        ∙ ap (take (length (tag ++ header))) (drop-append_length 4 tag (header ++ behind) tag_size)
        ∙ take-append_add header behind (length (tag ++ header)) 4
            (omega (arith, length-append tag header, tag_size))

    remote_lem : (s.rank, of_bytes (take 4 (tag ++ header))) ≡ s.local
    remote_lem =
        ap₂ (λ r t. (r, t)) (sym own)
          (ap of_bytes (take-append_length 4 tag header tag_size)
            ∙ of_bytes-to_bytes 4 (s.local).1 (omega arith))
