-- ===== src/Server/Window/Pieces.antt =====
-- Server.cpp: the window holds consecutive pieces of the file.
use cpe464_fileserver.Base.{
  ℕ, zero, suc, ◌+◌, ◌-◌, ◌%◌, ◌^◌, ◌≤◌, ◌<◌, ◌≡◌, refl, ap, ap₂, ◌∙◌, inl, inr, List, [], ◌∷◌,
  ◌++◌, arith, length, All, Bool-cases, leb, leb→le, min, take-append_length,
}
use cpe464_fileserver.Platform.{Platform}
use cpe464_fileserver.Packet.{Packet, seal, pkt_dmax, pkt_type_dat}
use cpe464_fileserver.File.{piece, length-piece, IsPiece}
use cpe464_fileserver.Server.Window.{data_packet, slide}

module _ (os : Platform) (content : List ℕ) (b : ℕ) where
  -- The packet for piece number `q`, as `fillWindow` builds it.
  unfoldable pub piece_packet : ℕ → Packet
  piece_packet q = data_packet os q (piece content b q)

  -- The packets numbered `q`, `q + 1`, … , `n` of them.
  unfoldable pub pieces : ℕ → ℕ → List Packet
  pieces q zero = []
  pieces q (suc n) = piece_packet q ∷ pieces (suc q) n

  -- No data packet but the one with the piece of its number.
  abbrev pub IsServed : Packet → Type 0
  IsServed p = p.type ≡ pkt_type_dat → p ≡ piece_packet p.sequence

  pub sequence-piece_packet : (q : ℕ) → (piece_packet q).sequence ≡ q
  unfolding piece_packet data_packet seal
  sequence-piece_packet q = refl

  pub piece_packet-IsServed : (q : ℕ) → IsServed (piece_packet q)
  unfolding piece_packet data_packet seal
  piece_packet-IsServed q e = refl

  -- What the client needs of a data packet.
  pub piece_packet-IsPiece : (q : ℕ) → b ≤ pkt_dmax → IsPiece content b (piece_packet q)
  unfolding piece_packet data_packet seal
  piece_packet-IsPiece q fits = record {
    data_type = refl;
    sized = small;
    bytes = rw small (take-append_length (piece content b q) _);
  }
    where
      small : length (piece content b q) % 2 ^ 16 ≡ length (piece content b q)
      small = omega (arith, length-piece content b q)

  pub pieces-IsServed : (q n : ℕ) → All IsServed (pieces q n)
  unfolding pieces
  pieces-IsServed q zero = tt
  pieces-IsServed q (suc n) = (piece_packet-IsServed q, pieces-IsServed (suc q) n)

  pub pieces-snoc : (q n : ℕ) → pieces q n ++ (piece_packet (q + n) ∷ []) ≡ pieces q (suc n)
  unfolding pieces
  pieces-snoc q zero = ap (λ k. piece_packet k ∷ []) (omega arith)
  pieces-snoc q (suc n) =
      let e : q + suc n ≡ suc q + n = omega arith in
      rw e (ap (λ l. piece_packet q ∷ l) (pieces-snoc (suc q) n))

  -- In a window of `n` pieces from number `base` on, no number reaching 2^32, the loop of `waitRR`
  -- over RR number `q` pops exactly the packets numbered up to `q`.
  pub slide-pieces :
      (base n q : ℕ)
      → base + n < 2 ^ 32
      → slide base q (pieces base n)
        ≡ pieces (base + min n (q + 1 - base)) (n - min n (q + 1 - base))
  unfolding slide pieces
  slide-pieces base zero q h = let e : 0 - min 0 (q + 1 - base) ≡ 0 = omega arith in rw e refl
  slide-pieces base (suc n) q h = elim (Bool-cases (leb base q)) [
    | inl due ↦
        let le : base ≤ q = leb→le base q due in
        let e : (base + 1) % 2 ^ 32 ≡ suc base = omega arith in
        rw (due, e)
          (slide-pieces (suc base) n q (omega arith) ∙ ap₂ pieces (omega arith) (omega arith))
    | inr later ↦
        let lt : q < base = ground arith in
        rw later (ap₂ pieces {x = base} {u = suc n} (omega arith) (omega arith))
  ]
