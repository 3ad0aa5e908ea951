-- ===== src/Client/Run/Rounds.antt =====
-- Client.cpp, `Run`: a round of the transfer that takes a piece that is due.
use cpe464_fileserver.Base.{
  [], ℕ, ◌+◌, ◌%◌, ◌^◌, ◌≤◌, ◌<◌, ◌≡◌, inl, inr, true, false, List, [], ◌∷◌, ◌++◌, arith, length,
  take, Bool-cases, ltb, leb, ◌==◌, defined, if◌then◌else◌,
}
use cpe464_fileserver.Platform.{Platform}
use cpe464_fileserver.Packet.{Packet, verifies, pkt_dmax, pkt_trnsmax, pkt_type_dat, rrpkt}
use cpe464_fileserver.File.{piece, IsPiece, length-piece}
use cpe464_fileserver.Net.{brings, Arrival, send, next_arrival, select_call}
use cpe464_fileserver.Packet.Seal.{verifies-seal}
use cpe464_fileserver.Server.Window.{data_packet}
use cpe464_fileserver.Server.Window.Pieces.{
  piece_packet, piece_packet-IsPiece, sequence-piece_packet,
}
use cpe464_fileserver.Client.{Client, State, done, recv_packets, recv_packet, receive, write_to}
use cpe464_fileserver.Client.Recv.{recv_round, accept, after_write, reply}
use cpe464_fileserver.Client.Run.{exit_by}

-- The client `c` in a transfer in which every call succeeds.
abbrev pub transfer_at : Client → ℕ → ℕ → ℕ → List ℕ → List Arrival → List Packet → Client
transfer_at c b q retries written l sent = record c {
  buffer_size = b;
  sequence = q;
  retries = retries;
  state = recv_packets;
  written = written;
  write_results = [];
  net = record { arrivals = l; send_results = []; sent = sent };
}

module _ (os : Platform) (content : List ℕ) (b : ℕ) (fits : b ≤ pkt_dmax) where
  -- One round of the transfer, for the piece that is due.
  pub round_due :
      (c : Client) (q retries : ℕ) (w : List ℕ) (l : List Arrival) (sent : List Packet) (p : Packet)
      → IsPiece content b p
      → p.sequence ≡ q
      → verifies os p ≡ true
      → q + 1 < 2 ^ 32
      → recv_round os (transfer_at c b q retries w (brings p ∷ l) sent)
        ≡ defined (
            if ltb p.size b
            then (done, transfer_at c b (q + 1) pkt_trnsmax (w ++ take p.size p.payload) l sent)
            else (
              recv_packets,
              transfer_at c b
                  (q + 1)
                  pkt_trnsmax
                  (w ++ take p.size p.payload)
                  l
                  (sent ++ (rrpkt os p.sequence ∷ [])),
            ))
  unfolding recv_round recv_packet next_arrival select_call receive accept write_to after_write
      reply send
  round_due c q retries w l sent p i e v h = elim (Bool-cases (ltb p.size b)) [
    | inl last ↦ rw (v, due, now, wrap, small, is_data, last)
    | inr full ↦ rw (v, due, now, wrap, small, is_data, full)
  ]
    where
      due : leb p.sequence q ≡ true
      due = ground (arith, e)

      now : (p.sequence == q) ≡ true
      now = ground (arith, e)

      wrap : (q + 1) % 2 ^ 32 ≡ q + 1
      wrap = omega arith

      small : ltb pkt_dmax p.size ≡ false
      small = ground (arith, i.sized, length-piece content b p.sequence)

      is_data : (p.type == pkt_type_dat) ≡ true
      is_data = ground (arith, i.data_type)

  pub piece_packet-verifies : (q : ℕ) → verifies os (piece_packet os content b q) ≡ true
  unfolding piece_packet data_packet
  piece_packet-verifies q = verifies-seal os _

  pub round_piece :
      (c : Client) (q retries : ℕ) (w : List ℕ) (l : List Arrival) (sent : List Packet)
      → q + 1 < 2 ^ 32
      → recv_round os (transfer_at c b q retries w (brings (piece_packet os content b q) ∷ l) sent)
        ≡ defined (
            if ltb (length (piece content b q)) b
            then (done, transfer_at c b (q + 1) pkt_trnsmax (w ++ piece content b q) l sent)
            else (
              recv_packets,
              transfer_at c b
                  (q + 1)
                  pkt_trnsmax
                  (w ++ piece content b q)
                  l
                  (sent ++ (rrpkt os q ∷ [])),
            ))
  round_piece c q retries w l sent h = rw (
    round_due c q retries w l sent p i (sequence-piece_packet os content b q)
        (piece_packet-verifies q) h,
    i.bytes,
    i.sized,
    sequence-piece_packet os content b q,
  )
    where
      p : Packet
      p = piece_packet os content b q

      i : IsPiece content b p
      i = piece_packet-IsPiece os content b q fits

  pub exit_done : (st : State) (k : ℕ) → st ≡ done → 0 < k → exit_by st k ≡ 0
  unfolding exit_by
  exit_done st k e h = rw e (ground arith)
