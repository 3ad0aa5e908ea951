-- ===== src/Client/Recv/Transfer.antt =====
-- Client.cpp, `recvPackets`: what the target file holds while the pieces of a file arrive.
use cpe464_fileserver.Base.{
  ℕ, suc, ◌+◌, ◌*◌, ◌-◌, ◌%◌, ◌^◌, ◌≤◌, ◌<◌, ◌≡◌, refl, sym, ap, ap₂, ◌∙◌, inl, inr, Bool, true,
  false, List, ◌++◌, arith, length, take, All, Bool-cases, ◌==◌, ==_iff, leb, ltb, ltb→lt, ltb→lt,
  defined, Returns, ◌>>=◌, if◌then◌else◌,
}
use cpe464_fileserver.Platform.{Platform}
use cpe464_fileserver.Packet.{Packet, pkt_trnsmax, pkt_dmax, pkt_type_dat, rrpkt, rejpkt}
use cpe464_fileserver.Net.Send.{send-arrivals}
use cpe464_fileserver.Net.{Arrival, Channel, Received, failed, rejected, accepted, send}
use cpe464_fileserver.File.{
  piece, IsPiece, IsStart, length-piece, take-suc_pieces, last_piece, full_piece, take-IsStart,
}
use cpe464_fileserver.Client.{Client, State, init, error, done, recv_packets, write_to, write_by}
use cpe464_fileserver.Client.RecvPacket.{Delivers, Effect, recv_packet-Effect}
use cpe464_fileserver.Client.Recv.{reply, after_write, accept, answer, recv_round}
use cpe464_fileserver.Client.Recv.Writes.{Wrote, write_by-Wrote}

lt_of_mul : (b q k : ℕ) → b * q < b * k → q < k
lt_of_mul b q k h = grind arith

module _ (os : Platform) (content : List ℕ) (b : ℕ) where
  -- The transfer runs: the file holds the pieces before `sequence`, and whatever arrives with a
  -- good checksum is a piece.
  pub record InTransfer (c : Client) : Type 0 where
    pub written : c.written ≡ take (b * c.sequence) content
    pub within : b * c.sequence ≤ length content
    pub buffer : c.buffer_size ≡ b
    pub rest : All (Delivers os (IsPiece content b)) c.net.arrivals

  -- How a round ends: the transfer goes on, or is broken off, or is complete.
  abbrev pub Status : State → Client → Type 0
  Status recv_packets d = InTransfer d
  Status error d = IsStart content d.written
  Status done d = d.written ≡ content
  Status init d = ⊥

  -- Arrivals and retries are below `m` after the round.
  abbrev pub RoundDone : ℕ → State × Client → Type 0
  RoundDone m r = (r.1.retries + 11 * length r.1.net.arrivals < m) × Status r.0 r.1

  pub InTransfer-IsStart : {c : Client} → InTransfer c → IsStart content c.written
  InTransfer-IsStart t = rw t.written (take-IsStart content b _ t.within)

  InTransfer-net :
      {c : Client} (net : Channel)
      → net.arrivals ≡ c.net.arrivals
      → InTransfer c
      → InTransfer (record c { net = net })
  InTransfer-net net e t = record {
    written = t.written;
    within = t.within;
    buffer = t.buffer;
    rest = rw e t.rest;
  }

  reply-RoundDone :
      (m : ℕ) (q : Packet) (c : Client)
      → c.retries + 11 * length c.net.arrivals < m
      → InTransfer c
      → RoundDone m (reply q c)
  unfolding reply
  reply-RoundDone m q c h t =
      let e = send-arrivals q c.net in
      let l = ap (length {A = Arrival}) e in
      let t' = InTransfer-net {c = c} (send q c.net).1 e t in
      elim (Bool-cases (send q c.net).0) [
        | inl ok ↦ rw (ok, reply) (omega (arith, l), t')
        | inr bad ↦ rw (bad, reply) (omega (arith, l), InTransfer-IsStart t)
      ]

  module _ (pos : 0 < b) (fits : b ≤ pkt_dmax) (short : length content < b * (2 ^ 32 - 1)) where
    -- The sequence number does not wrap.
    sequence_suc : (q : ℕ) → b * q ≤ length content → (q + 1) % 2 ^ 32 ≡ suc q
    sequence_suc q h = omega (arith, lt_of_mul b q (2 ^ 32 - 1) (omega arith))

    after_write-RoundDone :
        (m : ℕ) (p : Packet) (c : Client) (r : Bool × Client)
        → InTransfer c
        → IsPiece content b p
        → p.sequence ≡ c.sequence
        → pkt_trnsmax + 11 * length c.net.arrivals < m
        → r.1.written ≡ (if r.0 then c.written ++ take p.size p.payload else c.written)
        → r.1.sequence ≡ suc c.sequence
        → r.1.buffer_size ≡ b
        → r.1.retries ≡ pkt_trnsmax
        → r.1.net ≡ c.net
        → RoundDone m (after_write os p r)
    unfolding after_write
    after_write-RoundDone m p c (false, d) t i e h w s z y n =
        (omega (arith, y, ap (λ (k : Channel). length k.arrivals) n), rw w (InTransfer-IsStart t))
    after_write-RoundDone m p c (true, d) t i e h w s z y n =
        elim (Bool-cases (ltb p.size d.buffer_size)) [
          | inl last ↦
              rw (after_write, type_test, last)
                (omega (arith, y, l), w ∙ ap₂ ◌++◌ t.written piece_bytes ∙ ending last)
          | inr full ↦
              rw (after_write, type_test, full)
                (reply-RoundDone m (rrpkt os p.sequence) d (omega (arith, y, l)) (going full))
        ]
      where
        l : length d.net.arrivals ≡ length c.net.arrivals
        l = ap (λ (k : Channel). length k.arrivals) n

        type_test : (p.type == pkt_type_dat) ≡ true
        type_test = ground (arith, i.data_type)

        piece_bytes : take p.size p.payload ≡ piece content b c.sequence
        piece_bytes = i.bytes ∙ ap (λ q. piece content b q) e

        piece_size : p.size ≡ length (piece content b c.sequence)
        piece_size = i.sized ∙ ap (λ q. length (piece content b q)) e

        filled : c.written ++ take p.size p.payload ≡ take (b * suc c.sequence) content
        filled = ap₂ ◌++◌ t.written piece_bytes ∙ sym (take-suc_pieces content b c.sequence)

        ending :
            ltb p.size d.buffer_size ≡ true
            → take (b * c.sequence) content ++ piece content b c.sequence ≡ content
        ending lt = last_piece content b c.sequence (omega (arith, ltb→lt _ _ lt, piece_size))

        going : ltb p.size d.buffer_size ≡ false → InTransfer d
        going full = record {
          written = w ∙ filled ∙ ap (λ q. take (b * q) content) (sym s);
          within = rw s (full_piece content b c.sequence pos (ground (arith, piece_size)));
          buffer = z;
          rest = rw n t.rest;
        }

    InTransfer-retries :
        {c : Client} → InTransfer c → InTransfer (record c { retries = pkt_trnsmax })
    InTransfer-retries t = record {
      written = t.written;
      within = t.within;
      buffer = t.buffer;
      rest = t.rest;
    }

    write-RoundDone :
        (m : ℕ) (p : Packet) (c : Client)
        → InTransfer c
        → IsPiece content b p
        → p.sequence ≡ c.sequence
        → pkt_trnsmax + 11 * length c.net.arrivals < m
        → Returns (RoundDone m) (
            write_to p (record c { retries = pkt_trnsmax; sequence = (c.sequence + 1) % 2 ^ 32 })
            >>= λ r. defined (after_write os p r))
    unfolding write_to
    write-RoundDone m p c t i e h = rw small (
        after_write-RoundDone m p c _ t i e h w.written
          (w.sequence ∙ sequence_suc c.sequence t.within) (w.buffer ∙ t.buffer) w.retries w.net)
      where
        small : ltb pkt_dmax p.size ≡ false
        small = ground (arith, i.sized, length-piece content b p.sequence)

        w :
            Wrote
              (take p.size p.payload)
              (record c { retries = pkt_trnsmax; sequence = (c.sequence + 1) % 2 ^ 32 })
              (write_by c.write_results
                (take p.size p.payload)
                (record c { retries = pkt_trnsmax; sequence = (c.sequence + 1) % 2 ^ 32 }))
        w = write_by-Wrote c.write_results (take p.size p.payload) _

    accept-RoundDone :
        (m : ℕ) (p : Packet) (c : Client)
        → InTransfer c
        → IsPiece content b p
        → c.retries ≡ pkt_trnsmax
        → pkt_trnsmax + 11 * length c.net.arrivals < m
        → Returns (RoundDone m) (accept os p c)
    unfolding accept
    accept-RoundDone m p c t i y h = elim (Bool-cases (leb p.sequence c.sequence)) [
      | inr later ↦ rw (accept, later) (reply-RoundDone m (rejpkt os c.sequence) c (omega arith) t)
      | inl due ↦ elim (Bool-cases (p.sequence == c.sequence)) [
        | inl now ↦ rw (accept, due, now) (write-RoundDone m p c t i ((==_iff _ _).0 now) h)
        | inr old ↦
            rw (accept, due, old)
              (reply-RoundDone m (rrpkt os p.sequence) _ h (InTransfer-retries t))
      ]
    ]

    answer-RoundDone :
        (c : Client)
        → InTransfer c
        → (x : Received × ℕ × Channel) → Effect os (IsPiece content b) c.retries c.net x
        → Returns (RoundDone (c.retries + 11 * length c.net.arrivals)) (answer os x c)
    unfolding answer
    answer-RoundDone c t (failed, r, net) f = (f.falls, InTransfer-IsStart t)
    answer-RoundDone c t (rejected, r, net) f =
        reply-RoundDone _ (rejpkt os c.sequence) (record c { retries = r; net = net }) f.falls
          (arrived f.rest)
      where
        arrived :
            All (Delivers os (IsPiece content b)) net.arrivals
            → InTransfer (record c { retries = r; net = net })
        arrived l = record { written = t.written; within = t.within; buffer = t.buffer; rest = l }
    answer-RoundDone c t (accepted p, r, net) f =
        accept-RoundDone _ p (record c { retries = r; net = net })
          (record { written = t.written; within = t.within; buffer = t.buffer; rest = f.rest })
          (f.got p refl) (f.fresh p refl) (omega (arith, f.falls, f.fresh p refl))

    -- A round with a retry left: see `recv_round-Advances`.
    pub recv_round-RoundDone :
        (c : Client)
        → 0 < c.retries
        → InTransfer c
        → Returns (RoundDone (c.retries + 11 * length c.net.arrivals)) (recv_round os c)
    unfolding recv_round
    recv_round-RoundDone c h t =
        answer-RoundDone c t _ (recv_packet-Effect os (IsPiece content b) c.retries c.net h t.rest)
