-- ===== src/Client/Recv/Grows.antt =====
-- Client.cpp, `recvPackets`: a round only appends to the target file.
use cpe464_fileserver.Base.{
  ℕ, ◌+◌, ◌*◌, ◌%◌, ◌^◌, ◌≤◌, ◌<◌, ◌-◌, ◌≡◌, refl, sym, ◌∙◌, Bool, true, false, List, [], ◌∷◌, ◌++◌,
  append-nil, length, take, leb, ltb, ◌==◌, ◌&&◌, if_either, defined, Ends, Ends->>=, Returns,
  Returns-both,
}
use cpe464_fileserver.Platform.{Platform}
use cpe464_fileserver.Packet.{Packet, pkt_dmax, pkt_trnsmax, pkt_type_dat, rrpkt, rejpkt}
use cpe464_fileserver.Net.{Channel, Received, failed, rejected, accepted, send}
use cpe464_fileserver.Client.{Client, State, write_to, write_by, recv_packet}
use cpe464_fileserver.Client.Recv.{reply, after_write, accept, answer, recv_round}
use cpe464_fileserver.Client.Recv.Transfer.{InTransfer, RoundDone, recv_round-RoundDone}

-- The target holds `before`, and perhaps more behind it.
abbrev pub Grown : List ℕ → Client → Type 0
Grown before d = (l : List ℕ) × (d.written ≡ before ++ l)

same-Grown : (before : List ℕ) (d : Client) → d.written ≡ before → Grown before d
same-Grown before d e = ([], e ∙ sym (append-nil before))

reply-Grown :
    (before : List ℕ) (q : Packet) (c : Client) → Grown before c → Grown before (reply q c).1
unfolding reply
reply-Grown before q c h =
    if_either (λ (r : State × Client). Grown before r.1) (send q c.net).0 _ _ h h

module _ (os : Platform) where
  after_write-Grown :
      (before : List ℕ) (p : Packet) (r : Bool × Client)
      → Grown before r.1
      → Grown before (after_write os p r).1
  unfolding after_write
  after_write-Grown before p (false, c) h = h
  after_write-Grown before p (true, c) h =
      if_either (λ (r : State × Client). Grown before r.1)
        ((p.type == pkt_type_dat) && ltb p.size c.buffer_size) _ _ h
        (reply-Grown before (rrpkt os p.sequence) c h)

  write_by-Grown :
      (rs : List Bool) (bytes : List ℕ) (c : Client) → Grown c.written (write_by rs bytes c).1
  unfolding write_by
  write_by-Grown [] bytes c = (bytes, refl)
  write_by-Grown (true ∷ rs) bytes c = (bytes, refl)
  write_by-Grown (false ∷ rs) bytes c = same-Grown c.written (record c { write_results = rs }) refl

  write_to-Grown : (p : Packet) (c : Client) → Ends (λ r. Grown c.written r.1) (write_to p c)
  unfolding write_to
  write_to-Grown p c =
      if_either (Ends (λ (r : Bool × Client). Grown c.written r.1)) (ltb pkt_dmax p.size) _ _ tt
        (write_by-Grown c.write_results (take p.size p.payload) c)

  accept-Grown : (p : Packet) (c : Client) → Ends (λ r. Grown c.written r.1) (accept os p c)
  unfolding accept
  accept-Grown p c =
      if_either (Ends After) (leb p.sequence c.sequence) _ _
        (if_either (Ends After) (p.sequence == c.sequence) _ _
          (Ends->>= {A = Bool × Client} (λ r. Grown c.written r.1) After
            (λ r. defined (after_write os p r)) (λ r h. after_write-Grown c.written p r h) _
            (write_to-Grown p
              (record c { retries = pkt_trnsmax; sequence = (c.sequence + 1) % 2 ^ 32 })))
          (reply-Grown c.written _ _
            (same-Grown c.written (record c { retries = pkt_trnsmax }) refl)))
        (reply-Grown c.written _ c (same-Grown c.written c refl))
    where
      After : State × Client → Type 0
      After r = Grown c.written r.1

  answer-Grown :
      (x : Received × ℕ × Channel) (c : Client) → Ends (λ r. Grown c.written r.1) (answer os x c)
  unfolding answer
  answer-Grown (failed, r, net) c = same-Grown c.written (record c { retries = r; net = net }) refl
  answer-Grown (rejected, r, net) c =
      reply-Grown c.written (rejpkt os c.sequence) (record c { retries = r; net = net })
        (same-Grown c.written (record c { retries = r; net = net }) refl)
  answer-Grown (accepted p, r, net) c = accept-Grown p (record c { retries = r; net = net })

  -- A round of a transfer, of which `m` bounds the arrivals and retries.
  abbrev pub Advances : List ℕ → ℕ → Client → State × Client → Type 0
  Advances content b c r =
      Grown c.written r.1 × RoundDone os content b (c.retries + 11 * length c.net.arrivals) r

  -- Let pieces have 1 to 1400 bytes, and the file be shorter than 2^32 - 1 of them. A round of
  -- `recvPackets` with a retry left in a transfer, in which what arrives with a good checksum are
  -- pieces of the file, is defined, takes an arrival or a retry and keeps what is in the target. It
  -- goes on, with the pieces before its sequence number in the target, or it is broken off with a
  -- beginning of the file in the target, or it is complete and has written the whole file.
  pub recv_round-Advances :
      (content : List ℕ) (b : ℕ)
      → 0 < b
      → b ≤ pkt_dmax
      → length content < b * (2 ^ 32 - 1)
      → (c : Client) → 0 < c.retries
      → InTransfer os content b c
      → Returns (Advances content b c) (recv_round os c)
  unfolding recv_round
  recv_round-Advances content b pos fits short c h t =
      Returns-both (λ r. Grown c.written r.1)
        (RoundDone os content b (c.retries + 11 * length c.net.arrivals)) _
        (answer-Grown (recv_packet os c.retries c.net) c)
        (recv_round-RoundDone os content b pos fits short c h t)
