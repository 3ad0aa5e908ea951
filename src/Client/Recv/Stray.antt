-- ===== src/Client/Recv/Stray.antt =====
-- Client.cpp, `recvPackets`: packets that are no data.
use cpe464_fileserver.Base.{
  ◌≤◌, ◌≡◌, ◌≢◌, refl, true, false, [], ◌++◌, arith, take, ltb, leb, ◌==◌, Bool-cases, inl, inr,
  undefined, Returns,
}
use cpe464_fileserver.Platform.{Platform}
use cpe464_fileserver.Packet.{Packet, rrpkt, seal, memset_packet, pkt_dmax, pkt_type_dat}
use cpe464_fileserver.Net.{send}
use cpe464_fileserver.Client.{Client, write_to, write_by}
use cpe464_fileserver.Client.Recv.{accept, after_write, reply}

module _ (os : Platform) where
  -- An RR with the client's own number, such as a late one of the handshake, is taken for data: its
  -- `size` is 0xaaaa, and `writeTo` reads that many bytes from an array of 1400.
  pub late_rr_overreads : (c : Client) → accept os (rrpkt os c.sequence) c ≡ undefined
  unfolding accept write_to rrpkt seal memset_packet
  late_rr_overreads c = rw (due, now)
    where
      due : leb c.sequence c.sequence ≡ true
      due = ground arith

      now : (c.sequence == c.sequence) ≡ true
      now = ground arith

  -- A packet of another type than data, with the client's own number and at most 1400 bytes, is
  -- written to the target all the same when `write` succeeds.
  pub stray_is_written :
      (p : Packet) (c : Client)
      → p.type ≢ pkt_type_dat
      → p.sequence ≡ c.sequence
      → p.size ≤ pkt_dmax
      → Returns
          (λ r. r.1.written ≡ c.written ++ take p.size p.payload)
          (accept os p (record c { write_results = [] }))
  unfolding accept after_write write_to write_by reply
  stray_is_written p c h e z = elim (Bool-cases (send (rrpkt os p.sequence) c.net).0) [
    | inl ok ↦ rw (due, now, small, other, ok) refl
    | inr bad ↦ rw (due, now, small, other, bad) refl
  ]
    where
      due : leb p.sequence c.sequence ≡ true
      due = ground (arith, e)

      now : (p.sequence == c.sequence) ≡ true
      now = ground (arith, e)

      small : ltb pkt_dmax p.size ≡ false
      small = ground arith

      other : (p.type == pkt_type_dat) ≡ false
      other = ground arith
