-- ===== src/StopAndWait/Comm/Overwritten.antt =====
-- Stop and Wait (TCP)/server.c with `ackpkt` of packet.c: an acknowledgment is not the data packet.
use cpe464_fileserver.Base.{
  ℕ, ◌≡◌, ◌≢◌, refl, sym, ap, ap₂, ◌∙◌, inl, inr, Bool, true, false, List, [], ◌∷◌, Option, some,
  arith, replicate, Bool-cases, ==_iff, if◌then◌else◌, if_true, if_false, leb, ◌==◌, ◌&&◌, defined,
  ◌>>=◌,
}
use cpe464_fileserver.Platform.{Platform}
use cpe464_fileserver.Packet.{
  Packet, ackpkt, retransmitpkt, seal, verifies, pkt_dmax, pkt_trnsmax, pkt_type_rr, pkt_type_rej,
}
use cpe464_fileserver.StopAndWait.Comm.{
  Missing, Comm, below, again, transmit_part, on_ack, same_bytes, restore, on_packet, on_recv,
  receive_part, on_bad_checksum, file_part, on_turn, comm_turn,
}
use cpe464_fileserver.StopAndWait.Comm.Piece.{Awaits}

-- Only equal payloads are the same bytes.
same_bytes-eq : (l m : List ℕ) → same_bytes l m ≡ true → l ≡ m
unfolding same_bytes
same_bytes-eq [] [] e = refl
same_bytes-eq [] (y ∷ m) e = absurd cc
same_bytes-eq (x ∷ l) [] e = absurd cc
same_bytes-eq (x ∷ l) (y ∷ m) e = elim (Bool-cases (x == y)) [
  | inl k ↦
      ap₂ ◌∷◌ ((==_iff x y).0 k) (same_bytes-eq l m (ap (λ t. t && same_bytes l m) (sym k) ∙ e))
  | inr k ↦ absurd (unequal (ap (λ t. t && same_bytes l m) (sym k) ∙ e))
]
  where
    unequal : false ≡ true → ⊥
    unequal h = cc

module _ (os : Platform) (tail : List ℕ) where
  -- The types under the names that packet.h gives them, and `ackpkt` of packet.c, as it is complete
  -- in the other version of the program.
  abbrev pub renamed : Missing
  renamed = record {
    pkt_type_ack = pkt_type_rr;
    pkt_type_ret = pkt_type_rej;
    ackpkt = λ p. ackpkt os (some p);
    heap_tail = tail;
  }

  -- What the client makes of a packet that it has received and whose checksum it has cleared.
  abbrev pub acknowledgment : Packet → Packet
  acknowledgment p = ackpkt os (some (record p { checksum = 0 }))

  -- The iteration leaves everything but the flags, the packets and the inbox as it is.
  pub record IsStuck (c d : Comm) (more : List (Option Packet)) : Type 0 where
    pub sequence : d.sequence ≡ c.sequence
    pub position : d.position ≡ c.position
    pub retries : d.retries ≡ c.retries
    pub waits : d.status.expect_ack ≡ true
    pub inbox : d.inbox ≡ more

  -- Let `ackpkt` be the one of packet.c, which overwrites the payload after it has taken the
  -- checksum, and let the types have the names of packet.h. Let the server have the file open, wait
  -- for the acknowledgment of its last packet, the payload of which is not 1400 times the byte of
  -- PKT_TYPE_RR, and have no other piece to read. Then the client's acknowledgment of this packet is
  -- not accepted: the iteration in which it arrives ends without a new number, the file stays where
  -- it is, an acknowledgment is still expected, and nothing counts towards the limit of retries.
  pub acknowledgment_unaccepted :
      (ok : Bool) (more : List (Option Packet)) (c : Comm)
      → Awaits renamed c
      → c.status.expect_ack ≡ true
      → c.status.next_data ≡ false
      → c.inbox ≡ some (acknowledgment c.out_packet) ∷ more
      → c.out_packet.payload ≢ replicate pkt_dmax pkt_type_rr
      → (d : Comm) × (comm_turn os renamed ok c ≡ defined (again d)) × IsStuck c d more
  unfolding comm_turn transmit_part receive_part on_recv restore ackpkt seal on_packet on_ack
      on_turn file_part on_bad_checksum
  acknowledgment_unaccepted ok more c a expects idle arrives other =
      elim (Bool-cases (verifies os p)) [
        | inl good ↦ (
          popped,
          begins
              ∙ ap (λ o. o >>= on_turn os renamed ok)
                  (if_true (verifies os p) _ _ good ∙ ap (on_packet os renamed p) kept ∙ refused)
              ∙ files,
          record {
            sequence = refl;
            position = refl;
            retries = refl;
            waits = expects;
            inbox = refl;
          },
        )
        | inr bad ↦ (
          asking,
          begins ∙ ap (λ o. o >>= on_turn os renamed ok) (if_false (verifies os p) _ _ bad),
          record {
            sequence = refl;
            position = refl;
            retries = refl;
            waits = expects;
            inbox = refl;
          },
        )
      ]
    where
      p : Packet
      p = acknowledgment c.out_packet

      popped : Comm
      popped = record c { inbox = more }

      -- A packet with a bad checksum is asked for again.
      asking : Comm
      asking = record popped {
        saved_packet = if c.out_packet.type == pkt_type_rej then c.saved_packet else c.out_packet;
        out_packet = retransmitpkt os c.sequence;
        status = record (c.status) { transmit = true };
      }

      begins :
          comm_turn os renamed ok c ≡ on_recv os renamed (some p ∷ more) c >>= on_turn os renamed ok
      begins =
          if_false c.status.quit _ _ a.quit
          ∙ if_false (leb pkt_trnsmax c.retries) _ _ (ground (arith, a.retries))
          ∙ ap (λ d. receive_part os renamed d >>= on_turn os renamed ok)
              (if_false c.status.transmit _ _ a.sent)
          ∙ ap (λ o. o >>= on_turn os renamed ok) (if_true c.status.receive _ _ a.receives)
          ∙ ap (λ l. on_recv os renamed l c >>= on_turn os renamed ok) arrives

      kept : restore pkt_type_rej popped ≡ popped
      kept = if_false (c.out_packet.type == pkt_type_rej) _ _ (ground (arith, a.answer))

      differs : same_bytes c.out_packet.payload p.payload ≡ false
      differs = elim (Bool-cases (same_bytes c.out_packet.payload p.payload)) [
        | inl e ↦ absurd (other (same_bytes-eq _ _ e))
        | inr e ↦ e
      ]

      refused : on_packet os renamed p popped ≡ defined (below popped)
      refused =
          if_true c.status.expect_ack _ _ expects
          ∙ if_false (same_bytes c.out_packet.payload p.payload) _ _ differs

      files : on_turn os renamed ok (below popped) ≡ defined (again popped)
      files =
          if_false c.status.expect_info _ _ a.info
          ∙ if_false c.status.info_init _ _ a.opened
          ∙ if_false c.status.next_data _ _ idle
