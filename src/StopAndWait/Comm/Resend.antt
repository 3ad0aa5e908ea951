-- ===== src/StopAndWait/Comm/Resend.antt =====
-- Stop and Wait (TCP)/server.c, `client_comm`: a request for an earlier packet.
use cpe464_fileserver.Base.{
  ℕ, ◌+◌, ◌*◌, ◌%◌, ◌^◌, ◌≤◌, ◌≡◌, ◌≢◌, refl, ap, ◌∙◌, Bool, true, false, List, ◌∷◌, ◌++◌, Option,
  some, arith, length, drop, take, leb, ◌==◌, defined, ◌>>=◌, if_true, if_false, ◌||◌,
}
use cpe464_fileserver.Platform.{Platform, IsFile}
use cpe464_fileserver.Packet.{Packet, verifies, seal, pkt_trnsmax, pkt_type_dat, pkt_dmax}
use cpe464_fileserver.StopAndWait.Comm.{
  Missing, Comm, below, again, add_offset, restore, transmit_part, on_retransmit, seek_back,
  on_packet, on_recv, receive_part, on_turn, comm_turn,
}
use cpe464_fileserver.StopAndWait.Comm.Piece.{Awaits, prepared}

module _ (os : Platform) (missing : Missing) where
  -- The state in which a request for packet `q` leaves the file.
  abbrev rewound : ℕ → List (Option Packet) → Comm → Comm
  rewound q more c = record c {
    inbox = more;
    retries = (c.retries + 1) % 2 ^ 32;
    position = c.buffer_size * q % 2 ^ 32;
    status = record (c.status) { transmit = true; retransmit = true; next_data = true };
  }

  received :
      (fd q : ℕ) (p : Packet) (more : List (Option Packet)) (c : Comm)
      → Awaits missing c
      → missing.pkt_type_ret ≢ missing.pkt_type_ack
      → c.from ≡ some fd
      → c.inbox ≡ some p ∷ more
      → verifies os p ≡ true
      → p.type ≡ missing.pkt_type_ret
      → os.ntohl p.sequence ≡ q
      → q ≢ c.sequence
      → os.lseek_set fd (c.buffer_size * q % 2 ^ 32) ≡ true
      → receive_part os missing c ≡ defined (below (rewound q more c))
  unfolding receive_part on_recv restore on_packet on_retransmit seek_back
  received fd q p more c a distinct from inbox good type number other seeks =
      if_true c.status.receive _ _ a.receives
      ∙ ap (λ l. on_recv os missing l c) inbox
      ∙ if_true (verifies os p) _ _ good
      ∙ ap (on_packet os missing p) (if_false _ _ _ kept)
      ∙ if_false (p.type == missing.pkt_type_ack) _ _ not_ack
      ∙ if_true (p.type == missing.pkt_type_ret) _ _ is_ret
      ∙ ap (λ n. on_retransmit os missing n counted) number
      ∙ if_false (q == c.sequence) _ _ differs
      ∙ if_false c.status.info_init _ _ a.opened
      ∙ ap (λ d. seek_back os missing d q counted) from
      ∙ if_true _ _ _ seeks
    where
      counted : Comm
      counted = record c { inbox = more; retries = (c.retries + 1) % 2 ^ 32 }

      kept : (c.out_packet.type == missing.pkt_type_ret) ≡ false
      kept = ground (arith, a.answer)

      not_ack : (p.type == missing.pkt_type_ack) ≡ false
      not_ack = ground (arith, type, distinct)

      is_ret : (p.type == missing.pkt_type_ret) ≡ true
      is_ret = ground (arith, type)

      differs : (q == c.sequence) ≡ false
      differs = ground (arith, other)

  -- Let requests and acknowledgments have different types, and let the file be open and readable. A
  -- request for packet `q`, not the current one, arrives with a good checksum while the session
  -- waits for an answer, with at most 1400 bytes to a packet. Then the packet that will be sent
  -- next has the bytes of the file from the offset of `q` on, but the current sequence number.
  pub resend_number :
      (ok : Bool) (fd q : ℕ) (content : List ℕ) (p : Packet) (more : List (Option Packet))
      (c : Comm)
      → Awaits missing c
      → missing.pkt_type_ret ≢ missing.pkt_type_ack
      → IsFile os fd content
      → c.from ≡ some fd
      → c.inbox ≡ some p ∷ more
      → verifies os p ≡ true
      → p.type ≡ missing.pkt_type_ret
      → os.ntohl p.sequence ≡ q
      → q ≢ c.sequence
      → c.buffer_size ≤ pkt_dmax
      → let bytes = take c.buffer_size (drop (c.buffer_size * q % 2 ^ 32) content) in
        comm_turn os missing ok c
        ≡ defined (
            again (record c {
              inbox = more;
              retries = (c.retries + 1) % 2 ^ 32;
              position = c.buffer_size * q % 2 ^ 32 + length bytes;
              out_packet = seal os (record (c.out_packet) {
                type = pkt_type_dat;
                sequence = os.htonl c.sequence;
                size = length bytes % 2 ^ 16;
                payload = bytes ++ drop (length bytes) c.out_packet.payload;
              });
              status = record (c.status) {
                quit = c.status.quit || (length bytes == 0);
                transmit = true;
                receive = false;
                retransmit = true;
                next_data = false;
              };
            }))
  unfolding comm_turn transmit_part on_turn add_offset
  resend_number ok fd q content p more c a distinct f from inbox good type number other size =
      if_false c.status.quit _ _ a.quit
      ∙ if_false (leb pkt_trnsmax c.retries) _ _ (ground (arith, a.retries))
      ∙ ap (λ d. receive_part os missing d >>= on_turn os missing ok)
          (if_false c.status.transmit _ _ a.sent)
      ∙ ap (λ o. o >>= on_turn os missing ok)
          (received fd q p more c a distinct from inbox good type number other (f.seeks _))
      ∙ prepared os missing ok fd content (rewound q more c) f from a.info a.opened refl size
