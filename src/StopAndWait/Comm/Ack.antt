-- ===== src/StopAndWait/Comm/Ack.antt =====
-- Stop and Wait (TCP)/server.c, `client_comm`: an acknowledgment, and the end of the file.
use cpe464_fileserver.Base.{
  ℕ, ◌+◌, ◌%◌, ◌^◌, ◌≤◌, ◌≡◌, refl, ap, ◌∙◌, Bool, true, false, List, [], ◌∷◌, Option, none, some,
  arith, length, drop, take, leb, ◌==◌, Outcome, defined, undefined, ◌>>=◌, if_true, if_false, ◌||◌,
}
use cpe464_fileserver.Platform.{Platform, IsFile}
use cpe464_fileserver.Packet.{Packet, verifies, seal, pkt_trnsmax, pkt_type_dat, pkt_dmax}
use cpe464_fileserver.StopAndWait.Comm.{
  Missing, Comm, Turn, below, again, leave, closing, add_offset, restore, transmit_part, on_ack,
  resume, on_accepted, same_bytes, on_packet, on_recv, receive_part, on_turn, comm_turn,
}
use cpe464_fileserver.StopAndWait.Comm.Piece.{Awaits, with_piece, prepared}

module _ (os : Platform) (missing : Missing) where
  -- An acknowledgment `p` of the data packet that was sent last arrives with a good checksum.
  pub record Acknowledged (p : Packet) (more : List (Option Packet)) (c : Comm) : Type 0 where
    pub awaits : Awaits missing c
    pub expected : c.status.expect_ack ≡ true
    pub steady : c.status.retransmit ≡ false
    pub inbox : c.inbox ≡ some p ∷ more
    pub good : verifies os p ≡ true
    pub type : p.type ≡ missing.pkt_type_ack
    pub sends_data : c.out_packet.type ≡ pkt_type_dat
    pub same : same_bytes c.out_packet.payload p.payload ≡ true

  -- The packet is done with, and the next one is due.
  abbrev pub done_with : List (Option Packet) → Comm → Comm
  done_with more c = record c {
    inbox = more;
    retries = 0;
    sequence = (c.sequence + 1) % 2 ^ 32;
    status = record (c.status) { expect_ack = false; receive = false; next_data = true };
  }

  pub received :
      (p : Packet) (more : List (Option Packet)) (c : Comm)
      → Acknowledged p more c
      → receive_part os missing c ≡ defined (below (done_with more c))
  unfolding receive_part on_recv restore on_packet on_ack resume on_accepted
  received p more c a =
      if_true c.status.receive _ _ a.awaits.receives
      ∙ ap (λ l. on_recv os missing l c) a.inbox
      ∙ if_true (verifies os p) _ _ a.good
      ∙ ap (on_packet os missing p) (if_false _ _ _ kept)
      ∙ if_true (p.type == missing.pkt_type_ack) _ _ is_ack
      ∙ if_true c.status.expect_ack _ _ a.expected
      ∙ if_true (same_bytes c.out_packet.payload p.payload) _ _ a.same
      ∙ if_false c.status.retransmit _ _ a.steady
      ∙ ap counted (if_true _ _ _ is_data)
    where
      kept : (c.out_packet.type == missing.pkt_type_ret) ≡ false
      kept = ground (arith, a.awaits.answer)

      is_ack : (p.type == missing.pkt_type_ack) ≡ true
      is_ack = ground (arith, a.type)

      is_data : (c.out_packet.type == pkt_type_dat) ≡ true
      is_data = ground (arith, a.sends_data)

      counted : ℕ → Outcome Turn
      counted n = defined (below (record (done_with more c) { sequence = n }))

  -- When the data packet that was sent last is acknowledged, with the same payload and not in a
  -- retransmission, and the file can be read, at most 1400 bytes at a time, an iteration of the
  -- loop increments the number, resets the retries, counts the bytes in `offset`, and makes the
  -- next piece of the file ready to be sent under the new number; at the end of the file it quits.
  pub ack_advances :
      (ok : Bool) (fd : ℕ) (content : List ℕ) (p : Packet) (more : List (Option Packet)) (c : Comm)
      → Acknowledged p more c
      → IsFile os fd content
      → c.from ≡ some fd
      → c.buffer_size ≤ pkt_dmax
      → let bytes = take c.buffer_size (drop c.position content) in
        let e = done_with more c in
        comm_turn os missing ok c
        ≡ defined (
            again (
              with_piece os missing bytes e
                (record e { offset = (c.offset + length bytes) % 2 ^ 32 })))
  unfolding comm_turn transmit_part on_turn add_offset
  ack_advances ok fd content p more c a f from size =
      if_false c.status.quit _ _ a.awaits.quit
      ∙ if_false (leb pkt_trnsmax c.retries) _ _ (ground (arith, a.awaits.retries))
      ∙ ap (λ d. receive_part os missing d >>= on_turn os missing ok)
          (if_false c.status.transmit _ _ a.awaits.sent)
      ∙ ap (λ o. o >>= on_turn os missing ok) (received p more c a)
      ∙ prepared os missing ok fd content (done_with more c) f from a.awaits.info a.awaits.opened
          refl size
      ∙ ap
          (λ d. defined (
            again (
              with_piece os missing (take c.buffer_size (drop c.position content))
                (done_with more c) d)))
          (if_false c.status.retransmit _ _ a.steady)

  -- If the file is at its end when its last data packet is acknowledged, the empty packet that
  -- would tell the client so is made ready but never sent: the next iteration leaves the loop, and
  -- `client_comm` returns EXIT_SUCCESS.
  pub last_packet_unsent :
      (ok ok' : Bool) (fd : ℕ) (content : List ℕ) (p : Packet) (more : List (Option Packet))
      (c : Comm)
      → Acknowledged p more c
      → IsFile os fd content
      → c.from ≡ some fd
      → c.buffer_size ≤ pkt_dmax
      → take c.buffer_size (drop c.position content) ≡ []
      → (d : Comm) × (comm_turn os missing ok c ≡ defined (again d))
        × (comm_turn os missing ok' d ≡ defined (leave 0 d))
        × (d.status.transmit ≡ true)
        × (d.out_packet.size ≡ 0)
        × (d.sent ≡ c.sent)
  unfolding comm_turn closing seal
  last_packet_unsent ok ok' fd content p more c a f from size end = (
    d,
    ack_advances ok fd content p more c a f from size
        ∙ ap
            (λ l. defined (
              again (
                with_piece os missing l (done_with more c)
                  (record (done_with more c) { offset = (c.offset + length l) % 2 ^ 32 }))))
            end,
    if_true (c.status.quit || true) _ _ (ground (arith, a.awaits.quit))
        ∙ ap
            (λ g. elim g as (λ g. Outcome Turn) [ none ↦ undefined | some k ↦ defined (leave 0 d) ])
            from,
    refl,
    refl,
    refl,
  )
    where
      d : Comm
      d =
          with_piece os missing [] (done_with more c)
            (record (done_with more c) { offset = (c.offset + 0) % 2 ^ 32 })
