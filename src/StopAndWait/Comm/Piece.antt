-- ===== src/StopAndWait/Comm/Piece.antt =====
-- Stop and Wait (TCP)/server.c, `client_comm`: a piece of the file is read and made ready.
use cpe464_fileserver.Base.{
  ℕ, ◌+◌, ◌%◌, ◌^◌, ◌≤◌, ◌<◌, ◌≡◌, ◌≢◌, ap, ◌∙◌, Bool, true, false, List, ◌++◌, some, arith, length,
  drop, take, ltb, ◌==◌, defined, ◌>>=◌, length-take, if_true, if_false, ◌||◌,
}
use cpe464_fileserver.Platform.{Platform, IsFile}
use cpe464_fileserver.Packet.{Packet, seal, pkt_trnsmax, pkt_type_dat, pkt_dmax}
use cpe464_fileserver.StopAndWait.Comm.{
  Missing, Comm, again, add_offset, prepare, read_part, file_part, file_to_packet,
}

-- `client_comm` has the file open and waits for an answer to the packet it has sent last.
pub record Awaits (missing : Missing) (c : Comm) : Type 0 where
  pub quit : c.status.quit ≡ false
  pub info : c.status.expect_info ≡ false
  pub opened : c.status.info_init ≡ false
  pub sent : c.status.transmit ≡ false
  pub receives : c.status.receive ≡ true
  pub retries : c.retries < pkt_trnsmax
  pub answer : c.out_packet.type ≢ missing.pkt_type_ret

module _ (os : Platform) (missing : Missing) where
  file_to_packet-reads :
      (fd at sequence size : ℕ) (content : List ℕ) (p : Packet)
      → IsFile os fd content
      → size ≤ pkt_dmax
      → file_to_packet os missing fd at sequence size p
        ≡ defined (
            some (
              take size (drop at content),
              seal os (record p {
                type = pkt_type_dat;
                sequence = os.htonl sequence;
                size = length (take size (drop at content)) % 2 ^ 16;
                payload =
                    take size (drop at content)
                    ++ drop (length (take size (drop at content))) p.payload;
              }),
            ))
  unfolding file_to_packet
  file_to_packet-reads fd at sequence size content p f h =
      rw (f.reads at size, small, file_to_packet)
    where
      small : ltb pkt_dmax (length (take size (drop at content))) ≡ false
      small = ground (arith, length-take size (drop at content))

  -- `c`, with `bytes` in the packet to send and taken from the file, and what else `d` has.
  abbrev pub with_piece : List ℕ → Comm → Comm → Comm
  with_piece bytes c d = record d {
    position = c.position + length bytes;
    out_packet = seal os (record (c.out_packet) {
      type = pkt_type_dat;
      sequence = os.htonl c.sequence;
      size = length bytes % 2 ^ 16;
      payload = bytes ++ drop (length bytes) c.out_packet.payload;
    });
    status = record (c.status) {
      quit = c.status.quit || (length bytes == 0);
      transmit = true;
      receive = false;
      next_data = false;
    };
  }

  -- The next piece is read and made ready to be sent.
  pub prepared :
      (ok : Bool) (fd : ℕ) (content : List ℕ) (c : Comm)
      → IsFile os fd content
      → c.from ≡ some fd
      → c.status.expect_info ≡ false
      → c.status.info_init ≡ false
      → c.status.next_data ≡ true
      → c.buffer_size ≤ pkt_dmax
      → let bytes = take c.buffer_size (drop c.position content) in
        file_part os missing ok c
        ≡ defined (again (with_piece bytes c (add_offset (length bytes) c)))
  unfolding file_part read_part prepare
  prepared ok fd content c f from info opened due size =
      if_false c.status.expect_info _ _ info
      ∙ if_false c.status.info_init _ _ opened
      ∙ if_true c.status.next_data _ _ due
      ∙ ap (λ d. read_part os missing d c) from
      ∙ if_true c.status.next_data _ _ due
      ∙ ap (λ o. o >>= λ r. defined (prepare os missing r c))
          (file_to_packet-reads fd c.position c.sequence c.buffer_size content c.out_packet f size)
