-- ===== src/StopAndWait/Comm/Iteration.antt =====
-- Stop and Wait (TCP)/server.c, `client_comm` and `file_to_packet`: one iteration of the loop.
use cpe464_fileserver.Base.{
  ◌≡◌, ℕ, ◌+◌, ◌*◌, ◌%◌, ◌^◌, Bool, true, false, ◌||◌, not, List, [], ◌∷◌, ◌++◌, Option, none, some,
  if◌then◌else◌, ltb, leb, ◌==◌, Outcome, defined, undefined, ◌>>=◌, length, drop,
}
use cpe464_fileserver.Platform.{Platform}
use cpe464_fileserver.Packet.{
  Packet, seal, verifies, retransmitpkt, pkt_type_dat, pkt_type_fln, pkt_trnsmax, pkt_dmax,
}
use cpe464_fileserver.Server.Init.{c_string}
use cpe464_fileserver.StopAndWait.Comm.State.{
  Missing, Comm, Turn, below, again, waiting, leave, exit_success, exit_failure, closing,
  same_bytes, send_err, add_offset, restore, comm_start,
}

module _ (os : Platform) (missing : Missing) where
  -- `file_to_packet` with a packet to fill: `none` is -1. A `read` of more bytes than `data` holds
  -- writes outside the packet.
  unfoldable pub file_to_packet : ℕ → ℕ → ℕ → ℕ → Packet → Outcome (Option (List ℕ × Packet))
  file_to_packet fd at sequence buffer_size p = elim (os.read_at fd at buffer_size) [
    | none ↦ defined none
    | some bytes ↦
        if ltb pkt_dmax (length bytes)
        then undefined
        else defined (
            some (
              bytes,
              seal os (record p {
                type = pkt_type_dat;
                sequence = os.htonl sequence;
                size = length bytes % 2 ^ 16;
                payload = bytes ++ drop (length bytes) p.payload;
              }),
            ))
  ]

  -- The part under `TRANSMIT`: whether `sendErr` succeeds makes no difference to the rest.
  unfoldable pub transmit_part : Comm → Comm
  unfolding send_err
  transmit_part c =
      if c.status.transmit
      then (if c.out_packet.type == missing.pkt_type_ack
          then record (send_err c.send_results c) {
            status = record (c.status) { transmit = false; receive = false };
          }
          else record (send_err c.send_results c) {
            status = record (c.status) {
              transmit = false;
              receive = true;
              expect_ack = c.status.expect_ack || not (c.out_packet.type == missing.pkt_type_ret);
            };
          })
      else c

  -- A packet with a bad checksum: the current one is asked for again.
  unfoldable pub on_bad_checksum : Comm → Turn
  on_bad_checksum c = again (record c {
    saved_packet =
        if c.out_packet.type == missing.pkt_type_ret then c.saved_packet else c.out_packet;
    out_packet = retransmitpkt os c.sequence;
    status = record (c.status) { transmit = true };
  })

  -- An acknowledgment that was accepted.
  unfoldable pub on_accepted : Comm → Comm
  on_accepted c = record c {
    status = record (c.status) { expect_ack = false; receive = false; next_data = true };
    retries = 0;
    sequence = if c.out_packet.type == pkt_type_dat then (c.sequence + 1) % 2 ^ 32 else c.sequence;
  }

  -- The file goes on where it was before a retransmission.
  unfoldable pub resume : Comm → Outcome Turn
  resume c =
      if c.status.retransmit
      then elim c.from [
        | none ↦ undefined
        | some fd ↦
            if os.lseek_set fd c.offset
            then defined (
                below (record c {
                  position = c.offset;
                  status = record (c.status) { retransmit = false };
                }))
            else defined (
                leave exit_failure (record c { status = record (c.status) { retransmit = false } }))
      ]
      else defined (below c)

  unfoldable pub on_ack : Packet → Comm → Outcome Turn
  unfolding resume on_accepted closing same_bytes
  on_ack p c =
      if c.status.expect_ack
      then (if same_bytes c.out_packet.payload p.payload
          then resume (on_accepted c)
          else defined (below c))
      else closing c (leave exit_failure c)

  -- The file is to be read from packet `q` on.
  unfoldable pub seek_back : Option ℕ → ℕ → Comm → Outcome Turn
  seek_back none q c = undefined
  seek_back (some fd) q c =
      if os.lseek_set fd (c.buffer_size * q % 2 ^ 32)
      then defined (
          below (record c {
            position = c.buffer_size * q % 2 ^ 32;
            status = record (c.status) { transmit = true; retransmit = true; next_data = true };
          }))
      else defined (leave exit_failure c)

  -- A request for the packet with number `q`, which was counted.
  unfoldable pub on_retransmit : ℕ → Comm → Outcome Turn
  unfolding seek_back
  on_retransmit q c =
      if q == c.sequence
      then defined (again (record c { status = record (c.status) { transmit = true } }))
      else if c.status.info_init
      then defined (below c)
      else seek_back c.from q c

  unfoldable pub on_name : Packet → Comm → Outcome Turn
  unfolding c_string
  on_name p c =
      if c.status.expect_info
      then (c_string p.payload >>= λ name. defined (
          again (record c {
            name = name;
            buffer_size = p.size;
            out_packet = missing.ackpkt (record p { checksum = 0 });
            status = record (c.status) { expect_info = false; info_init = true; transmit = true };
          })))
      else defined (below c)

  -- The `switch` on the type of a packet with a good checksum.
  unfoldable pub on_packet : Packet → Comm → Outcome Turn
  unfolding on_ack on_retransmit on_name
  on_packet p c =
      if p.type == missing.pkt_type_ack
      then on_ack p c
      else if p.type == missing.pkt_type_ret
      then on_retransmit (os.ntohl p.sequence) (record c { retries = (c.retries + 1) % 2 ^ 32 })
      else if p.type == pkt_type_fln
      then on_name p c
      else defined (below c)

  unfoldable pub on_recv : List (Option Packet) → Comm → Outcome Turn
  unfolding on_packet on_bad_checksum closing restore
  on_recv [] c = defined (waiting c)
  on_recv (none ∷ more) c = closing c (leave exit_failure (record c { inbox = more }))
  on_recv (some p ∷ more) c =
      if verifies os p
      then on_packet p (restore missing.pkt_type_ret (record c { inbox = more }))
      else defined (on_bad_checksum (record c { inbox = more }))

  unfoldable pub receive_part : Comm → Outcome Turn
  unfolding on_recv
  receive_part c = if c.status.receive then on_recv c.inbox c else defined (below c)

  -- The next piece of the file was read.
  unfoldable pub prepare : Option (List ℕ × Packet) → Comm → Turn
  unfolding add_offset
  prepare none c = leave exit_failure c
  prepare (some (bytes, p)) c = again (record (add_offset (length bytes) c) {
    position = c.position + length bytes;
    out_packet = p;
    status = record (c.status) {
      quit = c.status.quit || (length bytes == 0);
      next_data = false;
      receive = false;
      transmit = true;
    };
  })

  unfoldable pub read_part : Option ℕ → Comm → Outcome Turn
  unfolding prepare file_to_packet
  read_part none c = undefined
  read_part (some fd) c =
      if c.status.next_data
      then (file_to_packet fd c.position c.sequence c.buffer_size c.out_packet >>= λ r.
          defined (prepare r c))
      else defined (again c)

  -- The part for files. `fstat_ok` says whether `fstat` succeeds.
  unfoldable pub file_part : Bool → Comm → Outcome Turn
  unfolding read_part
  file_part fstat_ok c =
      if c.status.expect_info
      then defined (again c)
      else if c.status.info_init
      then elim (os.open_rdonly (c.name ++ missing.heap_tail)) [
        | none ↦ defined (leave exit_failure c)
        | some fd ↦
            if fstat_ok
            then read_part (some fd) (record c {
              from = some fd;
              position = 0;
              status = record (c.status) { info_init = false; next_data = true };
            })
            else defined (
                leave exit_failure (record c {
                  from = some fd;
                  position = 0;
                  status = record (c.status) { info_init = false };
                }))
      ]
      else if c.status.next_data
      then read_part c.from c
      else defined (again c)

  unfoldable pub on_turn : Bool → Turn → Outcome Turn
  unfolding file_part
  on_turn fstat_ok (below c) = file_part fstat_ok c
  on_turn fstat_ok (again c) = defined (again c)
  on_turn fstat_ok (waiting c) = defined (waiting c)
  on_turn fstat_ok (leave status c) = defined (leave status c)

  -- One iteration of the loop.
  unfoldable pub comm_turn : Bool → Comm → Outcome Turn
  unfolding on_turn receive_part transmit_part closing
  comm_turn fstat_ok c =
      if c.status.quit
      then closing c (leave exit_success c)
      else if leb pkt_trnsmax c.retries
      then closing c (leave exit_success c)
      else receive_part (transmit_part c) >>= on_turn fstat_ok

-- The states in which an iteration of the loop starts; each iteration may have its own `fstat`.
pub data Reached (os : Platform) (missing : Missing) (inbox : List (Option Packet))
    (results : List Bool) : Comm → Type 0 where
  start : Reached os missing inbox results (comm_start inbox results)
  next :
      {c d : Comm} (fstat_ok : Bool)
      → Reached os missing inbox results c
      → comm_turn os missing fstat_ok c ≡ defined (again d)
      → Reached os missing inbox results d
