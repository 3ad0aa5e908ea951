-- ===== src/StopAndWait/Rcopy.antt =====
-- Stop and Wait (TCP)/rcopy.c, `main`: the client's request and one iteration of its loop. The file
-- is half rewritten and does not compile: the loop's condition and lines 181 to 184 read a variable
-- `state`, the rest a variable `status` that is not declared any more. The part over `status` is
-- modelled; what `status` holds at the start is a parameter.
pub mod Pieces
pub mod Writes
use cpe464_fileserver.Base.{
  ℕ, ◌+◌, ◌-◌, ◌%◌, ◌^◌, ◌≡◌, Bool, true, false, ◌||◌, ◌&&◌, not, List, [], ◌∷◌, ◌++◌, Option, none,
  some, if◌then◌else◌, ltb, leb, ◌==◌, Outcome, defined, undefined, ◌>>=◌, length, take, drop,
}
use cpe464_fileserver.Platform.{Platform}
use cpe464_fileserver.Packet.{
  Packet, seal, verifies, retransmitpkt, zero_packet, pkt_type_dat, pkt_type_fln, pkt_trnsmax,
  pkt_dmax,
}
use cpe464_fileserver.StopAndWait.Comm.{Missing, same_bytes, exit_success, exit_failure}

-- The bits of `status`; `at_end` is `END`.
pub record Flags : Type 0 where
  pub quit : Bool
  pub expect_ack : Bool
  pub transmit : Bool
  pub receive : Bool
  pub at_end : Bool

-- The variables of `main`. `written` is the content of the target file; `inbox` has the results of
-- the calls of `recv` to come; `send_results` and `write_results` say which calls of `sendErr` and
-- `write` succeed, all after their ends.
pub record Rcopy : Type 0 where
  pub buffer_size : ℕ
  pub out_packet : Packet
  pub saved_packet : Packet
  pub status : Flags
  pub sequence : ℕ
  pub retries : ℕ
  pub written : List ℕ
  pub inbox : List (Option Packet)
  pub send_results : List Bool
  pub write_results : List Bool
  pub sent : List Packet

-- How an iteration ends: with the next one, with the end of `main`, or it waits in `recv` for a
-- packet that has not come yet.
pub data Turn : Type 0 where
  again waiting : Rcopy → Turn
  leave : ℕ → Rcopy → Turn

unfoldable pub send_err : List Bool → Rcopy → Rcopy
send_err [] c = record c { sent = c.sent ++ (c.out_packet ∷ []) }
send_err (true ∷ more) c = record c { send_results = more; sent = c.sent ++ (c.out_packet ∷ []) }
send_err (false ∷ more) c = record c { send_results = more }

-- `write(tofd, inpkt.data, inpkt.size)`: more bytes than `data` holds are read outside the packet.
-- A failure sets `QUIT`.
unfoldable pub write_bytes : List Bool → List ℕ → Rcopy → Rcopy
write_bytes [] bytes c = record c { written = c.written ++ bytes }
write_bytes (true ∷ more) bytes c = record c { write_results = more; written = c.written ++ bytes }
write_bytes (false ∷ more) bytes c = record c {
  write_results = more;
  status = record (c.status) { quit = true };
}

-- The packet that was on its way before a request for a retransmission.
unfoldable pub restore : ℕ → Rcopy → Rcopy
restore ret c = if c.out_packet.type == ret then record c { out_packet = c.saved_packet } else c

module _ (os : Platform) (missing : Missing) where
  -- The request for a file. A name of more bytes than `data` holds is copied outside the packet.
  unfoldable pub request : List ℕ → ℕ → Outcome Packet
  request name buffer_size =
      if ltb pkt_dmax (length name)
      then undefined
      else defined (
          seal os (record zero_packet {
            type = pkt_type_fln;
            size = buffer_size;
            payload = name ++ drop (length name) zero_packet.payload;
          }))

  -- The part under `TRANSMIT`, and whether it continues with the next iteration.
  unfoldable pub transmit_part : Rcopy → Rcopy × Bool
  unfolding send_err
  transmit_part c =
      if c.status.transmit
      then (if c.out_packet.type == missing.pkt_type_ack
          then (
            record (send_err c.send_results c) {
              status = record (c.status) {
                transmit = false;
                quit = c.status.quit || c.status.at_end;
              };
            },
            c.status.at_end,
          )
          else (
            record (send_err c.send_results c) {
              status = record (c.status) {
                transmit = false;
                receive = true;
                expect_ack = c.status.expect_ack || not (c.out_packet.type == missing.pkt_type_ret);
              };
            },
            false,
          ))
      else (c, false)

  -- A packet with a bad checksum: the current one is asked for again.
  unfoldable pub on_bad_checksum : Rcopy → Rcopy
  on_bad_checksum c = record c {
    saved_packet =
        if c.out_packet.type == missing.pkt_type_ret then c.saved_packet else c.out_packet;
    out_packet = retransmitpkt os c.sequence;
    status = record (c.status) { transmit = true };
  }

  unfoldable pub on_ack : Packet → Rcopy → Rcopy
  unfolding same_bytes
  on_ack p c =
      if c.status.expect_ack && same_bytes c.out_packet.payload p.payload
      then record c { status = record (c.status) { expect_ack = false }; retries = 0 }
      else c

  -- A data packet with the expected number, which was written.
  unfoldable pub on_written : Packet → Rcopy → Rcopy
  on_written p c = record c {
    sequence = (c.sequence + 1) % 2 ^ 32;
    out_packet = missing.ackpkt (record p { checksum = 0 });
    status = record (c.status) {
      transmit = true;
      at_end = c.status.at_end || ltb p.size c.buffer_size;
    };
  }

  unfoldable pub on_piece : Packet → Rcopy → Outcome Rcopy
  unfolding on_written write_bytes
  on_piece p c =
      if os.htonl c.sequence == p.sequence
      then (if ltb pkt_dmax p.size
          then undefined
          else defined (on_written p (write_bytes c.write_results (take p.size p.payload) c)))
      else defined (record c {
        out_packet = retransmitpkt os c.sequence;
        status = record (c.status) { transmit = true };
      })

  -- The `switch` on the type of a packet with a good checksum.
  unfoldable pub on_packet : Packet → Rcopy → Outcome Rcopy
  unfolding on_piece on_ack
  on_packet p c =
      if p.type == missing.pkt_type_ack
      then defined (on_ack p c)
      else if p.type == missing.pkt_type_ret
      then defined
          (record c { status = record (c.status) { transmit = true }; retries = c.retries + 1 })
      else if p.type == pkt_type_dat
      then on_piece p c
      else defined c

  unfoldable pub on_recv : List (Option Packet) → Rcopy → Outcome Turn
  unfolding on_packet on_bad_checksum restore
  on_recv [] c = defined (waiting c)
  on_recv (none ∷ more) c = defined (leave exit_failure (record c { inbox = more }))
  on_recv (some p ∷ more) c =
      if verifies os p
      then (on_packet p (restore missing.pkt_type_ret (record c { inbox = more })) >>= λ d.
          defined (again d))
      else defined (again (on_bad_checksum (record c { inbox = more })))

  -- One iteration of the loop.
  unfoldable pub rcopy_turn : Rcopy → Outcome Turn
  unfolding transmit_part on_recv
  rcopy_turn c =
      if leb pkt_trnsmax c.retries
      then defined (leave exit_success c)
      else let (d, continues) = transmit_part c in
        if continues then defined (again d) else on_recv d.inbox d

-- The states in which an iteration starts, after one in which `main` starts its loop.
pub data Reached (os : Platform) (missing : Missing) (c₀ : Rcopy) : Rcopy → Type 0 where
  start : Reached os missing c₀ c₀
  next :
      {c d : Rcopy}
      → Reached os missing c₀ c
      → rcopy_turn os missing c ≡ defined (again d)
      → Reached os missing c₀ d
