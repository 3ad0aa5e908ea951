-- ===== src/StopAndWait/Comm/State.antt =====
-- Stop and Wait (TCP)/server.c, `client_comm`: its variables, and how a part of its loop ends.
use cpe464_fileserver.Base.{
  ℕ, ◌+◌, ◌%◌, ◌^◌, Bool, true, false, ◌&&◌, List, [], ◌∷◌, ◌++◌, Option, none, some, if◌then◌else◌,
  ◌==◌, Outcome, defined, undefined,
}
use cpe464_fileserver.Packet.{Packet, zero_packet}

-- What server.c uses and packet.h and packet.c of its directory do not define: `PKT_TYPE_ACK`,
-- `PKT_TYPE_RET`, and `ackpkt`, whose body breaks off (StopAndWait.Comm.Overwritten takes the complete
-- one of the other version). `heap_tail` is what follows the block with the file name in memory, which
-- has no 0 byte of its own, up to the next one.
pub record Missing : Type 0 where
  pub pkt_type_ack : ℕ
  pub pkt_type_ret : ℕ
  pub ackpkt : Packet → Packet
  pub heap_tail : List ℕ

-- The bits of `status`.
pub record Status : Type 0 where
  pub quit : Bool
  pub expect_ack : Bool
  pub expect_info : Bool
  pub info_init : Bool
  pub transmit : Bool
  pub receive : Bool
  pub next_data : Bool
  pub retransmit : Bool

-- The variables of `client_comm`. `from` is `none` before `fromfd` is set; `position` is the place
-- in the file at which it reads next. `inbox` has the results of the calls of `recv` to come: -1,
-- or what `inpkt` holds afterwards. `send_results` says which calls of `sendErr` succeed; all do
-- after its end. `fromlen` is never read.
pub record Comm : Type 0 where
  pub from : Option ℕ
  pub position : ℕ
  pub name : List ℕ
  pub buffer_size : ℕ
  pub out_packet : Packet
  pub saved_packet : Packet
  pub status : Status
  pub sequence : ℕ
  pub retries : ℕ
  pub offset : ℕ
  pub inbox : List (Option Packet)
  pub send_results : List Bool
  pub sent : List Packet

-- Where a piece of the loop's body leaves it: it goes on below, continues with the next iteration,
-- returns from the function, or waits in `recv` for a packet that has not come yet.
pub data Turn : Type 0 where
  below again waiting : Comm → Turn
  leave : ℕ → Comm → Turn

abbrev pub exit_success : ℕ
exit_success = 0

abbrev pub exit_failure : ℕ
exit_failure = 1

-- `close(fromfd)` and what comes after it.
unfoldable pub closing : Comm → Turn → Outcome Turn
closing c t = elim c.from [ none ↦ undefined | some fd ↦ defined t ]

-- `memcmp(…) == 0`
unfoldable pub same_bytes : List ℕ → List ℕ → Bool
same_bytes [] [] = true
same_bytes [] (y ∷ ys) = false
same_bytes (x ∷ xs) [] = false
same_bytes (x ∷ xs) (y ∷ ys) = (x == y) && same_bytes xs ys

unfoldable pub send_err : List Bool → Comm → Comm
send_err [] c = record c { sent = c.sent ++ (c.out_packet ∷ []) }
send_err (true ∷ more) c = record c { send_results = more; sent = c.sent ++ (c.out_packet ∷ []) }
send_err (false ∷ more) c = record c { send_results = more }

-- `offset += rd`, but not after a retransmission.
unfoldable pub add_offset : ℕ → Comm → Comm
add_offset n c = if c.status.retransmit then c else record c { offset = (c.offset + n) % 2 ^ 32 }

-- The packet that was on its way before a request for a retransmission.
unfoldable pub restore : ℕ → Comm → Comm
restore ret c = if c.out_packet.type == ret then record c { out_packet = c.saved_packet } else c

-- At the start of `client_comm`.
unfoldable pub comm_start : List (Option Packet) → List Bool → Comm
comm_start inbox send_results = record {
  from = none;
  position = 0;
  name = [];
  buffer_size = 0;
  out_packet = zero_packet;
  saved_packet = zero_packet;
  status = record {
    quit = false;
    expect_ack = false;
    expect_info = true;
    info_init = false;
    transmit = false;
    receive = true;
    next_data = false;
    retransmit = false;
  };
  sequence = 0;
  retries = 0;
  offset = 0;
  inbox = inbox;
  send_results = send_results;
  sent = [];
}
