-- ===== src/Net.antt =====
-- Datagrams: select_call.c, and what `recvfrom` and `sendtoErr` do for the two programs.
pub mod Send
use cpe464_fileserver.Base.{ℕ, Bool, true, false, List, [], ◌∷◌, ◌++◌, Option, none, some}
use cpe464_fileserver.Packet.{Packet}

-- What `select(2)` returns: -1, or the number of ready descriptors.
pub data SelectResult : Type 0 where
  select_error : SelectResult
  ready : ℕ → SelectResult

-- An error counts as no socket ready: `select_call` stores 0 for -1, so that its `int` is never
-- negative.
unfoldable pub select_call : SelectResult → ℕ
select_call select_error = 0
select_call (ready n) = n

-- What happens at the socket while a program waits for it once: the result of `select`, and, should
-- `recvfrom` be called next, the buffer that it fills (`none` if it returns -1).
pub record Arrival : Type 0 where
  pub select : SelectResult
  pub datagram : Option Packet

-- One program's socket: what will arrive, whether the next calls of `sendtoErr` succeed (all calls
-- after the end of this list do), and the packets that were handed over, the oldest first.
pub record Channel : Type 0 where
  pub arrivals : List Arrival
  pub send_results : List Bool
  pub sent : List Packet

-- The arrival of a packet.
abbrev pub brings : Packet → Arrival
brings p = record { select = ready 1; datagram = some p }

-- The packets arrive before `l`.
abbrev pub arrive : List Packet → List Arrival → List Arrival
arrive [] l = l
arrive (p ∷ more) l = brings p ∷ arrive more l

-- Nothing arrives any more.
abbrev pub silence : Arrival
silence = record { select = ready 0; datagram = none }

next_of : List Arrival → Arrival × List Arrival
next_of [] = (silence, [])
next_of (a ∷ rest) = (a, rest)

unfoldable pub next_arrival : Channel → Arrival × Channel
unfolding next_of
next_arrival c = let (a, rest) = next_of c.arrivals in (a, record c { arrivals = rest })

send_by : List Bool → Packet → Channel → Bool × Channel
send_by [] p c = (true, record c { sent = c.sent ++ (p ∷ []) })
send_by (true ∷ more) p c = (true, record c { send_results = more; sent = c.sent ++ (p ∷ []) })
send_by (false ∷ more) p c = (false, record c { send_results = more })

-- `sendtoErr(sk, &p, sizeof(packet), …) != -1`
unfoldable pub send : Packet → Channel → Bool × Channel
unfolding send_by
send p c = send_by c.send_results p c

-- What `recvPacket` returns: 1 (the call failed), 2 (nothing came in time, or a bad checksum), or
-- 0 and the packet in `buf`. With 1 and 2 no caller reads `buf`.
pub data Received : Type 0 where
  failed rejected : Received
  accepted : Packet → Received
