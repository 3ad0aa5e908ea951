-- ===== src/Server/Window.antt =====
-- Server.cpp, `fillWindow`, `sendWindow` and `waitRR`: the sliding window.
pub mod Pieces
pub mod Oversize
pub mod Serving
pub mod Waiting
pub mod Spec
pub mod Words
pub mod Lossless
pub mod Shows
pub mod Refines
pub mod Answers
use cpe464_fileserver.Base.{
  ℕ, zero, suc, ◌+◌, ◌*◌, ◌-◌, ◌%◌, ◌^◌, Bool, true, false, ◌||◌, List, [], ◌∷◌, ◌++◌, Option, none,
  some, if◌then◌else◌, ltb, leb, ◌==◌, Outcome, defined, ◌>>=◌, undefined, unfinished, length,
  replicate,
}
use cpe464_fileserver.Platform.{Platform}
use cpe464_fileserver.Packet.{
  Packet, seal, zero_packet, pkt_type_dat, pkt_type_rr, pkt_type_rej, pkt_trnsmax, pkt_dmax,
}
use cpe464_fileserver.Net.{Channel, send, Received, failed, rejected, accepted}
use cpe464_fileserver.Server.{Server, State, error, fill_window, send_window, wait_rr, recv_packet}

-- The pops of the loop over `i`, which counts from the number of the front packet.
unfoldable pub slide : ℕ → ℕ → List Packet → List Packet
slide i sequence [] = []
slide i sequence (p ∷ window) =
    let rest = slide ((i + 1) % 2 ^ 32) sequence window in
    if leb i sequence then rest else p ∷ window

-- The loop of `sendWindow`.
unfoldable pub send_all : List Packet → Server → State × Server
send_all [] s = (wait_rr, record s { out_buf = [] })
send_all (p ∷ more) s =
    let (ok, net) = send p s.net in
    let rest = send_all more (record s { net = net }) in
    if ok then rest else (error, record s { out_buf = p ∷ more; net = net })

unfoldable pub send_round : Server → State × Server
unfolding send_all
send_round s = send_all s.out_buf s

-- Goes on with the rounds, unless `read` failed in the state `s`.
unfoldable pub filled :
    Server → (Server → Outcome (State × Server)) → Option Server → Outcome (State × Server)
filled s loop none = defined (error, s)
filled s loop (some s') = loop s'

module _ (os : Platform) where
  -- The packet that carries the bytes of one `read`.
  unfoldable pub data_packet : ℕ → List ℕ → Packet
  data_packet sequence bytes = seal os (record zero_packet {
    type = pkt_type_dat;
    sequence = sequence;
    size = length bytes % 2 ^ 16;
    payload = bytes ++ replicate (pkt_dmax - length bytes) 0;
  })

  -- After a `read` that succeeded.
  unfoldable pub push_piece : List ℕ → Server → Server
  push_piece bytes s = record s {
    sequence = (s.sequence + 1) % 2 ^ 32;
    position = s.position + length bytes;
    window = s.window ++ (data_packet s.sequence bytes ∷ []);
    out_buf = s.out_buf ++ (data_packet s.sequence bytes ∷ []);
  }

  -- One round of the loop of `fillWindow`; `none` if `read` fails. A `read` of more bytes than
  -- `data` holds writes outside the packet.
  unfoldable pub fill_one : Server → Outcome (Option Server)
  unfolding push_piece
  fill_one s = elim (os.read_at s.from s.position s.buffer_size) [
    | none ↦ defined none
    | some bytes ↦
        if ltb pkt_dmax (length bytes) then undefined else defined (some (push_piece bytes s))
  ]

  -- The loop of `fillWindow`, by the rounds left: each round adds a packet to the window, so there
  -- are as many as the window lacks.
  unfoldable pub fill_loop : ℕ → Server → Outcome (State × Server)
  unfolding fill_one filled
  fill_loop zero s = defined (send_window, s)
  fill_loop (suc rounds) s = fill_one s >>= filled s (fill_loop rounds)

  unfoldable pub fill_round : Server → Outcome (State × Server)
  unfolding fill_loop
  fill_round s = fill_loop (s.window_size - length s.window) s

  -- A REJ for a packet before the window: read on from there.
  unfoldable pub rewind : ℕ → Server → State × Server
  rewind sequence s =
      if os.lseek_set s.from ((s.buffer_size * sequence) % 2 ^ 32)
      then (
        fill_window,
        record s {
          sequence = sequence;
          position = (s.buffer_size * sequence) % 2 ^ 32;
          out_buf = [];
          window = [];
        },
      )
      else (error, record s { sequence = sequence })

  -- The `switch` on the type of a packet with a good checksum; `front` is the window's front.
  unfoldable pub on_packet : Packet → Packet → Server → State × Server
  unfolding slide rewind
  on_packet p front s =
      if p.type == pkt_type_rr
      then (if leb front.sequence p.sequence
          then (
            fill_window,
            record s { window = slide front.sequence p.sequence s.window; retries = pkt_trnsmax },
          )
          else (wait_rr, s))
      else if p.type == pkt_type_rej
      then (if leb front.sequence p.sequence
          then (fill_window, record s { out_buf = s.window })
          else rewind p.sequence s)
      else (wait_rr, s)

  -- The front of an empty window is read only for the two types that look at it.
  unfoldable pub at_front : Packet → List Packet → Server → Outcome (State × Server)
  unfolding on_packet
  at_front p [] s =
      if (p.type == pkt_type_rr) || (p.type == pkt_type_rej)
      then undefined
      else defined (wait_rr, s)
  at_front p (front ∷ rest) s = defined (on_packet p front s)

  unfoldable pub on_received : Received × ℕ × Channel → Server → Outcome (State × Server)
  unfolding at_front
  on_received (failed, retries, net) s = defined (error, record s { retries = retries; net = net })
  on_received (rejected, retries, net) s =
      defined (fill_window, record s { retries = retries; net = net })
  on_received (accepted p, retries, net) s =
      at_front p s.window (record s { retries = retries; net = net })

  unfoldable pub wait_round : Server → Outcome (State × Server)
  unfolding on_received
  wait_round s = on_received (recv_packet os s.retries s.net) s
