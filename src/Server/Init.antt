-- ===== src/Server/Init.antt =====
-- Server.cpp, `init`: the file name, the buffer size and the window size.
pub mod Ends
pub mod Completes
use cpe464_fileserver.Base.{
  ℕ, zero, suc, ◌+◌, ◌*◌, ◌-◌, ◌%◌, ◌^◌, Bool, true, false, ◌&&◌, ◌||◌, not, List, [], ◌∷◌, Option,
  none, some, if◌then◌else◌, ltb, leb, ◌==◌, Outcome, defined, ◌>>=◌, undefined, unfinished, length,
}
use cpe464_fileserver.Platform.{Platform}
use cpe464_fileserver.Packet.{
  Packet, rrpkt, rejpkt, pkt_type_buf, pkt_type_win, pkt_type_fln, pkt_trnsmax,
}
use cpe464_fileserver.Net.{Channel, send, Received, failed, rejected, accepted}
use cpe464_fileserver.Server.{Server, State, error, fill_window, recv_packet}

-- `winszSet`, `bufszSet` and `fnSet`.
pub record Flags : Type 0 where
  pub window_set : Bool
  pub buffer_set : Bool
  pub name_set : Bool

-- Where a round of the loop leaves it: by `return`, or with new flags.
pub data Round : Type 0 where
  leave : State → Server → Round
  next : Flags → Server → Round

-- `mvFromName = (char *)inpkt.data`. Without a 0 in the payload the string runs out of the packet.
unfoldable pub c_string : List ℕ → Outcome (List ℕ)
c_string [] = undefined
c_string (byte ∷ rest) =
    let tail = c_string rest >>= λ s. defined (byte ∷ s) in if byte == 0 then defined [] else tail

-- The `switch` on the type of a packet with the expected number.
unfoldable pub apply_setting : Packet → Flags → Server → Outcome (Flags × Server)
unfolding c_string
apply_setting p f s =
    if p.type == pkt_type_buf
    then defined (record f { buffer_set = true }, record s { buffer_size = p.size })
    else if p.type == pkt_type_win
    then defined (record f { window_set = true }, record s { window_size = p.size })
    else if p.type == pkt_type_fln
    then (c_string p.payload >>= λ name.
        defined (record f { name_set = true }, record s { from_name = name }))
    else defined (f, s)

-- The `sendtoErr` at the end of a round.
unfoldable pub transmit : Packet → Flags → Server → Round
transmit q f s =
    let (ok, net) = send q s.net in
    if ok then next f (record s { net = net }) else leave error (record s { net = net })

-- Goes on with the rounds, unless one has returned.
unfoldable pub follow :
    (Flags → Server → Outcome (State × Server)) → Outcome Round → Outcome (State × Server)
follow loop undefined = undefined
follow loop unfinished = unfinished
follow loop (defined (leave st s)) = defined (st, s)
follow loop (defined (next f s)) = loop f s

-- Some setting is missing.
unfoldable pub wanting : Flags → Bool
wanting f = not f.window_set || not f.buffer_set || not f.name_set

abbrev pub no_flags : Flags
no_flags = record { window_set = false; buffer_set = false; name_set = false }

-- Every round takes an arrival or a retry: see `Server.Init.Ends`.
abbrev pub fuel_of : Server → ℕ
fuel_of s = s.retries + 11 * length s.net.arrivals + 1

module _ (os : Platform) where
  -- A packet with a good checksum.
  unfoldable pub take_setting : Packet → Flags → Server → Outcome Round
  unfolding apply_setting transmit
  take_setting p f s =
      if leb p.sequence s.sequence
      then (if p.sequence == s.sequence
          then (apply_setting p f
                (record s { retries = pkt_trnsmax; sequence = (s.sequence + 1) % 2 ^ 32 })
              >>= λ r. defined (transmit (rrpkt os s.sequence) r.0 r.1))
          else defined (transmit (rrpkt os s.sequence) f (record s { retries = pkt_trnsmax })))
      else defined (transmit (rejpkt os s.sequence) f (record s { retries = s.retries - 1 }))

  unfoldable pub respond : Received × ℕ × Channel → Flags → Server → Outcome Round
  unfolding take_setting
  respond (failed, retries, net) f s =
      defined (leave error (record s { retries = retries; net = net }))
  respond (rejected, retries, net) f s =
      defined (transmit (rejpkt os s.sequence) f (record s { retries = retries; net = net }))
  respond (accepted p, retries, net) f s =
      take_setting p f (record s { retries = retries; net = net })

  -- After the loop.
  unfoldable pub finish_init : Server → State × Server
  finish_init s = if s.retries == 0 then (error, s) else elim (os.open_rdonly s.from_name) [
    | none ↦ (error, s)
    | some fd ↦
        (fill_window, record s { from = fd; position = 0; sequence = 0; retries = pkt_trnsmax })
  ]

  -- The loop, on fuel.
  unfoldable pub init_loop : ℕ → Flags → Server → Outcome (State × Server)
  unfolding respond finish_init follow wanting
  init_loop zero f s = unfinished
  init_loop (suc fuel) f s = elim (wanting f && ltb 0 s.retries) [
    | false ↦ defined (finish_init s)
    | true ↦ follow (init_loop fuel) (respond (recv_packet os s.retries s.net) f s)
  ]

  unfoldable pub server_init : Server → Outcome (State × Server)
  unfolding init_loop
  server_init s = init_loop (fuel_of s) no_flags s
