-- ===== src/Client/Init.antt =====
-- Client.cpp, `init`: the five packets of the handshake and the loop that sends them.
pub mod Rounds
pub mod Ends
pub mod Completes
use cpe464_fileserver.Base.{
  ℕ, zero, suc, ◌+◌, ◌*◌, ◌-◌, ◌%◌, ◌^◌, true, false, ◌&&◌, List, [], ◌∷◌, ◌++◌, Option, none, some,
  if◌then◌else◌, ltb, leb, ◌==◌, Outcome, defined, ◌>>=◌, undefined, unfinished, get_elem?, length,
  replicate,
}
use cpe464_fileserver.Platform.{Platform}
use cpe464_fileserver.Packet.{
  Packet, seal, memset_packet, pkt_type_cxn, pkt_type_cxn2, pkt_type_buf, pkt_type_win,
  pkt_type_fln, pkt_type_rr, pkt_type_rej, pkt_trnsmax, pkt_dmax,
}
use cpe464_fileserver.Net.{Channel, send, Received, failed, rejected, accepted}
use cpe464_fileserver.Client.{Client, State, error, recv_packets, recv_packet, get_socket}

-- Where a round of the loop leaves it: by `return`, or with the next value of `i`. The port that
-- `GetSocket` put into `addr` is `none` before it was called.
pub data Round : Type 0 where
  leave : State → Client → Round
  next : ℕ → Option ℕ → Client → Round

-- Every round takes an arrival or a retry: see `Client.Init.Ends`.
abbrev pub fuel_of : Client → ℕ
fuel_of c = c.retries + 11 * length c.net.arrivals + 1

-- After `GetSocket` for the new port.
with_socket : ℕ → Option ℕ × Client → Round
with_socket i (none, c) = leave error c
with_socket i (some address, c) = next (i + 1) (some address) c

-- Goes on with the rounds, unless one has returned.
unfoldable pub follow :
    (ℕ → Option ℕ → Client → Outcome (State × Client)) → Outcome Round → Outcome (State × Client)
follow loop undefined = undefined
follow loop unfinished = unfinished
follow loop (defined (leave s c)) = defined (s, c)
follow loop (defined (next i address c)) = loop i address c

-- After the loop.
unfoldable pub finish_init : Client → State × Client
finish_init c =
    if c.retries == 0
    then (error, c)
    else (recv_packets, record c { sequence = 0; retries = pkt_trnsmax })

module _ (os : Platform) where
  -- The five packets of the handshake.
  unfoldable pub connection_packet : Packet
  connection_packet = seal os (record (memset_packet pkt_type_cxn) { sequence = 0 })

  unfoldable pub stage_packet : Packet
  stage_packet = seal os (record (memset_packet pkt_type_cxn2) { sequence = 1 })

  unfoldable pub buffer_packet : ℕ → Packet
  buffer_packet size =
      seal os (record (memset_packet pkt_type_buf) { size = size % 2 ^ 16; sequence = 2 })

  unfoldable pub window_packet : ℕ → Packet
  window_packet size =
      seal os (record (memset_packet pkt_type_win) { size = size % 2 ^ 16; sequence = 3 })

  unfoldable pub name_packet : List ℕ → Packet
  name_packet name = seal os (record (memset_packet pkt_type_fln) {
    payload = name ++ (0 ∷ replicate (pkt_dmax - (length name + 1)) pkt_type_fln);
    sequence = 4;
  })

  -- The array `pkt`. A name that does not fit is copied past its packet.
  unfoldable pub handshake : Client → Outcome (List Packet)
  unfolding name_packet connection_packet stage_packet buffer_packet window_packet
  handshake c =
      if ltb pkt_dmax (length c.from_name + 1)
      then undefined
      else defined (
          connection_packet
          ∷ stage_packet
          ∷ buffer_packet c.buffer_size
          ∷ window_packet c.window_size
          ∷ name_packet c.from_name
          ∷ [])

  -- An RR for the connection request: the server's new port.
  connect : ℕ → Packet → Client → Round
  unfolding with_socket
  connect i p c = with_socket i (get_socket os (record c { remote_port = p.size }))

  -- An RR for the second stage: from here on the client talks to the new port.
  switch_peer : ℕ → Option ℕ → Client → Outcome Round
  switch_peer i none c = undefined
  switch_peer i (some address) c =
      defined (next (i + 1) (some address) (record c { peer = address }))

  -- The `switch` on the type of the reply `p` to the packet `pkt[i]`.
  unfoldable pub on_reply : ℕ → Packet → Option ℕ → Packet → Client → Outcome Round
  unfolding connect switch_peer
  on_reply i pkt address p c =
      if p.type == pkt_type_rr
      then (if p.sequence == i
          then (if pkt.type == pkt_type_cxn
              then defined (connect i p c)
              else if pkt.type == pkt_type_cxn2
              then switch_peer i address c
              else defined (next (i + 1) address c))
          else defined (next i address c))
      else if p.type == pkt_type_rej
      then (if leb p.sequence i
          then defined (next p.sequence address c)
          else defined (next (i + 1) address c))
      else defined (next (i + 1) address c)

  unfoldable pub after_send :
      ℕ → Packet → Option ℕ → Received × ℕ × Channel → Client → Outcome Round
  unfolding on_reply
  after_send i pkt address (failed, retries, net) c =
      defined (leave error (record c { retries = retries; net = net }))
  after_send i pkt address (rejected, retries, net) c =
      defined (next i address (record c { retries = retries; net = net }))
  after_send i pkt address (accepted p, retries, net) c =
      on_reply i pkt address p (record c { retries = pkt_trnsmax; net = net })

  unfoldable pub send_step : ℕ → Option Packet → Option ℕ → Client → Outcome Round
  unfolding after_send
  send_step i none address c = undefined
  send_step i (some pkt) address c =
      let (ok, net) = send pkt c.net in
      if ok
      then after_send i pkt address (recv_packet os c.retries net) c
      else defined (leave error (record c { net = net }))

  -- The loop, on fuel.
  unfoldable pub init_loop : ℕ → List Packet → ℕ → Option ℕ → Client → Outcome (State × Client)
  unfolding send_step finish_init follow
  init_loop zero pkts i address c = unfinished
  init_loop (suc fuel) pkts i address c = elim (ltb i 5 && ltb 0 c.retries) [
    | false ↦ defined (finish_init c)
    | true ↦ follow (init_loop fuel pkts) (send_step i (get_elem? pkts i) address c)
  ]

  unfoldable pub client_init : Client → Outcome (State × Client)
  unfolding handshake init_loop
  client_init c = handshake c >>= λ pkts. init_loop (fuel_of c) pkts 0 none c
