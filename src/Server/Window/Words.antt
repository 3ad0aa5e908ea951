-- ===== src/Server/Window/Words.antt =====
-- Server.cpp, `recvPacket`: what the client says by the packets that arrive.
use cpe464_fileserver.Base.{
  ℕ, ◌-◌, ◌≡◌, refl, Bool, true, false, List, [], ◌∷◌, ◌++◌, Option, none, some, ◌==◌, leb,
  if◌then◌else◌,
}
use cpe464_fileserver.Platform.{Platform}
use cpe464_fileserver.Packet.{Packet, verifies, pkt_type_rr, pkt_type_rej, pkt_trnsmax}
use cpe464_fileserver.Net.{
  Arrival, Channel, Received, failed, rejected, accepted, select_call, next_arrival,
}
use cpe464_fileserver.Server.{recv_packet, receive}
use cpe464_fileserver.Server.Window.Spec.{Word, has, asks}

unfoldable pub word : Packet → List Word
word p =
    if p.type == pkt_type_rr
    then has p.sequence ∷ []
    else if p.type == pkt_type_rej
    then asks p.sequence ∷ []
    else []

unfoldable pub accepted_word : Received → List Word
accepted_word failed = []
accepted_word rejected = []
accepted_word (accepted p) = word p

module _ (os : Platform) where
  in_buffer : Option Packet → List Word
  in_buffer none = []
  in_buffer (some p) = if verifies os p then word p else []

  -- What is said by all that arrives: the RRs and REJs with a good checksum.
  unfoldable pub said : List Arrival → List Word
  unfolding in_buffer
  said [] = []
  said (a ∷ l) = (if leb (select_call a.select) 0 then [] else in_buffer a.datagram) ++ said l

  received-said :
      (d : Option Packet) (net : Channel)
      → in_buffer d ++ said net.arrivals
        ≡ accepted_word (receive os d pkt_trnsmax net).0
          ++ said (receive os d pkt_trnsmax net).2.arrivals
  unfolding in_buffer accepted_word receive
  received-said none net = refl
  received-said (some p) net = good (verifies os p)
    where
      good :
          (t : Bool)
          → let x : Received × ℕ × Channel =
              if t then (accepted p, pkt_trnsmax, net) else (rejected, 9, net) in
            (if t then word p else []) ++ said net.arrivals ≡ accepted_word x.0 ++ said x.2.arrivals
      good true = refl
      good false = refl

  -- The next arrival `a`, with `net` after it.
  arrival-said :
      (a : Arrival) (retries : ℕ) (net : Channel) (t : Bool)
      → let x : Received × ℕ × Channel =
          if t then (rejected, retries - 1, net) else receive os a.datagram pkt_trnsmax net in
        (if t then [] else in_buffer a.datagram) ++ said net.arrivals
        ≡ accepted_word x.0 ++ said x.2.arrivals
  unfolding accepted_word
  arrival-said a retries net true = refl
  arrival-said a retries net false = received-said a.datagram net

  arrivals-said :
      (l : List Arrival) (retries : ℕ) (sends : List Bool) (sent : List Packet)
      → let net : Channel = record { arrivals = l; send_results = sends; sent = sent } in
        said net.arrivals
        ≡ accepted_word (recv_packet os retries net).0
          ++ said (recv_packet os retries net).2.arrivals
  unfolding said accepted_word recv_packet next_arrival select_call
  arrivals-said [] retries sends sent = refl
  arrivals-said (a ∷ l) retries sends sent =
      arrival-said a retries (record { arrivals = l; send_results = sends; sent = sent })
        (leb (select_call a.select) 0)

  -- `recvPacket` takes the next word off, if the next arrival is one.
  pub recv_packet-said :
      (retries : ℕ) (net : Channel)
      → said net.arrivals
        ≡ accepted_word (recv_packet os retries net).0
          ++ said (recv_packet os retries net).2.arrivals
  recv_packet-said retries net = arrivals-said net.arrivals retries net.send_results net.sent
