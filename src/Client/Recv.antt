-- ===== src/Client/Recv.antt =====
-- Client.cpp, `recvPackets`: one round of the transfer.
pub mod Writes
pub mod Transfer
pub mod Grows
pub mod Stray
use cpe464_fileserver.Base.{
  ℕ, ◌+◌, ◌%◌, ◌^◌, Bool, true, false, ◌&&◌, if◌then◌else◌, ltb, leb, ◌==◌, Outcome, defined, ◌>>=◌,
}
use cpe464_fileserver.Platform.{Platform}
use cpe464_fileserver.Packet.{Packet, rrpkt, rejpkt, pkt_type_dat, pkt_trnsmax}
use cpe464_fileserver.Net.{Channel, send, Received, failed, rejected, accepted}
use cpe464_fileserver.Client.{Client, State, error, done, recv_packets, recv_packet, write_to}

-- The `sendtoErr` at the end of the method.
unfoldable pub reply : Packet → Client → State × Client
reply q c =
    let (ok, net) = send q c.net in
    if ok then (recv_packets, record c { net = net }) else (error, record c { net = net })

module _ (os : Platform) where
  -- After `writeTo` of the packet `p`.
  unfoldable pub after_write : Packet → Bool × Client → State × Client
  after_write p (false, c) = (error, c)
  after_write p (true, c) =
      if (p.type == pkt_type_dat) && ltb p.size c.buffer_size
      then (done, c)
      else reply (rrpkt os p.sequence) c

  -- The `default` branch: a packet with a good checksum.
  unfoldable pub accept : Packet → Client → Outcome (State × Client)
  unfolding after_write
  accept p c =
      if leb p.sequence c.sequence
      then (if p.sequence == c.sequence
          then (write_to p
                (record c { retries = pkt_trnsmax; sequence = (c.sequence + 1) % 2 ^ 32 })
              >>= λ r. defined (after_write p r))
          else defined (reply (rrpkt os p.sequence) (record c { retries = pkt_trnsmax })))
      else defined (reply (rejpkt os c.sequence) c)

  unfoldable pub answer : Received × ℕ × Channel → Client → Outcome (State × Client)
  unfolding accept
  answer (failed, retries, net) c = defined (error, record c { retries = retries; net = net })
  answer (rejected, retries, net) c =
      defined (reply (rejpkt os c.sequence) (record c { retries = retries; net = net }))
  answer (accepted p, retries, net) c = accept p (record c { retries = retries; net = net })

  unfoldable pub recv_round : Client → Outcome (State × Client)
  unfolding answer
  recv_round c = answer (recv_packet os c.retries c.net) c
