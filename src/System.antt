-- ===== src/System.antt =====
-- Go Back N (UDP): a child process of the server and a client over a network that loses, repeats,
-- reorders and damages packets.
use cpe464_fileserver.Base.{
  ℕ, ◌+◌, ◌*◌, ◌-◌, ◌^◌, ◌≤◌, ◌<◌, ◌≡◌, sym, subst, ◌⊎◌, inl, inr, List, [], ◌∷◌, length, All,
  defined, Returns,
}
use cpe464_fileserver.Platform.{Platform}
use cpe464_fileserver.Packet.{Packet, pkt_dmax, pkt_type_dat}
use cpe464_fileserver.File.{IsPiece, IsStart}
use cpe464_fileserver.Net.{Arrival}
use cpe464_fileserver.Client
use cpe464_fileserver.Client.{Client}
use cpe464_fileserver.Client.RecvPacket.{Delivers}
use cpe464_fileserver.Client.Run
use cpe464_fileserver.Client.Run.Delivery.{run_delivers, fresh_client}
use cpe464_fileserver.Server
use cpe464_fileserver.Server.{Server}
use cpe464_fileserver.Server.Child.{child, child_fuel}
use cpe464_fileserver.Server.Child.Serves.{child_serves}
use cpe464_fileserver.Server.Window.Pieces.{piece_packet-IsPiece, IsServed}
use cpe464_fileserver.Server.Window.Serving.{Sending}

-- `p` is one of the packets of the list.
abbrev pub Among : Packet → List Packet → Type 0
Among p [] = ⊥
Among p (q ∷ rest) = (p ≡ q) ⊎ Among p rest

All-Among : (P : Packet → Type 0) (l : List Packet) (p : Packet) → All P l → Among p l → P p
All-Among P [] p a m = absurd m
All-Among P (q ∷ l) p a (inl e) = subst P (sym e) a.0
All-Among P (q ∷ l) p a (inr m) = All-Among P l p a.1 m

-- What passes the checksum test is a data packet of those that were sent.
abbrev pub IsFrom : List Packet → Packet → Type 0
IsFrom sent p = (p.type ≡ pkt_type_dat) × Among p sent

module _ (os : Platform) (content : List ℕ) (b : ℕ) (fits : b ≤ pkt_dmax) where
  from_server :
      (sent : List Packet) (p : Packet)
      → All (IsServed os content b) sent
      → IsFrom sent p
      → IsPiece content b p
  from_server sent p served h =
      subst (IsPiece content b) (sym (All-Among (IsServed os content b) sent p served h.1 h.0))
        (piece_packet-IsPiece os content b p.sequence fits)

  pub pieces_arrive :
      (sent : List Packet)
      → All (IsServed os content b) sent
      → (l : List Arrival) → All (Delivers os (IsFrom sent)) l
      → All (Delivers os (IsPiece content b)) l
  pieces_arrive sent served [] a = tt
  pieces_arrive sent served (x ∷ l) a =
      (λ p e v. from_server sent p served (a.0 p e v), pieces_arrive sent served l a.1)

-- A child process serves a file, shorter than 2^32 - 1 pieces, in pieces of 1 to 1400 bytes and
-- windows of at least one packet, its numbers and offsets staying below 2^32, and ends in `d`. A client in RECV_PACKETS with sequence number 0, an empty
-- target and the same buffer size receives datagrams of which those with a good checksum are data
-- packets that this process sent: any of them, in any order and any number of times. Then the
-- client ends without undefined behaviour, its target holds a beginning of the file, and if it
-- returns 0 the whole file.
pub system-Delivers :
    (os : Platform) (content : List ℕ) (b top : ℕ) (s d : Server) (status : ℕ) (c : Client)
    → 0 < b
    → b ≤ pkt_dmax
    → s.state ≡ Server.fill_window
    → Sending os content b top s
    → 0 < s.window_size
    → s.sequence + child_fuel s * s.window_size ≤ top
    → child os s ≡ defined (d, status)
    → length content < b * (2 ^ 32 - 1)
    → c.state ≡ Client.recv_packets
    → c.sequence ≡ 0
    → c.written ≡ []
    → c.buffer_size ≡ b
    → All (Delivers os (IsFrom d.net.sent)) c.net.arrivals
    → Returns (λ r. IsStart content r.0.written × (r.1 ≡ 0 → r.0.written ≡ content)) (Run.run os c)
system-Delivers os content b top s d status c pos fits e t w h run short cs zero empty z arrive =
    run_delivers os content b pos fits short c cs (
      fresh_client os content b c zero empty z (
        pieces_arrive os content b fits d.net.sent
          (subst (Returns (λ r. All (IsServed os content b) r.0.net.sent)) run
            (child_serves os content b top pos fits s e t w h))
          c.net.arrivals arrive))
