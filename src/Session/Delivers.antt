-- ===== src/Session/Delivers.antt =====
-- Go Back N (UDP): what a client receives of the child process with which it has shaken hands.
use cpe464_fileserver.Base.{
  ℕ, ◌+◌, ◌*◌, ◌-◌, ◌^◌, ◌≤◌, ◌<◌, ◌≡◌, ◌≢◌, refl, sym, subst, List, [], some, All, arith, length,
  defined, Returns,
}
use cpe464_fileserver.Platform.{Platform, IsFile}
use cpe464_fileserver.Packet.{pkt_dmax}
use cpe464_fileserver.Net.{Arrival}
use cpe464_fileserver.File.{IsStart}
use cpe464_fileserver.Client.{Client}
use cpe464_fileserver.Client.RecvPacket.{Delivers}
use cpe464_fileserver.Client.Run
use cpe464_fileserver.Client.Run.Delivery.{IsDelivered, loop_delivers, fresh_client}
use cpe464_fileserver.System.{IsFrom, pieces_arrive}
use cpe464_fileserver.Server.{Server}
use cpe464_fileserver.Server.Child.{child, child_fuel}
use cpe464_fileserver.Server.Window.Pieces.{IsServed}
use cpe464_fileserver.Session.Begins.{forked, child_session, starting, listening, run_begins}

module _ (os : Platform) where
  -- A client and the child process that was forked for it, from the handshake on. Pieces have 1 to
  -- 1400 bytes, windows 1 to 65535 packets; the file is shorter than 2^32 - 1 pieces, its name has no
  -- 0 byte, fits into a packet and can be opened; and the child has no time for numbers or offsets to
  -- reach 2^32. After the packets of the handshake anything arrives at the child, which ends in `d`;
  -- and after the replies of the handshake, of what arrives at the client, what has a good checksum
  -- are data packets that this child sent, in any order and any number of times. Then `Run` of the
  -- client, from INIT with an empty target, ends without undefined behaviour, the target holds a
  -- beginning of the file, and if `Run` returns 0 the whole file.
  pub session-Delivers :
      (content : List ℕ) (port fd top : ℕ) (c : Client) (l m : List Arrival) (d : Server)
      (status : ℕ)
      → 0 < c.buffer_size
      → c.buffer_size ≤ pkt_dmax
      → 0 < c.window_size
      → c.window_size < 2 ^ 16
      → length c.from_name + 1 ≤ pkt_dmax
      → All (λ byte. byte ≢ 0) c.from_name
      → os.open_rdonly c.from_name ≡ some fd
      → IsFile os fd content
      → length content < c.buffer_size * (2 ^ 32 - 1)
      → c.buffer_size * top < 2 ^ 32
      → child_fuel (forked os c.buffer_size c.window_size c.from_name m) * c.window_size ≤ top
      → child os (forked os c.buffer_size c.window_size c.from_name m) ≡ defined (d, status)
      → All (Delivers os (IsFrom d.net.sent)) l
      → c.written ≡ []
      → Returns
          (λ r. IsStart content r.0.written × (r.1 ≡ 0 → r.0.written ≡ content))
          (Run.run os (starting os c port l))
  session-Delivers content port fd top c l m d status pos fits wide small long name e f short room
        enough run arrives empty =
      subst (Returns (IsDelivered os content b pos fits short)) (sym (run_begins os c port l long))
        (loop_delivers os content b pos fits short (98 + 11 * length l) (listening os c port l) refl
          (fresh_client os content b (listening os c port l) refl empty refl
            (pieces_arrive os content b fits d.net.sent served_all l arrives))
          (omega arith))
    where
      b : ℕ
      b = c.buffer_size

      served_all : All (IsServed os content b) d.net.sent
      served_all = subst (Returns (λ r. All (IsServed os content b) r.0.net.sent)) run (
          child_session os content b c.window_size fd top c.from_name m pos fits wide small name e f
            room enough)
