-- ===== src/Session/Completes.antt =====
-- Go Back N (UDP): a session without loss, as the client sees it.
use cpe464_fileserver.Base.{ℕ, ◌+◌, ◌*◌, ◌^◌, ◌≤◌, ◌<◌, List, ◌++◌, length, Returns}
use cpe464_fileserver.Platform.{Platform}
use cpe464_fileserver.Packet.{pkt_dmax}
use cpe464_fileserver.Client.{Client}
use cpe464_fileserver.Client.Init.Completes.{to_parent}
use cpe464_fileserver.Client.Run.{run}
use cpe464_fileserver.Client.Run.Completes.{carry, acknowledgments, carry-Reaches, Completed}
use cpe464_fileserver.Server.Init.Completes.{to_child}
use cpe464_fileserver.Session.Recovers.{empty_target, session_recovers}
use cpe464_fileserver.Session.Begins.{starting}

module _ (os : Platform) (content : List ℕ) where
  -- Let a file have `n` full pieces of the size that the client asks for, at most 1400 bytes, and one
  -- shorter piece, fewer than 2^32 in all, and let the file name fit into a packet. If the replies of
  -- the handshake and then the packets of all pieces arrive in order and no call fails, `Run` of the
  -- client, from INIT on, returns 0 with the whole file in its target, and has sent the handshake and
  -- then the RRs for the full pieces, in order.
  pub session_completes :
      (c : Client) (port n : ℕ) (fits : c.buffer_size ≤ pkt_dmax)
      → length c.from_name + 1 ≤ pkt_dmax
      → n + 1 < 2 ^ 32
      → c.buffer_size * n ≤ length content
      → length content < c.buffer_size * (n + 1)
      → Returns
          (Completed os content c.buffer_size fits n
            (to_parent os ++ to_child os c.buffer_size c.window_size c.from_name))
          (run os (starting os (empty_target c) port (carry os content c.buffer_size fits 0 n)))
  session_completes c port n fits name few lo hi =
      session_recovers os content c port n (carry os content c.buffer_size fits 0 n)
        (acknowledgments os content c.buffer_size fits 0 n) fits
        (carry-Reaches os content c.buffer_size fits 0 n 9) name few lo hi
