-- ===== src/Session/Recovers.antt =====
-- Go Back N (UDP): a session in which packets of the transfer are lost, as the client sees it.
use cpe464_fileserver.Base.{
  ℕ, ◌+◌, ◌*◌, ◌^◌, ◌≤◌, ◌<◌, sym, subst, List, [], ◌++◌, arith, length, Returns,
}
use cpe464_fileserver.Platform.{Platform}
use cpe464_fileserver.Packet.{Packet, pkt_dmax, pkt_trnsmax}
use cpe464_fileserver.Net.{Arrival}
use cpe464_fileserver.Client.{Client}
use cpe464_fileserver.Client.Init.Completes.{to_parent}
use cpe464_fileserver.Client.Run.{run}
use cpe464_fileserver.Client.Run.Recovers.{Reaches, Recovered, transfer_recovers}
use cpe464_fileserver.Server.Init.Completes.{to_child}
use cpe464_fileserver.Session.Begins.{starting, listening, run_begins}

-- A client that has an empty target and whose calls of `write` succeed.
abbrev pub empty_target : Client → Client
empty_target c = record c { written = []; write_results = [] }

-- Let a file have `n` full pieces of the size that the client asks for, at most 1400 bytes, and one
-- shorter piece, fewer than 2^32 in all, and let the file name fit into a packet. If the replies of
-- the handshake arrive in order and then the pieces of the file in order and, among them, any number
-- of earlier and later pieces, of packets with a bad checksum and of timeouts, such that the retries
-- never run out, and no call fails, then `Run` of the client, from INIT on, returns 0 with the whole
-- file in its target; it has sent the handshake, and then an RR for each full piece that was due or
-- old and a REJ for the piece that was due for all else, up to the last piece.
pub session_recovers :
    (os : Platform) (content : List ℕ) (c : Client) (port n : ℕ) (l : List Arrival)
    (out : List Packet) (fits : c.buffer_size ≤ pkt_dmax)
    → Reaches os content c.buffer_size 0 n pkt_trnsmax l out
    → length c.from_name + 1 ≤ pkt_dmax
    → n + 1 < 2 ^ 32
    → c.buffer_size * n ≤ length content
    → length content < c.buffer_size * (n + 1)
    → Returns
        (Recovered os content c.buffer_size fits
          ((to_parent os ++ to_child os c.buffer_size c.window_size c.from_name) ++ out))
        (run os (starting os (empty_target c) port l))
session_recovers os content c port n l out fits s name few lo hi =
    subst (Returns (Recovered os content c.buffer_size fits (sent ++ out)))
      (sym (run_begins os (empty_target c) port l name))
      (transfer_recovers os content c.buffer_size fits (listening os (empty_target c) port l) n
        (98 + 11 * length l) sent s (omega arith) few lo hi)
  where
    sent : List Packet
    sent = to_parent os ++ to_child os c.buffer_size c.window_size c.from_name
