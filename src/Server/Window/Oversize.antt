-- ===== src/Server/Window/Oversize.antt =====
-- Server.cpp, `fillWindow`: buffer sizes above the capacity of a packet.
use cpe464_fileserver.Base.{
  ℕ, zero, suc, ◌-◌, ◌<◌, ◌≡◌, List, arith, length, drop, take, length-take, ltb, true, undefined,
}
use cpe464_fileserver.Platform.{Platform, IsFile}
use cpe464_fileserver.Packet.{pkt_dmax}
use cpe464_fileserver.Server.{Server}
use cpe464_fileserver.Server.Window.{fill_one, fill_loop, fill_round}

-- A client may ask for more bytes to a packet than the array `data` has. If as many are left in the
-- file and the window has room, `fillWindow` has `read` write past the array: its outcome is
-- undefined.
pub oversize_overflows :
    (os : Platform) (content : List ℕ) (s : Server)
    → IsFile os s.from content
    → pkt_dmax < s.buffer_size
    → pkt_dmax < length (drop s.position content)
    → length s.window < s.window_size
    → fill_round os s ≡ undefined
unfolding fill_round fill_one
oversize_overflows os content s f h l w = rounds (s.window_size - length s.window) (omega arith)
  where
    long : ltb pkt_dmax (length (take s.buffer_size (drop s.position content))) ≡ true
    long = ground (arith, length-take s.buffer_size (drop s.position content))

    rounds : (n : ℕ) → 0 < n → fill_loop os n s ≡ undefined
    rounds zero p = absurd (omega arith)
    rounds (suc n) p = rw (fill_loop, fill_one, f.reads s.position s.buffer_size, long)
