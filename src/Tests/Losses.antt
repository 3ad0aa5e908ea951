-- ===== src/Tests/Losses.antt =====
-- The theorems on transfers with losses, applied.
use cpe464_fileserver.Base.{
  ◌≡◌, refl, List, [], ◌∷◌, ◌++◌, arith, some, true, false, replicate, Returns,
}
use cpe464_fileserver.Packet.{
  Packet, zero_packet, verifies, checksum_of, bytes_of, rrpkt, rejpkt, pkt_trnsmax,
}
use cpe464_fileserver.Net.{Arrival, brings, silence, select_call}
use cpe464_fileserver.Client.Init.Completes.{to_parent}
use cpe464_fileserver.Client.Run.{run}
use cpe464_fileserver.Client.Run.Recovers.{
  Reaches, last, due, old, early, damaged, timeout, Recovered,
}
use cpe464_fileserver.CommandLine.{rcopy_main}
use cpe464_fileserver.CommandLine.Completes.{answers, rcopy_main_recovers}
use cpe464_fileserver.Server.Init.Completes.{to_child, child_replies}
use cpe464_fileserver.Server.Child.{child}
use cpe464_fileserver.Server.Child.Hears.{Hears, advance, repeat, back, over}
use cpe464_fileserver.Server.Window.Pieces.{pieces}
use cpe464_fileserver.Session.Begins.{starting, forked}
use cpe464_fileserver.Session.Recovers.{empty_target, session_recovers}
use cpe464_fileserver.Session.Repeats.{GivesUp, child_recovers}
use cpe464_fileserver.Tests.World.{total, toy, five, piece_at, receiver, toy-IsFile}

-- A packet with a bad checksum.
abbrev broken : Packet
broken = record zero_packet { checksum = 1 }

broken_fails : verifies toy broken ≡ false
unfolding verifies checksum_of bytes_of zero_packet replicate total
broken_fails = refl

-- The last piece comes first, the first one twice, and then a timeout and a damaged packet.
abbrev stormy : List Arrival
stormy =
    piece_at 2
    ∷ piece_at 0
    ∷ piece_at 0
    ∷ silence
    ∷ brings broken
    ∷ piece_at 1
    ∷ piece_at 2
    ∷ piece_at 0
    ∷ []

abbrev complaints : List Packet
complaints =
    rejpkt toy 0 ∷ rrpkt toy 0 ∷ rrpkt toy 0 ∷ rejpkt toy 1 ∷ rejpkt toy 1 ∷ rrpkt toy 1 ∷ []

stormy-Reaches : Reaches toy five 2 0 2 pkt_trnsmax stormy complaints
unfolding select_call
stormy-Reaches = early 0 2 9 2 (omega arith) (
    due 0 1 9 (
      old 1 1 9 0 (omega arith) (
        timeout 1 1 9 silence refl
          (damaged 1 1 8 broken broken_fails (due 1 0 8 (last 2 9 (piece_at 0 ∷ [])))))))

session_recovers_example :
    Returns
      (Recovered toy five 2
        (omega arith)
        ((to_parent toy ++ to_child toy 2 2 (97 ∷ [])) ++ complaints))
      (run toy (starting toy (empty_target receiver) 80 stormy))
session_recovers_example =
    session_recovers toy five receiver 80 2 stormy complaints (omega arith) stormy-Reaches
      (omega arith) (omega arith) (omega arith) (omega arith)

rcopy_main_recovers_example :
    Returns
      (λ r. (r.0 ≡ 0) × (r.1 ≡ some five))
      (rcopy_main toy 8 (97 ∷ []) 2 2 7 true [] [] (answers toy 80 stormy))
rcopy_main_recovers_example =
    rcopy_main_recovers toy five (97 ∷ []) 2 2 7 80 2 stormy complaints (omega arith) stormy-Reaches
      (omega arith) (omega arith) (omega arith) (omega arith)

-- The RR for the first piece comes twice, then the two windows are asked for again, and then a
-- damaged packet and a timeout.
abbrev demands : List Arrival
demands =
    brings (rrpkt toy 0)
    ∷ brings (rrpkt toy 0)
    ∷ brings (rejpkt toy 1)
    ∷ brings (rejpkt toy 0)
    ∷ brings broken
    ∷ silence
    ∷ []

abbrev resent : List Packet
resent = pieces toy five 2 2 1 ++ (pieces toy five 2 1 2 ++ (pieces toy five 2 0 2 ++ []))

demands-Hears : Hears toy five 2 2 0 pkt_trnsmax demands 0 resent
unfolding select_call
demands-Hears = advance 0 9 0 (omega arith) (omega arith) (omega arith) (
    Hears.stale 1 9 0 (omega arith) (
      repeat 1 9 1 (omega arith) (
        back 1 9 0 (omega arith) (omega arith) (omega arith)
          (Hears.damaged 0 9 broken broken_fails (Hears.timeout 0 8 silence refl (over 0 8))))))

child_recovers_example :
    Returns
      (GivesUp (child_replies toy ++ (pieces toy five 2 0 2 ++ resent)))
      (child toy (forked toy 2 2 (97 ∷ []) demands))
child_recovers_example =
    child_recovers toy five 2 (omega arith) 2 3 0 (97 ∷ []) demands resent demands-Hears
      (omega arith) (omega arith) ((λ e. omega arith), tt) refl toy-IsFile
