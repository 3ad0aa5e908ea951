-- ===== src/Packet/Seal.antt =====
-- packet.c: which packets pass the receivers' checksum test.
use cpe464_fileserver.Base.{ℕ, ◌≡◌, arith, true}
use cpe464_fileserver.Platform.{Platform}
use cpe464_fileserver.Packet.{Packet, checksum_of, seal, verifies, retransmitpkt}

module _ (os : Platform) where
  pub verifies-seal : (p : Packet) → verifies os (seal os p) ≡ true
  unfolding verifies seal checksum_of
  verifies-seal p = ground arith

  pub retransmitpkt-verifies : (sequence : ℕ) → verifies os (retransmitpkt os sequence) ≡ true
  unfolding retransmitpkt
  retransmitpkt-verifies sequence = verifies-seal _
