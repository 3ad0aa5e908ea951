-- ===== src/Packet.antt =====
-- Go Back N (UDP)/packet.h and packet.c: the packet and the functions that build one.
pub mod Seal
use cpe464_fileserver.Base.{
  ℕ, ◌+◌, ◌*◌, ◌^◌, ◌<◌, ◌≡◌, Bool, List, [], ◌∷◌, Option, none, some, ◌==◌, if◌then◌else◌,
  replicate, length, ◌++◌, ◌/◌, ◌%◌,
}
use Prim.Native.String.{String}
use cpe464_fileserver.Platform.{Platform}

abbrev pub pkt_type_cxn : ℕ
pkt_type_cxn = 0xff

abbrev pub pkt_type_cxn2 : ℕ
pkt_type_cxn2 = 0xee

abbrev pub pkt_type_rr : ℕ
pkt_type_rr = 0xaa

abbrev pub pkt_type_rej : ℕ
pkt_type_rej = 0x55

abbrev pub pkt_type_buf : ℕ
pkt_type_buf = 0x99

abbrev pub pkt_type_fln : ℕ
pkt_type_fln = 0x33

abbrev pub pkt_type_dat : ℕ
pkt_type_dat = 0xbb

abbrev pub pkt_type_win : ℕ
pkt_type_win = 0xcc

abbrev pub pkt_dmax : ℕ
pkt_dmax = 1400

abbrev pub pkt_trnsmax : ℕ
pkt_trnsmax = 10

-- `struct packet`; `payload` is its array `data`.
pub record Packet : Type 0 where
  pub type : ℕ
  pub sequence : ℕ
  pub checksum : ℕ
  pub size : ℕ
  pub payload : List ℕ

-- An unsigned integer of two or four bytes, in the byte order of the host (little endian).
abbrev pub le16 : ℕ → List ℕ
le16 n = n % 256 ∷ (n / 256) % 256 ∷ []

abbrev pub le32 : ℕ → List ℕ
le32 n = n % 256 ∷ (n / 256) % 256 ∷ (n / 65536) % 256 ∷ (n / 16777216) % 256 ∷ []

-- The packed struct as it lies in memory, which is what is sent and what `in_cksum` sums up.
unfoldable pub bytes_of : Packet → List ℕ
bytes_of p = (p.type % 256) ∷ (le32 p.sequence ++ le16 p.checksum ++ le16 p.size ++ p.payload)

-- `struct packet p = { 0 }`
unfoldable pub zero_packet : Packet
zero_packet = record {
  type = 0;
  sequence = 0;
  checksum = 0;
  size = 0;
  payload = replicate pkt_dmax 0;
}

-- `memset(&p, v, sizeof(struct packet))`: each field is filled with the byte `v`.
unfoldable pub memset_packet : ℕ → Packet
memset_packet v = record {
  type = v;
  sequence = v * 0x01010101;
  checksum = v * 0x0101;
  size = v * 0x0101;
  payload = replicate pkt_dmax v;
}

unfoldable pub pkttypestr : ℕ → String
pkttypestr type =
    if type == pkt_type_cxn
    then "Connection Request"
    else if type == pkt_type_rr
    then "Receive Ready"
    else if type == pkt_type_rej
    then "Reject"
    else if type == pkt_type_buf
    then "Buffer Size"
    else if type == pkt_type_fln
    then "File Name"
    else if type == pkt_type_dat
    then "Data"
    else if type == pkt_type_win
    then "Window Size"
    else ""

module _ (os : Platform) where
  -- What `in_cksum` gives for the packet with its checksum field at 0.
  unfoldable pub checksum_of : Packet → ℕ
  checksum_of p = os.in_cksum (bytes_of (record p { checksum = 0 }))

  -- `p.checksum = 0; p.checksum = in_cksum(&p, sizeof(p));`
  unfoldable pub seal : Packet → Packet
  seal p = record p { checksum = checksum_of p }

  -- The test of a received packet: `ck = p.checksum; p.checksum = 0; in_cksum(&p, …) == ck`.
  unfoldable pub verifies : Packet → Bool
  verifies p = checksum_of p == p.checksum

  unfoldable pub retransmitpkt : ℕ → Packet
  retransmitpkt sequence = seal (record zero_packet {
    type = pkt_type_rej;
    sequence = os.htonl sequence;
    size = 0;
    payload = replicate pkt_dmax pkt_type_rej;
  })

  -- `none` is the null pointer. The payload is overwritten after the checksum was taken.
  unfoldable pub ackpkt : Option Packet → Packet
  ackpkt none = zero_packet
  ackpkt (some src) = record (seal (record src { type = pkt_type_rr })) {
    payload = replicate pkt_dmax pkt_type_rr;
  }

  unfoldable pub rrpkt : ℕ → Packet
  rrpkt sequence = seal (record (memset_packet pkt_type_rr) { sequence = sequence })

  unfoldable pub rejpkt : ℕ → Packet
  rejpkt sequence = seal (record (memset_packet pkt_type_rej) { sequence = sequence })
