-- ===== src/Tests/World.antt =====
-- A platform with one file of five bytes, read in pieces of two, a client and a server.
use cpe464_fileserver.Base.{
  ℕ, ◌+◌, ◌*◌, ◌/◌, ◌%◌, ◌^◌, ◌≡◌, refl, subst, true, List, [], ◌∷◌, some, none, arith, take, drop,
}
use cpe464_fileserver.Platform.{Platform, IsFile}
use cpe464_fileserver.Packet.{rrpkt}
use cpe464_fileserver.Net.{Arrival, Channel}
use cpe464_fileserver.File.{IsPiece}
use cpe464_fileserver.Client
use cpe464_fileserver.Client.{Client}
use cpe464_fileserver.Client.RecvPacket.{Delivers}
use cpe464_fileserver.Net.{brings}
use cpe464_fileserver.Server
use cpe464_fileserver.Server.{Server}
use cpe464_fileserver.Server.Window.Pieces.{piece_packet, pieces, piece_packet-IsPiece}
use cpe464_fileserver.Server.Window.Serving.{Sending}

unfoldable pub total : List ℕ → ℕ
total [] = 0
total (x ∷ xs) = x + total xs

abbrev pub five : List ℕ
five = 11 ∷ 12 ∷ 13 ∷ 14 ∷ 15 ∷ []

-- The checksum is the sum of the bytes; byte orders are swapped; the one file has descriptor 3 and
-- is opened by any name but the empty one.
abbrev pub toy : Platform
toy = record {
  in_cksum = λ bytes. total bytes % 2 ^ 16;
  htons = λ n. n % 256 * 256 + n / 256;
  htonl = λ n. n;
  ntohl = λ n. n;
  open_rdonly = λ name. elim name [ [] ↦ none | _ ↦ some 3 ];
  read_at = λ fd at n. some (take n (drop at five));
  lseek_set = λ fd at. true;
}

pub toy-IsFile : IsFile toy 3 five
toy-IsFile = record { reads = λ at n. refl; seeks = λ at. refl }

abbrev pub piece_at : ℕ → Arrival
piece_at q = brings (piece_packet toy five 2 q)

pub piece_at-Delivers : (q : ℕ) → Delivers toy (IsPiece five 2) (piece_at q)
piece_at-Delivers q p e v =
    let same : piece_packet toy five 2 q ≡ p = cc in
    subst (IsPiece five 2) same (piece_packet-IsPiece toy five 2 q (omega arith))

-- Pieces arrive twice, early and late.
abbrev pub shuffled : Channel
shuffled = record {
  arrivals = piece_at 0 ∷ piece_at 0 ∷ piece_at 2 ∷ piece_at 1 ∷ piece_at 2 ∷ [];
  send_results = [];
  sent = [];
}

-- One answer, and then nothing.
abbrev pub answered : Channel
answered = record { arrivals = brings (rrpkt toy 1) ∷ []; send_results = []; sent = [] }

abbrev pub receiver : Client
receiver = record {
  from_name = 97 ∷ [];
  buffer_size = 2;
  window_size = 2;
  remote_port = 7;
  peer = 7;
  retries = 10;
  sequence = 0;
  state = Client.recv_packets;
  written = [];
  socket_results = [];
  write_results = [];
  net = shuffled;
}

abbrev pub sender : Server
sender = record {
  from = 3;
  position = 0;
  from_name = 97 ∷ [];
  buffer_size = 2;
  window_size = 2;
  window = [];
  out_buf = [];
  sequence = 0;
  retries = 10;
  state = Server.fill_window;
  net = answered;
}

pub sender-Sending : Sending toy five 2 300 sender
unfolding pieces
sender-Sending = record {
  file = toy-IsFile;
  buffer = refl;
  at = refl;
  base = 0;
  count = 0;
  window = refl;
  ends = refl;
  out = tt;
  sent = tt;
  within = omega arith;
  room = omega arith;
}
