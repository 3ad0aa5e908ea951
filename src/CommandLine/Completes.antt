-- ===== src/CommandLine/Completes.antt =====
-- Go Back N (UDP)/rcopy.cpp: the client's `main` and the whole file.
use cpe464_fileserver.Base.{
  ℕ, ◌+◌, ◌*◌, ◌%◌, ◌^◌, ◌≤◌, ◌<◌, ◌≡◌, refl, subst, ap, true, List, [], ◌++◌, some, Option, arith,
  length, Outcome, defined, ◌>>=◌, Returns, Returns->>=,
}
use cpe464_fileserver.Platform.{Platform}
use cpe464_fileserver.Packet.{Packet, pkt_dmax, pkt_trnsmax}
use cpe464_fileserver.Net.{Channel, Arrival, arrive}
use cpe464_fileserver.Client
use cpe464_fileserver.Client.{Client, construct, get_socket}
use cpe464_fileserver.Client.Init.Completes.{to_parent, parent_replies}
use cpe464_fileserver.Client.Run.{run}
use cpe464_fileserver.Client.Run.Completes.{carry, acknowledgments, carry-Reaches}
use cpe464_fileserver.Client.Run.Recovers.{Reaches, Recovered}
use cpe464_fileserver.CommandLine.{num_args, rcopy_main}
use cpe464_fileserver.Server.Init.Completes.{to_child, child_replies}
use cpe464_fileserver.Session.Recovers.{session_recovers}

-- What arrives at the client in a session without loss.
abbrev pub answers : Platform → ℕ → List Arrival → Channel
answers os port l = record {
  arrivals = arrive (parent_replies os port ++ child_replies os) l;
  send_results = [];
  sent = [];
}

module _ (os : Platform) (content : List ℕ) where
  -- The client that `main` makes of its arguments.
  abbrev made : List ℕ → ℕ → ℕ → ℕ → Channel → Client
  made from b w port net = record {
    from_name = from;
    buffer_size = b;
    window_size = w % 2 ^ 32;
    remote_port = port % 2 ^ 16;
    peer = os.htons (port % 2 ^ 16);
    retries = pkt_trnsmax;
    sequence = 0;
    state = Client.init;
    written = [];
    socket_results = [];
    write_results = [];
    net = net;
  }

  -- If the target can be created, no call fails, the replies of the handshake arrive in order and
  -- then the `n` full pieces of the file and the shorter last one in order and, among them, any
  -- number of earlier and later pieces, of packets with a bad checksum and of timeouts, such that the
  -- retries never run out, then `main` with eight arguments ends with status 0 and leaves the whole
  -- file in the target. Pieces have at most 1400 bytes, there are fewer than 2^32, and the file name
  -- fits into a packet.
  pub rcopy_main_recovers :
      (from : List ℕ) (b w port server_port n : ℕ) (l : List Arrival) (out : List Packet)
      (fits : b ≤ pkt_dmax)
      → Reaches os content b 0 n pkt_trnsmax l out
      → length from + 1 ≤ pkt_dmax
      → n + 1 < 2 ^ 32
      → b * n ≤ length content
      → length content < b * (n + 1)
      → Returns
          (λ r. (r.0 ≡ 0) × (r.1 ≡ some content))
          (rcopy_main os num_args from b w port true [] [] (answers os server_port l))
  unfolding rcopy_main construct get_socket
  rcopy_main_recovers from b w port server_port n l out fits s name few lo hi =
      subst (Returns Whole) (ap finish {x = b} {y = b % 2 ^ 32} (omega arith)) (
        Returns->>= {A = Client × ℕ} Downloaded Whole (λ r. defined (0, some r.0.written))
          (λ r h. (refl, ap (λ x. some x) h.1)) (run os (made from b w port net))
          (session_recovers os content (made from b w port net) server_port n l out fits s name few
            lo hi))
    where
      net : Channel
      net = answers os server_port l

      Whole : ℕ × Option (List ℕ) → Type 0
      Whole r = (r.0 ≡ 0) × (r.1 ≡ some content)

      Downloaded : Client × ℕ → Type 0
      Downloaded =
          Recovered os content b fits ((to_parent os ++ to_child os b (w % 2 ^ 32) from) ++ out)

      finish : ℕ → Outcome (ℕ × Option (List ℕ))
      finish k = run os (made from k w port net) >>= λ r. defined (0, some r.0.written)

  -- Without a loss.
  pub rcopy_main_completes :
      (from : List ℕ) (b w port server_port n : ℕ) (fits : b ≤ pkt_dmax)
      → length from + 1 ≤ pkt_dmax
      → n + 1 < 2 ^ 32
      → b * n ≤ length content
      → length content < b * (n + 1)
      → Returns
          (λ r. (r.0 ≡ 0) × (r.1 ≡ some content))
          (rcopy_main os num_args from b w port true [] []
            (answers os server_port (carry os content b fits 0 n)))
  rcopy_main_completes from b w port server_port n fits name few lo hi =
      rcopy_main_recovers from b w port server_port n (carry os content b fits 0 n)
        (acknowledgments os content b fits 0 n) fits (carry-Reaches os content b fits 0 n 9) name
        few lo hi
