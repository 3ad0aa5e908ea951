-- ===== src/CommandLine/Unanswered.antt =====
-- Go Back N (UDP)/rcopy.cpp: the client's `main` without a server.
use cpe464_fileserver.Base.{
  ℕ, ◌+◌, ◌%◌, ◌^◌, ◌≤◌, ◌≡◌, refl, ap, ◌∙◌, true, List, [], ◌∷◌, none, some, replicate, sym, subst,
  arith, length, ltb, if_false, Outcome, defined, ◌>>=◌, Returns,
}
use cpe464_fileserver.Platform.{Platform}
use cpe464_fileserver.Packet.{Packet, pkt_dmax}
use cpe464_fileserver.Net.{Channel, next_arrival, select_call, send}
use cpe464_fileserver.Client
use cpe464_fileserver.Client.{Client, State, construct, get_socket, recv_packet, receive}
use cpe464_fileserver.Client.Init.{
  init_loop, client_init, handshake, send_step, after_send, finish_init, follow, connection_packet,
  stage_packet, buffer_packet, window_packet, name_packet,
}
use cpe464_fileserver.Client.Run
use cpe464_fileserver.Client.Run.{run}
use cpe464_fileserver.CommandLine.{num_args, rcopy_main}

-- Nothing arrives, and every call of `sendtoErr` succeeds.
abbrev pub no_answer : Channel
no_answer = record { arrivals = []; send_results = []; sent = [] }

module _ (os : Platform) where
  -- `Run` has failed, the target is empty, and the first packet was sent ten times.
  abbrev pub Failed : Client × ℕ → Type 0
  Failed r = (r.1 ≡ 1) × (r.0.written ≡ []) × (r.0.net.sent ≡ replicate 10 (connection_packet os))

  -- The client that `main` makes of its arguments.
  abbrev pub alone : List ℕ → ℕ → ℕ → ℕ → Client
  alone from b w port = record {
    from_name = from;
    buffer_size = b % 2 ^ 32;
    window_size = w % 2 ^ 32;
    remote_port = port % 2 ^ 16;
    peer = os.htons (port % 2 ^ 16);
    retries = 10;
    sequence = 0;
    state = Client.init;
    written = [];
    socket_results = [];
    write_results = [];
    net = no_answer;
  }

  -- The client at the end, after it has sent its first packet `p` ten times.
  abbrev given_up : Packet → Client → Client
  given_up p c = record c {
    retries = 0;
    net = record {
      arrivals = [];
      send_results = [];
      sent = p ∷ p ∷ p ∷ p ∷ p ∷ p ∷ p ∷ p ∷ p ∷ p ∷ [];
    };
  }

  silent_init :
      (c : Client) (p : Packet) (more : List Packet)
      → init_loop os 11 (p ∷ more) 0 none (record c { retries = 10; net = no_answer })
        ≡ defined (Client.error, given_up p c)
  unfolding init_loop send_step after_send finish_init follow recv_packet next_arrival select_call
      send
  silent_init c p more = refl

  silent_run :
      (from : List ℕ) (b w port : ℕ)
      → length from + 1 ≤ pkt_dmax
      → run os (alone from b w port)
        ≡ defined (
          record (given_up (connection_packet os) (alone from b w port)) { state = Client.error },
          1,
        )
  unfolding run Run.client_loop Run.client_step Run.running Run.store_state Run.client_exit
      client_init handshake
  silent_run from b w port fits =
      ap (λ o. ending (o >>= λ pkts. init_loop os 11 pkts 0 none (alone from b w port)))
        (if_false (ltb pkt_dmax (length from + 1)) _ _ (ground (arith, fits)))
      ∙ ap ending (
          silent_init (alone from b w port) (connection_packet os) (
            stage_packet os
            ∷ buffer_packet os (alone from b w port).buffer_size
            ∷ window_packet os (alone from b w port).window_size
            ∷ name_packet os from
            ∷ []))
    where
      ending : Outcome (State × Client) → Outcome (Client × ℕ)
      ending o =
          o >>= Run.store_state >>= Run.client_loop os 21 >>= λ c. defined (c, Run.client_exit c)

  -- If nobody answers the client, `Run` sends its first packet ten times and returns 1 with an empty
  -- target; and yet `main` with eight arguments ends with status 0, where the target can be created,
  -- no call fails and the file name fits into a packet.
  pub rcopy_main_unanswered :
      (from : List ℕ) (b w port : ℕ)
      → length from + 1 ≤ pkt_dmax
      → Returns Failed (run os (alone from b w port))
        × (rcopy_main os num_args from b w port true [] [] no_answer ≡ defined (0, some []))
  unfolding rcopy_main construct get_socket replicate
  rcopy_main_unanswered from b w port fits = (
    subst (Returns Failed) (sym (silent_run from b w port fits)) (refl, refl, refl),
    ap (λ o. o >>= λ r. defined (0, some r.0.written)) (silent_run from b w port fits),
  )
