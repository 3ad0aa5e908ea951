-- ===== src/Tests/Blocked.antt =====
-- The theorems on how the stop and wait server stops, applied.
use cpe464_fileserver.Base.{
  ℕ, ◌≡◌, ◌⊎◌, inr, refl, List, [], ◌∷◌, ◌++◌, arith, Option, some, none, true, defined, unfinished,
  Ends,
}
use cpe464_fileserver.Packet.{Packet, zero_packet, seal}
use cpe464_fileserver.Packet.Seal.{verifies-seal}
use cpe464_fileserver.StopAndWait.Socket.{Attempt, connect_to_client, find_socket}
use cpe464_fileserver.StopAndWait.Comm.{Missing, Comm, Reached, comm_start, comm_loop}
use cpe464_fileserver.StopAndWait.Comm.Idle.{Idle}
use cpe464_fileserver.StopAndWait.Comm.Ends.{TellsApart, Stopped, comm_loop-Stopped}
use cpe464_fileserver.StopAndWait.Main.{Connection, accept_loop, blocked, server_main}
use cpe464_fileserver.StopAndWait.Main.Sequential.{silent_client_blocks, livelock_blocks}
use cpe464_fileserver.Tests.World.{toy}

abbrev sealing : Missing
sealing = record {
  pkt_type_ack = 1;
  pkt_type_ret = 2;
  ackpkt = λ p. seal toy (record p { type = 1 });
  heap_tail = [];
}

sealing-TellsApart : TellsApart sealing
unfolding seal
sealing-TellsApart = record {
  type = λ p. refl;
  not_zero = λ e. omega arith;
  not_data = λ e. omega arith;
  not_rej = λ e. omega arith;
}

-- A request for packet 0, and an acknowledgment of zeros.
abbrev again_zero : Packet
again_zero = seal toy (record zero_packet { type = 2 })

abbrev zeros_confirmed : Packet
zeros_confirmed = seal toy (record zero_packet { type = 1 })

comm_loop-Stopped_example :
    Ends Stopped (comm_loop toy sealing true 3 (comm_start (some again_zero ∷ []) []))
    ⊎ ((d : Comm) × Reached toy sealing (some again_zero ∷ []) [] d
        × Idle d
        × ((n : ℕ)
            → comm_loop toy sealing true n (comm_start (some again_zero ∷ []) []) ≡ unfinished))
comm_loop-Stopped_example =
    comm_loop-Stopped toy sealing sealing-TellsApart (some again_zero ∷ []) [] true

abbrev listening : Option (List Attempt)
listening = some (record { socket = some 4; option_set = true; bound = true } ∷ [])

-- A call of `accept` that fails, and a client that would be served.
abbrev failing : List (Option Connection)
failing = none ∷ []

abbrev later : List (Option Connection)
later = some (record { inbox = []; send_results = []; fstat_ok = true }) ∷ []

silent_client_blocks_example :
    server_main toy sealing 6 2 listening true true
      (failing ++ (some (record { inbox = []; send_results = []; fstat_ok = true }) ∷ later))
    ≡ defined (inr (blocked [] (comm_start [] [])))
unfolding connect_to_client find_socket accept_loop
silent_client_blocks_example =
    silent_client_blocks toy sealing 5 4 listening failing later [] [] true refl refl

livelock_blocks_example :
    server_main toy sealing 1000 2 listening true true (
      failing
      ++ (some (record {
        inbox = some again_zero ∷ some zeros_confirmed ∷ [];
        send_results = [];
        fstat_ok = true;
      })
          ∷ later))
    ≡ unfinished
unfolding connect_to_client find_socket accept_loop seal zero_packet
livelock_blocks_example =
    livelock_blocks toy sealing 1000 4 listening failing later [] [] true again_zero zeros_confirmed
      [] refl refl (λ e. omega arith) (λ e. omega arith) (λ e. omega arith) (verifies-seal toy _)
      refl refl (verifies-seal toy _) refl refl
