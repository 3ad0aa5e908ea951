-- ===== src/StopAndWait/Main/Sequential.antt =====
-- Stop and Wait (TCP)/server.c, `main`: each client waits for those before it.
use cpe464_fileserver.Base.{
  ℕ, suc, ◌≡◌, ◌≢◌, refl, ap, ◌∙◌, inr, Bool, true, List, [], ◌∷◌, ◌++◌, Option, none, some,
  Outcome, defined, undefined, unfinished, ◌>>=◌,
}
use cpe464_fileserver.Platform.{Platform}
use cpe464_fileserver.Packet.{Packet, verifies, zero_packet}
use cpe464_fileserver.StopAndWait.Socket.{Attempt, connect_to_client}
use cpe464_fileserver.StopAndWait.Comm.{
  Missing, Turn, below, again, waiting, leave, comm_start, comm_loop, comm_turn, continue_with,
  transmit_part, receive_part, on_recv,
}
use cpe464_fileserver.StopAndWait.Comm.Livelock.{livelock}
use cpe464_fileserver.StopAndWait.Main.{
  Connection, Serving, accepting, blocked, after_session, session, accept_loop, server_main,
}

module _ (os : Platform) (missing : Missing) (fuel : ℕ) where
  -- How the server goes on from where it waits.
  abbrev pub go_on : List (Option Connection) → Serving → Outcome Serving
  go_on more (accepting before) = accept_loop os missing fuel more before
  go_on more (blocked before c) = defined (blocked before c)

  after_append :
      (loop loop' : List Turn → Outcome Serving) (more : List (Option Connection))
      (before : List Turn)
      → ((l : List Turn) → loop' l ≡ (loop l >>= go_on more))
      → (o : Outcome Turn)
      → (o >>= after_session loop' before) ≡ ((o >>= after_session loop before) >>= go_on more)
  unfolding after_session
  after_append loop loop' more before h (defined (below c)) = h (before ++ (below c ∷ []))
  after_append loop loop' more before h (defined (again c)) = h (before ++ (again c ∷ []))
  after_append loop loop' more before h (defined (waiting c)) = refl
  after_append loop loop' more before h (defined (leave k c)) = h (before ++ (leave k c ∷ []))
  after_append loop loop' more before h undefined = refl
  after_append loop loop' more before h unfinished = refl

  pub accept_loop-append :
      (first more : List (Option Connection)) (before : List Turn)
      → accept_loop os missing fuel (first ++ more) before
        ≡ (accept_loop os missing fuel first before >>= go_on more)
  unfolding accept_loop
  accept_loop-append [] more before = refl
  accept_loop-append (none ∷ first) more before = accept_loop-append first more before
  accept_loop-append (some c ∷ first) more before =
      after_append (accept_loop os missing fuel first) (accept_loop os missing fuel (first ++ more))
        more before (accept_loop-append first more) (session os missing fuel c)

  -- The sessions of the connections `first` are over.
  module _ (fd : ℕ) (addresses : Option (List Attempt)) (first more : List (Option Connection))
      (before : List Turn) where
    main_continues :
        (c : Connection)
        → connect_to_client addresses ≡ some fd
        → accept_loop os missing fuel first [] ≡ defined (accepting before)
        → server_main os missing fuel 2 addresses true true (first ++ (some c ∷ more)) ≡ (
            session os missing fuel c
            >>= after_session (accept_loop os missing fuel more) before
            >>= λ s. defined (inr s))
    unfolding server_main accept_loop
    main_continues c socket over =
        rw (socket, server_main)
          (ap (λ o. o >>= λ s. defined (inr s))
            (accept_loop-append first (some c ∷ more) []
              ∙ ap (λ o. o >>= go_on (some c ∷ more)) over))

-- Let `main` have one argument, a socket that listens and its signal handler, and let the sessions
-- of the connections before be over. Then a client that connects and sends nothing blocks the
-- server: it waits in `recv` for this client, whoever else connects.
pub silent_client_blocks :
    (os : Platform) (missing : Missing) (fuel fd : ℕ) (addresses : Option (List Attempt))
    (first more : List (Option Connection)) (before : List Turn) (results : List Bool) (ok : Bool)
    → connect_to_client addresses ≡ some fd
    → accept_loop os missing (suc fuel) first [] ≡ defined (accepting before)
    → server_main os missing
        (suc fuel)
        2
        addresses
        true
        true
        (first ++ (some (record { inbox = []; send_results = results; fstat_ok = ok }) ∷ more))
      ≡ defined (inr (blocked before (comm_start [] results)))
unfolding after_session comm_loop continue_with comm_turn transmit_part receive_part on_recv
    comm_start
silent_client_blocks os missing fuel fd addresses first more before results ok socket over =
    main_continues os missing (suc fuel) fd addresses first more before
      (record { inbox = []; send_results = results; fstat_ok = ok }) socket over

-- Let `main` have one argument, a socket that listens and its signal handler, let the sessions of
-- the connections before be over, and let acknowledgments, requests for a retransmission and packets
-- of zeros have three different types. Then a client that asks for packet 0 again before it requested
-- a file, and acknowledges the packet of zeros that it gets, puts the server into a loop without
-- end: no number of iterations is enough, and whoever else connects is not served.
pub livelock_blocks :
    (os : Platform) (missing : Missing) (fuel fd : ℕ) (addresses : Option (List Attempt))
    (first more : List (Option Connection)) (before : List Turn) (results : List Bool) (ok : Bool)
    (p q : Packet) (l : List (Option Packet))
    → connect_to_client addresses ≡ some fd
    → accept_loop os missing fuel first [] ≡ defined (accepting before)
    → missing.pkt_type_ack ≢ missing.pkt_type_ret
    → missing.pkt_type_ret ≢ 0
    → missing.pkt_type_ack ≢ 0
    → verifies os p ≡ true
    → p.type ≡ missing.pkt_type_ret
    → os.ntohl p.sequence ≡ 0
    → verifies os q ≡ true
    → q.type ≡ missing.pkt_type_ack
    → q.payload ≡ zero_packet.payload
    → server_main os missing fuel 2 addresses true true (
        first
        ++ (some (record { inbox = some p ∷ some q ∷ l; send_results = results; fstat_ok = ok })
            ∷ more))
      ≡ unfinished
livelock_blocks os missing fuel fd addresses first more before results ok p q l socket over differ
      nonzero nonnull good ret number good_ack ack empty =
    main_continues os missing fuel fd addresses first more before
      (record { inbox = some p ∷ some q ∷ l; send_results = results; fstat_ok = ok }) socket over
    ∙ ap
        (λ o.
          o >>= after_session (accept_loop os missing fuel more) before >>= λ s. defined (inr s))
        (livelock os missing ok results p q l differ nonzero nonnull good ret number good_ack ack
          empty fuel)
