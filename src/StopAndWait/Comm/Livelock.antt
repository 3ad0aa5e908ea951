-- ===== src/StopAndWait/Comm/Livelock.antt =====
-- Stop and Wait (TCP)/server.c, `client_comm`: two packets after which the loop never ends.
use cpe464_fileserver.Base.{
  ℕ, zero, suc, ◌≡◌, ◌≢◌, refl, ap, ◌∙◌, Bool, true, false, List, [], ◌∷◌, Option, some, arith,
  if_true, if_false, ◌==◌, defined, unfinished, ◌>>=◌,
}
use cpe464_fileserver.Platform.{Platform}
use cpe464_fileserver.Packet.{Packet, verifies, zero_packet}
use cpe464_fileserver.StopAndWait.Comm.{
  Missing, Comm, again, send_err, same_bytes, restore, transmit_part, on_accepted, resume, on_ack,
  on_retransmit, on_packet, on_recv, receive_part, file_part, on_turn, comm_turn, comm_start,
  comm_loop, continue_with,
}
use cpe464_fileserver.StopAndWait.Comm.Idle.{comm_loop-Idle}

same_bytes_refl : (l : List ℕ) → same_bytes l l ≡ true
unfolding same_bytes
same_bytes_refl [] = refl
same_bytes_refl (x ∷ l) = let e : (x == x) ≡ true = ground arith in rw e (same_bytes_refl l)

module _ (os : Platform) (missing : Missing) (ok : Bool) (results : List Bool) where
  -- After the request for packet 0.
  abbrev asked_again : List (Option Packet) → Comm
  unfolding comm_start
  asked_again l = record (comm_start l results) {
    retries = 1;
    status = record (comm_start l results).status { transmit = true };
  }

  -- The packet to send is not a request for a retransmission.
  not_restored :
      (c : Comm)
      → c.out_packet.type ≡ 0
      → missing.pkt_type_ret ≢ 0
      → restore missing.pkt_type_ret c ≡ c
  unfolding restore
  not_restored c e nonzero =
      if_false (c.out_packet.type == missing.pkt_type_ret) _ _ (ground (arith, e, nonzero))

  ask_turn :
      (p : Packet) (l : List (Option Packet))
      → missing.pkt_type_ack ≢ missing.pkt_type_ret
      → missing.pkt_type_ret ≢ 0
      → verifies os p ≡ true
      → p.type ≡ missing.pkt_type_ret
      → os.ntohl p.sequence ≡ 0
      → comm_turn os missing ok (comm_start (some p ∷ l) results) ≡ defined (again (asked_again l))
  unfolding comm_turn transmit_part receive_part on_recv on_packet on_retransmit comm_start on_turn
      zero_packet
  ask_turn p l differ nonzero good ret first =
      ap (λ o. o >>= on_turn os missing ok) (if_true (verifies os p) _ _ good)
      ∙ ap (λ c. on_packet os missing p c >>= on_turn os missing ok)
          (not_restored (comm_start l results) refl nonzero)
      ∙ ap (λ o. o >>= on_turn os missing ok)
          (if_false (p.type == missing.pkt_type_ack) _ _ (ground (arith, ret, differ))
            ∙ if_true (p.type == missing.pkt_type_ret) _ _ (ground (arith, ret))
            ∙ if_true (os.ntohl p.sequence == 0) _ _ (ground (arith, first)))

  -- In front of the second call of `recv`, and after the acknowledgment was accepted.
  abbrev expecting_ack : List (Option Packet) → List Bool → List Packet → Comm
  expecting_ack l more sent = record (asked_again l) {
    status = record (asked_again l).status { transmit = false; expect_ack = true };
    send_results = more;
    sent = sent;
  }

  abbrev accepted : List (Option Packet) → List Bool → List Packet → Comm
  accepted l more sent = record (expecting_ack l more sent) {
    status = record (expecting_ack l more sent).status {
      expect_ack = false;
      receive = false;
      next_data = true;
    };
    retries = 0;
  }

  -- Whether the packet can be sent makes no difference.
  zeros_sent :
      (r : List Bool) (l : List (Option Packet))
      → missing.pkt_type_ret ≢ 0
      → missing.pkt_type_ack ≢ 0
      → (more : List Bool) × (sent : List Packet) × (transmit_part os missing
            (record (asked_again l) { send_results = r })
          ≡ expecting_ack l more sent)
  unfolding transmit_part send_err comm_start zero_packet
  zeros_sent [] l nonzero nonnull = ([], zero_packet ∷ [], ground arith)
  zeros_sent (true ∷ r) l nonzero nonnull = (r, zero_packet ∷ [], ground arith)
  zeros_sent (false ∷ r) l nonzero nonnull = (r, [], ground arith)

  accept_turn :
      (p : Packet) (l : List (Option Packet)) (more : List Bool) (sent : List Packet)
      → missing.pkt_type_ret ≢ 0
      → verifies os p ≡ true
      → p.type ≡ missing.pkt_type_ack
      → p.payload ≡ zero_packet.payload
      → (receive_part os missing (expecting_ack (some p ∷ l) more sent) >>= on_turn os missing ok)
        ≡ defined (again (accepted l more sent))
  unfolding receive_part on_recv on_packet on_ack on_accepted resume comm_start on_turn file_part
      zero_packet
  accept_turn p l more sent nonzero good ack empty =
      ap (λ o. o >>= on_turn os missing ok) (if_true (verifies os p) _ _ good)
      ∙ ap (λ c. on_packet os missing p c >>= on_turn os missing ok)
          (not_restored (expecting_ack l more sent) refl nonzero)
      ∙ ap (λ o. o >>= on_turn os missing ok)
          (if_true (p.type == missing.pkt_type_ack) _ _ (ground (arith, ack))
            ∙ if_true (same_bytes zero_packet.payload p.payload) _ _
                (ap (same_bytes zero_packet.payload) empty ∙ same_bytes_refl zero_packet.payload))
      ∙ refl

  -- A client that asks for packet 0 again before it requested a file, and then acknowledges the
  -- packet of zeros that it gets, puts the server into a loop without end: it neither sends nor
  -- receives any more, whatever else is in the inbox, and no number of iterations is enough.
  pub livelock :
      (p q : Packet) (l : List (Option Packet))
      → missing.pkt_type_ack ≢ missing.pkt_type_ret
      → missing.pkt_type_ret ≢ 0
      → missing.pkt_type_ack ≢ 0
      → verifies os p ≡ true
      → p.type ≡ missing.pkt_type_ret
      → os.ntohl p.sequence ≡ 0
      → verifies os q ≡ true
      → q.type ≡ missing.pkt_type_ack
      → q.payload ≡ zero_packet.payload
      → (fuel : ℕ)
      → comm_loop os missing ok fuel (comm_start (some p ∷ some q ∷ l) results) ≡ unfinished
  unfolding comm_loop continue_with comm_turn comm_start asked_again
  livelock p q l differ nonzero nonnull good ret first good_ack ack empty zero = refl
  livelock p q l differ nonzero nonnull good ret first good_ack ack empty (suc zero) =
      ap (λ o. o >>= continue_with (comm_loop os missing ok zero))
        (ask_turn p (some q ∷ l) differ nonzero good ret first)
  livelock p q l differ nonzero nonnull good ret first good_ack ack empty (suc (suc fuel)) =
      let (more, sent, e) = zeros_sent results (some q ∷ l) nonzero nonnull in
      ap (λ o. o >>= continue_with (comm_loop os missing ok (suc fuel)))
        (ask_turn p (some q ∷ l) differ nonzero good ret first)
      ∙ ap (λ o. o >>= continue_with (comm_loop os missing ok fuel))
          (ap (λ c. receive_part os missing c >>= on_turn os missing ok) e
            ∙ accept_turn q l more sent nonzero good_ack ack empty)
      ∙ comm_loop-Idle os missing ok fuel (accepted l more sent) (record {
        quit = refl;
        info = refl;
        sends = refl;
        receives = refl;
        retries = omega arith;
      })
