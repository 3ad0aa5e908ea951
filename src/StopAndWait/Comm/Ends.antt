-- ===== src/StopAndWait/Comm/Ends.antt =====
-- Stop and Wait (TCP)/server.c, `client_comm`: when the loop ends.
mod States
mod Files
mod Sending
pub use States.{TellsApart}
use cpe464_fileserver.Base.{
  ℕ, zero, suc, ◌+◌, ◌*◌, ◌%◌, ◌^◌, ◌≤◌, ◌<◌, ◌≡◌, ◌≢◌, refl, sym, ap, subst, ◌∙◌, ◌⊎◌, inl, inr,
  Bool, true, false, ◌||◌, not, List, [], ◌∷◌, ◌++◌, Option, none, some, arith, Bool-cases, if_true,
  if_false, if_either, if◌then◌else◌, ◌==◌, Option-cases, ltb, leb, length, Outcome, defined,
  undefined, unfinished, ◌>>=◌, Ends, Ends->>=,
}
use cpe464_fileserver.Platform.{Platform}
use cpe464_fileserver.Packet.{
  Packet, verifies, seal, retransmitpkt, zero_packet, pkt_trnsmax, pkt_type_dat, pkt_type_fln,
  pkt_type_rej, pkt_dmax,
}
use cpe464_fileserver.Server.Init.{c_string}
use cpe464_fileserver.Server.Init.Ends.{c_string-Ends}
use cpe464_fileserver.StopAndWait.Comm.{
  Missing, Comm, Turn, below, again, waiting, leave, closing, send_err, same_bytes, add_offset,
  restore, transmit_part, on_bad_checksum, on_accepted, resume, on_ack, seek_back, on_retransmit,
  on_name, on_packet, on_recv, receive_part, prepare, read_part, file_part, on_turn, comm_turn,
  comm_start, file_to_packet, comm_loop, continue_with, Reached, start, next,
}
use cpe464_fileserver.StopAndWait.Comm.Idle.{Idle, comm_loop-Idle}
use cpe464_fileserver.StopAndWait.Comm.Ends.States.{
  Live, Fresh, Opening, Receiving, Due, Good, left, Mid, Goes, Piece, left_idle, left_opening,
  closing-Ends, send_err_kept, add_offset_kept,
}
use Files.{file_part-Due, fresh_part}
use Sending.{sending, answering, on_recv-Mid}

-- The loop is over: the function returned, or it waits in `recv`.
abbrev pub Stopped : Turn → Type 0
Stopped (below c) = ⊥
Stopped (again c) = ⊥
Stopped (waiting c) = Unit
Stopped (leave status c) = Unit

module _ (os : Platform) (missing : Missing) (apart : TellsApart missing) where
  on_turn-Goes :
      (n : ℕ) (ok : Bool) (t : Turn)
      → Mid missing n t
      → Ends (Goes missing n) (on_turn os missing ok t)
  unfolding on_turn
  on_turn-Goes n ok (below c) h = file_part-Due os missing apart n ok c h.0 h.1
  on_turn-Goes n ok (again c) h = h
  on_turn-Goes n ok (waiting c) h = tt
  on_turn-Goes n ok (leave k c) h = tt

  Live-turn :
      (ok : Bool) (c : Comm)
      → Live missing c
      → (c.status.transmit ≡ true) ⊎ (c.status.receive ≡ true)
      → Ends
          (Goes missing (left c))
          (receive_part os missing (transmit_part os missing c) >>= on_turn os missing ok)
  unfolding receive_part
  Live-turn ok c l busy =
      let next = sending os missing apart c l busy in
      subst (λ o. Ends (Goes missing (left c)) (o >>= on_turn os missing ok))
        (sym (if_true (transmit_part os missing c).status.receive _ _ next.0.receives))
        (Ends->>= (Mid missing (left c)) (Goes missing (left c)) (on_turn os missing ok)
          (λ t m. on_turn-Goes (left c) ok t m) _
          (subst
            (λ n.
              Ends (Mid missing n) (
                on_recv os missing (transmit_part os missing c).inbox (transmit_part os missing c)))
            (ap (λ l. 2 * length {A = Option Packet} l) next.1 ∙ sym (left_idle c l.init))
            (on_recv-Mid os missing apart (transmit_part os missing c).inbox
              (transmit_part os missing c) next.0)))

  Fresh-turn :
      (ok : Bool) (c : Comm)
      → Fresh missing c
      → Ends
          (Goes missing (left c))
          (receive_part os missing (transmit_part os missing c) >>= on_turn os missing ok)
  unfolding receive_part on_turn
  Fresh-turn ok c f =
      let next = answering os missing apart c f in
      subst (λ o. Ends (Goes missing (left c)) (o >>= on_turn os missing ok))
        (sym (if_false (transmit_part os missing c).status.receive _ _ next.0.receives))
        (fresh_part os missing apart (left c) ok _ (transmit_part os missing c) next.0
          (omega (arith, ap length next.1, left_opening c f.init)) refl)

  Good-turn :
      (ok : Bool) (c : Comm)
      → Good missing c
      → c.status.quit ≡ false
      → c.retries < pkt_trnsmax
      → Idle c
        ⊎ Ends
            (Goes missing (left c))
            (receive_part os missing (transmit_part os missing c) >>= on_turn os missing ok)
  Good-turn ok c (inr f) q m = inr (Fresh-turn ok c f)
  Good-turn ok c (inl l) q m = elim l.busy [
    | inl e ↦ elim (Bool-cases c.status.transmit) [
      | inl t ↦ inr (Live-turn ok c l (inl t))
      | inr t ↦ elim (Bool-cases c.status.receive) [
        | inl r ↦ inr (Live-turn ok c l (inr r))
        | inr r ↦ inl (record { quit = q; info = e; sends = t; receives = r; retries = m })
      ]
    ]
    | inr busy ↦ inr (Live-turn ok c l busy)
  ]

  Good-steps :
      (ok : Bool) (c : Comm)
      → Good missing c
      → Idle c ⊎ Ends (Goes missing (left c)) (comm_turn os missing ok c)
  unfolding comm_turn
  Good-steps ok c g = elim (Bool-cases c.status.quit) [
    | inl q ↦ inr (rw (q, comm_turn) (closing-Ends (Goes missing (left c)) c _ tt))
    | inr q ↦ elim (Bool-cases (leb pkt_trnsmax c.retries)) [
      | inl m ↦ inr (
          subst (Ends (Goes missing (left c)))
            (sym (if_false c.status.quit _ _ q ∙ if_true _ _ _ m))
            (closing-Ends (Goes missing (left c)) c (leave 0 c) tt))
      | inr m ↦
          subst (λ o. Idle c ⊎ Ends (Goes missing (left c)) o)
            (sym (if_false c.status.quit _ _ q ∙ if_false _ _ _ m))
            (Good-turn ok c g q (ground (arith, m)))
    ]
  ]

  module _ (inbox : List (Option Packet)) (results : List Bool) (ok : Bool) where
    -- The loop is over with this fuel, or it gets to an idle state and is over with no fuel.
    abbrev Decided : ℕ → Comm → Type 0
    Decided fuel c =
        Ends Stopped (comm_loop os missing ok fuel c)
        ⊎ ((d : Comm) × Reached os missing inbox results d
            × Idle d
            × ((n : ℕ) → comm_loop os missing ok n c ≡ unfinished))

    unfinished_again :
        (c d : Comm)
        → comm_turn os missing ok c ≡ defined (again d)
        → ((n : ℕ) → comm_loop os missing ok n d ≡ unfinished)
        → (n : ℕ) → comm_loop os missing ok n c ≡ unfinished
    unfolding comm_loop continue_with
    unfinished_again c d e h zero = refl
    unfinished_again c d e h (suc n) =
        ap (λ o. o >>= continue_with (comm_loop os missing ok n)) e ∙ h n

    after_turn :
        (fuel : ℕ) (c : Comm) (o : Outcome Turn)
        → Reached os missing inbox results c
        → ((d : Comm)
            → Reached os missing inbox results d
            → Good missing d
            → left d < fuel
            → Decided fuel d)
        → left c < suc fuel
        → comm_turn os missing ok c ≡ o
        → Ends (Goes missing (left c)) o
        → Decided (suc fuel) c
    unfolding comm_loop continue_with
    after_turn fuel c (defined (below d)) r ih h e g = absurd g
    after_turn fuel c (defined (again d)) r ih h e g =
        elim (ih d (next ok r e) g.0 (omega (arith, g.1))) [
          | inl ended ↦ inl (
              subst (λ o. Ends Stopped (o >>= continue_with (comm_loop os missing ok fuel))) (sym e)
                ended)
          | inr (idle, reached, i, never) ↦ inr (idle, reached, i, unfinished_again c d e never)
        ]
    after_turn fuel c (defined (waiting d)) r ih h e g =
        inl (
          subst (λ o. Ends Stopped (o >>= continue_with (comm_loop os missing ok fuel))) (sym e) tt)
    after_turn fuel c (defined (leave k d)) r ih h e g =
        inl (
          subst (λ o. Ends Stopped (o >>= continue_with (comm_loop os missing ok fuel))) (sym e) tt)
    after_turn fuel c undefined r ih h e g =
        inl (
          subst (λ o. Ends Stopped (o >>= continue_with (comm_loop os missing ok fuel))) (sym e) tt)
    after_turn fuel c unfinished r ih h e g = absurd g

    decided :
        (fuel : ℕ) (c : Comm)
        → Reached os missing inbox results c
        → Good missing c
        → left c < fuel
        → Decided fuel c
    decided zero c r g h = absurd (omega (arith, h))
    decided (suc fuel) c r g h = elim (Good-steps ok c g) [
      | inl i ↦ inr (c, r, i, λ n. comm_loop-Idle os missing ok n c i)
      | inr e ↦ after_turn fuel c (comm_turn os missing ok c) r (decided fuel) h refl e
    ]

    -- Let `ackpkt` build packets of the type of an acknowledgment, and let no data packet, request for
    -- a retransmission or packet of zeros have that type. Whatever is received and whichever calls
    -- fail, the loop of `client_comm` is over after at most
    -- two iterations for each result of `recv` and one more: it returned, waits in `recv`, or ran
    -- into undefined behaviour. The only other possibility is that it gets to a state in which it
    -- expects the request but does not receive; then it is over with no number of iterations.
    pub comm_loop-Stopped :
        Ends Stopped (comm_loop os missing ok (2 * length inbox + 1) (comm_start inbox results))
        ⊎ ((d : Comm) × Reached os missing inbox results d
            × Idle d
            × ((n : ℕ) → comm_loop os missing ok n (comm_start inbox results) ≡ unfinished))
    unfolding comm_start zero_packet
    comm_loop-Stopped =
        decided (2 * length inbox + 1) (comm_start inbox results) start
          (inl (record {
            init = refl;
            out = λ e. apart.not_zero (sym e);
            saved = λ e. apart.not_zero (sym e);
            busy = inl refl;
          }))
          (omega arith)
