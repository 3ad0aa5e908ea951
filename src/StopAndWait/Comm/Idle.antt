-- ===== src/StopAndWait/Comm/Idle.antt =====
-- Stop and Wait (TCP)/server.c, `client_comm`: iterations that change nothing.
use cpe464_fileserver.Base.{
  ℕ, zero, suc, ◌≡◌, ◌<◌, refl, ap, ◌∙◌, Bool, true, false, arith, leb, defined, unfinished, ◌>>=◌,
  if_true, if_false,
}
use cpe464_fileserver.Platform.{Platform}
use cpe464_fileserver.Packet.{pkt_trnsmax}
use cpe464_fileserver.StopAndWait.Comm.{
  Missing, Comm, again, transmit_part, receive_part, file_part, on_turn, comm_turn, comm_loop,
  continue_with,
}

-- The loop neither sends nor receives, and there is no request yet to read a file for.
pub record Idle (c : Comm) : Type 0 where
  pub quit : c.status.quit ≡ false
  pub info : c.status.expect_info ≡ true
  pub sends : c.status.transmit ≡ false
  pub receives : c.status.receive ≡ false
  pub retries : c.retries < pkt_trnsmax

module _ (os : Platform) (missing : Missing) (ok : Bool) where
  comm_turn-Idle : (c : Comm) → Idle c → comm_turn os missing ok c ≡ defined (again c)
  unfolding comm_turn transmit_part receive_part on_turn file_part
  comm_turn-Idle c i =
      if_false c.status.quit _ _ i.quit
      ∙ if_false (leb pkt_trnsmax c.retries) _ _ (ground (arith, i.retries))
      ∙ ap (λ d. receive_part os missing d >>= on_turn os missing ok)
          (if_false c.status.transmit _ _ i.sends)
      ∙ ap (λ o. o >>= on_turn os missing ok) (if_false c.status.receive _ _ i.receives)
      ∙ if_true c.status.expect_info _ _ i.info

  -- From such a state the loop runs for ever, without a call that could wait.
  pub comm_loop-Idle : (fuel : ℕ) (c : Comm) → Idle c → comm_loop os missing ok fuel c ≡ unfinished
  unfolding comm_loop continue_with
  comm_loop-Idle zero c i = refl
  comm_loop-Idle (suc fuel) c i =
      ap (λ o. o >>= continue_with (comm_loop os missing ok fuel)) (comm_turn-Idle c i)
      ∙ comm_loop-Idle fuel c i
