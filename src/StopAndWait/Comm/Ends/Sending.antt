-- ===== src/StopAndWait/Comm/Ends/Sending.antt =====
-- Stop and Wait (TCP)/server.c, `client_comm`: the parts that send and receive.
use cpe464_fileserver.Base.{
  ℕ, ◌+◌, ◌*◌, ◌%◌, ◌^◌, ◌<◌, ◌≡◌, ◌≢◌, refl, sym, ap, subst, ◌∙◌, ◌⊎◌, inl, inr, true, false, List,
  [], ◌∷◌, Option, none, some, arith, Bool-cases, if_true, if_false, if_either, ◌==◌, Option-cases,
  length, Ends, Ends->>=,
}
use cpe464_fileserver.Platform.{Platform}
use cpe464_fileserver.Packet.{Packet, verifies, seal, retransmitpkt, pkt_type_fln}
use cpe464_fileserver.Server.Init.{c_string}
use cpe464_fileserver.Server.Init.Ends.{c_string-Ends}
use cpe464_fileserver.StopAndWait.Comm.{
  Missing, Comm, leave, same_bytes, restore, transmit_part, on_bad_checksum, on_accepted, resume,
  on_ack, seek_back, on_retransmit, on_name, on_packet, on_recv,
}
use cpe464_fileserver.StopAndWait.Comm.Ends.States.{
  TellsApart, Live, Fresh, Opening, Receiving, Due, Mid, left_idle, closing-Ends, send_err_kept,
}

module _ (os : Platform) (missing : Missing) (apart : TellsApart missing) where
  pub sending :
      (c : Comm)
      → Live missing c
      → (c.status.transmit ≡ true) ⊎ (c.status.receive ≡ true)
      → Receiving missing (transmit_part os missing c)
        × ((transmit_part os missing c).inbox ≡ c.inbox)
  unfolding transmit_part
  sending c l busy = elim (Bool-cases c.status.transmit) [
    | inl t ↦
        let kept = send_err_kept c.send_results c in
        subst (λ d. Receiving missing d × (d.inbox ≡ c.inbox))
          (sym (
            if_true c.status.transmit _ _ t
            ∙ if_false (c.out_packet.type == missing.pkt_type_ack) _ _ (ground (arith, l.out))))
          (
            record {
              init = l.init;
              out = λ e. l.out (sym (ap (λ q. q.type) kept.0) ∙ e);
              saved = λ e. l.saved (sym (ap (λ q. q.type) kept.1) ∙ e);
              receives = refl;
            },
            kept.2,
          )
    | inr t ↦
        subst (λ d. Receiving missing d × (d.inbox ≡ c.inbox))
          (sym (if_false c.status.transmit _ _ t))
          (
            record { init = l.init; out = l.out; saved = l.saved; receives = receiving busy t },
            refl,
          )
  ]
    where
      receiving :
          (c.status.transmit ≡ true) ⊎ (c.status.receive ≡ true)
          → c.status.transmit ≡ false
          → c.status.receive ≡ true
      receiving (inl x) t = absurd (cc)
      receiving (inr r) t = r

  pub answering :
      (c : Comm)
      → Fresh missing c
      → Opening missing (transmit_part os missing c)
        × ((transmit_part os missing c).inbox ≡ c.inbox)
  unfolding transmit_part
  answering c f =
      let kept = send_err_kept c.send_results c in
      subst (λ d. Opening missing d × (d.inbox ≡ c.inbox))
        (sym (
          if_true c.status.transmit _ _ f.sends
          ∙ if_true (c.out_packet.type == missing.pkt_type_ack) _ _ (ground (arith, f.out))))
        (
          record {
            info = f.info;
            init = f.init;
            saved = λ e. f.saved (sym (ap (λ q. q.type) kept.1) ∙ e);
            receives = refl;
          },
          kept.2,
        )

  pub on_bad_checksum-Mid :
      (n : ℕ) (c : Comm)
      → Receiving missing c
      → 2 * length c.inbox < n
      → Mid missing n (on_bad_checksum os missing c)
  unfolding on_bad_checksum retransmitpkt seal
  on_bad_checksum-Mid n c r h = (
    inl (record {
      init = r.init;
      out = λ e. apart.not_rej (sym e);
      saved =
          if_either {A = Packet} (λ p. p.type ≢ missing.pkt_type_ack)
            (c.out_packet.type == missing.pkt_type_ret) _ _ r.saved r.out;
      busy = inr (inl refl);
    }),
    ground (arith, r.init, h),
  )

  pub resume-Mid :
      (n : ℕ) (c : Comm)
      → Due missing c
      → 2 * length c.inbox < n
      → Ends (Mid missing n) (resume os missing c)
  unfolding resume
  resume-Mid n c d h =
      if_either (Ends (Mid missing n)) c.status.retransmit _ _
        (elim (Option-cases c.from) [
          | inl e ↦ rw e tt
          | inr (fd, e) ↦ rw e (
              if_either (Ends (Mid missing n)) (os.lseek_set fd c.offset) _ _
                (record { init = d.init; out = d.out; saved = d.saved; busy = d.busy }, h) tt)
        ])
        (d, h)

  pub on_ack-Mid :
      (n : ℕ) (p : Packet) (c : Comm)
      → Receiving missing c
      → 2 * length c.inbox < n
      → Ends (Mid missing n) (on_ack os missing p c)
  unfolding on_ack on_accepted
  on_ack-Mid n p c r h =
      if_either (Ends (Mid missing n)) c.status.expect_ack _ _
        (if_either (Ends (Mid missing n)) (same_bytes c.out_packet.payload p.payload) _ _
          (resume-Mid n (on_accepted os missing c)
            (record { init = r.init; out = r.out; saved = r.saved; busy = inl refl }) h)
          (record { init = r.init; out = r.out; saved = r.saved; busy = inr r.receives }, h))
        (closing-Ends (Mid missing n) c (leave 1 c) tt)

  pub seek_back-Mid :
      (n q : ℕ) (f : Option ℕ) (c : Comm)
      → Receiving missing c
      → 2 * length c.inbox < n
      → Ends (Mid missing n) (seek_back os missing f q c)
  unfolding seek_back
  seek_back-Mid n q none c r h = tt
  seek_back-Mid n q (some fd) c r h =
      if_either (Ends (Mid missing n)) (os.lseek_set fd (c.buffer_size * q % 2 ^ 32)) _ _
        (record { init = r.init; out = r.out; saved = r.saved; busy = inl refl }, h) tt

  pub on_retransmit-Mid :
      (n q : ℕ) (c : Comm)
      → Receiving missing c
      → 2 * length c.inbox < n
      → Ends (Mid missing n) (on_retransmit os missing q c)
  unfolding on_retransmit
  on_retransmit-Mid n q c r h =
      if_either (Ends (Mid missing n)) (q == c.sequence) _ _
        (
          inl (record { init = r.init; out = r.out; saved = r.saved; busy = inr (inl refl) }),
          omega (arith, left_idle c r.init, h),
        )
        (if_either (Ends (Mid missing n)) c.status.info_init _ _
          (record { init = r.init; out = r.out; saved = r.saved; busy = inr r.receives }, h)
          (seek_back-Mid n q c.from c r h))

  -- The request is acknowledged in the next iteration.
  pub on_name-Mid :
      (n : ℕ) (p : Packet) (c : Comm)
      → Receiving missing c
      → 2 * length c.inbox + 1 < n
      → Ends (Mid missing n) (on_name os missing p c)
  unfolding on_name
  on_name-Mid n p c r h =
      if_either (Ends (Mid missing n)) c.status.expect_info _ _
        (Ends->>= (λ s. Unit {0}) (Mid missing n) _
          (λ s u. (
            inr (record {
              info = refl;
              init = refl;
              sends = refl;
              out = apart.type (record p { checksum = 0 });
              saved = r.saved;
            }),
            h,
          ))
          (c_string p.payload) (c_string-Ends p.payload))
        (
          record { init = r.init; out = r.out; saved = r.saved; busy = inr r.receives },
          omega (arith, h),
        )

  pub on_packet-Mid :
      (n : ℕ) (p : Packet) (c : Comm)
      → Receiving missing c
      → 2 * length c.inbox + 1 < n
      → Ends (Mid missing n) (on_packet os missing p c)
  unfolding on_packet
  on_packet-Mid n p c r h =
      if_either (Ends (Mid missing n)) (p.type == missing.pkt_type_ack) _ _
        (on_ack-Mid n p c r (omega (arith, h)))
        (if_either (Ends (Mid missing n)) (p.type == missing.pkt_type_ret) _ _
          (on_retransmit-Mid n (os.ntohl p.sequence)
            (record c { retries = (c.retries + 1) % 2 ^ 32 })
            (record { init = r.init; out = r.out; saved = r.saved; receives = r.receives })
            (omega (arith, h)))
          (if_either (Ends (Mid missing n)) (p.type == pkt_type_fln) _ _ (on_name-Mid n p c r h) (
            record { init = r.init; out = r.out; saved = r.saved; busy = inr r.receives },
            omega (arith, h),
          )))

  pub restored :
      (c : Comm)
      → Receiving missing c
      → Receiving missing (restore missing.pkt_type_ret c)
        × ((restore missing.pkt_type_ret c).inbox ≡ c.inbox)
  unfolding restore
  restored c r =
      if_either {A = Comm} (λ d. Receiving missing d × (d.inbox ≡ c.inbox))
        (c.out_packet.type == missing.pkt_type_ret) _ _
        (record { init = r.init; out = r.saved; saved = r.saved; receives = r.receives }, refl)
        (r, refl)

  -- Each call of `recv` consumes a result.
  pub on_recv-Mid :
      (l : List (Option Packet)) (c : Comm)
      → Receiving missing c
      → Ends (Mid missing (2 * length l)) (on_recv os missing l c)
  unfolding on_recv
  on_recv-Mid [] c r = tt
  on_recv-Mid (none ∷ l) c r =
      closing-Ends (Mid missing (2 * length {A = Option Packet} (none ∷ l))) c _ tt
  on_recv-Mid (some p ∷ l) c r =
      let d = record c { inbox = l } in
      let kept =
        restored d
          (record { init = r.init; out = r.out; saved = r.saved; receives = r.receives }) in
      if_either (Ends (Mid missing (2 * length (some p ∷ l)))) (verifies os p) _ _
        (on_packet-Mid (2 * length (some p ∷ l)) p (restore missing.pkt_type_ret d) kept.0
          (omega (arith, ap length kept.1)))
        (on_bad_checksum-Mid (2 * length (some p ∷ l)) d
          (record { init = r.init; out = r.out; saved = r.saved; receives = r.receives })
          (omega arith))
