-- ===== src/StopAndWait/Comm/Retries.antt =====
-- Stop and Wait (TCP)/server.c, `client_comm`: the retransmission counter.
use cpe464_fileserver.Base.{
  ℕ, ◌+◌, ◌%◌, ◌^◌, ◌≤◌, ◌<◌, ◌≡◌, refl, sym, subst, ◌∙◌, inl, inr, Bool, true, false, List, [],
  ◌∷◌, ◌++◌, Option, none, some, arith, Bool-cases, if_true, if_false, if_either, Option-cases, leb,
  length, Ends, Ends->>=,
}
use cpe464_fileserver.Platform.{Platform}
use cpe464_fileserver.Packet.{Packet, verifies, pkt_trnsmax}
use cpe464_fileserver.Server.Init.{c_string}
use cpe464_fileserver.Server.Init.Ends.{c_string-Ends}
use cpe464_fileserver.StopAndWait.Comm.{
  Missing, Comm, Turn, below, again, waiting, leave, closing, send_err, same_bytes, add_offset,
  restore, transmit_part, on_bad_checksum, on_accepted, resume, on_ack, seek_back, on_retransmit,
  on_name, on_packet, on_recv, receive_part, prepare, read_part, file_part, on_turn, comm_turn,
  comm_start, file_to_packet, Reached, start, next,
}

-- The counter after a turn is at most `n`.
abbrev Within : ℕ → Turn → Type 0
Within n (below c) = c.retries ≤ n
Within n (again c) = c.retries ≤ n
Within n (waiting c) = c.retries ≤ n
Within n (leave status c) = c.retries ≤ n

closing-Within : (n : ℕ) (c : Comm) (t : Turn) → Within n t → Ends (Within n) (closing c t)
unfolding closing
closing-Within n c t h = elim (Option-cases c.from) [
  | inl e ↦ rw (e, closing) tt
  | inr (fd, e) ↦ rw (e, closing) h
]

send_err-retries : (l : List Bool) (c : Comm) → (send_err l c).retries ≡ c.retries
unfolding send_err
send_err-retries [] c = refl
send_err-retries (true ∷ l) c = refl
send_err-retries (false ∷ l) c = refl

restore-retries : (ret : ℕ) (c : Comm) → (restore ret c).retries ≡ c.retries
unfolding restore
restore-retries ret c = ground arith

add_offset-retries : (n : ℕ) (c : Comm) → (add_offset n c).retries ≡ c.retries
unfolding add_offset
add_offset-retries n c = ground arith

module _ (os : Platform) (missing : Missing) where
  transmit_part-retries : (c : Comm) → (transmit_part os missing c).retries ≡ c.retries
  unfolding transmit_part
  transmit_part-retries c = ground (arith, send_err-retries c.send_results c)

  resume-Within : (n : ℕ) (c : Comm) → c.retries ≤ n → Ends (Within n) (resume os missing c)
  unfolding resume
  resume-Within n c h = elim (Option-cases c.from) [
    | inl e ↦ rw e (ground arith)
    | inr (fd, e) ↦ rw e (ground arith)
  ]

  on_ack-Within :
      (n : ℕ) (p : Packet) (c : Comm) → c.retries ≤ n → Ends (Within n) (on_ack os missing p c)
  unfolding on_ack on_accepted
  on_ack-Within n p c h =
      if_either (Ends (Within n)) c.status.expect_ack _ _
        (if_either (Ends (Within n)) (same_bytes c.out_packet.payload p.payload) _ _
          (resume-Within n (on_accepted os missing c) (unfold on_accepted in omega arith)) h)
        (closing-Within n c (leave 1 c) h)

  seek_back-Within :
      (n q : ℕ) (f : Option ℕ) (c : Comm)
      → c.retries ≤ n
      → Ends (Within n) (seek_back os missing f q c)
  unfolding seek_back
  seek_back-Within n q none c h = tt
  seek_back-Within n q (some fd) c h = ground arith

  on_retransmit-Within :
      (n q : ℕ) (c : Comm) → c.retries ≤ n → Ends (Within n) (on_retransmit os missing q c)
  unfolding on_retransmit
  on_retransmit-Within n q c h = ground (arith, seek_back-Within n q c.from c h)

  on_name-Within :
      (n : ℕ) (p : Packet) (c : Comm) → c.retries ≤ n → Ends (Within n) (on_name os missing p c)
  unfolding on_name
  on_name-Within n p c h = elim (Bool-cases c.status.expect_info) [
    | inl right ↦
        rw (right, on_name)
          (Ends->>= (λ s. Unit {0}) (Within n) _ (λ s u. h) (c_string p.payload)
            (c_string-Ends p.payload))
    | inr wrong ↦ rw (wrong, on_name) h
  ]

  on_packet-Within :
      (n : ℕ) (p : Packet) (c : Comm) → c.retries < n → Ends (Within n) (on_packet os missing p c)
  unfolding on_packet
  on_packet-Within n p c h = ground (
    arith,
    on_ack-Within n p c (omega arith),
    on_retransmit-Within n (os.ntohl p.sequence) (record c { retries = (c.retries + 1) % 2 ^ 32 })
        (omega arith),
    on_name-Within n p c (omega arith),
  )

  on_recv-Within :
      (n : ℕ) (l : List (Option Packet)) (c : Comm)
      → c.retries < n
      → Ends (Within n) (on_recv os missing l c)
  unfolding on_recv on_bad_checksum
  on_recv-Within n [] c h = omega arith
  on_recv-Within n (none ∷ l) c h = closing-Within n c _ (omega arith)
  on_recv-Within n (some p ∷ l) c h = elim (Bool-cases (verifies os p)) [
    | inl good ↦
        rw (good, on_recv)
          (on_packet-Within n p (restore missing.pkt_type_ret (record c { inbox = l }))
            (omega (arith, restore-retries missing.pkt_type_ret (record c { inbox = l }))))
    | inr bad ↦ rw (bad, on_recv) (omega arith)
  ]

  receive_part-Within :
      (n : ℕ) (c : Comm) → c.retries < n → Ends (Within n) (receive_part os missing c)
  unfolding receive_part
  receive_part-Within n c h =
      if_either (Ends (Within n)) c.status.receive _ _ (on_recv-Within n c.inbox c h) (omega arith)

  prepare-Within :
      (n : ℕ) (r : Option (List ℕ × Packet)) (c : Comm)
      → c.retries ≤ n
      → Within n (prepare os missing r c)
  unfolding prepare
  prepare-Within n none c h = h
  prepare-Within n (some (bytes, p)) c h = omega (arith, add_offset-retries (length bytes) c)

  file_to_packet-Ends :
      (fd at sequence size : ℕ) (p : Packet)
      → Ends (λ r. Unit {0}) (file_to_packet os missing fd at sequence size p)
  unfolding file_to_packet
  file_to_packet-Ends fd at sequence size p = elim (Option-cases (os.read_at fd at size)) [
    | inl e ↦ rw (e, file_to_packet) tt
    | inr (bytes, e) ↦ rw (e, file_to_packet) (ground arith)
  ]

  read_part-Within :
      (n : ℕ) (f : Option ℕ) (c : Comm) → c.retries ≤ n → Ends (Within n) (read_part os missing f c)
  unfolding read_part
  read_part-Within n none c h = tt
  read_part-Within n (some fd) c h =
      if_either (Ends (Within n)) c.status.next_data _ _
        (Ends->>= (λ r. Unit {0}) (Within n) _ (λ r u. prepare-Within n r c h) _
          (file_to_packet-Ends fd c.position c.sequence c.buffer_size c.out_packet))
        h

  open_part-Within :
      (n : ℕ) (ok : Bool) (o : Option ℕ) (c : Comm)
      → c.retries ≤ n
      → c.status.expect_info ≡ false
      → c.status.info_init ≡ true
      → os.open_rdonly (c.name ++ missing.heap_tail) ≡ o
      → Ends (Within n) (file_part os missing ok c)
  unfolding file_part
  open_part-Within n ok none c h e i o = rw (e, i, o, file_part) h
  open_part-Within n true (some fd) c h e i o =
      rw (e, i, o, file_part)
        (read_part-Within n (some fd)
          (record c {
            from = some fd;
            position = 0;
            status = record (c.status) { info_init = false; next_data = true };
          })
          h)
  open_part-Within n false (some fd) c h e i o = rw (e, i, o, file_part) h

  file_part-Within :
      (n : ℕ) (ok : Bool) (c : Comm) → c.retries ≤ n → Ends (Within n) (file_part os missing ok c)
  unfolding file_part
  file_part-Within n ok c h = elim (Bool-cases c.status.expect_info) [
    | inl e ↦ rw (e, file_part) h
    | inr e ↦ elim (Bool-cases c.status.info_init) [
      | inl i ↦ open_part-Within n ok _ c h e i refl
      | inr i ↦
          subst (Ends (Within n))
            (sym (if_false c.status.expect_info _ _ e ∙ if_false c.status.info_init _ _ i))
            (if_either (Ends (Within n)) c.status.next_data _ _ (read_part-Within n c.from c h) h)
    ]
  ]

  on_turn-Within :
      (n : ℕ) (ok : Bool) (t : Turn) → Within n t → Ends (Within n) (on_turn os missing ok t)
  unfolding on_turn
  on_turn-Within n ok (below c) h = file_part-Within n ok c h
  on_turn-Within n ok (again c) h = h
  on_turn-Within n ok (waiting c) h = h
  on_turn-Within n ok (leave k c) h = h

  comm_turn-Within :
      (ok : Bool) (c : Comm)
      → c.retries ≤ pkt_trnsmax
      → Ends (Within pkt_trnsmax) (comm_turn os missing ok c)
  unfolding comm_turn
  comm_turn-Within ok c h = elim (Bool-cases c.status.quit) [
    | inl q ↦ rw (q, comm_turn) (closing-Within pkt_trnsmax c _ h)
    | inr q ↦ elim (Bool-cases (leb pkt_trnsmax c.retries)) [
      | inl m ↦
          subst (Ends (Within pkt_trnsmax)) (sym (if_false c.status.quit _ _ q ∙ if_true _ _ _ m))
            (closing-Within pkt_trnsmax c (leave 0 c) h)
      | inr m ↦
          subst (Ends (Within pkt_trnsmax)) (sym (if_false c.status.quit _ _ q ∙ if_false _ _ _ m))
            (Ends->>= (Within pkt_trnsmax) (Within pkt_trnsmax) (on_turn os missing ok)
              (λ t w. on_turn-Within pkt_trnsmax ok t w) _
              (receive_part-Within pkt_trnsmax (transmit_part os missing c)
                (ground (arith, transmit_part-retries c))))
    ]
  ]

  -- In every iteration of the loop of `client_comm`, whatever is received and whichever calls fail,
  -- the retransmission counter is at most `PKT_TRNSMAX`: no request is counted past the limit.
  pub Reached-retries :
      {inbox : List (Option Packet)} {results : List Bool} {c : Comm}
      → Reached os missing inbox results c
      → c.retries ≤ pkt_trnsmax
  unfolding comm_start
  Reached-retries start = omega arith
  Reached-retries (next {c} ok r e) =
      subst (Ends (Within pkt_trnsmax)) e (comm_turn-Within ok c (Reached-retries r))
