-- ===== src/StopAndWait/Comm/Ends/States.antt =====
-- Stop and Wait (TCP)/server.c, `client_comm`: the states in which its parts start, and what is left to do.
use cpe464_fileserver.Base.{
  ℕ, ◌+◌, ◌*◌, ◌<◌, ◌≡◌, ◌≢◌, refl, ◌⊎◌, inl, inr, Bool, true, false, List, [], ◌∷◌, Option, none,
  some, arith, if_true, if_false, if_either, if◌then◌else◌, Option-cases, length, Ends,
}
use cpe464_fileserver.Packet.{Packet, pkt_type_dat, pkt_type_rej}
use cpe464_fileserver.StopAndWait.Comm.{
  Missing, Comm, Turn, below, again, waiting, leave, closing, send_err, add_offset,
}

-- No other packet has the type of an acknowledgment.
pub record TellsApart (missing : Missing) : Type 0 where
  pub type : (p : Packet) → (missing.ackpkt p).type ≡ missing.pkt_type_ack
  pub not_zero : missing.pkt_type_ack ≢ 0
  pub not_data : missing.pkt_type_ack ≢ pkt_type_dat
  pub not_rej : missing.pkt_type_ack ≢ pkt_type_rej

-- No packet of an acknowledgment is held, and there is something to do unless there is no request.
pub record Live (missing : Missing) (c : Comm) : Type 0 where
  pub init : c.status.info_init ≡ false
  pub out : c.out_packet.type ≢ missing.pkt_type_ack
  pub saved : c.saved_packet.type ≢ missing.pkt_type_ack
  pub busy :
      (c.status.expect_info ≡ true) ⊎ ((c.status.transmit ≡ true) ⊎ (c.status.receive ≡ true))

-- The request is to be answered.
pub record Fresh (missing : Missing) (c : Comm) : Type 0 where
  pub info : c.status.expect_info ≡ false
  pub init : c.status.info_init ≡ true
  pub sends : c.status.transmit ≡ true
  pub out : c.out_packet.type ≡ missing.pkt_type_ack
  pub saved : c.saved_packet.type ≢ missing.pkt_type_ack

-- In front of the part that opens the file.
pub record Opening (missing : Missing) (c : Comm) : Type 0 where
  pub info : c.status.expect_info ≡ false
  pub init : c.status.info_init ≡ true
  pub saved : c.saved_packet.type ≢ missing.pkt_type_ack
  pub receives : c.status.receive ≡ false

-- In front of `recv`.
pub record Receiving (missing : Missing) (c : Comm) : Type 0 where
  pub init : c.status.info_init ≡ false
  pub out : c.out_packet.type ≢ missing.pkt_type_ack
  pub saved : c.saved_packet.type ≢ missing.pkt_type_ack
  pub receives : c.status.receive ≡ true

-- In front of the part that reads the file.
pub record Due (missing : Missing) (c : Comm) : Type 0 where
  pub init : c.status.info_init ≡ false
  pub out : c.out_packet.type ≢ missing.pkt_type_ack
  pub saved : c.saved_packet.type ≢ missing.pkt_type_ack
  pub busy : (c.status.next_data ≡ true) ⊎ (c.status.receive ≡ true)

abbrev pub Good : Missing → Comm → Type 0
Good missing c = Live missing c ⊎ Fresh missing c

-- How many iterations there may be.
abbrev pub left : Comm → ℕ
left c = 2 * length c.inbox + (if c.status.info_init then 1 else 0)

-- After a part of an iteration.
abbrev pub Mid : Missing → ℕ → Turn → Type 0
Mid missing n (below c) = Due missing c × (2 * length c.inbox < n)
Mid missing n (again c) = Good missing c × (left c < n)
Mid missing n (waiting c) = Unit
Mid missing n (leave status c) = Unit

-- After the whole iteration.
abbrev pub Goes : Missing → ℕ → Turn → Type 0
Goes missing n (below c) = ⊥
Goes missing n (again c) = Good missing c × (left c < n)
Goes missing n (waiting c) = Unit
Goes missing n (leave status c) = Unit

pub left_idle : (c : Comm) → c.status.info_init ≡ false → left c ≡ 2 * length c.inbox
left_idle c i = omega (arith, if_false {A = ℕ} c.status.info_init 1 0 i)

pub left_opening : (c : Comm) → c.status.info_init ≡ true → left c ≡ 2 * length c.inbox + 1
left_opening c i = omega (arith, if_true {A = ℕ} c.status.info_init 1 0 i)

pub closing-Ends : (P : Turn → Type 0) (c : Comm) (t : Turn) → P t → Ends P (closing c t)
unfolding closing
closing-Ends P c t h = elim (Option-cases c.from) [
  | inl e ↦ rw (e, closing) tt
  | inr (fd, e) ↦ rw (e, closing) h
]

pub send_err_kept :
    (l : List Bool) (c : Comm)
    → ((send_err l c).out_packet ≡ c.out_packet)
      × ((send_err l c).saved_packet ≡ c.saved_packet)
      × ((send_err l c).inbox ≡ c.inbox)
unfolding send_err
send_err_kept [] c = (refl, refl, refl)
send_err_kept (true ∷ l) c = (refl, refl, refl)
send_err_kept (false ∷ l) c = (refl, refl, refl)

pub add_offset_kept :
    (n : ℕ) (c : Comm)
    → ((add_offset n c).saved_packet ≡ c.saved_packet)
      × ((add_offset n c).status ≡ c.status)
      × ((add_offset n c).inbox ≡ c.inbox)
unfolding add_offset
add_offset_kept n c =
    if_either {A = Comm}
      (λ d. (d.saved_packet ≡ c.saved_packet) × (d.status ≡ c.status) × (d.inbox ≡ c.inbox))
      c.status.retransmit _ _ (refl, refl, refl) (refl, refl, refl)

-- A piece of the file has the type of data.
abbrev pub Piece : Option (List ℕ × Packet) → Type 0
Piece none = Unit
Piece (some (bytes, p)) = p.type ≡ pkt_type_dat
