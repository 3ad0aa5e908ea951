-- ===== src/Client/Run/Delivery.antt =====
-- Client.cpp, `Run`: the client ends, and its file is right.
use cpe464_fileserver.Base.{
  ◌>>=◌, ℕ, zero, suc, ◌+◌, ◌*◌, ◌-◌, ◌^◌, ◌≤◌, ◌<◌, ◌≡◌, sym, subst, ◌∙◌, inl, inr, true, false,
  ◌&&◌, List, [], arith, length, take-all, All, Bool-cases, ltb, defined, Returns, Returns->>=,
}
use cpe464_fileserver.Platform.{Platform}
use cpe464_fileserver.Packet.{pkt_trnsmax, pkt_dmax}
use cpe464_fileserver.File.{IsPiece, IsStart, take-zero, no_pieces}
use cpe464_fileserver.Client.{Client, State, init, error, done, recv_packets}
use cpe464_fileserver.Client.RecvPacket.{Delivers}
use cpe464_fileserver.Client.Init.{fuel_of}
use cpe464_fileserver.Client.Init.Rounds.{measure}
use cpe464_fileserver.Client.Recv.Transfer.{
  InTransfer, RoundDone, recv_round-RoundDone, InTransfer-IsStart,
}
use cpe464_fileserver.Client.Run.{
  running, store_state, dispatch, client_step, client_loop, exit_by, client_exit, run,
}

module _ (os : Platform) (content : List ℕ) (b : ℕ) where
  -- What holds of the client in each state of the transfer.
  abbrev pub Phase : State → Client → Type 0
  Phase init c = ⊥
  Phase recv_packets c = InTransfer os content b c
  Phase error c = IsStart content c.written
  Phase done c = c.written ≡ content

  -- How many steps the client may still take.
  abbrev steps_left : State → Client → ℕ
  steps_left init c = 0
  steps_left recv_packets c = measure c
  steps_left error c = 0
  steps_left done c = 0

  -- A step keeps the phase, and leaves fewer steps to take than `m`.
  abbrev StepDone : ℕ → Client → Type 0
  StepDone m d = Phase d.state d × (steps_left d.state d < m)

  InTransfer-store :
      (s : State) {c : Client}
      → InTransfer os content b c
      → InTransfer os content b (record c { state = s })
  InTransfer-store s t = record {
    written = t.written;
    within = t.within;
    buffer = t.buffer;
    rest = t.rest;
  }

  store-StepDone :
      (m : ℕ) (r : State × Client)
      → RoundDone os content b m r
      → Returns (StepDone m) (store_state r)
  unfolding store_state
  store-StepDone m (init, d) h = absurd h.1
  store-StepDone m (error, d) h = (h.1, omega arith)
  store-StepDone m (done, d) h = (h.1, omega arith)
  store-StepDone m (recv_packets, d) h = (InTransfer-store recv_packets h.1, h.0)

  module _ (pos : 0 < b) (fits : b ≤ pkt_dmax) (short : length content < b * (2 ^ 32 - 1)) where
    dispatch-StepDone :
        (s : State) (c : Client)
        → running s ≡ true
        → 0 < c.retries
        → Phase s c
        → Returns (StepDone (steps_left s c)) (dispatch os s c)
    unfolding dispatch running
    dispatch-StepDone init c h r ph = absurd ph
    dispatch-StepDone recv_packets c h r ph =
        Returns->>= (RoundDone os content b (measure c)) (StepDone (measure c)) store_state
          (store-StepDone (measure c)) _ (recv_round-RoundDone os content b pos fits short c r ph)
    dispatch-StepDone error c h r ph = cc
    dispatch-StepDone done c h r ph = cc

    -- With more fuel than steps the loop of `Run` ends, in a phase in which it stops.
    client_loop-Returns :
        (fuel : ℕ) (c : Client)
        → steps_left c.state c < fuel
        → Phase c.state c
        → Returns
            (λ d. Phase d.state d × ((running d.state && ltb 0 d.retries) ≡ false))
            (client_loop os fuel c)
    unfolding client_loop client_step
    client_loop-Returns zero c h ph = elim h [ ]
    client_loop-Returns (suc fuel) c h ph = elim (Bool-cases (running c.state && ltb 0 c.retries)) [
      | inr over ↦ rw (over, client_loop) (ph, over)
      | inl more ↦
          rw (more, client_loop)
            (Returns->>= (StepDone (steps_left c.state c)) _ (client_loop os fuel)
              (λ d r. client_loop-Returns fuel d (omega (arith, r.1)) r.0) (client_step os c)
              (dispatch-StepDone c.state c (ground arith) (ground arith) ph))
    ]

    abbrev Stopped : Client → Type 0
    Stopped d = Phase d.state d × ((running d.state && ltb 0 d.retries) ≡ false)

    Phase-IsStart : (s : State) (d : Client) → Phase s d → IsStart content d.written
    Phase-IsStart init d ph = absurd ph
    Phase-IsStart recv_packets d ph = InTransfer-IsStart os content b ph
    Phase-IsStart error d ph = ph
    Phase-IsStart done d ph = rw ph (take-all (length content) content (omega arith))

    exit_zero :
        (s : State) (d : Client)
        → Phase s d
        → (running s && ltb 0 d.retries) ≡ false
        → exit_by s d.retries ≡ 0
        → d.written ≡ content
    unfolding exit_by running
    exit_zero init d ph h e = absurd ph
    exit_zero recv_packets d ph h e = absurd (ground arith)
    exit_zero error d ph h e = absurd (omega arith)
    exit_zero done d ph h e = ph

    -- What the client ends with: a beginning of the file, and the whole file if the status is 0.
    abbrev pub IsDelivered : Client × ℕ → Type 0
    IsDelivered r = IsStart content r.0.written × (r.1 ≡ 0 → r.0.written ≡ content)

    -- The loop with enough fuel, and the exit, from the transfer on.
    pub loop_delivers :
        (fuel : ℕ) (c : Client)
        → c.state ≡ recv_packets
        → InTransfer os content b c
        → measure c < fuel
        → Returns IsDelivered (client_loop os fuel c >>= λ d. defined (d, client_exit d))
    unfolding client_exit
    loop_delivers fuel c e t h =
        Returns->>= Stopped IsDelivered (λ d. defined (d, client_exit d))
          (λ d h. (Phase-IsStart d.state d h.0, exit_zero d.state d h.0 h.1)) _
          (client_loop-Returns fuel c (subst (λ s. steps_left s c < fuel) (sym e) h)
            (subst (λ s. Phase s c) (sym e) t))

    -- Let a file be shorter than 2^32 - 1 pieces of at most 1400 bytes, and let every packet that
    -- reaches the client during the transfer with a good checksum be a data packet with the piece
    -- of its number. Then `Run`, from the state RECV_PACKETS on with the pieces before its sequence
    -- number in the target, has no undefined behaviour and ends, whatever is lost, repeated,
    -- reordered or detectably damaged and whichever calls fail; the target then holds a beginning
    -- of the file; and if `Run` returns 0, it holds the whole file.
    pub run_delivers :
        (c : Client)
        → c.state ≡ recv_packets
        → InTransfer os content b c
        → Returns (λ r. IsStart content r.0.written × (r.1 ≡ 0 → r.0.written ≡ content)) (run os c)
    unfolding run
    run_delivers c e t = loop_delivers (fuel_of c + pkt_trnsmax + 1) c e t (omega arith)

-- A client at the start of the transfer.
pub fresh_client :
    (os : Platform) (content : List ℕ) (b : ℕ) (c : Client)
    → c.sequence ≡ 0
    → c.written ≡ []
    → c.buffer_size ≡ b
    → All (Delivers os (IsPiece content b)) c.net.arrivals
    → InTransfer os content b c
fresh_client os content b c e w z all = record {
  written = w ∙ sym (take-zero content b (no_pieces b e));
  within = omega (arith, no_pieces b e);
  buffer = z;
  rest = all;
}
