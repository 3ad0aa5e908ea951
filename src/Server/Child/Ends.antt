-- ===== src/Server/Child/Ends.antt =====
-- Server.cpp, `Child`: it ends, and never in DONE.
use cpe464_fileserver.Base.{
  ℕ, zero, suc, ◌+◌, ◌*◌, ◌%◌, ◌^◌, ◌<◌, ◌≡◌, ◌≢◌, refl, ap, inl, inr, true, false, ◌&&◌, List, [],
  ◌∷◌, arith, length, Bool-cases, ltb, Option, none, some, Outcome, defined, Ends, Ends->>=,
  Option-cases,
}
use cpe464_fileserver.Platform.{Platform}
use cpe464_fileserver.Packet.{Packet, pkt_trnsmax, pkt_dmax}
use cpe464_fileserver.Net.{Arrival, Channel, Received, failed, rejected, accepted, send}
use cpe464_fileserver.Net.Send.{send-arrivals}
use cpe464_fileserver.Client.RecvPacket.{Effect}
use cpe464_fileserver.Server.{Server, State, init, error, done, fill_window, send_window, wait_rr}
use cpe464_fileserver.Server.Init.Ends.{
  measure, server_init-Ends, InitDone, server_recv-Effect, Any,
}
use cpe464_fileserver.Server.Window.{
  send_all, send_round, fill_one, push_piece, filled, fill_loop, fill_round, rewind, on_packet,
  at_front, on_received, wait_round,
}
use cpe464_fileserver.Server.Child.{
  running, store_state, dispatch, child_step, child_loop, exit_by, child_exit, child_fuel, child,
}

abbrev pub steps_left : State → Server → ℕ
steps_left init s = 4 * (measure s + pkt_trnsmax) + 4
steps_left fill_window s = 4 * measure s + 3
steps_left send_window s = 4 * measure s + 2
steps_left wait_rr s = 4 * measure s + 1
steps_left error s = 0
steps_left done s = 0

-- The next state is not DONE, and leaves fewer steps than `m`.
abbrev Good : ℕ → State × Server → Type 0
Good m r = (r.0 ≢ done) × (steps_left r.0 r.1 < m)

send_all-Good :
    (m : ℕ) (l : List Packet) (s : Server) → 4 * measure s + 1 < m → Good m (send_all l s)
unfolding send_all
send_all-Good m [] s h = (λ e. cc, h)
send_all-Good m (p ∷ l) s h = elim (Bool-cases (send p s.net).0) [
  | inl ok ↦
      rw (ok, send_all) (send_all-Good m l (record s { net = (send p s.net).1 }) (omega (arith, a)))
  | inr bad ↦ rw (bad, send_all) (λ e. cc, omega arith)
]
  where
    a : length (send p s.net).1.arrivals ≡ length s.net.arrivals
    a = ap (length {A = Arrival}) (send-arrivals p s.net)

module _ (os : Platform) where
  -- A round of the filling loop touches neither the socket nor the retries.
  abbrev SameMeasure : Server → Option Server → Type 0
  SameMeasure s none = Unit {0}
  SameMeasure s (some s') = measure s' ≡ measure s

  fill_one-same : (s : Server) → Ends (SameMeasure s) (fill_one os s)
  unfolding fill_one push_piece
  fill_one-same s = elim (Option-cases (os.read_at s.from s.position s.buffer_size)) [
    | inl e ↦ rw (e, fill_one) tt
    | inr (bytes, e) ↦ elim (Bool-cases (ltb pkt_dmax (length bytes))) [
      | inl long ↦ rw (e, long, fill_one) tt
      | inr fits ↦ rw (e, fits, fill_one) refl
    ]
  ]

  filled-Good :
      (m : ℕ) (s : Server) (loop : Server → Outcome (State × Server))
      → 4 * measure s + 2 < m
      → ((s' : Server) → measure s' ≡ measure s → Ends (Good m) (loop s'))
      → (o : Option Server) → SameMeasure s o
      → Ends (Good m) (filled s loop o)
  unfolding filled
  filled-Good m s loop h ih none e = (λ q. cc, omega arith)
  filled-Good m s loop h ih (some s') e = ih s' e

  fill_loop-Good :
      (m : ℕ) (rounds : ℕ) (s : Server)
      → 4 * measure s + 2 < m
      → Ends (Good m) (fill_loop os rounds s)
  unfolding fill_loop
  fill_loop-Good m zero s h = (λ e. cc, h)
  fill_loop-Good m (suc rounds) s h =
      Ends->>= (SameMeasure s) (Good m) (filled s (fill_loop os rounds))
        (filled-Good m s (fill_loop os rounds) h
          (λ s' e. fill_loop-Good m rounds s' (omega (arith, e))))
        (fill_one os s) (fill_one-same s)

  rewind-Good : (m q : ℕ) (s : Server) → 4 * measure s + 3 < m → Good m (rewind os q s)
  unfolding rewind
  rewind-Good m q s h = elim (Bool-cases (os.lseek_set s.from ((s.buffer_size * q) % 2 ^ 32))) [
    | inl ok ↦ rw (ok, rewind) (λ e. cc, h)
    | inr bad ↦ rw (bad, rewind) (λ e. cc, omega arith)
  ]

  at_front-Good :
      (m : ℕ) (p : Packet) (l : List Packet) (s : Server)
      → 4 * measure s + 3 < m
      → s.retries ≡ pkt_trnsmax
      → Ends (Good m) (at_front os p l s)
  unfolding at_front on_packet
  at_front-Good m p [] s h y = ground arith
  at_front-Good m p (front ∷ rest) s h y = ground (arith, rewind-Good m p.sequence s h)

  wait_round-Good :
      (s : Server) (x : Received × ℕ × Channel)
      → Effect os Any s.retries s.net x
      → Ends (Good (4 * measure s + 1)) (on_received os x s)
  unfolding on_received
  wait_round-Good s (failed, r, net) e = (λ q. cc, omega arith)
  wait_round-Good s (rejected, r, net) e = (λ q. cc, omega (arith, e.falls))
  wait_round-Good s (accepted p, r, net) e =
      at_front-Good _ p s.window (record s { retries = r; net = net }) (omega (arith, e.falls))
        (e.fresh p refl)

  -- A step leaves fewer steps to take than `m`, and does not reach DONE.
  abbrev pub StepDone : ℕ → Server → Type 0
  StepDone m s = (s.state ≢ done) × (steps_left s.state s < m)

  store-StepDone : (m : ℕ) (r : State × Server) → Good m r → Ends (StepDone m) (store_state r)
  unfolding store_state
  store-StepDone m (init, s) h = (h.0, h.1)
  store-StepDone m (error, s) h = (h.0, h.1)
  store-StepDone m (done, s) h = (h.0, h.1)
  store-StepDone m (fill_window, s) h = (h.0, h.1)
  store-StepDone m (send_window, s) h = (h.0, h.1)
  store-StepDone m (wait_rr, s) h = (h.0, h.1)

  init-Good :
      (s : Server) (r : State × Server)
      → InitDone os (measure s) r
      → Good (4 * (measure s + pkt_trnsmax) + 4) r
  init-Good s r t = ground (arith, t.0, t.1)

  pub dispatch-StepDone :
      (st : State) (s : Server)
      → running st ≡ true
      → 0 < s.retries
      → Ends (StepDone (steps_left st s)) (dispatch os st s)
  unfolding dispatch running
  dispatch-StepDone init s h r =
      Ends->>= (InitDone os (measure s)) (StepDone (steps_left init s)) store_state
        (λ x t. store-StepDone (steps_left init s) x (init-Good s x t)) _ (server_init-Ends os s)
  dispatch-StepDone fill_window s h r =
      Ends->>= (Good (steps_left fill_window s)) (StepDone (steps_left fill_window s)) store_state
        (store-StepDone (steps_left fill_window s)) _
        (unfold fill_round in fill_loop-Good _ _ s (omega arith))
  dispatch-StepDone send_window s h r =
      store-StepDone (steps_left send_window s) (send_round s)
        (unfold send_round in send_all-Good _ s.out_buf s (omega arith))
  dispatch-StepDone wait_rr s h r =
      Ends->>= (Good (steps_left wait_rr s)) (StepDone (steps_left wait_rr s)) store_state
        (store-StepDone (steps_left wait_rr s)) _
        (unfold wait_round in wait_round-Good s _ (server_recv-Effect os s.retries s.net r))
  dispatch-StepDone error s h r = cc
  dispatch-StepDone done s h r = cc

  child_loop-Ends :
      (fuel : ℕ) (s : Server)
      → steps_left s.state s < fuel
      → s.state ≢ done
      → Ends
          (λ d. (d.state ≢ done) × ((running d.state && ltb 0 d.retries) ≡ false))
          (child_loop os fuel s)
  unfolding child_loop child_step
  child_loop-Ends zero s h n = elim h [ ]
  child_loop-Ends (suc fuel) s h n = elim (Bool-cases (running s.state && ltb 0 s.retries)) [
    | inr over ↦ rw (over, child_loop) (n, over)
    | inl more ↦
        rw (more, child_loop)
          (Ends->>= (StepDone (steps_left s.state s)) _ (child_loop os fuel)
            (λ d r. child_loop-Ends fuel d (omega (arith, r.1)) r.0) (child_step os s)
            (dispatch-StepDone s.state s (ground arith) (ground arith)))
  ]

  pub steps_left-le : (st : State) (s : Server) → steps_left st s < child_fuel s
  steps_left-le init s = omega arith
  steps_left-le error s = omega arith
  steps_left-le done s = omega arith
  steps_left-le fill_window s = omega arith
  steps_left-le send_window s = omega arith
  steps_left-le wait_rr s = omega arith

  pub exit_by-one :
      (st : State) (k : ℕ) → st ≢ done → (running st && ltb 0 k) ≡ false → exit_by st k ≡ 1
  unfolding exit_by running
  exit_by-one init k n h = ground arith
  exit_by-one error k n h = refl
  exit_by-one done k n h = absurd (n refl)
  exit_by-one fill_window k n h = ground arith
  exit_by-one send_window k n h = ground arith
  exit_by-one wait_rr k n h = ground arith

  -- For every finite sequence of arrivals and outcomes of calls a child process that does not start
  -- in DONE comes to an end, unless it meets undefined behaviour, and its exit status is 1: the
  -- branch that reports a successful transfer and exits with 0 is never taken.
  pub child_never_succeeds :
      (s : Server) → s.state ≢ done → Ends (λ r. (r.0.state ≢ done) × (r.1 ≡ 1)) (child os s)
  unfolding child child_exit
  child_never_succeeds s n =
      Ends->>= {B = Server × ℕ} _ (λ r. (r.0.state ≢ done) × (r.1 ≡ 1))
        (λ d. defined (d, child_exit d)) (λ d h. (h.0, exit_by-one d.state d.retries h.0 h.1)) _
        (child_loop-Ends (child_fuel s) s (steps_left-le s.state s) n)
