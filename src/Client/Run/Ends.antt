-- ===== src/Client/Run/Ends.antt =====
-- Client.cpp, `Run`: it ends, whatever arrives.
use cpe464_fileserver.Base.{
  ◌≢◌, ℕ, zero, suc, ◌+◌, ◌≤◌, ◌<◌, ◌≡◌, refl, ap, inl, inr, Bool, true, false, ◌&&◌, List, [], ◌∷◌,
  arith, length, take, All, Bool-cases, ◌==◌, ltb, leb, defined, Ends, Ends->>=, ◌>>=◌,
}
use cpe464_fileserver.Platform.{Platform}
use cpe464_fileserver.Packet.{Packet, pkt_trnsmax, pkt_dmax, rrpkt, rejpkt}
use cpe464_fileserver.Net.{Arrival, Channel, Received, failed, rejected, accepted, send}
use cpe464_fileserver.Net.Send.{send-arrivals}
use cpe464_fileserver.Client.{Client, State, init, error, done, recv_packets, write_to, write_by}
use cpe464_fileserver.Client.RecvPacket.{Delivers, Effect, recv_packet-Effect}
use cpe464_fileserver.Client.Init.{fuel_of}
use cpe464_fileserver.Client.Init.Ends.{InitDone, client_init-Ends}
use cpe464_fileserver.Client.Init.Rounds.{measure}
use cpe464_fileserver.Client.Recv.{recv_round, answer, accept, reply, after_write}
use cpe464_fileserver.Client.Run.{
  running, store_state, dispatch, client_step, client_loop, exit_by, client_exit, run,
}

abbrev Any : Packet → Type 0
Any p = Unit {0}

All-Any : (os : Platform) (l : List Arrival) → All (Delivers os Any) l
All-Any os [] = tt
All-Any os (a ∷ l) = (λ p e v. tt, All-Any os l)

abbrev Below : ℕ → State × Client → Type 0
Below m r = (r.0 ≢ init) × (measure r.1 < m)

reply-Below : (m : ℕ) (q : Packet) (c : Client) → measure c < m → Below m (reply q c)
unfolding reply
reply-Below m q c h = elim (Bool-cases (send q c.net).0) [
  | inl ok ↦ rw (ok, reply) (λ e. cc, omega (arith, l))
  | inr bad ↦ rw (bad, reply) (λ e. cc, omega (arith, l))
]
  where
    l : length (send q c.net).1.arrivals ≡ length c.net.arrivals
    l = ap (length {A = Arrival}) (send-arrivals q c.net)

write_by-measure :
    (rs : List Bool) (bytes : List ℕ) (c : Client) → measure (write_by rs bytes c).1 ≡ measure c
unfolding write_by
write_by-measure [] bytes c = refl
write_by-measure (true ∷ rs) bytes c = refl
write_by-measure (false ∷ rs) bytes c = refl

module _ (os : Platform) where
  after_write-Below :
      (m : ℕ) (p : Packet) (r : Bool × Client) → measure r.1 < m → Below m (after_write os p r)
  unfolding after_write
  after_write-Below m p (false, c) h = (λ e. cc, h)
  after_write-Below m p (true, c) h = ground (arith, reply-Below m (rrpkt os p.sequence) c h)

  write-Below :
      (m : ℕ) (p : Packet) (c : Client)
      → measure c < m
      → Ends (Below m) (write_to p c >>= λ r. defined (after_write os p r))
  unfolding write_to
  write-Below m p c h = elim (Bool-cases (ltb pkt_dmax p.size)) [
    | inl long ↦ rw long tt
    | inr fits ↦ rw fits (
        after_write-Below m p (write_by c.write_results (take p.size p.payload) c)
          (omega (arith, write_by-measure c.write_results (take p.size p.payload) c)))
  ]

  accept-Below :
      (m : ℕ) (p : Packet) (c : Client)
      → measure c < m
      → c.retries ≡ pkt_trnsmax
      → Ends (Below m) (accept os p c)
  unfolding accept
  accept-Below m p c h y = elim (Bool-cases (leb p.sequence c.sequence)) [
    | inr later ↦ rw (accept, later) (reply-Below m (rejpkt os c.sequence) c h)
    | inl due ↦ elim (Bool-cases (p.sequence == c.sequence)) [
      | inl now ↦ rw (accept, due, now) (write-Below m p _ (omega arith))
      | inr old ↦ rw (accept, due, old) (reply-Below m (rrpkt os p.sequence) _ (omega arith))
    ]
  ]

  answer-Below :
      (c : Client) (x : Received × ℕ × Channel)
      → Effect os Any c.retries c.net x
      → Ends (Below (measure c)) (answer os x c)
  unfolding answer
  answer-Below c (failed, r, net) f = (λ e. cc, f.falls)
  answer-Below c (rejected, r, net) f = reply-Below _ (rejpkt os c.sequence) _ f.falls
  answer-Below c (accepted p, r, net) f =
      accept-Below _ p (record c { retries = r; net = net }) f.falls (f.fresh p refl)

  steps_left : State → Client → ℕ
  steps_left init c = measure c + pkt_trnsmax + 1
  steps_left recv_packets c = measure c
  steps_left error c = 0
  steps_left done c = 0

  -- A step leaves fewer steps to take than `m`.
  abbrev StepDone : ℕ → Client → Type 0
  StepDone m d = steps_left d.state d < m

  store-StepDone : (m : ℕ) (r : State × Client) → Below m r → Ends (StepDone m) (store_state r)
  unfolding store_state steps_left
  store-StepDone m (init, d) h = absurd (h.0 refl)
  store-StepDone m (error, d) h = omega arith
  store-StepDone m (done, d) h = omega arith
  store-StepDone m (recv_packets, d) h = h.1

  init-Below :
      (c : Client) (r : State × Client)
      → InitDone os Any c r
      → Below (measure c + pkt_trnsmax + 1) r
  init-Below c r t = (λ e. ground (arith, t.outcome), omega (arith, t.spent))

  dispatch-StepDone :
      (s : State) (c : Client)
      → running s ≡ true
      → 0 < c.retries
      → Ends (StepDone (steps_left s c)) (dispatch os s c)
  unfolding dispatch running steps_left
  dispatch-StepDone init c h r =
      Ends->>= (InitDone os Any c) (StepDone (steps_left init c)) store_state
        (λ d t. store-StepDone (steps_left init c) d (init-Below c d t)) _
        (client_init-Ends os Any c (All-Any os c.net.arrivals))
  dispatch-StepDone recv_packets c h r =
      Ends->>= (Below (measure c)) (StepDone (measure c)) store_state (store-StepDone (measure c)) _
        (unfold recv_round in
          answer-Below c _
            (recv_packet-Effect os Any c.retries c.net r (All-Any os c.net.arrivals)))
  dispatch-StepDone error c h r = cc
  dispatch-StepDone done c h r = cc

  client_loop-Ends :
      (fuel : ℕ) (c : Client)
      → steps_left c.state c < fuel
      → Ends (λ d. (running d.state && ltb 0 d.retries) ≡ false) (client_loop os fuel c)
  unfolding client_loop client_step
  client_loop-Ends zero c h = elim h [ ]
  client_loop-Ends (suc fuel) c h = elim (Bool-cases (running c.state && ltb 0 c.retries)) [
    | inr over ↦ rw (over, client_loop) over
    | inl more ↦
        rw (more, client_loop)
          (Ends->>= (StepDone (steps_left c.state c)) _ (client_loop os fuel)
            (λ d r. client_loop-Ends fuel d (omega (arith, r))) (client_step os c)
            (dispatch-StepDone c.state c (ground arith) (ground arith)))
  ]

  steps_left-le : (s : State) (c : Client) → steps_left s c ≤ fuel_of c + pkt_trnsmax
  unfolding steps_left
  steps_left-le init c = omega arith
  steps_left-le error c = omega arith
  steps_left-le done c = omega arith
  steps_left-le recv_packets c = omega arith

  exit_by-done : (s : State) (k : ℕ) → exit_by s k ≡ 0 → (running s && ltb 0 k) ≡ false → s ≡ done
  unfolding exit_by running
  exit_by-done init k e h = absurd (ground arith)
  exit_by-done error k e h = absurd (ground arith)
  exit_by-done done k e h = refl
  exit_by-done recv_packets k e h = absurd (ground arith)

  -- From every state and for every finite sequence of arrivals and outcomes of calls, `Run` comes
  -- to an end, unless it meets undefined behaviour; it returns 0 only in the state DONE.
  pub run-Ends : (c : Client) → Ends (λ r. r.1 ≡ 0 → r.0.state ≡ done) (run os c)
  unfolding run client_exit
  run-Ends c =
      Ends->>= {B = Client × ℕ} (λ d. (running d.state && ltb 0 d.retries) ≡ false)
        (λ r. r.1 ≡ 0 → r.0.state ≡ done) (λ d. defined (d, client_exit d))
        (λ d h e. exit_by-done d.state d.retries e h) _
        (client_loop-Ends (fuel_of c + pkt_trnsmax + 1) c (omega (arith, steps_left-le c.state c)))
