-- ===== src/Server/Child/Serves.antt =====
-- Server.cpp, `Child`: every data packet that a child process sends is a piece of the file.
use cpe464_fileserver.Base.{
  ℕ, zero, suc, ◌+◌, ◌*◌, ◌-◌, ◌≤◌, ◌<◌, ◌≡◌, ◌≢◌, refl, sym, ap, ◌∙◌, subst, inl, inr, true, false,
  ◌&&◌, List, [], arith, length, All, Bool-cases, ltb, defined, Returns, Returns->>=, Returns-both,
}
use cpe464_fileserver.Platform.{Platform}
use cpe464_fileserver.Packet.{Packet, pkt_dmax}
use cpe464_fileserver.Server.{Server, State, init, error, done, fill_window, send_window, wait_rr}
use cpe464_fileserver.Server.Init.Ends.{server_recv-Effect}
use cpe464_fileserver.Server.Window.{send_round, fill_round, wait_round}
use cpe464_fileserver.Server.Window.Pieces.{IsServed}
use cpe464_fileserver.Server.Window.Serving.{Sending, Filled, fill_loop-Filled}
use cpe464_fileserver.Server.Window.Waiting.{Phase, Kept, send_all-Kept, on_received-Kept}
use cpe464_fileserver.Server.Child.{
  running, store_state, dispatch, child_step, child_loop, child_exit, child_fuel, child,
}
use cpe464_fileserver.Server.Child.Ends.{steps_left, steps_left-le, StepDone, dispatch-StepDone}

module _ (os : Platform) (content : List ℕ) (b top : ℕ) (pos : 0 < b) (fits : b ≤ pkt_dmax) where
  -- The state is in its phase, and there is room for the numbers of `k` more windows.
  abbrev pub Ready : ℕ → ℕ → Server → Type 0
  Ready w k s = Phase os content b top s.state s × (s.sequence + k * w ≤ top) × (s.window_size ≡ w)

  Sending-store :
      (st : State) {s : Server}
      → Sending os content b top s
      → Sending os content b top (record s { state = st })
  Sending-store st t = record {
    file = t.file;
    buffer = t.buffer;
    at = t.at;
    base = t.base;
    count = t.count;
    window = t.window;
    ends = t.ends;
    out = t.out;
    sent = t.sent;
    within = t.within;
    room = t.room;
  }

  -- `fillWindow` leaves a window that is not empty.
  Filled-full :
      (s : Server) (r : State × Server)
      → 0 < s.window_size
      → Filled os content b pos fits top (s.window_size - length s.window) s r
      → r.1.window ≢ []
  Filled-full s r p f e = absurd (omega (arith, f.4, ap (length {A = Packet}) e))

  Phase-store :
      (st : State) (s : Server)
      → Phase os content b top st s
      → Phase os content b top st (record s { state = st })
  Phase-store init s ph = ph
  Phase-store done s ph = ph
  Phase-store error s ph = ph
  Phase-store fill_window s ph = Sending-store fill_window ph
  Phase-store send_window s ph = (Sending-store send_window ph.0, ph.1)
  Phase-store wait_rr s ph = (Sending-store wait_rr ph.0, ph.1)

  store-Ready :
      (w k : ℕ) (r : State × Server)
      → Phase os content b top r.0 r.1
      → r.1.sequence + k * w ≤ top
      → r.1.window_size ≡ w
      → Returns (Ready w k) (store_state r)
  unfolding store_state
  store-Ready w k (st, s) ph h e = (Phase-store st s ph, h, e)

  pub dispatch-Ready :
      (w k : ℕ) (st : State) (s : Server)
      → 0 < w
      → running st ≡ true
      → 0 < s.retries
      → Phase os content b top st s
      → s.sequence + suc k * w ≤ top
      → s.window_size ≡ w
      → Returns (Ready w k) (dispatch os st s)
  unfolding dispatch running
  dispatch-Ready w k init s p r l ph h e = absurd ph
  dispatch-Ready w k error s p r l ph h e = cc
  dispatch-Ready w k done s p r l ph h e = cc
  dispatch-Ready w k fill_window s p r l ph h e =
      Returns->>= (Filled os content b pos fits top (s.window_size - length s.window) s) (Ready w k)
        store_state
        (λ x f.
          store-Ready w k x
            (subst (λ st. Phase os content b top st x.1) (sym f.0)
              (f.1, Filled-full s x (omega arith) f))
            (omega (arith, f.2)) (f.3 ∙ e))
        (fill_round os s)
        (unfold fill_round in fill_loop-Filled os content b pos fits top _ s ph (omega arith))
  dispatch-Ready w k send_window s p r l ph h e =
      let kept : Kept os content b top s (send_round s) =
        unfold send_round in send_all-Kept os content b top s.out_buf s ph.0.out ph.0 ph.1 in
      store-Ready w k (send_round s) kept.0 (omega (arith, kept.1)) (kept.2 ∙ e)
  dispatch-Ready w k wait_rr s p r l ph h e =
      Returns->>= (Kept os content b top s) (Ready w k) store_state
        (λ x kept. store-Ready w k x kept.0 (omega (arith, kept.1)) (kept.2 ∙ e)) (wait_round os s)
        (unfold wait_round in
          on_received-Kept os content b top s _ (server_recv-Effect os s.retries s.net l) ph.0 pos
            ph.1)

  pub child_loop-Returns :
      (w fuel : ℕ) (s : Server)
      → 0 < w
      → steps_left s.state s < fuel
      → Ready w fuel s
      → Returns
          (λ d. Phase os content b top d.state d × ((running d.state && ltb 0 d.retries) ≡ false))
          (child_loop os fuel s)
  unfolding child_loop child_step
  child_loop-Returns w zero s p h t = elim h [ ]
  child_loop-Returns w (suc fuel) s p h t = elim (Bool-cases (running s.state && ltb 0 s.retries)) [
    | inr over ↦ rw (over, child_loop) (t.0, over)
    | inl more ↦
        rw (more, child_loop)
          (Returns->>= (λ d. StepDone os (steps_left s.state s) d × Ready w fuel d) _
            (child_loop os fuel) (λ d r. child_loop-Returns w fuel d p (omega (arith, r.0.1)) r.1)
            (child_step os s)
            (Returns-both (StepDone os (steps_left s.state s)) (Ready w fuel) _
              (dispatch-StepDone os s.state s (ground arith) (ground arith))
              (dispatch-Ready w fuel s.state s p (ground arith) (ground arith) t.0 t.1 t.2)))
  ]

  pub served :
      (st : State) (s : Server)
      → Phase os content b top st s
      → All (IsServed os content b) s.net.sent
  served init s ph = absurd ph
  served done s ph = absurd ph
  served error s ph = ph
  served fill_window s ph = ph.sent
  served send_window s ph = ph.0.sent
  served wait_rr s ph = ph.0.sent

  -- A child process that starts to serve a file, in pieces of 1 to 1400 bytes and windows of at
  -- least one packet, has no
  -- undefined behaviour and ends, whatever arrives and whichever call of `sendtoErr` fails; and
  -- every data packet that it has sent is the packet for the piece of its number. The session is
  -- short enough for no number and no offset to reach 2^32.
  pub child_serves :
      (s : Server)
      → s.state ≡ fill_window
      → Sending os content b top s
      → 0 < s.window_size
      → s.sequence + child_fuel s * s.window_size ≤ top
      → Returns (λ r. All (IsServed os content b) r.0.net.sent) (child os s)
  unfolding child
  child_serves s e t p h =
      Returns->>= {B = Server × ℕ} _ (λ r. All (IsServed os content b) r.0.net.sent)
        (λ d. defined (d, child_exit d)) (λ d x. served d.state d x.0) _
        (child_loop-Returns s.window_size (child_fuel s) s p (steps_left-le os s.state s)
          (subst (λ st. Phase os content b top st s) (sym e) t, h, refl))
