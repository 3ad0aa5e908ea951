-- ===== src/Server/Child/Refines.antt =====
-- Server.cpp, `Child`: the child process refines the abstract window.
use cpe464_fileserver.Base.{
  ℕ, zero, suc, ◌+◌, ◌*◌, ◌-◌, ◌≤◌, ◌<◌, ◌≡◌, refl, sym, ap, ◌∙◌, subst, inl, inr, ◌⊎◌, true, false,
  ◌&&◌, List, [], ◌++◌, append_assoc, arith, length, Bool-cases, ltb, Returns, Returns->>=,
  Returns-both, Returns-Ends, defined,
}
use cpe464_fileserver.Platform.{Platform}
use cpe464_fileserver.Packet.{pkt_dmax}
use cpe464_fileserver.Server.{Server, State, init, error, done, fill_window, send_window, wait_rr}
use cpe464_fileserver.Server.Window.{fill_round, wait_round, send_round}
use cpe464_fileserver.Server.Window.Pieces.{pieces}
use cpe464_fileserver.Server.Window.Serving.{Sending, Filled, fill_loop-Filled, le_mul}
use cpe464_fileserver.Server.Window.Waiting.{Phase}
use cpe464_fileserver.Server.Window.Spec.{Word, front, front-append}
use cpe464_fileserver.Server.Window.Words.{said}
use cpe464_fileserver.Server.Window.Shows.{is_filled, Shows, Moves}
use cpe464_fileserver.Server.Window.Refines.{wait_round-Moves, send_round-Moves, Filled-Moves}
use cpe464_fileserver.Server.Child.{
  running, store_state, dispatch, child_step, child_loop, child_exit, child_fuel, child,
}
use cpe464_fileserver.Server.Child.Ends.{steps_left, steps_left-le, StepDone, dispatch-StepDone}
use cpe464_fileserver.Server.Child.Serves.{Ready, dispatch-Ready}

module _ (os : Platform) (content : List ℕ) (b : ℕ) where
  -- After a step from `s`, with the window from `base` on.
  abbrev pub Moved : ℕ → ℕ → Server → Server → Type 0
  Moved w base s d = Moves os content b w base s (d.state, d)

  -- After any number of steps from `s`: some words were heard, and the window begins where they
  -- lead to.
  abbrev pub Follows : ℕ → ℕ → Server → Server → Type 0
  Follows w base s d =
      (d.state ≡ error)
      ⊎ ((l : List Word) × (said os s.net.arrivals ≡ l ++ said os d.net.arrivals)
          × Shows os content b w (front w base l) d.state d)

  store-Moved :
      (w base : ℕ) (s : Server) (r : State × Server)
      → Moves os content b w base s r
      → Returns (Moved w base s) (store_state r)
  unfolding store_state
  store-Moved w base s (st, d) (inl e) = inl e
  store-Moved w base s (st, d) (inr (l, a, h)) =
      inr
        (l, a, record { ordered = h.ordered; within = h.within; full = h.full; window = h.window })

  -- The loop stops in the state ERROR.
  stopped :
      (w fuel base : ℕ) (t s : Server)
      → s.state ≡ error
      → 0 < fuel
      → Returns (Follows w base t) (child_loop os fuel s)
  unfolding child_loop running
  stopped w zero base t s e h = absurd (omega arith)
  stopped w (suc fuel) base t s e h =
      let over : (running s.state && ltb 0 s.retries) ≡ false =
        ap (λ st. running st && ltb 0 s.retries) e in
      rw (over, child_loop) (inl e)

  module _ (top : ℕ) (pos : 0 < b) (fits : b ≤ pkt_dmax) where
    dispatch-Moved :
        (base : ℕ) (st : State) (s : Server)
        → running st ≡ true
        → Phase os content b top st s
        → s.sequence + s.window_size ≤ top
        → Shows os content b s.window_size base st s
        → Returns (Moved s.window_size base s) (dispatch os st s)
    unfolding dispatch running
    dispatch-Moved base init s h ph l sh = absurd ph
    dispatch-Moved base error s h ph l sh = cc
    dispatch-Moved base done s h ph l sh = cc
    dispatch-Moved base fill_window s h ph l sh =
        Returns->>= (Filled os content b pos fits top (s.window_size - length s.window) s)
          (Moved s.window_size base s) store_state
          (λ r f.
            store-Moved s.window_size base s r
              (Filled-Moves os content b top base s pos fits r sh f))
          (fill_round os s)
          (unfold fill_round in fill_loop-Filled os content b pos fits top _ s ph (omega arith))
    dispatch-Moved base send_window s h ph l sh =
        store-Moved s.window_size base s (send_round s)
          (send_round-Moves os content b s.window_size base s sh)
    dispatch-Moved base wait_rr s h ph l sh =
        Returns->>= (Moves os content b s.window_size base s) (Moved s.window_size base s)
          store_state (store-Moved s.window_size base s) (wait_round os s)
          (wait_round-Moves os content b s.window_size base s sh
            (omega (arith, ph.0.within, ph.0.room, le_mul b top pos)) ph.1)

    -- How the loop goes on after a step.
    abbrev Going : ℕ → ℕ → ℕ → ℕ → Server → Server → Type 0
    Going w fuel m base s d =
        StepDone os m d × (Ready os content b top pos fits w fuel d × Moved w base s d)

    -- The words heard in a step are heard behind those before.
    heard_then :
        (w base : ℕ) (l m : List Word) (t s d : Server)
        → said os t.net.arrivals ≡ l ++ said os s.net.arrivals
        → said os s.net.arrivals ≡ m ++ said os d.net.arrivals
        → Shows os content b w (front w (front w base l) m) d.state d
        → (said os t.net.arrivals ≡ (l ++ m) ++ said os d.net.arrivals)
          × Shows os content b w (front w base (l ++ m)) d.state d
    heard_then w base l m t s d a e h = (
      a ∙ ap (λ x. l ++ x) e ∙ sym (append_assoc l m (said os d.net.arrivals)),
      subst (λ k. Shows os content b w k d.state d) (sym (front-append w base l m)) h,
    )

    loop-Follows :
        (w fuel base : ℕ) (l : List Word) (t s : Server)
        → 0 < w
        → steps_left s.state s < fuel
        → Ready os content b top pos fits w fuel s
        → said os t.net.arrivals ≡ l ++ said os s.net.arrivals
        → Shows os content b w (front w base l) s.state s
        → Returns (Follows w base t) (child_loop os fuel s)
    unfolding child_loop child_step
    loop-Follows w zero base l t s p h r a sh = elim h [ ]
    loop-Follows w (suc fuel) base l t s p h r a sh =
        elim (Bool-cases (running s.state && ltb 0 s.retries)) [
          | inr over ↦ rw (over, child_loop) (inr (l, a, sh))
          | inl more ↦
              rw (more, child_loop)
                (Returns->>= (Going w fuel (steps_left s.state s) (front w base l) s)
                  (Follows w base t) (child_loop os fuel)
                  (λ d g. elim g.1.1 [
                    | inl e ↦ stopped w fuel base t d e (omega (arith, g.0.1))
                    | inr (m, e, sh') ↦
                        let both = heard_then w base l m t s d a e sh' in
                        loop-Follows w fuel base (l ++ m) t d p (omega (arith, g.0.1)) g.1.0 both.0
                          both.1
                  ])
                  (child_step os s)
                  (Returns-both (StepDone os (steps_left s.state s))
                    (λ d. Ready os content b top pos fits w fuel d × Moved w (front w base l) s d) _
                    (dispatch-StepDone os s.state s (ground arith) (ground arith))
                    (Returns-both (Ready os content b top pos fits w fuel)
                      (Moved w (front w base l) s) _
                      (Returns-Ends (Ready os content b top pos fits w fuel) (dispatch os s.state s)
                        (dispatch-Ready os content b top pos fits w fuel s.state s p (ground arith)
                          (ground arith) r.0 r.1 r.2))
                      (subst (λ k. Returns (Moved k (front w base l) s) (dispatch os s.state s)) r.2
                        (dispatch-Moved (front w base l) s.state s (ground arith) r.0
                          (omega (arith, r.1, r.2))
                          (subst (λ k. Shows os content b k (front w base l) s.state s) (sym r.2)
                            sh))))))
        ]

    -- A child process that starts to serve a file with an empty window, in pieces of 1 to 1400 bytes
    -- and windows of at least one packet, the numbers and offsets staying below 2^32, refines the
    -- abstract window: it has no undefined behaviour and ends, and unless it ends in ERROR it has
    -- taken a beginning of the RRs and REJs with a good checksum that arrive, and its window at the
    -- end begins at the number to which they lead the abstract window from the first number on, and
    -- holds the pieces from there up to the next number, at most as many as the window size.
    pub child_refines :
        (s : Server)
        → s.state ≡ fill_window
        → Sending os content b top s
        → 0 < s.window_size
        → s.sequence + child_fuel s * s.window_size ≤ top
        → s.window ≡ []
        → Returns (λ r. Follows s.window_size s.sequence s r.0) (child os s)
    unfolding child front is_filled
    child_refines s e t p h w =
        Returns->>= {B = Server × ℕ} (Follows s.window_size s.sequence s)
          (λ r. Follows s.window_size s.sequence s r.0) (λ d. defined (d, child_exit d)) (λ d x. x)
          _
          (loop-Follows s.window_size (child_fuel s) s.sequence [] s s p
            (steps_left-le os s.state s)
            (subst (λ st. Phase os content b top st s) (sym e) t, h, refl) refl
            (record {
              ordered = omega arith;
              within = omega arith;
              full = λ x. absurd (not_filled (sym x ∙ ap is_filled e));
              window = w ∙ empty;
            }))
      where
        not_filled : true ≡ false → ⊥
        not_filled x = cc

        empty : [] ≡ pieces os content b s.sequence (s.sequence - s.sequence)
        empty = unfold pieces in ap (pieces os content b s.sequence) {x = 0} (omega arith)
