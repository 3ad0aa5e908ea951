-- ===== src/Server/Window/Refines.antt =====
-- Server.cpp, `fillWindow`, `sendWindow` and `waitRR`: they refine the abstract window.
use cpe464_fileserver.Base.{
  ℕ, ◌+◌, ◌*◌, ◌-◌, ◌%◌, ◌^◌, ◌≤◌, ◌<◌, ◌≡◌, ◌≢◌, refl, sym, ap, ap₂, ◌∙◌, subst, inl, inr, ◌++◌,
  Outcome, defined, undefined, unfinished, Bool, true, false, List, [], ◌∷◌, arith, length, leb,
  ◌==◌, min, Returns, if_either, if◌then◌else◌,
}
use cpe464_fileserver.Platform.{Platform}
use cpe464_fileserver.Packet.{Packet, pkt_trnsmax, pkt_type_rr, pkt_type_rej, pkt_dmax}
use cpe464_fileserver.Net.{Channel, Received, failed, rejected, accepted, send}
use cpe464_fileserver.Server.{Server, State, fill_window, send_window, wait_rr, recv_packet}
use cpe464_fileserver.Net.Send.{send-arrivals}
use cpe464_fileserver.Server.Window.{
  slide, send_all, send_round, rewind, on_packet, at_front, on_received, wait_round,
}
use cpe464_fileserver.Server.Window.Pieces.{pieces, slide-pieces}
use cpe464_fileserver.Server.Window.Serving.{Sending, Filled}
use cpe464_fileserver.Server.Window.Waiting.{front_of}
use cpe464_fileserver.Server.Window.Spec.{has, asks, moved, front}
use cpe464_fileserver.Server.Window.Words.{word, accepted_word, said, recv_packet-said}
use cpe464_fileserver.Server.Window.Shows.{
  length-pieces, is_filled, Shows, Stays, Moves, Stays-Moves, filled_still,
}

module _ (os : Platform) (content : List ℕ) (b : ℕ) where
  send_all-Stays :
      (w base : ℕ) (l : List Packet) (s : Server)
      → Shows os content b w base wait_rr s
      → Stays os content b w base s (send_all l s)
  unfolding send_all
  send_all-Stays w base [] s h =
      inr (filled_still os content b w base wait_rr s (record s { out_buf = [] }) h refl refl, refl)
  send_all-Stays w base (p ∷ l) s h =
      if_either (Stays os content b w base s) (send p s.net).0 _ _
        (elim (send_all-Stays w base l sent
          (filled_still os content b w base wait_rr s sent h refl refl)) [
            | inl e ↦ inl e
            | inr (g, e) ↦ inr (g, e ∙ send-arrivals p s.net)
          ])
        (inl refl)
    where
      sent : Server
      sent = record s { net = (send p s.net).1 }

  on_packet-Stays :
      (w base : ℕ) (p first : Packet) (rest : List Packet) (s : Server)
      → Shows os content b w base wait_rr s
      → s.sequence < 2 ^ 32
      → s.window ≡ first ∷ rest
      → Stays os content b w (front w base (word p)) s (on_packet os p first s)
  unfolding on_packet rewind word front moved is_filled
  on_packet-Stays w base p first rest s h bound e =
      by_type (p.type == pkt_type_rr) (p.type == pkt_type_rej)
    where
      begins : first.sequence ≡ base
      begins = front_of os content b 0 base (s.sequence - base) first rest (sym h.window ∙ e)

      whole : s.sequence ≡ base + w
      whole = h.full refl

      same :
          (st : State) (d : Server)
          → d.sequence ≡ s.sequence
          → d.window ≡ s.window
          → Shows os content b w base st d
      same st d = filled_still os content b w base st s d h

      rr :
          (t : Bool)
          → leb first.sequence p.sequence ≡ t
          → Stays os content b w (if t then min (base + w) (p.sequence + 1) else base) s (
              if t
              then (
                fill_window,
                record s {
                  window = slide first.sequence p.sequence s.window;
                  retries = pkt_trnsmax;
                },
              )
              else (wait_rr, s))
      rr true k =
          let due : base ≤ p.sequence = ground (arith, begins, k) in
          inr (
            record {
              ordered = omega (arith, whole);
              within = omega (arith, whole, due);
              full = λ x. absurd cc;
              window =
                  ap₂ (λ i l. slide i p.sequence l) begins h.window
                  ∙ slide-pieces os content b base (s.sequence - base) p.sequence
                      (omega (arith, h.ordered, bound))
                  ∙ ap₂ (pieces os content b) (omega (arith, whole, due))
                      (omega (arith, whole, due));
            },
            refl,
          )
      rr false k = inr (same wait_rr s refl refl, refl)

      rej :
          (t : Bool)
          → leb first.sequence p.sequence ≡ t
          → Stays os content b w
              (if t then base else p.sequence)
              s
              (if t then (fill_window, record s { out_buf = s.window }) else rewind os p.sequence s)
      rej true k = inr (same fill_window (record s { out_buf = s.window }) refl refl, refl)
      rej false k =
          if_either (Stays os content b w p.sequence s)
            (os.lseek_set s.from ((s.buffer_size * p.sequence) % 2 ^ 32)) _ _
            (inr (
              record {
                ordered = omega arith;
                within = omega arith;
                full = λ x. absurd cc;
                window =
                    unfold pieces in (ap (pieces os content b p.sequence) {x = 0} (omega arith));
              },
              refl,
            ))
            (inl refl)

      after_rr : State × Server
      after_rr =
          if leb first.sequence p.sequence
          then (
            fill_window,
            record s { window = slide first.sequence p.sequence s.window; retries = pkt_trnsmax },
          )
          else (wait_rr, s)

      after_rej : State × Server
      after_rej =
          if leb first.sequence p.sequence
          then (fill_window, record s { out_buf = s.window })
          else rewind os p.sequence s

      by_type :
          (t u : Bool)
          → Stays os content b w
              (front w base
                (if t then has p.sequence ∷ [] else if u then asks p.sequence ∷ [] else []))
              s
              (if t then after_rr else if u then after_rej else (wait_rr, s))
      by_type true u =
          subst
            (λ k.
              Stays os content b w
                (if leb k p.sequence then min (base + w) (p.sequence + 1) else base) s after_rr)
            begins (rr (leb first.sequence p.sequence) refl)
      by_type false true =
          subst
            (λ k. Stays os content b w (if leb k p.sequence then base else p.sequence) s after_rej)
            begins (rej (leb first.sequence p.sequence) refl)
      by_type false false = inr (same wait_rr s refl refl, refl)

  at_front-Stays :
      (w base : ℕ) (p : Packet) (l : List Packet) (s : Server)
      → Shows os content b w base wait_rr s
      → s.sequence < 2 ^ 32
      → s.window ≡ l
      → s.window ≢ []
      → Returns (Stays os content b w (front w base (word p)) s) (at_front os p l s)
  unfolding at_front
  at_front-Stays w base p [] s h bound e n = absurd (n e)
  at_front-Stays w base p (first ∷ rest) s h bound e n =
      on_packet-Stays w base p first rest s h bound e

  on_received-Moves :
      (w base : ℕ) (x : Received × ℕ × Channel) (s : Server)
      → said os s.net.arrivals ≡ accepted_word x.0 ++ said os x.2.arrivals
      → Shows os content b w base wait_rr s
      → s.sequence < 2 ^ 32
      → s.window ≢ []
      → Returns (Moves os content b w base s) (on_received os x s)
  unfolding on_received accepted_word front
  on_received-Moves w base (failed, r, net) s a h bound n = inl refl
  on_received-Moves w base (rejected, r, net) s a h bound n = inr (
    [],
    a,
    filled_still os content b w base fill_window s (record s { retries = r; net = net }) h refl
        refl,
  )
  on_received-Moves w base (accepted p, r, net) s a h bound n = heard _ (
      at_front-Stays w base p s.window got
        (filled_still os content b w base wait_rr s got h refl refl) bound refl n)
    where
      got : Server
      got = record s { retries = r; net = net }

      heard :
          (o : Outcome (State × Server))
          → Returns (Stays os content b w (front w base (word p)) got) o
          → Returns (Moves os content b w base s) o
      heard (defined d) (inl e) = inl e
      heard (defined d) (inr (g, e)) = inr (word p, a ∙ ap (λ l. word p ++ said os l) (sym e), g)
      heard undefined g = g
      heard unfinished g = g

  pub wait_round-Moves :
      (w base : ℕ) (s : Server)
      → Shows os content b w base wait_rr s
      → s.sequence < 2 ^ 32
      → s.window ≢ []
      → Returns (Moves os content b w base s) (wait_round os s)
  unfolding wait_round
  wait_round-Moves w base s =
      on_received-Moves w base (recv_packet os s.retries s.net) s
        (recv_packet-said os s.retries s.net)

  pub send_round-Moves :
      (w base : ℕ) (s : Server)
      → Shows os content b w base send_window s
      → Moves os content b w base s (send_round s)
  unfolding send_round is_filled
  send_round-Moves w base s h = Stays-Moves os content b w base s (send_all s.out_buf s) (
      send_all-Stays w base s.out_buf s
        (record { ordered = h.ordered; within = h.within; full = h.full; window = h.window }))

  -- `n` rounds of `fillWindow`, with the window that `Sending` tells of.
  pub Filled-Moves :
      (top base : ℕ) (s : Server) (pos : 0 < b) (fits : b ≤ pkt_dmax) (r : State × Server)
      → Shows os content b s.window_size base fill_window s
      → Filled os content b pos fits top (s.window_size - length s.window) s r
      → Moves os content b s.window_size base s r
  Filled-Moves top base s pos fits r h f = Stays-Moves os content b s.window_size base s r (
      inr (
        record {
          ordered = omega (arith, at);
          within = omega (arith, at);
          full = λ x. at;
          window =
              t.window
              ∙ ap₂ (pieces os content b) (omega (arith, count, t.ends, at))
                  (omega (arith, count, at));
        },
        ap (λ (k : Channel). k.arrivals) f.5,
      ))
    where
      t : Sending os content b top r.1
      t = f.1

      length_window : length s.window ≡ s.sequence - base
      length_window =
          ap (length {A = Packet}) h.window ∙ length-pieces os content b base (s.sequence - base)

      at : r.1.sequence ≡ base + s.window_size
      at = omega (arith, f.2, length_window, h.ordered, h.within)

      count : t.count ≡ s.window_size
      count =
          sym (ap (length {A = Packet}) t.window ∙ length-pieces os content b t.base t.count)
          ∙ omega (arith, f.4, length_window, h.ordered, h.within)
