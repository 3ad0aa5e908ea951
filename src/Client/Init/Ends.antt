-- ===== src/Client/Init/Ends.antt =====
-- Client.cpp, `init`: its loop ends, and leaves the target file alone.
use cpe464_fileserver.Base.{
  ◌⊎◌, ◌∙◌, ℕ, zero, suc, ◌+◌, ◌≤◌, ◌<◌, ◌≡◌, refl, ◌&&◌, List, Option, none, arith, length, All,
  Bool-cases, inl, inr, ◌==◌, ltb, Outcome, defined, undefined, unfinished, Ends, get_elem?,
}
use cpe464_fileserver.Platform.{Platform}
use cpe464_fileserver.Packet.{Packet, pkt_dmax, pkt_trnsmax}
use cpe464_fileserver.Client.{Client, State, error, recv_packets}
use cpe464_fileserver.Client.RecvPacket.{Delivers}
use cpe464_fileserver.Client.Init.{
  Round, leave, next, finish_init, follow, init_loop, fuel_of, client_init, handshake,
}
use cpe464_fileserver.Client.Init.Rounds.{measure, RoundEnds, Kept, Progress, send_step-Progress}

-- What `init` returns: an error, or the start of the transfer at packet 0.
pub record InitDone (os : Platform) (P : Packet → Type 0) (c : Client) (r : State × Client)
    : Type 0 where
  pub outcome :
      (r.0 ≡ error) ⊎ ((r.0 ≡ recv_packets) × (r.1.sequence ≡ 0) × (r.1.retries ≡ pkt_trnsmax))
  pub spent : measure r.1 ≤ measure c + pkt_trnsmax
  pub written : r.1.written ≡ c.written
  pub buffer : r.1.buffer_size ≡ c.buffer_size
  pub rest : All (Delivers os P) r.1.net.arrivals

module _ (os : Platform) (P : Packet → Type 0) where
  finish_init-InitDone :
      (c : Client) → All (Delivers os P) c.net.arrivals → InitDone os P c (finish_init c)
  unfolding finish_init
  finish_init-InitDone c all = elim (Bool-cases (c.retries == 0)) [
    | inl spent ↦ rw spent (record {
      outcome = inl refl;
      spent = omega arith;
      written = refl;
      buffer = refl;
      rest = all;
    })
    | inr left ↦ rw left (record {
      outcome = inr (refl, refl, refl);
      spent = omega arith;
      written = refl;
      buffer = refl;
      rest = all;
    })
  ]

  InitDone-later :
      {c d : Client} (r : State × Client)
      → Progress os P c d
      → InitDone os P d r
      → InitDone os P c r
  InitDone-later r g t = record {
    outcome = t.outcome;
    spent = omega (arith, t.spent, g.falls);
    written = t.written ∙ g.kept.written;
    buffer = t.buffer ∙ g.kept.buffer;
    rest = t.rest;
  }

  Ends-later :
      {c d : Client}
      → Progress os P c d
      → (o : Outcome (State × Client)) → Ends (InitDone os P d) o
      → Ends (InitDone os P c) o
  Ends-later g (defined r) t = InitDone-later r g t
  Ends-later g undefined t = tt
  Ends-later g unfinished t = t

  follow-Ends :
      (c : Client) (loop : ℕ → Option ℕ → Client → Outcome (State × Client))
      → ((i : ℕ) (address : Option ℕ) (d : Client)
          → Progress os P c d
          → Ends (InitDone os P d) (loop i address d))
      → (o : Outcome Round) → RoundEnds (Kept os P c) (Progress os P c) o
      → Ends (InitDone os P c) (follow loop o)
  unfolding follow
  follow-Ends c loop ih undefined h = tt
  follow-Ends c loop ih unfinished h = h
  follow-Ends c loop ih (defined (leave s d)) h = record {
    outcome = inl h.0;
    spent = omega (arith, h.1.no_more);
    written = h.1.written;
    buffer = h.1.buffer;
    rest = h.1.rest;
  }
  follow-Ends c loop ih (defined (next i address d)) h = Ends-later h _ (ih i address d h)

  -- With more fuel than the measure the loop ends.
  pub init_loop-Ends :
      (fuel : ℕ) (pkts : List Packet) (i : ℕ) (address : Option ℕ) (c : Client)
      → measure c < fuel
      → All (Delivers os P) c.net.arrivals
      → Ends (InitDone os P c) (init_loop os fuel pkts i address c)
  unfolding init_loop
  init_loop-Ends zero pkts i address c m all = elim m [ ]
  init_loop-Ends (suc fuel) pkts i address c m all =
      elim (Bool-cases (ltb i 5 && ltb 0 c.retries)) [
        | inl more ↦
            rw (more, init_loop)
              (follow-Ends c (init_loop os fuel pkts)
                (λ j a d g. init_loop-Ends fuel pkts j a d (omega (arith, g.falls)) g.kept.rest) _
                (send_step-Progress os P i (get_elem? pkts i) address c (ground arith) all))
        | inr over ↦ rw (over, init_loop) (finish_init-InitDone c all)
      ]

  -- For every sequence of arrivals, those with a good checksum satisfying `P`, `init` ends, unless
  -- it meets undefined behaviour. It returns ERROR, or RECV_PACKETS with sequence number 0 and all
  -- retries; the target file and the buffer size are as before; what is still to arrive satisfies
  -- `P`; and the retries and arrivals left are at most those before and ten retries more.
  pub client_init-Ends :
      (c : Client) → All (Delivers os P) c.net.arrivals → Ends (InitDone os P c) (client_init os c)
  unfolding client_init handshake
  client_init-Ends c all = elim (Bool-cases (ltb pkt_dmax (length c.from_name + 1))) [
    | inl long ↦ rw long tt
    | inr fits ↦ rw fits (init_loop-Ends (fuel_of c) _ 0 none c (omega arith) all)
  ]
