-- ===== src/Client/Init/Rounds.antt =====
-- Client.cpp, `init`: what a round of its loop leaves.
use cpe464_fileserver.Base.{
  ap, sym, ◌∙◌, ℕ, ◌+◌, ◌*◌, ◌≤◌, ◌<◌, ◌≡◌, refl, Bool, true, false, List, [], ◌∷◌, Option, none,
  some, arith, length, All, Bool-cases, inl, inr, Outcome, defined, undefined, unfinished,
}
use cpe464_fileserver.Platform.{Platform}
use cpe464_fileserver.Packet.{Packet, pkt_trnsmax}
use cpe464_fileserver.Net.Send.{send-arrivals}
use cpe464_fileserver.Net.{Arrival, Channel, Received, failed, rejected, accepted, send}
use cpe464_fileserver.Client.{Client, error, get_socket, socket_by}
use cpe464_fileserver.Client.RecvPacket.{Delivers, Effect, recv_packet-Effect}
use cpe464_fileserver.Client.Init.{
  Round, leave, next, with_socket, connect, switch_peer, on_reply, after_send, send_step,
}

-- Only the addresses and the sockets differ.
pub record SameCore (c d : Client) : Type 0 where
  pub retries : d.retries ≡ c.retries
  pub net : d.net ≡ c.net
  pub written : d.written ≡ c.written
  pub buffer : d.buffer_size ≡ c.buffer_size

abbrev pub measure : Client → ℕ
measure c = c.retries + 11 * length c.net.arrivals

-- How a round ends, in terms of the client that it leaves.
abbrev pub RoundEnds : (Client → Type 0) → (Client → Type 0) → Outcome Round → Type 0
RoundEnds L N (defined (leave s c)) = (s ≡ error) × L c
RoundEnds L N (defined (next i address c)) = N c
RoundEnds L N undefined = Unit {0}
RoundEnds L N unfinished = ⊥

with_socket-RoundEnds :
    (R : Client → Type 0) (i : ℕ) (x : Option ℕ × Client)
    → R x.1
    → RoundEnds R R (defined (with_socket i x))
unfolding with_socket
with_socket-RoundEnds R i (none, d) h = (refl, h)
with_socket-RoundEnds R i (some a, d) h = h

RoundEnds-mono :
    {R : Client → Type 0} (L N : Client → Type 0)
    → ((d : Client) → R d → L d)
    → ((d : Client) → R d → N d)
    → (o : Outcome Round) → RoundEnds R R o
    → RoundEnds L N o
RoundEnds-mono L N f g (defined (leave s c)) h = (h.0, f c h.1)
RoundEnds-mono L N f g (defined (next i a c)) h = g c h
RoundEnds-mono L N f g undefined h = tt
RoundEnds-mono L N f g unfinished h = h

same :
    {c d : Client}
    → d.retries ≡ c.retries
    → d.net ≡ c.net
    → d.written ≡ c.written
    → d.buffer_size ≡ c.buffer_size
    → SameCore c d
same a b e f = record { retries = a; net = b; written = e; buffer = f }

module _ (os : Platform) where
  socket_by-SameCore : (rs : List Bool) (c : Client) → SameCore c (socket_by os rs c).1
  unfolding socket_by
  socket_by-SameCore [] c = same refl refl refl refl
  socket_by-SameCore (true ∷ rs) c = same refl refl refl refl
  socket_by-SameCore (false ∷ rs) c = same refl refl refl refl

  connect-SameCore :
      (i : ℕ) (p : Packet) (c : Client)
      → RoundEnds (SameCore c) (SameCore c) (defined (connect os i p c))
  unfolding connect get_socket
  connect-SameCore i p c =
      let s = socket_by-SameCore c.socket_results (record c { remote_port = p.size }) in
      with_socket-RoundEnds (SameCore c) i
        (socket_by os c.socket_results (record c { remote_port = p.size }))
        (same s.retries s.net s.written s.buffer)

  switch_peer-SameCore :
      (i : ℕ) (address : Option ℕ) (c : Client)
      → RoundEnds (SameCore c) (SameCore c) (switch_peer os i address c)
  unfolding switch_peer
  switch_peer-SameCore i none c = tt
  switch_peer-SameCore i (some a) c = same refl refl refl refl

  on_reply-SameCore :
      (i : ℕ) (pkt : Packet) (address : Option ℕ) (p : Packet) (c : Client)
      → RoundEnds (SameCore c) (SameCore c) (on_reply os i pkt address p c)
  unfolding on_reply
  on_reply-SameCore i pkt address p c =
      ground (arith, connect-SameCore i p c, switch_peer-SameCore i address c)

-- From `c` to `d` the target file is not touched, and what is still to arrive was there before.
pub record Kept (os : Platform) (P : Packet → Type 0) (c d : Client) : Type 0 where
  pub no_more : measure d ≤ measure c
  pub written : d.written ≡ c.written
  pub buffer : d.buffer_size ≡ c.buffer_size
  pub rest : All (Delivers os P) d.net.arrivals

-- Then arrivals and retries go down together, too.
pub record Progress (os : Platform) (P : Packet → Type 0) (c d : Client) : Type 0 where
  pub falls : measure d < measure c
  pub kept : Kept os P c d

module _ (os : Platform) (P : Packet → Type 0) where
  progress :
      {c : Client} {net net' : Channel} {x : Received} {r : ℕ}
      → net.arrivals ≡ c.net.arrivals
      → Effect os P c.retries net (x, r, net')
      → Progress os P c (record c { retries = r; net = net' })
  progress e f =
      let l = ap (length {A = Arrival}) e in
      record {
        falls = omega (arith, f.falls, l);
        kept = record {
          no_more = omega (arith, f.falls, l);
          written = refl;
          buffer = refl;
          rest = f.rest;
        };
      }

  falls_same : {c d e : Client} → Progress os P c d → SameCore d e → Progress os P c e
  falls_same g s =
      let l = ap (λ (n : Channel). length n.arrivals) s.net in
      record {
        falls = omega (arith, g.falls, s.retries, l);
        kept = record {
          no_more = omega (arith, g.falls, s.retries, l);
          written = s.written ∙ g.kept.written;
          buffer = s.buffer ∙ g.kept.buffer;
          rest = rw s.net g.kept.rest;
        };
      }

  after_send-Progress :
      (i : ℕ) (pkt : Packet) (address : Option ℕ) (c : Client) (net : Channel)
      → net.arrivals ≡ c.net.arrivals
      → (x : Received × ℕ × Channel) → Effect os P c.retries net x
      → RoundEnds (Kept os P c) (Progress os P c) (after_send os i pkt address x c)
  unfolding after_send
  after_send-Progress i pkt address c net e (failed, r, net') f = (refl, (progress e f).kept)
  after_send-Progress i pkt address c net e (rejected, r, net') f = progress e f
  after_send-Progress i pkt address c net e (accepted p, r, net') f =
      RoundEnds-mono (Kept os P c) (Progress os P c) (λ d s. (reset d s).kept) reset _
        (on_reply-SameCore os i pkt address p (record c { retries = pkt_trnsmax; net = net' }))
    where
      reset :
          (d : Client)
          → SameCore (record c { retries = pkt_trnsmax; net = net' }) d
          → Progress os P c d
      reset d s =
          falls_same {c = c} {d = record c { retries = r; net = net' }} (progress e f)
            (same (s.retries ∙ sym (f.fresh p refl)) s.net s.written s.buffer)

  pub send_step-Progress :
      (i : ℕ) (pkt : Option Packet) (address : Option ℕ) (c : Client)
      → 0 < c.retries
      → All (Delivers os P) c.net.arrivals
      → RoundEnds (Kept os P c) (Progress os P c) (send_step os i pkt address c)
  unfolding send_step
  send_step-Progress i none address c h all = tt
  send_step-Progress i (some pkt) address c h all =
      let same_arrivals = send-arrivals pkt c.net in
      elim (Bool-cases (send pkt c.net).0) [
        | inl ok ↦ rw ok (
            after_send-Progress i pkt address c (send pkt c.net).1 same_arrivals _
              (recv_packet-Effect os P c.retries (send pkt c.net).1 h (rw same_arrivals all)))
        | inr bad ↦ rw bad (
          refl,
          record {
            no_more = omega (arith, ap (length {A = Arrival}) same_arrivals);
            written = refl;
            buffer = refl;
            rest = (rw same_arrivals all);
          },
        )
      ]
