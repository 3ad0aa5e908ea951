-- ===== src/Client/RecvPacket.antt =====
-- Client.cpp, `recvPacket`: what one call does to the retry counter and to the socket.
use cpe464_fileserver.Base.{
  ℕ, suc, ◌+◌, ◌*◌, ◌≤◌, ◌<◌, ◌≡◌, refl, Bool, true, List, [], ◌∷◌, Option, none, some, arith,
  length, All, Bool-cases, inl, inr, ◌==◌, subst,
}
use cpe464_fileserver.Platform.{Platform}
use cpe464_fileserver.Packet.{Packet, verifies, pkt_trnsmax}
use cpe464_fileserver.Net.{Channel, Arrival, next_arrival, select_call, Received, accepted}
use cpe464_fileserver.Client.{recv_packet, receive}

module _ (os : Platform) (P : Packet → Type 0) where
  -- If a packet with a good checksum is in the buffer, it satisfies `P`.
  abbrev pub Delivers : Arrival → Type 0
  Delivers a = (p : Packet) → a.datagram ≡ some p → verifies os p ≡ true → P p

  -- What a call of `recvPacket` at `retries` and `net` leaves behind.
  pub record Effect (retries : ℕ) (net : Channel) (x : Received × ℕ × Channel) : Type 0 where
    pub falls : x.1 + 11 * length x.2.arrivals < retries + 11 * length net.arrivals
    pub at_most : retries ≤ pkt_trnsmax → x.1 ≤ pkt_trnsmax
    pub kept : x.2.sent ≡ net.sent
    pub rest : All Delivers x.2.arrivals
    pub got : (p : Packet) → x.0 ≡ accepted p → P p
    pub fresh : (p : Packet) → x.0 ≡ accepted p → x.1 ≡ pkt_trnsmax

  receive-Effect :
      (a : Arrival) (retries : ℕ) (net net' : Channel)
      → Delivers a
      → net'.sent ≡ net.sent
      → length net.arrivals ≡ suc (length net'.arrivals)
      → All Delivers net'.arrivals
      → (d : Option Packet) → a.datagram ≡ d
      → Effect retries net (receive os d pkt_trnsmax net')
  unfolding receive
  receive-Effect a retries net net' h k l all none e = record {
    falls = omega arith;
    at_most = λ m. omega arith;
    kept = k;
    rest = all;
    got = λ p q. cc;
    fresh = λ q r. cc;
  }
  receive-Effect a retries net net' h k l all (some p) e = elim (Bool-cases (verifies os p)) [
    | inl good ↦ rw good (record {
      falls = omega arith;
      at_most = λ m. omega arith;
      kept = k;
      rest = all;
      got = λ q r. subst P (cc) (h p e good);
      fresh = λ q r. refl;
    })
    | inr bad ↦ rw bad (record {
      falls = omega arith;
      at_most = λ m. omega arith;
      kept = k;
      rest = all;
      got = λ q r. cc;
      fresh = λ q r. cc;
    })
  ]

  received_at :
      (retries : ℕ) (xs : List Arrival) (rs : List Bool) (ps : List Packet)
      → 0 < retries
      → All Delivers xs
      → let net : Channel = record { arrivals = xs; send_results = rs; sent = ps } in
        Effect retries net (recv_packet os retries net)
  unfolding recv_packet next_arrival select_call
  received_at retries [] rs ps h all = record {
    falls = omega arith;
    at_most = λ m. omega arith;
    kept = refl;
    rest = tt;
    got = λ q r. cc;
    fresh = λ q r. cc;
  }
  received_at retries (a ∷ xs) rs ps h all = elim (Bool-cases (select_call a.select == 0)) [
    | inl late ↦ rw late (record {
      falls = omega arith;
      at_most = λ m. omega arith;
      kept = refl;
      rest = all.1;
      got = λ q r. cc;
      fresh = λ q r. cc;
    })
    | inr ready ↦ rw ready (receive-Effect a retries _ _ all.0 refl refl all.1 a.datagram refl)
  ]

  -- A call takes an arrival or a retry, sends nothing, and returns packets of the socket only.
  pub recv_packet-Effect :
      (retries : ℕ) (net : Channel)
      → 0 < retries
      → All Delivers net.arrivals
      → Effect retries net (recv_packet os retries net)
  recv_packet-Effect retries net = received_at retries net.arrivals net.send_results net.sent
