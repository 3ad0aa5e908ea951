-- ===== src/Net/Send.antt =====
-- What a call of `sendtoErr` does to the socket.
use cpe464_fileserver.Base.{◌≡◌, refl, Bool, true, false, List, [], ◌∷◌, All, All-append}
use cpe464_fileserver.Packet.{Packet}
use cpe464_fileserver.Net.{Channel, send, send_by}

send_by-arrivals :
    (rs : List Bool) (p : Packet) (c : Channel) → (send_by rs p c).1.arrivals ≡ c.arrivals
unfolding send_by
send_by-arrivals [] p c = refl
send_by-arrivals (true ∷ rs) p c = refl
send_by-arrivals (false ∷ rs) p c = refl

send_by-All :
    (Q : Packet → Type 0) (rs : List Bool) (p : Packet) (c : Channel)
    → Q p
    → All Q c.sent
    → All Q (send_by rs p c).1.sent
unfolding send_by
send_by-All Q [] p c q a = All-append Q c.sent _ a (q, tt)
send_by-All Q (true ∷ rs) p c q a = All-append Q c.sent _ a (q, tt)
send_by-All Q (false ∷ rs) p c q a = a

-- A call leaves the arrivals alone.
pub send-arrivals : (p : Packet) (c : Channel) → (send p c).1.arrivals ≡ c.arrivals
unfolding send
send-arrivals p c = send_by-arrivals c.send_results p c

-- What holds of all packets handed over before and of the next one holds of all after the call.
pub send-All :
    (Q : Packet → Type 0) (p : Packet) (c : Channel) → Q p → All Q c.sent → All Q (send p c).1.sent
unfolding send
send-All Q p c = send_by-All Q c.send_results p c
