-- ===== src/Linux/Netlink/Answers.antt =====
-- The answers that requests get: an acknowledgement, and the listings of addresses and routes.
use network_manager_rs.Common.{
  ℕ, ◌≡◌, ==_iff, refl, ap, ◌∙◌, true, false, List, [], ◌∷◌, ◌++◌, length, ok, ◌>>=◌, ◌==◌,
}
use network_manager_rs.Common.Int.{ℤ}
use network_manager_rs.Linux.Netlink.Wire.{le_bytes, i32_bits, nlmsg_error}
use network_manager_rs.Linux.Netlink.Streams.{Message, IsMessage, stream}
use network_manager_rs.Linux.Netlink.Sockets.{
  Socket, Received, send_all, Answer, exchange, after_send,
}

-- A message of another type than an error.
abbrev pub IsNoise : Message → Type 0
IsNoise m = IsMessage m × ((m.message_type == nlmsg_error) ≡ false)

-- The kernel's answer: the code, and what it echoes of the request.
abbrev pub ack : ℤ → List ℕ → Message
ack code echo = record {
  message_type = nlmsg_error;
  flags = 0;
  payload = le_bytes 4 (i32_bits code) ++ echo;
}

-- Buffers that hold no answer.
abbrev pub noise_buffers : List (List Message) → List Received → List Received
noise_buffers [] later = later
noise_buffers (ms ∷ bufs) later = ok (stream ms) ∷ noise_buffers bufs later

-- The socket opens and takes the whole message.
abbrev pub Sends : Socket → List ℕ → Type 0
Sends socket message = (socket.opened ≡ ok tt) × (socket.send message ≡ ok (length message))

pub exchange_lem :
    {A : Type 0} (socket : Socket) (request : List ℕ) (receive : List Received → Answer A)
    → Sends socket request
    → exchange socket request receive ≡ receive socket.received
unfolding send_all
exchange_lem socket request receive h =
    let whole : (length request == length request) ≡ true = (==_iff _ _).1 refl in
    let sent : send_all socket request ≡ ok tt = rw (h.1, whole) refl in
    ap (λ o. after_send (receive socket.received) (o >>= λ _. send_all socket request)) h.0
    ∙ ap (after_send (receive socket.received)) sent
