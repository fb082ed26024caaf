-- ===== src/Linux/Netlink/Streams.antt =====
-- The loop over a buffer of messages that `build_netlink_message` wrote.
use network_manager_rs.Common.{
  ℕ, zero, suc, ◌+◌, ◌-◌, ◌%◌, ◌≤◌, ◌≡◌, refl, ◌∙◌, true, false, ◌||◌, Bool, List, [], ◌∷◌, ◌++◌,
  length, length-append, drop, take_all, drop_all, All, IsU16, IsU32, arith, ltb, leb, Result, ok,
  ◌>>=◌, bind_same, Str,
}
use network_manager_rs.Linux.Model.{NetlinkError}
use network_manager_rs.Linux.Netlink.Wire.{le_bytes, le_of, part, align}
use network_manager_rs.Linux.Netlink.Structs.{NlMsgHdr, read_header, build_netlink_message}
use network_manager_rs.Linux.Netlink.Messages.{
  Flow, continue, return, Ended, ran_out, after_round, messages_loop,
}

-- What a message is built from.
pub record Message : Type 0 where
  pub message_type : ℕ
  pub flags : ℕ
  pub payload : List ℕ

abbrev pub built : Message → List ℕ
built m = build_netlink_message m.message_type m.flags m.payload

-- The header that `build_netlink_message` writes.
abbrev pub built_header : Message → NlMsgHdr
built_header m = record {
  nlmsg_len = 16 + length m.payload;
  nlmsg_type = m.message_type;
  nlmsg_flags = m.flags;
  nlmsg_seq = 1;
  nlmsg_pid = 0;
}

-- Messages one after the other.
abbrev pub stream : List Message → List ℕ
stream [] = []
stream (m ∷ ms) = built m ++ stream ms

-- The fields fit, and the payload needs no padding.
abbrev pub IsMessage : Message → Type 0
IsMessage m =
    IsU16 m.message_type
    × IsU16 m.flags
    × IsU32 (16 + length m.payload)
    × (length m.payload % 4 ≡ 0)

read_built :
    (m : Message) (rest : List ℕ)
    → IsMessage m
    → read_header (built m ++ rest) ≡ ok (built_header m)
unfolding read_header build_netlink_message
read_built m rest h =
    let enough : ltb (length (built m ++ rest)) 16 ≡ false = ground arith in
    let len : le_of (le_bytes 4 (16 + length m.payload)) ≡ 16 + length m.payload =
      omega (arith, h) in
    let type : le_of (le_bytes 2 m.message_type) ≡ m.message_type = omega (arith, h) in
    let flags : le_of (le_bytes 2 m.flags) ≡ m.flags = omega (arith, h) in
    rw (enough, len, type, flags) refl

part_payload :
    (m : Message) (rest : List ℕ)
    → part 16 (16 + length m.payload - 16) (built m ++ rest) ≡ m.payload
unfolding build_netlink_message
part_payload m rest = take_all m.payload rest _ (omega arith)

after_same :
    {S R : Type 0} (f g : S → Result (Ended S R) NetlinkError) (flow : Flow S R)
    → ((s : S) → f s ≡ g s)
    → after_round f flow ≡ after_round g flow
after_same f g (continue s) h = h s
after_same f g (return r) h = refl

length-built : (m : Message) → length (built m) ≡ 16 + length m.payload
unfolding build_netlink_message
length-built m = omega arith

module _ {S R : Type 0} (text : Str)
    (step : NlMsgHdr → List ℕ → S → Result (Flow S R) NetlinkError) where
  -- The step, over the messages in order, up to the first error or `return`.
  unfoldable pub each_message : List Message → S → Result (Ended S R) NetlinkError
  each_message [] s = ok (ran_out true s)
  each_message (m ∷ ms) s = step (built_header m) m.payload s >>= after_round (each_message ms)

  -- A round, from what its reads return.
  messages_loop_round :
      (fuel n : ℕ) (within : Bool) (bytes payload rest : List ℕ) (header : NlMsgHdr) (s : S)
      → ltb (length bytes) 16 ≡ false
      → read_header bytes ≡ ok header
      → header.nlmsg_len ≡ n
      → (ltb n 16 || ltb (length bytes) n) ≡ false
      → part 16 (n - 16) bytes ≡ payload
      → leb (align n) (length bytes) ≡ true
      → drop (align n) bytes ≡ rest
      → messages_loop text step (suc fuel) within bytes s
        ≡ (step header payload s >>= after_round (messages_loop text step fuel true rest))
  unfolding messages_loop
  messages_loop_round fuel n within bytes payload rest header s enough read len fits is_payload
        inside is_rest =
      rw (enough, read, len, fits, is_payload, inside, is_rest) refl

  messages_loop_step :
      (fuel : ℕ) (within : Bool) (m : Message) (rest : List ℕ) (s : S)
      → IsMessage m
      → messages_loop text step (suc fuel) within (built m ++ rest) s ≡ (
          step (built_header m) m.payload s
          >>= after_round (messages_loop text step fuel true rest))
  messages_loop_step fuel within m rest s h =
      let n = 16 + length m.payload in
      let aligned : align n ≡ n = omega (arith, h) in
      let size : length (built m ++ rest) ≡ n + length rest =
        omega (arith, length-append (built m) rest, length-built m) in
      messages_loop_round fuel n within (built m ++ rest) m.payload rest (built_header m) s
        (ground (arith, size)) (read_built m rest h) refl (ground (arith, size))
        (part_payload m rest) (ground (arith, size, aligned))
        (rw aligned (drop_all (built m) rest n (length-built m)))

  -- The loop over built messages is the step over them, and it ends at the end of the buffer.
  pub messages_loop-stream :
      (fuel : ℕ) (ms : List Message) (s : S)
      → All IsMessage ms
      → length (stream ms) ≤ fuel
      → messages_loop text step fuel true (stream ms) s ≡ each_message ms s
  unfolding each_message
  messages_loop-stream zero [] s h l = unfold messages_loop in refl
  messages_loop-stream (suc fuel) [] s h l = unfold messages_loop in refl
  messages_loop-stream zero (m ∷ ms) s h l =
      absurd (omega (arith, l, length-append (built m) (stream ms), length-built m))
  messages_loop-stream (suc fuel) (m ∷ ms) s h l =
      let size = length-append (built m) (stream ms) in
      messages_loop_step fuel true m (stream ms) s h.0
      ∙ bind_same (step (built_header m) m.payload s) _ _ λ flow.
        after_same _ _ flow
          λ t. messages_loop-stream fuel ms t h.1 (omega (arith, l, size, length-built m))
