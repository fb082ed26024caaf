-- ===== src/Linux/Netlink/Sockets.antt =====
-- src/linux/netlink.rs: requests over a socket, the listings, and the source of events. The kernel's
-- answers are explicit: what each call of `recv_into` returns, in order.
use network_manager_rs.Common.{
  ℕ, zero, ◌+◌, ◌-◌, Bool, true, false, Option, none, some, List, [], ◌∷◌, ◌++◌, length, ◌==◌,
  if◌then◌else◌, Result, ok, err, ◌>>=◌, guard, str, Str, octets, str_lt,
}
use network_manager_rs.Common.Int.{ℤ, pos, negsuc}
use network_manager_rs.Common.Sorting.{sort_by}
use network_manager_rs.Linux.Model.{
  NetlinkError, kernel, malformed_message, Link, Address, Route, IpAddr, v4, v6, IpFamily, ip_v4,
  ip_v6,
}
use network_manager_rs.Linux.Netlink.Wire.{nlmsg_error}
use network_manager_rs.Linux.Netlink.Structs.{
  NlMsgHdr, link_dump_request, address_dump_request, route_dump_request,
}
use network_manager_rs.Linux.Netlink.Parse.{parse_kernel_error_code}
use network_manager_rs.Linux.Netlink.Messages.{
  Flow, continue, return, Ended, returned, ran_out, walk_messages, parse_address_messages,
  parse_route_messages, parse_link_messages,
}

abbrev pub Received : Type 0
Received = Result (List ℕ) NetlinkError

-- A new socket: whether it could be opened, how many bytes a `send` takes, what is received.
pub record Socket : Type 0 where
  pub opened : Result (Unit {0}) NetlinkError
  pub send : List ℕ → Result ℕ NetlinkError
  pub received : List Received

unfoldable pub send_all : Socket → List ℕ → Result (Unit {0}) NetlinkError
send_all socket bytes = socket.send bytes >>= λ sent.
    guard (sent == length bytes) (malformed_message (str "short netlink send"))

-- `None`: the call still waits for the kernel.
abbrev pub Answer : Type 0 → Type 0
Answer A = Option (Result A NetlinkError)

-- `open_route_socket()?`, `send_all(..)?`, then the loop that receives.
abbrev pub after_send : {A : Type 0} → Answer A → Result (Unit {0}) NetlinkError → Answer A
after_send answer (ok _) = answer
after_send answer (err e) = some (err e)

abbrev pub exchange : {A : Type 0} → Socket → List ℕ → (List Received → Answer A) → Answer A
exchange socket request receive =
    after_send (receive socket.received) (socket.opened >>= λ _. send_all socket request)

abbrev pub of_code : ℤ → Result (Unit {0}) NetlinkError
of_code (pos zero) = ok tt
of_code code = err (kernel code)

unfoldable pub ack_round :
    NlMsgHdr
    → List ℕ
    → Unit {0}
    → Result (Flow (Unit {0}) (Result (Unit {0}) NetlinkError)) NetlinkError
ack_round header payload s =
    if header.nlmsg_type == nlmsg_error
    then (parse_kernel_error_code payload >>= λ code. ok (return (of_code code)))
    else ok (continue tt)

abbrev pub ack_text : Str
ack_text = str "invalid ack length"

-- After one buffer: the answer, or the next `recv_into`.
abbrev pub after_ack :
    Answer (Unit {0})
    → Result (Ended (Unit {0}) (Result (Unit {0}) NetlinkError)) NetlinkError
    → Answer (Unit {0})
after_ack rest (err e) = some (err e)
after_ack rest (ok (returned answer)) = some answer
after_ack rest (ok (ran_out exact s)) = rest

unfoldable pub await_ack : List Received → Answer (Unit {0})
await_ack [] = none
await_ack (err e ∷ received) = some (err e)
await_ack (ok buf ∷ received) =
    after_ack (await_ack received) (walk_messages ack_text ack_round buf tt)

unfoldable pub transact_rtnetlink : Socket → List ℕ → Answer (Unit {0})
transact_rtnetlink socket message = exchange socket message await_ack

-- The loop of a listing: receive and collect, until the dump is done.
module _ {A : Type 0} (parse : List ℕ → List A → Result (Bool × List A) NetlinkError) where
  abbrev pub after_dump :
      (List A → Answer (List A)) → Result (Bool × List A) NetlinkError → Answer (List A)
  after_dump rest (err e) = some (err e)
  after_dump rest (ok (true, found)) = some (ok found)
  after_dump rest (ok (false, found)) = rest found

  unfoldable pub collect : List Received → List A → Answer (List A)
  collect [] found = none
  collect (err e ∷ received) found = some (err e)
  collect (ok buf ∷ received) found =
      let rest : List A → Answer (List A) = collect received in after_dump rest (parse buf found)

-- The keys of the three sorts, as lists that compare like Rust's tuples: an `i32` is shifted into the
-- natural numbers, and a tag stands in front of what an `Option` or an `IpAddr` holds.
abbrev pub i32_key : ℤ → ℕ
i32_key (pos n) = 2147483648 + n
i32_key (negsuc n) = 2147483647 - n

abbrev pub option_key {ℓ} : {A : Type ℓ} → (A → ℕ) → Option A → List ℕ
option_key key none = 0 ∷ []
option_key key (some a) = 1 ∷ key a ∷ []

abbrev pub ip_key : IpAddr → List ℕ
ip_key (v4 a) = 0 ∷ octets a
ip_key (v6 bytes) = 1 ∷ bytes

abbrev pub family_key : IpFamily → ℕ
family_key ip_v4 = 0
family_key ip_v6 = 1

abbrev pub link_key : Link → List ℕ
link_key link = i32_key link.index ∷ []

abbrev pub address_key : Address → List ℕ
address_key address = address.interface_index ∷ ip_key address.address

abbrev pub route_key : Route → List ℕ
route_key route =
    family_key route.family
    ∷ (ip_key route.destination
        ++ (route.prefix_length
            ∷ (option_key (λ n. n) route.metric ++ option_key i32_key route.output_interface)))

abbrev pub by_key {ℓ} : {A : Type ℓ} → (A → List ℕ) → A → A → Bool
by_key key a b = str_lt (key a) (key b)

-- `sort_by_key`, on what a listing returned.
abbrev pub sorted : {A : Type 0} → (A → List ℕ) → Answer (List A) → Answer (List A)
sorted key (some (ok found)) = some (ok (sort_by (by_key key) found))
sorted key other = other

unfoldable pub get_addresses : Socket → Answer (List Address)
get_addresses socket = sorted address_key (
    exchange socket (address_dump_request 2) λ received. collect parse_address_messages received [])

unfoldable pub get_routes : Socket → Answer (List Route)
get_routes socket =
    sorted route_key
      (exchange socket (route_dump_request 3) λ received. collect parse_route_messages received [])

unfoldable pub get_links : (List ℕ → Str) → Socket → Answer (List Link)
get_links lossy socket = sorted link_key (
    exchange socket (link_dump_request 1)
      λ received. collect (parse_link_messages lossy) received [])
