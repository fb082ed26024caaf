-- ===== src/Linux/Netlink/Messages.antt =====
-- src/linux/netlink.rs: the loop over the messages of a received buffer, and its four uses.
use network_manager_rs.Common.{
  ℕ, zero, suc, ◌-◌, Bool, true, false, ◌||◌, ◌&&◌, Option, none, some, List, [], ◌∷◌, ◌++◌, length,
  drop, ltb, leb, ◌==◌, if◌then◌else◌, Result, ok, err, ◌>>=◌, str, Str,
}
use network_manager_rs.Linux.Model.{NetlinkError, Link, Address, Route}
use network_manager_rs.Linux.Model.Events.{
  NetworkEvent, LinkEventKind, AddressEventKind, RouteEventKind, link_event, address_event,
  route_event,
}
use network_manager_rs.Linux.Netlink.Wire.{
  part, align, creates, nlmsg_error, nlmsg_done, rtm_newlink, rtm_dellink, rtm_newaddr, rtm_deladdr,
  rtm_newroute, rtm_delroute,
}
use network_manager_rs.Linux.Netlink.Structs.{NlMsgHdr, read_header}
use network_manager_rs.Linux.Netlink.Parse.{
  malformed, parse_kernel_error, parse_address, parse_route, parse_link,
}

-- What a round does: `return Ok(..)`, or the next round.
pub data Flow (S R : Type 0) : Type 0 where
  continue : S → Flow S R
  return : R → Flow S R

-- How the loop ended: by a `return`, or at the end of the buffer; `exact` says whether the offset
-- is the buffer's length there.
pub data Ended (S R : Type 0) : Type 0 where
  returned : R → Ended S R
  ran_out : (exact : Bool) → S → Ended S R

module _ {S R : Type 0} where
  abbrev pub after_round :
      (S → Result (Ended S R) NetlinkError) → Flow S R → Result (Ended S R) NetlinkError
  after_round rest (continue s) = rest s
  after_round rest (return r) = ok (returned r)

-- `while offset + size_of::<NlMsgHdr>() <= buf.len()`, on the bytes from `offset` on. `within` says
-- that the offset is not behind the end, where padding that is not there would put it.
module _ {S R : Type 0} (text : Str)
    (step : NlMsgHdr → List ℕ → S → Result (Flow S R) NetlinkError) where
  unfoldable pub messages_loop : ℕ → Bool → List ℕ → S → Result (Ended S R) NetlinkError
  messages_loop zero within bytes s = ok (ran_out (within && length bytes == 0) s)
  messages_loop (suc fuel) within bytes s =
      let rest : ℕ → S → Result (Ended S R) NetlinkError =
        λ len s'. messages_loop fuel (leb (align len) (length bytes)) (drop (align len) bytes) s' in
      if ltb (length bytes) 16
      then ok (ran_out (within && length bytes == 0) s)
      else read_header bytes >>= λ header.
          if ltb header.nlmsg_len 16 || ltb (length bytes) header.nlmsg_len
          then malformed text
          else step header (part 16 (header.nlmsg_len - 16) bytes) s
            >>= after_round (rest header.nlmsg_len)

  abbrev pub walk_messages : List ℕ → S → Result (Ended S R) NetlinkError
  walk_messages bytes s = messages_loop (length bytes) true bytes s

abbrev pub nlmsghdr_text : Str
nlmsghdr_text = str "invalid nlmsghdr length"

-- `if let Some(a) = parse(payload)? { push }`.
abbrev pub push_parsed :
    {A E R : Type 0}
    → (A → E)
    → Result (Option A) NetlinkError
    → List E
    → Result (Flow (List E) R) NetlinkError
push_parsed event parsed events =
    parsed >>= λ o. ok (continue (elim o [ none ↦ events | some a ↦ events ++ event a ∷ [] ]))

-- The arms that the four loops share.
abbrev pub on_control :
    {S R : Type 0}
    → R
    → NlMsgHdr
    → List ℕ
    → Result (Flow S R) NetlinkError
    → Result (Flow S R) NetlinkError
on_control result header payload other =
    if header.nlmsg_type == nlmsg_done
    then ok (return result)
    else if header.nlmsg_type == nlmsg_error
    then err (parse_kernel_error payload)
    else other

-- A round of `parse_link_messages`, `parse_address_messages` and `parse_route_messages`: at the
-- end of the dump the collection is what the rounds have pushed.
abbrev pub dump_round :
    {A : Type 0}
    → ℕ
    → (List ℕ → Result (Option A) NetlinkError)
    → NlMsgHdr
    → List ℕ
    → List A
    → Result (Flow (List A) (List A)) NetlinkError
dump_round message_type parse header payload found = on_control found header payload (
    if header.nlmsg_type == message_type
    then push_parsed (λ a. a) (parse payload) found
    else ok (continue found))

-- Whether the dump is done, and the collection.
abbrev pub done_or_not : {A : Type 0} → Ended (List A) (List A) → Bool × List A
done_or_not (returned found) = (true, found)
done_or_not (ran_out exact found) = (false, found)

abbrev pub parse_dump :
    {A : Type 0}
    → ℕ
    → (List ℕ → Result (Option A) NetlinkError)
    → List ℕ
    → List A
    → Result (Bool × List A) NetlinkError
parse_dump message_type parse buf found =
    walk_messages nlmsghdr_text (dump_round message_type parse) buf found >>= λ ended.
    ok (done_or_not ended)

unfoldable pub parse_address_messages :
    List ℕ → List Address → Result (Bool × List Address) NetlinkError
parse_address_messages = parse_dump rtm_newaddr parse_address

unfoldable pub parse_route_messages : List ℕ → List Route → Result (Bool × List Route) NetlinkError
parse_route_messages = parse_dump rtm_newroute parse_route

module _ (lossy : List ℕ → Str) where
  unfoldable pub parse_link_messages : List ℕ → List Link → Result (Bool × List Link) NetlinkError
  parse_link_messages = parse_dump rtm_newlink (parse_link lossy)

  unfoldable pub event_round :
      NlMsgHdr
      → List ℕ
      → List NetworkEvent
      → Result (Flow (List NetworkEvent) (List NetworkEvent)) NetlinkError
  event_round header payload events =
      let created = creates header.nlmsg_flags in
      on_control events header payload (
        if header.nlmsg_type == rtm_newlink
        then push_parsed
            (link_event (if created then LinkEventKind.created else LinkEventKind.changed))
            (parse_link lossy payload) events
        else if header.nlmsg_type == rtm_dellink
        then push_parsed (link_event LinkEventKind.removed) (parse_link lossy payload) events
        else if header.nlmsg_type == rtm_newaddr
        then push_parsed (address_event AddressEventKind.added) (parse_address payload) events
        else if header.nlmsg_type == rtm_deladdr
        then push_parsed (address_event AddressEventKind.removed) (parse_address payload) events
        else if header.nlmsg_type == rtm_newroute
        then push_parsed
            (route_event (if created then RouteEventKind.added else RouteEventKind.changed))
            (parse_route payload) events
        else if header.nlmsg_type == rtm_delroute
        then push_parsed (route_event RouteEventKind.removed) (parse_route payload) events
        else ok (continue events))

  -- The offset must end at the end of the buffer.
  abbrev pub all_events :
      Ended (List NetworkEvent) (List NetworkEvent) → Result (List NetworkEvent) NetlinkError
  all_events (returned events) = ok events
  all_events (ran_out true events) = ok events
  all_events (ran_out false events) = malformed (str "trailing partial nlmsghdr")

  unfoldable pub parse_network_events : List ℕ → Result (List NetworkEvent) NetlinkError
  parse_network_events buf = walk_messages nlmsghdr_text event_round buf [] >>= all_events
