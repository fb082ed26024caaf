-- ===== src/Linux/Netlink/Listing.antt =====
-- The listings, over the buffers of a dump.
use mathlib.Core.List.{map-append}
use network_manager_rs.Common.{
  ℕ, ◌≡◌, arith, refl, sym, ap, ◌∙◌, true, false, Option, some, List, [], ◌∷◌, ◌++◌, append-nil,
  append_assoc, map, All, All-append, Result, ok, ◌==◌, ==_iff,
}
use network_manager_rs.Linux.Model.{NetlinkError}
use network_manager_rs.Linux.Netlink.Wire.{nlmsg_done}
use network_manager_rs.Linux.Netlink.Messages.{
  ran_out, returned, walk_messages, dump_round, parse_dump, nlmsghdr_text,
}
use network_manager_rs.Linux.Netlink.Streams.{
  Message, IsMessage, stream, each_message, messages_loop-stream,
}
use network_manager_rs.Linux.Netlink.Sockets.{Received, collect}

-- The message that ends a dump.
abbrev pub done : Message
done = record { message_type = nlmsg_done; flags = 0; payload = [] }

-- `entry` is the message that describes a B, which the listing reads as `seen`.
module _ {A B : Type 0} (message_type : ℕ) (parse : List ℕ → Result (Option A) NetlinkError)
    (entry : B → Message) (seen : B → A) where
  -- The message is well formed, of the listing's type, and parsed as what is seen.
  pub record IsEntry (b : B) : Type 0 where
    pub is_message : IsMessage (entry b)
    pub is_type : (entry b).message_type ≡ message_type
    pub is_listed : (message_type == 2) ≡ false
    pub is_not_done : (message_type == 3) ≡ false
    pub is_parsed : parse (entry b).payload ≡ ok (some (seen b))

  -- The entries of the buffers before the last, and of the last.
  abbrev pub joined : List (List B) → List B → List B
  joined [] last = last
  joined (bs ∷ bufs) last = bs ++ joined bufs last

  -- The buffers of a dump, the last with the message that ends it, and what is received later.
  abbrev pub dump_buffers : List (List B) → List B → List Received → List Received
  dump_buffers [] last more = ok (stream (map entry last ++ (done ∷ []))) ∷ more
  dump_buffers (bs ∷ bufs) last more = ok (stream (map entry bs)) ∷ dump_buffers bufs last more

  entries_IsMessage : (bs : List B) → All IsEntry bs → All IsMessage (map entry bs)
  entries_IsMessage [] h = tt
  entries_IsMessage (b ∷ bs) h = (h.0.is_message, entries_IsMessage bs h.1)

  each_entry :
      (bs : List B) (later : List Message) (found : List A)
      → All IsEntry bs
      → each_message nlmsghdr_text (dump_round message_type parse) (map entry bs ++ later) found
        ≡ each_message nlmsghdr_text (dump_round message_type parse) later (found ++ map seen bs)
  unfolding each_message
  each_entry [] later found h =
      ap (each_message nlmsghdr_text (dump_round message_type parse) later) (sym (append-nil found))
  each_entry (b ∷ bs) later found h =
      let e = h.0 in
      let self : (message_type == message_type) ≡ true = (==_iff _ _).1 refl in
      rw (e.is_type, e.is_not_done, e.is_listed, self, e.is_parsed)
        (each_entry bs later (found ++ (seen b ∷ [])) h.1
          ∙ ap (each_message nlmsghdr_text (dump_round message_type parse) later)
              (append_assoc found (seen b ∷ []) (map seen bs)))

  dump_full :
      (bs : List B) (found : List A)
      → All IsEntry bs
      → parse_dump message_type parse (stream (map entry bs)) found
        ≡ ok (false, found ++ map seen bs)
  dump_full bs found h =
      let whole : walk_messages nlmsghdr_text (dump_round message_type parse)
            (stream (map entry bs)) found
          ≡ ok (ran_out true (found ++ map seen bs)) =
        messages_loop-stream nlmsghdr_text (dump_round message_type parse) _ (map entry bs) found
          (entries_IsMessage bs h) (omega arith)
        ∙ ap (λ ms. each_message nlmsghdr_text (dump_round message_type parse) ms found)
            (sym (append-nil (map entry bs)))
        ∙ each_entry bs [] found h
        ∙ unfold each_message in refl in
      rw whole refl

  dump_last :
      (bs : List B) (found : List A)
      → All IsEntry bs
      → parse_dump message_type parse (stream (map entry bs ++ (done ∷ []))) found
        ≡ ok (true, found ++ map seen bs)
  dump_last bs found h =
      let whole : walk_messages nlmsghdr_text (dump_round message_type parse)
            (stream (map entry bs ++ (done ∷ []))) found
          ≡ ok (returned (found ++ map seen bs)) =
        messages_loop-stream nlmsghdr_text (dump_round message_type parse) _
          (map entry bs ++ (done ∷ [])) found
          (All-append IsMessage (map entry bs) _ (entries_IsMessage bs h)
            ((omega arith, omega arith, omega arith, refl), tt))
          (omega arith)
        ∙ each_entry bs (done ∷ []) found h
        ∙ unfold each_message in refl in
      rw whole refl

  -- A dump is collected whole, in its order, whatever is received behind its end.
  pub collect-dump_buffers :
      (bufs : List (List B)) (last : List B) (more : List Received) (found : List A)
      → All (All IsEntry) bufs
      → All IsEntry last
      → collect (parse_dump message_type parse) (dump_buffers bufs last more) found
        ≡ some (ok (found ++ map seen (joined bufs last)))
  unfolding collect
  collect-dump_buffers [] last more found h l = rw (dump_last last found l) refl
  collect-dump_buffers (bs ∷ bufs) last more found h l = rw (dump_full bs found h.0) (
      collect-dump_buffers bufs last more (found ++ map seen bs) h.1 l
      ∙ ap (λ xs. some (ok xs))
          (append_assoc found (map seen bs) (map seen (joined bufs last))
            ∙ ap (◌++◌ found) (sym (map-append seen bs (joined bufs last)))))
