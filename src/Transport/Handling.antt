-- ===== src/Transport/Handling.antt =====
-- src/protocol/transport.rs: what each step of the handling of a frame keeps.
use auth_kademlia_rs.Prelude.{
  ℕ, suc, ◌≤◌, ◌≡◌, refl, sym, ap, subst, ◌∙◌, inl, inr, true, false, Option, none, some, List, [],
  ◌∷◌, ◌++◌, map, arith, Bool-cases, Bytes, length, any, remove_first, All,
}
use auth_kademlia_rs.Prelude.KeyMap.{KeyMap}
use auth_kademlia_rs.Node.{Node, new}
use auth_kademlia_rs.Storage.{Slot}
use auth_kademlia_rs.Messages.{RpcMessage}
use auth_kademlia_rs.StoreCheck.{
  NetworkCopy, unknown, take_slot, store_needs_lookup, max_store_lookups,
}
use auth_kademlia_rs.Protocol.{Instant, KademliaProtocol, Settings}
use auth_kademlia_rs.Protocol.Upkeep.{IsProtocol, schedule_welcome_if_new-IsProtocol}
use auth_kademlia_rs.Protocol.Handlers.{store_handler}
use auth_kademlia_rs.Protocol.Answers.{HasIds, dispatch_request-IsAnswer}
use auth_kademlia_rs.Transport.{Peer, Frame}
use auth_kademlia_rs.Transport.Pending.{on_response}
use auth_kademlia_rs.Transport.Receive.{
  RequestKey, is_request_key, needs_lookup, source_of_delivery, Receiver, answer, start, stop,
  handle_and_answer, welcome_pong, handle_response, handle_started, handle_record,
}
use auth_kademlia_rs.Transport.Once.{AreOnce, remove_key-AreOnce, remove_key_head}
use auth_kademlia_rs.Transport.Sources.{IsSource, response-IsSource}

take_slot_lem :
    (count : ℕ)
    → count ≤ max_store_lookups
    → ((take_slot count).1 ≡ true
        → ((take_slot count).0 ≡ suc count) × ((take_slot count).0 ≤ max_store_lookups))
      × ((take_slot count).1 ≡ false → (take_slot count).0 ≡ count)
unfolding take_slot
take_slot_lem count p = ground arith

module _ {m : KeyMap Bytes Slot} (dec : Discrete Peer) (decode : Bytes → Option Frame)
    (c : Settings) where
  -- `busy` are the requests that are handled right now: none, between two steps. The others in
  -- progress are those of the STOREs that wait, each of which has a place.
  pub record IsBusy (busy : List RequestKey) (r : Receiver m dec decode c) : Type 0 where
    pub protocol : IsProtocol r.protocol
    pub slots : r.store_lookups ≡ length r.waiting
    pub places : r.store_lookups ≤ max_store_lookups
    pub once : AreOnce r.requests_in_progress
    pub keys : r.requests_in_progress ≡ busy ++ map (λ w. w.key) r.waiting
    pub ids : All (λ w. HasIds w.frame.message) r.waiting

  abbrev pub IsReceiver : Receiver m dec decode c → Type 0
  IsReceiver r = IsBusy [] r

  -- A step returns, and keeps the invariant.
  abbrev pub Returns : List RequestKey → Option (Receiver m dec decode c) → Type 0
  Returns busy o = (r : Receiver m dec decode c) × (o ≡ some r) × IsBusy busy r

  answer-IsReceiver :
      {busy : List RequestKey} (r : Receiver m dec decode c) (peer : Peer) (id : ℕ)
      (o : Option RpcMessage)
      → IsBusy busy r
      → IsBusy busy (answer m dec decode c r peer id o)
  unfolding answer
  answer-IsReceiver r peer id none i = i
  answer-IsReceiver r peer id (some a) i = record {
    protocol = i.protocol;
    slots = i.slots;
    places = i.places;
    once = i.once;
    keys = i.keys;
    ids = i.ids;
  }

  with_protocol-IsReceiver :
      {busy : List RequestKey} (r : Receiver m dec decode c) (p : KademliaProtocol m)
      → IsBusy busy r
      → IsProtocol p
      → IsBusy busy (record r { protocol = p })
  with_protocol-IsReceiver r p i j = record {
    protocol = j;
    slots = i.slots;
    places = i.places;
    once = i.once;
    keys = i.keys;
    ids = i.ids;
  }

  pub handle_and_answer-Returns :
      {busy : List RequestKey} (r : Receiver m dec decode c) (now : Instant) (copy : NetworkCopy)
      (peer : Peer) (f : Frame)
      → HasIds f.message
      → IsBusy busy r
      → Returns busy (handle_and_answer m dec decode c r now copy peer f)
  unfolding handle_and_answer
  handle_and_answer-Returns r now copy peer f ids i =
      let (h, e, p, a) =
        dispatch_request-IsAnswer c r.protocol now copy f.message peer ids i.protocol in
      (
        answer m dec decode c (record r { protocol = h.1 }) peer f.msg_id h.0,
        rw e refl,
        answer-IsReceiver (record r { protocol = h.1 }) peer f.msg_id h.0
            (with_protocol-IsReceiver r h.1 i p),
      )

  welcome_pong-Returns :
      {busy : List RequestKey} (r : Receiver m dec decode c) (now : Instant) (o : Option Node)
      → IsSource o
      → IsBusy busy r
      → Returns busy (welcome_pong m dec decode c r now o)
  unfolding welcome_pong
  welcome_pong-Returns r now none s i = (r, refl, i)
  welcome_pong-Returns r now (some n) s i =
      let (p, e, j, _) = schedule_welcome_if_new-IsProtocol r.protocol now n s i.protocol in
      (record r { protocol = p }, rw e refl, with_protocol-IsReceiver r p i j)

  pub handle_response-Returns :
      {busy : List RequestKey} (r : Receiver m dec decode c) (now : Instant) (peer : Peer)
      (f : Frame)
      → HasIds f.message
      → IsBusy busy r
      → Returns busy (handle_response m dec decode c r now peer f)
  unfolding handle_response
  handle_response-Returns r now peer f ids i =
      let d = on_response r.pending peer f.msg_id f.message in
      let (q, e, j) =
        welcome_pong-Returns (record r { pending = d.0 }) now (source_of_delivery d.1 peer)
          (response-IsSource r.pending peer f.msg_id f.message ids)
          (record {
            protocol = i.protocol;
            slots = i.slots;
            places = i.places;
            once = i.once;
            keys = i.keys;
            ids = i.ids;
          }) in
      (
        record q { delivered = q.delivered ++ d.1 ∷ [] },
        rw e refl,
        record {
          protocol = j.protocol;
          slots = j.slots;
          places = j.places;
          once = j.once;
          keys = j.keys;
          ids = j.ids;
        },
      )

  start-IsBusy :
      (r : Receiver m dec decode c) (key : RequestKey)
      → any (λ k. is_request_key k key) r.requests_in_progress ≡ false
      → IsReceiver r
      → IsBusy (key ∷ []) (start m dec decode c r key)
  start-IsBusy r key new i = record {
    protocol = i.protocol;
    slots = i.slots;
    places = i.places;
    once = (new, i.once);
    keys = ap (λ l. key ∷ l) i.keys;
    ids = i.ids;
  }

  stop-IsReceiver :
      (r : Receiver m dec decode c) (key : RequestKey)
      → IsBusy (key ∷ []) r
      → IsReceiver (stop m dec decode c r key)
  stop-IsReceiver r key i = record {
    protocol = i.protocol;
    slots = i.slots;
    places = i.places;
    once = remove_key-AreOnce key r.requests_in_progress i.once;
    keys =
        ap (remove_first (λ k. is_request_key k key)) i.keys
        ∙ remove_key_head key (map (λ w. w.key) r.waiting);
    ids = i.ids;
  }

  handle_inline-Returns :
      (r : Receiver m dec decode c) (now : Instant) (peer : Peer) (key : RequestKey) (f : Frame)
      → HasIds f.message
      → IsBusy (key ∷ []) r
      → Returns [] (handle_started m dec decode c false r now peer key f)
  unfolding handle_started
  handle_inline-Returns r now peer key f ids i =
      let (q, e, j) =
        handle_and_answer-Returns (answer m dec decode c r peer f.msg_id (some RpcMessage.received))
          now unknown peer f ids (answer-IsReceiver r peer f.msg_id (some RpcMessage.received) i) in
      (stop m dec decode c q key, rw e refl, stop-IsReceiver q key j)

  -- The STORE takes the place that was counted for it.
  handle_waiting-Returns :
      (r : Receiver m dec decode c) (now : Instant) (peer : Peer) (key : RequestKey) (f : Frame)
      (count : ℕ)
      → HasIds f.message
      → (count ≡ suc r.store_lookups) × (count ≤ max_store_lookups)
      → IsBusy (key ∷ []) r
      → Returns []
          (handle_started m dec decode c true (record r { store_lookups = count }) now peer key f)
  unfolding handle_started answer
  handle_waiting-Returns r now peer key f count ids (next, room) i = (
    _,
    refl,
    record {
      protocol = i.protocol;
      slots = omega (arith, next, i.slots);
      places = room;
      once = i.once;
      keys = i.keys;
      ids = (ids, i.ids);
    },
  )

  refused-IsReceiver :
      (r : Receiver m dec decode c) (count : ℕ)
      → count ≡ r.store_lookups
      → IsReceiver r
      → IsReceiver (record r { store_lookups = count })
  refused-IsReceiver r count e i = record {
    protocol = i.protocol;
    slots = e ∙ i.slots;
    places = subst (λ n. n ≤ max_store_lookups) (sym e) i.places;
    once = i.once;
    keys = i.keys;
    ids = i.ids;
  }

  pub handle_record-Returns :
      (r : Receiver m dec decode c) (now : Instant) (peer : Peer) (key : RequestKey) (f : Frame)
      → HasIds f.message
      → IsReceiver r
      → Returns [] (handle_record m dec decode c r now peer key f)
  unfolding handle_record
  handle_record-Returns r now peer key f ids i =
      let needs =
        needs_lookup f.message
          (store_needs_lookup m (store_handler c) r.protocol.storage now.nanos) in
      elim (Bool-cases (any (λ k. is_request_key k key) r.requests_in_progress)) [
        | inl copy ↦ (
          answer m dec decode c r peer f.msg_id (some RpcMessage.received),
          rw copy refl,
          answer-IsReceiver r peer f.msg_id (some RpcMessage.received) i,
        )
        | inr new ↦ elim (Bool-cases needs) [
          | inl lookup ↦ elim (Bool-cases (take_slot r.store_lookups).1) [
            | inl free ↦
                rw (new, lookup, free)
                  (handle_waiting-Returns (start m dec decode c r key) now peer key f
                    (take_slot r.store_lookups).0 ids
                    ((take_slot_lem r.store_lookups i.places).0 free) (start-IsBusy r key new i))
            | inr full ↦ (
              record r { store_lookups = (take_slot r.store_lookups).0 },
              rw (new, lookup, full) refl,
              refused-IsReceiver r (take_slot r.store_lookups).0
                  ((take_slot_lem r.store_lookups i.places).1 full) i,
            )
          ]
          | inr direct ↦
              rw (new, direct)
                (handle_inline-Returns (start m dec decode c r key) now peer key f ids
                  (start-IsBusy r key new i))
        ]
      ]
