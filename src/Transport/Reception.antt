-- ===== src/Transport/Reception.antt =====
-- src/protocol/transport.rs: every datagram is dealt with, no request is handled twice at once, and
-- the places for waiting STOREs are those that are taken.
use auth_kademlia_rs.Prelude.{
  ℕ, ◌*◌, ◌≡◌, refl, inl, inr, Option, none, some, [], ltb, ◌==◌, Bool-cases, Bytes,
}
use auth_kademlia_rs.Prelude.KeyMap.{KeyMap}
use auth_kademlia_rs.Storage.{Slot}
use auth_kademlia_rs.Fragmentation.{
  FragHeader, parse_fragment, accept_fragment, frag_chunk_size, max_message_size,
}
use auth_kademlia_rs.Messages.{carried_record}
use auth_kademlia_rs.StoreCheck.{unknown}
use auth_kademlia_rs.Protocol.{Instant, Settings}
use auth_kademlia_rs.Protocol.Answers.{HasIds}
use auth_kademlia_rs.Transport.{Peer, Frame}
use auth_kademlia_rs.Transport.Receive.{
  is_none, Receiver, gc_reassembly, handle_frame, handle_payload, handle_fragment, handle_datagram,
}
use auth_kademlia_rs.Transport.Handling.{
  IsReceiver, Returns, handle_and_answer-Returns, handle_response-Returns, handle_record-Returns,
}

-- A decoded frame has ids of 20 bytes.
abbrev pub IsTyped : (Bytes → Option Frame) → Type 0
IsTyped decode = (payload : Bytes) (f : Frame) → decode payload ≡ some f → HasIds f.message

module _ {m : KeyMap Bytes Slot} (dec : Discrete Peer) (decode : Bytes → Option Frame)
    (c : Settings) where
  handle_frame-Returns :
      (r : Receiver m dec decode c) (now : Instant) (peer : Peer) (payload : Bytes)
      (o : Option Frame)
      → ((f : Frame) → o ≡ some f → HasIds f.message)
      → IsReceiver dec decode c r
      → Returns dec decode c [] (handle_frame m dec decode c r now peer payload o)
  unfolding handle_frame
  handle_frame-Returns r now peer payload none ids i = (r, refl, i)
  handle_frame-Returns r now peer payload (some f) ids i = elim (Bool-cases f.is_request) [
    | inl request ↦ elim (Bool-cases (is_none (carried_record f.message))) [
      | inl light ↦
          simp (request, light)
            (handle_and_answer-Returns dec decode c r now unknown peer f (ids f refl) i)
      | inr heavy ↦
          simp (request, heavy)
            (handle_record-Returns dec decode c r now peer (peer, c.record_hash payload) f
              (ids f refl) i)
    ]
    | inr response ↦
        simp response (handle_response-Returns dec decode c r now peer f (ids f refl) i)
  ]

  handle_payload-Returns :
      (r : Receiver m dec decode c) (now : Instant) (peer : Peer) (o : Option Bytes)
      → IsTyped decode
      → IsReceiver dec decode c r
      → Returns dec decode c [] (handle_payload m dec decode c r now peer o)
  unfolding handle_payload
  handle_payload-Returns r now peer none typed i = (r, refl, i)
  handle_payload-Returns r now peer (some payload) typed i =
      handle_frame-Returns r now peer payload (decode payload) (typed payload) i

  gc_reassembly-IsReceiver :
      (r : Receiver m dec decode c) (nanos : ℕ)
      → IsReceiver dec decode c r
      → IsReceiver dec decode c (gc_reassembly m dec decode c r nanos)
  unfolding gc_reassembly
  gc_reassembly-IsReceiver r nanos i = record {
    protocol = i.protocol;
    slots = i.slots;
    places = i.places;
    once = i.once;
    keys = i.keys;
    ids = i.ids;
  }

  handle_fragment-Returns :
      (r : Receiver m dec decode c) (now : Instant) (peer : Peer) (o : Option (FragHeader × Bytes))
      → IsTyped decode
      → IsReceiver dec decode c r
      → Returns dec decode c [] (handle_fragment m dec decode c r now peer o)
  unfolding handle_fragment
  handle_fragment-Returns r now peer none typed i = (r, refl, i)
  handle_fragment-Returns r now peer (some (header, chunk)) typed i =
      elim (Bool-cases (header.total == 1)) [
        | inl single ↦ rw single (handle_payload-Returns r now peer (some chunk) typed i)
        | inr several ↦ elim (Bool-cases (ltb max_message_size (header.total * frag_chunk_size))) [
          | inl large ↦ (r, rw (several, large) refl, i)
          | inr fits ↦
              let r' = gc_reassembly m dec decode c r now.nanos in
              let accepted = accept_fragment dec now.nanos r'.reassembly peer header chunk in
              let j = gc_reassembly-IsReceiver r now.nanos i in
              rw (several, fits)
                (handle_payload-Returns (record r' { reassembly = accepted.0 }) now peer accepted.1
                  typed
                  (record {
                    protocol = j.protocol;
                    slots = j.slots;
                    places = j.places;
                    once = j.once;
                    keys = j.keys;
                    ids = j.ids;
                  }))
        ]
      ]

  -- Every datagram, whatever its bytes, is dealt with: each index is in bounds and the routing table
  -- stays well formed, provided that decoded ids have 20 bytes. No request that carries a record is
  -- ever in progress twice, and the counter of the places for waiting STOREs is at most 256 and is
  -- the number of those that wait.
  pub handle_datagram-IsReceiver :
      (r : Receiver m dec decode c) (now : Instant) (peer : Peer) (bytes : Bytes)
      → IsTyped decode
      → IsReceiver dec decode c r
      → (r' : Receiver m dec decode c) × (handle_datagram m dec decode c r now peer bytes ≡ some r')
        × IsReceiver dec decode c r'
  unfolding handle_datagram
  handle_datagram-IsReceiver r now peer bytes typed i =
      handle_fragment-Returns r now peer (parse_fragment bytes) typed i
