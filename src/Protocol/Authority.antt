-- ===== src/Protocol/Authority.antt =====
-- src/protocol/handlers.rs: which requests change what a node stores.
use auth_kademlia_rs.Prelude.{
  ℕ, ◌≡◌, refl, sym, ap, subst, ◌∙◌, ◌≢◌, ◌⊎◌, inl, inr, Bool, true, false, Option, none, some,
  Bool-cases, Bytes, bytes_eq,
}
use auth_kademlia_rs.Prelude.KeyMap.{KeyMap}
use auth_kademlia_rs.Prelude.Unique.{bytes_eq→≡, bytes_eq→≢}
use auth_kademlia_rs.Prelude.Options.{◌>>=◌, >>=-eq-some}
use auth_kademlia_rs.Storage.{Slot, Store, get}
use auth_kademlia_rs.Storage as Storage
use auth_kademlia_rs.Routing.Table.Health.{get_contact}
use auth_kademlia_rs.Messages.{RpcMessage, StoreStatus}
use auth_kademlia_rs.StoreCheck.{NetworkCopy, rpc_store}
use auth_kademlia_rs.StoreCheck.Laws.{MayStore, rpc_store-MayStore}
use auth_kademlia_rs.Auth.{verify_rotation, verify_issuer_signed}
use auth_kademlia_rs.Protocol.{Instant, KademliaProtocol, Settings}
use auth_kademlia_rs.Protocol.Welcome.{schedule_welcome_if_new}
use auth_kademlia_rs.Protocol.Writes.{Keeps, schedule_welcome_if_new-Keeps, write_update_lem}
use auth_kademlia_rs.Protocol.Reads.{find_node_lem, find_value_lem, leave_lem}
use auth_kademlia_rs.Protocol.Handlers.{
  Sender, source_of, store_handler, is_kept, is_none, rpc_ping, handle_store, write_update,
  replace_held, rpc_update, rpc_update_status_list, rpc_find_node, rpc_find_value, rpc_find_hash,
  rpc_leave, dispatch_request,
}

-- What a request must be for the storage to become `after`.
abbrev pub MayChange :
    (m : KeyMap Bytes Slot) → Settings → Store m → ℕ → NetworkCopy → RpcMessage → Store m → Type 0
MayChange m c s now copy (RpcMessage.store id key value) after =
    MayStore m (store_handler c) s now key value copy
    × (after ≡ (rpc_store m (store_handler c) s now key value copy).1)
MayChange m c s now copy (RpcMessage.update id key value auth_signature) after =
    (key ≢ c.status_list_key)
    × ((old : Bytes) × (get m s now key ≡ some old)
        × (verify_rotation c.signature_handler key value old auth_signature ≡ true))
    × (after ≡ (Storage.set m s now key value).0)
MayChange m c s now copy (RpcMessage.update_status_list id key value) after =
    (key ≡ c.status_list_key)
    × ((old : Bytes) × (get m s now key ≡ some old))
    × (verify_issuer_signed c.signature_handler value ≡ true)
    × (after ≡ (Storage.set m s now key value).0)
MayChange m c s now copy _ after = ⊥

held_lem : (o : Option Bytes) → is_none o ≡ false → (old : Bytes) × (o ≡ some old)
held_lem none e = cc
held_lem (some old) e = (old, refl)

module _ {m : KeyMap Bytes Slot} where
  replace_held_lem :
      (c : Settings) (p : KademliaProtocol m) (now : Instant) (s : Sender)
      (key value auth_signature : Bytes) (o : Option Bytes) {r : Bool × KademliaProtocol m}
      → replace_held c p now s key value auth_signature o ≡ some r
      → Keeps p r.1
        ⊎ (((old : Bytes) × (o ≡ some old)
              × (verify_rotation c.signature_handler key value old auth_signature ≡ true))
            × (r.1.storage ≡ (Storage.set m p.storage now.nanos key value).0))
  unfolding replace_held
  replace_held_lem c p now s key value auth_signature none e = inl (cc)
  replace_held_lem c p now s key value auth_signature (some old) {r} e =
      elim (Bool-cases (bytes_eq old value)) [
        | inl same ↦ inl (cc)
        | inr other ↦
            elim (Bool-cases (verify_rotation c.signature_handler key value old auth_signature)) [
              | inl valid ↦
                  let w : write_update p now s key value ≡ some r = cc in
                  inr ((old, refl, valid), write_update_lem p now s key value w)
              | inr bad ↦ inl (cc)
            ]
      ]

  update_lem :
      (c : Settings) (p : KademliaProtocol m) (now : Instant) (copy : NetworkCopy) (s : Sender)
      (key value auth_signature : Bytes) {r : Bool × KademliaProtocol m}
      → rpc_update c p now s key value auth_signature ≡ some r
      → Keeps p r.1
        ⊎ MayChange m c p.storage now.nanos copy
            (RpcMessage.update s.0 key value auth_signature)
            r.1.storage
  unfolding rpc_update
  update_lem c p now copy s key value auth_signature {r} e =
      elim (Bool-cases (bytes_eq key c.status_list_key)) [
        | inl status ↦ inl (cc)
        | inr own ↦
            let h : replace_held c p now s key value auth_signature (get m p.storage now.nanos key)
                ≡ some r =
              cc in
            elim (replace_held_lem c p now s key value auth_signature _ h) [
              | inl k ↦ inl k
              | inr (old, w) ↦ inr (bytes_eq→≢ key c.status_list_key own, old, w)
            ]
      ]

  status_lem :
      (c : Settings) (p : KademliaProtocol m) (now : Instant) (copy : NetworkCopy) (s : Sender)
      (key value : Bytes) {r : Bool × KademliaProtocol m}
      → rpc_update_status_list c p now s key value ≡ some r
      → Keeps p r.1
        ⊎ MayChange m c p.storage now.nanos copy
            (RpcMessage.update_status_list s.0 key value)
            r.1.storage
  unfolding rpc_update_status_list
  status_lem c p now copy s key value {r} e = elim (Bool-cases (bytes_eq key c.status_list_key)) [
    | inl status ↦ elim (Bool-cases (is_none (get m p.storage now.nanos key))) [
      | inl f ↦ inl (cc)
      | inr f ↦ elim (Bool-cases (verify_issuer_signed c.signature_handler value)) [
        | inl g ↦
            let w : write_update p now s key value ≡ some r = cc in
            inr (
              bytes_eq→≡ key c.status_list_key status,
              held_lem _ f,
              g,
              write_update_lem p now s key value w,
            )
        | inr g ↦ inl (cc)
      ]
    ]
    | inr own ↦ inl (cc)
  ]

  handle_store_lem :
      (c : Settings) (p : KademliaProtocol m) (now : Instant) (copy : NetworkCopy) (s : Sender)
      (key value : Bytes) {r : Option StoreStatus × KademliaProtocol m}
      → handle_store c p now copy s key value ≡ some r
      → r.1.storage ≡ (rpc_store m (store_handler c) p.storage now.nanos key value copy).1
  unfolding handle_store
  handle_store_lem c p now copy s key value {r} e =
      let w = rpc_store m (store_handler c) p.storage now.nanos key value copy in
      let p' = record p { storage = w.1 } in
      elim (Bool-cases (is_kept w.0)) [
        | inl f ↦
            let h : (schedule_welcome_if_new p' now (source_of s) >>= (λ q. some (w.0, q)))
                ≡ some r =
              cc in
            let (q, g, d) = >>=-eq-some (schedule_welcome_if_new p' now (source_of s)) _ h in
            let q_is : q ≡ r.1 = cc in
            ap (λ x. x.storage) (sym q_is) ∙ schedule_welcome_if_new-Keeps p' now (source_of s) g
        | inr f ↦ let p_is : p' ≡ r.1 = cc in ap (λ x. x.storage) (sym p_is)
      ]

  same_storage : (p q : KademliaProtocol m) → p ≡ q → Keeps p q
  same_storage p q e = ap (λ x. x.storage) (sym e)

  -- A request leaves what a node stores as it was, unless it is a STORE that the checks of the STORE
  -- handler let through; an UPDATE of another key than the Status List's, authorised by the record
  -- that the node holds; or an update of the Status List, which the node holds, signed by the issuer.
  pub dispatch_request-MayChange :
      (c : Settings) (p : KademliaProtocol m) (now : Instant) (copy : NetworkCopy)
      (request : RpcMessage) (peer : Bytes × ℕ) (r : Option RpcMessage × KademliaProtocol m)
      → dispatch_request c p now copy request peer ≡ some r
      → (r.1.storage ≡ p.storage) ⊎ MayChange m c p.storage now.nanos copy request r.1.storage
  unfolding dispatch_request rpc_ping rpc_find_hash rpc_leave
  dispatch_request-MayChange c p now copy (RpcMessage.ping id) (ip, port) r e =
      let (a, f, g) = >>=-eq-some (rpc_ping p now (id, ip, port)) _ e in
      let (q, f', g') =
        >>=-eq-some (schedule_welcome_if_new p now (source_of (id, ip, port))) _ f in
      let q_is : q ≡ r.1 = cc in
      inl (
        ap (λ x. x.storage) (sym q_is)
        ∙ schedule_welcome_if_new-Keeps p now (source_of (id, ip, port)) f')
  dispatch_request-MayChange c p now copy (RpcMessage.store id key value) (ip, port) r e =
      let s : Sender = (id, ip, port) in
      let (a, f, g) = >>=-eq-some (handle_store c p now copy s key value) _ e in
      let a_is : a.1 ≡ r.1 = cc in
      let w = ap (λ x. x.storage) (sym a_is) ∙ handle_store_lem c p now copy s key value f in
      elim (rpc_store-MayStore m (store_handler c) p.storage now.nanos key value copy) [
        | inl may ↦ inr (may, w)
        | inr same ↦ inl (w ∙ same)
      ]
  dispatch_request-MayChange c p now copy (RpcMessage.update id key value auth) (ip, port) r e =
      let (a, f, g) = >>=-eq-some (rpc_update c p now (id, ip, port) key value auth) _ e in
      let a_is : a.1 ≡ r.1 = cc in
      subst
        (λ x.
          (x.storage ≡ p.storage)
          ⊎ MayChange m c p.storage now.nanos copy (RpcMessage.update id key value auth) x.storage)
        a_is (update_lem c p now copy (id, ip, port) key value auth f)
  dispatch_request-MayChange c p now copy (RpcMessage.update_status_list id key value) (ip, port) r
        e =
      let (a, f, g) = >>=-eq-some (rpc_update_status_list c p now (id, ip, port) key value) _ e in
      let a_is : a.1 ≡ r.1 = cc in
      subst
        (λ x.
          (x.storage ≡ p.storage)
          ⊎ MayChange m c p.storage now.nanos copy (RpcMessage.update_status_list id key value)
              x.storage)
        a_is (status_lem c p now copy (id, ip, port) key value f)
  dispatch_request-MayChange c p now copy (RpcMessage.find_node id key) (ip, port) r e =
      let (a, f, g) = >>=-eq-some (rpc_find_node p now (id, ip, port) key) _ e in
      let a_is : a.1 ≡ r.1 = cc in
      inl (ap (λ x. x.storage) (sym a_is) ∙ find_node_lem p now (id, ip, port) key f)
  dispatch_request-MayChange c p now copy (RpcMessage.find_value id key) (ip, port) r e =
      let (a, f, g) = >>=-eq-some (rpc_find_value c p now (id, ip, port) key) _ e in
      let a_is : a.1 ≡ r.1 = cc in
      inl (ap (λ x. x.storage) (sym a_is) ∙ find_value_lem c p now (id, ip, port) key f)
  dispatch_request-MayChange c p now copy (RpcMessage.find_hash id key) (ip, port) r e =
      let (b, f', g') = >>=-eq-some (rpc_find_hash c p now (id, ip, port) key) _ e in
      let (a, f, g) = >>=-eq-some (rpc_find_value c p now (id, ip, port) key) _ f' in
      let a_is : a.1 ≡ r.1 = cc in
      inl (ap (λ x. x.storage) (sym a_is) ∙ find_value_lem c p now (id, ip, port) key f)
  dispatch_request-MayChange c p now copy (RpcMessage.leave id) (ip, port) r e =
      let s : Sender = (id, ip, port) in
      let (q, f, g) = >>=-eq-some (rpc_leave p s) _ e in
      let q_is : q ≡ r.1 = cc in
      inl (ap (λ x. x.storage) (sym q_is) ∙ leave_lem p (get_contact p.router id) (source_of s) f)
  dispatch_request-MayChange c p now copy (RpcMessage.pong a) (ip, port) r e =
      inl (same_storage p r.1 cc)
  dispatch_request-MayChange c p now copy (RpcMessage.store_result a) (ip, port) r e =
      inl (same_storage p r.1 cc)
  dispatch_request-MayChange c p now copy (RpcMessage.update_result a) (ip, port) r e =
      inl (same_storage p r.1 cc)
  dispatch_request-MayChange c p now copy (RpcMessage.update_status_list_result a) (ip, port) r e =
      inl (same_storage p r.1 cc)
  dispatch_request-MayChange c p now copy (RpcMessage.find_node_result a) (ip, port) r e =
      inl (same_storage p r.1 cc)
  dispatch_request-MayChange c p now copy (RpcMessage.find_value_nodes a) (ip, port) r e =
      inl (same_storage p r.1 cc)
  dispatch_request-MayChange c p now copy (RpcMessage.find_value_hit a) (ip, port) r e =
      inl (same_storage p r.1 cc)
  dispatch_request-MayChange c p now copy (RpcMessage.find_hash_hit a) (ip, port) r e =
      inl (same_storage p r.1 cc)
  dispatch_request-MayChange c p now copy RpcMessage.received (ip, port) r e =
      inl (same_storage p r.1 cc)
