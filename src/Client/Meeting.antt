-- ===== src/Client/Meeting.antt =====
-- src/protocol/client.rs and src/protocol/handlers.rs: a STORE between two nodes.
use auth_kademlia_rs.Prelude.{ℕ, ◌≡◌, refl, sym, ap, subst, ◌∙◌, Option, none, some, Bytes}
use mathlib.Core.Option.{map as option_map, some-injective}
use auth_kademlia_rs.Prelude.Options.{◌>>=◌, >>=-eq-some}
use auth_kademlia_rs.Prelude.KeyMap.{KeyMap}
use auth_kademlia_rs.Node.{Node}
use auth_kademlia_rs.Storage.{Slot}
use auth_kademlia_rs.Routing.Bucket.Laws.{IsPeer}
use auth_kademlia_rs.Routing.Table.Failures.{record_failure_at-IsTable}
use auth_kademlia_rs.Messages.{StoreStatus, RpcMessage}
use auth_kademlia_rs.StoreCheck.{NetworkCopy}
use auth_kademlia_rs.Protocol.{Instant, KademliaProtocol, Settings}
use auth_kademlia_rs.Protocol.Contacts.{note_alive, note_failure, with_router}
use auth_kademlia_rs.Protocol.Handlers.{Result, handle_store, dispatch_request}
use auth_kademlia_rs.Protocol.Upkeep.{IsProtocol, peer_bound, note_alive-IsTable}
use auth_kademlia_rs.Client.{
  Network, store_status, failed, socket_addr_of, after_alive, at_address, request_alive,
  call_store_rpc,
}

store_status_lem :
    (status : Option StoreStatus)
    → (option_map RpcMessage.store_result status >>= store_status) ≡ status
store_status_lem none = refl
store_status_lem (some status) = refl

module _ {m : KeyMap Bytes Slot} (net : Network) where
  -- The request returns this, and the node is well formed.
  abbrev pub Gives : {A : Type 0} → Result m A → A → Type 0
  Gives result a = (q : KademliaProtocol m) × (result ≡ some (a, q)) × IsProtocol q

  after_alive-Gives :
      {A : Type 0} (p : KademliaProtocol m) (now : Instant) (peer : Node) (answer : Option A)
      → IsPeer peer
      → IsProtocol p
      → Gives (after_alive net p now peer answer) answer
  unfolding after_alive failed note_failure
  after_alive-Gives p now peer none h i =
      let (t, e, k) =
        record_failure_at-IsTable net.spread p.router peer now.millis i.table (peer_bound peer h) in
      (
        with_router p t,
        rw e refl,
        record { table = k; queue = i.queue; once = i.once; waiting = i.waiting },
      )
  after_alive-Gives p now peer (some v) h i = (
    with_router p (note_alive p.router now.millis peer).1,
    refl,
    record {
      table = note_alive-IsTable p.router now.millis peer i.table;
      queue = i.queue;
      once = i.once;
      waiting = i.waiting;
    },
  )

  request_alive-Gives :
      {A : Type 0} (p : KademliaProtocol m) (now : Instant) (peer : Node) (request : RpcMessage)
      (read : RpcMessage → Option A) (a : net.SocketAddr) (answer : Option A)
      → socket_addr_of net peer ≡ some a
      → (net.call a request >>= read) ≡ answer
      → IsPeer peer
      → IsProtocol p
      → Gives (request_alive net p now peer request read) answer
  unfolding request_alive
  request_alive-Gives p now peer request read a answer e f h i =
      subst
        (λ x.
          Gives
            (at_address net p none (λ b. after_alive net p now peer (net.call b request >>= read))
              x)
            answer)
        (sym e)
        (subst (λ x. Gives (after_alive net p now peer (net.call a request >>= read)) x) f
          (after_alive-Gives p now peer (net.call a request >>= read) h i))

  -- Where a STORE reaches a node, and what its handler answers comes back, the sender reports the
  -- status that the handler decided, or no answer if it decided to give none, and is well formed.
  pub call_store_rpc-handle_store :
      (p : KademliaProtocol m) (now : Instant) (peer : Node) (key value : Bytes)
      (a : net.SocketAddr) (c : Settings) (q : KademliaProtocol m) (later : Instant)
      (copy : NetworkCopy) (ip : Bytes) (port : ℕ) (r : Option RpcMessage × KademliaProtocol m)
      → socket_addr_of net peer ≡ some a
      → IsPeer peer
      → IsProtocol p
      → dispatch_request c q later copy (RpcMessage.store p.source_node.id key value) (ip, port)
        ≡ some r
      → net.call a (RpcMessage.store p.source_node.id key value) ≡ r.0
      → (status : Option StoreStatus) × (handle_store c q later copy
            (p.source_node.id, ip, port)
            key
            value
          ≡ some (status, r.1))
        × Gives (call_store_rpc net p now peer key value) status
  unfolding call_store_rpc dispatch_request
  call_store_rpc-handle_store p now peer key value a c q later copy ip port r e h i served back =
      let (d, f, g) =
        >>=-eq-some (handle_store c q later copy (p.source_node.id, ip, port) key value) _ served in
      let same = some-injective _ _ g in
      let answered : net.call a (RpcMessage.store p.source_node.id key value)
          ≡ option_map RpcMessage.store_result d.0 =
        back ∙ sym (ap (λ x. x.0) same) in
      (
        d.0,
        f ∙ ap (λ x. some (d.0, x)) (ap (λ x. x.1) same),
        request_alive-Gives p now peer (RpcMessage.store p.source_node.id key value) store_status a
            d.0 e (ap (λ x. x >>= store_status) answered ∙ store_status_lem d.0) h i,
      )
