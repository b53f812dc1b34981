-- ===== src/Client/Upkeep.antt =====
-- src/protocol/client.rs: every request returns, and keeps the node well formed.
use auth_kademlia_rs.Prelude.{◌≡◌, refl, true, Option, none, some, Bytes}
use auth_kademlia_rs.Prelude.Options.{◌>>=◌}
use auth_kademlia_rs.Prelude.KeyMap.{KeyMap}
use auth_kademlia_rs.Node.{Node}
use auth_kademlia_rs.Storage.{Slot}
use auth_kademlia_rs.Routing.Bucket.Laws.{IsPeer}
use auth_kademlia_rs.Routing.Table.Failures.{record_failure_at-IsTable}
use auth_kademlia_rs.Messages.{RpcMessage}
use auth_kademlia_rs.Crawling.{FindPayload}
use auth_kademlia_rs.Protocol.{Instant, KademliaProtocol}
use auth_kademlia_rs.Protocol.Contacts.{note_alive, note_failure, with_router}
use auth_kademlia_rs.Protocol.Handlers.{Result}
use auth_kademlia_rs.Protocol.Upkeep.{
  IsProtocol, peer_bound, note_alive-IsTable, schedule_welcome_if_new-IsProtocol,
}
use auth_kademlia_rs.Client.{
  Network, failed, no_answer, socket_addr_of, request_alive, request_find, at_address, after_alive,
  after_find,
}

module _ {m : KeyMap Bytes Slot} (net : Network) where
  -- The request returns, and the node is well formed.
  abbrev pub IsDone : {A : Type 0} → Result m A → Type 0
  IsDone {A} result = (r : A × KademliaProtocol m) × (result ≡ some r) × IsProtocol r.1

  failed-IsDone :
      {A : Type 0} (p : KademliaProtocol m) (now : Instant) (peer : Node) (result : A)
      → IsPeer peer
      → IsProtocol p
      → IsDone (failed net p now peer result)
  unfolding failed note_failure
  failed-IsDone p now peer result h i =
      let (t, e, k) =
        record_failure_at-IsTable net.spread p.router peer now.millis i.table (peer_bound peer h) in
      (
        (result, with_router p t),
        rw e refl,
        record { table = k; queue = i.queue; once = i.once; waiting = i.waiting },
      )

  after_alive-IsDone :
      {A : Type 0} (p : KademliaProtocol m) (now : Instant) (peer : Node) (answer : Option A)
      → IsPeer peer
      → IsProtocol p
      → IsDone (after_alive net p now peer answer)
  unfolding after_alive
  after_alive-IsDone p now peer none h i = failed-IsDone p now peer none h i
  after_alive-IsDone p now peer (some v) h i = (
    (some v, with_router p (note_alive p.router now.millis peer).1),
    refl,
    record {
      table = note_alive-IsTable p.router now.millis peer i.table;
      queue = i.queue;
      once = i.once;
      waiting = i.waiting;
    },
  )

  after_find-IsDone :
      (p : KademliaProtocol m) (now : Instant) (peer : Node) (answer : Option FindPayload)
      → IsPeer peer
      → IsProtocol p
      → IsDone (after_find net p now peer answer)
  unfolding after_find
  after_find-IsDone p now peer none h i = failed-IsDone p now peer no_answer h i
  after_find-IsDone p now peer (some f) h i =
      let (q, g, j, _) = schedule_welcome_if_new-IsProtocol p now peer h i in
      (((true, f), q), rw g refl, j)

  at_address-IsDone :
      {A : Type 0} (p : KademliaProtocol m) (unasked : A) (send : net.SocketAddr → Result m A)
      (a : Option net.SocketAddr)
      → IsProtocol p
      → ((b : net.SocketAddr) → IsDone (send b))
      → IsDone (at_address net p unasked send a)
  at_address-IsDone p unasked send none i h = ((unasked, p), refl, i)
  at_address-IsDone p unasked send (some a) i h = h a

  pub request_alive-IsDone :
      {A : Type 0} (p : KademliaProtocol m) (now : Instant) (peer : Node) (request : RpcMessage)
      (read : RpcMessage → Option A)
      → IsPeer peer
      → IsProtocol p
      → IsDone (request_alive net p now peer request read)
  unfolding request_alive
  request_alive-IsDone p now peer request read h i =
      at_address-IsDone p none _ (socket_addr_of net peer) i
        (λ a. after_alive-IsDone p now peer (net.call a request >>= read) h i)

  pub request_find-IsDone :
      (p : KademliaProtocol m) (now : Instant) (peer : Node) (request : RpcMessage)
      (read : RpcMessage → Option FindPayload)
      → IsPeer peer
      → IsProtocol p
      → IsDone (request_find net p now peer request read)
  unfolding request_find
  request_find-IsDone p now peer request read h i =
      at_address-IsDone p no_answer _ (socket_addr_of net peer) i
        (λ a. after_find-IsDone p now peer (net.call a request >>= read) h i)
