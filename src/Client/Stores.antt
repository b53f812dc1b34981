-- ===== src/Client/Stores.antt =====
-- src/protocol/client.rs: no request changes the records that the node itself holds.
use auth_kademlia_rs.Prelude.{◌≡◌, refl, subst, Option, none, some, Bytes}
use mathlib.Core.Option.{some-injective}
use auth_kademlia_rs.Prelude.Options.{◌>>=◌, >>=-eq-some}
use auth_kademlia_rs.Prelude.KeyMap.{KeyMap}
use auth_kademlia_rs.Node.{Node}
use auth_kademlia_rs.Storage.{Slot}
use auth_kademlia_rs.Messages.{RpcMessage}
use auth_kademlia_rs.Protocol.{Instant, KademliaProtocol}
use auth_kademlia_rs.Protocol.Contacts.{note_failure}
use auth_kademlia_rs.Protocol.Handlers.{Result}
use auth_kademlia_rs.Client.{
  Network, failed, socket_addr_of, at_address, after_alive, request_alive,
}

module _ {m : KeyMap Bytes Slot} (net : Network) where
  -- The records after the request are those before it.
  abbrev pub KeepsStore : {A : Type 0} → KademliaProtocol m → Result m A → Type 0
  KeepsStore {A} p result = (r : A × KademliaProtocol m) → result ≡ some r → r.1.storage ≡ p.storage

  pub some-KeepsStore :
      {A : Type 0} (p q : KademliaProtocol m) (a : A)
      → q.storage ≡ p.storage
      → KeepsStore p (some (a, q))
  some-KeepsStore p q a h z e = subst (λ x. x.1.storage ≡ p.storage) (some-injective _ _ e) h

  failed-KeepsStore :
      {A : Type 0} (p : KademliaProtocol m) (now : Instant) (peer : Node) (a : A)
      → KeepsStore p (failed net p now peer a)
  unfolding failed
  failed-KeepsStore p now peer a z e =
      let (t, f, g) = >>=-eq-some (note_failure net.spread p.router now.millis peer) _ e in
      some-KeepsStore p _ a refl _ g

  after_alive-KeepsStore :
      {A : Type 0} (p : KademliaProtocol m) (now : Instant) (peer : Node) (answer : Option A)
      → KeepsStore p (after_alive net p now peer answer)
  unfolding after_alive
  after_alive-KeepsStore p now peer none z e = failed-KeepsStore p now peer none z e
  after_alive-KeepsStore p now peer (some v) z e = some-KeepsStore p _ (some v) refl z e

  at_address-KeepsStore :
      {A : Type 0} (p : KademliaProtocol m) (unasked : A) (send : net.SocketAddr → Result m A)
      (a : Option net.SocketAddr)
      → ((b : net.SocketAddr) → KeepsStore p (send b))
      → KeepsStore p (at_address net p unasked send a)
  at_address-KeepsStore p unasked send none h z e = some-KeepsStore p p unasked refl z e
  at_address-KeepsStore p unasked send (some b) h z e = h b z e

  pub request_alive-KeepsStore :
      {A : Type 0} (p : KademliaProtocol m) (now : Instant) (peer : Node) (request : RpcMessage)
      (read : RpcMessage → Option A)
      → KeepsStore p (request_alive net p now peer request read)
  unfolding request_alive
  request_alive-KeepsStore p now peer request read z e =
      at_address-KeepsStore p none _ (socket_addr_of net peer)
        (λ b. after_alive-KeepsStore p now peer (net.call b request >>= read)) z e
