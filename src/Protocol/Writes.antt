-- ===== src/Protocol/Writes.antt =====
-- src/protocol/handlers.rs: the parts of a handler that write to the storage, and
-- those that leave it alone.
use auth_kademlia_rs.Prelude.{
  ◌≡◌, refl, sym, ap, subst, ◌∙◌, inl, inr, Bool, true, false, Option, none, some, List, leb,
  Bool-cases, Bytes, length,
}
use auth_kademlia_rs.Prelude.KeyMap.{KeyMap}
use auth_kademlia_rs.Prelude.Options.{>>=-eq-some}
use auth_kademlia_rs.Node.{Node, from_id}
use auth_kademlia_rs.Storage.{Slot}
use auth_kademlia_rs.Storage as Storage
use auth_kademlia_rs.Routing.Table.{add_contact}
use auth_kademlia_rs.Routing.Table.Neighbors.{find_neighbors_to_advertise}
use auth_kademlia_rs.Protocol.{Instant, KademliaProtocol, holds_id}
use auth_kademlia_rs.Protocol.Contacts.{fuel, note_alive, with_router, ping_if_idle, add_contact_to}
use auth_kademlia_rs.Protocol.Welcome.{
  max_welcome_queue, has_returned, is_welcome, queue_replication, welcome_if,
  schedule_welcome_if_new,
}
use auth_kademlia_rs.Protocol.Handlers.{Sender, source_of, write_update, advertise}

module _ {m : KeyMap Bytes Slot} where
  abbrev pub Keeps : KademliaProtocol m → KademliaProtocol m → Type 0
  Keeps p q = q.storage ≡ p.storage

  ping_if_idle-Keeps : (p : KademliaProtocol m) (o : Option Node) → Keeps p (ping_if_idle p o)
  unfolding ping_if_idle
  ping_if_idle-Keeps p none = refl
  ping_if_idle-Keeps p (some o) = elim (Bool-cases (holds_id p.oldest_pings_in_flight o.id)) [
    | inl e ↦ rw e refl
    | inr e ↦ rw e refl
  ]

  queue_replication-Keeps : (p : KademliaProtocol m) (n : Node) → Keeps p (queue_replication p n)
  unfolding queue_replication
  queue_replication-Keeps p n = elim (Bool-cases (holds_id p.welcome_in_flight n.id)) [
    | inl e ↦ rw e refl
    | inr e ↦ elim (Bool-cases (leb max_welcome_queue (length p.welcome_in_flight))) [
      | inl f ↦ rw (e, f) refl
      | inr f ↦ rw (e, f) refl
    ]
  ]

  welcome_if-Keeps :
      (b : Bool) (p : KademliaProtocol m) (now : Instant) (n : Node) {q : KademliaProtocol m}
      → welcome_if b p now n ≡ some q
      → Keeps p q
  unfolding welcome_if add_contact_to
  welcome_if-Keeps false p now n e = cc
  welcome_if-Keeps true p now n {q} e =
      let (a, f, g) = >>=-eq-some (add_contact_to p now n) _ e in
      let (r, _, h) = >>=-eq-some (add_contact fuel now.secs p.router n) _ f in
      let kept = queue_replication-Keeps a n in
      let idle = ping_if_idle-Keeps (with_router p r.1) r.0 in
      let q_is : queue_replication a n ≡ q = cc in
      let a_is : ping_if_idle (with_router p r.1) r.0 ≡ a = cc in
      subst (λ x. Keeps p x) q_is (kept ∙ subst (λ x. Keeps p x) a_is idle)

  pub schedule_welcome_if_new-Keeps :
      (p : KademliaProtocol m) (now : Instant) (n : Node) {q : KademliaProtocol m}
      → schedule_welcome_if_new p now n ≡ some q
      → Keeps p q
  unfolding schedule_welcome_if_new
  schedule_welcome_if_new-Keeps p now n e =
      let t = note_alive p.router now.millis n in
      let (w, _, f) = >>=-eq-some (is_welcome (has_returned t.0) t.1 n) _ e in
      welcome_if-Keeps w (with_router p t.1) now n f

  pub advertise-Keeps :
      (p : KademliaProtocol m) (now : Instant) (s : Sender) (key : Bytes)
      {r : List Node × KademliaProtocol m}
      → advertise p now s key ≡ some r
      → Keeps p r.1
  unfolding advertise
  advertise-Keeps p now s key {r} e =
      let (a, _, f) =
        >>=-eq-some
          (find_neighbors_to_advertise now.secs p.router (from_id key) (some (source_of s))) _ e in
      let r_is : (a.0, with_router p a.1) ≡ r = cc in ap (λ x. x.1.storage) (sym r_is)

  pub write_update_lem :
      (p : KademliaProtocol m) (now : Instant) (s : Sender) (key value : Bytes)
      {r : Bool × KademliaProtocol m}
      → write_update p now s key value ≡ some r
      → r.1.storage ≡ (Storage.set m p.storage now.nanos key value).0
  unfolding write_update
  write_update_lem p now s key value {r} e =
      let (q, f, g) = >>=-eq-some (schedule_welcome_if_new p now (source_of s)) _ e in
      let kept = schedule_welcome_if_new-Keeps p now (source_of s) f in
      let r_is : record q { storage = (Storage.set m q.storage now.nanos key value).0 } ≡ r.1 =
        cc in
      ap (λ x. x.storage) (sym r_is) ∙ ap (λ x. (Storage.set m x now.nanos key value).0) kept
