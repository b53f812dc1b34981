-- ===== src/Protocol/Reads.antt =====
-- src/protocol/handlers.rs: the requests that leave the storage alone.
use auth_kademlia_rs.Prelude.{
  ◌≡◌, sym, ap, ◌∙◌, inl, inr, Option, none, some, List, Bool-cases, Bytes,
}
use auth_kademlia_rs.Prelude.KeyMap.{KeyMap}
use auth_kademlia_rs.Prelude.Options.{◌>>=◌, >>=-eq-some}
use auth_kademlia_rs.Node.{Node, same_home_as}
use auth_kademlia_rs.Storage.{Slot}
use auth_kademlia_rs.Routing.Table.{remove_contact}
use auth_kademlia_rs.Protocol.{Instant, KademliaProtocol, Settings, FindValueResult}
use auth_kademlia_rs.Protocol.Contacts.{with_router}
use auth_kademlia_rs.Protocol.Welcome.{schedule_welcome_if_new}
use auth_kademlia_rs.Protocol.Writes.{Keeps, schedule_welcome_if_new-Keeps, advertise-Keeps}
use auth_kademlia_rs.Protocol.Handlers.{
  Sender, source_of, advertise, rpc_find_node, find_neighbors_result, answer_held, rpc_find_value,
  remove_leaving, key_binding_is_valid,
}

module _ {m : KeyMap Bytes Slot} where
  pub find_node_lem :
      (p : KademliaProtocol m) (now : Instant) (s : Sender) (key : Bytes)
      {r : List Node × KademliaProtocol m}
      → rpc_find_node p now s key ≡ some r
      → Keeps p r.1
  unfolding rpc_find_node
  find_node_lem p now s key e =
      let (q, f, g) = >>=-eq-some (schedule_welcome_if_new p now (source_of s)) _ e in
      advertise-Keeps q now s key g ∙ schedule_welcome_if_new-Keeps p now (source_of s) f

  neighbors_lem :
      (p : KademliaProtocol m) (now : Instant) (s : Sender) (key : Bytes)
      {r : FindValueResult × KademliaProtocol m}
      → find_neighbors_result p now s key ≡ some r
      → Keeps p r.1
  unfolding find_neighbors_result
  neighbors_lem p now s key {r} e =
      let (a, f, g) = >>=-eq-some (advertise p now s key) _ e in
      let a_is : a.1 ≡ r.1 = cc in ap (λ x. x.storage) (sym a_is) ∙ advertise-Keeps p now s key f

  answer_held_lem :
      (c : Settings) (p : KademliaProtocol m) (now : Instant) (s : Sender) (key : Bytes)
      (o : Option Bytes) {r : FindValueResult × KademliaProtocol m}
      → answer_held c p now s key o ≡ some r
      → Keeps p r.1
  unfolding answer_held
  answer_held_lem c p now s key none e = neighbors_lem p now s key e
  answer_held_lem c p now s key (some held) {r} e =
      elim (Bool-cases (key_binding_is_valid c key held)) [
        | inl f ↦ let p_is : p ≡ r.1 = cc in ap (λ x. x.storage) (sym p_is)
        | inr f ↦
            let h : find_neighbors_result p now s key ≡ some r = cc in neighbors_lem p now s key h
      ]

  pub find_value_lem :
      (c : Settings) (p : KademliaProtocol m) (now : Instant) (s : Sender) (key : Bytes)
      {r : FindValueResult × KademliaProtocol m}
      → rpc_find_value c p now s key ≡ some r
      → Keeps p r.1
  unfolding rpc_find_value
  find_value_lem c p now s key e =
      let (q, f, g) = >>=-eq-some (schedule_welcome_if_new p now (source_of s)) _ e in
      answer_held_lem c q now s key _ g ∙ schedule_welcome_if_new-Keeps p now (source_of s) f

  pub leave_lem :
      (p : KademliaProtocol m) (o : Option Node) (source : Node) {q : KademliaProtocol m}
      → remove_leaving p o source ≡ some q
      → Keeps p q
  unfolding remove_leaving
  leave_lem p none source e = cc
  leave_lem p (some contact) source {q} e = elim (Bool-cases (same_home_as contact source)) [
    | inl f ↦
        let h : (remove_contact p.router contact >>= (λ t. some (with_router p t))) ≡ some q = cc in
        let (t, _, g) = >>=-eq-some (remove_contact p.router contact) _ h in
        let q_is : with_router p t ≡ q = cc in ap (λ x. x.storage) (sym q_is)
    | inr f ↦ let p_is : p ≡ q = cc in ap (λ x. x.storage) (sym p_is)
  ]
