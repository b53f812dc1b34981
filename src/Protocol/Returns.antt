-- ===== src/Protocol/Returns.antt =====
-- src/protocol/handlers.rs: every handler returns, with every index in bounds.
use auth_kademlia_rs.Prelude.{
  ℕ, ◌≤◌, ◌≡◌, refl, inl, inr, true, false, Option, none, some, List, [], ◌∷◌, ◌++◌, Bool-cases,
  Bytes, AreBytes, bytes_eq, length, All, All-append,
}
use auth_kademlia_rs.Prelude.KeyMap.{KeyMap}
use auth_kademlia_rs.Prelude.Options.{◌>>=◌}
use auth_kademlia_rs.Node.{Node, new, from_id, id_len, same_home_as}
use auth_kademlia_rs.Storage.{Slot, get}
use auth_kademlia_rs.Routing.Bucket.{KBucket}
use auth_kademlia_rs.Routing.Bucket.Laws.{IsPeer, IsIn, IsBucket}
use auth_kademlia_rs.Routing.Table.{RoutingTable, last_id}
use auth_kademlia_rs.Routing.Table.Insert.{IsTable, find-All, remove_contact-IsKept}
use auth_kademlia_rs.Routing.Table.Failures.{closest-IsTable}
use auth_kademlia_rs.Routing.Table.Neighbors.{find_neighbors_to_advertise, not_stale_only}
use auth_kademlia_rs.Routing.Table.Health.{get_contact, known_contacts}
use auth_kademlia_rs.StoreCheck.{NetworkCopy, rpc_store}
use auth_kademlia_rs.Auth.{verify_rotation, verify_issuer_signed}
use auth_kademlia_rs.Protocol.{Instant, KademliaProtocol, Settings, FindValueResult}
use auth_kademlia_rs.Protocol.Contacts.{with_router}
use auth_kademlia_rs.Protocol.Welcome.{schedule_welcome_if_new}
use auth_kademlia_rs.Protocol.Upkeep.{IsProtocol, peer_bound, schedule_welcome_if_new-IsProtocol}
use auth_kademlia_rs.Protocol.Handlers.{
  Sender, source_of, store_handler, is_kept, is_none, key_binding_is_valid, Result, rpc_ping,
  handle_store, write_update, replace_held, rpc_update, rpc_update_status_list, advertise,
  rpc_find_node, find_neighbors_result, answer_held, rpc_find_value, remove_leaving, rpc_leave,
}

-- An id or a key: 20 bytes.
abbrev pub IsId : Bytes → Type 0
IsId id = AreBytes id × (length id ≡ id_len)

pub source_of-IsPeer : (s : Sender) → IsId s.0 → IsPeer (source_of s)
unfolding new
source_of-IsPeer s i = (refl, i.0, i.1)

key-IsPeer : (key : Bytes) → IsId key → IsPeer (from_id key)
unfolding from_id new
key-IsPeer key i = (refl, i.0, i.1)

abbrev IsNumbered : Node → Type 0
IsNumbered n = n.long_id ≤ last_id

in-IsNumbered : (lo hi : ℕ) (l : List Node) → All (IsIn lo hi) l → All IsNumbered l
in-IsNumbered lo hi [] i = tt
in-IsNumbered lo hi (n ∷ l) i = (peer_bound n i.0.0, in-IsNumbered lo hi l i.1)

known_contacts-IsNumbered :
    (k : ℕ) (l : List KBucket) → All (IsBucket k) l → All IsNumbered (known_contacts l)
unfolding known_contacts
known_contacts-IsNumbered k [] i = tt
known_contacts-IsNumbered k (b ∷ l) i =
    All-append IsNumbered (b.nodes ++ b.replacement_nodes) (known_contacts l)
      (All-append IsNumbered b.nodes b.replacement_nodes
        (in-IsNumbered b.lo b.hi b.nodes i.0.nodes-in)
        (in-IsNumbered b.lo b.hi b.replacement_nodes i.0.replacements-in))
      (known_contacts-IsNumbered k l i.1)

module _ {m : KeyMap Bytes Slot} where
  -- A result is returned, with a state that keeps the invariant.
  abbrev pub Returns : {A : Type 0} → Result m A → Type 0
  Returns {A} o = (r : A × KademliaProtocol m) × (o ≡ some r) × IsProtocol r.1

  with_router-IsProtocol :
      (p : KademliaProtocol m) (t : RoutingTable)
      → IsProtocol p
      → IsTable t
      → IsProtocol (with_router p t)
  with_router-IsProtocol p t i k = record {
    table = k;
    queue = i.queue;
    once = i.once;
    waiting = i.waiting;
  }

  -- What the sender's welcome is followed by.
  after_welcome :
      {A : Type 0} (p : KademliaProtocol m) (now : Instant) (s : Sender)
      (rest : KademliaProtocol m → Result m A)
      → IsId s.0
      → IsProtocol p
      → ((q : KademliaProtocol m) → IsProtocol q → Returns (rest q))
      → Returns (schedule_welcome_if_new p now (source_of s) >>= rest)
  after_welcome p now s rest id i h =
      let (q, e, j, _) =
        schedule_welcome_if_new-IsProtocol p now (source_of s) (source_of-IsPeer s id) i in
      rw e (h q j)

  pub rpc_ping-Returns :
      (p : KademliaProtocol m) (now : Instant) (s : Sender)
      → IsId s.0
      → IsProtocol p
      → Returns (rpc_ping p now s)
  unfolding rpc_ping
  rpc_ping-Returns p now s id i =
      after_welcome p now s _ id i (λ q j. ((q.source_node.id, q), refl, j))

  pub write_update-Returns :
      (p : KademliaProtocol m) (now : Instant) (s : Sender) (key value : Bytes)
      → IsId s.0
      → IsProtocol p
      → Returns (write_update p now s key value)
  unfolding write_update
  write_update-Returns p now s key value id i = after_welcome p now s _ id i (λ q j.
      (_, refl, record { table = j.table; queue = j.queue; once = j.once; waiting = j.waiting }))

  pub advertise-Returns :
      (p : KademliaProtocol m) (now : Instant) (s : Sender) (key : Bytes)
      → IsId key
      → IsProtocol p
      → Returns (advertise p now s key)
  unfolding advertise find_neighbors_to_advertise
  advertise-Returns p now s key id i =
      let (l, t, e, k) =
        closest-IsTable now.secs p.router (from_id key) (some (source_of s))
          (not_stale_only p.router) i.table (peer_bound (from_id key) (key-IsPeer key id)) in
      ((l, with_router p t), rw e refl, with_router-IsProtocol p t i k)

  pub handle_store-Returns :
      (c : Settings) (p : KademliaProtocol m) (now : Instant) (copy : NetworkCopy) (s : Sender)
      (key value : Bytes)
      → IsId s.0
      → IsProtocol p
      → Returns (handle_store c p now copy s key value)
  unfolding handle_store
  handle_store-Returns c p now copy s key value id i =
      let r = rpc_store m (store_handler c) p.storage now.nanos key value copy in
      let p' = record p { storage = r.1 } in
      let i' : IsProtocol p' = record {
        table = i.table;
        queue = i.queue;
        once = i.once;
        waiting = i.waiting;
      } in
      elim (Bool-cases (is_kept r.0)) [
        | inl e ↦ rw e (after_welcome p' now s _ id i' (λ q j. ((r.0, q), refl, j)))
        | inr e ↦ rw e ((r.0, p'), refl, i')
      ]

  replace_held-Returns :
      (c : Settings) (p : KademliaProtocol m) (now : Instant) (s : Sender)
      (key value auth_signature : Bytes) (o : Option Bytes)
      → IsId s.0
      → IsProtocol p
      → Returns (replace_held c p now s key value auth_signature o)
  unfolding replace_held
  replace_held-Returns c p now s key value auth_signature none id i = ((false, p), refl, i)
  replace_held-Returns c p now s key value auth_signature (some old) id i =
      elim (Bool-cases (bytes_eq old value)) [
        | inl e ↦ rw e ((true, p), refl, i)
        | inr e ↦
            elim (Bool-cases (verify_rotation c.signature_handler key value old auth_signature)) [
              | inl f ↦ rw (e, f) (write_update-Returns p now s key value id i)
              | inr f ↦ rw (e, f) ((false, p), refl, i)
            ]
      ]

  pub rpc_update-Returns :
      (c : Settings) (p : KademliaProtocol m) (now : Instant) (s : Sender)
      (key value auth_signature : Bytes)
      → IsId s.0
      → IsProtocol p
      → Returns (rpc_update c p now s key value auth_signature)
  unfolding rpc_update
  rpc_update-Returns c p now s key value auth_signature id i =
      elim (Bool-cases (bytes_eq key c.status_list_key)) [
        | inl e ↦ rw e ((false, p), refl, i)
        | inr e ↦ rw e (replace_held-Returns c p now s key value auth_signature _ id i)
      ]

  pub rpc_update_status_list-Returns :
      (c : Settings) (p : KademliaProtocol m) (now : Instant) (s : Sender) (key value : Bytes)
      → IsId s.0
      → IsProtocol p
      → Returns (rpc_update_status_list c p now s key value)
  unfolding rpc_update_status_list
  rpc_update_status_list-Returns c p now s key value id i =
      elim (Bool-cases (bytes_eq key c.status_list_key)) [
        | inl e ↦ elim (Bool-cases (is_none (get m p.storage now.nanos key))) [
          | inl f ↦ rw (e, f) ((false, p), refl, i)
          | inr f ↦ elim (Bool-cases (verify_issuer_signed c.signature_handler value)) [
            | inl g ↦ rw (e, f, g) (write_update-Returns p now s key value id i)
            | inr g ↦ rw (e, f, g) ((false, p), refl, i)
          ]
        ]
        | inr e ↦ rw e ((false, p), refl, i)
      ]

  pub rpc_find_node-Returns :
      (p : KademliaProtocol m) (now : Instant) (s : Sender) (key : Bytes)
      → IsId s.0
      → IsId key
      → IsProtocol p
      → Returns (rpc_find_node p now s key)
  unfolding rpc_find_node
  rpc_find_node-Returns p now s key id kid i =
      after_welcome p now s _ id i (λ q j. advertise-Returns q now s key kid j)

  find_neighbors_result-Returns :
      (p : KademliaProtocol m) (now : Instant) (s : Sender) (key : Bytes)
      → IsId key
      → IsProtocol p
      → Returns (find_neighbors_result p now s key)
  unfolding find_neighbors_result
  find_neighbors_result-Returns p now s key id i =
      let (r, e, j) = advertise-Returns p now s key id i in
      ((FindValueResult.nodes r.0, r.1), rw e refl, j)

  answer_held-Returns :
      (c : Settings) (p : KademliaProtocol m) (now : Instant) (s : Sender) (key : Bytes)
      (o : Option Bytes)
      → IsId key
      → IsProtocol p
      → Returns (answer_held c p now s key o)
  unfolding answer_held
  answer_held-Returns c p now s key none id i = find_neighbors_result-Returns p now s key id i
  answer_held-Returns c p now s key (some held) id i =
      elim (Bool-cases (key_binding_is_valid c key held)) [
        | inl e ↦ rw e ((FindValueResult.value held, p), refl, i)
        | inr e ↦ rw e (find_neighbors_result-Returns p now s key id i)
      ]

  pub rpc_find_value-Returns :
      (c : Settings) (p : KademliaProtocol m) (now : Instant) (s : Sender) (key : Bytes)
      → IsId s.0
      → IsId key
      → IsProtocol p
      → Returns (rpc_find_value c p now s key)
  unfolding rpc_find_value
  rpc_find_value-Returns c p now s key id kid i =
      after_welcome p now s _ id i (λ q j. answer_held-Returns c q now s key _ kid j)

  remove_leaving_total :
      (p : KademliaProtocol m) (o : Option Node) (source : Node)
      → ((n : Node) → o ≡ some n → n.long_id ≤ last_id)
      → IsProtocol p
      → (q : KademliaProtocol m) × (remove_leaving p o source ≡ some q) × IsProtocol q
  unfolding remove_leaving
  remove_leaving_total p none source h i = (p, refl, i)
  remove_leaving_total p (some contact) source h i =
      elim (Bool-cases (same_home_as contact source)) [
        | inl e ↦
            let (t, f, k) = remove_contact-IsKept p.router contact i.table (h contact refl) in
            (with_router p t, rw (e, f) refl, with_router-IsProtocol p t i k.table)
        | inr e ↦ (p, rw e refl, i)
      ]

  pub rpc_leave_total :
      (p : KademliaProtocol m) (s : Sender)
      → IsProtocol p
      → (q : KademliaProtocol m) × (rpc_leave p s ≡ some q) × IsProtocol q
  unfolding rpc_leave get_contact
  rpc_leave_total p s i =
      remove_leaving_total p (get_contact p.router s.0) (source_of s)
        (λ n e.
          find-All IsNumbered (λ n. bytes_eq n.id s.0) (known_contacts p.router.buckets) n
            (known_contacts-IsNumbered p.router.ksize p.router.buckets i.table.buckets) e)
        i
