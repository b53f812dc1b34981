-- ===== src/StoreCheck/Tests.antt =====
-- src/protocol/store_check.rs: the theorems at small inputs.
use auth_kademlia_rs.Prelude.{
  ℕ, ◌≡◌, refl, ◌≢◌, ◌⊎◌, inl, inr, true, some, List, [], ◌∷◌, Bytes, bytes_discrete, replicate,
  All,
}
use auth_kademlia_rs.Prelude.Sort.{sort_by_key}
use auth_kademlia_rs.Node.{Node, from_id, distance_to, id_to_u256, from_big_endian}
use auth_kademlia_rs.Node as Node
use auth_kademlia_rs.Node.Heap.{
  push, push_each, push_node, contains, trim, get_ids, to_vec, get_uncontacted, mark_contacted,
  remove, len, have_contacted_all,
}
use auth_kademlia_rs.Node.Heap as Heap
use auth_kademlia_rs.Crawling.{
  selected_peers, peer_count, mark_all, remove_failed, extend, RawResponse, value, next_peers,
  get_value,
}
use auth_kademlia_rs.Crawling as Crawling
use auth_kademlia_rs.Crawling.Search.{
  SearchNetwork, without_deadline, asking_everyone, search_answers, search_round, search,
}
use auth_kademlia_rs.StoreCheck.Lookup.{crawl_for, ask_network}
use auth_kademlia_rs.StoreCheck.Unanimity.{Occurs, AwaitsAll, IsUnanimous, ask_network-IsUnanimous}
use auth_kademlia_rs.Prelude.KeyMap.{KeyMap}
use auth_kademlia_rs.Prelude.KeyMap.Assoc.{assoc}
use auth_kademlia_rs.Storage.{Slot, Store, pos, with_max_storage_bytes}
use auth_kademlia_rs.StoreCheck.{none_or_same, copy_of, accept_other, Handler, rpc_store}
use auth_kademlia_rs.StoreCheck.Laws.{MayStore, rpc_store-MayStore}

abbrev table : KeyMap Bytes Slot
table = assoc bytes_discrete

abbrev empty_store : Store table
empty_store = with_max_storage_bytes table (pos 100) 50

-- Every record is authentic and bound to every key.
abbrev trusting : Handler
trusting = record {
  status_list_key = 9 ∷ [];
  key_binding_is_valid = λ k v. true;
  verify_for_key = λ k v. true;
}

rpc_store-MayStore_example :
    MayStore table trusting empty_store 5 (1 ∷ []) (2 ∷ []) none_or_same
    ⊎ ((rpc_store table trusting empty_store 5 (1 ∷ []) (2 ∷ []) none_or_same).1 ≡ empty_store)
rpc_store-MayStore_example =
    rpc_store-MayStore table trusting empty_store 5 (1 ∷ []) (2 ∷ []) none_or_same

abbrev peer : ℕ → Node
peer n = from_id (replicate 20 n)

-- The hash of the record.
abbrev own : Bytes
own = 7 ∷ []

-- Every peer that is asked holds the record.
abbrev holding : List Node → List (Bytes × RawResponse)
holding [] = []
holding (n ∷ l) = (n.id, (true, value own)) ∷ holding l

abbrev replicas : SearchNetwork
replicas = without_deadline (record { answers = λ r l. holding l; failing_among = λ l. [] })

holding-Occurs : (l : List Node) → All (λ n. Occurs n.id (holding l)) l
holding-Occurs [] = tt
holding-Occurs (n ∷ l) = (inl refl, weaken l (holding-Occurs l))
  where
    weaken :
        (k : List Node)
        → All (λ x. Occurs x.id (holding l)) k
        → All (λ x. Occurs x.id (holding (n ∷ l))) k
    weaken [] h = tt
    weaken (x ∷ k) h = (inr h.0, weaken k h.1)

replicas-AwaitsAll : AwaitsAll replicas
replicas-AwaitsAll r l whole = holding-Occurs l

ask_network_run : ask_network replicas 2 own (peer 5 ∷ [], true) (peer 0) 20 1 ≡ some none_or_same
unfolding ask_network search search_round search_answers copy_of accept_other crawl_for
    asking_everyone bytes_discrete next_peers selected_peers peer_count mark_all remove_failed
    extend Crawling.new Heap.new push push_each push_node contains trim get_ids to_vec
    get_uncontacted mark_contacted remove len have_contacted_all sort_by_key from_id Node.new
    distance_to id_to_u256 from_big_endian get_value
ask_network_run = refl

ask_network-IsUnanimous_example :
    (peer 5 ∷ [] ≢ []) × IsUnanimous own replicas 2 (crawl_for (peer 5 ∷ [], true) (peer 0) 20 1)
ask_network-IsUnanimous_example =
    ask_network-IsUnanimous replicas 2 own (peer 5 ∷ []) true (peer 0) 20 1 replicas-AwaitsAll
      ask_network_run
