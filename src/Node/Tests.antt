-- ===== src/Node/Tests.antt =====
-- Runs of the code of src/node.rs on small inputs.
use auth_kademlia_rs.Prelude.{
  ℕ, zero, suc, ◌<◌, ◌≡◌, refl, ◌⊎◌, inr, none, some, [], ◌∷◌, arith, Bytes, AreBytes,
  bytes_discrete, replicate,
}
use auth_kademlia_rs.Prelude.Sort.{sort_by_key}
use auth_kademlia_rs.Node.{Node, new, from_id, distance_to, id_to_u256}
use auth_kademlia_rs.Node.Distance.{distance_to_injective}
use auth_kademlia_rs.Node.Heap.{NodeHeap, contains, push_node, push_each, trim, push, get_ids}
use auth_kademlia_rs.Node.Heap as Heap
use auth_kademlia_rs.Node.Heap.Laws.{IsHeap, IsIn, push-IsHeap}
use auth_kademlia_rs.Node.Heap.Closest.{IsFarther, push-closest}

replicate-AreBytes : (n b : ℕ) → b < 256 → AreBytes (replicate n b)
replicate-AreBytes zero b h = tt
replicate-AreBytes (suc n) b h = (h, replicate-AreBytes n b h)

abbrev id_of : ℕ → Bytes
id_of b = replicate 20 b

abbrev pivot : Node
pivot = from_id (id_of 0)

abbrev peer : ℕ → Node
peer b = new (id_of b) (some (49 ∷ [])) (some 4000)

abbrev two : NodeHeap
two = Heap.new pivot 2

distance_to_injective_example : id_of 7 ≡ id_of 7
unfolding new distance_to
distance_to_injective_example =
    distance_to_injective (id_of 7) (id_of 7) (id_of 1) none (some (49 ∷ [])) none (some 1)
      (replicate-AreBytes 20 7 (omega arith)) (replicate-AreBytes 20 7 (omega arith)) refl refl refl

push_run : get_ids (push two (peer 9 ∷ peer 3 ∷ peer 5 ∷ peer 3 ∷ [])) ≡ id_of 3 ∷ id_of 5 ∷ []
unfolding push push_each push_node contains trim get_ids Heap.new bytes_discrete new sort_by_key
    distance_to from_id
push_run = refl

push-IsHeap_example : IsHeap (push two (peer 9 ∷ peer 3 ∷ peer 5 ∷ []))
unfolding id_to_u256 new Heap.new
push-IsHeap_example =
    push-IsHeap two (peer 9 ∷ peer 3 ∷ peer 5 ∷ []) (refl, (refl, (refl, tt)))
      ((tt, tt), tt, omega arith)

push-closest_example :
    IsIn (push two (peer 9 ∷ peer 3 ∷ peer 5 ∷ [])).entries (peer 9)
    ⊎ IsFarther (push two (peer 9 ∷ peer 3 ∷ peer 5 ∷ [])) (peer 9)
unfolding id_to_u256 new Heap.new bytes_discrete
push-closest_example =
    push-closest two (peer 9 ∷ peer 3 ∷ peer 5 ∷ []) (peer 9) (refl, (refl, (refl, tt)))
      ((tt, tt), tt, omega arith) refl (inr refl)
