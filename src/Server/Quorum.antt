-- ===== src/Server/Quorum.antt =====
-- src/network/update.rs: an update is written and reported with a quorum of its replicas only.
use auth_kademlia_rs.Prelude.{
  ℕ, zero, suc, ◌+◌, ◌-◌, ◌*◌, ◌/◌, ◌<◌, min, ◌≡◌, refl, sym, ap, ◌∙◌, ◌⊎◌, inl, inr, Bool, true,
  false, not, ◌&&◌, Option, none, some, List, [], ◌∷◌, arith, leb, ◌==◌, Bytes, length, take,
  retain, length-take,
}
use mathlib.Core.Option.{some-injective}
use auth_kademlia_rs.Prelude.Options.{>>=-eq-some}
use auth_kademlia_rs.Prelude.KeyMap.{KeyMap}
use auth_kademlia_rs.Node.{Node}
use auth_kademlia_rs.Storage.{Slot, Store}
use auth_kademlia_rs.Storage as Storage
use auth_kademlia_rs.Messages.{RpcMessage}
use auth_kademlia_rs.Protocol.{Instant, KademliaProtocol}
use auth_kademlia_rs.Client.{
  Network, call_store_rpc, call_update_rpc_answer, call_status_list_update_rpc,
  update_status_list_ok, request_alive,
}
use auth_kademlia_rs.Client.Stores.{KeepsStore, some-KeepsStore, request_alive-KeepsStore}
use auth_kademlia_rs.Server.{Server}
use auth_kademlia_rs.Server.Update.{
  store_refused, update_replica, update_replicas, primary_remote_count, group_size,
  acknowledgements, quorum_met, write_local, update_responsible, unwrap_or_default,
}

min_zero : (n : ℕ) → min 0 n ≡ 0
min_zero n = omega arith

min_none : (n : ℕ) → min n 0 ≡ 0
min_none n = omega arith

half_lem :
    (size votes : ℕ) → (not (size == 0) && leb (size / 2 + 1) votes) ≡ true → size < 2 * votes
half_lem size votes e = ground arith

min-suc : (n k : ℕ) → min (suc n) (suc k) ≡ suc (min n k)
min-suc n k = omega arith

module _ {m : KeyMap Bytes Slot} (s : Server m) (net : Network) where
  take-min : (n : ℕ) (l : List Bool) → take (min n (length l)) l ≡ take n l
  take-min zero l = rw min_zero refl
  take-min (suc n) [] = rw (min_none (suc n)) refl
  take-min (suc n) (b ∷ l) = rw (min-suc n (length l)) (ap (λ k. b ∷ k) (take-min n l))

  abbrev pub vote_of : Bool → ℕ
  vote_of true = 1
  vote_of false = 0

  -- Of the node itself, if it stores the record, and the first of the others, up to `alpha` in all,
  -- more than half took it.
  abbrev pub IsStrict : Bool → List Bool → Type 0
  IsStrict store_local results =
      let group = take (s.alpha - vote_of store_local) results in
      vote_of store_local + length group
      < 2 * (vote_of store_local + length (retain (λ b. b) group))

  strict_lem :
      (n votes : ℕ) (results : List Bool)
      → votes + min n (length results)
        < 2 * (votes + length (retain (λ b. b) (take (min n (length results)) results)))
      → votes + length (take n results) < 2 * (votes + length (retain (λ b. b) (take n results)))
  strict_lem n votes results h =
      let h' = rw (take-min n results) at h in omega (arith, length-take n results, h')

  quorum_met-IsStrict :
      (store_local : Bool) (results : List Bool)
      → quorum_met s store_local results ≡ true
      → IsStrict store_local results
  unfolding quorum_met group_size acknowledgements primary_remote_count
  quorum_met-IsStrict true results e = strict_lem (s.alpha - 1) 1 results (half_lem _ _ e)
  quorum_met-IsStrict false results e = strict_lem (s.alpha - 0) 0 results (half_lem _ _ e)

  store_refused-KeepsStore :
      (p : KademliaProtocol m) (now : Instant) (n : Node) (dkey value : Bytes)
      (answer : Option Bool)
      → KeepsStore net p (store_refused s net p now n dkey value answer)
  unfolding store_refused call_store_rpc
  store_refused-KeepsStore p now n dkey value none z e = some-KeepsStore net p p false refl z e
  store_refused-KeepsStore p now n dkey value (some true) z e =
      some-KeepsStore net p p true refl z e
  store_refused-KeepsStore p now n dkey value (some false) z e =
      let (r, f, g) = >>=-eq-some (call_store_rpc net p now n dkey value) _ e in
      some-KeepsStore net p r.1 _ (request_alive-KeepsStore net p now n _ _ _ f) _ g

  update_replica-KeepsStore :
      (p : KademliaProtocol m) (now : Instant) (dkey value : Bytes) (sig : Option Bytes) (n : Node)
      (is_status : Bool)
      → KeepsStore net p (update_replica s net p now dkey value sig n is_status)
  unfolding update_replica call_status_list_update_rpc call_update_rpc_answer
  update_replica-KeepsStore p now dkey value sig n true z e =
      let (r, f, g) =
        >>=-eq-some
          (request_alive net p now n (RpcMessage.update_status_list p.source_node.id dkey value)
            update_status_list_ok)
          _ e in
      some-KeepsStore net p r.1 _ (request_alive-KeepsStore net p now n _ _ _ f) _ g
  update_replica-KeepsStore p now dkey value sig n false z e =
      let (r, f, g) =
        >>=-eq-some (call_update_rpc_answer net p now n dkey value (unwrap_or_default sig)) _ e in
      store_refused-KeepsStore r.1 now n dkey value r.0 _ g
      ∙ request_alive-KeepsStore net p now n _ _ _ f

  update_replicas-KeepsStore :
      (now : Instant) (dkey value : Bytes) (sig : Option Bytes) (is_status : Bool) (l : List Node)
      (p : KademliaProtocol m)
      → KeepsStore net p (update_replicas s net now dkey value sig is_status l p)
  unfolding update_replicas
  update_replicas-KeepsStore now dkey value sig is_status [] p z e =
      some-KeepsStore net p p [] refl z e
  update_replicas-KeepsStore now dkey value sig is_status (n ∷ l) p z e =
      let (r, f, g) = >>=-eq-some (update_replica s net p now dkey value sig n is_status) _ e in
      let (q, h, k) = >>=-eq-some (update_replicas s net now dkey value sig is_status l r.1) _ g in
      some-KeepsStore net p q.1 _
        (update_replicas-KeepsStore now dkey value sig is_status l r.1 _ h
          ∙ update_replica-KeepsStore p now dkey value sig n is_status _ f)
        _ k

  -- The records, with the new one if the node is among its replicas.
  abbrev pub written : Instant → Bytes → Bytes → Bool → Store m → Store m
  written now dkey value false store = store
  written now dkey value true store = (Storage.set m store now.nanos dkey value).0

  -- The replicas chosen, the node itself if the first component says so, were sent the record from
  -- this state, more than half of the group took it, and then it was written here.
  abbrev pub IsQuorum :
      Instant
      → Bytes
      → Bytes
      → Option Bytes
      → Bool
      → Bool × List Node
      → KademliaProtocol m
      → Store m
      → Type 0
  IsQuorum now dkey value sig is_status chosen u after =
      (results : List Bool) × (r : KademliaProtocol m) × (update_replicas s net now dkey value sig
          is_status chosen.1 u
        ≡ some (results, r))
      × IsStrict chosen.0 results
      × (after ≡ written now dkey value chosen.0 u.storage)

  write_local-cases :
      (now : Instant) (dkey value : Bytes) (store_local b : Bool) (p : KademliaProtocol m)
      → ((b ≡ false)
          × ((write_local s now dkey value store_local b p).0 ≡ false)
          × ((write_local s now dkey value store_local b p).1.storage ≡ p.storage))
        ⊎ ((b ≡ true)
            × ((write_local s now dkey value store_local b p).1.storage
                ≡ written now dkey value store_local p.storage))
  unfolding write_local
  write_local-cases now dkey value store_local false p = inl (refl, refl, refl)
  write_local-cases now dkey value false true p = inr (refl, refl)
  write_local-cases now dkey value true true p = inr (refl, refl)

  pub update_responsible-cases :
      (now : Instant) (dkey value : Bytes) (sig : Option Bytes) (is_status : Bool)
      (chosen : Bool × List Node) (p : KademliaProtocol m) (b : Bool) (q : KademliaProtocol m)
      → update_responsible s net now dkey value sig is_status chosen p ≡ some (b, q)
      → ((b ≡ false) × (q.storage ≡ p.storage))
        ⊎ IsQuorum now dkey value sig is_status chosen p q.storage
  unfolding update_responsible
  update_responsible-cases now dkey value sig is_status (store_local, l) p b q e =
      let (a, f, g) = >>=-eq-some (update_replicas s net now dkey value sig is_status l p) _ e in
      let same = some-injective _ _ g in
      let kept = update_replicas-KeepsStore now dkey value sig is_status l p _ f in
      elim (write_local-cases now dkey value store_local (quorum_met s store_local a.0) a.1) [
        | inl (h, failed, left) ↦
            inl (sym (ap (λ x. x.0) same) ∙ failed, sym (ap (λ x. x.1.storage) same) ∙ left ∙ kept)
        | inr (h, done) ↦ inr (
          a.0,
          a.1,
          f,
          quorum_met-IsStrict store_local a.0 h,
          sym (ap (λ x. x.1.storage) same) ∙ done ∙ ap (written now dkey value store_local) kept,
        )
      ]
