-- ===== src/Transport/Ends.antt =====
-- src/protocol/transport.rs: a node over any sequence of datagrams and ends of lookups.
use auth_kademlia_rs.Prelude.{
  ℕ, suc, ◌≤◌, ◌≡◌, refl, sym, ap, subst, ◌∙◌, inl, inr, Option, none, some, List, [], ◌∷◌, ◌++◌,
  map, arith, Bool-cases, Bytes, length, remove_first, All, All-remove_first,
}
use auth_kademlia_rs.Prelude.Options.{>>=-eq-some}
use auth_kademlia_rs.Prelude.KeyMap.{KeyMap}
use mathlib.Core.Option.{some-injective}
use auth_kademlia_rs.Storage.{Slot}
use auth_kademlia_rs.Messages.{RpcMessage}
use auth_kademlia_rs.StoreCheck.{NetworkCopy, drop_slot, max_store_lookups}
use auth_kademlia_rs.Protocol.{Instant, Settings}
use auth_kademlia_rs.Protocol.Answers.{HasIds}
use auth_kademlia_rs.Protocol.Handlers.{dispatch_request}
use auth_kademlia_rs.Transport.{Peer, Frame}
use auth_kademlia_rs.Transport.Receive.{
  RequestKey, is_request_key, Waiting, Receiver, answer, handle_and_answer, handle_datagram,
  leave_waiting, end_store,
}
use auth_kademlia_rs.Transport.Once.{is_request_key_refl, remove_key-AreOnce}
use auth_kademlia_rs.Transport.Handling.{IsReceiver, handle_and_answer-Returns}
use auth_kademlia_rs.Transport.Reception.{IsTyped, handle_datagram-IsReceiver}

abbrev key_of : Waiting → RequestKey
key_of w = w.key

remove_key-map :
    (key : RequestKey) (l : List Waiting)
    → remove_first (λ k. is_request_key k key) (map key_of l)
      ≡ map key_of (remove_first (λ w. is_request_key w.key key) l)
remove_key-map key [] = refl
remove_key-map key (w ∷ l) = elim (Bool-cases (is_request_key w.key key)) [
  | inl e ↦ rw e refl
  | inr e ↦ rw e (ap (λ k. w.key ∷ k) (remove_key-map key l))
]

-- A STORE that waits is removed, and only one.
length-remove_waiting :
    (w : Waiting) (before after : List Waiting)
    → length (before ++ w ∷ after)
      ≡ suc (length (remove_first (λ v. is_request_key v.key w.key) (before ++ w ∷ after)))
length-remove_waiting w [] after = rw (is_request_key_refl w.key) refl
length-remove_waiting w (v ∷ before) after = elim (Bool-cases (is_request_key v.key w.key)) [
  | inl e ↦ rw e refl
  | inr e ↦ rw e (ap suc (length-remove_waiting w before after))
]

All-middle :
    (P : Waiting → Type 0) (w : Waiting) (before after : List Waiting)
    → All P (before ++ w ∷ after)
    → P w
All-middle P w [] after h = h.0
All-middle P w (v ∷ before) after h = All-middle P w before after h.1

drop_slot_lem : (count n : ℕ) → count ≡ suc n → count ≤ max_store_lookups → drop_slot count ≡ n
unfolding drop_slot
drop_slot_lem count n e p = omega (arith, e, p)

module _ {m : KeyMap Bytes Slot} (dec : Discrete Peer) (decode : Bytes → Option Frame)
    (c : Settings) where
  answer_waiting :
      (r : Receiver m dec decode c) (peer : Peer) (id : ℕ) (o : Option RpcMessage)
      → (answer m dec decode c r peer id o).waiting ≡ r.waiting
  unfolding answer
  answer_waiting r peer id none = refl
  answer_waiting r peer id (some a) = refl

  handle_and_answer_waiting :
      (r q : Receiver m dec decode c) (now : Instant) (copy : NetworkCopy) (peer : Peer) (f : Frame)
      → handle_and_answer m dec decode c r now copy peer f ≡ some q
      → q.waiting ≡ r.waiting
  unfolding handle_and_answer
  handle_and_answer_waiting r q now copy peer f e =
      let (h, d, g) = >>=-eq-some (dispatch_request c r.protocol now copy f.message peer) _ e in
      sym (ap (λ x. x.waiting) (some-injective _ _ g))
      ∙ answer_waiting (record r { protocol = h.1 }) peer f.msg_id h.0

  leave_waiting-IsReceiver :
      (q : Receiver m dec decode c) (w : Waiting) (before after : List Waiting)
      → q.waiting ≡ before ++ w ∷ after
      → IsReceiver dec decode c q
      → IsReceiver dec decode c (leave_waiting m dec decode c q w)
  unfolding leave_waiting
  leave_waiting-IsReceiver q w before after same j =
      let rest = remove_first (λ v. is_request_key v.key w.key) q.waiting in
      let count : q.store_lookups ≡ suc (length rest) =
        j.slots
        ∙ subst (λ l. length l ≡ suc (length (remove_first (λ v. is_request_key v.key w.key) l)))
            (sym same) (length-remove_waiting w before after) in
      let left = drop_slot_lem q.store_lookups (length rest) count j.places in
      record {
        protocol = j.protocol;
        slots = left;
        places = omega (arith, left, count, j.places);
        once = remove_key-AreOnce w.key q.requests_in_progress j.once;
        keys =
            ap (remove_first (λ k. is_request_key k w.key)) j.keys ∙ remove_key-map w.key q.waiting;
        ids = All-remove_first _ (λ v. is_request_key v.key w.key) q.waiting j.ids;
      }

  end_store-Returns :
      (r : Receiver m dec decode c) (now : Instant) (copy : NetworkCopy) (w : Waiting)
      (before after : List Waiting)
      → r.waiting ≡ before ++ w ∷ after
      → IsReceiver dec decode c r
      → (r' : Receiver m dec decode c) × (end_store m dec decode c r now copy w ≡ some r')
        × IsReceiver dec decode c r'
  unfolding end_store
  end_store-Returns r now copy w before after split i =
      let ids =
        All-middle (λ v. HasIds v.frame.message) w before after
          (subst (All (λ v. HasIds v.frame.message)) split i.ids) in
      let (q, e, j) = handle_and_answer-Returns dec decode c r now copy w.key.0 w.frame ids i in
      let same : q.waiting ≡ before ++ w ∷ after =
        handle_and_answer_waiting r q now copy w.key.0 w.frame e ∙ split in
      (
        leave_waiting m dec decode c q w,
        rw e refl,
        leave_waiting-IsReceiver q w before after same j,
      )

  -- What datagrams and the ends of lookups, in any order, make of a node.
  pub data IsReached (r0 : Receiver m dec decode c) : Receiver m dec decode c → Type 0 where
    here : IsReached r0 r0
    datagram :
        {r r' : Receiver m dec decode c}
        → IsReached r0 r
        → (now : Instant) (peer : Peer) (bytes : Bytes)
        → handle_datagram m dec decode c r now peer bytes ≡ some r'
        → IsReached r0 r'
    ended :
        {r r' : Receiver m dec decode c}
        → IsReached r0 r
        → (now : Instant) (copy : NetworkCopy) (w : Waiting) (before after : List Waiting)
        → r.waiting ≡ before ++ w ∷ after
        → end_store m dec decode c r now copy w ≡ some r'
        → IsReached r0 r'

  reached_lem :
      (r0 r : Receiver m dec decode c)
      → IsTyped decode
      → IsReceiver dec decode c r0
      → IsReached r0 r
      → IsReceiver dec decode c r
  reached_lem r0 r typed i here = i
  reached_lem r0 r typed i (datagram {r = q} reached now peer bytes e) =
      let (r', f, j) =
        handle_datagram-IsReceiver dec decode c q now peer bytes typed
          (reached_lem r0 q typed i reached) in
      subst (IsReceiver dec decode c) (some-injective _ _ (sym f ∙ e)) j
  reached_lem r0 r typed i (ended {r = q} reached now copy w before after split e) =
      let (r', f, j) =
        end_store-Returns q now copy w before after split (reached_lem r0 q typed i reached) in
      subst (IsReceiver dec decode c) (some-injective _ _ (sym f ∙ e)) j

  -- Whatever datagrams come, whatever their bytes, and whenever the lookups of STOREs end, the next
  -- datagram and the next end are dealt with: each index is in bounds and the routing table stays
  -- well formed, provided that decoded ids have 20 bytes. The requests in progress are, each once,
  -- those of the STOREs that wait, and the counter of their places is their number and at most 256.
  pub IsReached-IsReceiver :
      (r0 r : Receiver m dec decode c)
      → IsTyped decode
      → IsReceiver dec decode c r0
      → IsReached r0 r
      → IsReceiver dec decode c r
        × ((now : Instant) (peer : Peer) (bytes : Bytes)
            → (r' : Receiver m dec decode c) × (handle_datagram m dec decode c r now peer bytes
                ≡ some r'))
        × ((now : Instant) (copy : NetworkCopy) (w : Waiting) (before after : List Waiting)
            → r.waiting ≡ before ++ w ∷ after
            → (r' : Receiver m dec decode c) × (end_store m dec decode c r now copy w ≡ some r'))
  IsReached-IsReceiver r0 r typed i reached =
      let j = reached_lem r0 r typed i reached in
      (
        j,
        (λ now peer bytes.
            let (r', e, k) = handle_datagram-IsReceiver dec decode c r now peer bytes typed j in
            (r', e)),
        λ now copy w before after split.
            let (r', e, k) = end_store-Returns r now copy w before after split j in (r', e),
      )
