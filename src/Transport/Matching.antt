-- ===== src/Transport/Matching.antt =====
-- src/protocol/transport.rs: an answer reaches the call that it is for, and only that one.
use auth_kademlia_rs.Prelude.{
  ℕ, ◌≡◌, refl, sym, inl, inr, Bool, true, false, not, ◌&&◌, Option, none, some, List, [], ◌∷◌,
  ◌++◌, arith, ◌==◌, if◌then◌else◌, Bool-cases, take,
}
use auth_kademlia_rs.Messages.{RpcMessage}
use auth_kademlia_rs.Messages.Expected.{accepts, after_receipt}
use auth_kademlia_rs.Transport.{Peer, peer_eq, is_received}
use auth_kademlia_rs.Transport.Pending.{
  PendingCall, PendingMap, remove, Delivery, notified, replied, discarded, on_receipt, on_reply,
  on_response,
}

-- A response that arrived: its sender, its id and the message.
abbrev pub Arrival : Type 0
Arrival = Peer × ℕ × RpcMessage

abbrev replies_to : ℕ → Delivery → List RpcMessage
replies_to msg_id (notified id) = []
replies_to msg_id (replied id message) = if id == msg_id then message ∷ [] else []
replies_to msg_id discarded = []

-- The replies that a call gets from a sequence of arrivals.
pub replies : ℕ → PendingMap → List Arrival → List RpcMessage
unfolding on_response
replies msg_id pending [] = []
replies msg_id pending ((peer, id, message) ∷ l) =
    let r = on_response pending peer id message in replies_to msg_id r.1 ++ replies msg_id r.0 l

-- The arrivals that a call may take as its answer.
pub matching : ℕ → PendingCall → List Arrival → List RpcMessage
unfolding peer_eq accepts
matching msg_id call [] = []
matching msg_id call ((peer, id, message) ∷ l) =
    if not (is_received message)
      && id == msg_id
      && peer_eq call.peer peer
      && accepts call.expected message
    then message ∷ matching msg_id call l
    else matching msg_id call l

-- What a call with this entry gets: nothing, or the first arrival that it may take.
abbrev pub first_matching : ℕ → Option PendingCall → List Arrival → List RpcMessage
first_matching msg_id none l = []
first_matching msg_id (some call) l = take 1 (matching msg_id call l)

abbrev takes : ℕ → PendingCall → Arrival → Bool
takes msg_id call (peer, id, message) =
    not (is_received message)
    && id == msg_id
    && peer_eq call.peer peer
    && accepts call.expected message

-- What an arrival leaves of the entry, and the reply that it makes.
stepped : ℕ → Option PendingCall → Arrival → Option PendingCall × List RpcMessage
stepped msg_id none a = (none, [])
stepped msg_id (some call) a = if takes msg_id call a then (none, a.2 ∷ []) else (some call, [])

on_receipt_silent :
    (msg_id : ℕ) (o : Option PendingCall) (peer : Peer) (id : ℕ)
    → replies_to msg_id (on_receipt o peer id) ≡ []
unfolding on_receipt
on_receipt_silent msg_id none peer id = refl
on_receipt_silent msg_id (some call) peer id =
    elim (Bool-cases (peer_eq call.peer peer && after_receipt call.expected)) [
      | inl e ↦ rw e refl
      | inr e ↦ rw e refl
    ]

abbrev IsStep : ℕ → Option PendingCall → Arrival → PendingMap × Delivery → Type 0
IsStep msg_id o a r =
    (r.0 msg_id ≡ (stepped msg_id o a).0) × (replies_to msg_id r.1 ≡ (stepped msg_id o a).1)

receipt_IsStep :
    (msg_id : ℕ) (pending : PendingMap) (o : Option PendingCall) (peer : Peer) (id : ℕ)
    (message : RpcMessage)
    → pending msg_id ≡ o
    → is_received message ≡ true
    → IsStep msg_id o (peer, id, message) (pending, on_receipt (pending id) peer id)
unfolding stepped
receipt_IsStep msg_id pending none peer id message e f = (e, on_receipt_silent msg_id _ peer id)
receipt_IsStep msg_id pending (some call) peer id message e f =
    rw f (e, on_receipt_silent msg_id _ peer id)

other_IsStep :
    (msg_id : ℕ) (pending : PendingMap) (o p : Option PendingCall) (peer : Peer) (id : ℕ)
    (message : RpcMessage)
    → pending msg_id ≡ o
    → (id == msg_id) ≡ false
    → (msg_id == id) ≡ false
    → is_received message ≡ false
    → IsStep msg_id o (peer, id, message) (on_reply p pending peer id message)
unfolding stepped on_reply remove
other_IsStep msg_id pending none none peer id message e f g h = (e, refl)
other_IsStep msg_id pending (some c) none peer id message e f g h = rw (f, h) (e, refl)
other_IsStep msg_id pending none (some call) peer id message e f g h =
    elim (Bool-cases (peer_eq call.peer peer && accepts call.expected message)) [
      | inl t ↦ rw (t, f, g) (e, refl)
      | inr t ↦ rw t (e, refl)
    ]
other_IsStep msg_id pending (some c) (some call) peer id message e f g h =
    elim (Bool-cases (peer_eq call.peer peer && accepts call.expected message)) [
      | inl t ↦ rw (t, f, g, h) (e, refl)
      | inr t ↦ rw (t, f, h) (e, refl)
    ]

own_IsStep :
    (msg_id : ℕ) (pending : PendingMap) (o : Option PendingCall) (peer : Peer)
    (message : RpcMessage)
    → pending msg_id ≡ o
    → (msg_id == msg_id) ≡ true
    → is_received message ≡ false
    → IsStep msg_id o (peer, msg_id, message) (on_reply o pending peer msg_id message)
unfolding stepped on_reply remove
own_IsStep msg_id pending none peer message e f h = (e, refl)
own_IsStep msg_id pending (some call) peer message e f h =
    elim (Bool-cases (peer_eq call.peer peer && accepts call.expected message)) [
      | inl t ↦ rw (f, h, t, f) (refl, refl)
      | inr t ↦ rw (f, h, t) (e, refl)
    ]

on_response-IsStep :
    (msg_id : ℕ) (pending : PendingMap) (o : Option PendingCall) (a : Arrival)
    → pending msg_id ≡ o
    → IsStep msg_id o a (on_response pending a.0 a.1 a.2)
unfolding on_response
on_response-IsStep msg_id pending o (peer, id, message) e =
    elim (Bool-cases (is_received message)) [
      | inl f ↦ rw f (receipt_IsStep msg_id pending o peer id message e f)
      | inr f ↦ elim (Bool-cases (id == msg_id)) [
        | inl g ↦
            let same : id ≡ msg_id = ground arith in
            let once : (msg_id == msg_id) ≡ true = ground arith in
            rw (f, same, e) (own_IsStep msg_id pending o peer message e once f)
        | inr g ↦
            rw f (other_IsStep msg_id pending o (pending id) peer id message e g (ground arith) f)
      ]
    ]

first_matching-step :
    (msg_id : ℕ) (o : Option PendingCall) (a : Arrival) (l : List Arrival)
    → first_matching msg_id o (a ∷ l)
      ≡ (stepped msg_id o a).1 ++ first_matching msg_id (stepped msg_id o a).0 l
unfolding matching stepped
first_matching-step msg_id none a l = refl
first_matching-step msg_id (some call) (peer, id, message) l =
    elim (Bool-cases (takes msg_id call (peer, id, message))) [
      | inl t ↦ rw t (take_none (matching msg_id call l))
      | inr t ↦ rw t refl
    ]
  where
    take_none : (r : List RpcMessage) → take 1 (message ∷ r) ≡ message ∷ []
    take_none [] = refl
    take_none (x ∷ r) = refl

replies_lem :
    (msg_id : ℕ) (l : List Arrival) (pending : PendingMap) (o : Option PendingCall)
    → pending msg_id ≡ o
    → replies msg_id pending l ≡ first_matching msg_id o l
unfolding replies matching
replies_lem msg_id [] pending none e = refl
replies_lem msg_id [] pending (some call) e = refl
replies_lem msg_id (a ∷ l) pending o e =
    let (entry, reply) = on_response-IsStep msg_id pending o a e in
    let rest =
      replies_lem msg_id l (on_response pending a.0 a.1 a.2).0 (stepped msg_id o a).0 entry in
    rw (reply, rest) (sym (first_matching-step msg_id o a l))

-- Whatever arrives, from whomever and for whichever calls, a call gets as its answer the first
-- message, if any, that bears its id, comes from the peer that it asked, is of a type that answers
-- its request, and is not a receipt; and nothing after it. A call that is over gets nothing.
pub replies-first_matching :
    (msg_id : ℕ) (pending : PendingMap) (l : List Arrival)
    → replies msg_id pending l ≡ first_matching msg_id (pending msg_id) l
replies-first_matching msg_id pending l = replies_lem msg_id l pending (pending msg_id) refl
