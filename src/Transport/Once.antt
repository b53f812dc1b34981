-- ===== src/Transport/Once.antt =====
-- src/protocol/transport.rs: the requests in progress.
use auth_kademlia_rs.Prelude.{
  ◌≡◌, refl, inl, inr, true, false, List, [], ◌∷◌, arith, Bool-cases, any, remove_first,
}
use auth_kademlia_rs.Prelude.Unique.{bytes_eq_refl}
use auth_kademlia_rs.Transport.{peer_eq}
use auth_kademlia_rs.Transport.Receive.{RequestKey, is_request_key}

-- No request stands twice.
abbrev pub AreOnce : List RequestKey → Type 0
AreOnce [] = Unit {0}
AreOnce (k ∷ l) = (any (λ j. is_request_key j k) l ≡ false) × AreOnce l

any-remove_key :
    (k key : RequestKey) (l : List RequestKey)
    → any (λ j. is_request_key j k) l ≡ false
    → any (λ j. is_request_key j k) (remove_first (λ j. is_request_key j key) l) ≡ false
any-remove_key k key [] h = refl
any-remove_key k key (j ∷ l) h = ground (arith, any-remove_key k key l)

pub remove_key-AreOnce :
    (key : RequestKey) (l : List RequestKey)
    → AreOnce l
    → AreOnce (remove_first (λ j. is_request_key j key) l)
remove_key-AreOnce key [] h = tt
remove_key-AreOnce key (j ∷ l) (h, rest) = elim (Bool-cases (is_request_key j key)) [
  | inl e ↦ rw e rest
  | inr e ↦ rw e (any-remove_key j key l h, remove_key-AreOnce key l rest)
]

pub is_request_key_refl : (key : RequestKey) → is_request_key key key ≡ true
unfolding peer_eq
is_request_key_refl ((ip, port), hash) = ground (arith, bytes_eq_refl ip, bytes_eq_refl hash)

pub remove_key_head :
    (key : RequestKey) (l : List RequestKey)
    → remove_first (λ k. is_request_key k key) (key ∷ l) ≡ l
remove_key_head key l = rw (is_request_key_refl key) refl
