-- ===== src/Auth/Cache.antt =====
-- src/signature_cache.rs, and `verify_record` of src/auth_handler.rs: the cache of the results of
-- verifications. The cache of the moka library and SHA-256 are parameters. A verification runs as
-- one step, and the task that it starts is taken to end.
use auth_kademlia_rs.Prelude.{
  ℕ, ◌≡◌, ◌⊎◌, Bool, false, Option, none, some, ◌∷◌, if◌then◌else◌, Bytes, bytes_eq,
}
use auth_kademlia_rs.Prelude.Results.{unwrap_or_false}
use auth_kademlia_rs.Auth.{SignatureVerifierHandler, is_bound_to_key}

pub data VerificationDomain : Type 0 where
  self_signed issuer_signed : VerificationDomain

-- `domain as u8`
abbrev pub as_u8 : VerificationDomain → ℕ
as_u8 self_signed = 0
as_u8 issuer_signed = 1

-- The library's cache: `get` and `insert` take the instant of the call, since entries expire.
pub record CacheLibrary : Type 1 where
  pub Cache : Type 0
  pub new : ℕ → Cache
  pub get : Cache → ℕ → Bytes → Option Bool
  pub insert : Cache → ℕ → Bytes → Bool → Cache

-- A new cache is empty, and what a cache returns was inserted under that key: it may forget, by age
-- or for lack of room, and never changes a result.
pub record IsCacheLibrary (c : CacheLibrary) : Type 0 where
  pub get-new : (capacity t : ℕ) (k : Bytes) → c.get (c.new capacity) t k ≡ none
  pub get-insert :
      (s : c.Cache) (t u : ℕ) (k q : Bytes) (v r : Bool)
      → c.get (c.insert s t k v) u q ≡ some r
      → ((q ≡ k) × (r ≡ v)) ⊎ ((w : ℕ) × (c.get s w q ≡ some r))

-- `hasher.update([domain as u8]); hasher.update(value)`
abbrev pub hashed_bytes : VerificationDomain → Bytes → Bytes
hashed_bytes domain value = as_u8 domain ∷ value

unfoldable pub compute_key : (Bytes → Bytes) → VerificationDomain → Bytes → Bytes
compute_key sha256 domain value = sha256 (hashed_bytes domain value)

-- The domain in which `verify_record` checks a record of the key.
unfoldable pub domain_of : Bytes → Bytes → VerificationDomain
domain_of status_list_key key = if bytes_eq key status_list_key then issuer_signed else self_signed

-- The check itself, without the cache.
unfoldable pub check_signature : SignatureVerifierHandler → VerificationDomain → Bytes → Bool
check_signature h issuer_signed value =
    unwrap_or_false (h.handle_issuer_node_signature_verification value)
check_signature h self_signed value = unwrap_or_false (h.handle_signature_verification value)

module _ (c : CacheLibrary) (sha256 : Bytes → Bytes) (h : SignatureVerifierHandler) where
  unfoldable pub get_by_key : c.Cache → ℕ → Bytes → Option Bool
  get_by_key s now key = c.get s now key

  unfoldable pub insert_by_key : c.Cache → ℕ → Bytes → Bool → c.Cache
  insert_by_key s now key result = c.insert s now key result

  -- after `get_by_key`: a hit ends it, a miss runs the check and keeps its result
  unfoldable pub after_get :
      Option Bool → c.Cache → ℕ → VerificationDomain → Bytes → Bool × Option c.Cache
  unfolding check_signature compute_key insert_by_key
  after_get (some cached) s now domain value = (cached, some s)
  after_get none s now domain value =
      let result = check_signature h domain value in
      (result, some (insert_by_key s now (compute_key sha256 domain value) result))

  unfoldable pub verify_in : Option c.Cache → ℕ → VerificationDomain → Bytes → Bool × Option c.Cache
  unfolding after_get check_signature compute_key get_by_key
  verify_in none now domain value = (check_signature h domain value, none)
  verify_in (some s) now domain value =
      after_get (get_by_key s now (compute_key sha256 domain value)) s now domain value

  unfoldable pub verify_record : Bytes → Option c.Cache → ℕ → Bytes → Bytes → Bool × Option c.Cache
  unfolding is_bound_to_key verify_in domain_of
  verify_record status_list_key cache now key value =
      if is_bound_to_key h status_list_key key value
      then verify_in cache now (domain_of status_list_key key) value
      else (false, cache)
