-- ===== src/Auth/Transparency.antt =====
-- src/auth_handler.rs: a node with the cache accepts the records that it accepts without.
use auth_kademlia_rs.Prelude.{
  ℕ, ◌≡◌, refl, sym, ap, ◌∙◌, ◌≢◌, inl, inr, Bool, false, Option, none, some, List, [], ◌∷◌, map,
  holds, Bool-cases, Bytes, bytes_eq, All,
}
use auth_kademlia_rs.Prelude.Results.{Result}
use auth_kademlia_rs.Prelude.Unique.{bytes_eq→≡}
use auth_kademlia_rs.Auth.{SignatureVerifierHandler, AuthHandlerError, is_bound_to_key}
use auth_kademlia_rs.Auth.Cache.{
  VerificationDomain, self_signed, issuer_signed, CacheLibrary, IsCacheLibrary, hashed_bytes,
  compute_key, domain_of, check_signature, get_by_key, insert_by_key, after_get, verify_in,
  verify_record,
}

-- A call of `verify_record`: its instant, the key and the record.
abbrev pub Call : Type 0
Call = ℕ × Bytes × Bytes

module _ (c : CacheLibrary) (sha256 : Bytes → Bytes) (h : SignatureVerifierHandler) where
  -- The results of a sequence of calls, each with the cache that the one before left.
  unfoldable pub verify_all : Bytes → Option c.Cache → List Call → List Bool
  unfolding verify_record
  verify_all status_list_key cache [] = []
  verify_all status_list_key cache ((now, key, value) ∷ calls) =
      let r = verify_record c sha256 h status_list_key cache now key value in
      r.0 ∷ verify_all status_list_key r.1 calls

  -- What is hashed for the call.
  abbrev pub call_bytes : Bytes → Call → Bytes
  call_bytes status_list_key (now, key, value) = hashed_bytes (domain_of status_list_key key) value

-- No two of the byte strings have the same hash.
abbrev pub IsCollisionFree : (Bytes → Bytes) → (Bytes → Type 0) → Type 0
IsCollisionFree sha256 Seen = (a b : Bytes) → Seen a → Seen b → sha256 a ≡ sha256 b → a ≡ b

module _ {c : CacheLibrary} (laws : IsCacheLibrary c) {sha256 : Bytes → Bytes}
    (h : SignatureVerifierHandler) (Seen : Bytes → Type 0)
    (free : IsCollisionFree sha256 Seen) where
  cons_eq : {b b' : Bool} {l l' : List Bool} → b ≡ b' → l ≡ l' → b ∷ l ≡ b' ∷ l'
  cons_eq p q = cc

  none-some : {r : Bool} → none ≢ some r
  none-some e = cc

  -- Each result in the cache for bytes that were hashed is that of the check.
  abbrev IsSound : c.Cache → Type 0
  IsSound s =
      (domain : VerificationDomain) (value : Bytes) (t : ℕ) (r : Bool)
      → Seen (hashed_bytes domain value)
      → c.get s t (compute_key sha256 domain value) ≡ some r
      → r ≡ check_signature h domain value

  hashed_bytes_injective :
      (d e : VerificationDomain) (v w : Bytes)
      → hashed_bytes d v ≡ hashed_bytes e w
      → (d ≡ e) × (v ≡ w)
  hashed_bytes_injective self_signed self_signed v w p = (refl, cc)
  hashed_bytes_injective self_signed issuer_signed v w p = absurd (cc)
  hashed_bytes_injective issuer_signed self_signed v w p = absurd (cc)
  hashed_bytes_injective issuer_signed issuer_signed v w p = (refl, cc)

  insert-IsSound :
      (s : c.Cache) (now : ℕ) (domain : VerificationDomain) (value : Bytes)
      → Seen (hashed_bytes domain value)
      → IsSound s
      → IsSound (c.insert s now (compute_key sha256 domain value) (check_signature h domain value))
  unfolding compute_key
  insert-IsSound s now domain value seen sound domain' value' t r seen' e =
      elim (laws.get-insert s now t _ _ _ r e) [
        | inl (k, v) ↦
            let (same, same_value) =
              hashed_bytes_injective domain' domain value' value (free _ _ seen' seen k) in
            rw (same, same_value) v
        | inr (w, old) ↦ sound domain' value' w r seen' old
      ]

  -- The cache that a step leaves, if there is one.
  abbrev IsSoundIn : Option c.Cache → Type 0
  IsSoundIn none = Unit {0}
  IsSoundIn (some s) = IsSound s

  after_get_lem :
      (o : Option Bool) (s : c.Cache) (now : ℕ) (domain : VerificationDomain) (value : Bytes)
      → Seen (hashed_bytes domain value)
      → IsSound s
      → c.get s now (compute_key sha256 domain value) ≡ o
      → ((after_get c sha256 h o s now domain value).0 ≡ check_signature h domain value)
        × IsSoundIn (after_get c sha256 h o s now domain value).1
  unfolding after_get insert_by_key
  after_get_lem (some r) s now domain value seen sound e = (sound domain value now r seen e, sound)
  after_get_lem none s now domain value seen sound e =
      (refl, insert-IsSound s now domain value seen sound)

  verify_record_lem :
      (status_list_key : Bytes) (cache : Option c.Cache) (call : Call)
      → Seen (call_bytes c sha256 h status_list_key call)
      → IsSoundIn cache
      → ((verify_record c sha256 h status_list_key cache call.0 call.1 call.2).0
          ≡ (verify_record c sha256 h status_list_key none call.0 call.1 call.2).0)
        × IsSoundIn (verify_record c sha256 h status_list_key cache call.0 call.1 call.2).1
  unfolding verify_record verify_in get_by_key
  verify_record_lem status_list_key none call seen sound =
      elim (Bool-cases (is_bound_to_key h status_list_key call.1 call.2)) [
        | inl e ↦ rw e (refl, tt)
        | inr e ↦ rw e (refl, tt)
      ]
  verify_record_lem status_list_key (some s) call seen sound =
      elim (Bool-cases (is_bound_to_key h status_list_key call.1 call.2)) [
        | inl e ↦ rw e (
            after_get_lem
              (c.get s call.0 (compute_key sha256 (domain_of status_list_key call.1) call.2)) s
              call.0 _ _ seen sound refl)
        | inr e ↦ rw e (refl, sound)
      ]

  verify_all_lem :
      (status_list_key : Bytes) (calls : List Call) (cache : Option c.Cache)
      → All (λ call. Seen (call_bytes c sha256 h status_list_key call)) calls
      → IsSoundIn cache
      → verify_all c sha256 h status_list_key cache calls
        ≡ verify_all c sha256 h status_list_key none calls
  unfolding verify_all
  verify_all_lem status_list_key [] cache seen sound = refl
  verify_all_lem status_list_key ((now, key, value) ∷ calls) cache (seen, later) sound =
      let (same, left) = verify_record_lem status_list_key cache (now, key, value) seen sound in
      let (_, left') = verify_record_lem status_list_key none (now, key, value) seen tt in
      let rest = verify_all_lem status_list_key calls _ later left in
      let rest' = verify_all_lem status_list_key calls _ later left' in
      cons_eq same (rest ∙ sym rest')

  verify_all_fixed :
      (status_list_key : Bytes) (capacity : ℕ) (calls : List Call)
      → All (λ call. Seen (call_bytes c sha256 h status_list_key call)) calls
      → verify_all c sha256 h status_list_key (some (c.new capacity)) calls
        ≡ verify_all c sha256 h status_list_key none calls
  verify_all_fixed status_list_key capacity calls seen =
      verify_all_lem status_list_key calls (some (c.new capacity)) seen (λ domain value t r seen' e.
        absurd (none-some (sym (laws.get-new capacity t (compute_key sha256 domain value)) ∙ e)))

-- A call, and what the file of the issuer's key holds then, `none` where it cannot be read.
abbrev pub IssuerCall : Type 0
IssuerCall = Option Bytes × Call

-- The handler, with the key that the file holds.
abbrev pub handler_at :
    SignatureVerifierHandler
    → (Option Bytes → Bytes → Result Bool AuthHandlerError)
    → Option Bytes
    → SignatureVerifierHandler
handler_at h verify_issuer key = record h {
  handle_issuer_node_signature_verification = verify_issuer key;
}

module _ (c : CacheLibrary) (sha256 : Bytes → Bytes) (h : SignatureVerifierHandler)
    (verify_issuer : Option Bytes → Bytes → Result Bool AuthHandlerError) where
  -- The results of a sequence of calls, for each of which the file is read again.
  unfoldable pub verify_each : Bytes → Option c.Cache → List IssuerCall → List Bool
  unfolding verify_record
  verify_each status_list_key cache [] = []
  verify_each status_list_key cache ((issuer, (now, key, value)) ∷ calls) =
      let r =
        verify_record c sha256 (handler_at h verify_issuer issuer) status_list_key cache now key
          value in
      r.0 ∷ verify_each status_list_key r.1 calls

  -- The file holds `issuer` at each call for the Status List.
  abbrev pub HoldsIssuer : Bytes → Option Bytes → IssuerCall → Type 0
  HoldsIssuer status_list_key issuer (held, (now, key, value)) =
      key ≡ status_list_key → held ≡ issuer

  after_get_same :
      (issuer held : Option Bytes) (o : Option Bool) (s : c.Cache) (now : ℕ) (value : Bytes)
      → after_get c sha256 (handler_at h verify_issuer held) o s now self_signed value
        ≡ after_get c sha256 (handler_at h verify_issuer issuer) o s now self_signed value
  unfolding after_get check_signature insert_by_key
  after_get_same issuer held (some b) s now value = refl
  after_get_same issuer held none s now value = refl

  same_handler :
      (status_list_key : Bytes) (issuer held : Option Bytes) (cache : Option c.Cache) (now : ℕ)
      (key value : Bytes)
      → (key ≡ status_list_key → held ≡ issuer)
      → verify_record c sha256 (handler_at h verify_issuer held) status_list_key cache now key value
        ≡ verify_record c sha256
            (handler_at h verify_issuer issuer)
            status_list_key
            cache
            now
            key
            value
  unfolding verify_record verify_in domain_of check_signature is_bound_to_key get_by_key
  same_handler status_list_key issuer held cache now key value same =
      elim (Bool-cases (bytes_eq key status_list_key)) [
        | inl e ↦
            ap
              (λ k.
                verify_record c sha256 (handler_at h verify_issuer k) status_list_key cache now key
                  value)
              (same (bytes_eq→≡ key status_list_key e))
        | inr e ↦ own cache e
      ]
    where
      own :
          (s : Option c.Cache)
          → bytes_eq key status_list_key ≡ false
          → verify_record c sha256 (handler_at h verify_issuer held) status_list_key s now key value
            ≡ verify_record c sha256
                (handler_at h verify_issuer issuer)
                status_list_key
                s
                now
                key
                value
      own none e = rw e refl
      own (some s) e = rw e (
          rw
            (after_get_same issuer held (c.get s now (compute_key sha256 self_signed value)) s now
              value)
            refl)

  verify_each_fixed :
      (status_list_key : Bytes) (issuer : Option Bytes) (calls : List IssuerCall)
      (cache : Option c.Cache)
      → All (HoldsIssuer status_list_key issuer) calls
      → verify_each status_list_key cache calls
        ≡ verify_all c sha256
            (handler_at h verify_issuer issuer)
            status_list_key
            cache
            (map (λ call. call.1) calls)
  unfolding verify_each verify_all
  verify_each_fixed status_list_key issuer [] cache holds = refl
  verify_each_fixed status_list_key issuer ((held, (now, key, value)) ∷ calls) cache holds =
      let same = same_handler status_list_key issuer held cache now key value holds.0 in
      ap (λ r. r.0 ∷ verify_each status_list_key r.1 calls) same
      ∙ ap
          (λ l.
            (verify_record c sha256 (handler_at h verify_issuer issuer) status_list_key cache now
              key value).0
            ∷ l)
          (verify_each_fixed status_list_key issuer calls _ holds.1)

-- Whatever the cache forgets, and however small it is, a node that starts with an empty cache gives
-- the same results for any sequence of records as one that has no cache, unless two different
-- records among them, or a record checked under two trust roots, have the same SHA-256, or the file
-- of the issuer's key holds different bytes at two of the calls for the Status List.
pub verify_each_cached :
    {c : CacheLibrary} (laws : IsCacheLibrary c) {sha256 : Bytes → Bytes}
    (h : SignatureVerifierHandler)
    (verify_issuer : Option Bytes → Bytes → Result Bool AuthHandlerError) (Seen : Bytes → Type 0)
    (free : IsCollisionFree sha256 Seen) (status_list_key : Bytes) (issuer : Option Bytes)
    (capacity : ℕ) (calls : List IssuerCall)
    → All (HoldsIssuer c sha256 h verify_issuer status_list_key issuer) calls
    → All
        (λ call. Seen (hashed_bytes (domain_of status_list_key call.1) call.2))
        (map (λ call. call.1) calls)
    → verify_each c sha256 h verify_issuer status_list_key (some (c.new capacity)) calls
      ≡ verify_each c sha256 h verify_issuer status_list_key none calls
verify_each_cached {c} laws {sha256} h verify_issuer Seen free status_list_key issuer capacity calls
      holds seen =
    verify_each_fixed c sha256 h verify_issuer status_list_key issuer calls (some (c.new capacity))
      holds
    ∙ (verify_all_fixed laws (handler_at h verify_issuer issuer) Seen free status_list_key capacity
          (map (λ call. call.1) calls) seen
        ∙ sym (verify_each_fixed c sha256 h verify_issuer status_list_key issuer calls none holds))
