-- ===== src/Auth/Tests.antt =====
-- src/auth_handler.rs and src/signature_cache.rs: the theorems at small inputs.
use auth_kademlia_rs.Prelude.{
  ◌≡◌, refl, ◌↔◌, inl, inr, Bool, true, false, Option, none, some, List, [], ◌∷◌, ◌++◌, arith, ◌==◌,
  if◌then◌else◌, Bool-cases, Bytes, bytes_eq, replicate,
}
use auth_kademlia_rs.Prelude.Unique.{bytes_eq→≡}
use auth_kademlia_rs.Prelude.Results.{Result, ok, err}
use auth_kademlia_rs.Crypto.{Primitives, ed25519_name}
use auth_kademlia_rs.Auth.{
  Documents, AuthHandlerError, invalid_format, SignatureVerifierHandler, record_parts,
  did_document_matches_key, did_handler, verify_rotation, id_name, did_prefix,
}
use auth_kademlia_rs.Auth.Layout.{IsLayout, pad, record_parts-IsLayout_iff}
use auth_kademlia_rs.Auth.Binding.{NamesKey, did_document_matches_key-NamesKey_iff}
use auth_kademlia_rs.Auth.Rotation.{SignsFor, IsSelfSigned, verify_rotation-did_handler_iff}
use auth_kademlia_rs.Auth.Cache.{CacheLibrary, IsCacheLibrary}
use auth_kademlia_rs.Auth.Transparency.{IssuerCall, verify_each, verify_each_cached}

-- A document is its own JSON value; its "id" is the DID that it spells, and every other field is
-- the whole of it.
abbrev plain_documents : Documents
plain_documents = record {
  Value = Bytes;
  from_slice = λ l. some l;
  field = λ v name. if bytes_eq name id_name then did_prefix ++ v else v;
  item = λ v i. v;
  as_str = λ v. some v;
  decode_url_safe_no_pad = λ l. some l;
  parse_uuid = λ l. true;
  digest = λ l. l;
}

-- Every signature is valid.
abbrev lenient : Primitives
lenient = record {
  RsaPublicKey = Bytes;
  rsa_from_public_key_der = λ k. some k;
  rsa_from_public_key_pem = λ k. some k;
  RsaSignature = Bytes;
  rsa_signature = λ s. some s;
  rsa_verify = λ k m s. true;
  Ed25519Key = Bytes;
  ed25519_key = λ k. some k;
  ed25519_verify = λ k m s. true;
  DilithiumKey = λ level. Bytes;
  dilithium_key = λ level k. some k;
  DilithiumSignature = λ level. Bytes;
  dilithium_signature = λ level s. some s;
  dilithium_verify = λ level s m k. true;
}

abbrev signature_bytes : Bytes
signature_bytes = replicate 64 7

-- A key of 32 bytes, which is the document too.
abbrev key_bytes : Bytes
key_bytes = replicate 32 5

abbrev a_record : Bytes
a_record = pad ed25519_name ++ (signature_bytes ++ key_bytes)

record_parts-IsLayout_iff_example :
    (record_parts a_record ≡ ok (ed25519_name, signature_bytes, key_bytes))
    ↔ IsLayout a_record ed25519_name signature_bytes key_bytes
record_parts-IsLayout_iff_example =
    record_parts-IsLayout_iff a_record ed25519_name signature_bytes key_bytes

did_document_matches_key-NamesKey_iff_example :
    (did_document_matches_key plain_documents a_record key_bytes ≡ ok true)
    ↔ NamesKey plain_documents a_record key_bytes
did_document_matches_key-NamesKey_iff_example =
    did_document_matches_key-NamesKey_iff plain_documents a_record key_bytes

verify_rotation-did_handler_iff_example :
    (verify_rotation
        (did_handler plain_documents lenient none)
        key_bytes
        a_record
        a_record
        signature_bytes
      ≡ true)
    ↔ (NamesKey plain_documents a_record key_bytes
        × NamesKey plain_documents a_record key_bytes
        × SignsFor plain_documents lenient a_record signature_bytes a_record
        × IsSelfSigned plain_documents lenient a_record)
verify_rotation-did_handler_iff_example =
    verify_rotation-did_handler_iff plain_documents lenient none key_bytes a_record a_record
      signature_bytes

-- A cache that never forgets.
abbrev lasting : CacheLibrary
lasting = record {
  Cache = Bytes → Option Bool;
  new = λ capacity q. none;
  get = λ s t q. s q;
  insert = λ s t k v q. if bytes_eq q k then some v else s q;
}

lasting-IsCacheLibrary : IsCacheLibrary lasting
lasting-IsCacheLibrary = record {
  get-new = λ capacity t k. refl;
  get-insert = λ s t u k q v r e. elim (Bool-cases (bytes_eq q k)) [
    | inl same ↦ inl (bytes_eq→≡ q k same, ground arith)
    | inr other ↦ inr (0, ground arith)
  ];
}

-- A record is valid if it begins with 1.
abbrev first_byte : Bytes → Result Bool AuthHandlerError
first_byte [] = err invalid_format
first_byte (b ∷ l) = ok (b == 1)

abbrev simple_handler : SignatureVerifierHandler
simple_handler = record {
  handle_key_binding_verification = λ key value. ok true;
  handle_signature_verification = first_byte;
  handle_update_verification = λ new old sig. ok false;
  handle_issuer_node_signature_verification = λ value. ok false;
}

-- A key of the issuer verifies what begins as it does.
abbrev begins_alike : Option Bytes → Bytes → Result Bool AuthHandlerError
begins_alike none value = err invalid_format
begins_alike (some key) value = ok (bytes_eq key value)

-- The record of 2 twice, then the Status List.
abbrev three_calls : List IssuerCall
three_calls =
    (none, (5, 2 ∷ [], 1 ∷ []))
    ∷ (none, (6, 2 ∷ [], 1 ∷ []))
    ∷ (some (3 ∷ []), (7, 9 ∷ [], 3 ∷ []))
    ∷ []

verify_each_cached_example :
    verify_each lasting
      (λ l. l)
      simple_handler
      begins_alike
      (9 ∷ [])
      (some (lasting.new 10))
      three_calls
    ≡ verify_each lasting (λ l. l) simple_handler begins_alike (9 ∷ []) none three_calls
verify_each_cached_example =
    verify_each_cached lasting-IsCacheLibrary simple_handler begins_alike (λ b. Unit {0})
      (λ a b s t e. e) (9 ∷ []) (some (3 ∷ [])) 10 three_calls
      ((λ e. absurd (cc)), ((λ e. absurd (cc)), ((λ e. refl), tt))) (tt, (tt, (tt, tt)))
