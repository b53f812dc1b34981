-- ===== src/Auth.antt =====
-- src/auth_handler.rs: the records and their verification. A record is an algorithm name in 12 bytes,
-- padded with zeros, a signature whose length the name gives, and a DID document. JSON, base64, UUID
-- and the hashes are the libraries' (`Documents`), and the issuer's key is what its file holds.
pub mod Layout
pub mod Binding
pub mod Rotation
pub mod Cache
pub mod Transparency
pub mod Tests
use auth_kademlia_rs.Prelude.{
  ℕ, ◌+◌, Bool, true, false, not, ◌&&◌, ◌||◌, Option, [], ◌∷◌, ◌++◌, ltb, ◌==◌, if◌then◌else◌,
  Bytes, bytes_eq, length, take, drop, any,
}
use auth_kademlia_rs.Prelude.Results.{◌>>=◌, Result, ok, err, ok_or, map_err, unwrap_or_false}
use auth_kademlia_rs.Crypto.{
  VerifierError, resolve_alg_and_length, Primitives, get_verifier, verify,
}
use auth_kademlia_rs.Crypto.Text.{from_utf8, strip_prefix, trim_end}

pub data AuthHandlerError : Type 0 where
  crypto : VerifierError → AuthHandlerError
  json base64 io utf8 : AuthHandlerError
  missing_field : Bytes → AuthHandlerError
  invalid_format invalid_did : AuthHandlerError

-- The trait `SignatureVerifierHandler`.
pub record SignatureVerifierHandler : Type 0 where
  pub handle_key_binding_verification : Bytes → Bytes → Result Bool AuthHandlerError
  pub handle_signature_verification : Bytes → Result Bool AuthHandlerError
  pub handle_update_verification : Bytes → Bytes → Bytes → Result Bool AuthHandlerError
  pub handle_issuer_node_signature_verification : Bytes → Result Bool AuthHandlerError

-- `raw.iter().position(|&b| b == 0).unwrap_or(raw.len())`, then the two parts
unfoldable pub until_zero : Bytes → Bytes
until_zero [] = []
until_zero (b ∷ l) = if b == 0 then [] else b ∷ until_zero l

unfoldable pub from_zero : Bytes → Bytes
from_zero [] = []
from_zero (b ∷ l) = if b == 0 then b ∷ l else from_zero l

unfoldable pub get_alg_string : Bytes → Result Bytes AuthHandlerError
unfolding until_zero from_zero from_utf8
get_alg_string value =
    if ltb (length value) 12
    then err invalid_format
    else if any (λ byte. not (byte == 0)) (from_zero (take 12 value))
    then err invalid_format
    else if from_utf8 (until_zero (take 12 value))
    then ok (until_zero (take 12 value))
    else err utf8

unfoldable pub extract_sig_and_data : Bytes → ℕ → Result (Bytes × Bytes) AuthHandlerError
extract_sig_and_data value sig_length =
    if ltb (length value) (12 + sig_length)
    then err invalid_format
    else ok (take sig_length (drop 12 value), drop (12 + sig_length) value)

-- The parts of a record: its algorithm, the signature and the document.
unfoldable pub record_parts : Bytes → Result (Bytes × Bytes × Bytes) AuthHandlerError
unfolding get_alg_string resolve_alg_and_length extract_sig_and_data
record_parts value = do
  alg ← get_alg_string value
  resolved ← map_err crypto (resolve_alg_and_length alg)
  parts ← extract_sig_and_data value resolved.1
  ok (alg, parts.0, parts.1)

-- What the libraries give: JSON with its missing fields read as null, base64 for URLs without
-- padding, the form of a UUID, and SHA-1.
pub record Documents : Type 1 where
  pub Value : Type 0
  pub from_slice : Bytes → Option Value
  pub field : Value → Bytes → Value
  pub item : Value → ℕ → Value
  pub as_str : Value → Option Bytes
  pub decode_url_safe_no_pad : Bytes → Option Bytes
  pub parse_uuid : Bytes → Bool
  pub digest : Bytes → Bytes

-- "verificationMethod", "publicKeyJwk", "x", "id" and "did:iiot:"
abbrev pub verification_method : Bytes
verification_method =
    118 ∷ 101 ∷ 114 ∷ 105 ∷ 102 ∷ 105 ∷ 99 ∷ 97 ∷ 116 ∷ 105 ∷ 111 ∷ 110 ∷ 77 ∷ 101 ∷ 116 ∷ 104 ∷ 111
    ∷ 100 ∷ []

abbrev pub public_key_jwk : Bytes
public_key_jwk = 112 ∷ 117 ∷ 98 ∷ 108 ∷ 105 ∷ 99 ∷ 75 ∷ 101 ∷ 121 ∷ 74 ∷ 119 ∷ 107 ∷ []

abbrev pub x_name : Bytes
x_name = 120 ∷ []

abbrev pub id_name : Bytes
id_name = 105 ∷ 100 ∷ []

abbrev pub did_prefix : Bytes
did_prefix = 100 ∷ 105 ∷ 100 ∷ 58 ∷ 105 ∷ 105 ∷ 111 ∷ 116 ∷ 58 ∷ []

-- "verificationMethod[0].publicKeyJwk.x"
abbrev pub key_path : Bytes
key_path = verification_method ++ 91 ∷ 48 ∷ 93 ∷ 46 ∷ public_key_jwk ++ 46 ∷ x_name

module _ (d : Documents) where
  unfoldable pub decode_b64url : Bytes → Result Bytes AuthHandlerError
  unfolding trim_end
  decode_b64url key = ok_or (d.decode_url_safe_no_pad (trim_end 61 key)) base64

  unfoldable pub public_key_from_did_doc : Bytes → Result Bytes AuthHandlerError
  unfolding decode_b64url
  public_key_from_did_doc data_bytes = do
    doc ← ok_or (d.from_slice data_bytes) json
    let jwk = d.field (d.item (d.field doc verification_method) 0) public_key_jwk
    x ← ok_or (d.as_str (d.field jwk x_name)) (missing_field key_path)
    decode_b64url x

  abbrev pub uuid_of : Bytes → Result Bytes AuthHandlerError
  uuid_of uuid = if d.parse_uuid uuid then ok uuid else err invalid_did

  unfoldable pub did_document_matches_key : Bytes → Bytes → Result Bool AuthHandlerError
  unfolding record_parts strip_prefix
  did_document_matches_key value key = do
    parts ← record_parts value
    doc ← ok_or (d.from_slice parts.2) json
    did ← ok_or (d.as_str (d.field doc id_name)) (missing_field id_name)
    uuid ← ok_or (strip_prefix did_prefix did) invalid_did
    uuid' ← uuid_of uuid
    ok (bytes_eq (d.digest uuid') key)

  module _ (p : Primitives) where
    unfoldable pub verify_self_signed : Bytes → Result Bool AuthHandlerError
    unfolding record_parts public_key_from_did_doc get_verifier verify
    verify_self_signed value = do
      parts ← record_parts value
      pub_key ← public_key_from_did_doc parts.2
      verifier ← map_err crypto (get_verifier parts.0)
      map_err crypto (verify p verifier pub_key parts.1 parts.2)

    abbrev pub signed_by_old : Bool → Bytes → Result Bool AuthHandlerError
    signed_by_old false new_value = ok false
    signed_by_old true new_value = verify_self_signed new_value

    unfoldable pub verify_key_rotation : Bytes → Bytes → Bytes → Result Bool AuthHandlerError
    unfolding record_parts public_key_from_did_doc get_verifier verify verify_self_signed
    verify_key_rotation new_value old_value auth_signature = do
      old ← record_parts old_value
      old_pub_key ← public_key_from_did_doc old.2
      verifier ← map_err crypto (get_verifier old.0)
      signed ← map_err crypto (verify p verifier old_pub_key auth_signature new_value)
      signed_by_old signed new_value

    -- `issuer_key` is what the file of the issuer's key holds, `none` where it cannot be read.
    unfoldable pub verify_issuer : Option Bytes → Bytes → Result Bool AuthHandlerError
    unfolding record_parts get_verifier verify
    verify_issuer issuer_key value = do
      parts ← record_parts value
      issuer_pub_key ← ok_or issuer_key io
      verifier ← map_err crypto (get_verifier parts.0)
      map_err crypto (verify p verifier issuer_pub_key parts.1 parts.2)

    -- `DIDSignatureVerifierHandler`
    unfoldable pub did_handler : Option Bytes → SignatureVerifierHandler
    unfolding did_document_matches_key verify_self_signed verify_key_rotation verify_issuer
    did_handler issuer_key = record {
      handle_key_binding_verification = λ key value. did_document_matches_key value key;
      handle_signature_verification = verify_self_signed;
      handle_update_verification = verify_key_rotation;
      handle_issuer_node_signature_verification = verify_issuer issuer_key;
    }

-- `status_list_key` is the digest of `STATUS_LIST_KEY`.
unfoldable pub is_bound_to_key : SignatureVerifierHandler → Bytes → Bytes → Bytes → Bool
is_bound_to_key h status_list_key key value =
    bytes_eq key status_list_key || unwrap_or_false (h.handle_key_binding_verification key value)

unfoldable pub verify_rotation : SignatureVerifierHandler → Bytes → Bytes → Bytes → Bytes → Bool
verify_rotation h key new old auth_signature =
    unwrap_or_false (h.handle_key_binding_verification key old)
    && unwrap_or_false (h.handle_key_binding_verification key new)
    && unwrap_or_false (h.handle_update_verification new old auth_signature)

unfoldable pub verify_issuer_signed : SignatureVerifierHandler → Bytes → Bool
verify_issuer_signed h value = unwrap_or_false (h.handle_issuer_node_signature_verification value)
