-- ===== src/Crypto.antt =====
-- src/crypto: the names of the algorithms, and the verifiers of signatures with the lengths that
-- they check. The cryptographic libraries are the parameter `Primitives`. A text is its bytes in
-- UTF-8; the text of an error is left out.
pub mod Text
use auth_kademlia_rs.Prelude.{
  ℕ, Bool, true, false, Option, none, some, [], ◌∷◌, ◌++◌, ◌==◌, if◌then◌else◌, Bytes, bytes_eq,
  length,
}
use auth_kademlia_rs.Prelude.Results.{◌>>=◌, Result, ok, err, ok_or}
use auth_kademlia_rs.Crypto.Text.{from_utf8, before, trim}

pub data VerifierError : Type 0 where
  unsupported_algorithm : Bytes → VerifierError
  invalid_key_length : ℕ → VerifierError
  verification_failed : VerifierError

abbrev pub rsa_name : Bytes
rsa_name = 82 ∷ 83 ∷ 65 ∷ []

abbrev pub ed25519_name : Bytes
ed25519_name = 69 ∷ 100 ∷ 50 ∷ 53 ∷ 53 ∷ 49 ∷ 57 ∷ []

abbrev pub dilithium_name : Bytes
dilithium_name = 68 ∷ 105 ∷ 108 ∷ 105 ∷ 116 ∷ 104 ∷ 105 ∷ 117 ∷ 109 ∷ []

-- "Dilithium-" and a digit
abbrev pub dilithium_level_name : ℕ → Bytes
dilithium_level_name digit = dilithium_name ++ 45 ∷ digit ∷ []

unfoldable pub resolve_alg_and_length : Bytes → Result (Bytes × ℕ) VerifierError
resolve_alg_and_length algorithm =
    if bytes_eq algorithm rsa_name
    then ok (rsa_name, 256)
    else if bytes_eq algorithm ed25519_name
    then ok (ed25519_name, 64)
    else if bytes_eq algorithm (dilithium_level_name 50)
    then ok (dilithium_name, 2420)
    else if bytes_eq algorithm (dilithium_level_name 51)
    then ok (dilithium_name, 3293)
    else if bytes_eq algorithm (dilithium_level_name 53)
    then ok (dilithium_name, 4595)
    else err (unsupported_algorithm algorithm)

unfoldable pub dilithium_level_from_pubkey_len : ℕ → Option ℕ
dilithium_level_from_pubkey_len len =
    if len == 1312
    then some 2
    else if len == 1952
    then some 3
    else if len == 2592
    then some 5
    else none

unfoldable pub dilithium_level_from_privkey_len : ℕ → Option ℕ
dilithium_level_from_privkey_len len =
    if len == 2560
    then some 2
    else if len == 4032
    then some 3
    else if len == 4896
    then some 5
    else none

-- The implementations that a factory chooses from.
pub data Implementation : Type 0 where
  rsa ed25519 dilithium : Implementation

unfoldable pub get_verifier : Bytes → Result Implementation VerifierError
unfolding trim before
get_verifier algorithm =
    let base = trim (before 45 algorithm) in
    if bytes_eq base rsa_name
    then ok rsa
    else if bytes_eq base ed25519_name
    then ok ed25519
    else if bytes_eq base dilithium_name
    then ok dilithium
    else err (unsupported_algorithm base)

unfoldable pub get_signer : Bytes → Result Implementation VerifierError
unfolding trim before
get_signer algorithm =
    let base = trim (before 45 algorithm) in
    if bytes_eq base rsa_name
    then ok rsa
    else if bytes_eq base ed25519_name
    then ok ed25519
    else if bytes_eq base dilithium_name
    then ok dilithium
    else err (unsupported_algorithm base)

-- What the cryptographic libraries give: the decoding of keys and signatures, and the equations that
-- they check. A Dilithium call takes the level; `none` is a refusal.
pub record Primitives : Type 1 where
  pub RsaPublicKey : Type 0
  pub rsa_from_public_key_der : Bytes → Option RsaPublicKey
  pub rsa_from_public_key_pem : Bytes → Option RsaPublicKey
  pub RsaSignature : Type 0
  pub rsa_signature : Bytes → Option RsaSignature
  pub rsa_verify : RsaPublicKey → Bytes → RsaSignature → Bool
  pub Ed25519Key : Type 0
  pub ed25519_key : Bytes → Option Ed25519Key
  pub ed25519_verify : Ed25519Key → Bytes → Bytes → Bool
  pub DilithiumKey : ℕ → Type 0
  pub dilithium_key : (level : ℕ) → Bytes → Option (DilithiumKey level)
  pub DilithiumSignature : ℕ → Type 0
  pub dilithium_signature : (level : ℕ) → Bytes → Option (DilithiumSignature level)
  pub dilithium_verify : (level : ℕ) → DilithiumSignature level → Bytes → DilithiumKey level → Bool

module _ (p : Primitives) where
  abbrev pub pem_of : Bool → Bytes → Result p.RsaPublicKey VerifierError
  pem_of true key = ok_or (p.rsa_from_public_key_pem key) verification_failed
  pem_of false key = err verification_failed

  abbrev pub der_or_pem : Option p.RsaPublicKey → Bytes → Result p.RsaPublicKey VerifierError
  der_or_pem (some pk) key = ok pk
  der_or_pem none key = pem_of (from_utf8 key) key

  unfoldable pub load_public_key : Bytes → Result p.RsaPublicKey VerifierError
  unfolding from_utf8
  load_public_key key = der_or_pem (p.rsa_from_public_key_der key) key

  unfoldable pub verify_rsa : Bytes → Bytes → Bytes → Result Bool VerifierError
  unfolding load_public_key
  verify_rsa public_key signature message = do
    rsa_pub ← load_public_key public_key
    sig ← ok_or (p.rsa_signature signature) verification_failed
    ok (p.rsa_verify rsa_pub message sig)

  abbrev pub of_length : ℕ → Bytes → VerifierError → Result Bytes VerifierError
  of_length n bytes e = if length bytes == n then ok bytes else err e

  unfoldable pub verify_ed25519 : Bytes → Bytes → Bytes → Result Bool VerifierError
  verify_ed25519 public_key signature message = do
    key_bytes ← of_length 32 public_key (invalid_key_length (length public_key))
    sig_bytes ← of_length 64 signature verification_failed
    verifying_key ← ok_or (p.ed25519_key key_bytes) verification_failed
    ok (p.ed25519_verify verifying_key message sig_bytes)

  -- `verify_d2`, `verify_d3` and `verify_d5`, which differ in the level alone
  unfoldable pub verify_level : ℕ → Bytes → Bytes → Bytes → Result Bool VerifierError
  verify_level level pk sig msg = do
    pk' ← ok_or (p.dilithium_key level pk) (invalid_key_length (length pk))
    sig' ← ok_or (p.dilithium_signature level sig) verification_failed
    ok (p.dilithium_verify level sig' msg pk')

  unfoldable pub verify_dilithium : Bytes → Bytes → Bytes → Result Bool VerifierError
  unfolding dilithium_level_from_pubkey_len verify_level
  verify_dilithium public_key signature message = do
    level ←
        ok_or (dilithium_level_from_pubkey_len (length public_key))
          (invalid_key_length (length public_key))
    verify_level level public_key signature message

  unfoldable pub verify : Implementation → Bytes → Bytes → Bytes → Result Bool VerifierError
  unfolding verify_rsa verify_ed25519 verify_dilithium
  verify rsa public_key signature message = verify_rsa public_key signature message
  verify ed25519 public_key signature message = verify_ed25519 public_key signature message
  verify dilithium public_key signature message = verify_dilithium public_key signature message
