-- ===== src/Auth/Rotation.antt =====
-- src/auth_handler.rs: what a key rotation that is accepted has shown.
use auth_kademlia_rs.Prelude.{
  ◌≡◌, refl, ap, ◌∙◌, ◌↔◌, Bool, true, false, ◌&&◌, Option, arith, Bytes,
}
use auth_kademlia_rs.Prelude.Results.{
  ok, map_err, >>=-eq-ok, map_err-eq-ok, unwrap_or_false-eq-true,
}
use auth_kademlia_rs.Crypto.{Implementation, Primitives, get_verifier, verify}
use auth_kademlia_rs.Auth.{
  crypto, Documents, record_parts, public_key_from_did_doc, verify_self_signed, verify_key_rotation,
  signed_by_old, did_handler, verify_rotation,
}
use auth_kademlia_rs.Auth.Binding.{NamesKey, did_document_matches_key-NamesKey_iff}
use auth_kademlia_rs.Auth.Layout.{IsLayout, record_parts-IsLayout_iff}

module _ (d : Documents) where
  module _ (p : Primitives) where
    -- The signature is valid for the message under this key and algorithm.
    pub record IsSigned (alg key sig message : Bytes) : Type 0 where
      pub verifier : Implementation
      pub chosen : get_verifier alg ≡ ok verifier
      pub valid : verify p verifier key sig message ≡ ok true

    -- The signature is valid for the message under the key and the algorithm of the record.
    pub record SignsFor (value sig message : Bytes) : Type 0 where
      pub alg : Bytes
      pub own_sig : Bytes
      pub document : Bytes
      pub layout : IsLayout value alg own_sig document
      pub key : Bytes
      pub key_found : public_key_from_did_doc d document ≡ ok key
      pub signed : IsSigned alg key sig message

    -- The record's own signature is valid for its document.
    pub record IsSelfSigned (value : Bytes) : Type 0 where
      pub alg : Bytes
      pub sig : Bytes
      pub document : Bytes
      pub layout : IsLayout value alg sig document
      pub key : Bytes
      pub key_found : public_key_from_did_doc d document ≡ ok key
      pub signed : IsSigned alg key sig document

    parts-IsLayout :
        (value : Bytes) (parts : Bytes × Bytes × Bytes)
        → record_parts value ≡ ok parts
        → IsLayout value parts.0 parts.1 parts.2
    parts-IsLayout value parts h = (record_parts-IsLayout_iff value parts.0 parts.1 parts.2).0 h

    verify_self_signed-IsSelfSigned :
        (value : Bytes) → verify_self_signed d p value ≡ ok true → IsSelfSigned value
    unfolding verify_self_signed
    verify_self_signed-IsSelfSigned value h =
        let (parts, split, h') = >>=-eq-ok (record_parts value) _ h in
        let (key, found, h'') = >>=-eq-ok (public_key_from_did_doc d parts.2) _ h' in
        let (i, chosen, e) = >>=-eq-ok (map_err crypto (get_verifier parts.0)) _ h'' in
        record {
          alg = parts.0;
          sig = parts.1;
          document = parts.2;
          layout = parts-IsLayout value parts split;
          key = key;
          key_found = found;
          signed = record {
            verifier = i;
            chosen = map_err-eq-ok crypto (get_verifier parts.0) chosen;
            valid = map_err-eq-ok crypto (verify p i key parts.1 parts.2) e;
          };
        }

    IsSelfSigned-verify_self_signed :
        (value : Bytes) → IsSelfSigned value → verify_self_signed d p value ≡ ok true
    unfolding verify_self_signed
    IsSelfSigned-verify_self_signed value s =
        rw
          (
            (record_parts-IsLayout_iff value s.alg s.sig s.document).1 s.layout,
            s.key_found,
            s.signed.chosen,
            s.signed.valid,
          )
          refl

    signed_by_old-cases :
        (b : Bool) (new : Bytes)
        → signed_by_old d p b new ≡ ok true
        → (b ≡ true) × (verify_self_signed d p new ≡ ok true)
    signed_by_old-cases true new h = (refl, h)
    signed_by_old-cases false new h = cc

    rotation_sound :
        (new old auth_signature : Bytes)
        → verify_key_rotation d p new old auth_signature ≡ ok true
        → SignsFor old auth_signature new × IsSelfSigned new
    unfolding verify_key_rotation
    rotation_sound new old auth_signature h =
        let (parts, split, h') = >>=-eq-ok (record_parts old) _ h in
        let (key, found, h'') = >>=-eq-ok (public_key_from_did_doc d parts.2) _ h' in
        let (i, chosen, h3) = >>=-eq-ok (map_err crypto (get_verifier parts.0)) _ h'' in
        let (b, valid, e) = >>=-eq-ok (map_err crypto (verify p i key auth_signature new)) _ h3 in
        let (yes_signed, own) = signed_by_old-cases b new e in
        (
          record {
            alg = parts.0;
            own_sig = parts.1;
            document = parts.2;
            layout = parts-IsLayout old parts split;
            key = key;
            key_found = found;
            signed = record {
              verifier = i;
              chosen = map_err-eq-ok crypto (get_verifier parts.0) chosen;
              valid =
                  map_err-eq-ok crypto (verify p i key auth_signature new) valid ∙ ap ok yes_signed;
            };
          },
          verify_self_signed-IsSelfSigned new own,
        )

    rotation_complete :
        (new old auth_signature : Bytes)
        → SignsFor old auth_signature new
        → IsSelfSigned new
        → verify_key_rotation d p new old auth_signature ≡ ok true
    unfolding verify_key_rotation
    rotation_complete new old auth_signature s own =
        rw
          (
            (record_parts-IsLayout_iff old s.alg s.own_sig s.document).1 s.layout,
            s.key_found,
            s.signed.chosen,
            s.signed.valid,
          )
          (IsSelfSigned-verify_self_signed new own)

    and_cases : (a b c : Bool) → (a && b && c) ≡ true → (a ≡ true) × (b ≡ true) × (c ≡ true)
    and_cases a b c h = ground arith

    -- A node lets a record replace another for a key exactly if both belong to the key, the extra
    -- signature is valid for the whole new record under the key in the old one, and the new record
    -- is signed with the key in its own document. The issuer's key plays no part.
    pub verify_rotation-did_handler_iff :
        (issuer_key : Option Bytes) (key new old auth_signature : Bytes)
        → (verify_rotation (did_handler d p issuer_key) key new old auth_signature ≡ true) ↔ (
            NamesKey d old key
            × NamesKey d new key
            × SignsFor old auth_signature new
            × IsSelfSigned new)
    unfolding verify_rotation did_handler
    verify_rotation-did_handler_iff issuer_key key new old auth_signature = (
      λ h.
          let (o, n, r) = and_cases _ _ _ h in
          let (s, own) = rotation_sound new old auth_signature (unwrap_or_false-eq-true _ r) in
          (
            (did_document_matches_key-NamesKey_iff d old key).0 (unwrap_or_false-eq-true _ o),
            (did_document_matches_key-NamesKey_iff d new key).0 (unwrap_or_false-eq-true _ n),
            s,
            own,
          ),
      λ (o, n, s, own).
          rw
            (
              (did_document_matches_key-NamesKey_iff d old key).1 o,
              (did_document_matches_key-NamesKey_iff d new key).1 n,
              rotation_complete new old auth_signature s own,
            )
            refl,
    )
