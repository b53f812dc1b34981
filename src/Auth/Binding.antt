-- ===== src/Auth/Binding.antt =====
-- src/auth_handler.rs: when a record belongs to a key.
use auth_kademlia_rs.Prelude.{
  ◌≡◌, refl, ap, ◌∙◌, ◌↔◌, inl, inr, true, some, arith, Bool-cases, Bytes, bytes_eq,
}
use auth_kademlia_rs.Prelude.Unique.{bytes_eq→≡, bytes_eq_refl}
use auth_kademlia_rs.Prelude.Results.{ok, ok_or, >>=-eq-ok, ok_or-eq-ok}
use auth_kademlia_rs.Crypto.Text.{strip_prefix}
use auth_kademlia_rs.Auth.{
  json, missing_field, invalid_did, Documents, record_parts, id_name, did_prefix,
  did_document_matches_key, uuid_of,
}
use auth_kademlia_rs.Auth.Layout.{IsLayout, record_parts-IsLayout_iff}

module _ (d : Documents) where
  -- The record's document is JSON whose "id" is the DID of a UUID with this digest.
  pub record NamesKey (value key : Bytes) : Type 0 where
    pub alg : Bytes
    pub sig : Bytes
    pub document : Bytes
    pub layout : IsLayout value alg sig document
    pub doc : d.Value
    pub parsed : d.from_slice document ≡ some doc
    pub did : Bytes
    pub named : d.as_str (d.field doc id_name) ≡ some did
    pub uuid : Bytes
    pub stripped : strip_prefix did_prefix did ≡ some uuid
    pub well_formed : d.parse_uuid uuid ≡ true
    pub hashed : d.digest uuid ≡ key

  uuid_of-cases :
      (uuid : Bytes) {u : Bytes} → uuid_of d uuid ≡ ok u → (d.parse_uuid uuid ≡ true) × (uuid ≡ u)
  uuid_of-cases uuid h = elim (Bool-cases (d.parse_uuid uuid)) [
    | inl e ↦ (e, ground arith)
    | inr e ↦ absurd (ground arith)
  ]

  matches_sound :
      (value key : Bytes) → did_document_matches_key d value key ≡ ok true → NamesKey value key
  unfolding did_document_matches_key
  matches_sound value key h =
      let (parts, split, h1) = >>=-eq-ok (record_parts value) _ h in
      let (doc, parsed, h2) = >>=-eq-ok (ok_or (d.from_slice parts.2) json) _ h1 in
      let (did, named, h3) =
        >>=-eq-ok (ok_or (d.as_str (d.field doc id_name)) (missing_field id_name)) _ h2 in
      let (uuid, stripped, h4) = >>=-eq-ok (ok_or (strip_prefix did_prefix did) invalid_did) _ h3 in
      let (uuid', formed, e) = >>=-eq-ok (uuid_of d uuid) _ h4 in
      let (well_formed, same) = uuid_of-cases uuid formed in
      let hashed : bytes_eq (d.digest uuid') key ≡ true = cc in
      record {
        alg = parts.0;
        sig = parts.1;
        document = parts.2;
        layout = (record_parts-IsLayout_iff value parts.0 parts.1 parts.2).0 split;
        doc = doc;
        parsed = ok_or-eq-ok (d.from_slice parts.2) json parsed;
        did = did;
        named = ok_or-eq-ok (d.as_str (d.field doc id_name)) (missing_field id_name) named;
        uuid = uuid;
        stripped = ok_or-eq-ok (strip_prefix did_prefix did) invalid_did stripped;
        well_formed = well_formed;
        hashed = ap d.digest same ∙ bytes_eq→≡ _ _ hashed;
      }

  matches_complete :
      (value key : Bytes) → NamesKey value key → did_document_matches_key d value key ≡ ok true
  unfolding did_document_matches_key
  matches_complete value key n =
      rw
        (
          (record_parts-IsLayout_iff value n.alg n.sig n.document).1 n.layout,
          n.parsed,
          n.named,
          n.stripped,
          n.well_formed,
          n.hashed,
          bytes_eq_refl key,
        )
        refl

  -- A record belongs to a key exactly if it is laid out as a record, its document is JSON, and the
  -- document's "id" is "did:iiot:" and a UUID whose digest is the key.
  pub did_document_matches_key-NamesKey_iff :
      (value key : Bytes) → (did_document_matches_key d value key ≡ ok true) ↔ NamesKey value key
  did_document_matches_key-NamesKey_iff value key =
      (matches_sound value key, matches_complete value key)
