-- ===== src/Auth/Layout.antt =====
-- src/auth_handler.rs: the bytes of a record and its parts determine each other.
use auth_kademlia_rs.Prelude.{
  ℕ, zero, suc, ◌+◌, ◌-◌, ◌≤◌, min, ◌≡◌, refl, sym, ap, subst, ◌∙◌, ◌↔◌, ◌⊎◌, inl, inr, false, not,
  [], ◌∷◌, ◌++◌, arith, ltb, ◌==◌, Bool-cases, Bytes, bytes_eq, length, take, drop, replicate, any,
  length-append, length-take, length-drop, length-replicate, take-append-drop,
}
use auth_kademlia_rs.Prelude.Unique.{bytes_eq→≡}
use auth_kademlia_rs.Prelude.Results.{ok, map_err, >>=-eq-ok, map_err-eq-ok}
use auth_kademlia_rs.Crypto.{resolve_alg_and_length, rsa_name, ed25519_name, dilithium_level_name}
use auth_kademlia_rs.Crypto.Text.{from_utf8, utf8_from, after_lead}
use auth_kademlia_rs.Auth.{
  until_zero, from_zero, get_alg_string, extract_sig_and_data, record_parts, crypto,
}

-- The 12 bytes of an algorithm's name.
abbrev pub pad : Bytes → Bytes
pad alg = alg ++ replicate (12 - length alg) 0

-- The bytes of a record with these parts.
pub record IsLayout (value alg sig document : Bytes) : Type 0 where
  pub base : Bytes
  pub sig_len : ℕ
  pub known : resolve_alg_and_length alg ≡ ok (base, sig_len)
  pub size : length sig ≡ sig_len
  pub bytes : value ≡ pad alg ++ (sig ++ document)

abbrev pub HasHeader : Bytes → Type 0
HasHeader alg = (rest : Bytes) → get_alg_string (pad alg ++ rest) ≡ ok alg

header_cases :
    (alg : Bytes) {r : Bytes × ℕ}
    → resolve_alg_and_length alg ≡ ok r
    → (alg ≡ rsa_name)
      ⊎ ((alg ≡ ed25519_name)
          ⊎ ((alg ≡ dilithium_level_name 50)
              ⊎ ((alg ≡ dilithium_level_name 51) ⊎ (alg ≡ dilithium_level_name 53))))
unfolding resolve_alg_and_length
header_cases alg h = elim (Bool-cases (bytes_eq alg rsa_name)) [
  | inl e ↦ inl (bytes_eq→≡ _ _ e)
  | inr e ↦ elim (Bool-cases (bytes_eq alg ed25519_name)) [
    | inl f ↦ inr (inl (bytes_eq→≡ _ _ f))
    | inr f ↦ elim (Bool-cases (bytes_eq alg (dilithium_level_name 50))) [
      | inl g ↦ inr (inr (inl (bytes_eq→≡ _ _ g)))
      | inr g ↦ elim (Bool-cases (bytes_eq alg (dilithium_level_name 51))) [
        | inl i ↦ inr (inr (inr (inl (bytes_eq→≡ _ _ i))))
        | inr i ↦ elim (Bool-cases (bytes_eq alg (dilithium_level_name 53))) [
          | inl j ↦ inr (inr (inr (inr (bytes_eq→≡ _ _ j))))
          | inr j ↦ absurd (ground arith)
        ]
      ]
    ]
  ]
]

get_alg_string-pad :
    (alg : Bytes) {r : Bytes × ℕ} → resolve_alg_and_length alg ≡ ok r → HasHeader alg
unfolding get_alg_string until_zero from_zero from_utf8 utf8_from after_lead
get_alg_string-pad alg h rest = elim (header_cases alg h) [
  | inl e ↦ rw e (ground arith)
  | inr (inl e) ↦ rw e (ground arith)
  | inr (inr (inl e)) ↦ rw e (ground arith)
  | inr (inr (inr (inl e))) ↦ rw e (ground arith)
  | inr (inr (inr (inr e))) ↦ rw e (ground arith)
]

until_zero-from_zero : (l : Bytes) → until_zero l ++ from_zero l ≡ l
unfolding until_zero from_zero
until_zero-from_zero [] = refl
until_zero-from_zero (b ∷ l) = ground (arith, until_zero-from_zero l)

zeros_lem : (l : Bytes) → any (λ byte. not (byte == 0)) l ≡ false → l ≡ replicate (length l) 0
zeros_lem [] h = refl
zeros_lem (b ∷ l) h = ground (arith, zeros_lem l)

length-pad : (alg : Bytes) → length alg ≤ 12 → length (pad alg) ≡ 12
length-pad alg h =
    let z : ℕ = 0 in
    ground (
      arith,
      length-append alg (replicate (12 - length alg) z),
      length-replicate (12 - length alg) z,
    )

take-append : (xs ys : Bytes) → take (length xs) (xs ++ ys) ≡ xs
take-append [] [] = refl
take-append [] (y ∷ ys) = refl
take-append (x ∷ xs) ys = ap (λ l. x ∷ l) (take-append xs ys)

drop-append : (xs ys : Bytes) → drop (length xs) (xs ++ ys) ≡ ys
drop-append [] [] = refl
drop-append [] (y ∷ ys) = refl
drop-append (x ∷ xs) ys = drop-append xs ys

unary_add : (n : ℕ) → 0 + n ≡ n
unary_add n = omega arith

suc_unary : (m n : ℕ) → suc m + n ≡ suc (m + n)
suc_unary m n = omega arith

drop_add : (m n : ℕ) (l : Bytes) → drop n (drop m l) ≡ drop (m + n) l
drop_add zero n l = rw (unary_add n) refl
drop_add (suc m) zero [] = rw (suc_unary m 0) refl
drop_add (suc m) (suc n) [] = rw (suc_unary m (suc n)) refl
drop_add (suc m) n (x ∷ l) = rw (suc_unary m n) (drop_add m n l)

padded_lem :
    (l : Bytes)
    → any (λ byte. not (byte == 0)) (from_zero l) ≡ false
    → length l ≡ 12
    → l ≡ pad (until_zero l)
padded_lem l h e =
    let parts = until_zero-from_zero l in
    let zeros = zeros_lem (from_zero l) h in
    let size : length (until_zero l) + length (from_zero l) ≡ 12 =
      sym (length-append (until_zero l) (from_zero l)) ∙ ap length parts ∙ e in
    let left : length (from_zero l) ≡ 12 - length (until_zero l) = omega arith in
    sym parts ∙ ap (λ r. until_zero l ++ r) (zeros ∙ ap (λ k. replicate k 0) left)

not_short : (n : ℕ) → ltb n 12 ≡ false → min 12 n ≡ 12
not_short n h = ground arith

get_alg_string-eq-ok : (value alg : Bytes) → get_alg_string value ≡ ok alg → take 12 value ≡ pad alg
unfolding get_alg_string
get_alg_string-eq-ok value alg h = elim (Bool-cases (ltb (length value) 12)) [
  | inl short ↦ absurd (cc)
  | inr long ↦ elim (Bool-cases (any (λ byte. not (byte == 0)) (from_zero (take 12 value)))) [
    | inl dirty ↦ absurd (cc)
    | inr clean ↦ elim (Bool-cases (from_utf8 (until_zero (take 12 value)))) [
      | inl text ↦
          let whole : length (take 12 value) ≡ 12 =
            length-take 12 value ∙ not_short (length value) long in
          let name : until_zero (take 12 value) ≡ alg = cc in
          padded_lem (take 12 value) clean whole ∙ ap pad name
      | inr other ↦ absurd (cc)
    ]
  ]
]

extract_sig_and_data-eq-ok :
    (value : Bytes) (n : ℕ) (sig document : Bytes)
    → extract_sig_and_data value n ≡ ok (sig, document)
    → (drop 12 value ≡ sig ++ document) × (length sig ≡ n)
unfolding extract_sig_and_data
extract_sig_and_data-eq-ok value n sig document h = ground (
  arith,
  drop_add 12 n value,
  take-append-drop n (drop 12 value),
  length-take n (drop 12 value),
  length-drop 12 value,
)

record_parts-IsLayout :
    (value alg sig document : Bytes)
    → record_parts value ≡ ok (alg, sig, document)
    → IsLayout value alg sig document
unfolding record_parts
record_parts-IsLayout value alg sig document h =
    let (name, named, h') = >>=-eq-ok (get_alg_string value) _ h in
    let (resolved, known, h'') = >>=-eq-ok (map_err crypto (resolve_alg_and_length name)) _ h' in
    let (parts, split, e) = >>=-eq-ok (extract_sig_and_data value resolved.1) _ h'' in
    let same : name ≡ alg = cc in
    let same_sig : parts.0 ≡ sig = cc in
    let same_document : parts.1 ≡ document = cc in
    let (rest, size) = extract_sig_and_data-eq-ok value resolved.1 parts.0 parts.1 split in
    let header = get_alg_string-eq-ok value name named in
    record {
      base = resolved.0;
      sig_len = resolved.1;
      known =
          subst (λ a. resolve_alg_and_length a ≡ ok resolved) same
            (map_err-eq-ok crypto (resolve_alg_and_length name) known);
      size = sym (ap length same_sig) ∙ size;
      bytes =
          sym (take-append-drop 12 value)
          ∙ (ap (λ l. l ++ drop 12 value) header ∙ (ap (λ l. pad name ++ l) rest ∙ cc));
    }

length-known : (alg : Bytes) {r : Bytes × ℕ} → resolve_alg_and_length alg ≡ ok r → length alg ≤ 12
length-known alg h = elim (header_cases alg h) [
  | inl e ↦ rw e (omega arith)
  | inr (inl e) ↦ rw e (omega arith)
  | inr (inr (inl e)) ↦ rw e (omega arith)
  | inr (inr (inr (inl e))) ↦ rw e (omega arith)
  | inr (inr (inr (inr e))) ↦ rw e (omega arith)
]

extract_lem :
    (header sig document : Bytes)
    → length header ≡ 12
    → extract_sig_and_data (header ++ (sig ++ document)) (length sig) ≡ ok (sig, document)
unfolding extract_sig_and_data
extract_lem header sig document h =
    let after_header : drop 12 (header ++ (sig ++ document)) ≡ sig ++ document =
      subst (λ k. drop k (header ++ (sig ++ document)) ≡ sig ++ document) h
        (drop-append header (sig ++ document)) in
    let long : ltb (length (header ++ (sig ++ document))) (12 + length sig) ≡ false =
      ground (arith, length-append header (sig ++ document), length-append sig document) in
    rw
      (
        long,
        sym (drop_add 12 (length sig) (header ++ (sig ++ document))),
        after_header,
        take-append sig document,
        drop-append sig document,
      )
      refl

IsLayout-record_parts :
    (value alg sig document : Bytes)
    → IsLayout value alg sig document
    → record_parts value ≡ ok (alg, sig, document)
unfolding record_parts
IsLayout-record_parts value alg sig document i =
    rw
      (
        i.bytes,
        get_alg_string-pad alg i.known (sig ++ document),
        i.known,
        sym i.size,
        extract_lem (pad alg) sig document (length-pad alg (length-known alg i.known)),
      )
      refl

-- A record splits into an algorithm, a signature and a document exactly if it is the name of that
-- algorithm, one of the five that are known, padded with zeros to 12 bytes, then a signature of the
-- length that belongs to the name, then the document. So no two records have the same parts.
pub record_parts-IsLayout_iff :
    (value alg sig document : Bytes)
    → (record_parts value ≡ ok (alg, sig, document)) ↔ IsLayout value alg sig document
record_parts-IsLayout_iff value alg sig document =
    (record_parts-IsLayout value alg sig document, IsLayout-record_parts value alg sig document)
