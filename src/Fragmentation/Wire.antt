-- ===== src/Fragmentation/Wire.antt =====
-- src/fragmentation.rs: the wire format. What `encode_fragments` writes, `parse_fragment` reads.
use mathlib.Core.Option.{some-injective}
use mathlib.Core.List.{flatten}
use native.Mathlib.Nat.{zero-add}
use auth_kademlia_rs.Prelude.{
  ℕ, zero, suc, ◌+◌, ◌*◌, ◌/◌, ◌^◌, ◌≤◌, ◌<◌, ◌≡◌, refl, sym, ap, ◌∙◌, some, List, [], ◌∷◌, ◌++◌,
  arith, Bytes, length, get_elem?, take, drop, All, length-take, length-drop, take-append-drop,
}
use auth_kademlia_rs.Fragmentation.{
  frag_chunk_size, datagram, chunks_fuel, chunks_of, encode_chunks, total_of, encode_fragments,
  parse_fragment,
}

-- A datagram whose fields fit is read back as it was written.
pub parse_fragment-datagram :
    (frag_id index total : ℕ) (chunk : Bytes)
    → frag_id < 2 ^ 32
    → index < total
    → total < 2 ^ 16
    → length chunk ≤ frag_chunk_size
    → parse_fragment (datagram frag_id index total chunk)
      ≡ some (record { frag_id = frag_id; index = index; total = total }, chunk)
unfolding parse_fragment datagram
parse_fragment-datagram frag_id index total chunk p q r h = ground arith

chunks_fuel-flatten :
    (fuel : ℕ) (xs : Bytes) → length xs ≤ fuel → flatten (chunks_fuel fuel xs) ≡ xs
unfolding chunks_fuel flatten
chunks_fuel-flatten zero [] h = refl
chunks_fuel-flatten zero (b ∷ xs) h = absurd (omega arith)
chunks_fuel-flatten (suc fuel) [] h = refl
chunks_fuel-flatten (suc fuel) (b ∷ xs) h =
    ap (λ ys. take frag_chunk_size (b ∷ xs) ++ ys)
      (chunks_fuel-flatten fuel (drop frag_chunk_size (b ∷ xs))
        (omega (arith, length-drop frag_chunk_size (b ∷ xs))))
    ∙ take-append-drop frag_chunk_size (b ∷ xs)

-- The chunks of a payload, joined, are the payload.
pub flatten-chunks_of : (payload : Bytes) → flatten (chunks_of payload) ≡ payload
unfolding chunks_of
flatten-chunks_of payload = chunks_fuel-flatten (length payload) payload (omega arith)

length-chunks_fuel :
    (fuel : ℕ) (xs : Bytes)
    → length xs ≤ fuel
    → length (chunks_fuel fuel xs) ≡ (length xs + 1399) / 1400
unfolding chunks_fuel
length-chunks_fuel zero [] h = refl
length-chunks_fuel zero (b ∷ xs) h = absurd (omega arith)
length-chunks_fuel (suc fuel) [] h = refl
length-chunks_fuel (suc fuel) (b ∷ xs) h = omega (
  arith,
  length-drop frag_chunk_size (b ∷ xs),
  length-chunks_fuel fuel (drop frag_chunk_size (b ∷ xs))
      (omega (arith, length-drop frag_chunk_size (b ∷ xs))),
)

-- A message of at most 65535 chunks has as many chunks as its datagrams announce.
pub length-chunks_of :
    (payload : Bytes)
    → length payload ≤ 65535 * 1400
    → length (chunks_of payload) ≡ total_of payload
unfolding chunks_of
length-chunks_of payload h =
    omega (arith, length-chunks_fuel (length payload) payload (omega arith))

chunks_fuel-short :
    (fuel : ℕ) (xs : Bytes) → All (λ c. length c ≤ frag_chunk_size) (chunks_fuel fuel xs)
unfolding chunks_fuel
chunks_fuel-short zero xs = tt
chunks_fuel-short (suc fuel) [] = tt
chunks_fuel-short (suc fuel) (b ∷ xs) = (
  omega (arith, length-take frag_chunk_size (b ∷ xs)),
  chunks_fuel-short fuel (drop frag_chunk_size (b ∷ xs)),
)

-- The datagram at a place carries the chunk at that place.
encode_chunks-get :
    (frag_id total i k : ℕ) (cs : List Bytes) (d : Bytes)
    → frag_id < 2 ^ 32
    → total < 2 ^ 16
    → i + length cs ≤ total
    → All (λ c. length c ≤ frag_chunk_size) cs
    → get_elem? (encode_chunks frag_id total i cs) k ≡ some d
    → (c : Bytes) × (get_elem? cs k ≡ some c)
      × (parse_fragment d ≡ some (record { frag_id = frag_id; index = i + k; total = total }, c))
unfolding encode_chunks
encode_chunks-get frag_id total i k [] d p q n s e = cc
encode_chunks-get frag_id total i zero (c ∷ cs) d p q n s e =
    (c, refl, ground (arith, parse_fragment-datagram frag_id i total c p (omega arith) q s.0))
encode_chunks-get frag_id total i (suc k) (c ∷ cs) d p q n s e =
    let (c', at, parsed) = encode_chunks-get frag_id total (i + 1) k cs d p q (omega arith) s.1 e in
    (
      c',
      at,
      parsed
          ∙ ap (λ j. some (record { frag_id = frag_id; index = j; total = total }, c'))
              (omega arith),
    )

length-encode_chunks :
    (frag_id total i : ℕ) (cs : List Bytes) → length (encode_chunks frag_id total i cs) ≡ length cs
unfolding encode_chunks
length-encode_chunks frag_id total i [] = refl
length-encode_chunks frag_id total i (c ∷ cs) =
    ap suc (length-encode_chunks frag_id total (i + 1) cs)

-- The datagrams carry the chunks, each at its place.
abbrev pub AreCarried : ℕ → List Bytes → List Bytes → Type 0
AreCarried frag_id cs ds =
    (k : ℕ) (d : Bytes)
    → get_elem? ds k ≡ some d
    → (c : Bytes) × (get_elem? cs k ≡ some c)
      × (parse_fragment d ≡ some (record { frag_id = frag_id; index = k; total = length cs }, c))

-- `cs` are chunks of the payload, at least one, and there is a datagram for each, that carries it.
abbrev pub IsEncoded : ℕ → Bytes → List Bytes → List Bytes → Type 0
IsEncoded frag_id payload cs ds =
    (flatten cs ≡ payload)
    × (1 ≤ length cs)
    × All (λ c. length c ≤ frag_chunk_size) cs
    × (length ds ≡ length cs)
    × AreCarried frag_id cs ds

some_carried :
    (frag_id b : ℕ) (rest : Bytes)
    → frag_id < 2 ^ 32
    → length (b ∷ rest) ≤ 65535 * 1400
    → AreCarried frag_id (chunks_of (b ∷ rest)) (encode_fragments frag_id (b ∷ rest))
unfolding encode_fragments
some_carried frag_id b rest p h k d e = rw (length-chunks_of (b ∷ rest) h) (
    rw zero-add at (
      encode_chunks-get frag_id (total_of (b ∷ rest)) 0 k (chunks_of (b ∷ rest)) d p (omega arith)
        (omega (arith, length-chunks_of (b ∷ rest) h)) (short (b ∷ rest)) e))
  where
    short : (xs : Bytes) → All (λ c. length c ≤ frag_chunk_size) (chunks_of xs)
    short xs = chunks_fuel-short (length xs) xs

one_carried :
    (frag_id : ℕ) → frag_id < 2 ^ 32 → AreCarried frag_id ([] ∷ []) (datagram frag_id 0 1 [] ∷ [])
one_carried frag_id p zero d e = (
  [],
  refl,
  ap parse_fragment (sym (some-injective _ _ e))
      ∙ parse_fragment-datagram frag_id 0 1 [] p (omega arith) (omega arith) (omega arith),
)
one_carried frag_id p (suc k) d e = absurd (cc)

-- A payload of at most 65535 times 1400 bytes, also an empty one, is cut into at least one chunk of
-- at most 1400 bytes; there are as many datagrams as chunks, and `parse_fragment` reads each back
-- with the message's id, its own place, the number of chunks, and the chunk at its place.
pub parse_fragment-encode_fragments :
    (frag_id : ℕ) (payload : Bytes)
    → frag_id < 2 ^ 32
    → length payload ≤ 65535 * 1400
    → (cs : List Bytes) × IsEncoded frag_id payload cs (encode_fragments frag_id payload)
unfolding encode_fragments chunks_of flatten
parse_fragment-encode_fragments frag_id [] p h =
    ([] ∷ [], (refl, omega arith, (omega arith, tt), refl, one_carried frag_id p))
parse_fragment-encode_fragments frag_id (b ∷ rest) p h =
    let n = length-chunks_fuel (length (b ∷ rest)) (b ∷ rest) (omega arith) in
    (
      chunks_of (b ∷ rest),
      (
        flatten-chunks_of (b ∷ rest),
        omega (arith, n),
        chunks_fuel-short (length (b ∷ rest)) (b ∷ rest),
        length-encode_chunks frag_id (total_of (b ∷ rest)) 0 (chunks_of (b ∷ rest)),
        some_carried frag_id b rest p h,
      ),
    )
