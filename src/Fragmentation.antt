-- ===== src/Fragmentation.antt =====
-- src/fragmentation.rs: messages cut into KADF datagrams, and put together again. A socket address
-- is a type with a decidable equality; the `HashMap` of reassembly entries is an association list.
pub mod Wire
pub mod Entry
pub mod Reassembly
pub mod Delivery
pub mod Completion
pub mod Sweeping
pub mod Limits
pub mod Tests
use auth_kademlia_rs.Prelude.{
  ℕ, zero, suc, ◌+◌, ◌-◌, ◌*◌, ◌/◌, ◌%◌, ◌^◌, Bool, false, not, ◌&&◌, ◌||◌, Option, none, some,
  List, [], ◌∷◌, ◌++◌, map, ltb, leb, ◌==◌, if◌then◌else◌, holds, Bytes, length, get_elem?, set,
  take, drop, replicate, retain,
}
use auth_kademlia_rs.Prelude.Lists as Lists
use auth_kademlia_rs.Storage.{elapsed}

-- "KADF"
abbrev pub frag_magic : ℕ
frag_magic = 0x4B414446

abbrev pub frag_header_len : ℕ
frag_header_len = 12

abbrev pub frag_chunk_size : ℕ
frag_chunk_size = 1400

-- ten seconds, in nanoseconds
abbrev pub reassembly_ttl : ℕ
reassembly_ttl = 10_000_000_000

abbrev pub reassembly_gc_interval : ℕ
reassembly_gc_interval = 1_000_000_000

abbrev pub max_message_size : ℕ
max_message_size = 256 * 1024

abbrev pub max_reassembly_entries : ℕ
max_reassembly_entries = 64

abbrev pub max_reassembly_entries_per_peer : ℕ
max_reassembly_entries_per_peer = 8

pub record ReassemblyEntry : Type 0 where
  pub total : ℕ
  pub received : ℕ
  pub chunks : List (Option Bytes)
  pub created_at : ℕ

unfoldable pub new : ℕ → ℕ → ReassemblyEntry
new total now = record {
  total = total;
  received = 0;
  chunks = replicate total none;
  created_at = now;
}

-- The chunk is kept if its slot is empty.
unfoldable pub fill : ReassemblyEntry → ℕ → Bytes → Option Bytes → ReassemblyEntry
fill e idx payload none = record e {
  chunks = Lists.set e.chunks idx (some payload);
  received = e.received + 1;
}
fill e idx payload (some old) = e

-- The entry, and whether it is complete.
unfoldable pub insert : ReassemblyEntry → ℕ → Bytes → ReassemblyEntry × Bool
unfolding fill
insert e index payload = elim (get_elem? e.chunks index) [
  | none ↦ (e, false)
  | some slot ↦ let e' = fill e index payload slot in (e', e'.received == e'.total)
]

-- `out` with the chunks behind it; `none` at the first missing one.
unfoldable pub assemble_chunks : Bytes → List (Option Bytes) → Option Bytes
assemble_chunks out [] = some out
assemble_chunks out (none ∷ cs) = none
assemble_chunks out (some c ∷ cs) = assemble_chunks (out ++ c) cs

unfoldable pub assemble : ReassemblyEntry → Option Bytes
unfolding assemble_chunks
assemble e = assemble_chunks [] e.chunks

abbrev pub u32_be_bytes : ℕ → Bytes
u32_be_bytes n = n / 2 ^ 24 % 256 ∷ n / 2 ^ 16 % 256 ∷ n / 2 ^ 8 % 256 ∷ n % 256 ∷ []

abbrev pub u16_be_bytes : ℕ → Bytes
u16_be_bytes n = n / 2 ^ 8 % 256 ∷ n % 256 ∷ []

unfoldable pub datagram : ℕ → ℕ → ℕ → Bytes → Bytes
datagram frag_id index total chunk =
    u32_be_bytes frag_magic
    ++ (u32_be_bytes frag_id ++ (u16_be_bytes index ++ (u16_be_bytes total ++ chunk)))

-- `payload.chunks(FRAG_CHUNK_SIZE)`, on fuel: `length payload` rounds are enough.
unfoldable pub chunks_fuel : ℕ → Bytes → List Bytes
chunks_fuel zero payload = []
chunks_fuel (suc fuel) [] = []
chunks_fuel (suc fuel) (b ∷ rest) =
    take frag_chunk_size (b ∷ rest) ∷ chunks_fuel fuel (drop frag_chunk_size (b ∷ rest))

unfoldable pub chunks_of : Bytes → List Bytes
unfolding chunks_fuel
chunks_of payload = chunks_fuel (length payload) payload

-- the loop of `encode_fragments`; `i` is the counter of `enumerate`
unfoldable pub encode_chunks : ℕ → ℕ → ℕ → List Bytes → List Bytes
unfolding datagram
encode_chunks frag_id total i [] = []
encode_chunks frag_id total i (chunk ∷ rest) =
    datagram frag_id (i % 2 ^ 16) total chunk ∷ encode_chunks frag_id total (i + 1) rest

-- `payload.len().div_ceil(FRAG_CHUNK_SIZE) as u16`
abbrev pub total_of : Bytes → ℕ
total_of payload = (length payload + (frag_chunk_size - 1)) / frag_chunk_size % 2 ^ 16

unfoldable pub encode_fragments : ℕ → Bytes → List Bytes
unfolding datagram encode_chunks chunks_of
encode_fragments frag_id [] = datagram frag_id 0 1 [] ∷ []
encode_fragments frag_id (b ∷ rest) =
    encode_chunks frag_id (total_of (b ∷ rest)) 0 (chunks_of (b ∷ rest))

pub record FragHeader : Type 0 where
  pub frag_id : ℕ
  pub index : ℕ
  pub total : ℕ

-- A big-endian number of any width.
abbrev pub from_be_bytes : ℕ → Bytes → ℕ
from_be_bytes acc [] = acc
from_be_bytes acc (b ∷ bs) = from_be_bytes (acc * 256 + b) bs

abbrev pub field_at : ℕ → ℕ → Bytes → ℕ
field_at from to packet = from_be_bytes 0 (take (to - from) (drop from packet))

unfoldable pub parse_fragment : Bytes → Option (FragHeader × Bytes)
parse_fragment packet =
    if not (
      leb frag_header_len (length packet)
      && leb (length packet) (frag_header_len + frag_chunk_size))
    then none
    else if not (field_at 0 4 packet == frag_magic)
    then none
    else if field_at 10 12 packet == 0 || leb (field_at 10 12 packet) (field_at 8 10 packet)
    then none
    else some (
      record {
        frag_id = field_at 4 8 packet;
        index = field_at 8 10 packet;
        total = field_at 10 12 packet;
      },
      drop frag_header_len packet,
    )

-- The map of the messages in reassembly, by the peer and the fragment id.
module _ {Peer : Type 0} (dec : Discrete Peer) where
  abbrev pub ReassemblyMap : Type 0
  ReassemblyMap = List ((Peer × ℕ) × ReassemblyEntry)

  abbrev pub is_key : Peer → ℕ → (Peer × ℕ) × ReassemblyEntry → Bool
  is_key peer id ((p, i), e) = holds (dec peer p) && i == id

  abbrev pub is_from : Peer → (Peer × ℕ) × ReassemblyEntry → Bool
  is_from peer ((p, i), e) = holds (dec peer p)

  unfoldable pub get_entry : Peer → ℕ → ReassemblyMap → Option ReassemblyEntry
  get_entry peer id [] = none
  get_entry peer id (b ∷ map) = if is_key peer id b then some b.1 else get_entry peer id map

  unfoldable pub remove_entry : Peer → ℕ → ReassemblyMap → ReassemblyMap
  remove_entry peer id [] = []
  remove_entry peer id (b ∷ map) =
      if is_key peer id b then remove_entry peer id map else b ∷ remove_entry peer id map

  -- what a `get_mut` leaves behind
  unfoldable pub put_entry : Peer → ℕ → ReassemblyEntry → ReassemblyMap → ReassemblyMap
  put_entry peer id e [] = []
  put_entry peer id e (b ∷ map) =
      if is_key peer id b then ((peer, id), e) ∷ map else b ∷ put_entry peer id e map

  unfoldable pub peer_entries : Peer → ReassemblyMap → ℕ
  peer_entries peer map = length (retain (is_from peer) map)

  -- A first fragment opens an entry, unless a limit is reached: then `none`.
  unfoldable pub open_entry : ℕ → ReassemblyMap → Peer → FragHeader → Option ReassemblyMap
  unfolding new get_entry peer_entries
  open_entry now map peer header = elim (get_entry peer header.frag_id map) [
    | some e ↦ some map
    | none ↦
        if leb max_reassembly_entries (length map)
        then none
        else if leb max_reassembly_entries_per_peer (peer_entries peer map)
        then none
        else some (((peer, header.frag_id), new header.total now) ∷ map)
  ]

  -- A complete entry leaves the map, and its message is the result.
  unfoldable pub finish :
      ReassemblyMap → Peer → ℕ → ReassemblyEntry × Bool → ReassemblyMap × Option Bytes
  unfolding assemble
  finish map peer id (e, complete) =
      if complete then (remove_entry peer id map, assemble e) else (put_entry peer id e map, none)

  unfoldable pub add_chunk :
      ReassemblyMap → Peer → FragHeader → Bytes → ReassemblyMap × Option Bytes
  unfolding get_entry insert finish remove_entry put_entry
  add_chunk map peer header chunk = elim (get_entry peer header.frag_id map) [
    | none ↦ (map, none)
    | some e ↦
        if not (e.total == header.total)
        then (remove_entry peer header.frag_id map, none)
        else finish map peer header.frag_id (insert e header.index chunk)
  ]

  unfoldable pub accept_fragment :
      ℕ → ReassemblyMap → Peer → FragHeader → Bytes → ReassemblyMap × Option Bytes
  unfolding open_entry add_chunk
  accept_fragment now map peer header chunk = elim (open_entry now map peer header) [
    | none ↦ (map, none)
    | some opened ↦ add_chunk opened peer header chunk
  ]

  -- One fragment that came in, and the instant.
  pub record Arrival : Type 0 where
    pub now : ℕ
    pub peer : Peer
    pub header : FragHeader
    pub chunk : Bytes

  -- The sweep of `gc_reassembly`, with the instant of the last one.
  unfoldable pub expire : ℕ → ReassemblyMap → ReassemblyMap
  expire now m = retain (λ e. ltb (elapsed now e.1.created_at) reassembly_ttl) m

  unfoldable pub sweep : ℕ → ℕ → ReassemblyMap → ℕ × ReassemblyMap
  unfolding expire
  sweep now last_gc m =
      if ltb (elapsed now last_gc) reassembly_gc_interval then (last_gc, m) else (now, expire now m)

  -- The messages that come out of a sequence of fragments, with the fragment that completed each,
  -- where no entry expires.
  unfoldable pub messages : ReassemblyMap → List Arrival → List (Arrival × Bytes)
  messages m [] = []
  messages m (a ∷ rest) =
      let r = accept_fragment a.now m a.peer a.header a.chunk in
      let others = messages r.0 rest in
      elim r.1 [ none ↦ others | some payload ↦ (a, payload) ∷ others ]

  -- Those of the same sequence where expired entries are swept as `handle_datagram` has it.
  unfoldable pub swept_messages : ℕ → ReassemblyMap → List Arrival → List (Arrival × Bytes)
  unfolding sweep accept_fragment
  swept_messages last_gc m [] = []
  swept_messages last_gc m (a ∷ rest) =
      let swept = sweep a.now last_gc m in
      let r = accept_fragment a.now swept.1 a.peer a.header a.chunk in
      let others = swept_messages swept.0 r.0 rest in
      elim r.1 [ none ↦ others | some payload ↦ (a, payload) ∷ others ]
