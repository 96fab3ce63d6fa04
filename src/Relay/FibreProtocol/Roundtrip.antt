-- ===== src/Relay/FibreProtocol/Roundtrip.antt =====
-- Packets are read back from their bytes, and what the parser reads is a valid packet.
use avalon_miner.Prelude.{
  ℕ, ◌+◌, ◌≤◌, ◌≡◌, refl, ap, sym, ◌∙◌, inl, inr, true, false, List, ◌∷◌, ◌++◌, arith, ltb, ◌==◌,
  length, length-append, length-take, length-drop, get_or, take, drop, Bool-cases,
}
use avalon_miner.Prelude.Bytes.{IsU16, IsU32}
use avalon_miner.Prelude.Slices.{take-append, drop-append, drop-add}
use mathlib.Core.List.{append_assoc}
use avalon_miner.Relay.FibreProtocol.{
  FibreHeader, FibrePacket, fibre_magic, fibre_header_size, fibre_max_payload_size, read_be16,
  read_be32, write_be16, write_be32, is_valid, ParseError, Parsed, ok, err, read_header,
  parse_header, parse_payload, parse, write_header, serialize, packet_is_valid,
}
use avalon_miner.Relay.FibreProtocol.Words.{read_be16-write_be16, read_be32-write_be32}

-- What the C++ types of the fields say.
pub record IsFibreHeader (h : FibreHeader) : Type 0 where
  pub magic_fits : IsU32 h.magic
  pub chunk_id_fits : IsU16 h.chunk_id
  pub block_height_fits : IsU32 h.block_height
  pub block_hash_full : length h.block_hash ≡ 32
  pub total_chunks_fits : IsU16 h.total_chunks
  pub data_chunks_fits : IsU16 h.data_chunks
  pub payload_size_fits : IsU16 h.payload_size

module _ (h : FibreHeader) (rest : List ℕ) (w : IsFibreHeader h) where
  abbrev front : List ℕ
  front =
      write_be32 h.magic
      ++ ((h.version ∷ h.flags ∷ write_be16 h.chunk_id) ++ write_be32 h.block_height)

  abbrev back : List ℕ
  back = write_be16 h.total_chunks ++ (write_be16 h.data_chunks ++ write_be16 h.payload_size)

  laid_out : write_header h ++ rest ≡ front ++ (h.block_hash ++ (back ++ rest))
  unfolding write_header
  laid_out = ap (◌++◌ front) (append_assoc h.block_hash back rest)

  after_hash : (k : ℕ) → drop (44 + k) (write_header h ++ rest) ≡ drop k (back ++ rest)
  after_hash k =
      let e : 44 + k ≡ 12 + (32 + k) = omega arith in
      ap (λ (n : ℕ). drop n (write_header h ++ rest)) e
      ∙ ap (drop (12 + (32 + k))) laid_out
      ∙ drop-add 12 (32 + k) (front ++ (h.block_hash ++ (back ++ rest)))
      ∙ drop-add 32 k (h.block_hash ++ (back ++ rest))
      ∙ ap (drop k) (drop-append 32 h.block_hash (back ++ rest) w.block_hash_full)

  pub read_header-write_header : read_header (write_header h ++ rest) ≡ h
  unfolding read_header
  read_header-write_header = λ i. record {
    magic = (ap read_be32 laid_out ∙ read_be32-write_be32 h.magic _ w.magic_fits) i;
    version = ap (λ (l : List ℕ). get_or l 4 0) laid_out i;
    flags = ap (λ (l : List ℕ). get_or l 5 0) laid_out i;
    chunk_id =
        (ap (λ (l : List ℕ). read_be16 (drop 6 l)) laid_out
            ∙ read_be16-write_be16 h.chunk_id _ w.chunk_id_fits)
          i;
    block_height =
        (ap (λ (l : List ℕ). read_be32 (drop 8 l)) laid_out
            ∙ read_be32-write_be32 h.block_height _ w.block_height_fits)
          i;
    block_hash =
        (ap (λ (l : List ℕ). take 32 (drop 12 l)) laid_out
            ∙ take-append 32 h.block_hash (back ++ rest) w.block_hash_full)
          i;
    total_chunks =
        (ap read_be16 (after_hash 0) ∙ read_be16-write_be16 h.total_chunks _ w.total_chunks_fits) i;
    data_chunks =
        (ap read_be16 (after_hash 2) ∙ read_be16-write_be16 h.data_chunks _ w.data_chunks_fits) i;
    payload_size =
        (ap read_be16 (after_hash 4) ∙ read_be16-write_be16 h.payload_size _ w.payload_size_fits) i;
  }

  pub length-write_header : length (write_header h ++ rest) ≡ 50 + length rest
  length-write_header =
      let full = w.block_hash_full in
      ap length laid_out ∙ omega (arith, length-append h.block_hash (back ++ rest))

  after_header : drop 50 (write_header h ++ rest) ≡ rest
  after_header = after_hash 6

  pub magic_read : read_be32 (write_header h ++ rest) ≡ h.magic
  magic_read = ap read_be32 laid_out ∙ read_be32-write_be32 h.magic _ w.magic_fits

valid_magic : (h : FibreHeader) → is_valid h ≡ true → h.magic ≡ fibre_magic
unfolding is_valid
valid_magic h v = ground arith

valid_size : (h : FibreHeader) → is_valid h ≡ true → h.payload_size ≤ fibre_max_payload_size
unfolding is_valid
valid_size h v = ground arith

parse_header-write_header :
    (h : FibreHeader) (rest : List ℕ)
    → IsFibreHeader h
    → is_valid h ≡ true
    → parse_header (write_header h ++ rest) ≡ ok h
unfolding parse_header
parse_header-write_header h rest w v =
    let long : ltb (length (write_header h ++ rest)) fibre_header_size ≡ false =
      ground (arith, length-write_header h rest w) in
    let magic : (read_be32 (write_header h ++ rest) == fibre_magic) ≡ true =
      ground (arith, magic_read h rest w, valid_magic h v) in
    rw (long, magic, read_header-write_header h rest w, v) refl

parse_payload-serialize :
    (p : FibrePacket) (rest : List ℕ)
    → IsFibreHeader p.header
    → length p.payload ≡ p.header.payload_size
    → parse_payload (write_header p.header ++ (p.payload ++ rest)) p.header ≡ ok p
unfolding parse_payload
parse_payload-serialize p rest w size =
    let src : List ℕ = write_header p.header ++ (p.payload ++ rest) in
    let long : ltb (length src) (fibre_header_size + p.header.payload_size) ≡ false =
      ground
        (arith, length-write_header p.header (p.payload ++ rest) w, length-append p.payload rest) in
    let payload : take p.header.payload_size (drop fibre_header_size src) ≡ p.payload =
      ap (take p.header.payload_size) (after_header p.header (p.payload ++ rest) w)
      ∙ take-append p.header.payload_size p.payload rest size in
    rw long (λ i. ok (record { header = p.header; payload = payload i }))

parse-ok :
    (src : List ℕ) (h : FibreHeader) → parse_header src ≡ ok h → parse src ≡ parse_payload src h
unfolding parse
parse-ok src h e = rw (parse, e) refl

pub parse-err : (src : List ℕ) (x : ParseError) → parse_header src ≡ err x → parse src ≡ err x
unfolding parse
parse-err src x e = rw (parse, e) refl

-- A valid packet is read back from its bytes, whatever follows them.
pub parse-serialize :
    (p : FibrePacket) (rest : List ℕ)
    → IsFibreHeader p.header
    → packet_is_valid p ≡ true
    → parse (serialize p ++ rest) ≡ ok p
unfolding serialize packet_is_valid
parse-serialize p rest w v =
    let header : is_valid p.header ≡ true = ground arith in
    let size : length p.payload ≡ p.header.payload_size = ground arith in
    let src : List ℕ = write_header p.header ++ (p.payload ++ rest) in
    ap parse (append_assoc (write_header p.header) p.payload rest)
    ∙ parse-ok src p.header (parse_header-write_header p.header (p.payload ++ rest) w header)
    ∙ parse_payload-serialize p rest w size

parse_header-is_valid :
    (src : List ℕ) (h : FibreHeader) → parse_header src ≡ ok h → is_valid h ≡ true
unfolding parse_header
parse_header-is_valid src h e = elim (Bool-cases (is_valid (read_header src))) [
  | inl v ↦ let same : read_header src ≡ h = ground arith in rw (← same) v
  | inr f ↦ ground arith
]

parse_payload-size :
    (src : List ℕ) (h : FibreHeader) (p : FibrePacket)
    → parse_payload src h ≡ ok p
    → (p.header ≡ h) × (length p.payload ≡ h.payload_size)
unfolding parse_payload
parse_payload-size src h p e =
    let enough : fibre_header_size + h.payload_size ≤ length src = ground arith in
    let same : record { header = h; payload = take h.payload_size (drop fibre_header_size src) }
        ≡ p =
      ground arith in
    (
      sym (ap (λ (q : FibrePacket). q.header) same),
      ap (λ (q : FibrePacket). length q.payload) (sym same)
          ∙ omega (
            arith,
            length-take h.payload_size (drop fibre_header_size src),
            length-drop fibre_header_size src,
          ),
    )

checked :
    (p : FibrePacket) (h : FibreHeader)
    → p.header ≡ h
    → length p.payload ≡ h.payload_size
    → is_valid h ≡ true
    → (packet_is_valid p ≡ true) × (length p.payload ≤ fibre_max_payload_size)
unfolding packet_is_valid
checked p h e size v =
    let valid : is_valid p.header ≡ true = ap is_valid e ∙ v in
    let same : length p.payload ≡ p.header.payload_size =
      size ∙ sym (ap (λ (k : FibreHeader). k.payload_size) e) in
    (ground arith, omega (arith, valid_size p.header valid, same))

-- Whatever bytes come in, a packet that is read has a valid header and as many payload bytes as
-- the header says, of which there are at most 1450.
pub parse-packet_is_valid :
    (src : List ℕ) (p : FibrePacket)
    → parse src ≡ ok p
    → (packet_is_valid p ≡ true) × (length p.payload ≤ fibre_max_payload_size)
unfolding parse
parse-packet_is_valid src p e = by_header (parse_header src) refl e
  where
    by_header :
        (r : Parsed FibreHeader)
        → parse_header src ≡ r
        → (elim r [ ok header ↦ parse_payload src header | err e ↦ err e ]) ≡ ok p
        → (packet_is_valid p ≡ true) × (length p.payload ≤ fibre_max_payload_size)
    by_header (err x) found e = cc
    by_header (ok h) found e =
        let (header, size) = parse_payload-size src h p e in
        checked p h header size (parse_header-is_valid src h found)
