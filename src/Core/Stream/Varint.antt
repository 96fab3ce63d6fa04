-- ===== src/Core/Stream/Varint.antt =====
-- Lengths of variable size, and texts behind their length.
use avalon_miner.Prelude.{
  ℕ, ◌+◌, ◌%◌, ◌^◌, ◌≤◌, ◌<◌, ◌≡◌, refl, ap, subst, ◌∙◌, true, false, List, [], ◌∷◌, ◌++◌, arith,
  ltb, leb, if◌then◌else◌, length, get_or, inl, inr, Bool-cases,
}
use mathlib.Core.List.{append_assoc}
use avalon_miner.Prelude.Bytes.{
  IsU16, IsU32, IsU64, le_bytes16, le_bytes32, le_bytes64, read16, read32, read64, join16-bytes,
  join32-bytes, join64-bytes,
}
use avalon_miner.Core.Stream.{
  ReadStream, Outcome, ok, stream_error, ◌>>=◌, advance, read_u8, read_u16_le, read_u32_le,
  read_u64_le, varint_tail, read_varint, string_body, read_string, write_u8, write_u16_le,
  write_u32_le, write_u64_le, write_varint, write_string, varint_size,
}
use avalon_miner.Core.Stream.Position.{IsAt, Reads, read_at_lem, read_bytes_lem}

advance-advance : (m n : ℕ) (s : ReadStream) → advance n (advance m s) ≡ advance (m + n) s
unfolding advance
advance-advance m n s = λ i. record {
  bytes = s.bytes;
  pos =
      (let e : ((s.pos + m) % 2 ^ 64 + n) % 2 ^ 64 ≡ (s.pos + (m + n)) % 2 ^ 64 = omega arith in e)
        i;
}

-- A read after a read.
bind-Reads :
    {A B : Type 0} (m : ReadStream → Outcome A) (f : A → ReadStream → Outcome B) (s : ReadStream)
    (a : A) (b : B) (j k : ℕ) (rest : List ℕ)
    → m s ≡ ok a (advance j s)
    → Reads (f a (advance j s)) b k (advance j s) rest
    → Reads ((m >>= f) s) b (j + k) s rest
bind-Reads m f s a b j k rest first next = (
  rw (◌>>=◌, first, next.0) (ap (ok b) (advance-advance j k s)),
  subst (λ (t : ReadStream). IsAt t rest) (advance-advance j k s) (next.1),
)

module _ (s : ReadStream) (rest : List ℕ) where
  first_byte : (b : ℕ) (tail : List ℕ) → IsAt s (b ∷ tail) → Reads (read_u8 s) b 1 s tail
  unfolding read_u8
  first_byte b tail h = read_at_lem s (b ∷ []) tail 1 refl h (λ ptr. get_or ptr 0 0)

  read_u16_le_lem :
      (v : ℕ) → IsU16 v → IsAt s (le_bytes16 v ++ rest) → Reads (read_u16_le s) v 2 s rest
  unfolding read_u16_le
  read_u16_le_lem v fits h =
      let (value, there) = read_at_lem s (le_bytes16 v) rest 2 refl h (λ ptr. read16 ptr) in
      (value ∙ ap (λ (x : ℕ). ok x (advance 2 s)) (join16-bytes v fits), there)

  read_u32_le_lem :
      (v : ℕ) → IsU32 v → IsAt s (le_bytes32 v ++ rest) → Reads (read_u32_le s) v 4 s rest
  unfolding read_u32_le
  read_u32_le_lem v fits h =
      let (value, there) = read_at_lem s (le_bytes32 v) rest 4 refl h (λ ptr. read32 ptr) in
      (value ∙ ap (λ (x : ℕ). ok x (advance 4 s)) (join32-bytes v fits), there)

  read_u64_le_lem :
      (v : ℕ) → IsU64 v → IsAt s (le_bytes64 v ++ rest) → Reads (read_u64_le s) v 8 s rest
  unfolding read_u64_le
  read_u64_le_lem v fits h =
      let (value, there) = read_at_lem s (le_bytes64 v) rest 8 refl h (λ ptr. read64 ptr) in
      (value ∙ ap (λ (x : ℕ). ok x (advance 8 s)) (join64-bytes v fits), there)

-- The bytes of a length, by its size.
varint_bytes : ℕ → List ℕ
varint_bytes v =
    if ltb v 0xfd
    then v ∷ []
    else (if leb v 0xffff
        then 0xfd ∷ le_bytes16 v
        else (if leb v 0xffffffff then 0xfe ∷ le_bytes32 v else 0xff ∷ le_bytes64 v))

-- The four sizes.
data Size (v : ℕ) : Type 0 where
  one : ltb v 0xfd ≡ true → Size v
  three : ltb v 0xfd ≡ false → leb v 0xffff ≡ true → Size v
  five : ltb v 0xfd ≡ false → leb v 0xffff ≡ false → leb v 0xffffffff ≡ true → Size v
  nine : ltb v 0xfd ≡ false → leb v 0xffff ≡ false → leb v 0xffffffff ≡ false → Size v

size_of : (v : ℕ) → Size v
size_of v = elim (Bool-cases (ltb v 0xfd)) [
  | inl t ↦ one t
  | inr f ↦ elim (Bool-cases (leb v 0xffff)) [
    | inl t ↦ three f t
    | inr g ↦ elim (Bool-cases (leb v 0xffffffff)) [ inl t ↦ five f g t | inr h ↦ nine f g h ]
  ]
]

write_varint-varint_bytes : (w : List ℕ) (v : ℕ) → write_varint w v ≡ w ++ varint_bytes v
unfolding write_varint varint_bytes write_u8 write_u16_le write_u32_le write_u64_le
write_varint-varint_bytes w v = elim (size_of v) [
  | one t ↦ let e : v % 256 ≡ v = ground arith in rw t (ap (λ (x : ℕ). w ++ (x ∷ [])) e)
  | three f t ↦
      let e : v % 2 ^ 16 ≡ v = ground arith in
      rw (f, t)
        (append_assoc w (0xfd ∷ []) (le_bytes16 (v % 2 ^ 16))
          ∙ ap (λ (x : ℕ). w ++ (0xfd ∷ le_bytes16 x)) e)
  | five f g t ↦
      let e : v % 2 ^ 32 ≡ v = ground arith in
      rw (f, g, t)
        (append_assoc w (0xfe ∷ []) (le_bytes32 (v % 2 ^ 32))
          ∙ ap (λ (x : ℕ). w ++ (0xfe ∷ le_bytes32 x)) e)
  | nine f g h ↦ rw (f, g, h) (append_assoc w (0xff ∷ []) (le_bytes64 v))
]

read_one :
    (s : ReadStream) (v : ℕ) (rest : List ℕ)
    → ltb v 0xfd ≡ true
    → IsAt s (v ∷ rest)
    → Reads (read_varint s) v 1 s rest
unfolding read_varint varint_tail
read_one s v rest small h =
    let first = first_byte s rest v rest h in (rw (◌>>=◌, first.0, small) refl, first.1)

module _ (s : ReadStream) (v : ℕ) (rest : List ℕ) where
  read_three : IsU16 v → IsAt s (0xfd ∷ (le_bytes16 v ++ rest)) → Reads (read_varint s) v 3 s rest
  unfolding read_varint varint_tail
  read_three fits h =
      let first = first_byte s rest 0xfd (le_bytes16 v ++ rest) h in
      bind-Reads read_u8 varint_tail s 0xfd v 1 2 rest first.0
        (read_u16_le_lem (advance 1 s) rest v fits first.1)

  read_five : IsU32 v → IsAt s (0xfe ∷ (le_bytes32 v ++ rest)) → Reads (read_varint s) v 5 s rest
  unfolding read_varint varint_tail
  read_five fits h =
      let first = first_byte s rest 0xfe (le_bytes32 v ++ rest) h in
      bind-Reads read_u8 varint_tail s 0xfe v 1 4 rest first.0
        (read_u32_le_lem (advance 1 s) rest v fits first.1)

  read_nine : IsU64 v → IsAt s (0xff ∷ (le_bytes64 v ++ rest)) → Reads (read_varint s) v 9 s rest
  unfolding read_varint varint_tail
  read_nine fits h =
      let first = first_byte s rest 0xff (le_bytes64 v ++ rest) h in
      bind-Reads read_u8 varint_tail s 0xff v 1 8 rest first.0
        (read_u64_le_lem (advance 1 s) rest v fits first.1)

read_varint_lem :
    (s : ReadStream) (v : ℕ) (rest : List ℕ)
    → IsU64 v
    → IsAt s (varint_bytes v ++ rest)
    → Reads (read_varint s) v (varint_size v) s rest
unfolding varint_bytes varint_size
read_varint_lem s v rest fits h = elim (size_of v) [
  | one t ↦ rw t (read_one s v rest t (rw t at h))
  | three f t ↦ rw (f, t) (read_three s v rest (ground arith) (rw (f, t) at h))
  | five f g t ↦ rw (f, g, t) (read_five s v rest (ground arith) (rw (f, g, t) at h))
  | nine f g k ↦ rw (f, g, k) (read_nine s v rest fits (rw (f, g, k) at h))
]

length-varint_bytes : (v : ℕ) → length (varint_bytes v) ≡ varint_size v
unfolding varint_bytes varint_size
length-varint_bytes v = ground arith

-- A 64-bit number that is written is read back, and the position then stands behind it: it takes
-- varint_size bytes.
pub read_varint-write_varint :
    (s : ReadStream) (v : ℕ) (rest : List ℕ)
    → IsU64 v
    → IsAt s (write_varint [] v ++ rest)
    → Reads (read_varint s) v (varint_size v) s rest
read_varint-write_varint s v rest fits h =
    read_varint_lem s v rest fits
      (subst (λ (w : List ℕ). IsAt s (w ++ rest)) (write_varint-varint_bytes [] v) (h))

string_body_lem :
    (s : ReadStream) (str rest : List ℕ)
    → length str ≤ 10000000
    → IsAt s (str ++ rest)
    → Reads (string_body (length str) s) str (length str) s rest
unfolding string_body
string_body_lem s str rest short h =
    let fits : ltb 10000000 (length str) ≡ false = ground arith in
    rw fits (read_bytes_lem s str rest (length str) refl h)

behind_length :
    (s : ReadStream) (str rest : List ℕ)
    → IsAt s (write_string [] str ++ rest)
    → IsAt s (varint_bytes (length str) ++ (str ++ rest))
unfolding write_string
behind_length s str rest h =
    subst (IsAt s)
      (ap (λ (w : List ℕ). (w ++ str) ++ rest) (write_varint-varint_bytes [] (length str))
        ∙ append_assoc (varint_bytes (length str)) str rest)
      (h)

too_long :
    (str : List ℕ) (s : ReadStream)
    → 10000000 < length str
    → string_body (length str) s ≡ stream_error
unfolding string_body
too_long str s long =
    let refused : ltb 10000000 (length str) ≡ true = ground arith in rw refused refl

-- A text that is written is read back if it has at most ten million bytes, and the position then
-- stands behind it; a longer one is refused.
pub read_string-write_string :
    (s : ReadStream) (str rest : List ℕ)
    → IsU64 (length str)
    → IsAt s (write_string [] str ++ rest)
    → (length str ≤ 10000000
        → Reads (read_string s) str (varint_size (length str) + length str) s rest)
      × (10000000 < length str → read_string s ≡ stream_error)
unfolding read_string
read_string-write_string s str rest fits h =
    let first = read_varint_lem s (length str) (str ++ rest) fits (behind_length s str rest h) in
    (
      λ short.
          bind-Reads read_varint string_body s (length str) str (varint_size (length str))
            (length str) rest first.0
            (string_body_lem (advance (varint_size (length str)) s) str rest short first.1),
      λ long. rw (◌>>=◌, first.0) (too_long str (advance (varint_size (length str)) s) long),
    )
