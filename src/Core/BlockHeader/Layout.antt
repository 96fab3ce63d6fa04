-- ===== src/Core/BlockHeader/Layout.antt =====
-- The 80 bytes of a header and the header are read off from one another.
use avalon_miner.Prelude.{
  ℕ, ◌+◌, ◌≤◌, ◌≡◌, ap, ap₂, sym, ◌∙◌, List, [], ◌++◌, arith, take, drop, length, length-append,
  length-drop, length-take, All, All-append, All-drop, All-take, take-append-drop,
}
use mathlib.Core.List.{append-nil}
use avalon_miner.Prelude.Bytes.{IsByte, IsU32, le_bytes32, read32, join32-bytes}
use avalon_miner.Prelude.Slices.{take-append, drop-append, drop-add, le_bytes32-read32, read32-lt}
use avalon_miner.Core.Uint256.{IsHash256}
use avalon_miner.Core.BlockHeader.{BlockHeader, IsBlockHeader, serialize, deserialize}

-- A word at the front of a sequence is read back, whatever follows.
pub read32-le_bytes32 : (x : ℕ) (rest : List ℕ) → IsU32 x → read32 (le_bytes32 x ++ rest) ≡ x
read32-le_bytes32 x rest h = join32-bytes x h

pub length-serialize : (h : BlockHeader) → IsBlockHeader h → length (serialize h) ≡ 80
unfolding serialize
length-serialize h w = omega (
  arith,
  length-append h.prev_hash
      (h.merkle_root ++ (le_bytes32 h.timestamp ++ (le_bytes32 h.bits ++ le_bytes32 h.nonce))),
  length-append h.merkle_root (le_bytes32 h.timestamp ++ (le_bytes32 h.bits ++ le_bytes32 h.nonce)),
  w.prev_hash_is.full,
  w.merkle_root_is.full,
)

pub serialize-bytes : (h : BlockHeader) → IsBlockHeader h → All IsByte (serialize h)
unfolding serialize
serialize-bytes h w = All-append IsByte (le_bytes32 h.version) _ (omega arith) (
    All-append IsByte h.prev_hash _ w.prev_hash_is.bytes
      (All-append IsByte h.merkle_root _ w.merkle_root_is.bytes (omega arith)))

module _ (h : BlockHeader) (w : IsBlockHeader h) where
  abbrev words : List ℕ
  words = le_bytes32 h.timestamp ++ (le_bytes32 h.bits ++ le_bytes32 h.nonce)

  after_prev : drop 36 (serialize h) ≡ h.merkle_root ++ words
  unfolding serialize
  after_prev = drop-append 32 h.prev_hash (h.merkle_root ++ words) w.prev_hash_is.full

  after_merkle : (k : ℕ) → drop (68 + k) (serialize h) ≡ drop k words
  after_merkle k =
      let e : 68 + k ≡ 36 + (32 + k) = omega arith in
      rw (e, drop-add 36 (32 + k) (serialize h), after_prev, drop-add 32 k (h.merkle_root ++ words))
        (ap (drop k) (drop-append 32 h.merkle_root words w.merkle_root_is.full))

  -- Reading the 80 bytes of a well-formed header gives the header back.
  pub deserialize-serialize : deserialize (serialize h) ≡ h
  unfolding deserialize serialize
  deserialize-serialize = λ i. record {
    version = join32-bytes h.version w.version_fits i;
    prev_hash = take-append 32 h.prev_hash (h.merkle_root ++ words) w.prev_hash_is.full i;
    merkle_root =
        (ap (take 32) after_prev ∙ take-append 32 h.merkle_root words w.merkle_root_is.full) i;
    timestamp = (ap read32 (after_merkle 0) ∙ join32-bytes h.timestamp w.timestamp_fits) i;
    bits = (ap read32 (after_merkle 4) ∙ join32-bytes h.bits w.bits_fits) i;
    nonce = (ap read32 (after_merkle 8) ∙ join32-bytes h.nonce w.nonce_fits) i;
  }

-- Any 80 bytes are the bytes of the header read from them, and that header is well formed.
module _ (src : List ℕ) (full : length src ≡ 80) (bytes : All IsByte src) where
  chunk : (m n : ℕ) → take n (drop m src) ++ drop (m + n) src ≡ drop m src
  chunk m n = rw (drop-add m n src) (take-append-drop n (drop m src))

  word_at : (m : ℕ) → m + 4 ≤ 80 → le_bytes32 (read32 (drop m src)) ≡ take 4 (drop m src)
  word_at m h =
      le_bytes32-read32 (drop m src) (All-drop IsByte m src bytes)
        (omega (arith, length-drop m src))

  word_fits : (m : ℕ) → m + 4 ≤ 80 → IsU32 (read32 (drop m src))
  word_fits m h =
      read32-lt (drop m src) (All-drop IsByte m src bytes) (omega (arith, length-drop m src))

  hash_at : (m : ℕ) → m + 32 ≤ 80 → IsHash256 (take 32 (drop m src))
  hash_at m h = record {
    full = omega (arith, length-take 32 (drop m src), length-drop m src);
    bytes = All-take IsByte 32 (drop m src) (All-drop IsByte m src bytes);
  }

  last_word : le_bytes32 (read32 (drop 76 src)) ≡ drop 76 src
  last_word = word_at 76 (omega arith) ∙ take_all (drop 76 src) (omega (arith, length-drop 76 src))
    where
      take_all : (xs : List ℕ) → length xs ≡ 4 → take 4 xs ≡ xs
      take_all xs e = ap (λ (ys : List ℕ). take 4 ys) (sym (append-nil xs)) ∙ take-append 4 xs [] e

  -- Any 80 bytes are the bytes of the header that is read from them.
  pub serialize-deserialize : serialize (deserialize src) ≡ src
  unfolding serialize deserialize
  serialize-deserialize =
      ap₂ ◌++◌ (word_at 0 (omega arith)) (
        ap (◌++◌ (take 32 (drop 4 src))) (
          ap (◌++◌ (take 32 (drop 36 src))) (
            ap₂ ◌++◌ (word_at 68 (omega arith))
              (ap₂ ◌++◌ (word_at 72 (omega arith)) last_word ∙ chunk 72 4)
            ∙ chunk 68 4)
          ∙ chunk 36 32)
        ∙ chunk 4 32)
      ∙ chunk 0 4

  -- The header read from 80 bytes is well formed.
  pub deserialize-IsBlockHeader : IsBlockHeader (deserialize src)
  unfolding deserialize
  deserialize-IsBlockHeader = record {
    version_fits = word_fits 0 (omega arith);
    prev_hash_is = hash_at 4 (omega arith);
    merkle_root_is = hash_at 36 (omega arith);
    timestamp_fits = word_fits 68 (omega arith);
    bits_fits = word_fits 72 (omega arith);
    nonce_fits = word_fits 76 (omega arith);
  }
