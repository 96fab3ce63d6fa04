-- ===== src/Core/AuxPow/Commitment.antt =====
-- The commitment in a coinbase transaction: what is written is found, and what is found is there.
use avalon_miner.Prelude.{
  ℕ, ◌≤◌, ◌≡◌, refl, ap, ◌∙◌, true, false, some, List, [], ◌∷◌, ◌++◌, arith, leb, length,
  length-append, drop, Bool-cases, inl, inr, le→leb,
}
use mathlib.Core.List.{append_assoc}
use avalon_miner.Prelude.Bytes.{IsU32, le_bytes32, join32-bytes, read32}
use avalon_miner.Prelude.Slices.{take-append, drop-append, drop-add}
use avalon_miner.Core.Uint256.{IsHash256}
use avalon_miner.Core.AuxPow.{
  AuxPowCommitment, magic, serialize, at_magic, read_commitment, find_in_coinbase,
}

pub record IsCommitment (c : AuxPowCommitment) : Type 0 where
  pub root_is : IsHash256 c.aux_merkle_root
  pub size_fits : IsU32 c.tree_size
  pub nonce_fits : IsU32 c.merkle_nonce

pub length-serialize : (c : AuxPowCommitment) → IsCommitment c → length (serialize c) ≡ 44
unfolding serialize
length-serialize c w = omega (
  arith,
  length-append c.aux_merkle_root (le_bytes32 c.tree_size ++ le_bytes32 c.merkle_nonce),
  w.root_is.full,
)

-- The fields are read back behind the magic, whatever follows them.
read_commitment-serialize :
    (c : AuxPowCommitment) (post : List ℕ)
    → IsCommitment c
    → read_commitment (
        magic
        ++ (c.aux_merkle_root ++ (le_bytes32 c.tree_size ++ (le_bytes32 c.merkle_nonce ++ post))))
      ≡ c
unfolding read_commitment
read_commitment-serialize c post w =
    let words : List ℕ = le_bytes32 c.tree_size ++ (le_bytes32 c.merkle_nonce ++ post) in
    let behind : drop 32 (c.aux_merkle_root ++ words) ≡ words =
      drop-append 32 c.aux_merkle_root words w.root_is.full in
    λ i. record {
      aux_merkle_root = take-append 32 c.aux_merkle_root words w.root_is.full i;
      tree_size = (ap read32 behind ∙ join32-bytes c.tree_size w.size_fits) i;
      merkle_nonce =
          (ap read32 (drop-add 32 4 (c.aux_merkle_root ++ words) ∙ ap (drop 4) behind)
              ∙ join32-bytes c.merkle_nonce w.nonce_fits)
            i;
    }

serialize-front :
    (c : AuxPowCommitment) (post : List ℕ)
    → serialize c ++ post
      ≡ magic
        ++ (c.aux_merkle_root ++ (le_bytes32 c.tree_size ++ (le_bytes32 c.merkle_nonce ++ post)))
unfolding serialize
serialize-front c post =
    ap (◌++◌ magic)
      (append_assoc c.aux_merkle_root (le_bytes32 c.tree_size ++ le_bytes32 c.merkle_nonce) post)

-- No earlier position of `pre` starts the magic, in `pre` followed by `rest`.
abbrev pub NoMagic : List ℕ → List ℕ → Type 0
NoMagic [] rest = Unit {0}
NoMagic (b ∷ pre) rest = (at_magic (b ∷ (pre ++ rest)) ≡ false) × NoMagic pre rest

find_in_coinbase_skip :
    (pre rest : List ℕ)
    → NoMagic pre rest
    → 44 ≤ length rest
    → find_in_coinbase (pre ++ rest) ≡ find_in_coinbase rest
unfolding find_in_coinbase
find_in_coinbase_skip [] rest h long = refl
find_in_coinbase_skip (b ∷ pre) rest h long =
    let more : leb 44 (length (b ∷ (pre ++ rest))) ≡ true =
      le→leb 44 _ (omega (arith, length-append pre rest)) in
    rw (more, h.0) (find_in_coinbase_skip pre rest h.1 long)

find_in_coinbase_here :
    (src : List ℕ)
    → 44 ≤ length src
    → at_magic src ≡ true
    → find_in_coinbase src ≡ some (read_commitment src)
unfolding find_in_coinbase
find_in_coinbase_here [] long m = absurd (omega arith)
find_in_coinbase_here (b ∷ src) long m = rw (le→leb 44 (length (b ∷ src)) long, m)

-- A well-formed commitment written into a coinbase transaction is found again, provided that no
-- magic starts in front of it.
pub find_in_coinbase-serialize :
    (c : AuxPowCommitment) (pre post : List ℕ)
    → IsCommitment c
    → NoMagic pre (serialize c ++ post)
    → find_in_coinbase (pre ++ (serialize c ++ post)) ≡ some c
find_in_coinbase-serialize c pre post w free =
    find_in_coinbase_skip pre (serialize c ++ post) free
      (omega (arith, length-append (serialize c) post, length-serialize c w))
    ∙ find_in_coinbase_here (serialize c ++ post)
        (omega (arith, length-append (serialize c) post, length-serialize c w))
        (ap at_magic (serialize-front c post) ∙ (unfold at_magic in refl))
    ∙ ap some (ap read_commitment (serialize-front c post) ∙ read_commitment-serialize c post w)

-- A commitment that is found stands in the transaction, behind the first magic with 44 bytes.
pub find_in_coinbase_sound :
    (src : List ℕ) (c : AuxPowCommitment)
    → find_in_coinbase src ≡ some c
    → (pre : List ℕ) × (rest : List ℕ) × (src ≡ pre ++ rest)
      × NoMagic pre rest
      × (44 ≤ length rest)
      × (at_magic rest ≡ true)
      × (read_commitment rest ≡ c)
unfolding find_in_coinbase
find_in_coinbase_sound [] c e = cc
find_in_coinbase_sound (b ∷ src) c e = elim (Bool-cases (leb 44 (length (b ∷ src)))) [
  | inl long ↦ elim (Bool-cases (at_magic (b ∷ src))) [
    | inl m ↦ ([], b ∷ src, refl, tt, ground arith, m, ground (arith, long, m))
    | inr no_magic ↦
        let (pre, rest, split, free, l, m, r) =
          find_in_coinbase_sound src c (ground (arith, long, no_magic)) in
        (b ∷ pre, rest, ap (◌∷◌ b) split, (rw split at no_magic, free), l, m, r)
  ]
  | inr short ↦ cc (rw short at e)
]
