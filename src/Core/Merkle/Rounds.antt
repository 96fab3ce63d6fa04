-- ===== src/Core/Merkle/Rounds.antt =====
-- The rounds of `compute_merkle_root`: a level has about half as many hashes as the one below it.
use avalon_miner.Prelude.{
  ℕ, zero, suc, ◌+◌, ◌/◌, ◌%◌, ◌≤◌, ◌<◌, ◌≡◌, refl, sym, ap, ◌∙◌, true, false, inl, inr, List, [],
  ◌∷◌, ◌++◌, arith, ltb, ◌==◌, length, length-append, get_or, Bool-cases,
}
use avalon_miner.Core.Uint256.{Hash256, zero_hash}
use avalon_miner.Core.Merkle.{back, next_level, fold_levels}
use avalon_miner.Core.Merkle.Levels.{length-pair_up}

pub length-next_level : (l : List Hash256) → length (next_level l) ≡ (length l + 1) / 2
unfolding next_level
length-next_level l = elim (Bool-cases (length l % 2 == 0)) [
  | inl even ↦ rw even (length-pair_up l ∙ ground arith)
  | inr odd ↦
      rw odd (
        length-pair_up (l ++ (back l ∷ [])) ∙ ap (λ (n : ℕ). n / 2) (length-append l (back l ∷ [])))
]

more :
    (fuel : ℕ) (l : List Hash256)
    → 1 < length l
    → fold_levels (suc fuel) l ≡ fold_levels fuel (next_level l)
unfolding fold_levels
more fuel l h = let test : ltb 1 (length l) ≡ true = ground arith in rw test refl

last : (fuel : ℕ) (l : List Hash256) → length l ≤ 1 → fold_levels fuel l ≡ get_or l 0 zero_hash
unfolding fold_levels
last zero l h = refl
last (suc fuel) l h = let test : ltb 1 (length l) ≡ false = ground arith in rw test refl

-- As many rounds as there are hashes are enough: all greater numbers give the same root.
pub fold_levels-enough :
    (f g : ℕ) (l : List Hash256) → length l ≤ f → length l ≤ g → fold_levels f l ≡ fold_levels g l
fold_levels-enough zero g l hf hg = last zero l (omega arith) ∙ sym (last g l (omega arith))
fold_levels-enough (suc f) zero l hf hg =
    last (suc f) l (omega arith) ∙ sym (last zero l (omega arith))
fold_levels-enough (suc f) (suc g) l hf hg = elim (Bool-cases (ltb 1 (length l))) [
  | inr one ↦ last (suc f) l (ground arith) ∙ sym (last (suc g) l (ground arith))
  | inl many ↦
      let two : 1 < length l = ground arith in
      let half = length-next_level l in
      more f l two
      ∙ fold_levels-enough f g (next_level l) (omega arith) (omega arith)
      ∙ sym (more g l two)
]
