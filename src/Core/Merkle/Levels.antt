-- ===== src/Core/Merkle/Levels.antt =====
-- The tree array is its levels, one after the other.
use avalon_miner.Prelude.{
  ℕ, zero, suc, ◌+◌, ◌-◌, ◌*◌, ◌/◌, ◌^◌, ◌≤◌, ◌<◌, ◌≡◌, refl, ap, sym, ◌∙◌, true, List, [], ◌∷◌,
  ◌++◌, arith, ltb, length, length-append, get_or, get_or-append, get_or-append_left, drop,
}
use mathlib.Core.List.{append-nil, append_assoc}
use avalon_miner.Core.Uint256.{Hash256, zero_hash}
use avalon_miner.Core.Merkle.{merkle_hash, push_parents, build, pair_up, back}
use native.Mathlib.Nat.{pow-suc, one-le-pow, add_assoc}

pub length-pair_up : (l : List Hash256) → length (pair_up l) ≡ length l / 2
unfolding pair_up
length-pair_up [] = refl
length-pair_up (a ∷ []) = refl
length-pair_up (a ∷ b ∷ rest) = omega (arith, length-pair_up rest)

pub get_or-pair_up :
    (l : List Hash256) (j : ℕ)
    → j * 2 + 1 < length l
    → get_or (pair_up l) j zero_hash
      ≡ merkle_hash (get_or l (j * 2) zero_hash) (get_or l (j * 2 + 1) zero_hash)
unfolding pair_up
get_or-pair_up [] j h = absurd (omega arith)
get_or-pair_up (a ∷ []) j h = absurd (omega arith)
get_or-pair_up (a ∷ b ∷ rest) zero h = refl
get_or-pair_up (a ∷ b ∷ rest) (suc j) h =
    let e₀ : suc j * 2 ≡ suc (suc (j * 2)) = omega arith in
    let e₁ : suc (suc (j * 2)) + 1 ≡ suc (suc (j * 2 + 1)) = omega arith in
    rw (e₀, e₁) (get_or-pair_up rest j (omega arith))

-- The pair at `j` is hashed before the pairs behind it.
pair_up-drop :
    (l : List Hash256) (j : ℕ)
    → j + 1 < length l
    → pair_up (drop j l)
      ≡ merkle_hash (get_or l j zero_hash) (get_or l (j + 1) zero_hash) ∷ pair_up (drop (j + 2) l)
unfolding pair_up
pair_up-drop [] j h = absurd (omega arith)
pair_up-drop (a ∷ []) zero h = absurd (omega arith)
pair_up-drop (a ∷ b ∷ l) zero h = refl
pair_up-drop (a ∷ l) (suc j) h =
    let e₁ : suc j + 1 ≡ suc (j + 1) = omega arith in
    let e₂ : suc j + 2 ≡ suc (j + 2) = omega arith in rw (e₁, e₂) (pair_up-drop l j (omega arith))

-- The levels of a full tree of height `k`, from the leaves to the root.
unfoldable pub levels : ℕ → List Hash256 → List Hash256
levels zero l = l
levels (suc k) l = l ++ levels k (pair_up l)

-- The last level's only node.
unfoldable pub top : ℕ → List Hash256 → Hash256
top zero l = get_or l 0 zero_hash
top (suc k) l = top k (pair_up l)

drop_all : (n : ℕ) (l : List Hash256) → length l ≤ n → drop n l ≡ []
drop_all zero [] h = refl
drop_all zero (x ∷ l) h = absurd (omega arith)
drop_all (suc n) [] h = refl
drop_all (suc n) (x ∷ l) h = drop_all n l (omega arith)

-- The loop over the pairs of a level appends their hashes.
push_parents-pair_up :
    (n i : ℕ) (pre l out : List Hash256)
    → length l ≡ (i + n) * 2
    → push_parents n (length pre) i (pre ++ (l ++ out))
      ≡ pre ++ (l ++ (out ++ pair_up (drop (i * 2) l)))
unfolding push_parents pair_up
push_parents-pair_up zero i pre l out e =
    rw (drop_all (i * 2) l (omega arith)) (ap (λ t. pre ++ (l ++ t)) (sym (append-nil out)))
push_parents-pair_up (suc n) i pre l out e =
    let at₀ : get_or (pre ++ (l ++ out)) (length pre + i * 2) zero_hash
        ≡ get_or l (i * 2) zero_hash =
      get_or-append pre (l ++ out) (i * 2) zero_hash
      ∙ get_or-append_left l out (i * 2) zero_hash (omega arith) in
    let at₁ : get_or (pre ++ (l ++ out)) (length pre + i * 2 + 1) zero_hash
        ≡ get_or l (i * 2 + 1) zero_hash =
      rw (add_assoc (length pre) (i * 2) 1) (
        get_or-append pre (l ++ out) (i * 2 + 1) zero_hash
        ∙ get_or-append_left l out (i * 2 + 1) zero_hash (omega arith)) in
    let c : Hash256 = merkle_hash (get_or l (i * 2) zero_hash) (get_or l (i * 2 + 1) zero_hash) in
    let two : (i + 1) * 2 ≡ i * 2 + 2 = omega arith in
    rw (at₀, at₁, append_assoc pre (l ++ out) (c ∷ []), append_assoc l out (c ∷ []))
      (push_parents-pair_up n (i + 1) pre l (out ++ (c ∷ [])) (omega arith)
        ∙ ap (λ t. pre ++ (l ++ t))
            (append_assoc out (c ∷ []) (pair_up (drop ((i + 1) * 2) l))
              ∙ ap (◌++◌ out) (rw two (sym (pair_up-drop l (i * 2) (omega arith))))))

push_parents-level :
    (n : ℕ) (pre l : List Hash256)
    → length l ≡ n * 2
    → push_parents n (length pre) 0 (pre ++ l) ≡ (pre ++ l) ++ pair_up l
push_parents-level n pre l e =
    ap (λ t. push_parents n (length pre) 0 (pre ++ t)) (sym (append-nil l))
    ∙ push_parents-pair_up n 0 pre l [] (omega arith)
    ∙ sym (append_assoc pre l (pair_up l))

-- `build` on a full level of 2 ^ k nodes appends the levels above it.
pub build-levels :
    (k fuel : ℕ) (pre l : List Hash256)
    → length l ≡ 2 ^ k
    → k ≤ fuel
    → build fuel (length pre) (length l) (pre ++ l) ≡ pre ++ levels k l
unfolding build levels
build-levels zero zero pre l e h = refl
build-levels zero (suc fuel) pre l e h = rw e
build-levels (suc k) zero pre l e h = absurd (omega arith)
build-levels (suc k) (suc fuel) pre l e h =
    let double : length l ≡ 2 ^ k * 2 = e ∙ pow-suc 2 k in
    let half : length l / 2 ≡ 2 ^ k = omega arith in
    let many : ltb 1 (length l) ≡ true = ground (arith, one-le-pow k 2) in
    let at_end : length pre + length l ≡ length (pre ++ l) = sym (length-append pre l) in
    let up : length (pair_up l) ≡ 2 ^ k = length-pair_up l ∙ half in
    let parents = push_parents-level (length l / 2) pre l (omega arith) in
    rw (many, parents, at_end, ← length-pair_up l)
      (build-levels k fuel (pre ++ l) (pair_up l) up (omega arith)
        ∙ append_assoc pre l (levels k (pair_up l)))

pub length-levels :
    (k : ℕ) (l : List Hash256) → length l ≡ 2 ^ k → length (levels k l) + 1 ≡ 2 ^ suc k
unfolding levels
length-levels zero l e = omega arith
length-levels (suc k) l e = omega (
  arith,
  length-append l (levels k (pair_up l)),
  length-levels k (pair_up l) (length-pair_up l ∙ omega (arith, pow-suc 2 k)),
  pow-suc 2 k,
  pow-suc 2 (suc k),
)

-- The last node is the root.
pub back-levels :
    (k : ℕ) (pre l : List Hash256) → length l ≡ 2 ^ k → back (pre ++ levels k l) ≡ top k l
unfolding levels top
back-levels zero pre l e =
    let last : length (pre ++ l) - 1 ≡ length pre + 0 = omega (arith, length-append pre l) in
    rw last (get_or-append pre l 0 zero_hash)
back-levels (suc k) pre l e =
    ap back (sym (append_assoc pre l (levels k (pair_up l))))
    ∙ back-levels k (pre ++ l) (pair_up l) (length-pair_up l ∙ omega (arith, pow-suc 2 k))
