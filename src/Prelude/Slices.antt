-- ===== src/Prelude/Slices.antt =====
-- Fields at fixed offsets of a byte sequence: `memcpy` from `data + offset` and its laws.
use Prim.Native.Nat.{ℕ, zero, suc, ◌+◌, ◌≤◌}
use mathlib.Core.Path.{◌≡◌, refl, ap}
use mathlib.Core.List.{List, [], ◌∷◌, ◌++◌}
use native.Mathlib.Omega.{arith}
use avalon_miner.Prelude.Lists.{All, length, take, drop, take-append_length, drop-append_length}
use avalon_miner.Prelude.Bytes.{IsByte, IsU32, read32, le_bytes32, le_bytes32-join32, join32-lt}

module _ {ℓ} {A : Type ℓ} where
  pub take-append : (n : ℕ) (xs ys : List A) → length xs ≡ n → take n (xs ++ ys) ≡ xs
  take-append n xs ys e = rw (← e) (take-append_length xs ys)

  pub drop-append : (n : ℕ) (xs ys : List A) → length xs ≡ n → drop n (xs ++ ys) ≡ ys
  drop-append n xs ys e = rw (← e) (drop-append_length xs ys)

  drop-nil : (n : ℕ) → drop {A = A} n [] ≡ []
  drop-nil zero = refl
  drop-nil (suc n) = refl

  pub drop-add : (n m : ℕ) (xs : List A) → drop (n + m) xs ≡ drop m (drop n xs)
  drop-add zero m xs = ap (λ (k : ℕ). drop k xs) (omega arith)
  drop-add (suc n) m [] = rw (drop-nil m, drop-nil (suc n + m))
  drop-add (suc n) m (x ∷ xs) =
      let e : suc n + m ≡ suc (n + m) = omega arith in rw e (drop-add n m xs)

-- A word written at a pointer and read back.
pub le_bytes32-read32 :
    (src : List ℕ) → All IsByte src → 4 ≤ length src → le_bytes32 (read32 src) ≡ take 4 src
le_bytes32-read32 (b ∷ c ∷ d ∷ e ∷ rest) hs h =
    le_bytes32-join32 b c d e (hs.0, (hs.1.0, (hs.1.1.0, (hs.1.1.1.0, tt))))
le_bytes32-read32 [] _ h = absurd (omega arith)
le_bytes32-read32 (b ∷ []) _ h = absurd (omega arith)
le_bytes32-read32 (b ∷ c ∷ []) _ h = absurd (omega arith)
le_bytes32-read32 (b ∷ c ∷ d ∷ []) _ h = absurd (omega arith)

pub read32-lt : (src : List ℕ) → All IsByte src → 4 ≤ length src → IsU32 (read32 src)
read32-lt (b ∷ c ∷ d ∷ e ∷ rest) hs h =
    join32-lt b c d e (hs.0, (hs.1.0, (hs.1.1.0, (hs.1.1.1.0, tt))))
read32-lt [] _ h = absurd (omega arith)
read32-lt (b ∷ []) _ h = absurd (omega arith)
read32-lt (b ∷ c ∷ []) _ h = absurd (omega arith)
read32-lt (b ∷ c ∷ d ∷ []) _ h = absurd (omega arith)
