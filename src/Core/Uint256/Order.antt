-- ===== src/Core/Uint256/Order.antt =====
-- `<=>`, `<=` and `==` of uint256 are those of the numbers that the bytes stand for.
use Prim.Native.Nat.{Ordering, compare}
use avalon_miner.Prelude.{
  ℕ, zero, suc, ◌+◌, ◌*◌, ◌≤◌, ◌≡◌, refl, ap, ◌∙◌, ◌↔◌, true, List, [], ◌∷◌, arith, All, length,
}
use avalon_miner.Prelude.Bytes.{IsByte}
use avalon_miner.Core.Uint256.{Hash256, IsHash256, compare_down, three_way, le256, eq256}
use avalon_miner.Core.Uint256.Value.{value}

-- The higher bytes decide, and the lowest byte only when they agree.
abbrev then_lowest : Ordering → ℕ → ℕ → Ordering
then_lowest o x y = elim o [
  | Ordering.eq ↦ compare x y
  | Ordering.lt ↦ Ordering.lt
  | Ordering.gt ↦ Ordering.gt
]

compare_down-cons :
    (n x y : ℕ) (as' bs : List ℕ)
    → compare_down (suc n) (x ∷ as') (y ∷ bs) ≡ then_lowest (compare_down n as' bs) x y
unfolding compare_down
compare_down-cons zero x y as' bs = ground arith
compare_down-cons (suc n) x y as' bs = ground (arith, compare_down-cons n x y as' bs)

then_lowest-compare :
    (x y v w : ℕ)
    → IsByte x
    → IsByte y
    → then_lowest (compare v w) x y ≡ compare (x + 256 * v) (y + 256 * w)
then_lowest-compare x y v w hx hy = ground arith

compare_down-value :
    (n : ℕ) (as' bs : List ℕ)
    → length as' ≡ n
    → length bs ≡ n
    → All IsByte as'
    → All IsByte bs
    → compare_down n as' bs ≡ compare (value as') (value bs)
unfolding compare_down
compare_down-value zero [] [] la lb ha hb = refl
compare_down-value zero [] (b ∷ bs) la lb ha hb = absurd (omega arith)
compare_down-value zero (a ∷ as') bs la lb ha hb = absurd (omega arith)
compare_down-value (suc n) [] bs la lb ha hb = absurd (omega arith)
compare_down-value (suc n) (a ∷ as') [] la lb ha hb = absurd (omega arith)
compare_down-value (suc n) (a ∷ as') (b ∷ bs) la lb ha hb =
    compare_down-cons n a b as' bs
    ∙ ap (λ o. then_lowest o a b)
        (compare_down-value n as' bs (omega arith) (omega arith) ha.1 hb.1)
    ∙ then_lowest-compare a b (value as') (value bs) ha.0 hb.0

-- On two uint256 the byte-wise comparison is the comparison of the numbers they stand for.
pub three_way-value :
    (a b : Hash256) → IsHash256 a → IsHash256 b → three_way a b ≡ compare (value a) (value b)
unfolding three_way
three_way-value a b ha hb = compare_down-value 32 a b ha.full hb.full ha.bytes hb.bytes

-- Of two uint256 of 32 bytes, `a <= b` holds exactly when the number of `a` is at most that of
-- `b`.
pub le256_iff :
    (a b : Hash256) → IsHash256 a → IsHash256 b → (le256 a b ≡ true) ↔ (value a ≤ value b)
unfolding le256
le256_iff a b ha hb = rw (three_way-value a b ha hb, le256) (ground arith)

-- `==` holds exactly between equal arrays.
pub eq256_iff : (a b : Hash256) → (eq256 a b ≡ true) ↔ (a ≡ b)
unfolding eq256
eq256_iff [] [] = (λ _. refl, λ _. refl)
eq256_iff [] (b ∷ bs) = (λ h. cc, λ h. cc)
eq256_iff (a ∷ as') [] = (λ h. cc, λ h. cc)
eq256_iff (a ∷ as') (b ∷ bs) =
    let ih = eq256_iff as' bs in (λ h. ground (arith, ih.0), λ h. ground (arith, ih.1))
