-- ===== src/Core/MtpCalculator/Sorting.antt =====
-- Sorting: the order of the input makes no difference, and the sixth of eleven is a median.
use avalon_miner.Prelude.{
  ℕ, zero, suc, ◌+◌, ◌-◌, ◌≤◌, ◌<◌, ◌≡◌, refl, ap, ◌∙◌, Bool, false, List, [], ◌∷◌, ◌++◌, arith,
  ltb, leb, if◌then◌else◌, Bool-cases, if_both, inl, inr, length, get_or, take, drop, All,
}
use mathlib.Core.List.{append-nil}
use avalon_miner.Core.MtpCalculator.{insert, sort}

insert_comm : (a b : ℕ) (l : List ℕ) → insert a (insert b l) ≡ insert b (insert a l)
unfolding insert
insert_comm a b [] = ground arith
insert_comm a b (x ∷ xs) = ground (arith, insert_comm a b xs)

sort-append_cons : (xs ys : List ℕ) (y : ℕ) → sort (xs ++ (y ∷ ys)) ≡ insert y (sort (xs ++ ys))
unfolding sort
sort-append_cons [] ys y = refl
sort-append_cons (x ∷ xs) ys y =
    ap (insert x) (sort-append_cons xs ys y) ∙ insert_comm x y (sort (xs ++ ys))

pub sort-swap : (xs ys : List ℕ) → sort (xs ++ ys) ≡ sort (ys ++ xs)
unfolding sort
sort-swap xs [] = ap sort (append-nil xs)
sort-swap xs (y ∷ ys) = sort-append_cons xs ys y ∙ ap (insert y) (sort-swap xs ys)

-- How many satisfy a test.
abbrev pub count_if : (ℕ → Bool) → List ℕ → ℕ
count_if test [] = 0
count_if test (x ∷ xs) = let rest = count_if test xs in if test x then suc rest else rest

module _ (test : ℕ → Bool) where
  count_if-insert : (a : ℕ) (l : List ℕ) → count_if test (insert a l) ≡ count_if test (a ∷ l)
  unfolding insert
  count_if-insert a [] = refl
  count_if-insert a (x ∷ xs) = ground (arith, count_if-insert a xs)

  count_if-sort : (l : List ℕ) → count_if test (sort l) ≡ count_if test l
  unfolding sort
  count_if-sort [] = refl
  count_if-sort (x ∷ xs) = ground (arith, count_if-insert x (sort xs), count_if-sort xs)

  count_if-none : (l : List ℕ) → All (λ x. test x ≡ false) l → count_if test l ≡ 0
  count_if-none [] h = refl
  count_if-none (x ∷ xs) h = rw h.0 (count_if-none xs h.1)

  count_if-le : (n : ℕ) (l : List ℕ) → All (λ x. test x ≡ false) (drop n l) → count_if test l ≤ n
  count_if-le zero l h = omega (arith, count_if-none l h)
  count_if-le (suc n) [] h = omega arith
  count_if-le (suc n) (x ∷ xs) h = ground (arith, count_if-le n xs h)

abbrev pub IsSorted : List ℕ → Type 0
IsSorted [] = Unit {0}
IsSorted (x ∷ xs) = All (λ y. x ≤ y) xs × IsSorted xs

length-insert : (a : ℕ) (l : List ℕ) → length (insert a l) ≡ suc (length l)
unfolding insert
length-insert a [] = refl
length-insert a (x ∷ xs) = ground (arith, length-insert a xs)

length-sort : (l : List ℕ) → length (sort l) ≡ length l
unfolding sort
length-sort [] = refl
length-sort (x ∷ xs) = omega (arith, length-insert x (sort xs), length-sort xs)

All-insert : (k a : ℕ) (l : List ℕ) → k ≤ a → All (λ y. k ≤ y) l → All (λ y. k ≤ y) (insert a l)
unfolding insert
All-insert k a [] h t = (h, tt)
All-insert k a (x ∷ xs) h t =
    if_both (All (λ y. k ≤ y)) (leb a x) _ _ (h, t) (t.0, All-insert k a xs h t.1)

All-weaken : (k j : ℕ) (l : List ℕ) → k ≤ j → All (λ y. j ≤ y) l → All (λ y. k ≤ y) l
All-weaken k j [] h t = tt
All-weaken k j (x ∷ xs) h t = (omega (arith, t.0), All-weaken k j xs h t.1)

insert-IsSorted : (a : ℕ) (l : List ℕ) → IsSorted l → IsSorted (insert a l)
unfolding insert
insert-IsSorted a [] h = (tt, tt)
insert-IsSorted a (x ∷ xs) h = elim (Bool-cases (leb a x)) [
  | inl t ↦ let le : a ≤ x = ground arith in rw t ((le, All-weaken a x xs le h.0), h)
  | inr f ↦
      let le : x ≤ a = ground arith in rw f (All-insert x a xs le h.0, insert-IsSorted a xs h.1)
]

pub sort-IsSorted : (l : List ℕ) → IsSorted (sort l)
unfolding sort
sort-IsSorted [] = tt
sort-IsSorted (x ∷ xs) = insert-IsSorted x (sort xs) (sort-IsSorted xs)

All-get_or_le : (x n : ℕ) (xs : List ℕ) → All (λ y. x ≤ y) xs → n < length xs → x ≤ get_or xs n 0
All-get_or_le x n [] h lt = absurd (omega arith)
All-get_or_le x zero (y ∷ ys) h lt = h.0
All-get_or_le x (suc n) (y ∷ ys) h lt = All-get_or_le x n ys h.1 (omega arith)

-- Nothing from the place `n` on is less, and nothing up to it is greater.
none_less :
    (n : ℕ) (s : List ℕ)
    → IsSorted s
    → n < length s
    → All (λ x. ltb x (get_or s n 0) ≡ false) (drop n s)
none_less n [] h lt = absurd (omega arith)
none_less (suc n) (x ∷ xs) h lt = none_less n xs h.1 (omega arith)
none_less zero (x ∷ xs) h lt = (ground arith, rest xs h.0)
  where
    rest : (ys : List ℕ) → All (λ y. x ≤ y) ys → All (λ y. ltb y x ≡ false) ys
    rest [] t = tt
    rest (y ∷ ys) t = (let le : x ≤ y = t.0 in ground arith, rest ys t.1)

none_greater :
    (n : ℕ) (s : List ℕ)
    → IsSorted s
    → n < length s
    → All (λ x. ltb (get_or s n 0) x ≡ false) (take (suc n) s)
none_greater n [] h lt = absurd (omega arith)
none_greater zero (x ∷ xs) h lt = (ground arith, tt)
none_greater (suc n) (x ∷ xs) h lt =
    let le : x ≤ get_or xs n 0 = All-get_or_le x n xs h.0 (omega arith) in
    (ground arith, none_greater n xs h.1 (omega arith))

count_if-le_rest :
    (test : ℕ → Bool) (n : ℕ) (l : List ℕ)
    → All (λ x. test x ≡ false) (take n l)
    → count_if test l ≤ length l - n
count_if-le_rest test zero [] h = omega arith
count_if-le_rest test zero (x ∷ xs) h = ground (arith, count_if-le_rest test zero xs tt)
count_if-le_rest test (suc n) [] h = omega arith
count_if-le_rest test (suc n) (x ∷ xs) h =
    let rest = count_if-le_rest test n xs h.1 in rw h.0 (omega (arith, rest))

-- At most `half` of the values are less than `v`, and at most `half` are greater.
abbrev pub IsMedian : ℕ → List ℕ → ℕ → Type 0
IsMedian half l v = (count_if (λ x. ltb x v) l ≤ half) × (count_if (λ x. ltb v x) l ≤ half)

pub sort-IsMedian :
    (n : ℕ) (l : List ℕ) → length l ≡ suc (n + n) → IsMedian n l (get_or (sort l) n 0)
sort-IsMedian n l e =
    let s : List ℕ = sort l in
    let v : ℕ = get_or s n 0 in
    let whole = length-sort l in
    let in_range : n < length s = omega (arith, whole) in
    let fewer = count_if-le (λ x. ltb x v) n s (none_less n s (sort-IsSorted l) in_range) in
    let more =
      count_if-le_rest (λ x. ltb v x) (suc n) s (none_greater n s (sort-IsSorted l) in_range) in
    (
      omega (arith, count_if-sort (λ x. ltb x v) l, fewer),
      omega (arith, count_if-sort (λ x. ltb v x) l, more, whole),
    )
