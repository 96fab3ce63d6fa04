-- ===== src/Core/Headers/Chain.antt =====
-- The invariant of the headers store: the headers form a chain, and the index is exact.
use avalon_miner.Prelude.{
  ℕ, zero, suc, ◌-◌, ◌<◌, ◌≡◌, ◌≢◌, refl, sym, ap, ◌∙◌, ◌⊎◌, inl, inr, true, false, some, List, [],
  ◌∷◌, ◌++◌, arith, ◌==◌, if◌then◌else◌, length, get_elem?, length-append, Bool-cases, Option-cases,
}
use avalon_miner.Prelude.Snoc.{
  get_elem?-snoc_last, get_elem?-snoc_left, get_elem?-snoc_cases, get_elem?-bound,
}
use avalon_miner.Prelude.Maps.{find, assign, find-assign}
use avalon_miner.Core.Uint256.{Hash256, eq256}
use avalon_miner.Core.Uint256.Order.{eq256_iff}
use avalon_miner.Core.BlockHeader.{BlockHeader}
use avalon_miner.Core.BlockHeader
use avalon_miner.Core.Headers.{
  HeadersStore, only_genesis, add_header, push, get_tip, get_tip_hash, get_by_hash, get_height,
}

pub record IsChain (s : HeadersStore) : Type 0 where
  pub nonempty : 0 < length s.headers
  pub linked :
      (i : ℕ) (x y : BlockHeader)
      → get_elem? s.headers i ≡ some x
      → get_elem? s.headers (suc i) ≡ some y
      → y.prev_hash ≡ BlockHeader.hash x
  pub index_sound :
      (h : Hash256) (i : ℕ)
      → find eq256 h s.hash_index ≡ some i
      → (x : BlockHeader) × ((get_elem? s.headers i ≡ some x) × (BlockHeader.hash x ≡ h))
  pub index_complete :
      (i : ℕ) (x : BlockHeader)
      → get_elem? s.headers i ≡ some x
      → (j : ℕ) × (find eq256 (BlockHeader.hash x) s.hash_index ≡ some j)

abbrev index_of : BlockHeader → List (Hash256 × ℕ)
index_of g = (BlockHeader.hash g, 0) ∷ []

-- The store of a genesis header alone is a chain.
pub only_genesis-IsChain : (g : BlockHeader) → IsChain (only_genesis g)
unfolding only_genesis
only_genesis-IsChain g = record {
  nonempty = omega arith;
  linked = λ i x y h₁ h₂. cc;
  index_sound = sound;
  index_complete = complete;
}
  where
    sound :
        (h : Hash256) (i : ℕ)
        → find eq256 h (index_of g) ≡ some i
        → (x : BlockHeader) × ((get_elem? (g ∷ []) i ≡ some x) × (BlockHeader.hash x ≡ h))
    sound h zero e = elim (Bool-cases (eq256 h (BlockHeader.hash g))) [
      | inl t ↦ (g, (refl, sym ((eq256_iff h (BlockHeader.hash g)).0 t)))
      | inr f ↦ absurd (ground arith)
    ]
    sound h (suc i) e = absurd (ground arith)

    complete :
        (i : ℕ) (x : BlockHeader)
        → get_elem? (g ∷ []) i ≡ some x
        → (j : ℕ) × (find eq256 (BlockHeader.hash x) (index_of g) ≡ some j)
    complete zero x e =
        let same : g ≡ x = cc in
        (
          0,
          rw
              ((eq256_iff (BlockHeader.hash x) (BlockHeader.hash g)).1
                (ap BlockHeader.hash (sym same)))
              refl,
        )
    complete (suc i) x e = cc

tip-hash :
    (s : HeadersStore) (x : BlockHeader)
    → get_elem? s.headers (length s.headers - 1) ≡ some x
    → get_tip_hash s ≡ BlockHeader.hash x
unfolding get_tip_hash get_tip
tip-hash s x h = rw (get_tip_hash, get_tip, h) refl

-- Appending a header whose predecessor hash is that of the tip keeps the chain.
pub push-IsChain :
    (s : HeadersStore) (x : BlockHeader)
    → IsChain s
    → x.prev_hash ≡ get_tip_hash s
    → IsChain (push s x (length s.headers))
unfolding push
push-IsChain s x w link = record {
  nonempty = omega (arith, length-append s.headers (x ∷ []));
  linked = linked';
  index_sound = sound;
  index_complete = complete;
}
  where
    linked' :
        (i : ℕ) (a b : BlockHeader)
        → get_elem? (s.headers ++ (x ∷ [])) i ≡ some a
        → get_elem? (s.headers ++ (x ∷ [])) (suc i) ≡ some b
        → b.prev_hash ≡ BlockHeader.hash a
    linked' i a b ha hb = elim (get_elem?-snoc_cases s.headers x b (suc i) hb) [
      | inl old ↦ elim (get_elem?-snoc_cases s.headers x a i ha) [
        | inl olda ↦ w.linked i a b olda old
        | inr new ↦ absurd (omega (arith, new.0, get_elem?-bound s.headers (suc i) b old))
      ]
      | inr new ↦ elim (get_elem?-snoc_cases s.headers x a i ha) [
        | inl olda ↦
            let at : length s.headers - 1 ≡ i = omega (arith, new.0) in
            let last : get_elem? s.headers (length s.headers - 1) ≡ some a = rw at olda in
            ap (λ (h : BlockHeader). h.prev_hash) (sym new.1) ∙ link ∙ tip-hash s a last
        | inr newa ↦ absurd (omega (arith, new.0, newa.0))
      ]
    ]

    lookup :
        (h : Hash256)
        → find eq256 h (assign eq256 (BlockHeader.hash x) (length s.headers) s.hash_index) ≡ (
            if eq256 h (BlockHeader.hash x)
            then some (length s.headers)
            else find eq256 h s.hash_index)
    lookup h = find-assign eq256 eq256_iff h (BlockHeader.hash x) (length s.headers) s.hash_index

    sound :
        (h : Hash256) (i : ℕ)
        → find eq256 h (assign eq256 (BlockHeader.hash x) (length s.headers) s.hash_index) ≡ some i
        → (a : BlockHeader) × ((get_elem? (s.headers ++ (x ∷ [])) i ≡ some a)
            × (BlockHeader.hash a ≡ h))
    sound h i e = elim (Bool-cases (eq256 h (BlockHeader.hash x))) [
      | inl t ↦
          let at : length s.headers ≡ i = ground (arith, lookup h) in
          (
            x,
            (
              rw (← at) (get_elem?-snoc_last s.headers x),
              sym ((eq256_iff h (BlockHeader.hash x)).0 t),
            ),
          )
      | inr f ↦
          let old : find eq256 h s.hash_index ≡ some i = ground (arith, lookup h) in
          let (a, (at, eq)) = w.index_sound h i old in
          (a, (get_elem?-snoc_left s.headers x a i at, eq))
    ]

    complete :
        (i : ℕ) (a : BlockHeader)
        → get_elem? (s.headers ++ (x ∷ [])) i ≡ some a
        → (j : ℕ) × (find eq256
              (BlockHeader.hash a)
              (assign eq256 (BlockHeader.hash x) (length s.headers) s.hash_index)
            ≡ some j)
    complete i a e = elim (Bool-cases (eq256 (BlockHeader.hash a) (BlockHeader.hash x))) [
      | inl t ↦ (length s.headers, rw (lookup (BlockHeader.hash a), t) refl)
      | inr f ↦ elim (get_elem?-snoc_cases s.headers x a i e) [
        | inl old ↦
            let (j, found) = w.index_complete i a old in
            (j, rw (lookup (BlockHeader.hash a), f) found)
        | inr new ↦ absurd (
            ground (
              arith,
              (eq256_iff (BlockHeader.hash a) (BlockHeader.hash x)).1
                  (ap BlockHeader.hash (sym new.1)),
            ))
      ]
    ]

-- On a chain the call accepts exactly a header for the next height that names the hash of the
-- tip as its predecessor, and appends it; otherwise it leaves the store as it was.
pub add_header-cases :
    (s : HeadersStore) (x : BlockHeader) (height : ℕ)
    → IsChain s
    → ((height ≡ length s.headers)
        × ((x.prev_hash ≡ get_tip_hash s)
            × (add_header s x height ≡ (push s x (length s.headers), true))))
      ⊎ (((height ≢ length s.headers) ⊎ (x.prev_hash ≢ get_tip_hash s))
          × (add_header s x height ≡ (s, false)))
unfolding add_header
add_header-cases s x height w = elim (Bool-cases (height == length s.headers)) [
  | inr f ↦ inr (inl (ground arith), ground arith)
  | inl t ↦
      let e : height ≡ length s.headers = ground arith in
      let n = w.nonempty in
      let iff = eq256_iff x.prev_hash (get_tip_hash s) in
      elim (Bool-cases (eq256 x.prev_hash (get_tip_hash s))) [
        | inl t' ↦ inl (e, (iff.0 t', ground arith))
        | inr f' ↦ inr (inr (λ q. ground (arith, iff.1 q)), ground arith)
      ]
]

-- Whatever header is offered at whatever height, a call of `add_header` on a chain leaves a
-- chain.
pub add_header-IsChain :
    (s : HeadersStore) (x : BlockHeader) (height : ℕ)
    → IsChain s
    → IsChain ((add_header s x height).0)
add_header-IsChain s x height w = elim (add_header-cases s x height w) [
  | inl (e, (link, r)) ↦ rw r (push-IsChain s x w link)
  | inr (_, r) ↦ rw r w
]

-- In a chain, the header that is found by a hash has this hash, and every header of the chain has
-- one with its hash that is found.
pub get_by_hash_iff :
    (s : HeadersStore) (h : Hash256)
    → IsChain s
    → ((x : BlockHeader) → get_by_hash s h ≡ some x → BlockHeader.hash x ≡ h)
      × ((i : ℕ) (x : BlockHeader)
          → get_elem? s.headers i ≡ some x
          → BlockHeader.hash x ≡ h
          → (y : BlockHeader) × (get_by_hash s h ≡ some y))
unfolding get_by_hash get_height
get_by_hash_iff s h w = (sound, complete)
  where
    sound : (x : BlockHeader) → get_by_hash s h ≡ some x → BlockHeader.hash x ≡ h
    sound x e = elim (Option-cases (find eq256 h s.hash_index)) [
      | inl missing ↦ absurd (ground arith)
      | inr (i, found) ↦
          let (y, (at, eq)) = w.index_sound h i found in
          let same : y ≡ x = ground arith in ap BlockHeader.hash (sym same) ∙ eq
    ]

    complete :
        (i : ℕ) (x : BlockHeader)
        → get_elem? s.headers i ≡ some x
        → BlockHeader.hash x ≡ h
        → (y : BlockHeader) × (get_by_hash s h ≡ some y)
    complete i x at eq =
        let (j, found) = w.index_complete i x at in
        let found' : find eq256 h s.hash_index ≡ some j = rw (← eq) found in
        let (y, (here, _)) = w.index_sound h j found' in
        (y, rw (get_by_hash, get_height, found') here)
