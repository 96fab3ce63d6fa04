-- ===== src/Core/Headers/Process.antt =====
-- `process_headers`: what is added, and that the store stays a chain.
use avalon_miner.Prelude.{
  ℕ, ◌+◌, ◌%◌, ◌^◌, ◌≡◌, refl, sym, ap, ◌∙◌, ◌⊎◌, inl, inr, true, false, List, [], ◌∷◌, ◌++◌, not,
  length, Bool-cases, map,
}
use avalon_miner.Core.BlockHeader.{BlockHeader}
use avalon_miner.Core.Validation.{ChainParams, validate_pow}
use mathlib.Core.List.{append-nil, append_assoc}
use avalon_miner.Prelude.{All, ◌==◌, ◌&&◌, ltb}
use avalon_miner.Core.Uint256.{eq256}
use avalon_miner.Core.Headers.{
  HeadersStore, Processed, add_header, push, announce, process_from, process_headers,
  get_tip_height, get_tip_hash,
}
use avalon_miner.Core.Headers.Chain.{IsChain, add_header-IsChain}

-- The step of the loop, by the outcome of the two checks.
process_from-step :
    (params : ChainParams) (s : HeadersStore) (current : ℕ) (x : BlockHeader)
    (rest : List BlockHeader)
    → ((validate_pow params x ≡ true)
        × ((add_header s x ((current + 1) % 2 ^ 32)).1 ≡ true)
        × (process_from params s current (x ∷ rest)
            ≡ announce
                (x, (current + 1) % 2 ^ 32)
                (process_from params
                  (add_header s x ((current + 1) % 2 ^ 32)).0
                  ((current + 1) % 2 ^ 32)
                  rest)))
      ⊎ ((process_from params s current (x ∷ rest)
            ≡ record { store = s; announced = []; accepted = false })
          ⊎ (((add_header s x ((current + 1) % 2 ^ 32)).1 ≡ false)
              × (process_from params s current (x ∷ rest) ≡ record {
                store = (add_header s x ((current + 1) % 2 ^ 32)).0;
                announced = [];
                accepted = false;
              })))
unfolding process_from
process_from-step params s current x rest = elim (Bool-cases (validate_pow params x)) [
  | inr f ↦ inr (inl (rw f refl))
  | inl t ↦ elim (Bool-cases ((add_header s x ((current + 1) % 2 ^ 32)).1)) [
    | inr f' ↦ inr (inr (f', rw (t, f') refl))
    | inl t' ↦ inl (t, t', rw (t, t') refl)
  ]
]

process_from-IsChain :
    (params : ChainParams) (s : HeadersStore) (current : ℕ) (xs : List BlockHeader)
    → IsChain s
    → IsChain ((process_from params s current xs).store)
unfolding process_from announce
process_from-IsChain params s current [] w = w
process_from-IsChain params s current (x ∷ rest) w =
    let next = add_header-IsChain s x ((current + 1) % 2 ^ 32) w in
    elim (process_from-step params s current x rest) [
      | inl (_, _, e) ↦ rw e (
          process_from-IsChain params (add_header s x ((current + 1) % 2 ^ 32)).0
            ((current + 1) % 2 ^ 32) rest next)
      | inr (inl e) ↦ rw e w
      | inr (inr (_, e)) ↦ rw e next
    ]

-- Whatever headers a peer sends to a store that is a chain, the store stays a chain.
pub process_headers-IsChain :
    (params : ChainParams) (s : HeadersStore) (xs : List BlockHeader)
    → IsChain s
    → IsChain ((process_headers params s xs).store)
unfolding process_headers
process_headers-IsChain params s xs w = process_from-IsChain params s (get_tip_height s) xs w

add_header-result :
    (s : HeadersStore) (x : BlockHeader) (height : ℕ)
    → (((add_header s x height).1 ≡ true)
        × ((add_header s x height).0.headers ≡ s.headers ++ (x ∷ [])))
      ⊎ (((add_header s x height).1 ≡ false) × ((add_header s x height).0 ≡ s))
unfolding add_header push
add_header-result s x height = elim (Bool-cases (height == length s.headers)) [
  | inr f ↦ inr (rw f refl, rw f refl)
  | inl t ↦ elim (Bool-cases (ltb 0 height && not (eq256 x.prev_hash (get_tip_hash s)))) [
    | inl t' ↦ inr (rw (t, t') refl, rw (t, t') refl)
    | inr f' ↦ inl (rw (t, f') refl, rw (t, f') refl)
  ]
]

grown :
    (s : HeadersStore) (x : BlockHeader) (height : ℕ)
    → (add_header s x height).1 ≡ true
    → (add_header s x height).0.headers ≡ s.headers ++ (x ∷ [])
grown s x height h = elim (add_header-result s x height) [ inl (_, e) ↦ e | inr (f, _) ↦ absurd cc ]

unchanged :
    (s : HeadersStore) (x : BlockHeader) (height : ℕ)
    → (add_header s x height).1 ≡ false
    → (add_header s x height).0.headers ≡ s.headers
unchanged s x height h = elim (add_header-result s x height) [
  | inl (t, _) ↦ absurd cc
  | inr (_, e) ↦ ap (λ (r : HeadersStore). r.headers) e
]

-- What a batch did to the store `s`: it announced a prefix of the batch, all of it when it was
-- accepted; what it announced has proof of work and stands behind the old headers.
pub record Added (params : ChainParams) (s : HeadersStore) (xs : List BlockHeader) (p : Processed)
    : Type 0 where
  pub appended : p.store.headers ≡ s.headers ++ map (λ c. c.0) p.announced
  pub remaining : List BlockHeader
  pub prefix_of : map (λ c. c.0) p.announced ++ remaining ≡ xs
  pub all_if_accepted : p.accepted ≡ true → remaining ≡ []
  pub worked : All (λ c. validate_pow params c.0 ≡ true) p.announced

stopped :
    (params : ChainParams) (s s' : HeadersStore) (xs : List BlockHeader)
    → s'.headers ≡ s.headers
    → Added params s xs (record { store = s'; announced = []; accepted = false })
stopped params s s' xs e = record {
  appended = e ∙ sym (append-nil s.headers);
  remaining = xs;
  prefix_of = refl;
  all_if_accepted = λ h. cc;
  worked = tt;
}

process_from-Added :
    (params : ChainParams) (current : ℕ) (xs : List BlockHeader) (s : HeadersStore)
    → Added params s xs (process_from params s current xs)
unfolding process_from announce
process_from-Added params current [] s = record {
  appended = sym (append-nil s.headers);
  remaining = [];
  prefix_of = refl;
  all_if_accepted = λ h. refl;
  worked = tt;
}
process_from-Added params current (x ∷ rest) s =
    let height : ℕ = (current + 1) % 2 ^ 32 in
    let next : HeadersStore = (add_header s x height).0 in
    elim (process_from-step params s current x rest) [
      | inr (inl e) ↦ rw e (stopped params s s (x ∷ rest) refl)
      | inr (inr (refused, e)) ↦
          rw e (stopped params s next (x ∷ rest) (unchanged s x height refused))
      | inl (worked, added, e) ↦
          let ih = process_from-Added params height rest next in
          rw e (record {
            appended =
                ih.appended
                ∙ ap
                    (λ (l : List BlockHeader).
                      l ++ map (λ c. c.0) (process_from params next height rest).announced)
                    (grown s x height added)
                ∙ append_assoc s.headers (x ∷ []) _;
            remaining = ih.remaining;
            prefix_of = ap (λ (l : List BlockHeader). x ∷ l) ih.prefix_of;
            all_if_accepted = ih.all_if_accepted;
            worked = (worked, ih.worked);
          })
    ]

-- For any store, a batch of headers adds a prefix of it behind the old headers, all of it when
-- the result is true, each header with valid proof of work, and calls the callback for just
-- these.
pub process_headers-Added :
    (params : ChainParams) (s : HeadersStore) (xs : List BlockHeader)
    → Added params s xs (process_headers params s xs)
unfolding process_headers
process_headers-Added params s xs = process_from-Added params (get_tip_height s) xs s
