-- ===== src/Core/Headers/Locator.antt =====
-- `HeadersSync::get_block_locator` of src/core/sync/headers_sync.cpp: the hashes by which a peer finds
-- out where the chains part. The loop runs on fuel; `none` means that it has not ended. The step is
-- an `int`, which 2 ^ 31 headers would make overflow; it is then taken to wrap.
use avalon_miner.Prelude.{
  ℕ, zero, suc, ◌+◌, ◌*◌, ◌-◌, ◌%◌, ◌^◌, ◌≤◌, ◌<◌, ◌≡◌, refl, ap, ◌∙◌, Option, none, some, List, [],
  ◌∷◌, ◌++◌, arith, ltb, ◌==◌, if◌then◌else◌, length, length-append, get_elem?, inl, inr,
  Bool-cases,
}
use avalon_miner.Core.Uint256.{Hash256}
use avalon_miner.Core.BlockHeader
use avalon_miner.Core.BlockHeader.{BlockHeader}
use avalon_miner.Core.Headers.{HeadersStore, get_by_height, get_tip_height}

unfoldable pub push_at : HeadersStore → ℕ → List Hash256 → List Hash256
push_at s height locator = elim (get_by_height s height) [
  | none ↦ locator
  | some header ↦ locator ++ (BlockHeader.hash header ∷ [])
]

unfoldable pub next_step : ℕ → List Hash256 → ℕ
next_step step locator = if ltb 10 (length locator) then step * 2 % 2 ^ 32 else step

unfoldable pub locator_from : HeadersStore → ℕ → ℕ → ℕ → List Hash256 → Option (List Hash256)
locator_from s zero height step locator = none
locator_from s (suc fuel) height step locator =
    let pushed = push_at s height locator in
    let rest = locator_from s fuel (height - step) (next_step step pushed) pushed in
    if height == 0 then some locator else (if ltb height step then some pushed else rest)

unfoldable pub get_block_locator : ℕ → HeadersStore → Option (List Hash256)
get_block_locator fuel s = elim (locator_from s fuel (get_tip_height s) 1 []) [
  | none ↦ none
  | some locator ↦ some (push_at s 0 locator)
]

found :
    (headers : List BlockHeader) (i : ℕ)
    → i < length headers
    → (h : BlockHeader) × (get_elem? headers i ≡ some h)
found [] i lt = absurd (omega arith)
found (h ∷ headers) zero lt = (h, refl)
found (h ∷ headers) (suc i) lt = found headers i (omega arith)

length-push_at :
    (s : HeadersStore) (height : ℕ) (locator : List Hash256)
    → height < length s.headers
    → length (push_at s height locator) ≡ suc (length locator)
unfolding push_at get_by_height
length-push_at s height locator h =
    let (header, e) = found s.headers height h in
    let pushed : push_at s height locator ≡ locator ++ (BlockHeader.hash header ∷ []) =
      rw (push_at, e) refl in
    ap length pushed ∙ omega (arith, length-append locator (BlockHeader.hash header ∷ []))

next_step-double :
    (step : ℕ) (locator : List Hash256)
    → 10 < length locator
    → step < 2 ^ 31
    → next_step step locator ≡ step * 2
unfolding next_step
next_step-double step locator long small = ground arith

next_step-same :
    (step : ℕ) (locator : List Hash256) → length locator ≤ 10 → next_step step locator ≡ step
unfolding next_step
next_step-same step locator short = ground arith

-- The step after so many rounds.
abbrev doubled : ℕ → ℕ → ℕ
doubled zero step = step
doubled (suc k) step = doubled k (step * 2)

-- The rounds that are left.
abbrev rounds : ℕ → ℕ
rounds zero = 32
rounds (suc j) = suc (rounds j)

-- The loop ends with so many hashes at most.
abbrev EndsWithin : ℕ → Option (List Hash256) → Type 0
EndsWithin n o = (l : List Hash256) × (o ≡ some l) × (length l ≤ n)

module _ (s : HeadersStore) where
  -- One round: it ends, or it goes on with one hash more.
  one_round :
      (n fuel height step : ℕ) (locator : List Hash256)
      → height < length s.headers
      → length locator < n
      → (step ≤ height
          → EndsWithin n (
              locator_from s fuel
                (height - step)
                (next_step step (push_at s height locator))
                (push_at s height locator)))
      → EndsWithin n (locator_from s (suc fuel) height step locator)
  unfolding locator_from
  one_round n fuel height step locator h room next = elim (Bool-cases (height == 0)) [
    | inl e ↦ rw e (locator, refl, omega arith)
    | inr e ↦ elim (Bool-cases (ltb height step)) [
      | inl below ↦
          rw (e, below)
            (push_at s height locator, refl, omega (arith, length-push_at s height locator h))
      | inr above ↦ rw (e, above) (next (ground arith))
    ]
  ]

  -- Once the step doubles.
  doubling :
      (k n height step : ℕ) (locator : List Hash256)
      → height < length s.headers
      → length s.headers ≤ 2 ^ 31
      → 10 < length locator
      → length locator + k < n
      → 2 ^ 31 ≤ doubled k step
      → EndsWithin n (locator_from s (suc k) height step locator)
  doubling zero n height step locator h few long room reach =
      one_round n zero height step locator h (omega arith) (λ le. absurd (omega arith))
  doubling (suc k) n height step locator h few long room reach =
      let pushed = push_at s height locator in
      let grown = length-push_at s height locator h in
      one_round n (suc k) height step locator h (omega arith) (λ le.
        let double : next_step step pushed ≡ step * 2 =
          next_step-double step pushed (omega arith) (omega arith) in
        rw double (
          doubling k n (height - step) (step * 2) pushed (omega arith) few (omega arith)
            (omega arith) reach))

  -- The first eleven rounds.
  stepping :
      (j height : ℕ) (locator : List Hash256)
      → height < length s.headers
      → length s.headers ≤ 2 ^ 31
      → length locator + j ≡ 10
      → EndsWithin 42 (locator_from s (rounds j) height 1 locator)
  stepping zero height locator h few e =
      let pushed = push_at s height locator in
      let grown = length-push_at s height locator h in
      one_round 42 31 height 1 locator h (omega arith) (λ le.
        let double : next_step 1 pushed ≡ 2 =
          next_step-double 1 pushed (omega arith) (omega arith) in
        rw double (
          doubling 30 42 (height - 1) 2 pushed (omega arith) few (omega arith) (omega arith)
            (omega arith)))
  stepping (suc j) height locator h few e =
      let pushed = push_at s height locator in
      let grown = length-push_at s height locator h in
      one_round 42 (rounds j) height 1 locator h (omega arith) (λ le.
        let same : next_step 1 pushed ≡ 1 = next_step-same 1 pushed (omega arith) in
        rw same (stepping j (height - 1) pushed (omega arith) few (omega arith)))

-- With at most 2 ^ 31 headers, and at least one, the loop of the block locator ends within 42
-- rounds, and the locator has at most 43 hashes.
pub get_block_locator-enough :
    (s : HeadersStore)
    → 0 < length s.headers
    → length s.headers ≤ 2 ^ 31
    → (l : List Hash256) × (get_block_locator 42 s ≡ some l) × (length l ≤ 43)
unfolding get_block_locator get_tip_height
get_block_locator-enough s some_header few =
    let inside : get_tip_height s < length s.headers = ground arith in
    let (l, e, short) = stepping s 10 (get_tip_height s) [] inside few refl in
    (push_at s 0 l, rw (get_block_locator, e) refl, omega (arith, length-push_at s 0 l some_header))
