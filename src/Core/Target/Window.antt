-- ===== src/Core/Target/Window.antt =====
-- The three leading bytes of a target, and what they stand for once they are packed.
use avalon_miner.Prelude.{
  ℕ, zero, suc, ◌+◌, ◌-◌, ◌*◌, ◌/◌, ◌%◌, ◌^◌, ◌≤◌, ◌<◌, ◌≡◌, refl, ap, ◌∙◌, List, [], ◌∷◌, arith,
  bit_or, ltb, ◌==◌, get_or, All, Bool-cases, inl, inr, lt→ltb, ltb→lt, All-get_or,
}
use avalon_miner.Prelude.Bits.{bit_or_fields}
use avalon_miner.Prelude.Bytes.{IsByte}
use avalon_miner.Core.Uint256.{Hash256}
use avalon_miner.Core.Uint256.Value.{value}
use avalon_miner.Core.Target.{top_byte, normalise}
use avalon_miner.Core.Target.Expand.{sign_bit, expanded}
use native.Mathlib.Nat.{pow-suc, one-le-pow, div-add-mod}

-- The bytes above the top one are zero.
pub top_byte_above : (i j : ℕ) (t : Hash256) → top_byte i t < j → j ≤ i → get_or t j 0 ≡ 0
unfolding top_byte
top_byte_above zero j t above fits = absurd (omega arith)
top_byte_above (suc i) j t above fits = elim (Bool-cases (j == suc i)) [
  | inl same ↦ let e : j ≡ suc i = ground arith in rw e (ground arith)
  | inr other ↦ ground (arith, top_byte_above i j t)
]

pub top_byte-le : (i : ℕ) (t : Hash256) → top_byte i t ≤ i
unfolding top_byte
top_byte-le zero t = omega arith
top_byte-le (suc i) t = ground (arith, top_byte-le i t)

-- A number whose bytes vanish from byte `k` on has its value in the first `k` bytes.
pub value-zeros : (bs : List ℕ) → ((j : ℕ) → get_or bs j 0 ≡ 0) → value bs ≡ 0
value-zeros [] z = refl
value-zeros (b ∷ bs) z = omega (arith, z 0, value-zeros bs (λ j. z (suc j)))

pub value-three :
    (bs : List ℕ)
    → ((j : ℕ) → 2 < j → get_or bs j 0 ≡ 0)
    → value bs ≡ get_or bs 0 0 + get_or bs 1 0 * 256 + get_or bs 2 0 * 65536
value-three [] z = refl
value-three (b ∷ []) z = omega arith
value-three (b ∷ c ∷ []) z = omega arith
value-three (b ∷ c ∷ d ∷ bs) z =
    omega (arith, value-zeros bs (λ j. z (suc (suc (suc j))) (omega arith)))

-- The bytes below `k`, the three bytes from `k` on, and nothing above them.
pub value-window :
    (k : ℕ) (bs : List ℕ)
    → All IsByte bs
    → ((j : ℕ) → k + 2 < j → get_or bs j 0 ≡ 0)
    → (r : ℕ) × (r < 256 ^ k)
      × (value bs
          ≡ r + (get_or bs k 0 + get_or bs (k + 1) 0 * 256 + get_or bs (k + 2) 0 * 65536) * 256 ^ k)
value-window k [] h z = (0, one-le-pow k 256 (omega arith), omega arith)
value-window zero (b ∷ bs) h z =
    let e : value (b ∷ bs) ≡ b + get_or bs 0 0 * 256 + get_or bs 1 0 * 65536 =
      value-three (b ∷ bs) (λ j hj. z j (omega arith)) in
    (0, omega arith, omega (arith, e))
value-window (suc k) (b ∷ bs) h z =
    let (r, lt, e) = value-window k bs h.1 (λ j hj. z (suc j) (omega arith)) in
    let w : ℕ = get_or bs k 0 + get_or bs (k + 1) 0 * 256 + get_or bs (k + 2) 0 * 65536 in
    (
      b + 256 * r,
      omega (arith, pow-suc 256 k, h.0),
      rw (index_up 1, index_up 2) (omega (arith, e, ap (λ (t : ℕ). w * t) (pow-suc 256 k))),
    )
  where
    index_up : (d : ℕ) → suc k + d ≡ suc (k + d)
    index_up d = omega arith

pub join_mantissa :
    (a b c : ℕ)
    → IsByte b
    → IsByte c
    → bit_or (bit_or (a * 2 ^ 16) (b * 2 ^ 8)) c ≡ a * 65536 + b * 256 + c
join_mantissa a b c hb hc =
    let e : a * 2 ^ 16 + b * 2 ^ 8 ≡ (a * 256 + b) * 2 ^ 8 = omega arith in
    rw
      (
        bit_or_fields 16 a (b * 2 ^ 8) (omega arith),
        e,
        bit_or_fields 8 (a * 256 + b) c (omega arith),
      )
      (omega arith)

-- The fields of the word that `normalise` packs.
abbrev pub Packs : ℕ → ℕ → ℕ → Type 0
Packs bits e m = (bits / 2 ^ 24 ≡ e) × (bits / 2 ^ 23 % 2 ≡ 0) × (bits % 2 ^ 23 ≡ m)

pub normalise_low : (m e : ℕ) → m < 2 ^ 23 → Packs (normalise (m, e)) e m
unfolding normalise
normalise_low m e h =
    let z : m / 2 ^ 23 % 2 * 2 ^ 23 ≡ 0 = omega arith in
    rw (sign_bit m, z, bit_or_fields 24 e m (omega arith)) (omega arith)

pub normalise_high :
    (m e : ℕ) → 2 ^ 23 ≤ m → m < 2 ^ 24 → Packs (normalise (m, e)) (e + 1) (m / 256)
unfolding normalise
normalise_high m e lo hi =
    let o : m / 2 ^ 23 % 2 * 2 ^ 23 ≡ 2 ^ 23 = omega arith in
    rw (sign_bit m, o, bit_or_fields 24 (e + 1) (m / 2 ^ 8) (omega arith)) (omega arith)

-- `bits` stands for `v` with the bytes under the mantissa cut off.
abbrev pub RoundsDown : ℕ → ℕ → Type 0
RoundsDown bits v = (expanded bits ≤ v) × (v < expanded bits + 256 ^ (bits / 2 ^ 24 - 3))

pub rounds_at :
    (bits k m r v : ℕ)
    → Packs bits (k + 3) m
    → r < 256 ^ k
    → v ≡ r + m * 256 ^ k
    → k < 29
    → RoundsDown bits v
rounds_at bits zero m r v p hr hv hk = rw (p.0, p.1, p.2) (omega arith)
rounds_at bits (suc k) m r v p hr hv hk =
    let e : suc k + 3 - 3 ≡ suc k = omega arith in
    rw (p.0, p.1, p.2, e, lt→ltb (suc k + 3) 32 (omega arith)) (ground arith)

pub exact_at :
    (bits e m v : ℕ) → Packs bits e m → e ≤ 3 → m / 2 ^ (8 * (3 - e)) ≡ v → RoundsDown bits v
exact_at bits e m v p he hv = ground (arith, one-le-pow (e - 3) 256)

pub get_or-IsByte : (t : Hash256) (i : ℕ) → All IsByte t → IsByte (get_or t i 0)
get_or-IsByte t i h = All-get_or IsByte t i 0 h (omega arith)

-- A mantissa `m` of three bytes above `k` bytes `r`, normalised.
pub normalise_window :
    (m k r v : ℕ)
    → m < 2 ^ 24
    → r < 256 ^ k
    → v ≡ r + m * 256 ^ k
    → normalise (m, k + 3) / 2 ^ 24 < 32
    → RoundsDown (normalise (m, k + 3)) v
normalise_window m k r v hm hr hv fits = elim (Bool-cases (ltb m (2 ^ 23))) [
  | inl low ↦
      let p = normalise_low m (k + 3) (ltb→lt m (2 ^ 23) low) in
      rounds_at (normalise (m, k + 3)) k m r v p hr hv (omega (arith, p.0))
  | inr high ↦
      let q = normalise_high m (k + 3) (ground arith) hm in
      let e : k + 3 + 1 ≡ suc k + 3 = omega arith in
      let p : Packs (normalise (m, k + 3)) (suc k + 3) (m / 256) = (q.0 ∙ e, q.1, q.2) in
      rounds_at (normalise (m, k + 3)) (suc k) (m / 256) (r + m % 256 * 256 ^ k) v p
        (grind (arith, pow-suc 256 k))
        (omega (
          arith,
          hv,
          ap (λ (x : ℕ). m / 256 * x) (pow-suc 256 k),
          ap (λ (x : ℕ). x * 256 ^ k) (div-add-mod m 256),
        ))
        (omega (arith, p.0))
]
