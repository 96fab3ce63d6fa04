-- ===== src/Bitcoin/Block/Coinbase.antt =====
-- The extranonce in the coinbase transaction of a template.
use avalon_miner.Prelude.{
  ℕ, zero, suc, ◌+◌, ◌*◌, ◌^◌, ◌≤◌, ◌<◌, ◌≡◌, ◌≢◌, ◌⊎◌, inl, inr, refl, sym, ap, ◌∙◌, List, [], ◌∷◌,
  arith, le→leb, if◌then◌else◌, length, length-set, get_or, set, get_or-set_ne,
}
use avalon_miner.Prelude.Bytes.{byte}
use avalon_miner.Bitcoin.Block.{BlockTemplate, coinbase_with, write_extranonce, update_extranonce}

get_or-set_eq {ℓ} :
    {A : Type ℓ} (xs : List A) (i : ℕ) (v d : A) → i < length xs → get_or (set xs i v) i d ≡ v
get_or-set_eq [] i v d h = absurd (omega arith)
get_or-set_eq (x ∷ xs) zero v d h = refl
get_or-set_eq (x ∷ xs) (suc i) v d h = get_or-set_eq xs i v d (omega arith)

pub length-write_extranonce : (n x : ℕ) (tx : List ℕ) → length (write_extranonce n x tx) ≡ length tx
unfolding write_extranonce
length-write_extranonce zero x tx = refl
length-write_extranonce (suc n) x tx =
    length-set (write_extranonce n x tx) (64 + n) (byte (8 * n) x) ∙ length-write_extranonce n x tx

-- Byte `i` of the extranonce stands at `64 + i`.
pub written :
    (n x i : ℕ) (tx : List ℕ)
    → i < n
    → 64 + n ≤ length tx
    → get_or (write_extranonce n x tx) (64 + i) 0 ≡ byte (8 * i) x
unfolding write_extranonce
written zero x i tx h l = absurd (omega arith)
written (suc n) x i tx h l = elim (last_or_less n i h) [
  | inl e ↦ rw e (
      get_or-set_eq (write_extranonce n x tx) (64 + n) (byte (8 * n) x) 0
        (omega (arith, length-write_extranonce n x tx)))
  | inr less ↦
      get_or-set_ne (write_extranonce n x tx) (64 + n) (64 + i) (byte (8 * n) x) 0
        (λ e. omega arith)
      ∙ written n x i tx less (omega arith)
]
  where
    last_or_less : (n i : ℕ) → i < suc n → (i ≡ n) ⊎ (i < n)
    last_or_less n i h = ground arith

six_bytes :
    (x y : ℕ)
    → x < 2 ^ 48
    → y < 2 ^ 48
    → ((i : ℕ) → i < 6 → byte (8 * i) x ≡ byte (8 * i) y)
    → x ≡ y
six_bytes x y hx hy h = omega (
  arith,
  h 0 (omega arith),
  h 1 (omega arith),
  h 2 (omega arith),
  h 3 (omega arith),
  h 4 (omega arith),
  h 5 (omega arith),
)

-- Equal transactions come from equal extranonces.
update_extranonce_injective :
    (t : BlockTemplate) (x y : ℕ)
    → 70 ≤ length t.coinbase_tx
    → x < 2 ^ 48
    → y < 2 ^ 48
    → (update_extranonce t x).coinbase_tx ≡ (update_extranonce t y).coinbase_tx
    → x ≡ y
unfolding update_extranonce coinbase_with
update_extranonce_injective t x y long hx hy e =
    let tx : List ℕ = t.coinbase_tx in
    let same : write_extranonce 6 x tx ≡ write_extranonce 6 y tx =
      sym (ap (λ b. if b then write_extranonce 6 x tx else tx) (le→leb 70 (length tx) long))
      ∙ e
      ∙ ap (λ b. if b then write_extranonce 6 y tx else tx) (le→leb 70 (length tx) long) in
    six_bytes x y hx hy (λ i h.
      sym (written 6 x i tx h long)
      ∙ ap (λ (l : List ℕ). get_or l (64 + i) 0) same
      ∙ written 6 y i tx h long)

-- In a template whose coinbase transaction has at least 70 bytes, two different extranonces below
-- 2 ^ 48 give different coinbase transactions.
pub update_extranonce_distinct :
    (t : BlockTemplate) (x y : ℕ)
    → 70 ≤ length t.coinbase_tx
    → x < 2 ^ 48
    → y < 2 ^ 48
    → x ≢ y
    → (update_extranonce t x).coinbase_tx ≢ (update_extranonce t y).coinbase_tx
update_extranonce_distinct t x y long hx hy ne e =
    ne (update_extranonce_injective t x y long hx hy e)
