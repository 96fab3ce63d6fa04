-- ===== src/Prelude/Maps.antt =====
-- `std::unordered_map` as an association list with a Boolean equality of keys. The order of the
-- entries is not meant to matter.
use Prim.Native.Nat.{suc, ◌≤◌, ◌<◌}
use mathlib.Core.Path.{◌≡◌, refl, ap, sym, ◌∙◌}
use mathlib.Core.Logic.{◌↔◌, inl, inr}
use mathlib.Core.Bool.{Bool, true, false}
use mathlib.Core.Option.{Option, none, some}
use mathlib.Core.List.{List, [], ◌∷◌}
use native.Mathlib.Omega.{arith}
use avalon_miner.Prelude.Tests.{if◌then◌else◌, Bool-cases}
use avalon_miner.Prelude.Lists.{length}

module _ {ℓ κ} {K : Type ℓ} {V : Type κ} (same : K → K → Bool) where
  abbrev pub find : K → List (K × V) → Option V
  find k [] = none
  find k ((k', v) ∷ m) = if same k k' then some v else find k m

  -- `m[k] = v`
  abbrev pub assign : K → V → List (K × V) → List (K × V)
  assign k v [] = (k, v) ∷ []
  assign k v ((k', v') ∷ m) = if same k k' then (k, v) ∷ m else (k', v') ∷ assign k v m

  -- `m.erase(k)`
  abbrev pub erase : K → List (K × V) → List (K × V)
  erase k [] = []
  erase k ((k', v) ∷ m) = if same k k' then erase k m else (k', v) ∷ erase k m

  pub length-erase_le : (k : K) (m : List (K × V)) → length (erase k m) ≤ length m
  length-erase_le k [] = omega arith
  length-erase_le k ((k', v) ∷ m) = ground (arith, length-erase_le k m)

  -- Erasing a key that is there makes the map smaller.
  pub length-erase :
      (k : K) (v : V) (m : List (K × V)) → find k m ≡ some v → length (erase k m) < length m
  length-erase k v [] h = cc
  length-erase k v ((k', v') ∷ m) h = elim (Bool-cases (same k k')) [
    | inl e ↦ rw e (omega (arith, length-erase_le k m))
    | inr e ↦
        let found : find k m ≡ some v = ground arith in
        rw e (omega (arith, length-erase k v m found))
  ]

  pub length-assign : (k : K) (v : V) (m : List (K × V)) → length (assign k v m) ≤ suc (length m)
  length-assign k v [] = omega arith
  length-assign k v ((k', v') ∷ m) = ground (arith, length-assign k v m)

module _ {ℓ κ} {K : Type ℓ} {V : Type κ} (same : K → K → Bool)
    (same_iff : (a b : K) → (same a b ≡ true) ↔ (a ≡ b)) where
  -- A lookup after an assignment.
  pub find-assign :
      (h k : K) (v : V) (m : List (K × V))
      → find same h (assign same k v m) ≡ (if same h k then some v else find same h m)
  find-assign h k v [] = refl
  find-assign h k v ((k', v') ∷ m) = elim (Bool-cases (same k k')) [
    | inl e ↦
        let eq : k ≡ k' = (same_iff k k').0 e in
        rw e (elim (Bool-cases (same h k)) [
          | inl t ↦ rw t refl
          | inr f ↦
              let f' : same h k' ≡ false = ap (λ (q : K). same h q) (sym eq) ∙ f in rw (f, f') refl
        ])
    | inr e ↦ rw e (elim (Bool-cases (same h k)) [
      | inl t ↦
          let eq : h ≡ k = (same_iff h k).0 t in
          let f' : same h k' ≡ false = ap (λ (q : K). same q k') eq ∙ e in
          rw (t, f') (find-assign h k v m ∙ ap (λ b. if b then some v else find same h m) t)
      | inr f ↦ elim (Bool-cases (same h k')) [
        | inl t' ↦ rw (f, t') refl
        | inr f' ↦
            rw (f, f') (find-assign h k v m ∙ ap (λ b. if b then some v else find same h m) f)
      ]
    ])
  ]

  -- A lookup after an erasure.
  pub find-erase :
      (h k : K) (m : List (K × V))
      → find same h (erase same k m) ≡ (if same h k then none else find same h m)
  find-erase h k [] = ground arith
  find-erase h k ((k', v') ∷ m) = elim (Bool-cases (same k k')) [
    | inl e ↦
        let eq : k ≡ k' = (same_iff k k').0 e in
        rw e (
          find-erase h k m ∙ elim (Bool-cases (same h k)) [
            | inl t ↦ rw t refl
            | inr f ↦
                let f' : same h k' ≡ false = ap (λ (q : K). same h q) (sym eq) ∙ f in
                rw (f, f') refl
          ])
    | inr e ↦ rw e (elim (Bool-cases (same h k)) [
      | inl t ↦
          let eq : h ≡ k = (same_iff h k).0 t in
          let f' : same h k' ≡ false = ap (λ (q : K). same q k') eq ∙ e in
          rw (t, f') (find-erase h k m ∙ ap (λ b. if b then none else find same h m) t)
      | inr f ↦ elim (Bool-cases (same h k')) [
        | inl t' ↦ rw (f, t') refl
        | inr f' ↦ rw (f, f') (find-erase h k m ∙ ap (λ b. if b then none else find same h m) f)
      ]
    ])
  ]
