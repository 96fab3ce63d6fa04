-- ===== src/Mining/TemplateCache/Built.antt =====
-- Whatever calls the cache gets, the templates in it are work of its builder, for any extranonce.
use avalon_miner.Prelude.{
  ℕ, ◌+◌, ◌%◌, ◌^◌, ◌≡◌, refl, ap, sym, subst, ◌∙◌, Bool, true, false, Option, none, some, List, [],
  ◌∷◌, length, option_both,
}
use avalon_miner.Crypto.Sha256.{sha256d, compute_midstate}
use avalon_miner.Bitcoin.Target.{bits_to_target}
use avalon_miner.Bitcoin.Block.{
  BlockTemplate, header_midstate_of, serialize, update_extranonce, coinbase_with, with_merkle_root,
}
use avalon_miner.Bitcoin.Coinbase.{CoinbaseBuilder, build, build_with_midstate, compute_txid}
use avalon_miner.Bitcoin.Coinbase.Bytes.{coinbase_with-build, build_with_midstate-constant}
use avalon_miner.Mining.TemplateCache.{
  TemplateCache, template_cache, Block, create_template, template_header, update_template,
  next_block, precompute_next, activate_precomputed, clear, Call, update, precompute, activate,
  empty, after_call, run,
}

-- The extranonce of a template that was made with one can be changed to any other: this gives the
-- template made with the other.
pub update_extranonce-create_template :
    (b : CoinbaseBuilder) (k : Block) (x y : ℕ)
    → length b.pubkey_hash ≡ 20
    → update_extranonce (create_template b k x) y ≡ create_template b k y
unfolding update_extranonce create_template build_with_midstate with_merkle_root template_header
    compute_txid
update_extranonce-create_template b k x y h =
    let tx : coinbase_with y (build b k.height k.coinbase_value x)
        ≡ build b k.height k.coinbase_value y =
      coinbase_with-build b k.height k.coinbase_value y x h in
    let mid : compute_midstate (build b k.height k.coinbase_value x)
        ≡ compute_midstate (build b k.height k.coinbase_value y) =
      build_with_midstate-constant b k.height k.coinbase_value x k.coinbase_value y in
    λ i. record {
      height = k.height;
      header = template_header k (sha256d (tx i));
      header_midstate = header_midstate_of (template_header k (sha256d (tx i)));
      coinbase_tx = tx i;
      coinbase_midstate = mid i;
      target = bits_to_target k.bits;
      coinbase_value = k.coinbase_value;
      is_speculative = false;
    }

-- A template that the builder makes for some block and extranonce.
abbrev IsMade : CoinbaseBuilder → BlockTemplate → Type 0
IsMade b t = (k : Block) × (x : ℕ) × (t ≡ create_template b k x)

abbrev AllMade : CoinbaseBuilder → Option BlockTemplate → Type 0
AllMade b o = elim o [ none ↦ Unit {0} | some t ↦ IsMade b t ]

record IsStocked (b : CoinbaseBuilder) (c : TemplateCache) : Type 0 where
  builder : c.coinbase_builder ≡ b
  current : AllMade b c.current_template
  precomputed : AllMade b c.precomputed_template

after_call-IsStocked :
    (b : CoinbaseBuilder) (c : TemplateCache) (call : Call)
    → IsStocked b c
    → IsStocked b (after_call c call)
unfolding after_call update_template precompute_next activate_precomputed clear
after_call-IsStocked b c (update k) s =
    let x = (c.current_extranonce + 1) % 2 ^ 64 in
    record {
      builder = s.builder;
      current = (k, x, ap (λ (d : CoinbaseBuilder). create_template d k x) s.builder);
      precomputed = s.precomputed;
    }
after_call-IsStocked b c (precompute height bits) s =
    option_both (IsStocked b) c.current_template c
      (λ t. record c {
        precomputed_template =
            some
              (create_template c.coinbase_builder (next_block t height bits) c.current_extranonce);
      })
      s
      (λ t. record {
        builder = s.builder;
        current = s.current;
        precomputed = (
          next_block t height bits,
          c.current_extranonce,
          ap
              (λ (d : CoinbaseBuilder).
                create_template d (next_block t height bits) c.current_extranonce)
              s.builder,
        );
      })
after_call-IsStocked b c activate s = activated c.precomputed_template s.precomputed
  where
    activated :
        (o : Option BlockTemplate)
        → AllMade b o
        → IsStocked b
            (elim o as (λ _. TemplateCache × Bool) [
              | none ↦ (c, false)
              | some t ↦ (record c { current_template = some t; precomputed_template = none }, true)
            ]).0
    activated none made = s
    activated (some t) made = record { builder = s.builder; current = made; precomputed = tt }
after_call-IsStocked b c empty s = record { builder = s.builder; current = tt; precomputed = tt }

run-IsStocked :
    (b : CoinbaseBuilder) (calls : List Call) (c : TemplateCache)
    → IsStocked b c
    → IsStocked b (run c calls)
unfolding run
run-IsStocked b [] c s = s
run-IsStocked b (call ∷ calls) c s =
    run-IsStocked b calls (after_call c call) (after_call-IsStocked b c call s)

-- Work on a block of the builder: the coinbase transaction carries the extranonce, the merkle root
-- is its hash, and the midstates and the target are those of the transaction and of the header.
pub record IsWork (b : CoinbaseBuilder) (x : ℕ) (t : BlockTemplate) : Type 0 where
  pub carries : t.coinbase_tx ≡ build b t.height t.coinbase_value x
  pub rooted : t.header.merkle_root ≡ sha256d t.coinbase_tx
  pub header_hashed : t.header_midstate ≡ compute_midstate (serialize t.header)
  pub coinbase_hashed : t.coinbase_midstate ≡ compute_midstate t.coinbase_tx
  pub aims : t.target ≡ bits_to_target t.header.bits

create_template-IsWork :
    (b : CoinbaseBuilder) (k : Block) (x : ℕ) → IsWork b x (create_template b k x)
unfolding create_template build_with_midstate compute_txid template_header header_midstate_of
create_template-IsWork b k x = record {
  carries = refl;
  rooted = refl;
  header_hashed = refl;
  coinbase_hashed = refl;
  aims = refl;
}

-- Whatever calls a new cache gets, its current template with any extranonce set is work of its
-- builder, if the hash of the key has 20 bytes.
pub run-IsWork :
    (b : CoinbaseBuilder) (calls : List Call) (t : BlockTemplate) (x : ℕ)
    → length b.pubkey_hash ≡ 20
    → (run (template_cache b) calls).current_template ≡ some t
    → IsWork b x (update_extranonce t x)
unfolding template_cache
run-IsWork b calls t x h e =
    let stocked : IsStocked b (run (template_cache b) calls) =
      run-IsStocked b calls (template_cache b)
        (record { builder = refl; current = tt; precomputed = tt }) in
    let (k, y, made) = subst (AllMade b) e (stocked.current) in
    subst (IsWork b x)
      (sym (
        ap (λ (u : BlockTemplate). update_extranonce u x) made
        ∙ update_extranonce-create_template b k y x h))
      (create_template-IsWork b k x)
