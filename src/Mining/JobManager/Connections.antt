-- ===== src/Mining/JobManager/Connections.antt =====
-- Connections never work on the same coinbase transaction.
use avalon_miner.Prelude.{ℕ, ◌≤◌, ◌≡◌, ◌≢◌, ◌^◌, ◌∙◌, sym, ap, some, arith, length}
use avalon_miner.Bitcoin.Block.{BlockTemplate, update_extranonce}
use avalon_miner.Bitcoin.Block.Coinbase.{update_extranonce_distinct}
use avalon_miner.Mining.Extranonce.{ExtrannonceManager, Distinct, get_extranonce}

-- When the manager's extranonces are distinct and below 2 ^ 48, and the template's coinbase
-- transaction has at least 70 bytes, the templates of two different connections have different
-- coinbase transactions.
pub connections_differ :
    (m : ExtrannonceManager) (t : BlockTemplate) (c d x y : ℕ)
    → Distinct m
    → m.next_extranonce ≤ 2 ^ 48
    → 70 ≤ length t.coinbase_tx
    → get_extranonce m c ≡ some x
    → get_extranonce m d ≡ some y
    → c ≢ d
    → (update_extranonce t x).coinbase_tx ≢ (update_extranonce t y).coinbase_tx
connections_differ m t c d x y w bound long gx gy ne =
    update_extranonce_distinct t x y long (omega (arith, w.fresh c x gx))
      (omega (arith, w.fresh d y gy)) (λ e. ne (w.own c d x gx (gy ∙ ap some (sym e))))
