-- ===== src/Mining/Extranonce.antt =====
-- src/mining/extranonce_manager.cpp: the extranonce of each connection.
-- The counter is a `uint64_t`; each method is one step under the mutex.
use avalon_miner.Prelude.{
  ℕ, ◌+◌, ◌%◌, ◌^◌, ◌<◌, ◌≡◌, refl, ◌∙◌, Bool, true, false, Option, none, some, List, [], arith,
  ◌==◌, ==_iff, if◌then◌else◌, length, map,
}
use avalon_miner.Prelude.Maps.{find, assign, erase, find-assign, find-erase}

pub record ExtrannonceManager : Type 0 where
  pub next_extranonce : ℕ
  pub connection_extranonces : List (ℕ × ℕ)

unfoldable pub start_from : ℕ → ExtrannonceManager
start_from start_value = record { next_extranonce = start_value; connection_extranonces = [] }

-- The manager after the call, and the extranonce.
unfoldable pub assign_extranonce : ExtrannonceManager → ℕ → ExtrannonceManager × ℕ
assign_extranonce m connection_id = (
  record {
    next_extranonce = (m.next_extranonce + 1) % 2 ^ 64;
    connection_extranonces = assign ◌==◌ connection_id m.next_extranonce m.connection_extranonces;
  },
  m.next_extranonce,
)

unfoldable pub release_extranonce : ExtrannonceManager → ℕ → ExtrannonceManager
release_extranonce m connection_id = record {
  next_extranonce = m.next_extranonce;
  connection_extranonces = erase ◌==◌ connection_id m.connection_extranonces;
}

unfoldable pub get_extranonce : ExtrannonceManager → ℕ → Option ℕ
get_extranonce m connection_id = find ◌==◌ connection_id m.connection_extranonces

unfoldable pub has_extranonce : ExtrannonceManager → ℕ → Bool
has_extranonce m connection_id = elim (get_extranonce m connection_id) [
  | none ↦ false
  | some e ↦ true
]

unfoldable pub active_count : ExtrannonceManager → ℕ
active_count m = length m.connection_extranonces

unfoldable pub get_active_connections : ExtrannonceManager → List ℕ
get_active_connections m = map (λ c. c.0) m.connection_extranonces

-- No two connections share an extranonce, and the next one is fresh.
pub record Distinct (m : ExtrannonceManager) : Type 0 where
  pub fresh : (c e : ℕ) → get_extranonce m c ≡ some e → e < m.next_extranonce
  pub own : (c d e : ℕ) → get_extranonce m c ≡ some e → get_extranonce m d ≡ some e → c ≡ d

-- A lookup after an assignment.
pub get-assign :
    (m : ExtrannonceManager) (k c : ℕ)
    → get_extranonce ((assign_extranonce m k).0) c
      ≡ (if c == k then some m.next_extranonce else get_extranonce m c)
unfolding get_extranonce assign_extranonce
get-assign m k c = find-assign ◌==◌ ==_iff c k m.next_extranonce m.connection_extranonces

-- A lookup after a release.
pub get-release :
    (m : ExtrannonceManager) (k c : ℕ)
    → get_extranonce (release_extranonce m k) c ≡ (if c == k then none else get_extranonce m c)
unfolding get_extranonce release_extranonce
get-release m k c = find-erase ◌==◌ ==_iff c k m.connection_extranonces

next-assign :
    (m : ExtrannonceManager) (k : ℕ)
    → (assign_extranonce m k).0.next_extranonce ≡ (m.next_extranonce + 1) % 2 ^ 64
unfolding assign_extranonce
next-assign m k = refl

next-release :
    (m : ExtrannonceManager) (k : ℕ) → (release_extranonce m k).next_extranonce ≡ m.next_extranonce
unfolding release_extranonce
next-release m k = refl

-- While the 64-bit counter does not wrap, an assignment to any connection, new or not, keeps all
-- extranonces distinct and below the counter, and the connection has the one that was returned.
pub assign_extranonce-Distinct :
    (m : ExtrannonceManager) (k : ℕ)
    → Distinct m
    → m.next_extranonce + 1 < 2 ^ 64
    → Distinct ((assign_extranonce m k).0)
      × (get_extranonce ((assign_extranonce m k).0) k ≡ some ((assign_extranonce m k).1))
unfolding assign_extranonce
assign_extranonce-Distinct m k w h =
    (record { fresh = fresh'; own = own' }, get-assign m k k ∙ ground arith)
  where
    m' : ExtrannonceManager
    m' = (assign_extranonce m k).0

    fresh' : (c e : ℕ) → get_extranonce m' c ≡ some e → e < m'.next_extranonce
    fresh' c e g = let old = w.fresh c e in ground (arith, get-assign m k c, next-assign m k)

    own' : (c d e : ℕ) → get_extranonce m' c ≡ some e → get_extranonce m' d ≡ some e → c ≡ d
    own' c d e gc gd =
        let oldc = w.fresh c e in
        let oldd = w.fresh d e in
        let same = w.own c d e in ground (arith, get-assign m k c, get-assign m k d)

-- A release keeps the extranonces distinct and below the counter, and the connection has none
-- behind it.
pub release_extranonce-Distinct :
    (m : ExtrannonceManager) (k : ℕ)
    → Distinct m
    → Distinct (release_extranonce m k) × (get_extranonce (release_extranonce m k) k ≡ none)
release_extranonce-Distinct m k w =
    (record { fresh = fresh'; own = own' }, get-release m k k ∙ ground arith)
  where
    fresh' :
        (c e : ℕ)
        → get_extranonce (release_extranonce m k) c ≡ some e
        → e < (release_extranonce m k).next_extranonce
    fresh' c e g = let old = w.fresh c e in ground (arith, get-release m k c, next-release m k)

    own' :
        (c d e : ℕ)
        → get_extranonce (release_extranonce m k) c ≡ some e
        → get_extranonce (release_extranonce m k) d ≡ some e
        → c ≡ d
    own' c d e gc gd =
        let same = w.own c d e in ground (arith, get-release m k c, get-release m k d)
