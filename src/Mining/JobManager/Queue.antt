-- ===== src/Mining/JobManager/Queue.antt =====
-- The oldest job, and the bound on the number of jobs.
use avalon_miner.Prelude.{
  ℕ, ◌≤◌, ◌<◌, ◌≡◌, refl, ap, ◌∙◌, ◌⊎◌, inl, inr, false, none, some, List, [], ◌∷◌, arith, ltb,
  ◌==◌, length, Bool-cases, Option-cases,
}
use avalon_miner.Prelude.Maps.{find, assign, length-assign, length-erase}
use avalon_miner.Mining.Job.{Job}
use avalon_miner.Mining.JobManager.{oldest, erase_oldest, store_job}

pub oldest-cons :
    (x : ℕ × Job) (jobs : List (ℕ × Job))
    → ((oldest jobs ≡ none) × (oldest (x ∷ jobs) ≡ some x))
      ⊎ ((later : ℕ × Job) × ((oldest jobs ≡ some later)
            × (((later.1.job_id < x.1.job_id) × (oldest (x ∷ jobs) ≡ some later))
                ⊎ ((x.1.job_id ≤ later.1.job_id) × (oldest (x ∷ jobs) ≡ some x)))))
unfolding oldest
oldest-cons x jobs = elim (Option-cases (oldest jobs)) [
  | inl last ↦ inl (last, rw last refl)
  | inr (later, found) ↦ elim (Bool-cases (ltb later.1.job_id x.1.job_id)) [
    | inl t ↦ inr (later, (found, inl (ground arith, rw (found, t) refl)))
    | inr f ↦ inr (later, (found, inr (ground arith, rw (found, f) refl)))
  ]
]

-- The entry that `oldest` names is there.
pub oldest-found :
    (jobs : List (ℕ × Job)) (e : ℕ × Job)
    → oldest jobs ≡ some e
    → (j : Job) × (find ◌==◌ e.0 jobs ≡ some j)
unfolding oldest
oldest-found [] e h = cc
oldest-found (x ∷ jobs) e h = elim (Bool-cases (e.0 == x.0)) [
  | inl t ↦ (x.1, rw t refl)
  | inr f ↦ elim (oldest-cons x jobs) [
    | inl (_, q) ↦ absurd (differs f cc)
    | inr (later, (found, inr (_, q))) ↦ absurd (differs f cc)
    | inr (later, (found, inl (_, q))) ↦
        let same : later ≡ e = cc in
        let (j, ih) = oldest-found jobs e (found ∙ ap some same) in (j, rw f ih)
  ]
]
  where
    differs : (e.0 == x.0) ≡ false → x ≡ e → ⊥
    differs f q = let keys : x.0 ≡ e.0 = ap (λ (p : ℕ × Job). p.0) q in ground arith

-- Storing a job keeps the number of jobs within the limit.
pub store_job-bound :
    (limit : ℕ) (j : Job) (jobs : List (ℕ × Job))
    → length jobs ≤ limit
    → length (store_job limit j jobs) ≤ limit
unfolding store_job erase_oldest
store_job-bound limit j jobs h =
    let stored : List (ℕ × Job) = assign ◌==◌ j.job_id j jobs in
    let grown = length-assign ◌==◌ j.job_id j jobs in
    elim (Bool-cases (ltb limit (length stored))) [
      | inr f ↦ rw f (ground arith)
      | inl t ↦
          let (e, found) = oldest-of stored (ground arith) in
          let (i, there) = oldest-found stored e found in
          rw (t, erase_oldest, found) (omega (arith, length-erase ◌==◌ e.0 i stored there))
    ]
  where
    oldest-of : (xs : List (ℕ × Job)) → 0 < length xs → (e : ℕ × Job) × (oldest xs ≡ some e)
    oldest-of [] n = absurd (omega arith)
    oldest-of (x ∷ xs) n = elim (oldest-cons x xs) [
      | inl (_, q) ↦ (x, q)
      | inr (later, (_, inl (_, q))) ↦ (later, q)
      | inr (later, (_, inr (_, q))) ↦ (x, q)
    ]

pub oldest-none :
    (jobs : List (ℕ × Job)) (k : ℕ) (j : Job) → oldest jobs ≡ none → find ◌==◌ k jobs ≡ some j → ⊥
oldest-none [] k j h g = cc
oldest-none (x ∷ jobs) k j h g = elim (oldest-cons x jobs) [
  | inl (_, q) ↦ cc
  | inr (later, (_, inl (_, q))) ↦ cc
  | inr (later, (_, inr (_, q))) ↦ cc
]

pub nothing : {e : ℕ × Job} → oldest [] ≡ some e → ⊥
unfolding oldest
nothing q = cc

-- No job in the list is older than the one that `oldest` names.
pub oldest-least :
    (jobs : List (ℕ × Job)) (e : ℕ × Job) (k : ℕ) (j : Job)
    → oldest jobs ≡ some e
    → find ◌==◌ k jobs ≡ some j
    → e.1.job_id ≤ j.job_id
oldest-least [] e k j h g = cc
oldest-least (x ∷ jobs) e k j h g = elim (oldest-cons x jobs) [
  | inl (last, q) ↦
      let same : x ≡ e = cc in
      let ids = ap (λ (p : ℕ × Job). p.1.job_id) same in
      elim (Bool-cases (k == x.0)) [
        | inl t ↦
            let here : x.1 ≡ j = ground arith in omega (arith, ids, ap (λ (i : Job). i.job_id) here)
        | inr f ↦
            let g' : find ◌==◌ k jobs ≡ some j = ground arith in
            absurd (oldest-none jobs k j last g')
      ]
  | inr (later, (found, inl (less, q))) ↦
      let same : later ≡ e = cc in
      let ids = ap (λ (p : ℕ × Job). p.1.job_id) same in
      elim (Bool-cases (k == x.0)) [
        | inl t ↦
            let here : x.1 ≡ j = ground arith in
            omega (arith, ids, less, ap (λ (i : Job). i.job_id) here)
        | inr f ↦
            let g' : find ◌==◌ k jobs ≡ some j = ground arith in
            omega (arith, ids, oldest-least jobs later k j found g')
      ]
  | inr (later, (found, inr (less, q))) ↦
      let same : x ≡ e = cc in
      let ids = ap (λ (p : ℕ × Job). p.1.job_id) same in
      elim (Bool-cases (k == x.0)) [
        | inl t ↦
            let here : x.1 ≡ j = ground arith in omega (arith, ids, ap (λ (i : Job). i.job_id) here)
        | inr f ↦
            let g' : find ◌==◌ k jobs ≡ some j = ground arith in
            omega (arith, ids, less, oldest-least jobs later k j found g')
      ]
]
