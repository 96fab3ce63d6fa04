-- ===== src/Mining/JobManager/Newest.antt =====
-- The newest job stays, and is found.
use avalon_miner.Prelude.{
  ℕ, suc, ◌≤◌, ◌<◌, ◌≡◌, refl, ◌∙◌, inl, inr, none, some, List, [], ◌∷◌, arith, ltb, ◌==◌, ==_iff,
  if◌then◌else◌, length, All, if_both, Bool-cases, Option-cases,
}
use avalon_miner.Prelude.Maps.{find, assign, find-assign, find-erase}
use avalon_miner.Bitcoin.Block.{BlockTemplate}
use avalon_miner.Mining.Job.{Job}
use avalon_miner.Mining.JobManager.{
  JobManager, oldest, erase_oldest, store_job, job_of, create_job, get_job,
}
use avalon_miner.Mining.JobManager.Queue.{oldest-cons, nothing, oldest-least}

-- Entries are kept under the ids of their jobs, which were given out before.
abbrev pub Issued : ℕ → ℕ × Job → Type 0
Issued next p = (p.0 ≡ p.1.job_id) × (p.1.job_id < next)

Issued-assign :
    (next k : ℕ) (j : Job) (jobs : List (ℕ × Job))
    → All (Issued next) jobs
    → Issued next (k, j)
    → All (Issued next) (assign ◌==◌ k j jobs)
Issued-assign next k j [] h p = (p, tt)
Issued-assign next k j (x ∷ jobs) h p =
    if_both (All (Issued next)) (k == x.0) _ _ (p, h.1) (h.0, Issued-assign next k j jobs h.1 p)

Issued-oldest :
    (next : ℕ) (jobs : List (ℕ × Job)) (e : ℕ × Job)
    → All (Issued next) jobs
    → oldest jobs ≡ some e
    → Issued next e
Issued-oldest next [] e h q = absurd (nothing q)
Issued-oldest next (x ∷ jobs) e h q = elim (oldest-cons x jobs) [
  | inl (_, r) ↦ let same : x ≡ e = cc in rw (← same) h.0
  | inr (later, (found, inl (_, r))) ↦
      let same : later ≡ e = cc in rw (← same) (Issued-oldest next jobs later h.1 found)
  | inr (later, (found, inr (_, r))) ↦ let same : x ≡ e = cc in rw (← same) h.0
]

Issued-weaken :
    (next : ℕ) (jobs : List (ℕ × Job)) → All (Issued next) jobs → All (Issued (suc next)) jobs
Issued-weaken next [] h = tt
Issued-weaken next (x ∷ jobs) h = ((h.0.0, omega (arith, h.0.1)), Issued-weaken next jobs h.1)

-- A job with a newer id than all others is not the one that is erased, if one other is kept.
newest-not_oldest :
    (limit : ℕ) (j : Job) (jobs : List (ℕ × Job)) (e : ℕ × Job)
    → 1 ≤ limit
    → All (Issued j.job_id) jobs
    → limit < length (assign ◌==◌ j.job_id j jobs)
    → oldest (assign ◌==◌ j.job_id j jobs) ≡ some e
    → e.1.job_id < j.job_id
newest-not_oldest limit j [] e l h long q = absurd (omega arith)
newest-not_oldest limit j ((k, i) ∷ jobs) e l h long q =
    let before : find ◌==◌ k ((k, i) ∷ jobs) ≡ some i = ground arith in
    let older = h.0 in
    let kept : find ◌==◌ k (assign ◌==◌ j.job_id j ((k, i) ∷ jobs)) ≡ some i =
      find-assign ◌==◌ ==_iff k j.job_id j ((k, i) ∷ jobs) ∙ ground arith in
    omega
      (arith, older.0, older.1, oldest-least (assign ◌==◌ j.job_id j ((k, i) ∷ jobs)) e k i q kept)

-- A job that is newer than all others is found after it was stored, unless the limit is 0.
pub find-store_job :
    (limit : ℕ) (j : Job) (jobs : List (ℕ × Job))
    → 1 ≤ limit
    → All (Issued j.job_id) jobs
    → find ◌==◌ j.job_id (store_job limit j jobs) ≡ some j
unfolding store_job erase_oldest
find-store_job limit j jobs l h =
    let stored : List (ℕ × Job) = assign ◌==◌ j.job_id j jobs in
    let there : find ◌==◌ j.job_id stored ≡ some j =
      find-assign ◌==◌ ==_iff j.job_id j.job_id j jobs ∙ ground arith in
    elim (Bool-cases (ltb limit (length stored))) [
      | inr f ↦ rw f there
      | inl t ↦ elim (Option-cases (oldest stored)) [
        | inl n ↦ rw (t, erase_oldest, n) there
        | inr (e, found) ↦
            let long : limit < length stored = ground arith in
            let less = newest-not_oldest limit j jobs e l h long found in
            let key =
              Issued-oldest (suc j.job_id) stored e
                (Issued-assign (suc j.job_id) j.job_id j jobs (Issued-weaken j.job_id jobs h)
                  (refl, omega arith))
                found in
            rw (t, erase_oldest, found)
              (find-erase ◌==◌ ==_iff j.job_id e.0 stored
                ∙ kept e.0 (omega (arith, key.0, less)) stored there)
      ]
    ]
  where
    kept :
        (k : ℕ)
        → k < j.job_id
        → (xs : List (ℕ × Job)) → find ◌==◌ j.job_id xs ≡ some j
        → (if j.job_id == k then none else find ◌==◌ j.job_id xs) ≡ some j
    kept k h' xs g = ground arith

id_of : (m : JobManager) (t : BlockTemplate) (now : ℕ) → (job_of m t now).job_id ≡ m.next_job_id
unfolding job_of
id_of m t now = refl

-- The job that was handed out last is found by its id, as long as the manager keeps at least one
-- job and all jobs it keeps have ids below the new one, under which they are stored.
pub get_job-create_job :
    (m : JobManager) (t : BlockTemplate) (now : ℕ)
    → 1 ≤ m.job_queue_size
    → All (Issued m.next_job_id) m.jobs
    → get_job ((create_job m t now).0) m.next_job_id ≡ some ((create_job m t now).1)
unfolding get_job create_job
get_job-create_job m t now l h = latest (job_of m t now) (id_of m t now)
  where
    latest :
        (j : Job)
        → j.job_id ≡ m.next_job_id
        → find ◌==◌ m.next_job_id (store_job m.job_queue_size j m.jobs) ≡ some j
    latest j e = rw (← e) (find-store_job m.job_queue_size j m.jobs l (rw e h))
