-- ===== src/Mining/ShareValidator/Once.antt =====
-- A share is not credited twice.
use avalon_miner.Prelude.{
  ℕ, suc, ◌+◌, ◌%◌, length-drop, ◌^◌, ◌≤◌, ◌<◌, ◌≡◌, refl, ap, sym, subst, ◌∙◌, true, false, List,
  [], ◌∷◌, arith, leb, length, drop, inl, inr, Bool-cases, if_both, option_both,
}
use avalon_miner.Bitcoin.Target.{meets_target}
use avalon_miner.Mining.Job.{Job, Share, is_stale}
use avalon_miner.Mining.JobManager.{JobManager, get_job}
use avalon_miner.Mining.ShareValidator.{
  Floating, ShareValidator, ValidationResult, is_valid, max_seen_shares, contains, insert,
  limit_size, share_key, check_duplicate, check_target, accept_block, check_unseen, check_stale,
  validate, refused, share_hash,
}

Bool_apart : true ≡ false → ⊥
Bool_apart e = ground arith

contains-insert : (key : ℕ) (seen : List ℕ) → contains key (insert key seen) ≡ true
unfolding contains insert
contains-insert key [] = ground arith
contains-insert key (x ∷ seen) = ground (arith, contains-insert key seen)

contains-insert_other :
    (key other : ℕ) (seen : List ℕ)
    → contains key seen ≡ true
    → contains key (insert other seen) ≡ true
unfolding contains insert
contains-insert_other key other [] h = absurd (Bool_apart (sym h))
contains-insert_other key other (x ∷ seen) h = ground (arith, contains-insert_other key other seen)

length-insert : (key : ℕ) (seen : List ℕ) → length (insert key seen) ≤ suc (length seen)
unfolding insert
length-insert key [] = omega arith
length-insert key (x ∷ seen) = ground (arith, length-insert key seen)

limit_size-small : (seen : List ℕ) → length seen < max_seen_shares → limit_size seen ≡ seen
unfolding limit_size
limit_size-small seen h = ground arith

inserted_fits :
    (key : ℕ) (seen : List ℕ)
    → length seen ≤ max_seen_shares
    → length (insert key (limit_size seen)) ≤ max_seen_shares
unfolding limit_size
inserted_fits key seen h = elim (Bool-cases (leb max_seen_shares (length seen))) [
  | inl e ↦
      rw e (let fits = length-insert key (drop 10000 seen) in omega (arith, length-drop 10000 seen))
  | inr e ↦ rw e (
      let fits = length-insert key seen in
      let below : length seen < max_seen_shares = ground arith in omega arith)
]

-- A call: the jobs and the time that it finds, and the share.
pub record Submission : Type 0 where
  pub jobs : JobManager
  pub now : ℕ
  pub share : Share

-- How a call ends, for the keys that were there: before the duplicates are looked for, with a share
-- whose key is there, or with one whose key is not.
data Ends {D : Type 0} (key : ℕ) (seen : List ℕ) (r : ShareValidator D × ValidationResult D)
    : Type 0 where
  early : r.0.seen_shares ≡ seen → is_valid r.1 ≡ false → Ends key seen r
  twice : r.0.seen_shares ≡ insert key (limit_size seen) → is_valid r.1 ≡ false → Ends key seen r
  fresh :
      r.0.seen_shares ≡ insert key (limit_size seen)
      → contains key (limit_size seen) ≡ false
      → Ends key seen r

module _ {D : Type 0} (f : Floating D) where
  check_target-seen_shares :
      (v : ShareValidator D) (job : Job) (s : Share)
      → (check_target f v job s).0.seen_shares ≡ v.seen_shares
  unfolding check_target accept_block
  check_target-seen_shares v job s =
      let Same : ShareValidator D × ValidationResult D → Type 0 =
        λ r. r.0.seen_shares ≡ v.seen_shares in
      if_both Same (meets_target (share_hash job s) job.target) _ _
        (if_both (λ (w : ShareValidator D). w.seen_shares ≡ v.seen_shares) v.valid_block_callback _
          _ refl refl)
        (if_both Same (f.at_least (f.target_to_difficulty (share_hash job s)) v.partial_difficulty)
          _ _ refl refl)

  check_unseen-Ends :
      (v : ShareValidator D) (job : Job) (s : Share)
      → Ends (share_key s) v.seen_shares (check_unseen f v job s)
  unfolding check_unseen check_duplicate is_valid refused
  check_unseen-Ends v job s =
      elim (Bool-cases (contains (share_key s) (limit_size v.seen_shares))) [
        | inl e ↦ rw e (twice refl refl)
        | inr e ↦ rw e (fresh (check_target-seen_shares (check_duplicate v s).0 job s) e)
      ]

  validate-Ends :
      (v : ShareValidator D) (m : JobManager) (now : ℕ) (s : Share)
      → Ends (share_key s) v.seen_shares (validate f v m now s)
  unfolding validate check_stale is_valid refused
  validate-Ends v m now s =
      let counted = record v { total_shares = (v.total_shares + 1) % 2 ^ 64 } in
      option_both (Ends (share_key s) v.seen_shares) (get_job m s.job_id) _ _ (early refl refl)
        (λ job.
          if_both (Ends (share_key s) v.seen_shares) (is_stale now 60 job) _ _ (early refl refl)
            (check_unseen-Ends counted job s))

  abbrev pub submit : ShareValidator D → Submission → ShareValidator D × ValidationResult D
  submit v u = validate f v u.jobs u.now u.share

  abbrev pub submit_all : ShareValidator D → List Submission → ShareValidator D
  submit_all v [] = v
  submit_all v (u ∷ us) = submit_all (submit v u).0 us

  Ends-bound :
      (key : ℕ) (seen : List ℕ) (r : ShareValidator D × ValidationResult D)
      → Ends key seen r
      → length seen ≤ max_seen_shares
      → length r.0.seen_shares ≤ max_seen_shares
  unfolding limit_size
  Ends-bound key seen r (early e not_valid) h = rw e h
  Ends-bound key seen r (twice e not_valid) h = rw e (inserted_fits key seen h)
  Ends-bound key seen r (fresh e not_valid) h = rw e (inserted_fits key seen h)

  -- Whatever is submitted, the keys never become more than 100,000.
  pub submit_all-bound :
      (v : ShareValidator D) (us : List Submission)
      → length v.seen_shares ≤ max_seen_shares
      → length (submit_all v us).seen_shares ≤ max_seen_shares
  submit_all-bound v [] h = h
  submit_all-bound v (u ∷ us) h = submit_all-bound (submit v u).0 us (
      Ends-bound (share_key u.share) v.seen_shares (submit v u)
        (validate-Ends v u.jobs u.now u.share) h)

  Ends-small :
      (key other : ℕ) (seen : List ℕ) (r : ShareValidator D × ValidationResult D)
      → Ends other seen r
      → length seen < max_seen_shares
      → contains key seen ≡ true
      → (contains key r.0.seen_shares ≡ true) × (length r.0.seen_shares ≤ suc (length seen))
  Ends-small key other seen r (early e not_valid) h k = rw e (k, omega arith)
  Ends-small key other seen r (twice e not_valid) h k =
      rw (e, limit_size-small seen h)
        (contains-insert_other key other seen k, length-insert other seen)
  Ends-small key other seen r (fresh e not_valid) h k =
      rw (e, limit_size-small seen h)
        (contains-insert_other key other seen k, length-insert other seen)

  still_there :
      (key : ℕ) (v : ShareValidator D) (us : List Submission)
      → length v.seen_shares + length us < max_seen_shares
      → contains key v.seen_shares ≡ true
      → (contains key (submit_all v us).seen_shares ≡ true)
        × (length (submit_all v us).seen_shares < max_seen_shares)
  still_there key v [] h k = (k, omega arith)
  still_there key v (u ∷ us) h k =
      let (there, larger) =
        Ends-small key (share_key u.share) v.seen_shares (submit v u)
          (validate-Ends v u.jobs u.now u.share) (omega arith) k in
      still_there key (submit v u).0 us (omega arith) there

  remembered :
      (key : ℕ) (seen : List ℕ) (r : ShareValidator D × ValidationResult D)
      → Ends key seen r
      → length seen < max_seen_shares
      → is_valid r.1 ≡ true
      → (contains key r.0.seen_shares ≡ true) × (length r.0.seen_shares ≤ suc (length seen))
  remembered key seen r (early e not_valid) h is_ok = absurd (Bool_apart (sym is_ok ∙ not_valid))
  remembered key seen r (twice e not_valid) h is_ok = absurd (Bool_apart (sym is_ok ∙ not_valid))
  remembered key seen r (fresh e not_valid) h is_ok =
      rw (e, limit_size-small seen h) (contains-insert key seen, length-insert key seen)

  refused_again :
      (key : ℕ) (seen : List ℕ) (r : ShareValidator D × ValidationResult D)
      → Ends key seen r
      → length seen < max_seen_shares
      → contains key seen ≡ true
      → is_valid r.1 ≡ false
  refused_again key seen r (early e not_valid) h k = not_valid
  refused_again key seen r (twice e not_valid) h k = not_valid
  refused_again key seen r (fresh e not_valid) h k =
      absurd (Bool_apart (sym k ∙ ap (contains key) (sym (limit_size-small seen h)) ∙ not_valid))

  -- A share that has been credited is not credited again, whatever is submitted in between and
  -- whatever has become of the jobs, as long as the keys and the submissions in between are together
  -- fewer than 99,999.
  pub validate_once :
      (v : ShareValidator D) (first again : Submission) (us : List Submission)
      → again.share ≡ first.share
      → length v.seen_shares + length us + 1 < max_seen_shares
      → is_valid (submit v first).1 ≡ true
      → is_valid (submit (submit_all (submit v first).0 us) again).1 ≡ false
  validate_once v first again us same few credited =
      let key = share_key first.share in
      let (there, larger) =
        remembered key v.seen_shares (submit v first)
          (validate-Ends v first.jobs first.now first.share) (omega arith) credited in
      let (still, room) = still_there key (submit v first).0 us (omega arith) there in
      refused_again (share_key again.share) (submit_all (submit v first).0 us).seen_shares
        (submit (submit_all (submit v first).0 us) again)
        (validate-Ends (submit_all (submit v first).0 us) again.jobs again.now again.share) room
        (subst
          (λ (s : Share).
            contains (share_key s) (submit_all (submit v first).0 us).seen_shares ≡ true)
          (sym same) still)
