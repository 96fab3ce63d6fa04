-- ===== src/Core/MtpCalculator/Ring.antt =====
-- The ring holds the latest eleven timestamps, so the median time past is their median.
use avalon_miner.Prelude.{
  ℕ, suc, ◌+◌, ◌-◌, ◌%◌, ◌≤◌, ◌<◌, ◌≡◌, refl, ap, sym, subst, ◌∙◌, min, List, [], ◌∷◌, ◌++◌, arith,
  leb, length, get_or, set, drop, replicate, length-append, length-drop,
}
use avalon_miner.Prelude.Slices.{drop-add}
use mathlib.Core.List.{append-nil, append_assoc}
use avalon_miner.Core.MtpCalculator.{
  MtpCalculator, mtp_block_count, initial, push_timestamp, reset, get_mtp, has_sufficient_data,
  sort,
}
use avalon_miner.Core.MtpCalculator.Sorting.{sort-swap, IsMedian, sort-IsMedian}

-- The calculator after the timestamps have been pushed in turn.
unfoldable pub push_all : MtpCalculator → List ℕ → MtpCalculator
push_all m [] = m
push_all m (t ∷ ts) = push_all (push_timestamp m t) ts

-- The array is `older`, written last, before the place of the next write, and `newer` from there.
record Holds (m : MtpCalculator) (window : List ℕ) (pushed : ℕ) : Type 0 where
  older : List ℕ
  next : ℕ
  newer : List ℕ
  array : m.timestamps ≡ older ++ (next ∷ newer)
  head : m.head ≡ length older
  size : length older + length newer ≡ 10
  in_order : window ≡ (next ∷ newer) ++ older
  number : m.count ≡ min mtp_block_count pushed

set-append :
    (older : List ℕ) (x : ℕ) (newer : List ℕ) (v : ℕ)
    → set (older ++ (x ∷ newer)) (length older) v ≡ older ++ (v ∷ newer)
set-append [] x newer v = refl
set-append (o ∷ older) x newer v = ap (◌∷◌ o) (set-append older x newer v)

written :
    (m : MtpCalculator) (older newer : List ℕ) (next t : ℕ)
    → m.timestamps ≡ older ++ (next ∷ newer)
    → m.head ≡ length older
    → (push_timestamp m t).timestamps ≡ older ++ (t ∷ newer)
unfolding push_timestamp
written m older newer next t array head = rw (array, head) (set-append older next newer t)

counted :
    (m : MtpCalculator) (pushed t : ℕ)
    → m.count ≡ min mtp_block_count pushed
    → (push_timestamp m t).count ≡ min mtp_block_count (suc pushed)
unfolding push_timestamp
counted m pushed t number = ground arith

moved :
    (m : MtpCalculator) (t n : ℕ) → m.head ≡ n → (push_timestamp m t).head ≡ suc n % mtp_block_count
unfolding push_timestamp
moved m t n head = ground arith

shifted :
    (window rest : List ℕ) (next t : ℕ)
    → window ≡ next ∷ rest
    → drop 1 window ++ (t ∷ []) ≡ rest ++ (t ∷ [])
shifted window rest next t e = ap (λ (w : List ℕ). drop 1 w ++ (t ∷ [])) e

stepped :
    (m : MtpCalculator) (window : List ℕ) (pushed t : ℕ) (older newer : List ℕ) (next : ℕ)
    → m.timestamps ≡ older ++ (next ∷ newer)
    → m.head ≡ length older
    → length older + length newer ≡ 10
    → window ≡ next ∷ (newer ++ older)
    → m.count ≡ min mtp_block_count pushed
    → Holds (push_timestamp m t) (drop 1 window ++ (t ∷ [])) (suc pushed)
stepped m window pushed t [] [] next array head size in_order number = absurd (omega arith)
stepped m window pushed t (o ∷ older) [] next array head size in_order number = record {
  older = [];
  next = o;
  newer = older ++ (t ∷ []);
  array = written m (o ∷ older) [] next t array head;
  head = omega (arith, moved m t (suc (length older)) head);
  size = omega (arith, length-append older (t ∷ []));
  in_order =
      shifted window (o ∷ older) next t in_order ∙ sym (append-nil (o ∷ (older ++ (t ∷ []))));
  number = counted m pushed t number;
}
stepped m window pushed t older (n ∷ newer) next array head size in_order number = record {
  older = older ++ (t ∷ []);
  next = n;
  newer = newer;
  array =
      written m older (n ∷ newer) next t array head ∙ sym (append_assoc older (t ∷ []) (n ∷ newer));
  head = omega (arith, moved m t (length older) head, length-append older (t ∷ []));
  size = omega (arith, length-append older (t ∷ []));
  in_order =
      shifted window (n ∷ (newer ++ older)) next t in_order
      ∙ append_assoc (n ∷ newer) older (t ∷ []);
  number = counted m pushed t number;
}

push_timestamp-Holds :
    (m : MtpCalculator) (window : List ℕ) (pushed t : ℕ)
    → Holds m window pushed
    → Holds (push_timestamp m t) (drop 1 window ++ (t ∷ [])) (suc pushed)
push_timestamp-Holds m window pushed t h =
    stepped m window pushed t h.older h.newer h.next h.array h.head h.size h.in_order h.number

-- The latest eleven of the timestamps, zeros standing in for those before the first.
abbrev pub latest : List ℕ → List ℕ
latest pushed = drop (length pushed) (replicate mtp_block_count 0 ++ pushed)

initial-Holds : Holds initial (replicate mtp_block_count 0) 0
unfolding initial
initial-Holds = record {
  older = [];
  next = 0;
  newer = replicate 10 0;
  array = refl;
  head = refl;
  size = omega arith;
  in_order = refl;
  number = omega arith;
}

slide :
    (window ts : List ℕ) (t : ℕ)
    → length window ≡ mtp_block_count
    → drop (length ts) ((drop 1 window ++ (t ∷ [])) ++ ts)
      ≡ drop (suc (length ts)) (window ++ (t ∷ ts))
slide [] ts t e = absurd (omega arith)
slide (w ∷ window) ts t e = ap (drop (length ts)) (append_assoc window (t ∷ []) ts)

slide-length :
    (window : List ℕ) (t : ℕ)
    → length window ≡ mtp_block_count
    → length (drop 1 window ++ (t ∷ [])) ≡ mtp_block_count
slide-length [] t e = absurd (omega arith)
slide-length (w ∷ window) t e = omega (arith, length-append window (t ∷ []))

push_all-Holds :
    (m : MtpCalculator) (window : List ℕ) (pushed : ℕ) (ts : List ℕ)
    → length window ≡ mtp_block_count
    → Holds m window pushed
    → Holds (push_all m ts) (drop (length ts) (window ++ ts)) (pushed + length ts)
unfolding push_all
push_all-Holds m window pushed [] e h =
    let none_more : pushed + 0 ≡ pushed = omega arith in rw (none_more, append-nil window) h
push_all-Holds m window pushed (t ∷ ts) e h =
    let one_more : pushed + suc (length ts) ≡ suc pushed + length ts = omega arith in
    rw (one_more, ← slide window ts t e)
      (push_all-Holds (push_timestamp m t) (drop 1 window ++ (t ∷ [])) (suc pushed) ts
        (slide-length window t e) (push_timestamp-Holds m window pushed t h))

median :
    (m : MtpCalculator) (window : List ℕ) (pushed : ℕ)
    → Holds m window pushed
    → (pushed < mtp_block_count → get_mtp m ≡ 0)
      × (mtp_block_count ≤ pushed → get_mtp m ≡ get_or (sort window) 5 0)
unfolding get_mtp
median m window pushed h =
    let number = h.number in
    let same : sort m.timestamps ≡ sort window =
      ap sort h.array ∙ sort-swap h.older (h.next ∷ h.newer) ∙ ap sort (sym h.in_order) in
    (λ few. ground arith, λ enough. ground (arith, same))

latest-eq-drop :
    (ts : List ℕ) → mtp_block_count ≤ length ts → latest ts ≡ drop (length ts - mtp_block_count) ts
latest-eq-drop ts enough =
    let k : ℕ = length ts - mtp_block_count in
    let split : length ts ≡ mtp_block_count + k = omega arith in
    ap (λ (n : ℕ). drop n (replicate mtp_block_count 0 ++ ts)) split
    ∙ drop-add mtp_block_count k (replicate mtp_block_count 0 ++ ts)

reset-Holds : (m : MtpCalculator) → Holds (reset m) (replicate mtp_block_count 0) 0
unfolding reset initial
reset-Holds m = initial-Holds

-- Whatever timestamps are pushed into a calculator that has been reset, as long as there are fewer
-- than eleven the median time past is 0; from then on it is a median of the latest eleven, at most
-- five of which are less and at most five greater.
pub get_mtp-IsMedian :
    (m : MtpCalculator) (ts : List ℕ)
    → (length ts < mtp_block_count → get_mtp (push_all (reset m) ts) ≡ 0)
      × (mtp_block_count ≤ length ts
          → IsMedian 5 (drop (length ts - mtp_block_count) ts) (get_mtp (push_all (reset m) ts)))
get_mtp-IsMedian m ts =
    let held = push_all-Holds (reset m) (replicate mtp_block_count 0) 0 ts refl (reset-Holds m) in
    let read = median (push_all (reset m) ts) (latest ts) (0 + length ts) held in
    (
      λ few. read.0 (omega arith),
      λ enough.
          let window : List ℕ = drop (length ts - mtp_block_count) ts in
          let eleven : length window ≡ 11 =
            omega (arith, length-drop (length ts - mtp_block_count) ts) in
          let found : get_mtp (push_all (reset m) ts) ≡ get_or (sort window) 5 0 =
            read.1 (omega arith)
            ∙ ap (λ (w : List ℕ). get_or (sort w) 5 0) (latest-eq-drop ts enough) in
          subst (IsMedian 5 window) (sym found) (sort-IsMedian 5 window eleven),
    )

-- A calculator that has been reset reports enough data exactly from the eleventh timestamp on.
pub has_sufficient_data_iff :
    (m : MtpCalculator) (ts : List ℕ)
    → has_sufficient_data (push_all (reset m) ts) ≡ leb mtp_block_count (length ts)
unfolding has_sufficient_data
has_sufficient_data_iff m ts =
    let held = push_all-Holds (reset m) (replicate mtp_block_count 0) 0 ts refl (reset-Holds m) in
    let number = held.number in ground arith
