-- ===== src/Core/Stream/Position.antt =====
-- Reads of bytes that are there move the position over them.
use avalon_miner.Prelude.{
  ℕ, ◌+◌, ◌-◌, ◌%◌, ◌^◌, ◌≤◌, ◌<◌, ◌≡◌, ap, ◌∙◌, true, List, ◌++◌, arith, ltb, leb, length, take,
  drop, length-append, length-drop,
}
use avalon_miner.Prelude.Slices.{take-append, drop-append, drop-add}
use avalon_miner.Core.Stream.{
  ReadStream, Outcome, ok, is_available, advance, read_at, read_bytes, skip,
}

-- `rest` is what stands at the position, and the size of the bytes is a `size_t`.
pub record IsAt (s : ReadStream) (rest : List ℕ) : Type 0 where
  pub inside : s.pos ≤ length s.bytes
  pub size : length s.bytes < 2 ^ 64
  pub ahead : drop s.pos s.bytes ≡ rest

-- A read gives the value and stands behind what it has read.
abbrev pub Reads {ℓ} : {A : Type ℓ} → Outcome A → A → ℕ → ReadStream → List ℕ → Type ℓ
Reads o a count s rest = (o ≡ ok a (advance count s)) × IsAt (advance count s) rest

module _ (s : ReadStream) (w rest : List ℕ) (count : ℕ) (full : length w ≡ count)
    (h : IsAt s (w ++ rest)) where
  enough : s.pos + count ≤ length s.bytes
  enough =
      let inside = h.inside in
      let ahead = ap length h.ahead in
      omega (arith, length-append w rest, length-drop s.pos s.bytes)

  pub available : is_available count s ≡ true
  unfolding is_available
  available = let size = h.size in ground (arith, enough)

  pub advance-IsAt : IsAt (advance count s) rest
  unfolding advance
  advance-IsAt =
      let size = h.size in
      let there : (s.pos + count) % 2 ^ 64 ≡ s.pos + count = omega (arith, enough) in
      record {
        inside = omega (arith, enough);
        size = size;
        ahead =
            ap (λ (n : ℕ). drop n s.bytes) there
            ∙ drop-add s.pos count s.bytes
            ∙ ap (drop count) h.ahead
            ∙ drop-append count w rest full;
      }

  pub read_at_lem :
      {A : Type 0} (f : List ℕ → A) → Reads (read_at count f s) (f (w ++ rest)) count s rest
  unfolding read_at
  read_at_lem f =
      (rw available (ap (λ (l : List ℕ). ok (f l) (advance count s)) h.ahead), advance-IsAt)

  pub read_bytes_lem : Reads (read_bytes count s) w count s rest
  unfolding read_bytes
  read_bytes_lem =
      let size = h.size in
      let straight : ltb (s.pos + count) (2 ^ 64) ≡ true = ground (arith, enough) in
      (
        rw (available, straight)
            (ap (λ (l : List ℕ). ok l (advance count s))
              (ap (take count) h.ahead ∙ take-append count w rest full)),
        advance-IsAt,
      )

-- A skip by almost 2 ^ 64 passes the check and moves the position back.
pub skip_back :
    (s : ReadStream) (back : ℕ)
    → 0 < back
    → back ≤ s.pos
    → s.pos ≤ length s.bytes
    → length s.bytes < 2 ^ 64
    → skip (2 ^ 64 - back) s ≡ ok tt (record { bytes = s.bytes; pos = s.pos - back })
unfolding skip is_available advance
skip_back s back some_back enough inside size =
    let wrapped : (s.pos + (2 ^ 64 - back)) % 2 ^ 64 ≡ s.pos - back = omega arith in
    let passes : leb ((s.pos + (2 ^ 64 - back)) % 2 ^ 64) (length s.bytes) ≡ true = ground arith in
    rw passes (λ i. ok tt (record { bytes = s.bytes; pos = wrapped i }))
