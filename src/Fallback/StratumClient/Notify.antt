-- ===== src/Fallback/StratumClient/Notify.antt =====
-- What becomes of the parameters of `mining.notify`.
use avalon_miner.Prelude.{
  ℕ, zero, suc, ◌*◌, ◌<◌, ◌≡◌, refl, ap, sym, subst, ◌∙◌, ◌⊎◌, inl, inr, Bool, true, false, none,
  some, List, [], ◌∷◌, ◌++◌, arith, ◌==◌, if◌then◌else◌, length, All,
}
use mathlib.Core.List.{append-nil, append_assoc}
use avalon_miner.Fallback.StratumClient.{
  find_char, starts_with, find_text, skip_blanks, true_text, false_text, go_on, string_parameter,
  array_parameter, boolean_parameter, one_parameter, parse_params, fill_job, params_text,
  process_notify,
}

-- A text without the character.
abbrev pub Without : ℕ → List ℕ → Type 0
Without c text = All (λ x. (x == c) ≡ false) text

find_char-append :
    (c : ℕ) (text rest : List ℕ)
    → Without c text
    → find_char c (text ++ (c ∷ rest)) ≡ some (text, rest)
unfolding find_char
find_char-append c [] rest h = let here : (c == c) ≡ true = ground arith in rw here refl
find_char-append c (x ∷ text) rest h = rw (h.0, find_char-append c text rest h.1) refl

-- A parameter as a pool writes it: a text in quotes, an array in brackets, or a Boolean.
pub data Parameter : Type 0 where
  text_parameter : List ℕ → Parameter
  inner_array : List ℕ → Parameter
  flag : Bool → Parameter

abbrev pub IsPlain : Parameter → Type 0
IsPlain (text_parameter t) = Without b'"' t
IsPlain (inner_array t) = Without b']' t
IsPlain (flag b) = Unit {0}

abbrev pub show : Parameter → List ℕ
show (text_parameter t) = b'"' ∷ (t ++ (b'"' ∷ []))
show (inner_array t) = b'[' ∷ (t ++ (b']' ∷ []))
show (flag b) = if b then true_text else false_text

-- The parameters, each with a comma behind it, up to the bracket.
abbrev pub show_all : List Parameter → List ℕ → List ℕ
show_all [] rest = b']' ∷ rest
show_all (p ∷ []) rest = show p ++ (b']' ∷ rest)
show_all (p ∷ q ∷ ps) rest = show p ++ (b',' ∷ show_all (q ∷ ps) rest)

-- What the loop keeps of a parameter.
abbrev pub kept : Parameter → List (List ℕ)
kept (text_parameter t) = t ∷ []
kept (inner_array t) = []
kept (flag b) = (if b then true_text else false_text) ∷ []

abbrev pub kept_all : List Parameter → List (List ℕ)
kept_all [] = []
kept_all (p ∷ ps) = kept p ++ kept_all ps

one_parameter-show :
    (p : Parameter) (rest : List ℕ)
    → IsPlain p
    → one_parameter (skip_blanks (show p ++ rest)) ≡ go_on (kept p) rest
unfolding one_parameter skip_blanks string_parameter array_parameter boolean_parameter starts_with
one_parameter-show (text_parameter t) rest h =
    rw (append_assoc t (b'"' ∷ []) rest, string_parameter, find_char-append b'"' t rest h) refl
one_parameter-show (inner_array t) rest h =
    rw (append_assoc t (b']' ∷ []) rest, array_parameter, find_char-append b']' t rest h) refl
one_parameter-show (flag true) rest h = refl
one_parameter-show (flag false) rest h = refl

module _ (fuel : ℕ) (rest : List ℕ) (params : List (List ℕ)) where
  parse_params-show :
      (p : Parameter)
      → IsPlain p
      → parse_params (suc fuel) (show p ++ rest) params ≡ parse_params fuel rest (params ++ kept p)
  unfolding parse_params
  parse_params-show (text_parameter t) h =
      rw (parse_params, one_parameter-show (text_parameter t) rest h) refl
  parse_params-show (inner_array t) h =
      rw (parse_params, one_parameter-show (inner_array t) rest h) refl
  parse_params-show (flag true) h = rw (parse_params, one_parameter-show (flag true) rest h) refl
  parse_params-show (flag false) h = rw (parse_params, one_parameter-show (flag false) rest h) refl

  parse_params-comma :
      parse_params (suc fuel) (b',' ∷ rest) params ≡ parse_params fuel rest (params ++ [])
  unfolding parse_params one_parameter skip_blanks
  parse_params-comma = refl

  parse_params-close : parse_params (suc fuel) (b']' ∷ rest) params ≡ some params
  unfolding parse_params one_parameter skip_blanks
  parse_params-close = refl

-- With two passes for each parameter and one for the bracket, the loop ends, and it has pushed the
-- texts and the Booleans but not the arrays.
parse_params-show_all :
    (ps : List Parameter) (fuel : ℕ) (rest : List ℕ) (params : List (List ℕ))
    → All IsPlain ps
    → 2 * length ps < fuel
    → parse_params fuel (show_all ps rest) params ≡ some (params ++ kept_all ps)
parse_params-show_all ps zero rest params h lt = absurd (omega arith)
parse_params-show_all [] (suc fuel) rest params h lt =
    parse_params-close fuel rest params ∙ ap some (sym (append-nil params))
parse_params-show_all (p ∷ []) (suc zero) rest params h lt = absurd (omega arith)
parse_params-show_all (p ∷ []) (suc (suc fuel)) rest params h lt =
    parse_params-show (suc fuel) (b']' ∷ rest) params p h.0
    ∙ parse_params-close fuel rest (params ++ kept p)
    ∙ ap (λ (k : List (List ℕ)). some (params ++ k)) (sym (append-nil (kept p)))
parse_params-show_all (p ∷ q ∷ ps) (suc zero) rest params h lt = absurd (omega arith)
parse_params-show_all (p ∷ q ∷ ps) (suc (suc fuel)) rest params h lt =
    parse_params-show (suc fuel) (b',' ∷ show_all (q ∷ ps) rest) params p h.0
    ∙ parse_params-comma fuel (show_all (q ∷ ps) rest) (params ++ kept p)
    ∙ ap (parse_params fuel (show_all (q ∷ ps) rest)) (append-nil (params ++ kept p))
    ∙ parse_params-show_all (q ∷ ps) fuel rest (params ++ kept p) h.1 (omega arith)
    ∙ ap some (append_assoc params (kept p) (kept_all (q ∷ ps)))

-- `{"id":null,"method":"mining.notify",`
abbrev pub notify_head : List ℕ
notify_head =
    b'{' ∷ b'"' ∷ b'i' ∷ b'd' ∷ b'"' ∷ b':' ∷ b'n' ∷ b'u' ∷ b'l' ∷ b'l' ∷ b',' ∷ b'"' ∷ b'm' ∷ b'e'
    ∷ b't' ∷ b'h' ∷ b'o' ∷ b'd' ∷ b'"' ∷ b':' ∷ b'"' ∷ b'm' ∷ b'i' ∷ b'n' ∷ b'i' ∷ b'n' ∷ b'g'
    ∷ b'.' ∷ b'n' ∷ b'o' ∷ b't' ∷ b'i' ∷ b'f' ∷ b'y' ∷ b'"' ∷ b',' ∷ []

-- The line of a pool.
abbrev pub notify_line : List ℕ → List ℕ
notify_line params = notify_head ++ (params_text ++ (b'[' ∷ params))

process_notify-notify_line :
    (fuel now : ℕ) (params : List ℕ)
    → process_notify fuel now (notify_line params)
      ≡ elim (parse_params fuel params []) [ none ↦ none | some ps ↦ some (some (fill_job now ps)) ]
unfolding process_notify find_text starts_with find_char
process_notify-notify_line fuel now params = refl

-- A notification as the protocol defines it: six texts around the branch, and the flag. The job that
-- is read has no branch, and its version is the notification's difficulty bits, its bits the time and
-- its time the word true or false.
pub process_notify_shifted :
    (fuel now : ℕ) (job_id prevhash coinbase1 coinbase2 branch version nbits ntime rest : List ℕ)
    (clean : Bool)
    → All (Without b'"') (job_id ∷ prevhash ∷ coinbase1 ∷ coinbase2 ∷ version ∷ nbits ∷ ntime ∷ [])
    → Without b']' branch
    → 18 < fuel
    → process_notify fuel now (
        notify_line (
          show_all
            (text_parameter job_id
              ∷ text_parameter prevhash
              ∷ text_parameter coinbase1
              ∷ text_parameter coinbase2
              ∷ inner_array branch
              ∷ text_parameter version
              ∷ text_parameter nbits
              ∷ text_parameter ntime
              ∷ flag clean
              ∷ [])
            rest))
      ≡ some (
          some (record {
            job_id = job_id;
            prevhash = prevhash;
            coinbase1 = coinbase1;
            coinbase2 = coinbase2;
            merkle_branch = [];
            version = nbits;
            nbits = ntime;
            ntime = if clean then true_text else false_text;
            clean_jobs = false;
            received_at = now;
          }))
unfolding fill_job
process_notify_shifted fuel now job_id prevhash coinbase1 coinbase2 branch version nbits ntime rest
      clean texts inner enough =
    let (j, (p, (c1, (c2, (v, (n, (t, end))))))) = texts in
    let ps : List Parameter =
      text_parameter job_id
      ∷ text_parameter prevhash
      ∷ text_parameter coinbase1
      ∷ text_parameter coinbase2
      ∷ inner_array branch
      ∷ text_parameter version
      ∷ text_parameter nbits
      ∷ text_parameter ntime
      ∷ flag clean
      ∷ [] in
    let parsed : parse_params fuel (show_all ps rest) [] ≡ some (kept_all ps) =
      parse_params-show_all ps fuel rest [] (j, (p, (c1, (c2, (inner, (v, (n, (t, (tt, tt)))))))))
        (omega arith) in
    process_notify-notify_line fuel now (show_all ps rest) ∙ rw parsed refl

stuck :
    (fuel c : ℕ) (rest : List ℕ) (params : List (List ℕ))
    → one_parameter (skip_blanks (c ∷ rest)) ≡ go_on [] (c ∷ rest)
    → parse_params fuel (c ∷ rest) params ≡ none
unfolding parse_params
stuck zero c rest params h = refl
stuck (suc fuel) c rest params h = rw (parse_params, h) (stuck fuel c rest (params ++ []) h)

-- A word that is neither true nor false.
abbrev IsNeither : List ℕ → Type 0
IsNeither line = (starts_with true_text line ≡ false) × (starts_with false_text line ≡ false)

pass_of_t :
    (rest : List ℕ)
    → IsNeither (b't' ∷ rest)
    → one_parameter (skip_blanks (b't' ∷ rest)) ≡ go_on [] (b't' ∷ rest)
unfolding one_parameter skip_blanks boolean_parameter
pass_of_t rest h = rw (h.0, h.1) refl

pass_of_f :
    (rest : List ℕ)
    → IsNeither (b'f' ∷ rest)
    → one_parameter (skip_blanks (b'f' ∷ rest)) ≡ go_on [] (b'f' ∷ rest)
unfolding one_parameter skip_blanks boolean_parameter
pass_of_f rest h = rw (h.0, h.1) refl

abbrev Repeats : List ℕ → ℕ → Type 0
Repeats rest c = IsNeither (c ∷ rest) → one_parameter (skip_blanks (c ∷ rest)) ≡ go_on [] (c ∷ rest)

pass_of_word : (c : ℕ) (rest : List ℕ) → (c ≡ b't') ⊎ (c ≡ b'f') → Repeats rest c
pass_of_word c rest (inl e) = subst (Repeats rest) (sym e) (pass_of_t rest)
pass_of_word c rest (inr e) = subst (Repeats rest) (sym e) (pass_of_f rest)

-- Parameters, each with a comma behind it.
abbrev pub show_before : List Parameter → List ℕ → List ℕ
show_before [] rest = rest
show_before (p ∷ ps) rest = show p ++ (b',' ∷ show_before ps rest)

stuck_behind :
    (ps : List Parameter) (fuel c : ℕ) (rest : List ℕ) (params : List (List ℕ))
    → All IsPlain ps
    → one_parameter (skip_blanks (c ∷ rest)) ≡ go_on [] (c ∷ rest)
    → parse_params fuel (show_before ps (c ∷ rest)) params ≡ none
unfolding parse_params
stuck_behind ps zero c rest params plain h = refl
stuck_behind [] (suc fuel) c rest params plain h = stuck (suc fuel) c rest params h
stuck_behind (p ∷ ps) (suc zero) c rest params plain h =
    parse_params-show zero (b',' ∷ show_before ps (c ∷ rest)) params p plain.0
stuck_behind (p ∷ ps) (suc (suc fuel)) c rest params plain h =
    parse_params-show (suc fuel) (b',' ∷ show_before ps (c ∷ rest)) params p plain.0
    ∙ parse_params-comma fuel (show_before ps (c ∷ rest)) (params ++ kept p)
    ∙ stuck_behind ps fuel c rest ((params ++ kept p) ++ []) plain.1 h

-- Where, behind any parameters that the loop can read, the array goes on with t or f but neither with
-- true nor with false, such as a bare token, the loop never ends: no fuel is enough.
pub process_notify_stuck :
    (ps : List Parameter) (fuel now c : ℕ) (rest : List ℕ)
    → All IsPlain ps
    → (c ≡ b't') ⊎ (c ≡ b'f')
    → starts_with true_text (c ∷ rest) ≡ false
    → starts_with false_text (c ∷ rest) ≡ false
    → process_notify fuel now (notify_line (show_before ps (c ∷ rest))) ≡ none
process_notify_stuck ps fuel now c rest plain word not_true not_false =
    let never : parse_params fuel (show_before ps (c ∷ rest)) [] ≡ none =
      stuck_behind ps fuel c rest [] plain (pass_of_word c rest word (not_true, not_false)) in
    process_notify-notify_line fuel now (show_before ps (c ∷ rest)) ∙ rw never refl
