-- ===== src/Epoch/Counters.antt =====
-- crates/carriage/src/epoch.rs: the counters from which records are numbered, and the records that
-- were written.
use open_ot_experiments.Prelude.{
  ℕ, ◌+◌, ◌-◌, ◌<◌, ◌^◌, ◌≡◌, ◌∙◌, sym, List, [], ◌∷◌, ◌++◌, ltb, ◌==◌, ◌&&◌, if◌then◌else◌, add64,
  Bool-cases, inl, inr, All, arith,
}
use mathlib.Core.Path.{subst}
use open_ot_experiments.Wire.{Record}
use open_ot_experiments.Loss.Numbered.{count_of, count_of-append}
use open_ot_experiments.Epoch.{SourceSeq, seq_of, set_seq}

-- The keys of the map ascend, from above a bound.
abbrev pub Above : ℕ → List SourceSeq → Type 0
Above k [] = Unit {0}
Above k (e ∷ map) = (k < e.source_id) × Above e.source_id map

pub seq_of-set_seq :
    (map : List SourceSeq) (source produced s : ℕ)
    → seq_of (set_seq map source produced) s ≡ (if s == source then produced else seq_of map s)
unfolding seq_of set_seq
seq_of-set_seq [] source produced s = ground arith
seq_of-set_seq (e ∷ map) source produced s =
    let rest = seq_of-set_seq map source produced s in ground arith

pub set_seq-Above :
    (k : ℕ) (map : List SourceSeq) (source produced : ℕ)
    → Above k map
    → k < source
    → Above k (set_seq map source produced)
unfolding set_seq
set_seq-Above k [] source produced h lt = (lt, tt)
set_seq-Above k (e ∷ map) source produced (lo, h) lt = elim (Bool-cases (ltb source e.source_id)) [
  | inl q ↦ rw q (lt, (ground arith, h))
  | inr q ↦ elim (Bool-cases (e.source_id == source)) [
    | inl b ↦ rw (q, b) (lt, subst (λ n. Above n map) (ground arith) h)
    | inr b ↦ rw (q, b) (lo, set_seq-Above e.source_id map source produced h (ground arith))
  ]
]

-- What the map holds is what it answers.
abbrev pub Holds : List SourceSeq → List SourceSeq → Type 0
Holds map entries = All (λ e. seq_of map e.source_id ≡ e.produced) entries

-- The counters of a run number the records that follow others from the right number on.
pub record Counters (before : List Record) (run system : ℕ) (map : List SourceSeq) : Type 0 where
  pub system_at : system ≡ count_of before run 0
  pub source_at : (s : ℕ) → 0 < s → seq_of map s ≡ count_of before run s
  pub keys : Above 0 map
  pub fresh : (r s : ℕ) → run < r → count_of before r s ≡ 0

count_one :
    (before : List Record) (x : Record) (run source : ℕ)
    → count_of (before ++ x ∷ []) run source
      ≡ count_of before run source + (if x.run_id == run && x.source_id == source then 1 else 0)
unfolding count_of
count_one before x run source = count_of-append before (x ∷ []) run source ∙ ground arith

pub system-Counters :
    {before : List Record} {run system : ℕ} {map : List SourceSeq} (x : Record)
    → Counters before run system map
    → x.run_id ≡ run
    → x.source_id ≡ 0
    → system < 2 ^ 64 - 1
    → Counters (before ++ x ∷ []) run (add64 system 1) map
system-Counters {before} {run} {system} {map} x c r s lt = record {
  system_at = let one = count_one before x run 0 in let at = c.system_at in ground arith;
  source_at =
      λ t pos. let one = count_one before x run t in let at = c.source_at t pos in ground arith;
  keys = c.keys;
  fresh =
      λ q t later. let one = count_one before x q t in let at = c.fresh q t later in ground arith;
}

pub source-Counters :
    {before : List Record} {run system : ℕ} {map : List SourceSeq} (x : Record) (source n : ℕ)
    → Counters before run system map
    → x.run_id ≡ run
    → x.source_id ≡ source
    → 0 < source
    → seq_of map source ≡ n
    → n < 2 ^ 64 - 1
    → Counters (before ++ x ∷ []) run system (set_seq map source (add64 n 1))
source-Counters {before} {run} {system} {map} x source n c r s pos is lt = record {
  system_at = let one = count_one before x run 0 in let at = c.system_at in ground arith;
  source_at = λ t p.
      let one = count_one before x run t in
      let at = c.source_at t p in let set = seq_of-set_seq map source (add64 n 1) t in ground arith;
  keys = set_seq-Above 0 map source (add64 n 1) c.keys pos;
  fresh =
      λ q t later. let one = count_one before x q t in let at = c.fresh q t later in ground arith;
}

Holds-weaken :
    (e : SourceSeq) (k : ℕ) (map entries : List SourceSeq)
    → e.source_id < k + 1
    → Above k entries
    → Holds map entries
    → Holds (e ∷ map) entries
unfolding seq_of
Holds-weaken e k map [] le a h = tt
Holds-weaken e k map (f ∷ entries) le (lo, a) (is, h) =
    (ground arith, Holds-weaken e f.source_id map entries (omega arith) a h)

pub Holds-self : (k : ℕ) (map : List SourceSeq) → Above k map → Holds map map
unfolding seq_of
Holds-self k [] a = tt
Holds-self k (e ∷ map) (lo, a) = (
  ground arith,
  Holds-weaken e e.source_id map map (omega arith) a (Holds-self e.source_id map a),
)

pub set_seq-Holds :
    (k : ℕ) (map entries : List SourceSeq) (source produced : ℕ)
    → source < k + 1
    → Above k entries
    → Holds map entries
    → Holds (set_seq map source produced) entries
set_seq-Holds k map [] source produced le a h = tt
set_seq-Holds k map (f ∷ entries) source produced le (lo, a) (is, h) =
    let set = seq_of-set_seq map source produced f.source_id in
    (ground arith, set_seq-Holds f.source_id map entries source produced (omega arith) a h)

-- A cold start numbers a run that no record is of.
pub cold-Counters :
    {before : List Record} {run system : ℕ} {map : List SourceSeq}
    → Counters before run system map
    → run < 2 ^ 64 - 1
    → Counters before (add64 run 1) 0 []
unfolding seq_of
cold-Counters {before} {run} {system} {map} c lt =
    let next : add64 run 1 ≡ run + 1 = omega arith in
    record {
      system_at = sym (c.fresh (add64 run 1) 0 (omega arith));
      source_at = λ s pos. sym (c.fresh (add64 run 1) s (omega arith));
      keys = tt;
      fresh = λ r s later. c.fresh r s (omega arith);
    }
