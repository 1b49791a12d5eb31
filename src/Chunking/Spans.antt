-- ===== src/Chunking/Spans.antt =====
-- When the loop of `chunk_text` ends, and what its spans cover.
use decision_center.Base.{
  none, some, List, [], ◌∷◌, ℕ, zero, suc, ◌+◌, ◌-◌, ◌≤◌, ◌<◌, ◌≡◌, refl, arith, min, ltb, ◌==◌,
  Bool-cases, inl, inr,
}
use decision_center.Chunking.{chunk_loop}

-- The spans go on from the token `start` without a gap, none is empty or longer than `target`, and
-- the last ends at `total`.
abbrev pub Covers : (total target start : ℕ) → List (ℕ × ℕ) → Type 0
Covers total target start [] = total ≤ start
Covers total target start ((a, b) ∷ spans) =
    (a ≤ start) × (a < b) × (b ≤ a + target) × Covers total target b spans

-- Where the overlap is smaller than a chunk, the loop ends within one more step than there are
-- tokens left, and its chunks cover the tokens from where it starts.
pub chunk_loop-Covers :
    (fuel total target overlap start from : ℕ)
    → overlap < target
    → start ≤ total
    → total < fuel + start
    → start ≤ from
    → (spans : List (ℕ × ℕ)) × (chunk_loop fuel total target overlap start ≡ some spans)
      × Covers total target from spans
unfolding chunk_loop
chunk_loop-Covers zero total target overlap start from small inside enough near =
    absurd (omega (arith, inside, enough))
chunk_loop-Covers (suc fuel) total target overlap start from small inside enough near =
    elim (Bool-cases (ltb start total)) [
      | inr over ↦ ([], rw over refl, ground (arith, over, near))
      | inl more ↦ elim (Bool-cases (min (start + target) total == total)) [
        | inl last ↦ (
          (start, min (start + target) total) ∷ [],
          rw (more, last) refl,
          (near, ground (arith, more, small), omega arith, ground (arith, last)),
        )
        | inr later ↦
            let (spans, e, covered) =
              chunk_loop-Covers fuel total target overlap (min (start + target) total - overlap)
                (min (start + target) total) small (omega arith)
                (ground (arith, later, enough, small, more)) (omega arith) in
            (
              (start, min (start + target) total) ∷ spans,
              rw (more, later, e) refl,
              (near, ground (arith, more, small), omega arith, covered),
            )
      ]
    ]

-- Where the overlap is at least a chunk and the tokens do not fit into one, the loop never ends.
pub chunk_loop_endless :
    (fuel total target overlap start : ℕ)
    → target ≤ overlap
    → start + target < total
    → chunk_loop fuel total target overlap start ≡ none
unfolding chunk_loop
chunk_loop_endless zero total target overlap start big long = refl
chunk_loop_endless (suc fuel) total target overlap start big long = ground (
  arith,
  big,
  long,
  chunk_loop_endless fuel total target overlap (min (start + target) total - overlap) big
      (omega (arith, big, long)),
)
