-- ===== src/Chunking/Examples.antt =====
-- The theorems on chunking, at small sizes.
use decision_center.Base.{none, some, String, List, [], ◌∷◌, ℕ, ◌≡◌, arith}
use decision_center.Chunking.{chunk_loop}
use decision_center.Chunking.Spans.{Covers, chunk_loop-Covers, chunk_loop_endless}

-- Ten tokens in chunks of four that share one.
chunk_loop-Covers_example :
    (spans : List (ℕ × ℕ)) × (chunk_loop 11 10 4 1 0 ≡ some spans) × Covers 10 4 0 spans
chunk_loop-Covers_example =
    chunk_loop-Covers 11 10 4 1 0 0 (omega arith) (omega arith) (omega arith) (omega arith)

chunk_loop_endless_example : chunk_loop 100 10 4 4 0 ≡ none
chunk_loop_endless_example = chunk_loop_endless 100 10 4 4 0 (omega arith) (omega arith)

abbrev encode_words : String → List String
encode_words s = s ∷ s ∷ s ∷ []

abbrev decode_words : List String → String
decode_words [] = ""
decode_words (s ∷ ss) = s
