-- ===== src/Chunking.antt =====
-- `chunk_text` of apps/edr/retrieval/chunking.py: the spans of tokens that a long text is cut into.
pub mod Spans
pub mod Pieces
mod Examples
use decision_center.Base.{
  Bool, true, false, not, Option, none, some, String, List, [], ◌∷◌, ℕ, zero, suc, ◌+◌, ◌-◌, min,
  ltb, leb, ◌==◌, if◌then◌else◌, length, map, filter_by,
}

-- tokens[start:end]
unfoldable pub skip {ℓ} : {A : Type ℓ} → ℕ → List A → List A
skip zero xs = xs
skip (suc n) [] = []
skip (suc n) (x ∷ xs) = skip n xs

unfoldable pub first {ℓ} : {A : Type ℓ} → ℕ → List A → List A
first zero xs = []
first (suc n) [] = []
first (suc n) (x ∷ xs) = x ∷ first n xs

abbrev pub slice {ℓ} : {A : Type ℓ} → List A → ℕ × ℕ → List A
slice xs (start, end) = first (end - start) (skip start xs)

-- A span in front of those of the rest of the loop, where that ends.
abbrev pub then_spans : ℕ × ℕ → Option (List (ℕ × ℕ)) → Option (List (ℕ × ℕ))
then_spans span none = none
then_spans span (some spans) = some (span ∷ spans)

-- The loop over `total` tokens, on fuel: none where the fuel does not suffice. `ℕ`'s subtraction stops
-- at 0, as `max(0, end - overlap_tokens)` does.
unfoldable pub chunk_loop : (fuel total target overlap start : ℕ) → Option (List (ℕ × ℕ))
chunk_loop zero total target overlap start = none
chunk_loop (suc fuel) total target overlap start =
    let end = min (start + target) total in
    let rest = chunk_loop fuel total target overlap (end - overlap) in
    if ltb start total
    then if end == total then some ((start, end) ∷ []) else then_spans (start, end) rest
    else some []

-- tiktoken's `encode` and `decode`, `not chunk.strip()`, and `" ".join(chunk.split())`
module _ {T : Type 0} (encode : String → List T) (decode : List T → String)
    (is_blank : String → Bool) (squeeze : String → String) where
  -- `_normalize_chunks`
  unfoldable pub normalize_chunks : List String → List String
  normalize_chunks chunks = map squeeze (filter_by (λ c. not (is_blank c)) chunks)

  unfoldable pub decode_spans : List T → Option (List (ℕ × ℕ)) → Option (List String)
  decode_spans tokens none = none
  decode_spans tokens (some spans) =
      some (normalize_chunks (map (λ s. decode (slice tokens s)) spans))

  -- `chunk_text`, where tiktoken is installed; the fuel is one more than there are tokens
  unfoldable pub chunk_text : String → (target overlap hard_max : ℕ) → Option (List String)
  chunk_text text target overlap hard_max =
      let tokens = encode text in
      if leb (length tokens) hard_max
      then some (text ∷ [])
      else decode_spans tokens (chunk_loop (suc (length tokens)) (length tokens) target overlap 0)
