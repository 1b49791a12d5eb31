-- ===== src/Chunking/Pieces.antt =====
-- What the chunks of a long text hold of its tokens.
use decision_center.Base.{
  Bool, not, String, List, [], ◌∷◌, ◌++◌, ℕ, ◌+◌, ◌≤◌, ◌<◌, ◌≡◌, ◌⊎◌, length, map, filter_by,
}

-- The spans go on from the token `from`, each reaching further than the last and none longer than
-- `target`, and the last ends at `total`.
abbrev Reaches : (total target from : ℕ) → List (ℕ × ℕ) → Type 0
Reaches total target from [] = total ≤ from
Reaches total target from ((a, b) ∷ spans) =
    (a ≤ from) × (from < b) × (b ≤ total) × (b ≤ a + target) × Reaches total target b spans

module _ {T : Type 0} where
  -- `tail` ends the text.
  abbrev pub EndsWith : List T → List T → Type 0
  EndsWith text tail = (head : List T) × (text ≡ head ++ tail)

  -- The pieces cut the rest of a text of which `before` was read: each repeats some last tokens of
  -- what was read and goes on with the next tokens, has at most `target` of them, and nothing is left.
  abbrev pub Cuts : ℕ → (before rest : List T) → List (List T) → Type 0
  Cuts target before rest [] = rest ≡ []
  Cuts target before rest (piece ∷ pieces) =
      (again : List T) × (fresh : List T) × (later : List T) × EndsWith before again
      × (rest ≡ fresh ++ later)
      × (piece ≡ again ++ fresh)
      × (0 < length fresh)
      × (length piece ≤ target)
      × Cuts target (before ++ fresh) later pieces

module _ {T : Type 0} (encode : String → List T) (decode : List T → String)
    (is_blank : String → Bool) (squeeze : String → String) where
  -- The chunks of a text: the text itself where it is short, and else the pieces that cut its
  -- tokens, decoded, without the blank ones and squeezed.
  abbrev pub Chunks : ℕ → ℕ → String → List String → Type 0
  Chunks target hard_max text chunks =
      ((length (encode text) ≤ hard_max) × (chunks ≡ text ∷ []))
      ⊎ ((hard_max < length (encode text))
          × (pieces : List (List T)) × Cuts target [] (encode text) pieces
          × (chunks ≡ map squeeze (filter_by (λ c. not (is_blank c)) (map decode pieces))))
