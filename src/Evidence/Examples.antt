-- ===== src/Evidence/Examples.antt =====
-- The theorems on normalised evidence, on four items of which two are duplicates.
use decision_center.Base.{Option, none, some, String, List, [], ◌∷◌, ◌≡◌, ◌≤◌, All}
use decision_center.Base.Dict.{lookup}
use decision_center.Evidence.{Item, names_key, hash_key, hash_pass, normalize, priority}
use decision_center.Evidence.Hashes.{Distinct}
use decision_center.Evidence.Normalize.{normalize-Distinct, normalize-twice, hash_pass-priority}

abbrev found : String → String → Option String → Item
found source uri title = record {
  source_uri = uri;
  hash_sha256 = "h";
  source_type = source;
  title = title;
}

-- The second has the address of the first and a better source, the third the title of the last.
abbrev evidence : List Item
evidence =
    found "email" "/a" (some "Minutes")
    ∷ found "odoo" "/a" none
    ∷ found "sharepoint" "/b" (some "Plan")
    ∷ found "sharepoint" "/c" (some "Plan")
    ∷ []

abbrev same_text : String → String
same_text s = s

normalize-Distinct_example : Distinct (normalize same_text same_text evidence)
normalize-Distinct_example = normalize-Distinct same_text same_text evidence

normalize-twice_example :
    normalize same_text same_text (normalize same_text same_text evidence)
    ≡ normalize same_text same_text evidence
normalize-twice_example = normalize-twice same_text same_text evidence

hash_pass-priority_example :
    All
      (λ x.
        (y : Item) × (lookup (hash_key x) (hash_pass [] evidence) ≡ some y)
        × (priority x ≤ priority y))
      evidence
hash_pass-priority_example = hash_pass-priority [] evidence
