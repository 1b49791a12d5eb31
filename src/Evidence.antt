-- ===== src/Evidence.antt =====
-- The evidence between retrieval and draft: `run` of apps/edr/graph/node_09_normalize.py, which
-- removes duplicates.
pub mod Titles
pub mod Hashes
pub mod Normalize
mod Examples
use decision_center.Base.{
  Bool, true, false, ◌&&◌, not, Option, none, some, String, List, [], ◌∷◌, ℕ, ◌-◌, ltb, ◌==◌,
  if◌then◌else◌, length, map, any_of, is_empty, is_empty_text,
}
use decision_center.Base.Dict.{Key, Dict, lookup, insert, string_key, pair_key, pair_same}

-- The keys of an evidence item that the two nodes read, with the defaults of their `get`s.
pub record Item : Type 0 where
  pub source_uri : String
  pub hash_sha256 : String
  pub source_type : String
  pub title : Option String

instance abbrev pub names_key : Key (String × String)
names_key = pair_key string_key string_key

-- `_SOURCE_PRIORITY.get(source_type, 0)`
abbrev pub source_priority : Dict String ℕ
source_priority = ("odoo", 3) ∷ ("sharepoint", 2) ∷ ("owncloud", 2) ∷ ("email", 1) ∷ ("cad", 0) ∷ []

abbrev pub or_zero : Option ℕ → ℕ
or_zero none = 0
or_zero (some n) = n

unfoldable pub priority : Item → ℕ
priority item = or_zero (lookup item.source_type source_priority)

abbrev pub hash_key : Item → String × String
hash_key item = (item.source_uri, item.hash_sha256)

-- The first pass: what `seen` holds under the key of the item decides.
unfoldable pub better : Option Item → Item → Item
better none item = item
better (some existing) item = if ltb (priority existing) (priority item) then item else existing

unfoldable pub hash_pass : Dict (String × String) Item → List Item → Dict (String × String) Item
hash_pass seen [] = seen
hash_pass seen (item ∷ items) =
    hash_pass (insert (hash_key item) (better (lookup (hash_key item) seen) item) seen) items

abbrev pub values : Dict (String × String) Item → List Item
values m = map (λ e. e.1) m

-- `composite in title_seen`
unfoldable pub was_seen : String × String → List (String × String) → Bool
was_seen k seen = any_of (λ s. pair_same string_key.same string_key.same s k) seen

-- `strip` and `lower` are Python's.
module _ (strip lower : String → String) where
  -- `_title_key`
  unfoldable pub stripped_key : String → Option String
  stripped_key title = if is_empty_text title then none else some (lower title)

  unfoldable pub title_key : Item → Option String
  title_key item = elim item.title [
    | none ↦ stripped_key (strip "")
    | some title ↦ stripped_key (strip title)
  ]

  -- The second pass, with the titles that it has seen.
  unfoldable pub title_step :
      List (String × String)
      → Item
      → Option String
      → (List (String × String) → List Item)
      → List Item
  title_step seen item none later = item ∷ later seen
  title_step seen item (some title) later =
      if was_seen (item.source_type, title) seen
      then later seen
      else item ∷ later ((item.source_type, title) ∷ seen)

  unfoldable pub title_pass : List (String × String) → List Item → List Item
  title_pass seen [] = []
  title_pass seen (item ∷ items) =
      title_step seen item (title_key item) (λ seen'. title_pass seen' items)

  -- `run`: the evidence that stays.
  unfoldable pub normalize : List Item → List Item
  normalize evidence = title_pass [] (values (hash_pass [] evidence))

  -- `dedup_removed`
  unfoldable pub removed : List Item → ℕ
  removed evidence = length evidence - length (normalize evidence)
