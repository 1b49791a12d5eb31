-- ===== src/Json.antt =====
-- The values of `json.loads`, and what Python does with a value whose type is not known: truth
-- tests, `dict.get`, iteration, membership and the validation of a list of texts.
use decision_center.Base.{
  Bool, true, false, Option, none, some, String, List, [], ◌∷◌, str_eq, if◌then◌else◌, contains,
  is_empty_text,
}
use decision_center.Base.Fallible.{Py, ok, raise, type_error, ◌>>=◌}

-- Of a number only whether it is 0 is ever read.
mutual
  pub data Value : Type 0 where
    null : Value
    boolean : Bool → Value
    number : (nonzero : Bool) → Value
    text : String → Value
    list : Items → Value
    dict : Fields → Value

  pub data Items : Type 0 where
    nil : Items
    cons : Value → Items → Items

  pub data Fields : Type 0 where
    end : Fields
    field : String → Value → Fields → Fields

-- d.get(key)
unfoldable pub get : String → Fields → Option Value
get key end = none
get key (field k v rest) = let later = get key rest in if str_eq k key then some v else later

unfoldable pub elements : Items → List Value
elements nil = []
elements (cons v vs) = v ∷ elements vs

unfoldable pub keys : Fields → List Value
keys end = []
keys (field k v rest) = text k ∷ keys rest

unfoldable pub letters : String → List Value
letters String.[] = []
letters (String.◌∷◌ c s) = text (String.◌∷◌ c String.[]) ∷ letters s

-- bool(v)
abbrev pub truthy : Value → Bool
truthy null = false
truthy (boolean b) = b
truthy (number nonzero) = nonzero
truthy (text s) = if is_empty_text s then false else true
truthy (list nil) = false
truthy (list (cons v vs)) = true
truthy (dict end) = false
truthy (dict (field k v rest)) = true

-- d.get(key) as a condition
abbrev pub truthy? : Option Value → Bool
truthy? none = false
truthy? (some v) = truthy v

-- `for x in v`
unfoldable pub iterate : Value → Py (List Value)
unfolding elements keys letters
iterate (text s) = ok (letters s)
iterate (list vs) = ok (elements vs)
iterate (dict fs) = ok (keys fs)
iterate _ = raise type_error

-- `for x in d.get(key, [])`
unfoldable pub iterate? : Option Value → Py (List Value)
unfolding iterate
iterate? none = ok []
iterate? (some v) = iterate v

-- `v in s` for a set of texts: a list or a dict has no hash
unfoldable pub in_set : List String → Value → Py Bool
in_set ids (text s) = ok (contains s ids)
in_set ids (list vs) = raise type_error
in_set ids (dict fs) = raise type_error
in_set ids _ = ok false

-- A pydantic field of type list[str].
unfoldable pub text_items : Items → Py (List String)
text_items nil = ok []
text_items (cons (text s) vs) = do rest ← text_items vs; ok (s ∷ rest)
text_items (cons _ vs) = raise type_error

unfoldable pub text_list : Value → Py (List String)
unfolding text_items
text_list (list vs) = text_items vs
text_list _ = raise type_error

-- isinstance(v, list) and isinstance(v, dict), with what they hold
abbrev pub as_list : Option Value → Option Items
as_list (some (list vs)) = some vs
as_list _ = none

abbrev pub as_dict : Option Value → Option Fields
as_dict (some (dict fs)) = some fs
as_dict _ = none

-- `v == s` for a text s
abbrev pub equals_text : String → Option Value → Bool
equals_text s (some (text t)) = str_eq t s
equals_text s _ = false

-- `d.get(key) or {}`, which is then tested by isinstance(_, dict)
abbrev pub dict_or_empty : Option Value → Option Fields
dict_or_empty o = if truthy? o then as_dict o else some end
