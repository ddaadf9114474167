-- ===== src/Value.antt =====
-- The JSON-like values that the write-operation contract receives: what `isinstance` tells apart.
-- An integer stands by its sign and size, a float by its text.
use delivery_system.Base.{
  ℕ, true, false, not, ◌||◌, String, String_eq, Bool, Option, none, some, List, [], ◌∷◌, ◌==◌,
  if◌then◌else◌,
}

pub data ℤ : Type 0 where
  pos : ℕ → ℤ
  -- `negsuc n` is `-(n + 1)`
  negsuc : ℕ → ℤ

mutual
  pub data Value : Type 0 where
    null : Value
    flag : Bool → Value
    integer : ℤ → Value
    float : String → Value
    text : String → Value
    list : Values → Value
    tuple : Values → Value
    dict : Fields → Value

  pub data Values : Type 0 where
    nil : Values
    cons : Value → Values → Values

  pub data Fields : Type 0 where
    end : Fields
    field : String → Value → Fields → Fields

unfoldable pub elements : Values → List Value
elements nil = []
elements (cons v vs) = v ∷ elements vs

unfoldable pub keys : Fields → List String
keys end = []
keys (field k v fs) = k ∷ keys fs

-- `mapping.get(key)`
unfoldable pub get : Fields → String → Option Value
get end key = none
get (field k v fs) key = if k == key then some v else get fs key

-- `isinstance(value, str) and bool(value)`
unfoldable pub nonempty_text : Option Value → Option String
nonempty_text (some (text s)) = if s == "" then none else some s
nonempty_text _ = none

unfoldable pub as_dict : Option Value → Option Fields
as_dict (some (dict fs)) = some fs
as_dict _ = none

-- `isinstance(value, list)`
unfoldable pub as_list : Option Value → Option (List Value)
unfolding elements
as_list (some (list vs)) = some (elements vs)
as_list _ = none

-- `isinstance(value, Sequence) and not isinstance(value, (str, bytes))`
unfoldable pub as_sequence : Value → Option (List Value)
unfolding elements
as_sequence (list vs) = some (elements vs)
as_sequence (tuple vs) = some (elements vs)
as_sequence _ = none

-- The values of `xs`, if every one is a non-empty string.
unfoldable pub nonempty_texts : List Value → Option (List String)
unfolding nonempty_text
nonempty_texts [] = some []
nonempty_texts (v ∷ vs) = elim (nonempty_text (some v)) [
  | none ↦ none
  | some s ↦ elim (nonempty_texts vs) [ none ↦ none | some ss ↦ some (s ∷ ss) ]
]

-- `isinstance(value, list)` and every element a non-empty string
unfoldable pub text_list : Option Value → Option (List String)
unfolding as_list nonempty_texts
text_list v = elim (as_list v) [ none ↦ none | some vs ↦ nonempty_texts vs ]

-- Whether hashing a value raises `TypeError`: a list or a mapping, or a tuple that holds one.
unfoldable mutual
  pub is_unhashable : Value → Bool
  is_unhashable (list vs) = true
  is_unhashable (dict fs) = true
  is_unhashable (tuple vs) = has_unhashable vs
  is_unhashable _ = false

  pub has_unhashable : Values → Bool
  has_unhashable nil = false
  has_unhashable (cons v vs) = is_unhashable v || has_unhashable vs

-- `value in {…}`, a set of strings: the value is hashed first.
unfoldable pub hashes : Option Value → Bool
hashes none = true
hashes (some v) = not (is_unhashable v)
