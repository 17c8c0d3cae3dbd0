-- ===== src/TaskQueue/Dicts.antt =====
-- Python's dictionaries from identifiers, and the grouping of identifiers by a key, as the functions of
-- diracx-logic/src/diracx/logic/task_queues/priority.py use them.
use Prim.Native.Char.{code}
use diracx.Prelude.{
  ℕ, String, Bool, true, false, Option, none, some, List, [], ◌∷◌, ◌++◌, nat_eq, ltb, map,
  if◌then◌else◌,
}

-- the order of texts by their code points
unfoldable pub text_lt : String → String → Bool
text_lt s String.[] = false
text_lt String.[] (String.◌∷◌ d t) = true
text_lt (String.◌∷◌ c s) (String.◌∷◌ d t) =
    let rest = text_lt s t in if nat_eq (code c) (code d) then rest else ltb (code c) (code d)

abbrev pub Fields : Type 0
Fields = List (String × String)

unfoldable pub insert_field : String × String → Fields → Fields
unfolding text_lt
insert_field x [] = x ∷ []
insert_field x (y ∷ ys) =
    let rest = insert_field x ys in if text_lt y.0 x.0 then y ∷ rest else x ∷ y ∷ ys

-- `sorted(tq_data)`, with the values
unfoldable pub sort_fields : Fields → Fields
unfolding insert_field
sort_fields [] = []
sort_fields (x ∷ xs) = insert_field x (sort_fields xs)

module _ {A : Type 0} where
  -- `d[key]`
  abbrev pub find : ℕ → List (ℕ × A) → Option A
  find i [] = none
  find i ((j, a) ∷ d) = let rest = find i d in if nat_eq j i then some a else rest

  -- `d[key] = value`
  abbrev pub set_item : ℕ → A → List (ℕ × A) → List (ℕ × A)
  set_item i a [] = (i, a) ∷ []
  set_item i a ((j, b) ∷ d) =
      let rest = set_item i a d in if nat_eq j i then (j, a) ∷ d else (j, b) ∷ rest

  -- `d.keys()`
  abbrev pub keys : List (ℕ × A) → List ℕ
  keys d = map (λ (x : ℕ × A). x.0) d

module _ {K : Type 0} where
  -- `groups[key].append(i)` on a `defaultdict(list)`
  abbrev pub append_to : (K → K → Bool) → K → ℕ → List (K × List ℕ) → List (K × List ℕ)
  append_to eq k i [] = (k, i ∷ []) ∷ []
  append_to eq k i ((l, ids) ∷ groups) =
      let rest = append_to eq k i groups in
      if eq l k then (l, ids ++ i ∷ []) ∷ groups else (l, ids) ∷ rest

  -- all the identifiers, group by group
  abbrev pub members : List (K × List ℕ) → List ℕ
  members [] = []
  members ((k, ids) ∷ groups) = ids ++ members groups
