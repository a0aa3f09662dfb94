-- ===== src/Python/Json.antt =====
-- JSON values as Python holds them after `response.json()` or `json.loads`. Numbers are integers:
-- no field that the program reads holds a fraction.
use almanak_keeperhub.Prelude.{
  zero, String, ◌≡◌, refl, Bool, true, false, Option, none, some, List, [], ◌∷◌, arith, str_eq,
  eq_iff, if◌then◌else◌, get_or,
}
use almanak_keeperhub.Prelude.Int.{ℤ, pos}
use almanak_keeperhub.Python.Text.{is_text, show_ℤ}

mutual
  pub data Value : Type 0 where
    null : Value
    bool : Bool → Value
    num : ℤ → Value
    str : String → Value
    arr : Items → Value
    obj : Dict → Value

  pub data Items : Type 0 where
    nil : Items
    cons : Value → Items → Items

  -- A dict with string keys, in insertion order.
  pub data Dict : Type 0 where
    empty : Dict
    entry : String → Value → Dict → Dict

-- `bool(v)`
abbrev pub truthy : Value → Bool
truthy null = false
truthy (bool b) = b
truthy (num (pos zero)) = false
truthy (num n) = true
truthy (str s) = is_text s
truthy (arr nil) = false
truthy (arr (cons v vs)) = true
truthy (obj empty) = false
truthy (obj (entry k v d)) = true

-- `d.get(k)`, with none for a missing key.
unfoldable pub find : String → Dict → Option Value
find k empty = none
find k (entry j v d) = if str_eq j k then some v else find k d

-- `d.get(k)`, `d.get(k, v)` and `k in d`
abbrev pub get : String → Dict → Value
get k d = get_or (find k d) null

abbrev pub get_default : String → Value → Dict → Value
get_default k v d = get_or (find k d) v

-- `d[k] = v`
unfoldable pub put : String → Value → Dict → Dict
put k v empty = entry k v empty
put k v (entry j w d) = if str_eq j k then entry j v d else entry j w (put k v d)

-- `d.update(e)` and `{**d, **e}`
unfoldable pub update : Dict → Dict → Dict
unfolding put
update d empty = d
update d (entry k v e) = update (put k v d) e

-- `d.pop(k, None)`, `{... if k != ...}`
unfoldable pub remove : String → Dict → Dict
remove k empty = empty
remove k (entry j v d) = let rest = remove k d in if str_eq j k then rest else entry j v rest

-- The dicts among the items, `[e for e in data if isinstance(e, dict)]`.
unfoldable pub dicts : Items → List Dict
dicts nil = []
dicts (cons (obj d) vs) = d ∷ dicts vs
dicts (cons v vs) = dicts vs

unfoldable pub items_of : List Dict → Items
items_of [] = nil
items_of (d ∷ ds) = cons (obj d) (items_of ds)

-- `x if isinstance(x, str) else None` and its like.
abbrev pub as_str : Value → Option String
as_str (str s) = some s
as_str _ = none

abbrev pub as_dict : Value → Option Dict
as_dict (obj d) = some d
as_dict _ = none

abbrev pub as_bool : Value → Option Bool
as_bool (bool b) = some b
as_bool _ = none

abbrev pub is_true : Value → Bool
is_true (bool b) = b
is_true _ = false

abbrev pub is_list : Value → Bool
is_list (arr vs) = true
is_list _ = false

abbrev pub is_null : Value → Bool
is_null null = true
is_null _ = false

-- `str(v)`; the text of a list or a dict is the argument's, since the program prints neither.
unfoldable pub text_of : (Value → String) → Value → String
text_of repr null = "None"
text_of repr (bool true) = "True"
text_of repr (bool false) = "False"
text_of repr (num n) = show_ℤ n
text_of repr (str s) = s
text_of repr (arr vs) = repr (arr vs)
text_of repr (obj d) = repr (obj d)

-- `v == "s"`
abbrev pub eq_str : Value → String → Bool
eq_str (str t) s = str_eq t s
eq_str _ s = false

pub find-put :
    (k j : String) (v : Value) (d : Dict)
    → find j (put k v d) ≡ (if str_eq k j then some v else find j d)
unfolding find put
find-put k j v empty = refl
find-put k j v (entry i w d) = ground (arith, eq_iff k j, eq_iff i k, eq_iff i j, find-put k j v d)

-- What is written as a list of dicts is read back whole.
pub dicts-items_of : (ds : List Dict) → dicts (items_of ds) ≡ ds
unfolding dicts items_of
dicts-items_of [] = refl
dicts-items_of (d ∷ ds) = rw (dicts-items_of ds)
