-- ===== src/Calldata/Index.antt =====
-- calldata.py: `SelectorIndex`, the functions by their selectors. `selector_of` is
-- `function_signature_to_4byte_selector(signature).hex()`.
use Prim.Native.String.{◌++◌}
use almanak_keeperhub.Prelude.{
  String, Bool, true, false, not, Option, none, some, List, [], ◌∷◌, str_eq, if◌then◌else◌,
}
use almanak_keeperhub.Python.Text.{lower, starts_with}
use almanak_keeperhub.Python.Json.{
  Value, Items, str, arr, obj, nil, cons, get, get_default, eq_str, text_of, items_of, dicts,
}
use almanak_keeperhub.Errors.{Result, ok, err, type_error, attribute_error, ◌>>=◌}
use almanak_keeperhub.Calldata.Inputs.{FunctionSig, item, signature, parse_signature}

-- `_by_selector`, in the order of insertion.
abbrev pub SelectorIndex : Type 0
SelectorIndex = List (String × FunctionSig)

-- `self._by_selector.get(selector)`
unfoldable pub find_sig : String → SelectorIndex → Option FunctionSig
find_sig k [] = none
find_sig k ((j, sig) ∷ index) = if str_eq j k then some sig else find_sig k index

-- `self._by_selector[selector] = sig`
unfoldable pub put_sig : String → FunctionSig → SelectorIndex → SelectorIndex
put_sig k sig [] = (k, sig) ∷ []
put_sig k sig ((j, other) ∷ index) =
    if str_eq j k then (j, sig) ∷ index else (j, other) ∷ put_sig k sig index

-- `lookup`
unfoldable pub lookup : String → SelectorIndex → Option FunctionSig
lookup selector index = find_sig (lower selector) index

-- `entry.get("name", "").startswith("arg")`
unfoldable pub is_positional : Value → Result Bool
is_positional (str name) = ok (starts_with name "arg")
is_positional v = err (attribute_error "startswith")

-- `_is_bare`; `all` stops at the first named input.
unfoldable pub all_positional : Items → Result Bool
unfolding is_positional
all_positional nil = ok true
all_positional (cons (obj d) vs) =
    let rest = all_positional vs in
    do
      positional ← is_positional (get_default "name" (str "") d)
      if positional then rest else ok false
all_positional (cons v vs) = err (attribute_error "get")

unfoldable pub is_bare : FunctionSig → Result Bool
unfolding all_positional
is_bare sig = all_positional sig.inputs

-- Whether the new function takes the place of the one that is there.
unfoldable pub replaces : FunctionSig → Option FunctionSig → Result Bool
replaces sig none = ok true
replaces sig (some existing) = do
  bare ← is_bare existing
  if bare then (do bare' ← is_bare sig; ok (not bare')) else ok false

-- `[dict(i) for i in entry.get("inputs", []) if isinstance(i, dict)]`
unfoldable pub inputs_in : Value → Result Items
inputs_in (arr vs) = ok (items_of (dicts vs))
inputs_in (str s) = ok nil
inputs_in (obj d) = ok nil
inputs_in v = err (type_error "object is not iterable")

-- `document if isinstance(document, list) else document.get("abi") if ...`
unfoldable pub abi_of : Value → Value
abi_of (arr vs) = arr vs
abi_of (obj d) = get "abi" d
abi_of v = Value.null

module _ (repr : Value → String) (selector_of : String → String) where
  unfoldable pub selector : FunctionSig → Result String
  selector sig = do text ← signature repr sig; ok ("0x" ++ selector_of text)

  -- `add`
  unfoldable pub add : FunctionSig → SelectorIndex → Result SelectorIndex
  unfolding replaces selector
  add sig index = do
    k ← selector sig
    wins ← replaces sig (find_sig k index)
    ok (if wins then put_sig k sig index else index)

  -- `add_abi`
  unfoldable pub add_abi : Items → SelectorIndex → Result SelectorIndex
  unfolding inputs_in
  add_abi nil index = ok index
  add_abi (cons (obj d) vs) index =
      let skip = add_abi vs index in
      let use_it : Result SelectorIndex = inputs_in (get_default "inputs" (arr nil) d) >>= λ inputs.
      item "name" d >>= λ name.
      add (record { name = text_of repr name; inputs = inputs }) index >>= add_abi vs in
      if eq_str (get "type" d) "function" then use_it else skip
  add_abi (cons v vs) index = add_abi vs index

  -- `merge_signatures`
  unfoldable pub merge_signatures : List String → SelectorIndex → Result SelectorIndex
  merge_signatures [] index = ok index
  merge_signatures (text ∷ texts) index =
      parse_signature text >>= λ sig. add sig index >>= merge_signatures texts

  -- `from_signatures`
  unfoldable pub from_signatures : List String → Result SelectorIndex
  from_signatures texts = merge_signatures texts []

  unfoldable pub merge_document : Value → SelectorIndex → Result SelectorIndex
  merge_document document index = elim (abi_of document) [
    | arr vs ↦ add_abi vs index
    | other ↦ ok index
  ]

  -- `merge_abi_directory`, by what the files hold, in the order of their paths; none is a file that
  -- cannot be read or is not JSON.
  unfoldable pub merge_documents : List (Option Value) → SelectorIndex → Result SelectorIndex
  unfolding merge_document abi_of
  merge_documents [] index = ok index
  merge_documents (none ∷ documents) index = merge_documents documents index
  merge_documents (some document ∷ documents) index =
      merge_document document index >>= merge_documents documents

  -- `default`, by the signatures of the bundled file and the files of the almanak package.
  unfoldable pub default_index : List String → List (Option Value) → Result SelectorIndex
  default_index bundled documents = merge_signatures bundled [] >>= merge_documents documents
