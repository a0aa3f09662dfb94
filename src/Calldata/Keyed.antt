-- ===== src/Calldata/Keyed.antt =====
-- calldata.py: the index files every function under its own selector.
use almanak_keeperhub.Prelude.{
  String, ◌≡◌, sym, Bool, true, false, Option, none, some, List, [], ◌∷◌, All, arith, str_eq,
  eq_iff, Bool-cases, inl, inr, if◌then◌else◌,
}
use almanak_keeperhub.Python.Text.{lower}
use almanak_keeperhub.Python.Json.{
  Value, Items, Dict, null, bool, num, str, arr, obj, nil, cons, get, get_default, text_of, eq_str,
}
use almanak_keeperhub.Errors.{Result, ok, ◌>>=◌, ok-steps}
use almanak_keeperhub.Calldata.Inputs.{FunctionSig, item, parse_signature}
use almanak_keeperhub.Calldata.Index.{
  SelectorIndex, find_sig, put_sig, lookup, replaces, selector, add, inputs_in, add_abi,
  merge_signatures, abi_of, merge_document, merge_documents, default_index,
}

module _ (repr : Value → String) (selector_of : String → String) where
  -- Every function stands under its selector.
  abbrev pub IsKeyed : SelectorIndex → Type 0
  IsKeyed index = All (λ e. selector repr selector_of e.1 ≡ ok e.0) index

  put_sig-IsKeyed :
      (k : String) (sig : FunctionSig) (index : SelectorIndex)
      → IsKeyed index
      → selector repr selector_of sig ≡ ok k
      → IsKeyed (put_sig k sig index)
  unfolding put_sig
  put_sig-IsKeyed k sig [] h s = (s, tt)
  put_sig-IsKeyed k sig ((j, other) ∷ index) h s = elim (Bool-cases (str_eq j k)) [
    | inl same ↦ rw same (cc ((eq_iff j k).0 same), h.1)
    | inr other_key ↦ rw other_key (h.0, put_sig-IsKeyed k sig index h.1 s)
  ]

  find_sig-IsKeyed :
      (k : String) (sig : FunctionSig) (index : SelectorIndex)
      → IsKeyed index
      → find_sig k index ≡ some sig
      → selector repr selector_of sig ≡ ok k
  unfolding find_sig
  find_sig-IsKeyed k sig [] h f = cc
  find_sig-IsKeyed k sig ((j, other) ∷ index) h f = elim (Bool-cases (str_eq j k)) [
    | inl same ↦
        let key : j ≡ k = (eq_iff j k).0 same in
        let found : other ≡ sig = ground arith in let own = h.0 in cc
    | inr other_key ↦ find_sig-IsKeyed k sig index h.1 (ground arith)
  ]

  chosen-IsKeyed :
      (k : String) (sig : FunctionSig) (index index' : SelectorIndex) (wins : Bool)
      → IsKeyed index
      → selector repr selector_of sig ≡ ok k
      → ok (if wins then put_sig k sig index else index) ≡ ok index'
      → IsKeyed index'
  chosen-IsKeyed k sig index index' true h s e =
      let same : put_sig k sig index ≡ index' = cc in
      rw (sym same) (put_sig-IsKeyed k sig index h s)
  chosen-IsKeyed k sig index index' false h s e = let same : index ≡ index' = cc in rw (sym same) h

  -- An operation that leaves every function under its selector, when it succeeds.
  abbrev Keeps : (SelectorIndex → Result SelectorIndex) → Type 0
  Keeps f = (index index' : SelectorIndex) → IsKeyed index → f index ≡ ok index' → IsKeyed index'

  add-Keeps : (sig : FunctionSig) → Keeps (add repr selector_of sig)
  unfolding add
  add-Keeps sig index index' h a =
      let (k, s, rest) =
        ok-steps (selector repr selector_of sig)
          (λ k. replaces sig (find_sig k index) >>= λ wins.
            ok (if wins then put_sig k sig index else index))
          a in
      let (wins, r, e) =
        ok-steps (replaces sig (find_sig k index))
          (λ wins. ok (if wins then put_sig k sig index else index)) rest in
      chosen-IsKeyed k sig index index' wins h s e

  nothing-Keeps : Keeps ok
  nothing-Keeps index index' h e = let same : index ≡ index' = cc in rw (sym same) h

  then-Keeps :
      (f g : SelectorIndex → Result SelectorIndex)
      → Keeps f
      → Keeps g
      → Keeps (λ index. f index >>= g)
  then-Keeps f g kf kg index index' h e =
      let (between, first, second) = ok-steps (f index) g e in
      kg between index' (kf index between h first) second

  -- The operation that a value gives, if there is one.
  given-Keeps :
      {A : Type 0} (m : Result A) (f : A → SelectorIndex → Result SelectorIndex)
      → ((a : A) → Keeps (f a))
      → Keeps (λ index. m >>= λ a. f a index)
  given-Keeps m f k index index' h e =
      let (a, given, rest) = ok-steps m (λ a. f a index) e in k a index index' h rest

  merge_signatures-Keeps : (texts : List String) → Keeps (merge_signatures repr selector_of texts)
  unfolding merge_signatures
  merge_signatures-Keeps [] = nothing-Keeps
  merge_signatures-Keeps (text ∷ texts) =
      given-Keeps (parse_signature text)
        (λ sig index. add repr selector_of sig index >>= merge_signatures repr selector_of texts)
        (λ sig.
          then-Keeps (add repr selector_of sig) (merge_signatures repr selector_of texts)
            (add-Keeps sig) (merge_signatures-Keeps texts))

  entry-Keeps :
      (d : Dict) (rest : SelectorIndex → Result SelectorIndex)
      → Keeps rest
      → Keeps (λ index. inputs_in (get_default "inputs" (arr nil) d) >>= λ inputs.
          item "name" d >>= λ name.
          add repr selector_of (record { name = text_of repr name; inputs = inputs }) index
          >>= rest)
  entry-Keeps d rest k =
      given-Keeps (inputs_in (get_default "inputs" (arr nil) d))
        (λ inputs index. item "name" d >>= λ name.
          add repr selector_of (record { name = text_of repr name; inputs = inputs }) index
          >>= rest)
        (λ inputs.
          given-Keeps (item "name" d)
            (λ name index.
              add repr selector_of (record { name = text_of repr name; inputs = inputs }) index
              >>= rest)
            (λ name.
              then-Keeps
                (add repr selector_of (record { name = text_of repr name; inputs = inputs })) rest
                (add-Keeps (record { name = text_of repr name; inputs = inputs })) k))

  add_abi-Keeps : (abi : Items) → Keeps (add_abi repr selector_of abi)
  unfolding add_abi
  add_abi-Keeps nil = nothing-Keeps
  add_abi-Keeps (cons (obj d) vs) = λ index index' h e.
      elim (Bool-cases (eq_str (get "type" d) "function")) [
        | inl function ↦
            entry-Keeps d (add_abi repr selector_of vs) (add_abi-Keeps vs) index index' h
              (rw function at e)
        | inr other ↦ add_abi-Keeps vs index index' h (rw other at e)
      ]
  add_abi-Keeps (cons null vs) = add_abi-Keeps vs
  add_abi-Keeps (cons (bool b) vs) = add_abi-Keeps vs
  add_abi-Keeps (cons (num n) vs) = add_abi-Keeps vs
  add_abi-Keeps (cons (str s) vs) = add_abi-Keeps vs
  add_abi-Keeps (cons (arr xs) vs) = add_abi-Keeps vs

  merge_document-Keeps : (document : Value) → Keeps (merge_document repr selector_of document)
  unfolding merge_document abi_of
  merge_document-Keeps (arr vs) = add_abi-Keeps vs
  merge_document-Keeps (obj d) = found-Keeps (get "abi" d)
    where
      found-Keeps :
          (abi : Value)
          → Keeps
              (λ index. elim abi [ arr vs ↦ add_abi repr selector_of vs index | other ↦ ok index ])
      found-Keeps (arr vs) = add_abi-Keeps vs
      found-Keeps null = nothing-Keeps
      found-Keeps (bool b) = nothing-Keeps
      found-Keeps (num n) = nothing-Keeps
      found-Keeps (str s) = nothing-Keeps
      found-Keeps (obj e) = nothing-Keeps
  merge_document-Keeps null = nothing-Keeps
  merge_document-Keeps (bool b) = nothing-Keeps
  merge_document-Keeps (num n) = nothing-Keeps
  merge_document-Keeps (str s) = nothing-Keeps

  merge_documents-Keeps :
      (documents : List (Option Value)) → Keeps (merge_documents repr selector_of documents)
  unfolding merge_documents
  merge_documents-Keeps [] = nothing-Keeps
  merge_documents-Keeps (none ∷ documents) = merge_documents-Keeps documents
  merge_documents-Keeps (some document ∷ documents) =
      then-Keeps (merge_document repr selector_of document)
        (merge_documents repr selector_of documents) (merge_document-Keeps document)
        (merge_documents-Keeps documents)

  pub default_index-IsKeyed :
      (bundled : List String) (documents : List (Option Value)) (index : SelectorIndex)
      → default_index repr selector_of bundled documents ≡ ok index
      → IsKeyed index
  unfolding default_index
  default_index-IsKeyed bundled documents index e =
      then-Keeps (merge_signatures repr selector_of bundled)
        (merge_documents repr selector_of documents) (merge_signatures-Keeps bundled)
        (merge_documents-Keeps documents) [] index tt e

  -- The function that a lookup finds has the selector that it was looked up by, in lower case.
  pub lookup-IsKeyed :
      (k : String) (sig : FunctionSig) (index : SelectorIndex)
      → IsKeyed index
      → lookup k index ≡ some sig
      → selector repr selector_of sig ≡ ok (lower k)
  unfolding lookup
  lookup-IsKeyed k sig index h f = find_sig-IsKeyed (lower k) sig index h f
