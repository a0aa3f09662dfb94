-- ===== src/Calldata/RoundTrip.antt =====
-- calldata.py: `_parse_signature` and `FunctionSig.signature` are inverse on signatures that are
-- written without spaces.
use Prim.Native.Char.{Char, code}
use Prim.Native.String.{◌++◌}
use text.Mathlib.TextLemmas.{append_assoc, append-nil, nil-append, cons-append}
use mathlib.Core.Option
use almanak_keeperhub.Prelude.{
  ℕ, zero, suc, ◌<◌, String, ◌≡◌, refl, ap, ◌∙◌, true, false, some, arith, ◌==◌,
}
use almanak_keeperhub.Python.Text.{
  is_space, skip_spaces, is_blank, starts_with, join_with, show, length,
}
use almanak_keeperhub.Python.Json.{Value, Items, Dict, arr, obj, nil, cons, put}
use almanak_keeperhub.Errors.{ok, ◌>>=◌}
use almanak_keeperhub.Calldata.Types.{
  SolType, SolTypes, word, tuple, end, and, print, print_all, all_chars, is_written, are_written,
  is_name, print_all-Balanced,
}
use almanak_keeperhub.Calldata.Balanced.{single-append, open-append}
use almanak_keeperhub.Calldata.Canonical.{
  canonical_types-cons, canonical_type-word, canonical_type-tuple, canonical_types-nil,
}
use almanak_keeperhub.Calldata.Parts.{no_space, print_all-no_space, split_top_level-print_all}
use almanak_keeperhub.Calldata.Inputs.{
  canonical_types, canonical_type, signature, number_inputs, named_type, tuple_input,
  type_to_abi_input, starts_name, continues_name, match_params, match_name, match_signature,
  parse_signature,
}
use almanak_keeperhub.Calldata.Grouped.{
  grouped, not_tuple, tuple_input-grouped, length-print, length-print_all,
}

mutual
  -- The ABI input of a type, and those of a list of types.
  input_of : SolType → String → Dict
  input_of (word w) name = named_type name w
  input_of (tuple ts suffix) name =
      put "components" (arr (inputs_of "c" 0 ts)) (named_type name ("tuple" ++ suffix))

  inputs_of : String → ℕ → SolTypes → Items
  inputs_of prefix i end = nil
  inputs_of prefix i (and t ts) =
      cons (obj (input_of t (prefix ++ show i))) (inputs_of prefix (suc i) ts)

type_to_abi_input-grouped :
    (f : ℕ) (s t name : String)
    → type_to_abi_input (suc f) (grouped s t) name
      ≡ tuple_input (type_to_abi_input f) (grouped s t) name
unfolding type_to_abi_input starts_with grouped
type_to_abi_input-grouped f s t name = refl

-- A type is written at its length in fuel.
mutual
  unfolding print is_written input_of type_to_abi_input number_inputs grouped join_with

  type_to_abi_input-print :
      (f : ℕ) (t : SolType) (name : String)
      → is_written t ≡ true
      → length (print t) < f
      → type_to_abi_input f (print t) name ≡ ok (input_of t name)
  type_to_abi_input-print zero t name h m = absurd (omega arith)
  type_to_abi_input-print (suc f) (word w) name h m = rw (not_tuple w (ground arith))
  type_to_abi_input-print (suc f) (tuple ts suffix) name h m =
      let inner = join_with "," (print_all ts) in
      let written : are_written ts ≡ true = ground arith in
      let split = split_top_level-print_all ts written in
      let inputs = inputs-print f "c" 0 ts written (omega (arith, length-print ts suffix)) in
      type_to_abi_input-grouped f inner suffix name
      ∙ tuple_input-grouped (type_to_abi_input f) inner suffix name (inputs_of "c" 0 ts)
          (print_all-Balanced ts written) (rw split inputs)

  inputs-print :
      (f : ℕ) (prefix : String) (i : ℕ) (ts : SolTypes)
      → are_written ts ≡ true
      → length (join_with "," (print_all ts)) < f
      → number_inputs (type_to_abi_input f) prefix i (print_all ts) ≡ ok (inputs_of prefix i ts)
  inputs-print f prefix i end h m = refl
  inputs-print f prefix i (and t end) h m =
      rw (type_to_abi_input-print f t (prefix ++ show i) (ground arith) m)
  inputs-print f prefix i (and t (and u ts)) h m = rw (
    type_to_abi_input-print f t (prefix ++ show i) (ground arith)
        (omega (arith, length-print_all t u ts)),
    inputs-print f prefix (suc i) (and u ts) (ground arith)
        (omega (arith, length-print_all t u ts)),
  )

-- The canonical types of the inputs are the types as they are written.
mutual
  unfolding print is_written input_of

  types-inputs_of :
      (repr : Value → String) (prefix : String) (i : ℕ) (ts : SolTypes)
      → are_written ts ≡ true
      → canonical_types repr (inputs_of prefix i ts) ≡ ok (print_all ts)
  types-inputs_of repr prefix i end h = canonical_types-nil repr
  types-inputs_of repr prefix i (and t ts) h =
      canonical_types-cons repr (input_of t (prefix ++ show i)) (inputs_of prefix (suc i) ts)
      ∙ rw (
        type-input_of repr (prefix ++ show i) t (ground arith),
        types-inputs_of repr prefix (suc i) ts (ground arith),
      )

  type-input_of :
      (repr : Value → String) (name : String) (t : SolType)
      → is_written t ≡ true
      → canonical_type repr (input_of t name) ≡ ok (print t)
  type-input_of repr name (word w) h = canonical_type-word repr name w (ground arith)
  type-input_of repr name (tuple ts suffix) h =
      canonical_type-tuple repr name suffix (inputs_of "c" 0 ts) (print_all ts)
        (types-inputs_of repr "c" 0 ts (ground arith))

is_blank-shut : (s : String) → is_blank (s ++ ")") ≡ false
unfolding is_blank is_space
is_blank-shut String.[] = refl
is_blank-shut (String.◌∷◌ c s) = rw (cons-append c s ")") (ground (arith, is_blank-shut s))

newline-is_space : (c : Char) → no_space c ≡ true → (code c == 10) ≡ false
unfolding is_space
newline-is_space c h = ground arith

match_params-no_space :
    (s : String) → all_chars no_space s ≡ true → match_params (s ++ ")") ≡ some s
unfolding match_params
match_params-no_space String.[] h = unfold is_blank is_space in refl
match_params-no_space (String.◌∷◌ c s) h =
    let newline = newline-is_space c (ground arith) in
    let rest = match_params-no_space s (ground arith) in
    rw (cons-append c s ")") (rw (is_blank-shut s, newline, rest) (ground arith))

match_name-append :
    (name s rest : String)
    → all_chars continues_name s ≡ true
    → match_name name (s ++ String.◌∷◌ "(" rest)
      ≡ Option.map (λ p. (name ++ s, p)) (match_params rest)
unfolding match_name
match_name-append name String.[] rest h = rw (nil-append (String.◌∷◌ "(" rest), append-nil name)
match_name-append name (String.◌∷◌ c s) rest h =
    let continues : continues_name c ≡ true = ground arith in
    let more = match_name-append (name ++ String.◌∷◌ c "") s rest (ground arith) in
    let joined : (name ++ String.◌∷◌ c "") ++ s ≡ name ++ String.◌∷◌ c s =
      simp (append_assoc, single-append) in
    rw (cons-append c s (String.◌∷◌ "(" rest), continues)
      (more ∙ ap (λ n. Option.map (λ p. (n, p)) (match_params rest)) joined)

-- The text of a function with parameters of some types, as `signatures.json` spells it.
unfoldable pub written : String → SolTypes → String
written name ts = name ++ "(" ++ join_with "," (print_all ts) ++ ")"

written-grouped :
    (c : Char) (s : String) (ts : SolTypes)
    → written (String.◌∷◌ c s) ts
      ≡ String.◌∷◌ c (s ++ String.◌∷◌ "(" (join_with "," (print_all ts) ++ ")"))
unfolding written
written-grouped c s ts = simp (cons-append, open-append)

match_signature-written :
    (name : String) (ts : SolTypes)
    → is_name name ≡ true
    → are_written ts ≡ true
    → match_signature (skip_spaces (written name ts)) ≡ some (name, join_with "," (print_all ts))
unfolding match_signature skip_spaces is_space
match_signature-written (String.◌∷◌ c s) ts n h =
    let starts : starts_name c ≡ true = ground arith in
    let apart : is_space c ≡ false = unfold is_space in ground arith in
    let params = match_params-no_space (join_with "," (print_all ts)) (print_all-no_space ts h) in
    rw (written-grouped c s ts) (
      rw (apart, starts)
        (match_name-append (String.◌∷◌ c "") s (join_with "," (print_all ts) ++ ")") (ground arith)
          ∙ rw (params, single-append c s)))
match_signature-written String.[] ts n h = cc

parse_signature-written :
    (name : String) (ts : SolTypes)
    → is_name name ≡ true
    → are_written ts ≡ true
    → parse_signature (written name ts) ≡ ok (record { name = name; inputs = inputs_of "arg" 0 ts })
unfolding parse_signature
parse_signature-written name ts n h =
    let inner = join_with "," (print_all ts) in
    rw (
      match_signature-written name ts n h,
      split_top_level-print_all ts h,
      inputs-print (suc (length inner)) "arg" 0 ts h (omega arith),
    )

-- Parsing a signature and printing the function that it gives is the identity: the selector that
-- the index files a bundled signature under is the one of the text itself. The signature is a name,
-- and types without spaces, nested in tuples to any depth; no word begins with "tuple".
pub signature-parse_signature :
    (repr : Value → String) (name : String) (ts : SolTypes)
    → is_name name ≡ true
    → are_written ts ≡ true
    → (parse_signature (written name ts) >>= signature repr) ≡ ok (written name ts)
unfolding signature written
signature-parse_signature repr name ts n h =
    rw (parse_signature-written name ts n h, types-inputs_of repr "arg" 0 ts h)
