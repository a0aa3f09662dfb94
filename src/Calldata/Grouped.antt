-- ===== src/Calldata/Grouped.antt =====
-- calldata.py: the texts of tuples, taken apart at their closing parenthesis.
use Prim.Native.Char.{Char}
use Prim.Native.String.{◌++◌}
use text.Mathlib.TextLemmas.{nil-append, cons-append}
use almanak_keeperhub.Prelude.{suc, ◌+◌, ◌-◌, ◌<◌, String, ◌≡◌, refl, ap, ◌∙◌, true, false, arith}
use almanak_keeperhub.Python.Text.{starts_with, join_with, take, drop, length}
use almanak_keeperhub.Python.Json.{Items, Dict, arr, put}
use almanak_keeperhub.Errors.{Result, ok}
use almanak_keeperhub.Calldata.Split.{close_from, matching_paren, split_top_level}
use almanak_keeperhub.Calldata.Types.{
  SolType, SolTypes, tuple, and, print, print_all, is_plain, all_chars,
}
use almanak_keeperhub.Calldata.Balanced.{Balanced, close_from-Balanced, length-append}
use almanak_keeperhub.Calldata.Inputs.{number_inputs, named_type, tuple_input}

pub take-append : (s t : String) → take (length s) (s ++ t) ≡ s
unfolding take length
take-append String.[] t = refl
take-append (String.◌∷◌ c s) t = rw (cons-append c s t) (ap (String.◌∷◌ c) (take-append s t))

pub drop-append : (s t : String) (c : Char) → drop (suc (length s)) (s ++ String.◌∷◌ c t) ≡ t
unfolding drop length
drop-append String.[] t c = rw (nil-append (String.◌∷◌ c t))
drop-append (String.◌∷◌ d s) t c = rw (cons-append d s (String.◌∷◌ c t)) (drop-append s t c)

unfoldable pub grouped : String → String → String
grouped s t = String.◌∷◌ "(" (s ++ String.◌∷◌ ")" t)

pub matching_paren-grouped :
    (s t : String) → Balanced true s → matching_paren (grouped s t) ≡ ok (suc (length s))
unfolding matching_paren close_from grouped
matching_paren-grouped s t b =
    close_from-Balanced (grouped s t) 1 0 (String.◌∷◌ ")" t) b ∙ ap ok (omega arith)

pub inner-grouped : (s t : String) → take (suc (length s) - 1) (drop 1 (grouped s t)) ≡ s
unfolding grouped drop
inner-grouped s t =
    ap (λ k. take k (s ++ String.◌∷◌ ")" t)) (omega arith) ∙ take-append s (String.◌∷◌ ")" t)

pub suffix-grouped : (s t : String) → drop (suc (length s) + 1) (grouped s t) ≡ t
unfolding grouped drop
suffix-grouped s t =
    let index : suc (length s) + 1 ≡ suc (suc (length s)) = omega arith in
    rw index (drop-append s t ")")

pub not_tuple : (w : String) → all_chars is_plain w ≡ true → starts_with w "(" ≡ false
unfolding starts_with
not_tuple String.[] h = refl
not_tuple (String.◌∷◌ c s) h = ground arith

pub tuple_input-grouped :
    (to_input : String → String → Result Dict) (s t name : String) (ds : Items)
    → Balanced true s
    → number_inputs to_input "c" 0 (split_top_level s) ≡ ok ds
    → tuple_input to_input (grouped s t) name
      ≡ ok (put "components" (arr ds) (named_type name ("tuple" ++ t)))
unfolding tuple_input
tuple_input-grouped to_input s t name ds b h =
    rw (matching_paren-grouped s t b, inner-grouped s t, suffix-grouped s t, h)

pub length-grouped : (s t : String) → length s < length (grouped s t)
unfolding length grouped
length-grouped s t = omega (arith, length-append s (String.◌∷◌ ")" t))

pub length-comma : length "," ≡ 1
unfolding length
length-comma = refl

pub length-print :
    (ts : SolTypes) (suffix : String)
    → length (join_with "," (print_all ts)) < length (print (tuple ts suffix))
unfolding print grouped
length-print ts suffix = length-grouped (join_with "," (print_all ts)) suffix

pub length-print_all :
    (t u : SolType) (ts : SolTypes)
    → length (join_with "," (print_all (and t (and u ts))))
      ≡ length (print t) + length (join_with "," (print_all (and u ts))) + 1
unfolding join_with print
length-print_all t u ts =
    let rest = join_with "," (print_all (and u ts)) in
    omega (arith, length-append (print t) ("," ++ rest), length-append "," rest, length-comma)
