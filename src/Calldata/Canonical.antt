-- ===== src/Calldata/Canonical.antt =====
-- calldata.py: `_canonical_type`, entry by entry.
use Prim.Native.String.{◌++◌}
use text.Mathlib.TextLemmas.{nil-append, cons-append}
use almanak_keeperhub.Prelude.{String, ◌≡◌, refl, ap, true, false, List, [], ◌∷◌, arith}
use almanak_keeperhub.Python.Text.{starts_with, join_with, drop, length}
use almanak_keeperhub.Python.Json.{Value, Items, Dict, arr, obj, nil, cons, put, find, text_of}
use almanak_keeperhub.Errors.{ok, ◌>>=◌, >>=_assoc}
use almanak_keeperhub.Calldata.Balanced.{open-append, shut-append}
use almanak_keeperhub.Calldata.Inputs.{
  canonical_types, canonical_type, canonical_of, components_types, type_text, named_type,
}

pub canonical_types-nil : (repr : Value → String) → canonical_types repr nil ≡ ok []
unfolding canonical_types
canonical_types-nil repr = refl

-- The types of a list of entries are those of the first and of the others.
pub canonical_types-cons :
    (repr : Value → String) (d : Dict) (vs : Items)
    → canonical_types repr (cons (obj d) vs)
      ≡ (canonical_type repr d >>= λ first. canonical_types repr vs >>= λ rest. ok (first ∷ rest))
unfolding canonical_types canonical_type
canonical_types-cons repr d vs =
    >>=_assoc (type_text repr d) (canonical_of (components_types repr d))
      (λ first. canonical_types repr vs >>= λ rest. ok (first ∷ rest))

pub starts_with-append : (p s : String) → starts_with (p ++ s) p ≡ true
unfolding starts_with
starts_with-append String.[] s = refl
starts_with-append (String.◌∷◌ c p) s =
    rw (cons-append c p s) (ground (arith, starts_with-append p s))

pub drop-append : (p s : String) → drop (length p) (p ++ s) ≡ s
unfolding drop length
drop-append String.[] s = nil-append s
drop-append (String.◌∷◌ c p) s = rw (cons-append c p s) (drop-append p s)

pub drop-tuple : (s : String) → drop 5 ("tuple" ++ s) ≡ s
unfolding length
drop-tuple s = drop-append "tuple" s

pub canonical_of-tuple :
    (types : List String) (s : String)
    → canonical_of (ok types) ("tuple" ++ s)
      ≡ ok (String.◌∷◌ "(" (join_with "," types ++ String.◌∷◌ ")" s))
unfolding canonical_of
canonical_of-tuple types s =
    rw (starts_with-append "tuple" s, drop-tuple s) (ap ok (simp (open-append, shut-append)))

pub canonical_type-word :
    (repr : Value → String) (name typ : String)
    → starts_with typ "tuple" ≡ false
    → canonical_type repr (named_type name typ) ≡ ok typ
unfolding canonical_type find text_of
canonical_type-word repr name typ h = rw h

pub canonical_type-tuple :
    (repr : Value → String) (name s : String) (ds : Items) (types : List String)
    → canonical_types repr ds ≡ ok types
    → canonical_type repr (put "components" (arr ds) (named_type name ("tuple" ++ s)))
      ≡ ok (String.◌∷◌ "(" (join_with "," types ++ String.◌∷◌ ")" s))
unfolding canonical_type components_types find text_of put
canonical_type-tuple repr name s ds types h = rw h (canonical_of-tuple types s)
