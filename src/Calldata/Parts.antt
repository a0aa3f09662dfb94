-- ===== src/Calldata/Parts.antt =====
-- calldata.py: `_split_top_level` finds the types that a signature names.
use Prim.Native.Char.{Char}
use Prim.Native.String.{◌++◌}
use text.Mathlib.TextLemmas.{append-nil, nil-append, cons-append}
use almanak_keeperhub.Prelude.{
  String, ◌≡◌, refl, sym, ap, ◌∙◌, Bool, true, false, not, [], ◌∷◌, arith,
}
use almanak_keeperhub.Prelude.Int.{pos}
use almanak_keeperhub.Python.Text.{is_text, is_space, skip_spaces, rstrip, strip, join_with}
use almanak_keeperhub.Calldata.Split.{split_from, stripped, split_top_level}
use almanak_keeperhub.Calldata.Balanced.{Balanced, split_from-Balanced, single-append}
use almanak_keeperhub.Calldata.Types.{
  SolType, SolTypes, word, tuple, end, and, print, print_all, is_plain, all_chars, is_written,
  are_written, print-Balanced,
}

pub all_chars-append :
    (p : Char → Bool) (s t : String)
    → all_chars p s ≡ true
    → all_chars p t ≡ true
    → all_chars p (s ++ t) ≡ true
all_chars-append p String.[] t hs ht = rw (nil-append t) ht
all_chars-append p (String.◌∷◌ c s) t hs ht =
    rw (cons-append c s t) (ground (arith, all_chars-append p s t))

abbrev pub no_space : Char → Bool
no_space c = not (is_space c)

plain-no_space : (s : String) → all_chars is_plain s ≡ true → all_chars no_space s ≡ true
plain-no_space String.[] h = refl
plain-no_space (String.◌∷◌ c s) h = ground (arith, plain-no_space s)

mutual
  unfolding print is_written join_with is_space

  print-no_space : (t : SolType) → is_written t ≡ true → all_chars no_space (print t) ≡ true
  print-no_space (word w) h = plain-no_space w (ground arith)
  print-no_space (tuple ts suffix) h =
      all_chars-append no_space (join_with "," (print_all ts)) (String.◌∷◌ ")" suffix)
        (print_all-no_space ts (ground arith)) (plain-no_space suffix (ground arith))

  pub print_all-no_space :
      (ts : SolTypes)
      → are_written ts ≡ true
      → all_chars no_space (join_with "," (print_all ts)) ≡ true
  print_all-no_space end h = refl
  print_all-no_space (and t end) h = print-no_space t (ground arith)
  print_all-no_space (and t (and u ts)) h =
      all_chars-append no_space (print t) ("," ++ join_with "," (print_all (and u ts)))
        (print-no_space t (ground arith))
        (all_chars-append no_space "," (join_with "," (print_all (and u ts))) refl
          (print_all-no_space (and u ts) (ground arith)))

rstrip-no_space : (s : String) → all_chars no_space s ≡ true → rstrip s ≡ s
unfolding rstrip
rstrip-no_space String.[] h = refl
rstrip-no_space (String.◌∷◌ c s) h = ground (arith, rstrip-no_space s)

skip_spaces-no_space : (s : String) → all_chars no_space s ≡ true → skip_spaces s ≡ s
unfolding skip_spaces
skip_spaces-no_space String.[] h = refl
skip_spaces-no_space (String.◌∷◌ c s) h = ground arith

strip-no_space : (s : String) → all_chars no_space s ≡ true → strip s ≡ s
unfolding strip
strip-no_space s h = rw (skip_spaces-no_space s h) (rstrip-no_space s h)

is_text-print : (t : SolType) → is_written t ≡ true → is_text (print t) ≡ true
unfolding print is_written
is_text-print (word w) h = ground arith
is_text-print (tuple ts suffix) h = refl

split_from-last :
    (s : String)
    → all_chars no_space s ≡ true
    → is_text s ≡ true
    → Balanced false s
    → split_from s (pos 0) "" ≡ s ∷ []
unfolding split_from
split_from-last s h t b =
    ap (λ r. split_from r (pos 0) "") (sym (append-nil s))
    ∙ (split_from-Balanced 0 "" "" b ∙ rw (nil-append s, strip-no_space s h, t))

split_from-cut :
    (s rest : String)
    → Balanced false s
    → split_from (s ++ ("," ++ rest)) (pos 0) "" ≡ s ∷ split_from rest (pos 0) ""
unfolding split_from
split_from-cut s rest b =
    split_from-Balanced 0 ("," ++ rest) "" b ∙ rw (nil-append s, single-append "," rest)

split_from-print_all :
    (ts : SolTypes)
    → are_written ts ≡ true
    → split_from (join_with "," (print_all ts)) (pos 0) "" ≡ print_all ts
unfolding join_with print is_written
split_from-print_all end h = unfold split_from strip skip_spaces rstrip in refl
split_from-print_all (and t end) h =
    split_from-last (print t) (print-no_space t (ground arith)) (is_text-print t (ground arith))
      (print-Balanced t (ground arith))
split_from-print_all (and t (and u ts)) h =
    split_from-cut (print t) (join_with "," (print_all (and u ts)))
      (print-Balanced t (ground arith))
    ∙ ap (λ r. print t ∷ r) (split_from-print_all (and u ts) (ground arith))

stripped-print_all :
    (ts : SolTypes) → are_written ts ≡ true → stripped (print_all ts) ≡ print_all ts
unfolding stripped print is_written
stripped-print_all end h = refl
stripped-print_all (and t ts) h =
    rw (strip-no_space (print t) (print-no_space t (ground arith)), is_text-print t (ground arith))
      (ap (λ r. print t ∷ r) (stripped-print_all ts (ground arith)))

pub split_top_level-print_all :
    (ts : SolTypes)
    → are_written ts ≡ true
    → split_top_level (join_with "," (print_all ts)) ≡ print_all ts
unfolding split_top_level
split_top_level-print_all ts h = rw (split_from-print_all ts h) (stripped-print_all ts h)
