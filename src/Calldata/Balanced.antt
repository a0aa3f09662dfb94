-- ===== src/Calldata/Balanced.antt =====
-- calldata.py: what `_split_top_level` and `_matching_paren` do on a text whose parentheses match.
use Prim.Native.Char.{Char, code}
use Prim.Native.String.{◌++◌}
use text.Mathlib.TextLemmas.{append_assoc, append-nil, nil-append, cons-append}
use mathlib.Core.Path.{ap₂}
use almanak_keeperhub.Prelude.{
  ℕ, suc, ◌+◌, String, ◌≡◌, refl, ◌∙◌, ap, Bool, true, false, not, ◌&&◌, arith, ◌==◌,
}
use almanak_keeperhub.Prelude.Int.{ℤ, pos}
use almanak_keeperhub.Python.Text.{length}
use almanak_keeperhub.Calldata.Split.{up, deeper, push, split_from, close_from}

-- Parentheses match, and commas stand inside of some unless `inside` allows them everywhere.
pub data Balanced : Bool → String → Type 0 where
  done : {inside : Bool} → Balanced inside ""
  char :
      {inside : Bool} {s : String} (c : Char)
      → (code c == b'(') ≡ false
      → (code c == b')') ≡ false
      → (code c == b',' && not inside) ≡ false
      → Balanced inside s
      → Balanced inside (String.◌∷◌ c s)
  group :
      {inside : Bool} {s t u : String}
      → Balanced true s
      → Balanced inside t
      → u ≡ String.◌∷◌ "(" (s ++ String.◌∷◌ ")" t)
      → Balanced inside u

pub Balanced-inside : {s : String} → Balanced false s → Balanced true s
Balanced-inside done = done
Balanced-inside (char c o p k b) = char c o p (ground arith) (Balanced-inside b)
Balanced-inside (group b b' e) = group b (Balanced-inside b') e

pub Balanced-append :
    {inside : Bool} {s t : String}
    → Balanced inside s
    → Balanced inside t
    → Balanced inside (s ++ t)
Balanced-append {t} done h = rw (nil-append t) h
Balanced-append {t} (char {s} c o p k b) h =
    rw (cons-append c s t) (char c o p k (Balanced-append b h))
Balanced-append {t} (group {s = x} {t = y} b b' e) h =
    group b (Balanced-append b' h) (rw e (simp (cons-append, append_assoc)))

-- A depth at which such a text may stand.
abbrev pub depth_at : Bool → ℕ → ℤ
depth_at false n = pos n
depth_at true n = pos (suc n)

deeper-other :
    (c : Char) (d : ℤ) → (code c == b'(') ≡ false → (code c == b')') ≡ false → deeper c d ≡ d
deeper-other c d o p = rw (o, p)

split_from-char :
    (inside : Bool) (n : ℕ) (c : Char) (s current : String)
    → (code c == b'(') ≡ false
    → (code c == b')') ≡ false
    → (code c == b',' && not inside) ≡ false
    → split_from (String.◌∷◌ c s) (depth_at inside n) current
      ≡ split_from s (depth_at inside n) (push current c)
unfolding split_from
split_from-char false n c s current o p k = ground arith
split_from-char true n c s current o p k = ground arith

split_from-open :
    (inside : Bool) (n : ℕ) (s current : String)
    → split_from (String.◌∷◌ "(" s) (depth_at inside n) current
      ≡ split_from s (up (depth_at inside n)) (push current "(")
unfolding split_from
split_from-open false n s current = refl
split_from-open true n s current = refl

split_from-shut :
    (n : ℕ) (s current : String)
    → split_from (String.◌∷◌ ")" s) (pos (suc n)) current ≡ split_from s (pos n) (push current ")")
unfolding split_from
split_from-shut n s current = refl

pub single-append : (c : Char) (s : String) → String.◌∷◌ c "" ++ s ≡ String.◌∷◌ c s
single-append c s = cons-append c "" s ∙ ap (String.◌∷◌ c) (nil-append s)

pub open-append : (s : String) → "(" ++ s ≡ String.◌∷◌ "(" s
open-append s = single-append "(" s

pub shut-append : (s : String) → ")" ++ s ≡ String.◌∷◌ ")" s
shut-append s = single-append ")" s

push-group :
    (current s t : String)
    → push (push current "(" ++ s) ")" ++ t ≡ current ++ String.◌∷◌ "(" (s ++ String.◌∷◌ ")" t)
push-group current s t = simp (append_assoc, open-append, shut-append, cons-append)

-- The depth inside of a group, less one.
abbrev deep : Bool → ℕ → ℕ
deep false n = n
deep true n = suc n

up-depth_at : (inside : Bool) (n : ℕ) → up (depth_at inside n) ≡ pos (suc (deep inside n))
up-depth_at false n = refl
up-depth_at true n = refl

pos-deep : (inside : Bool) (n : ℕ) → pos (deep inside n) ≡ depth_at inside n
pos-deep false n = refl
pos-deep true n = refl

append-assoc-group :
    (s t rest : String)
    → String.◌∷◌ "(" (s ++ String.◌∷◌ ")" t) ++ rest
      ≡ String.◌∷◌ "(" (s ++ (String.◌∷◌ ")" t ++ rest))
append-assoc-group s t rest =
    cons-append "(" (s ++ String.◌∷◌ ")" t) rest
    ∙ ap (String.◌∷◌ "(") (append_assoc s (String.◌∷◌ ")" t) rest)

-- The loop takes such a text into the current part and is as deep as before.
pub split_from-Balanced :
    {inside : Bool} {s : String} (n : ℕ) (rest current : String)
    → Balanced inside s
    → split_from (s ++ rest) (depth_at inside n) current
      ≡ split_from rest (depth_at inside n) (current ++ s)
split_from-Balanced n rest current done = rw (nil-append rest, append-nil current)
split_from-Balanced {inside} n rest current (char {s} c o p k b) = rw (cons-append c s rest) (
    split_from-char inside n c (s ++ rest) current o p k
    ∙ (split_from-Balanced n rest (push current c) b
        ∙ ap (split_from rest (depth_at inside n)) (simp (append_assoc, cons-append, nil-append))))
split_from-Balanced {inside} n rest current (group {s} {t} b b' e) =
    let after = String.◌∷◌ ")" t ++ rest in
    let opened = push current "(" in
    let inner = split_from-Balanced (deep inside n) after opened b in
    let outer = split_from-Balanced n rest (push (opened ++ s) ")") b' in
    rw e (
      rw (append-assoc-group s t rest) (
        split_from-open inside n (s ++ after) current
        ∙ (ap (λ d. split_from (s ++ after) d opened) (up-depth_at inside n)
            ∙ (inner
                ∙ (ap (λ r. split_from r (pos (suc (deep inside n))) (opened ++ s))
                      (cons-append ")" t rest)
                    ∙ (split_from-shut (deep inside n) (t ++ rest) (opened ++ s)
                        ∙ (ap (λ d. split_from (t ++ rest) d (push (opened ++ s) ")"))
                              (pos-deep inside n)
                            ∙ (outer
                                ∙ ap (split_from rest (depth_at inside n))
                                    (push-group current s t)))))))))

close_from-other :
    (text : String) (i n : ℕ) (c : Char) (s : String)
    → (code c == b'(') ≡ false
    → (code c == b')') ≡ false
    → close_from text i (pos (suc n)) (String.◌∷◌ c s) ≡ close_from text (suc i) (pos (suc n)) s
unfolding close_from
close_from-other text i n c s o p = rw (o, p)

close_from-open :
    (text : String) (i n : ℕ) (s : String)
    → close_from text i (pos (suc n)) (String.◌∷◌ "(" s)
      ≡ close_from text (suc i) (pos (suc (suc n))) s
unfolding close_from
close_from-open text i n s = refl

close_from-shut :
    (text : String) (i n : ℕ) (s : String)
    → close_from text i (pos (suc (suc n))) (String.◌∷◌ ")" s)
      ≡ close_from text (suc i) (pos (suc n)) s
unfolding close_from
close_from-shut text i n s = refl

pub length-append : (s t : String) → length (s ++ t) ≡ length s + length t
unfolding length
length-append String.[] t = rw (nil-append t) (omega arith)
length-append (String.◌∷◌ c s) t = rw (cons-append c s t) (omega (arith, length-append s t))

length-group :
    (s t : String) → length (String.◌∷◌ "(" (s ++ String.◌∷◌ ")" t)) ≡ length s + length t + 2
unfolding length
length-group s t = omega (arith, length-append s (String.◌∷◌ ")" t))

-- `_matching_paren` steps over such a text.
pub close_from-Balanced :
    {inside : Bool} {s : String} (text : String) (i n : ℕ) (rest : String)
    → Balanced inside s
    → close_from text i (pos (suc n)) (s ++ rest)
      ≡ close_from text (i + length s) (pos (suc n)) rest
unfolding length
close_from-Balanced text i n rest done =
    ap₂ (λ k r. close_from text k (pos (suc n)) r) (omega arith) (nil-append rest)
close_from-Balanced text i n rest (char {s} c o p k b) = rw (cons-append c s rest) (
    close_from-other text i n c (s ++ rest) o p
    ∙ (close_from-Balanced text (suc i) n rest b
        ∙ ap (λ k. close_from text k (pos (suc n)) rest) (omega arith)))
close_from-Balanced text i n rest (group {s} {t} b b' e) = rw e (
    rw (append-assoc-group s t rest) (
      close_from-open text i n (s ++ (String.◌∷◌ ")" t ++ rest))
      ∙ (close_from-Balanced text (suc i) (suc n) (String.◌∷◌ ")" t ++ rest) b
          ∙ (ap (close_from text (suc i + length s) (pos (suc (suc n)))) (cons-append ")" t rest)
              ∙ (close_from-shut text (suc i + length s) n (t ++ rest)
                  ∙ (close_from-Balanced text (suc (suc i + length s)) n rest b'
                      ∙ ap (λ k. close_from text k (pos (suc n)) rest)
                          (omega (arith, length-group s t))))))))
