-- ===== src/Calldata/Split.antt =====
-- calldata.py: `_split_top_level` and `_matching_paren`, which read the text of a signature.
use Prim.Native.Char.{Char, code}
use Prim.Native.String.{◌++◌}
use almanak_keeperhub.Prelude.{ℕ, zero, suc, String, Bool, ◌&&◌, List, [], ◌∷◌, ◌==◌, if◌then◌else◌}
use almanak_keeperhub.Prelude.Int.{ℤ, pos, negsuc}
use almanak_keeperhub.Python.Text.{is_text, strip, join}
use almanak_keeperhub.Errors.{Result, ok, err, value_error}

abbrev pub up : ℤ → ℤ
up (pos n) = pos (suc n)
up (negsuc zero) = pos zero
up (negsuc (suc n)) = negsuc n

abbrev pub down : ℤ → ℤ
down (pos zero) = negsuc zero
down (pos (suc n)) = pos n
down (negsuc n) = negsuc (suc n)

abbrev pub is_zero : ℤ → Bool
is_zero (pos zero) = Bool.true
is_zero n = Bool.false

-- `depth += ch == "("` and `depth -= ch == ")"`
abbrev pub deeper : Char → ℤ → ℤ
deeper c depth = if code c == b'(' then up depth else if code c == b')' then down depth else depth

-- `current += ch`
abbrev pub push : String → Char → String
push current c = current ++ String.◌∷◌ c ""

-- The loop of `_split_top_level`, with `parts` in front of what it returns.
unfoldable pub split_from : String → ℤ → String → List String
split_from String.[] depth current = if is_text (strip current) then current ∷ [] else []
split_from (String.◌∷◌ c s) depth current =
    let cut = current ∷ split_from s depth "" in
    let on = split_from s (deeper c depth) (push current c) in
    if code c == b',' && is_zero depth then cut else on

-- `[p.strip() for p in parts if p.strip()]`
unfoldable pub stripped : List String → List String
stripped [] = []
stripped (p ∷ ps) = let rest = stripped ps in if is_text (strip p) then strip p ∷ rest else rest

unfoldable pub split_top_level : String → List String
unfolding split_from stripped
split_top_level s = stripped (split_from s (pos 0) "")

-- The loop of `_matching_paren` at index `i`; `text` is the whole text.
unfoldable pub close_from : String → ℕ → ℤ → String → Result ℕ
close_from text i depth String.[] =
    err (value_error (join ("unbalanced tuple type: '" ∷ text ∷ "'" ∷ [])))
close_from text i depth (String.◌∷◌ c s) =
    let more = close_from text (suc i) (deeper c depth) s in
    if is_zero (deeper c depth) then ok i else more

unfoldable pub matching_paren : String → Result ℕ
unfolding close_from
matching_paren text = close_from text 0 (pos 0) text
