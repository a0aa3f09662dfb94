-- ===== src/Bot/Words.antt =====
-- bot.py: the words of a message. Whitespace is that of ASCII.
use Prim.Native.Char.{code}
use almanak_keeperhub.Prelude.{
  String, ◌≡◌, refl, Bool, true, ◌&&◌, List, [], ◌∷◌, ltb, ◌==◌, if◌then◌else◌,
}
use almanak_keeperhub.Python.Text.{is_space}

pushed : String → List String → List String
pushed String.[] words = words
pushed word words = word ∷ words

-- The word that a text begins with, if it does not begin with a space, and the words after it.
chunks : String → String × List String
unfolding pushed is_space
chunks String.[] = ("", [])
chunks (String.◌∷◌ c s) =
    let (word, words) = chunks s in
    if is_space c then ("", pushed word words) else (String.◌∷◌ c word, words)

-- `s.strip().split()`
unfoldable pub words_of : String → List String
unfolding chunks
words_of s = let (word, words) = chunks s in pushed word words

-- `s.split("@")[0]`
unfoldable pub before_at : String → String
before_at String.[] = ""
before_at (String.◌∷◌ c s) =
    let rest = before_at s in if code c == b'@' then "" else String.◌∷◌ c rest

-- What `secrets.compare_digest` accepts.
unfoldable pub is_ascii : String → Bool
is_ascii String.[] = true
is_ascii (String.◌∷◌ c s) = ltb (code c) 128 && is_ascii s

words_of_command : words_of "  /Guard@keeper_bot \n stale " ≡ "/Guard@keeper_bot" ∷ "stale" ∷ []
unfolding words_of
words_of_command = refl

before_at_command : before_at "/guard@keeper_bot" ≡ "/guard"
unfolding before_at
before_at_command = refl
