-- ===== src/Keeper/Endings.antt =====
-- keeper.py: how the steps of a run end, whatever the host.
use almanak_keeperhub.Prelude.{
  ℕ, zero, suc, ◌≤◌, String, ◌≡◌, ◌⊎◌, Option, List, [], true, false, arith,
}
use almanak_keeperhub.Prelude.Int.{pos, negsuc}
use almanak_keeperhub.Python.Json.{Value, Dict, null, bool, num, str, arr, obj, dicts, text_of}
use almanak_keeperhub.Errors.{
  Error, Result, ok, err, transport, value_error, type_error, runtime_error, attribute_error,
}
use almanak_keeperhub.Effects.{Response, Host}
use almanak_keeperhub.Client.Answers.{receipt_items}
use almanak_keeperhub.Keeper.Remote.{content}
use almanak_keeperhub.Keeper.Run.{is_terminal, interval, dict_of}

-- The exceptions that a run may end with: those of httpx, of an answer of 400 or more, and of an
-- answer that does not have the shape that the code expects.
abbrev pub IsRunError : Error → Type 0
IsRunError (transport e) = Unit
IsRunError (runtime_error e) = Unit
IsRunError (value_error e) = Unit
IsRunError (attribute_error e) = Unit
IsRunError (type_error e) = Unit
IsRunError e = ⊥

-- A value satisfies P at the clock of its return, and an exception is one of those.
abbrev pub Ended : {A : Type 0} → (A → ℕ → Type 0) → Result A → ℕ → Type 0
Ended P (ok a) now = P a now
Ended P (err e) now = IsRunError e

-- A value is returned at c or later.
abbrev pub From : {A : Type 0} → ℕ → A → ℕ → Type 0
From c a now = c ≤ now

pub content-Ended : (c : ℕ) (r : Response) (now : ℕ) → c ≤ now → Ended (From c) (content r) now
unfolding content
content-Ended c r now past = ground arith

pub dict_of-Ended :
    (P : ℕ → Type 0) (v : Value) (now : ℕ) → P now → Ended (λ d now. P now) (dict_of v) now
unfolding dict_of
dict_of-Ended P (obj d) now past = past
dict_of-Ended P v now past = tt

pub interval-Ended :
    (c : ℕ) (h : Host) (hint : Option String) (now : ℕ)
    → c ≤ now
    → Ended (From c) (interval h hint) now
unfolding interval
interval-Ended c h hint now past = ground arith

pub receipt_items-Ended :
    (P : List Dict → ℕ → Type 0) (v : Value) (now : ℕ)
    → ((l : List Dict) → P l now)
    → Ended P (receipt_items v) now
unfolding receipt_items
receipt_items-Ended P null now past = past []
receipt_items-Ended P (bool true) now past = tt
receipt_items-Ended P (bool false) now past = past []
receipt_items-Ended P (num (pos zero)) now past = past []
receipt_items-Ended P (num (pos (suc n))) now past = tt
receipt_items-Ended P (num (negsuc n)) now past = tt
receipt_items-Ended P (str s) now past = past []
receipt_items-Ended P (arr vs) now past = past (dicts vs)
receipt_items-Ended P (obj d) now past = past []

-- The outcome of the loop: a status that is terminal, or the deadline has come.
abbrev pub Followed : Host → ℕ → Value → ℕ → Type 0
Followed h deadline status now = (is_terminal (text_of h.repr) status ≡ true) ⊎ (deadline ≤ now)
