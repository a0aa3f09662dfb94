-- ===== src/Wallets/Agreed.antt =====
-- almanak_keeperhub/wallets.py: the wallet that `resolve_wallet_address` names is the one that
-- KeeperHub sends from.
use almanak_keeperhub.Prelude.{
  String, ◌≡◌, refl, true, false, Option, none, some, [], ◌∷◌, arith, eq_iff, Bool-cases, ◌⊎◌, inl,
  inr,
}
use almanak_keeperhub.Python.Text.{is_text, join, lower}
use almanak_keeperhub.Python.Json.{Value, Dict, null, obj, truthy, get, text_of}
use almanak_keeperhub.Errors.{Result, ok, err}
use almanak_keeperhub.Wallets.{
  Environment, HttpResponse, base_url_of, address_in, address_of, or_next, find_address, disagrees,
  cross_checked, without_key, resolve_wallet_address,
}

-- What a URL's answer says of the wallet: nothing, if it is not JSON.
pub data Says (http_get : String → Result HttpResponse) (url : String) (v : Value) : Type 0 where
  named :
      (r : HttpResponse) (d : Dict)
      → http_get url ≡ ok r
      → r.status_code ≡ 200
      → r.json ≡ some (obj d)
      → get "walletAddress" d ≡ v
      → Says http_get url v
  unreadable :
      (r : HttpResponse)
      → http_get url ≡ ok r
      → r.status_code ≡ 200
      → r.json ≡ none
      → null ≡ v
      → Says http_get url v

-- The address that KeeperHub signs as: the first of its two answers that names one.
pub data SignsAs (http_get : String → Result HttpResponse) (base : String) (v : Value)
    : Type 0 where
  by_user :
      Says http_get (join (base ∷ "/api/user" ∷ [])) v → truthy v ≡ true → SignsAs http_get base v
  by_wallet :
      (u : Value)
      → Says http_get (join (base ∷ "/api/user" ∷ [])) u
      → truthy u ≡ false
      → Says http_get (join (base ∷ "/api/user/wallet" ∷ [])) v
      → truthy v ≡ true
      → SignsAs http_get base v

pub data IsAgreed (repr : Value → String) (http_get : String → Result HttpResponse)
    (env : Environment) (a : String) : Type 0 where
  explicit_only :
      is_text env.api_key ≡ false
      → env.wallet_address ≡ some a
      → is_text a ≡ true
      → IsAgreed repr http_get env a
  signed :
      (v : Value)
      → is_text env.api_key ≡ true
      → SignsAs http_get (base_url_of env) v
      → text_of repr v ≡ a
      → ((explicit : String)
          → env.wallet_address ≡ some explicit
          → is_text explicit ≡ true
          → lower explicit ≡ lower a)
      → IsAgreed repr http_get env a

module _ (http_get : String → Result HttpResponse) (url : String) (v : Value) where
  address_in-Says :
      (r : HttpResponse) (json : Option Value)
      → http_get url ≡ ok r
      → r.status_code ≡ 200
      → r.json ≡ json
      → address_in json ≡ ok v
      → Says http_get url v
  unfolding address_in
  address_in-Says r none e s j h = unreadable r e s j cc
  address_in-Says r (some null) e s j h = cc
  address_in-Says r (some (Value.bool b)) e s j h = cc
  address_in-Says r (some (Value.num n)) e s j h = cc
  address_in-Says r (some (Value.str t)) e s j h = cc
  address_in-Says r (some (Value.arr vs)) e s j h = cc
  address_in-Says r (some (obj d)) e s j h = named r d e s j cc

  status_of-ok : (r : HttpResponse) → address_of url (ok r) ≡ ok v → r.status_code ≡ 200
  unfolding address_of
  status_of-ok r h = ground arith

  address_of-ok : (r : HttpResponse) → address_of url (ok r) ≡ ok v → address_in r.json ≡ ok v
  unfolding address_of
  address_of-ok r h = ground arith

  address_of-Says :
      (x : Result HttpResponse) → http_get url ≡ x → address_of url x ≡ ok v → Says http_get url v
  unfolding address_of
  address_of-Says (err e) g h = cc
  address_of-Says (ok r) g h =
      address_in-Says r r.json g (status_of-ok r h) refl (address_of-ok r h)

or_next-ok :
    (first second : Result Value) (v : Value)
    → or_next first second ≡ ok v
    → truthy v ≡ true
    → (first ≡ ok v) ⊎ ((u : Value) × (first ≡ ok u) × (truthy u ≡ false) × (second ≡ ok v))
unfolding or_next
or_next-ok (err e) second v h t = cc
or_next-ok (ok u) second v h t = elim (Bool-cases (truthy u)) [
  | inl e ↦ inl (ground arith)
  | inr e ↦ inr (u, refl, e, ground arith)
]

find_address-SignsAs :
    (http_get : String → Result HttpResponse) (base : String) (v : Value)
    → find_address http_get base ≡ ok v
    → truthy v ≡ true
    → SignsAs http_get base v
unfolding find_address
find_address-SignsAs http_get base v h t =
    let user = join (base ∷ "/api/user" ∷ []) in
    let wallet = join (base ∷ "/api/user/wallet" ∷ []) in
    elim (or_next-ok (address_of user (http_get user)) (address_of wallet (http_get wallet)) v h
      t) [
        | inl e ↦ by_user (address_of-Says http_get user v (http_get user) refl e) t
        | inr p ↦
            by_wallet p.0 (address_of-Says http_get user p.0 (http_get user) refl p.1) p.2
              (address_of-Says http_get wallet v (http_get wallet) refl p.3) t
      ]

disagrees-Agrees :
    (explicit a : String)
    → disagrees (some explicit) a ≡ false
    → is_text explicit ≡ true
    → lower explicit ≡ lower a
unfolding disagrees
disagrees-Agrees explicit a h t = ground (arith, eq_iff (lower explicit) (lower a))

module _ (repr : Value → String) (explicit : Option String) (base a : String) (v : Value)
    (h : cross_checked repr explicit base (ok v) ≡ ok a) where
  cross_checked-truthy : truthy v ≡ true
  unfolding cross_checked
  cross_checked-truthy = ground arith

  cross_checked-text : text_of repr v ≡ a
  unfolding cross_checked
  cross_checked-text = ground arith

  cross_checked-agrees : disagrees explicit (text_of repr v) ≡ false
  unfolding cross_checked
  cross_checked-agrees = ground arith

agrees_given :
    (given : Option String) (explicit text a : String)
    → disagrees given text ≡ false
    → given ≡ some explicit
    → text ≡ a
    → is_text explicit ≡ true
    → lower explicit ≡ lower a
agrees_given none explicit text a h e same t = cc
agrees_given (some x) explicit text a h e same t =
    let given : x ≡ explicit = cc in
    let agree : is_text x ≡ true → lower x ≡ lower text = disagrees-Agrees x text h in
    let set : is_text x ≡ true = cc in let found : lower x ≡ lower text = agree set in cc

with_key-IsAgreed :
    (repr : Value → String) (http_get : String → Result HttpResponse) (env : Environment)
    (a : String) (found : Result Value)
    → is_text env.api_key ≡ true
    → find_address http_get (base_url_of env) ≡ found
    → cross_checked repr env.wallet_address (base_url_of env) found ≡ ok a
    → IsAgreed repr http_get env a
unfolding cross_checked
with_key-IsAgreed repr http_get env a (err e) key f h = cc
with_key-IsAgreed repr http_get env a (ok v) key f h =
    let base = base_url_of env in
    let text = cross_checked-text repr env.wallet_address base a v h in
    signed v key
      (find_address-SignsAs http_get base v f
        (cross_checked-truthy repr env.wallet_address base a v h))
      text
      (λ explicit given t.
        agrees_given env.wallet_address explicit (text_of repr v) a
          (cross_checked-agrees repr env.wallet_address base a v h) given text t)

without_key-ok :
    (explicit : Option String) (a : String)
    → without_key explicit ≡ ok a
    → (explicit ≡ some a) × (is_text a ≡ true)
unfolding without_key
without_key-ok none a h = cc
without_key-ok (some e) a h = elim (Bool-cases (is_text e)) [
  | inl t ↦ (ground arith, ground arith)
  | inr f ↦ cc
]

-- A wallet that `resolve_wallet_address` returns is the one that KeeperHub signs as, by the first
-- of its two answers that names one, and it is, but for the cases of the letters, the one that
-- KEEPERHUB_WALLET_ADDRESS gives, if that is set; without an API key it is the latter.
pub resolve_wallet_address-IsAgreed :
    (repr : Value → String) (http_get : String → Result HttpResponse) (env : Environment)
    (a : String)
    → resolve_wallet_address repr http_get env ≡ ok a
    → IsAgreed repr http_get env a
unfolding resolve_wallet_address
resolve_wallet_address-IsAgreed repr http_get env a h = elim (Bool-cases (is_text env.api_key)) [
  | inl key ↦
      with_key-IsAgreed repr http_get env a (find_address http_get (base_url_of env)) key refl
        (ground arith)
  | inr none_set ↦
      let given = without_key-ok env.wallet_address a (ground arith) in
      explicit_only none_set given.0 given.1
]
