-- ===== src/Json.antt =====
-- JSON values as Python's `json` reads them, and the tests that the services make on them. An object
-- is the list of its entries.
use openclaw_manager.Common.{
  ℕ, String, Bool, true, false, not, ◌&&◌, Option, none, some, List, [], ◌∷◌, ◌==◌, string_eq,
  nat_eq, if◌then◌else◌, any, all,
}

mutual
  pub data Value : Type 0 where
    null : Value
    text : String → Value
    int : ℕ → Value
    flag : Bool → Value
    obj : Fields → Value
    -- a list, a float or a negative number, with its truth value
    rest : Bool → Value

  pub data Fields : Type 0 where
    end : Fields
    entry : String → Value → Fields → Fields

-- `payload.get(key)`, and `payload[key]` with none for a KeyError
abbrev pub get : String → Fields → Option Value
get key end = none
get key (entry name value more) = if name == key then some value else get key more

abbrev pub keys : Fields → List String
keys end = []
keys (entry name value more) = name ∷ keys more

abbrev pub among : List String → String → Bool
among names key = any (λ name. name == key) names

-- `set(payload) - allowed` is empty
abbrev pub has_only : List String → Fields → Bool
has_only allowed fields = all (among allowed) (keys fields)

-- `set(payload) == required`
abbrev pub has_exactly : List String → Fields → Bool
has_exactly required fields = has_only required fields && all (among (keys fields)) required

-- `bool(value)`
abbrev pub truth : Value → Bool
truth null = false
truth (text t) = not (t == "")
truth (int n) = not (n == 0)
truth (flag b) = b
truth (obj end) = false
truth (obj (entry name value more)) = true
truth (rest b) = b

-- A text, where `isinstance(value, str)`.
abbrev pub text_of : Option Value → Option String
text_of (some (text t)) = some t
text_of _ = none

-- A missing key reads as None.
abbrev pub is_missing : Option Value → Bool
is_missing none = true
is_missing (some null) = true
is_missing (some _) = false

abbrev pub has_text : (String → Bool) → Option Value → Bool
has_text test value = elim (text_of value) [ none ↦ false | some t ↦ test t ]

abbrev pub is_filled : String → Bool
is_filled t = not (t == "")

-- `isinstance(value, int)`, which a bool is as well
abbrev pub int_of : Option Value → Option ℕ
int_of (some (int n)) = some n
int_of (some (flag true)) = some 1
int_of (some (flag false)) = some 0
int_of _ = none
