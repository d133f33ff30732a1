-- ===== src/Middleware/Context.antt =====
-- crates/router/src/middleware/context.rs. A header map is the list of its entries, with names in
-- lower case; the value is what `to_str` gives: `none` where it is not visible ASCII.
use tokendog.Base.{
  ℕ, zero, suc, String, List, [], ◌∷◌, Option, none, some, Bool, false, if◌then◌else◌,
}
use tokendog.Base.Text.{str_eq}
use tokendog.Policies.{RequestContext}
use tokendog.Middleware.Json.{Json, get, as_str, as_array}

abbrev pub HeaderMap : Type 0
HeaderMap = List (String × Option String)

-- `HeaderMap::get`: the first value of the name.
abbrev pub header : String → HeaderMap → Option (Option String)
header name [] = none
header name ((key, value) ∷ headers) = if str_eq key name then some value else header name headers

abbrev or_else {ℓ} : {A : Type ℓ} → Option A → Option A → Option A
or_else (some a) b = some a
or_else none b = b

abbrev and_then {ℓ κ} : {A : Type ℓ} {B : Type κ} → Option A → (A → Option B) → Option B
and_then none k = none
and_then (some a) k = k a

abbrev unwrap_or {ℓ} : {A : Type ℓ} → Option A → A → A
unwrap_or none a = a
unwrap_or (some b) a = b

abbrev not_empty : String → Option String
not_empty s = if str_eq s "" then none else some s

-- The key that the headers imply.
unfoldable pub implicit_key : HeaderMap → Option String
implicit_key headers =
    let found =
      or_else (or_else (header "authorization" headers) (header "x-forwarded-for" headers))
        (header "cookie" headers) in
    and_then (and_then found (λ v. v)) not_empty

abbrev is_system : Json → Bool
is_system m = elim (and_then (get "role" m) as_str) [
  | none ↦ false
  | some role ↦ str_eq role "system"
]

abbrev first_system : List Json → Option Json
first_system [] = none
first_system (m ∷ messages) = if is_system m then some m else first_system messages

abbrev first {ℓ} : {A : Type ℓ} → List A → Option A
first [] = none
first (a ∷ rest) = some a

-- The first `n` characters.
abbrev pub take_chars : ℕ → String → String
take_chars zero s = ""
take_chars (suc n) String.[] = ""
take_chars (suc n) (String.◌∷◌ c s) = String.◌∷◌ c (take_chars n s)

abbrev some_prefix : String → Option String
some_prefix s = some (take_chars 200 s)

abbrev pub prefix_of : Json → String
prefix_of v =
    let messages = and_then (get "messages" v) as_array in
    let message = and_then messages (λ msgs. or_else (first_system msgs) (first msgs)) in
    let content = and_then (and_then message (get "content")) as_str in
    unwrap_or (and_then content some_prefix) "default"

abbrev pub session_of : Option String → Json → String
session_of (some key) v = key
session_of none v =
    unwrap_or (and_then (or_else (get "user" v) (get "session_id" v)) as_str) "default"

-- `parsed` is the body as serde_json reads it, `none` where it is no JSON text.
unfoldable pub extract_context : Option Json → HeaderMap → RequestContext
unfolding implicit_key
extract_context none headers = record {
  session_id = unwrap_or (implicit_key headers) "default";
  prefix_key = "default";
}
extract_context (some v) headers = record {
  session_id = session_of (implicit_key headers) v;
  prefix_key = prefix_of v;
}
