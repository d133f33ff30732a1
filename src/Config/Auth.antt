-- ===== src/Config/Auth.antt =====
-- crates/router/src/config/auth.rs. SHA-256 and its constant-time comparison are parameters.
use Prim.Native.Char.{code}
use tokendog.Base.{
  ℕ, zero, suc, ◌≡◌, ◌≢◌, refl, ◌↔◌, ◌∙◌, sym, ap, String, List, [], ◌∷◌, Option, none, some, Bool,
  true, false, any, map, get_elem?, arith, ◌==◌, if◌then◌else◌, Bool-cases, inl, inr,
}
use tokendog.Base.Text.{str_eq, eq_iff}
use tokendog.Middleware.Context.{HeaderMap, header}

pub data Access : Type 0 where
  run_next unauthorized : Access

-- `str::strip_prefix`.
unfoldable pub strip_prefix : String → String → Option String
strip_prefix String.[] s = some s
strip_prefix (String.◌∷◌ c p) String.[] = none
strip_prefix (String.◌∷◌ c p) (String.◌∷◌ d s) = if code c == code d then strip_prefix p s else none

abbrev stripped : Option (Option String) → Option String
stripped (some (some h)) = strip_prefix "Bearer " h
stripped _ = none

-- The bearer token of a request.
abbrev pub token_of : HeaderMap → Option String
token_of headers = stripped (header "authorization" headers)

module _ {D : Type 0} (digest : String → D) (ct_eq : D → D → Bool) where
  pub record AuthConfig : Type 0 where
    pub api_key_hashes : Option (List D)

  unfoldable pub new : Option (List String) → AuthConfig
  new none = record { api_key_hashes = none }
  new (some keys) = record { api_key_hashes = some (map digest keys) }

  abbrev is_known : List D → Option String → Bool
  is_known expected none = false
  is_known expected (some t) = any (λ expected_hash. ct_eq (digest t) expected_hash) expected

  abbrev pub check : Option (List D) → Option String → Access
  check none token = run_next
  check (some []) token = run_next
  check (some (h ∷ hashes)) token = if is_known (h ∷ hashes) token then run_next else unauthorized

  unfoldable pub auth_middleware : AuthConfig → String → HeaderMap → Access
  auth_middleware config path headers =
      if str_eq path "/health" then run_next else check config.api_key_hashes (token_of headers)

  pub auth_middleware_health :
      (config : AuthConfig) (path : String) (headers : HeaderMap)
      → path ≡ "/health"
      → auth_middleware config path headers ≡ run_next
  unfolding auth_middleware
  auth_middleware_health config path headers e =
      let test : str_eq path "/health" ≡ true = (eq_iff path "/health").1 e in rw test refl

  pub auth_middleware_no_keys :
      (path : String) (headers : HeaderMap)
      → auth_middleware (new (some [])) path headers ≡ run_next
  unfolding auth_middleware new
  auth_middleware_no_keys path headers = ground arith

  -- The token has the hash of one of the keys.
  abbrev pub IsKey : List String → String → Type 0
  IsKey keys t = (j : ℕ) × (key : String) × (get_elem? keys j ≡ some key) × (digest t ≡ digest key)

  module _ (ct_eq_iff : (a b : D) → (ct_eq a b ≡ true) ↔ (a ≡ b)) where
    known_to :
        (keys : List String) (t : String)
        → is_known (map digest keys) (some t) ≡ true
        → IsKey keys t
    known_to [] t e = cc
    known_to (k ∷ keys) t e = elim (Bool-cases (ct_eq (digest t) (digest k))) [
      | inl hit ↦ (0, k, refl, (ct_eq_iff (digest t) (digest k)).0 hit)
      | inr miss ↦ let (j, key, at, same) = known_to keys t (rw miss at e) in (suc j, key, at, same)
    ]

    known_from :
        (keys : List String) (t : String) (j : ℕ) (key : String)
        → get_elem? keys j ≡ some key
        → digest t ≡ digest key
        → is_known (map digest keys) (some t) ≡ true
    known_from [] t j key at same = absurd (ground arith)
    known_from (k ∷ keys) t zero key at same =
        let e : k ≡ key = ground arith in
        let hit : ct_eq (digest t) (digest k) ≡ true =
          (ct_eq_iff (digest t) (digest k)).1 (same ∙ ap digest (sym e)) in
        rw hit
    known_from (k ∷ keys) t (suc j) key at same =
        let later : is_known (map digest keys) (some t) ≡ true = known_from keys t j key at same in
        ground arith

    -- With at least one key configured, a request to a path other than /health gets through exactly
    -- if it has a bearer token with the hash of one of the keys.
    pub auth_middleware_iff :
        (key : String) (keys : List String) (path : String) (headers : HeaderMap)
        → path ≢ "/health"
        → (auth_middleware (new (some (key ∷ keys))) path headers ≡ run_next)
          ↔ ((t : String) × (token_of headers ≡ some t) × IsKey (key ∷ keys) t)
    unfolding auth_middleware new
    auth_middleware_iff key keys path headers ne =
        let test : str_eq path "/health" ≡ false = ground (arith, eq_iff path "/health") in
        rw test (decided (token_of headers) refl)
      where
        decided :
            (o : Option String)
            → token_of headers ≡ o
            → (check (some (map digest (key ∷ keys))) o ≡ run_next)
              ↔ ((t : String) × (o ≡ some t) × IsKey (key ∷ keys) t)
        decided none at = (λ e. cc, λ (t, e, h). cc)
        decided (some t) at = (
          λ e. (
            t,
            refl,
            known_to (key ∷ keys) t (through (is_known (map digest (key ∷ keys)) (some t)) e),
          ),
          λ (u, e, h).
              let same : u ≡ t = cc in
              let (j, k, there, hash) = h in
              let known : is_known (map digest (key ∷ keys)) (some t) ≡ true =
                known_from (key ∷ keys) t j k there (ap digest (sym same) ∙ hash) in
              rw known,
        )
          where
            through : (b : Bool) → (if b then run_next else unauthorized) ≡ run_next → b ≡ true
            through true e = refl
            through false e = cc
