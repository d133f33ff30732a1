-- ===== src/Config/Selectors.antt =====
-- parse_selector of crates/router/src/config/mod.rs. `trim` removes what Unicode calls white space.
use Prim.Native.Char.{Char, code}
use Prim.Native.String
use text.Mathlib.TextLemmas.{nil-append, cons-append}
use tokendog.Base.{
  ℕ, ◌≡◌, refl, sym, String, List, [], ◌∷◌, Option, none, some, Bool, true, false, ◌||◌, ◌++◌, ◌⊎◌,
  inl, inr, Bool-cases, All, ◌&&◌, leb, ◌==◌, if◌then◌else◌, ◌∙◌, ap,
}
use tokendog.Base.Map.{lookup, insert, lookup-insert}
use tokendog.Base.Text.{str_eq}

abbrev is_whitespace : ℕ → Bool
is_whitespace c =
    (leb 9 c && leb c 13)
    || c == 0x20
    || c == 0x85
    || c == 0xa0
    || c == 0x1680
    || (leb 0x2000 c && leb c 0x200a)
    || c == 0x2028
    || c == 0x2029
    || c == 0x202f
    || c == 0x205f
    || c == 0x3000

abbrev trim_start : String → String
trim_start String.[] = String.[]
trim_start (String.◌∷◌ c s) = if is_whitespace (code c) then trim_start s else String.◌∷◌ c s

abbrev cons_trimmed : Char → String → String
cons_trimmed c String.[] = if is_whitespace (code c) then String.[] else String.◌∷◌ c String.[]
cons_trimmed c s = String.◌∷◌ c s

abbrev trim_end : String → String
trim_end String.[] = String.[]
trim_end (String.◌∷◌ c s) = cons_trimmed c (trim_end s)

abbrev trim : String → String
trim s = trim_end (trim_start s)

abbrev consed : Char → Option (String × String) → Option (String × String)
consed c none = none
consed c (some (k, v)) = some (String.◌∷◌ c k, v)

-- `split_once('=')`.
abbrev split_once : String → Option (String × String)
split_once String.[] = none
split_once (String.◌∷◌ c s) = if code c == b'=' then some ("", s) else consed c (split_once s)

abbrev trimmed : Option (String × String) → Option (String × String)
trimmed none = none
trimmed (some (k, v)) = some (trim k, trim v)

-- The key and the value of an entry; `none` where it has no `=`.
unfoldable pub entry_of : String → Option (String × String)
entry_of item = trimmed (split_once item)

abbrev pub insert_some : Option (String × String) → List (String × String) → List (String × String)
insert_some none map = map
insert_some (some (k, v)) map = insert k v map

unfoldable pub parse_from : List (String × String) → List String → List (String × String)
parse_from map [] = map
parse_from map (item ∷ items) = parse_from (insert_some (entry_of item) map) items

unfoldable pub parse_selector : List String → List (String × String)
unfolding parse_from
parse_selector items = parse_from [] items

-- No character is `=`.
abbrev pub HasNoEquals : String → Type 0
HasNoEquals String.[] = Unit
HasNoEquals (String.◌∷◌ c s) = ((code c == b'=') ≡ false) × HasNoEquals s

-- The entry is a text without `=`, then `=`, then the value.
abbrev pub IsSplit : String → String → String → Type 0
IsSplit item key value =
    (c : Char) × ((code c == b'=') ≡ true)
    × HasNoEquals key
    × (item ≡ String.◌++◌ key (String.◌∷◌ c value))

-- The entry gives the key a value, both without the white space around them.
abbrev pub Gives : String → String → String → Type 0
Gives key value item =
    (k v : String) × IsSplit item k v × (str_eq (trim k) key ≡ true) × (trim v ≡ value)

-- The entry has no `=`, or it is one for another key.
abbrev pub Skips : String → String → Type 0
Skips key item =
    HasNoEquals item ⊎ ((k v : String) × IsSplit item k v × (str_eq (trim k) key ≡ false))

split_once-cases :
    (s : String)
    → (HasNoEquals s × (split_once s ≡ none))
      ⊎ ((k v : String) × IsSplit s k v × (split_once s ≡ some (k, v)))
split_once-cases String.[] = inl (tt, refl)
split_once-cases (String.◌∷◌ c s) = elim (Bool-cases (code c == b'=')) [
  | inl equals ↦ inr ("", s, (c, equals, tt, sym (nil-append (String.◌∷◌ c s))), rw equals)
  | inr other ↦ elim (split_once-cases s) [
    | inl (free, none_at) ↦ inl ((other, free), rw (other, none_at))
    | inr (k, v, (d, equals, free, at), found) ↦ inr (
      String.◌∷◌ c k,
      v,
      (
        d,
        equals,
        (other, free),
        ap (λ t. String.◌∷◌ c t) at ∙ sym (cons-append c k (String.◌∷◌ d v)),
      ),
      rw (other, found),
    )
  ]
]

entry_of-cases :
    (item : String)
    → (HasNoEquals item × (entry_of item ≡ none))
      ⊎ ((k v : String) × IsSplit item k v × (entry_of item ≡ some (trim k, trim v)))
unfolding entry_of
entry_of-cases item = elim (split_once-cases item) [
  | inl (free, none_at) ↦ inl (free, ap trimmed none_at)
  | inr (k, v, at, found) ↦ inr (k, v, at, ap trimmed found)
]

-- What a selector has for a key after the entries: the value of the last one that gives it one, or
-- what was there before.
abbrev pub IsLast : String → List String → Option String → Option String → Type 0
IsLast key items before found =
    ((earlier later : List String) × (item value : String) × (items ≡ earlier ++ item ∷ later)
      × Gives key value item
      × All (Skips key) later
      × (found ≡ some value))
    ⊎ (All (Skips key) items × (found ≡ before))

parse_from-IsLast :
    (key : String) (items : List String) (map : List (String × String))
    → IsLast key items (lookup key map) (lookup key (parse_from map items))
unfolding parse_from
parse_from-IsLast key [] map = inr (tt, refl)
parse_from-IsLast key (item ∷ items) map =
    elim (parse_from-IsLast key items (insert_some (entry_of item) map)) [
      | inl (earlier, later, other, value, at, gives, skip, found) ↦
          inl (item ∷ earlier, later, other, value, ap (λ l. item ∷ l) at, gives, skip, found)
      | inr (skip, same) ↦ elim (entry_of-cases item) [
        | inl (free, none_at) ↦
            inr ((inl free, skip), same ∙ ap (λ e. lookup key (insert_some e map)) none_at)
        | inr (k, v, at, found) ↦
            let now =
              same
              ∙ ap (λ e. lookup key (insert_some e map)) found
              ∙ lookup-insert key (trim k) (trim v) map in
            elim (Bool-cases (str_eq (trim k) key)) [
              | inl hit ↦
                  inl ([], items, item, trim v, refl, (k, v, at, hit, refl), skip, now ∙ rw hit)
              | inr miss ↦ inr ((inr (k, v, at, miss), skip), now ∙ rw miss)
            ]
      ]
    ]

-- A key of the parsed selector has the value of the last entry that gives it one: an entry is split
-- at its first `=`, and both sides are trimmed. A key that no entry gives a value is not there; an
-- entry without `=` gives none.
pub lookup-parse_selector :
    (key : String) (items : List String) → IsLast key items none (lookup key (parse_selector items))
unfolding parse_selector lookup
lookup-parse_selector key items = parse_from-IsLast key items []

test_parse_selector :
    parse_selector ("app = web" ∷ "broken" ∷ "tier=x=y" ∷ "app=api" ∷ [])
    ≡ ("app", "api") ∷ ("tier", "x=y") ∷ []
unfolding parse_selector entry_of insert
test_parse_selector = refl
