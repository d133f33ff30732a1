-- ===== src/Base/Text.antt =====
-- Texts: the equality of the library, UTF-8 bytes, trimming.
use Prim.Native.Nat.{ℕ, ◌+◌, ◌/◌, ◌%◌}
use Prim.Native.Char.{Char, code}
use Prim.Native.String.{String}
use mathlib.Core.List.{List, [], ◌∷◌, ◌++◌}
use mathlib.Core.Path.{◌≡◌, refl}
use tokendog.Base.Tests.{ltb, ◌==◌, if◌then◌else◌}
pub use text.Mathlib.Text.{◌==◌ as str_eq}
pub use text.Mathlib.TextEquality.{eq_iff}
pub use text.Mathlib.TextPositions.{eq_refl}

-- The UTF-8 encoding of one code point.
abbrev pub utf8 : ℕ → List ℕ
utf8 c =
    if ltb c 0x80
    then c ∷ []
    else if ltb c 0x800
    then (0xc0 + c / 64) ∷ (0x80 + c % 64) ∷ []
    else if ltb c 0x10000
    then (0xe0 + c / 4096) ∷ (0x80 + c / 64 % 64) ∷ (0x80 + c % 64) ∷ []
    else (0xf0 + c / 262144) ∷ (0x80 + c / 4096 % 64) ∷ (0x80 + c / 64 % 64) ∷ (0x80 + c % 64) ∷ []

-- `str::bytes`.
abbrev pub bytes : String → List ℕ
bytes String.[] = []
bytes (String.◌∷◌ c s) = utf8 (code c) ++ bytes s

-- `str::trim_end_matches` of one character.
abbrev cons_trimmed : ℕ → Char → String → String
cons_trimmed p c String.[] = if code c == p then String.[] else String.◌∷◌ c String.[]
cons_trimmed p c s = String.◌∷◌ c s

unfoldable pub trim_end_matches : ℕ → String → String
trim_end_matches p String.[] = String.[]
trim_end_matches p (String.◌∷◌ c s) = cons_trimmed p c (trim_end_matches p s)

trimmed : trim_end_matches b'/' "http://a:1//" ≡ "http://a:1"
unfolding trim_end_matches
trimmed = refl
