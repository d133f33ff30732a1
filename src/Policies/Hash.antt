-- ===== src/Policies/Hash.antt =====
-- stable_hash of crates/router/src/policies/mod.rs: FNV-1a, 64 bits, over the UTF-8 bytes.
use Prim.Native.Nat.{bit_xor}
use tokendog.Base.{ℕ, ◌<◌, ◌≡◌, refl, String, List, [], ◌∷◌, arith}
use tokendog.Base.Words.{word_mod, wrapping_mul}
use tokendog.Base.Text.{bytes}

abbrev fnv_offset : ℕ
fnv_offset = 0xcbf29ce484222325

abbrev fnv_prime : ℕ
fnv_prime = 0x100000001b3

-- One round of the loop.
hash_byte : ℕ → ℕ → ℕ
hash_byte hash byte = wrapping_mul (bit_xor hash byte) fnv_prime

hash_bytes : ℕ → List ℕ → ℕ
unfolding hash_byte
hash_bytes hash [] = hash
hash_bytes hash (byte ∷ rest) = hash_bytes (hash_byte hash byte) rest

unfoldable pub stable_hash : String → ℕ
unfolding hash_bytes
stable_hash s = hash_bytes fnv_offset (bytes s)

hash_bytes_lt : (hash : ℕ) (bs : List ℕ) → hash < word_mod → hash_bytes hash bs < word_mod
unfolding hash_bytes
hash_bytes_lt hash [] h = h
hash_bytes_lt hash (b ∷ bs) h = hash_bytes_lt (hash_byte hash b) bs (omega arith)

-- The published FNV-1a vectors.
hash_of_empty : stable_hash "" ≡ 0xcbf29ce484222325
unfolding stable_hash
hash_of_empty = refl

hash_of_a : stable_hash "a" ≡ 0xaf63dc4c8601ec8c
unfolding stable_hash
hash_of_a = refl

hash_of_foobar : stable_hash "foobar" ≡ 0x85944171f73967e8
unfolding stable_hash
hash_of_foobar = refl
