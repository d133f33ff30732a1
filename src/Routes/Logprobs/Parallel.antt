-- ===== src/Routes/Logprobs/Parallel.antt =====
-- The arrays of a merged choice stay parallel.
use tokendog.Base.{
  ℕ, zero, suc, ◌+◌, ◌-◌, ◌≤◌, min, get_elem?, ◌≡◌, refl, ◌∙◌, ap, String, List, [], ◌∷◌, ◌++◌,
  Option, none, some, true, false, length, take, length-take, length-append, All, arith,
  if◌then◌else◌,
}
use tokendog.Base.Int.{ℤ, pos, ◌+ℤ◌, wrap_i64}
use tokendog.Base.Text.{str_eq, bytes}
use tokendog.Middleware.Json.{
  Json, Fields, array, as_array, as_i64, as_str, from_i64, values_of, elements-values_of, set_field,
  field_at-set_field,
}
use tokendog.Routes.Logprobs.{
  and_then, array_at, prefixed, merge_array, base_offset, adjusted, last, token_len, text_len,
  merged_offsets, prefixed_offsets, merge_offsets, merge_logprobs,
}

array_at-set_field :
    (key name : String) (vs : List Json) (fields : Fields)
    → array_at key (set_field name (array (values_of vs)) fields)
      ≡ (if str_eq name key then some vs else array_at key fields)
array_at-set_field key name vs fields =
    ap (λ o. and_then o as_array) (field_at-set_field key name (array (values_of vs)) fields)
    ∙ ground (arith, elements-values_of vs)

module _ (key : String) (n : ℕ) (plp dlp : Fields) where
  -- The array that is merged, and the others.
  array_at-merge_array :
      (p d : List Json)
      → array_at key plp ≡ some p
      → array_at key dlp ≡ some d
      → str_eq key key ≡ true
      → array_at key (merge_array key n plp dlp).0 ≡ some (take n p ++ d)
  unfolding merge_array
  array_at-merge_array p d at_p at_d same =
      rw (at_p, at_d) (array_at-set_field key key (take n p ++ d) dlp ∙ rw same)

  other-merge_array :
      (other : String)
      → str_eq key other ≡ false
      → array_at other (merge_array key n plp dlp).0 ≡ array_at other dlp
  unfolding merge_array
  other-merge_array other ne = kept (array_at key plp) (array_at key dlp)
    where
      kept :
          (p d : Option (List Json))
          → array_at other (prefixed key n p d dlp).0 ≡ array_at other dlp
      kept none d = refl
      kept (some p) none = refl
      kept (some p) (some d) = array_at-set_field other key (take n p ++ d) dlp ∙ rw ne

module _ (n : ℕ) (plp dlp : Fields) where
  array_at-merge_offsets :
      (p d : List Json)
      → array_at "text_offset" plp ≡ some p
      → array_at "text_offset" dlp ≡ some d
      → array_at "text_offset" (merge_offsets n plp dlp).0
        ≡ some (merged_offsets (base_offset n (array_at "tokens" plp) (take n p)) (take n p) d)
  unfolding merge_offsets
  array_at-merge_offsets p d at_p at_d =
      rw (at_p, at_d)
        (array_at-set_field "text_offset" "text_offset"
          (merged_offsets (base_offset n (array_at "tokens" plp) (take n p)) (take n p) d) dlp)

  other-merge_offsets :
      (other : String)
      → str_eq "text_offset" other ≡ false
      → array_at other (merge_offsets n plp dlp).0 ≡ array_at other dlp
  unfolding merge_offsets
  other-merge_offsets other ne = kept (array_at "text_offset" plp) (array_at "text_offset" dlp)
    where
      kept :
          (p d : Option (List Json))
          → array_at other (prefixed_offsets n (array_at "tokens" plp) p d dlp).0
            ≡ array_at other dlp
      kept none d = refl
      kept (some p) none = refl
      kept (some p) (some d) = array_at-set_field other "text_offset" _ dlp ∙ rw ne

-- Every entry is an i64.
abbrev pub AreOffsets : List Json → Type 0
AreOffsets offsets = All (λ v. (o : ℤ) × (as_i64 v ≡ some o)) offsets

-- The second list has the offsets of the first, moved by `base`; an i64 wraps.
abbrev pub AreShifted : ℤ → List Json → List Json → Type 0
AreShifted base [] [] = Unit
AreShifted base (v ∷ offsets) (w ∷ shifted) =
    ((o : ℤ) × (as_i64 v ≡ some o) × (w ≡ from_i64 (wrap_i64 (o +ℤ base))))
    × AreShifted base offsets shifted
AreShifted base _ _ = ⊥

adjusted-AreShifted :
    (base : ℤ) (offsets : List Json)
    → AreOffsets offsets
    → AreShifted base offsets (adjusted base offsets)
unfolding adjusted
adjusted-AreShifted base [] h = tt
adjusted-AreShifted base (v ∷ offsets) ((o, e), h) =
    rw e ((o, e, refl), adjusted-AreShifted base offsets h)

AreShifted-length :
    (base : ℤ) (offsets shifted : List Json)
    → AreShifted base offsets shifted
    → length shifted ≡ length offsets
AreShifted-length base [] [] h = refl
AreShifted-length base [] (w ∷ shifted) h = absurd h
AreShifted-length base (v ∷ offsets) [] h = absurd h
AreShifted-length base (v ∷ offsets) (w ∷ shifted) (_, h) =
    ap suc (AreShifted-length base offsets shifted h)

last-take :
    (k : ℕ) (entries : List Json) (v : Json)
    → get_elem? entries k ≡ some v
    → last (take (suc k) entries) ≡ some v
last-take k [] v e = absurd (ground arith)
last-take zero (x ∷ entries) v e = e
last-take (suc k) (x ∷ []) v e = absurd (ground arith)
last-take (suc k) (x ∷ y ∷ entries) v e = last-take k (y ∷ entries) v e

merged_offsets-take :
    (base : ℤ) (k : ℕ) (entries offsets : List Json) (v : Json)
    → get_elem? entries k ≡ some v
    → merged_offsets base (take (suc k) entries) offsets
      ≡ take (suc k) entries ++ adjusted base offsets
merged_offsets-take base k [] offsets v e = absurd (ground arith)
merged_offsets-take base k (x ∷ entries) offsets v e = refl

-- The decode starts where the last prompt token ends.
module _ (k : ℕ) (pt po : List Json) (token start_at : Json) (text : String) (start : ℤ)
    (token_there : get_elem? pt k ≡ some token) (is_text : as_str token ≡ some text)
    (start_there : get_elem? po k ≡ some start_at) (is_start : as_i64 start_at ≡ some start)
    (long : suc k ≤ length pt) where
  token_len_lem : token_len (suc k) pt ≡ some (text_len text)
  token_len_lem =
      let at : min (suc k) (length pt) - 1 ≡ k = omega arith in rw (at, token_there, is_text)

  base_offset_lem :
      base_offset (suc k) (some pt) (take (suc k) po)
      ≡ wrap_i64 (start +ℤ pos (length (bytes text)))
  base_offset_lem = rw (last-take k po start_at start_there, is_start, token_len_lem)

module _ (k : ℕ) (plp dlp : Fields) (pl pt po dl dt offs : List Json)
    (at_pl : array_at "token_logprobs" plp ≡ some pl) (at_pt : array_at "tokens" plp ≡ some pt)
    (at_po : array_at "text_offset" plp ≡ some po) (at_dl : array_at "token_logprobs" dlp ≡ some dl)
    (at_dt : array_at "tokens" dlp ≡ some dt) (at_do : array_at "text_offset" dlp ≡ some offs) where
  -- If both sides of a choice have token_logprobs, tokens and text_offset, the arrays of the prefill
  -- have n = k + 1 entries at least, those of the decode have m entries each, the offsets i64s, and
  -- the n-th prompt token is a text with an i64 as its offset, then the merged arrays are the first n
  -- entries of the prefill followed by those of the decode, and each has n + m entries; each offset of
  -- the decode is moved by the end of the n-th prompt token, its offset plus its bytes.
  pub merge_logprobs_parallel :
      (m : ℕ) (token start_at : Json) (text : String) (start : ℤ)
      → suc k ≤ length pl
      → suc k ≤ length pt
      → suc k ≤ length po
      → length dl ≡ m
      → length dt ≡ m
      → length offs ≡ m
      → AreOffsets offs
      → get_elem? pt k ≡ some token
      → as_str token ≡ some text
      → get_elem? po k ≡ some start_at
      → as_i64 start_at ≡ some start
      → let merged = (merge_logprobs (suc k) plp dlp).0 in
        (array_at "token_logprobs" merged ≡ some (take (suc k) pl ++ dl))
        × (array_at "tokens" merged ≡ some (take (suc k) pt ++ dt))
        × (shifted : List Json) × (array_at "text_offset" merged
            ≡ some (take (suc k) po ++ shifted))
        × AreShifted (wrap_i64 (start +ℤ pos (length (bytes text)))) offs shifted
        × (length (take (suc k) pl ++ dl) ≡ suc k + m)
        × (length (take (suc k) pt ++ dt) ≡ suc k + m)
        × (length (take (suc k) po ++ shifted) ≡ suc k + m)
  unfolding merge_logprobs
  merge_logprobs_parallel m token start_at text start long_l long_t long_o len_l len_t len_o are
        token_there is_text start_there is_start =
      let n = suc k in
      let a = (merge_array "token_logprobs" n plp dlp).0 in
      let b = (merge_array "tokens" n plp a).0 in
      let c = (merge_offsets n plp b).0 in
      let a_t = other-merge_array "token_logprobs" n plp dlp "tokens" refl in
      let a_o = other-merge_array "token_logprobs" n plp dlp "text_offset" refl in
      let b_o = other-merge_array "tokens" n plp a "text_offset" refl in
      let base = wrap_i64 (start +ℤ pos (length (bytes text))) in
      let is_base : base_offset n (array_at "tokens" plp) (take n po) ≡ base =
        ap (λ o. base_offset n o (take n po)) at_pt
        ∙ base_offset_lem k pt po token start_at text start token_there is_text start_there is_start
            long_t in
      let moved = adjusted-AreShifted base offs are in
      let same_length = AreShifted-length base offs (adjusted base offs) moved in
      (
        other-merge_array "top_logprobs" n plp c "token_logprobs" refl
            ∙ (other-merge_offsets n plp b "token_logprobs" refl
                ∙ (other-merge_array "tokens" n plp a "token_logprobs" refl
                    ∙ array_at-merge_array "token_logprobs" n plp dlp pl dl at_pl at_dl refl)),
        other-merge_array "top_logprobs" n plp c "tokens" refl
            ∙ (other-merge_offsets n plp b "tokens" refl
                ∙ array_at-merge_array "tokens" n plp a pt dt at_pt (a_t ∙ at_dt) refl),
        adjusted base offs,
        other-merge_array "top_logprobs" n plp c "text_offset" refl
            ∙ (array_at-merge_offsets n plp b po offs at_po (b_o ∙ (a_o ∙ at_do))
                ∙ ap some (
                    ap (λ x. merged_offsets x (take n po) offs) is_base
                    ∙ merged_offsets-take base k po offs start_at start_there)),
        moved,
        omega (arith, length-append (take n pl) dl, length-take n pl),
        omega (arith, length-append (take n pt) dt, length-take n pt),
        omega
            (arith, length-append (take n po) (adjusted base offs), length-take n po, same_length),
      )
