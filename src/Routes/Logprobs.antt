-- ===== src/Routes/Logprobs.antt =====
-- crates/router/src/routes/logprobs_merge.rs. `&mut` of a part of the response is the response with
-- that part written back; each step also says whether it merged anything. The sum of two i64 wraps,
-- as in a release build.
pub mod Unchanged
pub mod Parallel
use tokendog.Base.{
  ℕ, ◌-◌, ◌+◌, min, String, List, [], ◌∷◌, ◌++◌, Option, none, some, Bool, true, false, ◌||◌,
  length, get_elem?, take,
}
use tokendog.Base.Int.{ℤ, pos, ◌+ℤ◌, wrap_i64}
use tokendog.Base.Text.{bytes}
use tokendog.Middleware.Json.{
  Json, Values, Fields, array, object, get, as_str, as_array, as_i64, from_i64, values_of, field_at,
  set_field,
}

abbrev pub Merged : Type 0 → Type 0
Merged A = A × Bool

abbrev pub and_then {ℓ κ} : {A : Type ℓ} {B : Type κ} → Option A → (A → Option B) → Option B
and_then none k = none
and_then (some a) k = k a

abbrev pub array_at : String → Fields → Option (List Json)
array_at key fields = and_then (field_at key fields) as_array

-- The Generate API: `meta_info.input_token_logprobs`.
abbrev pub joined : Option (List Json) → Option (List Json) → Fields → Merged Fields
joined (some prefill_arr) (some decode_arr) decode_meta = (
  set_field "input_token_logprobs" (array (values_of (prefill_arr ++ decode_arr))) decode_meta,
  true,
)
joined _ _ decode_meta = (decode_meta, false)

abbrev pub in_meta : Option Json → Option Json → Fields → Merged Fields
in_meta (some prefill_meta) (some (object decode_meta)) decode =
    let (new, merged) =
      joined (and_then (get "input_token_logprobs" prefill_meta) as_array)
        (array_at "input_token_logprobs" decode_meta) decode_meta in
    (set_field "meta_info" (object new) decode, merged)
in_meta _ _ decode = (decode, false)

unfoldable pub merge_generate : Json → Fields → Merged Fields
merge_generate prefill decode =
    in_meta (get "meta_info" prefill) (field_at "meta_info" decode) decode

-- The Chat Completions API, and each choice: `prompt_logprobs` is copied.
abbrev pub copied : Option Json → Fields → Merged Fields
copied none decode = (decode, false)
copied (some ppl) decode = (set_field "prompt_logprobs" ppl decode, true)

-- An array of `logprobs`: the first `num_prompt` entries of the prefill, then those of the decode.
abbrev pub prefixed : String → ℕ → Option (List Json) → Option (List Json) → Fields → Merged Fields
prefixed key num_prompt (some p) (some d) dlp =
    (set_field key (array (values_of (take num_prompt p ++ d))) dlp, true)
prefixed key num_prompt _ _ dlp = (dlp, false)

unfoldable pub merge_array : String → ℕ → Fields → Fields → Merged Fields
merge_array key num_prompt plp dlp =
    prefixed key num_prompt (array_at key plp) (array_at key dlp) dlp

abbrev pub unwrap_or {ℓ} : {A : Type ℓ} → Option A → A → A
unwrap_or none a = a
unwrap_or (some b) a = b

abbrev pub last {ℓ} : {A : Type ℓ} → List A → Option A
last [] = none
last (x ∷ []) = some x
last (x ∷ y ∷ rest) = last (y ∷ rest)

abbrev pub text_len : String → ℤ
text_len s = pos (length (bytes s))

abbrev pub token_len : ℕ → List Json → Option ℤ
token_len num_prompt tokens =
    and_then (and_then (get_elem? tokens (min num_prompt (length tokens) - 1)) as_str)
      (λ s. some (text_len s))

-- Where the text of the decode starts: the end of the last prompt token.
abbrev pub base_offset : ℕ → Option (List Json) → List Json → ℤ
base_offset num_prompt tokens prompt_only = wrap_i64 (
    unwrap_or (and_then (last prompt_only) as_i64) (pos 0)
    +ℤ unwrap_or (and_then tokens (token_len num_prompt)) (pos 0))

-- `filter_map`: an entry that is no i64 is dropped.
abbrev consed : Option ℤ → ℤ → List Json → List Json
consed none base rest = rest
consed (some o) base rest = from_i64 (wrap_i64 (o +ℤ base)) ∷ rest

unfoldable pub adjusted : ℤ → List Json → List Json
adjusted base [] = []
adjusted base (v ∷ offsets) = consed (as_i64 v) base (adjusted base offsets)

abbrev pub merged_offsets : ℤ → List Json → List Json → List Json
merged_offsets base [] offsets = offsets
merged_offsets base (o ∷ prompt_only) offsets = o ∷ prompt_only ++ adjusted base offsets

abbrev pub prefixed_offsets :
    ℕ → Option (List Json) → Option (List Json) → Option (List Json) → Fields → Merged Fields
prefixed_offsets num_prompt tokens (some po) (some d) dlp =
    let prompt_only = take num_prompt po in
    let offsets = merged_offsets (base_offset num_prompt tokens prompt_only) prompt_only d in
    (set_field "text_offset" (array (values_of offsets)) dlp, true)
prefixed_offsets num_prompt tokens _ _ dlp = (dlp, false)

unfoldable pub merge_offsets : ℕ → Fields → Fields → Merged Fields
merge_offsets num_prompt plp dlp =
    prefixed_offsets num_prompt (array_at "tokens" plp) (array_at "text_offset" plp)
      (array_at "text_offset" dlp) dlp

-- `logprobs` of one choice.
unfoldable pub merge_logprobs : ℕ → Fields → Fields → Merged Fields
merge_logprobs num_prompt plp dlp =
    let (a, m1) = merge_array "token_logprobs" num_prompt plp dlp in
    let (b, m2) = merge_array "tokens" num_prompt plp a in
    let (c, m3) = merge_offsets num_prompt plp b in
    let (d, m4) = merge_array "top_logprobs" num_prompt plp c in (d, m1 || m2 || m3 || m4)

abbrev pub in_logprobs : ℕ → Option Json → Option Json → Fields → Merged Fields
in_logprobs num_prompt (some (object plp)) (some (object dlp)) decode =
    let (new, merged) = merge_logprobs num_prompt plp dlp in
    (set_field "logprobs" (object new) decode, merged)
in_logprobs num_prompt _ _ decode = (decode, false)

abbrev pub num_prompt_of : Fields → ℕ
num_prompt_of prefill =
    unwrap_or (and_then (array_at "prompt_logprobs" prefill) (λ a. some (length a))) 0

unfoldable pub merge_choice_fields : Fields → Fields → Merged Fields
merge_choice_fields prefill decode =
    let (a, m1) = copied (field_at "prompt_logprobs" prefill) decode in
    let (b, m2) =
      in_logprobs (num_prompt_of prefill) (field_at "logprobs" prefill) (field_at "logprobs" a) a in
    (b, m1 || m2)

abbrev pub merge_choice : Json → Json → Merged Json
merge_choice (object prefill) (object decode) =
    let (new, merged) = merge_choice_fields prefill decode in (object new, merged)
merge_choice _ decode = (decode, false)

-- `choices.iter_mut().zip(prefill_choices)`.
unfoldable pub merge_pairs : List Json → List Json → Merged (List Json)
merge_pairs [] decodes = (decodes, false)
merge_pairs (p ∷ prefills) [] = ([], false)
merge_pairs (p ∷ prefills) (d ∷ decodes) =
    let (new, m1) = merge_choice p d in
    let (rest, m2) = merge_pairs prefills decodes in (new ∷ rest, m1 || m2)

abbrev pub in_choices : Option (List Json) → Option (List Json) → Fields → Merged Fields
in_choices (some prefills) (some decodes) decode =
    let (new, merged) = merge_pairs prefills decodes in
    (set_field "choices" (array (values_of new)) decode, merged)
in_choices _ _ decode = (decode, false)

unfoldable pub merge_choices : Json → Fields → Merged Fields
merge_choices prefill decode =
    in_choices (and_then (get "choices" prefill) as_array) (array_at "choices" decode) decode

-- The three shapes, one after the other; `get_mut` finds nothing in a decode that is no object.
unfoldable pub merge_logprobs_in_json : Json → Json → Merged Json
merge_logprobs_in_json prefill (object decode) =
    let (a, m1) = merge_generate prefill decode in
    let (b, m2) = copied (get "prompt_logprobs" prefill) a in
    let (c, m3) = merge_choices prefill b in (object c, m1 || m2 || m3)
merge_logprobs_in_json prefill decode = (decode, false)
