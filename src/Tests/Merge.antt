-- ===== src/Tests/Merge.antt =====
-- Merged log probabilities.
use tokendog.Base.{◌+◌, ◌≡◌, refl, List, [], ◌∷◌, some, false, arith, length}
use tokendog.Base.Int.{pos}
use tokendog.Middleware.Json.{
  Json, Fields, array, object, string, number, pos_int, values_of, no_fields, field,
}
use tokendog.Routes.Logprobs.{
  array_at, merge_logprobs, merge_logprobs_in_json, merge_generate, merge_choices, merge_pairs,
  merge_choice_fields,
}
use tokendog.Routes.Logprobs.Unchanged.{merge_logprobs_in_json_unchanged}
use tokendog.Routes.Logprobs.Parallel.{AreShifted, merge_logprobs_parallel}

abbrev two_offsets : Json
two_offsets = array (values_of (number (pos_int 0) ∷ number (pos_int 3) ∷ []))

abbrev fields_with : Json → Json → Json → Fields
fields_with logprobs tokens offsets =
    field "token_logprobs" logprobs (field "tokens" tokens (field "text_offset" offsets no_fields))

abbrev of_prefill : Fields
of_prefill =
    fields_with (array (values_of (number (pos_int 1) ∷ number (pos_int 2) ∷ [])))
      (array (values_of (string "the" ∷ string "end" ∷ []))) two_offsets

abbrev of_decode : Fields
of_decode =
    fields_with (array (values_of (number (pos_int 5) ∷ []))) (array (values_of (string "!" ∷ [])))
      (array (values_of (number (pos_int 0) ∷ [])))

merge_logprobs_parallel_example :
    let merged = (merge_logprobs 2 of_prefill of_decode).0 in
    (array_at "token_logprobs" merged
      ≡ some (number (pos_int 1) ∷ number (pos_int 2) ∷ number (pos_int 5) ∷ []))
    × (array_at "tokens" merged ≡ some (string "the" ∷ string "end" ∷ string "!" ∷ []))
    × (shifted : List Json) × (array_at "text_offset" merged
        ≡ some (number (pos_int 0) ∷ number (pos_int 3) ∷ shifted))
    × AreShifted (pos 6) (number (pos_int 0) ∷ []) shifted
    × (3 ≡ 2 + 1)
    × (3 ≡ 2 + 1)
    × (length (number (pos_int 0) ∷ number (pos_int 3) ∷ shifted) ≡ 2 + 1)
merge_logprobs_parallel_example =
    merge_logprobs_parallel 1 of_prefill of_decode (number (pos_int 1) ∷ number (pos_int 2) ∷ [])
      (string "the" ∷ string "end" ∷ []) (number (pos_int 0) ∷ number (pos_int 3) ∷ [])
      (number (pos_int 5) ∷ []) (string "!" ∷ []) (number (pos_int 0) ∷ []) refl refl refl refl refl
      refl 1 (string "end") (number (pos_int 3)) "end" (pos 3) (omega arith) (omega arith)
      (omega arith) refl refl refl ((pos 0, refl), tt) refl refl refl refl

-- The decode response has no text, and the prefill response nothing to add.
abbrev answer_only : Json
answer_only = object (field "choices" (array (values_of (object no_fields ∷ []))) no_fields)

nothing_merged : (merge_logprobs_in_json answer_only answer_only).1 ≡ false
unfolding merge_logprobs_in_json merge_generate merge_choices merge_pairs merge_choice_fields
nothing_merged = refl

merge_logprobs_in_json_unchanged_example :
    (merge_logprobs_in_json answer_only answer_only).0 ≡ answer_only
merge_logprobs_in_json_unchanged_example =
    merge_logprobs_in_json_unchanged answer_only answer_only nothing_merged
