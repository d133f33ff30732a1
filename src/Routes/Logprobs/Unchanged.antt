-- ===== src/Routes/Logprobs/Unchanged.antt =====
-- merge_logprobs_in_json says truly whether it changed the response.
use tokendog.Base.{
  ◌≡◌, refl, ◌∙◌, sym, ap, String, List, [], ◌∷◌, Option, none, some, Bool, true, false, ◌||◌, ℕ,
  arith,
}
use tokendog.Middleware.Json.{
  Json, Fields, null, boolean, number, string, array, object, get, as_array, elements, values_of,
  field_at, set_field, set_field_self, values_of-elements,
}
use tokendog.Routes.Logprobs.{
  Merged, and_then, array_at, joined, in_meta, merge_generate, copied, prefixed, merge_array,
  prefixed_offsets, merge_offsets, merge_logprobs, in_logprobs, num_prompt_of, merge_choice_fields,
  merge_choice, merge_pairs, in_choices, merge_choices, merge_logprobs_in_json,
}

-- A step that merged nothing left its input as it was.
abbrev pub IsHonest : {A : Type 0} → A → Merged A → Type 0
IsHonest decode (new, merged) = merged ≡ false → new ≡ decode

joined-IsHonest : (p d : Option (List Json)) (decode : Fields) → IsHonest decode (joined p d decode)
joined-IsHonest none d decode h = refl
joined-IsHonest (some p) none decode h = refl
joined-IsHonest (some p) (some d) decode h = cc

in_meta-IsHonest :
    (p d : Option Json) (decode : Fields)
    → field_at "meta_info" decode ≡ d
    → IsHonest decode (in_meta p d decode)
in_meta-IsHonest none d decode at h = refl
in_meta-IsHonest (some p) (some (object meta)) decode at h =
    ap (λ m. set_field "meta_info" (object m) decode)
      (joined-IsHonest (and_then (get "input_token_logprobs" p) as_array)
        (array_at "input_token_logprobs" meta) meta h)
    ∙ set_field_self "meta_info" (object meta) decode at
in_meta-IsHonest (some p) _ decode at h = refl

copied-IsHonest : (p : Option Json) (decode : Fields) → IsHonest decode (copied p decode)
copied-IsHonest none decode h = refl
copied-IsHonest (some p) decode h = cc

prefixed-IsHonest :
    (key : String) (n : ℕ) (p d : Option (List Json)) (dlp : Fields)
    → IsHonest dlp (prefixed key n p d dlp)
prefixed-IsHonest key n none d dlp h = refl
prefixed-IsHonest key n (some p) none dlp h = refl
prefixed-IsHonest key n (some p) (some d) dlp h = cc

prefixed_offsets-IsHonest :
    (n : ℕ) (t p d : Option (List Json)) (dlp : Fields)
    → IsHonest dlp (prefixed_offsets n t p d dlp)
prefixed_offsets-IsHonest n t none d dlp h = refl
prefixed_offsets-IsHonest n t (some p) none dlp h = refl
prefixed_offsets-IsHonest n t (some p) (some d) dlp h = cc

or_false : (a b : Bool) → (a || b) ≡ false → (a ≡ false) × (b ≡ false)
or_false false b h = (refl, h)
or_false true b h = cc

merge_logprobs-IsHonest : (n : ℕ) (plp dlp : Fields) → IsHonest dlp (merge_logprobs n plp dlp)
unfolding merge_logprobs merge_array merge_offsets
merge_logprobs-IsHonest n plp dlp h =
    let a = merge_array "token_logprobs" n plp dlp in
    let b = merge_array "tokens" n plp a.0 in
    let c = merge_offsets n plp b.0 in
    let d = merge_array "top_logprobs" n plp c.0 in
    let (h123, h4) = or_false (a.1 || b.1 || c.1) d.1 h in
    let (h12, h3) = or_false (a.1 || b.1) c.1 h123 in
    let (h1, h2) = or_false a.1 b.1 h12 in
    prefixed-IsHonest "top_logprobs" n _ _ c.0 h4
    ∙ (prefixed_offsets-IsHonest n _ _ _ b.0 h3
        ∙ (prefixed-IsHonest "tokens" n _ _ a.0 h2
            ∙ prefixed-IsHonest "token_logprobs" n _ _ dlp h1))

in_logprobs-IsHonest :
    (n : ℕ) (p d : Option Json) (decode : Fields)
    → field_at "logprobs" decode ≡ d
    → IsHonest decode (in_logprobs n p d decode)
in_logprobs-IsHonest n (some (object plp)) (some (object dlp)) decode at h =
    ap (λ m. set_field "logprobs" (object m) decode) (merge_logprobs-IsHonest n plp dlp h)
    ∙ set_field_self "logprobs" (object dlp) decode at
in_logprobs-IsHonest n _ _ decode at h = refl

merge_choice-IsHonest : (p d : Json) → IsHonest d (merge_choice p d)
unfolding merge_choice_fields
merge_choice-IsHonest (object prefill) (object decode) h =
    let a = copied (field_at "prompt_logprobs" prefill) decode in
    let b =
      in_logprobs (num_prompt_of prefill) (field_at "logprobs" prefill) (field_at "logprobs" a.0)
        a.0 in
    let (h1, h2) = or_false a.1 b.1 h in
    ap object (
      in_logprobs-IsHonest (num_prompt_of prefill) (field_at "logprobs" prefill)
        (field_at "logprobs" a.0) a.0 refl h2
      ∙ copied-IsHonest (field_at "prompt_logprobs" prefill) decode h1)
merge_choice-IsHonest _ d h = refl

merge_pairs-IsHonest :
    (prefills decodes : List Json) → IsHonest decodes (merge_pairs prefills decodes)
unfolding merge_pairs
merge_pairs-IsHonest [] decodes h = refl
merge_pairs-IsHonest (p ∷ prefills) [] h = refl
merge_pairs-IsHonest (p ∷ prefills) (d ∷ decodes) h =
    let a = merge_choice p d in
    let b = merge_pairs prefills decodes in
    let (h1, h2) = or_false a.1 b.1 h in
    ap (λ x. x ∷ b.0) (merge_choice-IsHonest p d h1)
    ∙ ap (λ l. d ∷ l) (merge_pairs-IsHonest prefills decodes h2)

-- An array that is there is written back as it was.
array_at-set_field :
    (key : String) (decode : Fields) (vs : List Json)
    → array_at key decode ≡ some vs
    → set_field key (array (values_of vs)) decode ≡ decode
array_at-set_field key decode vs e = found (field_at key decode) refl e
  where
    found :
        (o : Option Json)
        → field_at key decode ≡ o
        → and_then o as_array ≡ some vs
        → set_field key (array (values_of vs)) decode ≡ decode
    found none at e = cc
    found (some (array items)) at e =
        let same : elements items ≡ vs = ground arith in
        let back : values_of vs ≡ items = ap values_of (sym same) ∙ values_of-elements items in
        set_field_self key (array (values_of vs)) decode (at ∙ ap (λ i. some (array i)) (sym back))
    found (some null) at e = cc
    found (some (boolean b)) at e = cc
    found (some (number n)) at e = cc
    found (some (string s)) at e = cc
    found (some (object inside)) at e = cc

in_choices-IsHonest :
    (p d : Option (List Json)) (decode : Fields)
    → array_at "choices" decode ≡ d
    → IsHonest decode (in_choices p d decode)
in_choices-IsHonest (some prefills) (some decodes) decode at h =
    ap (λ l. set_field "choices" (array (values_of l)) decode)
      (merge_pairs-IsHonest prefills decodes h)
    ∙ array_at-set_field "choices" decode decodes at
in_choices-IsHonest _ _ decode at h = refl

-- If merge_logprobs_in_json returns false, it leaves the decode response as it was.
pub merge_logprobs_in_json_unchanged :
    (prefill decode : Json)
    → (merge_logprobs_in_json prefill decode).1 ≡ false
    → (merge_logprobs_in_json prefill decode).0 ≡ decode
unfolding merge_logprobs_in_json merge_generate merge_choices
merge_logprobs_in_json_unchanged prefill (object decode) h =
    let a = merge_generate prefill decode in
    let b = copied (get "prompt_logprobs" prefill) a.0 in
    let c = merge_choices prefill b.0 in
    let (h12, h3) = or_false (a.1 || b.1) c.1 h in
    let (h1, h2) = or_false a.1 b.1 h12 in
    ap object (
      in_choices-IsHonest (and_then (get "choices" prefill) as_array) (array_at "choices" b.0) b.0
        refl h3
      ∙ (copied-IsHonest (get "prompt_logprobs" prefill) a.0 h2
          ∙ in_meta-IsHonest (get "meta_info" prefill) (field_at "meta_info" decode) decode refl
              h1))
merge_logprobs_in_json_unchanged prefill _ h = refl
