-- ===== src/Routes/Prefill.antt =====
-- crates/router/src/routes/prefill.rs: the request that runs the prefill phase alone.
use Prim.Native.Char.{code}
use tokendog.Base.{
  ◌≡◌, refl, ◌∙◌, String, Option, none, some, Bool, true, false, ◌||◌, Outcome, ret, panic, ◌>>=◌,
  ltb, ◌==◌, ◌≤◌, if◌then◌else◌, Bool-cases, inl, inr, subst, sym, arith,
}
use tokendog.Middleware.Json.{
  Json, Fields, null, boolean, number, pos_int, neg_int, float, array, object, field, no_fields,
  get, field_at, set_field, remove_field, index_set, field_at-set_field, field_at-remove_field,
}

-- `str::contains`.
abbrev starts_with : String → String → Bool
starts_with String.[] s = true
starts_with (String.◌∷◌ c p) String.[] = false
starts_with (String.◌∷◌ c p) (String.◌∷◌ d s) = if code c == code d then starts_with p s else false

abbrev pub contains : String → String → Bool
contains p String.[] = starts_with p String.[]
contains p (String.◌∷◌ c s) = starts_with p (String.◌∷◌ c s) || contains p s

abbrev pub one : Json
one = number (pos_int 1)

-- `v.get("min_tokens").and_then(|v| v.as_u64()).unwrap_or(0) > 1`.
abbrev above_one : Option Json → Bool
above_one (some (number (pos_int n))) = ltb 1 n
above_one _ = false

abbrev is_some : Option Json → Bool
is_some none = false
is_some (some v) = true

abbrev clamp_min : Json → Outcome Json
clamp_min v = if above_one (get "min_tokens" v) then index_set "min_tokens" one v else ret v

-- `inference/v1/generate`: the limits stand in sampling_params.
abbrev generate : Option Json → Json → Outcome Json
generate none request =
    index_set "sampling_params" (object (field "max_tokens" one (field "min_tokens" one no_fields)))
      request
generate (some params) request = do
  limited ← index_set "max_tokens" one params
  clamped ← clamp_min limited
  index_set "sampling_params" clamped request

-- The OpenAI chat and completions requests.
abbrev chat : Json → Outcome Json
chat request = do
  limited ← index_set "max_tokens" one request
  completed ←
      if is_some (get "max_completion_tokens" limited)
      then index_set "max_completion_tokens" one limited
      else ret limited
  clamp_min completed

abbrev pub generates : String → Bool
generates path = contains "inference/v1/generate" path

abbrev pub responds : String → Bool
responds path = contains "/v1/responses" path

unfoldable pub limit : Json → String → Outcome Json
limit request path =
    if generates path
    then generate (get "sampling_params" request) request
    else if responds path
    then index_set "max_output_tokens" one request
    else chat request

abbrev without : String → Json → Json
without key (object fields) = object (remove_field key fields)
without key v = v

unfoldable pub prepare_prefill_request : Json → String → Outcome Json
unfolding limit
prepare_prefill_request request path = do
  limited ← limit request path
  unstreamed ← index_set "stream" (boolean false) limited
  ret (without "stream_options" unstreamed)

-- `build_decode_kv_transfer_params`.
unfoldable pub build_decode_kv_transfer_params : Json → Option Json
build_decode_kv_transfer_params prefill_response = get "kv_transfer_params" prefill_response

unfoldable pub build_prefill_kv_transfer_params : Json
build_prefill_kv_transfer_params = object (
    field "do_remote_decode" (boolean true) (
      field "do_remote_prefill" (boolean false) (
        field "remote_engine_id" null (
          field "remote_block_ids" null
            (field "remote_host" null (field "remote_port" null no_fields))))))

-- A number, where it is there and of no sign, is one at most.
abbrev pub IsAtMostOne : Option Json → Type 0
IsAtMostOne (some (number (pos_int n))) = n ≤ 1
IsAtMostOne _ = Unit

-- A limit that is there becomes one.
abbrev pub as_one : Option Json → Option Json
as_one none = none
as_one (some v) = some one

not_above : (v : Option Json) → above_one v ≡ false → IsAtMostOne v
not_above none low = tt
not_above (some null) low = tt
not_above (some (boolean b)) low = tt
not_above (some (number (pos_int n))) low = ground arith
not_above (some (number (neg_int n))) low = tt
not_above (some (number (float n))) low = tt
not_above (some (Json.string s)) low = tt
not_above (some (array items)) low = tt
not_above (some (object _)) low = tt

-- The three limits of a chat request, before and after.
abbrev AreLimited : Option Json → Fields → Type 0
AreLimited completion fs =
    (field_at "max_tokens" fs ≡ some one)
    × (field_at "max_completion_tokens" fs ≡ completion)
    × IsAtMostOne (field_at "min_tokens" fs)

clamped :
    (completion : Option Json) (fields : Fields)
    → field_at "max_tokens" fields ≡ some one
    → field_at "max_completion_tokens" fields ≡ completion
    → (fs : Fields) × (clamp_min (object fields) ≡ ret (object fs)) × AreLimited completion fs
clamped completion fields at done = elim (Bool-cases (above_one (field_at "min_tokens" fields))) [
  | inl above ↦ (
    set_field "min_tokens" one fields,
    rw above,
    (
      field_at-set_field "max_tokens" "min_tokens" one fields ∙ at,
      field_at-set_field "max_completion_tokens" "min_tokens" one fields ∙ done,
      subst IsAtMostOne (sym (field_at-set_field "min_tokens" "min_tokens" one fields))
          (omega arith),
    ),
  )
  | inr low ↦ (fields, rw low, (at, done, not_above (field_at "min_tokens" fields) low))
]

abbrev limited : Fields → Fields
limited fields = set_field "max_tokens" one fields

chat_limited :
    (fields : Fields)
    → (fs : Fields) × (chat (object fields) ≡ ret (object fs))
      × AreLimited (as_one (field_at "max_completion_tokens" fields)) fs
chat_limited fields = split (field_at "max_completion_tokens" fields) refl
  where
    split :
        (v : Option Json)
        → field_at "max_completion_tokens" fields ≡ v
        → (fs : Fields) × (chat (object fields) ≡ ret (object fs)) × AreLimited (as_one v) fs
    split none absent =
        let kept : field_at "max_completion_tokens" (limited fields) ≡ none =
          field_at-set_field "max_completion_tokens" "max_tokens" one fields ∙ absent in
        let (fs, run, rest) =
          clamped none (limited fields) (field_at-set_field "max_tokens" "max_tokens" one fields)
            kept in
        (fs, rw kept run, rest)
    split (some v) there =
        let kept : field_at "max_completion_tokens" (limited fields) ≡ some v =
          field_at-set_field "max_completion_tokens" "max_tokens" one fields ∙ there in
        let (fs, run, rest) =
          clamped (some one) (set_field "max_completion_tokens" one (limited fields))
            (field_at-set_field "max_tokens" "max_completion_tokens" one (limited fields)
              ∙ field_at-set_field "max_tokens" "max_tokens" one fields)
            (field_at-set_field "max_completion_tokens" "max_completion_tokens" one
              (limited fields)) in
        (fs, rw kept run, rest)

-- An OpenAI chat or completions request that is a JSON object is prepared without a panic: max_tokens
-- is one, max_completion_tokens is one exactly where it was there, min_tokens is no integer above
-- one, it does not stream, and it has no stream options.
pub prepare_prefill_request_chat :
    (fields : Fields) (path : String)
    → generates path ≡ false
    → responds path ≡ false
    → (r : Json) × (prepare_prefill_request (object fields) path ≡ ret r)
      × (get "max_tokens" r ≡ some one)
      × (get "max_completion_tokens" r ≡ as_one (field_at "max_completion_tokens" fields))
      × IsAtMostOne (get "min_tokens" r)
      × (get "stream" r ≡ some (boolean false))
      × (get "stream_options" r ≡ none)
unfolding prepare_prefill_request limit
prepare_prefill_request_chat fields path g p =
    let (fs, run, (at, completion, low)) = chat_limited fields in
    let streamed = set_field "stream" (boolean false) fs in
    let gone = λ (key : String). field_at-remove_field key "stream_options" streamed in
    let put = λ (key : String). field_at-set_field key "stream" (boolean false) fs in
    (
      object (remove_field "stream_options" streamed),
      rw (g, p) (rw run),
      gone "max_tokens" ∙ (put "max_tokens" ∙ at),
      gone "max_completion_tokens" ∙ (put "max_completion_tokens" ∙ completion),
      subst IsAtMostOne (sym (gone "min_tokens" ∙ put "min_tokens")) low,
      gone "stream" ∙ put "stream",
      gone "stream_options",
    )

-- A body that is JSON text but neither an object nor null makes the preparation of an OpenAI request
-- panic.
pub prepare_prefill_request_panics :
    (request : Json) (path : String)
    → generates path ≡ false
    → responds path ≡ false
    → ((fields : Fields) → request ≡ object fields → ⊥)
    → (request ≡ null → ⊥)
    → prepare_prefill_request request path ≡ panic
unfolding prepare_prefill_request limit
prepare_prefill_request_panics null path g p no_object no_null = absurd (no_null refl)
prepare_prefill_request_panics (object fields) path g p no_object no_null =
    absurd (no_object fields refl)
prepare_prefill_request_panics (boolean b) path g p no_object no_null = rw (g, p)
prepare_prefill_request_panics (number n) path g p no_object no_null = rw (g, p)
prepare_prefill_request_panics (Json.string s) path g p no_object no_null = rw (g, p)
prepare_prefill_request_panics (array items) path g p no_object no_null = rw (g, p)
