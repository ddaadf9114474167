-- ===== src/Driver/Response.antt =====
-- drivers/github_write.py: the answer to a write, and the observation that it is taken for.
use Prim.Native.Char.{code}
use Prim.Native.String.{◌++◌}
use delivery_system.Base.{
  ℕ, ℕ_eq, String, String_eq, List, [], ◌∷◌, Bool, true, false, ◌&&◌, ◌||◌, Option, none, some,
  ◌==◌, ◌!=◌, contains, if◌then◌else◌,
}
use delivery_system.Errors
use delivery_system.Errors.{Code, other}
use delivery_system.Value.{Value, integer, pos, dict, field, end, Fields, as_dict}
use delivery_system.Applier.Commands.{
  TextLibrary, WriteObservation, definitive_success, definitive_rejected, ambiguous,
}

-- What the driver uses of Python's library besides `TextLibrary`: reading the bytes of a body as JSON,
-- and the digest of a result.
pub record HttpLibrary : Type 0 where
  pub loads : String → Option Value
  pub result_hex : Fields → String

pub record WriteTransportResponse : Type 0 where
  pub status : ℕ
  pub headers : List (String × String)
  pub body : String

-- The part of a text before its first `;`, and the part after it, if there is one.
unfoldable pub split_parameters : String → String × Option String
split_parameters String.[] = ("", none)
split_parameters (String.◌∷◌ c s) =
    let (before, after) = split_parameters s in
    if code c == 59 then ("", some s) else (String.◌∷◌ c before, after)

unfoldable pub has_equals_sign : String → Bool
has_equals_sign String.[] = false
has_equals_sign (String.◌∷◌ c s) = code c == 61 || has_equals_sign s

module _ (texts : TextLibrary) (library : HttpLibrary) where
  -- `_header`
  unfoldable pub header : List (String × String) → String → Option String
  header [] name = none
  header ((k, v) ∷ headers) name =
      if texts.lower k == texts.lower name then some v else header headers name

  unfoldable pub has_good_parameters : Option String → Bool
  unfolding has_equals_sign
  has_good_parameters none = true
  has_good_parameters (some parameters) =
      texts.strip parameters != "" && has_equals_sign (texts.strip parameters)

  -- `_valid_json_media_type`
  unfoldable pub valid_json_media_type : List (String × String) → Bool
  unfolding header split_parameters has_good_parameters
  valid_json_media_type headers = elim (header headers "Content-Type") [
    | none ↦ false
    | some value ↦
        let (media_type, parameters) = split_parameters value in
        has_good_parameters parameters
        && contains ("application/json" ∷ "application/vnd.github+json" ∷ [])
            (texts.lower (texts.strip media_type))
  ]

  -- `_json_object`
  unfoldable pub json_object : WriteTransportResponse → Option Fields
  unfolding valid_json_media_type
  json_object response =
      if valid_json_media_type response.headers then as_dict (library.loads response.body) else none

  unfoldable pub status_payload : WriteTransportResponse → Option Value
  status_payload response = some (dict (field "status" (integer (pos response.status)) end))

  unfoldable pub rejected : WriteTransportResponse → Code → WriteObservation
  unfolding status_payload
  rejected response code = record {
    kind = definitive_rejected;
    result_identity = "";
    result_payload = status_payload response;
    code = some code;
  }

  unfoldable pub is_redirect : ℕ → Bool
  is_redirect status = contains (301 ∷ 302 ∷ 303 ∷ 307 ∷ 308 ∷ []) status

  unfoldable pub is_known_rejection : ℕ → Bool
  is_known_rejection status = contains (400 ∷ 401 ∷ 403 ∷ 404 ∷ 409 ∷ 410 ∷ 422 ∷ 429 ∷ []) status

  -- `_classify_non_success`
  unfoldable pub classify_non_success : WriteTransportResponse → WriteObservation
  unfolding rejected is_redirect is_known_rejection status_payload
  classify_non_success response =
      if is_redirect response.status
      then rejected response Errors.github_write_redirect_rejected
      else if response.status == 429
      then rejected response Errors.github_write_rate_limited
      else if is_known_rejection response.status
      then rejected response Errors.github_write_rejected
      else record {
        kind = ambiguous;
        result_identity = "";
        result_payload = status_payload response;
        code = some (other "github_write_ambiguous");
      }

  -- An ambiguous observation with a code alone.
  unfoldable pub ambiguous_with : Code → WriteObservation
  ambiguous_with code = record {
    kind = ambiguous;
    result_identity = "";
    result_payload = none;
    code = some code;
  }

  unfoldable pub success_with : Fields → WriteObservation
  success_with result = record {
    kind = definitive_success;
    result_identity = "github-write-result-" ++ library.result_hex result;
    result_payload = some (dict result);
    code = none;
  }

  -- `_normalize_response`, for a relationship
  unfoldable pub normalize_response : WriteTransportResponse → Fields → WriteObservation
  unfolding json_object ambiguous_with success_with classify_non_success
  normalize_response response result =
      if response.status == 201
      then elim (json_object response) [
        | none ↦ ambiguous_with (other "github_write_response_invalid")
        | some value ↦ success_with result
      ]
      else classify_non_success response
