-- ===== src/Tests/Driver.antt =====
-- The creation of an issue by the executor.
use delivery_system.Errors
use delivery_system.WriteOperations
use delivery_system.Base.{String-discrete, ℕ_eq, String_eq, true, refl, ◌≡◌, some, [], ◌∷◌, String}
use delivery_system.Value.{keys, get, as_dict, Value, text, integer, pos, dict, field, end}
use delivery_system.Applier.Commands.{
  split_slash, join_parts, normalize_repository_identity, creates, CreateIssueCommand,
  WriteObservation, definitive_success,
}
use delivery_system.Applier.Render.{is_text_value, has_control_character}
use delivery_system.Applier.Evidence.{
  is_positive_integer, all_digits, starts_with_zero, is_numeric_id, is_any_text, is_nonempty_text,
  is_created_status, is_issue_evidence, is_relationship_evidence, check_evidence, kind_text,
  trusted_success_result,
}
use delivery_system.Applier.References.{after_prefix}
use delivery_system.Driver.Response.{
  split_parameters, has_equals_sign, header, has_good_parameters, valid_json_media_type,
  json_object, status_payload, rejected, is_redirect, is_known_rejection, classify_non_success,
  ambiguous_with, success_with, normalize_response, HttpLibrary, WriteTransportResponse,
}
use delivery_system.Driver.Dispatch.{
  Sending, posted, after_check, without_post, raised_if, has_marker, is_credential_required,
  all_codes, is_lower_or_digit, is_hex, first_code, last_code, is_edge, is_name, is_owner_name,
  is_repository_name, is_request_id, parse_decimal, are_names, validate_repository, issues_path,
  is_token, credential, observed, github_number, github_node_id, created_result, result_of_values,
  result_of_answer, read_created, normalize_created, create_result, create_issue, dispatch,
  Connection, responded,
}
use delivery_system.Errors.{ok}
use delivery_system.Receipts.{RemoteResult}
use delivery_system.Driver.Evidence.{Sent, dispatch-Sent}
use delivery_system.Driver.Created.{PrintsDecimals}
use delivery_system.Driver.Trusted.{dispatch-trusted}
use delivery_system.Tests.Apply.{texts}
use delivery_system.Tests.Fixtures.{result_or}

abbrev library : HttpLibrary
library = record {
  loads = λ body. some (
      dict (
        field "id" (integer (pos 70))
          (field "number" (integer (pos 7)) (field "node_id" (text "node") end))));
  result_hex = λ fields. "0";
}

abbrev created_response : WriteTransportResponse
created_response = record {
  status = 201;
  headers = ("Content-Type", "application/json") ∷ [];
  body = "{}";
}

abbrev connection : Connection
connection = record {
  post = λ path request token. responded created_response;
  token = some "token";
}

abbrev command : CreateIssueCommand
command = record {
  repository_identity = "owner/name";
  client_ref = "a";
  title = "Title";
  body = "body";
  request_identity =
      "application-request-0123456789abcdef0123456789abcdef0123456789abcdef0123456789abcdef";
}

abbrev nothing : WriteObservation
nothing = ambiguous_with texts library Errors.github_write_rejected

abbrev sending : Sending
sending =
    dispatch texts library connection (λ request. true) WriteOperations.create_issue
      (creates command)

abbrev observation : WriteObservation
observation = result_or nothing (sending.result)

abbrev digest : Value → String
digest v = "digest"

prints : PrintsDecimals texts
unfolding String-discrete ℕ_eq String_eq keys get as_dict split_slash join_parts
    normalize_repository_identity is_text_value has_control_character is_positive_integer all_digits
    starts_with_zero is_numeric_id is_any_text is_nonempty_text is_created_status is_issue_evidence
    is_relationship_evidence check_evidence kind_text trusted_success_result after_prefix
    split_parameters has_equals_sign header has_good_parameters valid_json_media_type json_object
    status_payload rejected is_redirect is_known_rejection classify_non_success ambiguous_with
    success_with normalize_response raised_if has_marker is_credential_required all_codes
    is_lower_or_digit is_hex first_code last_code is_edge is_name is_owner_name is_repository_name
    is_request_id parse_decimal are_names validate_repository issues_path is_token credential
    observed github_number github_node_id posted after_check without_post created_result
    result_of_values result_of_answer read_created normalize_created create_result create_issue
    dispatch
prints = record { prints = λ n low high. refl; strip_empty = refl }

-- What the dispatch computes.
computed_dispatch :
    (validate_repository texts library connection "owner/name" ≡ ok "owner/name")
    × ((dispatch texts library connection
          (λ request. true)
          WriteOperations.create_issue
          (creates command)).result
        ≡ ok observation)
    × (observation.kind ≡ definitive_success)
unfolding String-discrete ℕ_eq String_eq keys get as_dict split_slash join_parts
    normalize_repository_identity is_text_value has_control_character is_positive_integer all_digits
    starts_with_zero is_numeric_id is_any_text is_nonempty_text is_created_status is_issue_evidence
    is_relationship_evidence check_evidence kind_text trusted_success_result after_prefix
    split_parameters has_equals_sign header has_good_parameters valid_json_media_type json_object
    status_payload rejected is_redirect is_known_rejection classify_non_success ambiguous_with
    success_with normalize_response raised_if has_marker is_credential_required all_codes
    is_lower_or_digit is_hex first_code last_code is_edge is_name is_owner_name is_repository_name
    is_request_id parse_decimal are_names validate_repository issues_path is_token credential
    observed github_number github_node_id posted after_check without_post created_result
    result_of_values result_of_answer read_created normalize_created create_result create_issue
    dispatch
computed_dispatch = ((refl), (refl), (refl))

validates : validate_repository texts library connection "owner/name" ≡ ok "owner/name"
validates = computed_dispatch.0

dispatches :
    (dispatch texts library connection
      (λ request. true)
      WriteOperations.create_issue
      (creates command)).result
    ≡ ok observation
dispatches = computed_dispatch.1

succeeds : observation.kind ≡ definitive_success
succeeds = computed_dispatch.2

dispatch-Sent_example :
    Sent texts library connection WriteOperations.create_issue (creates command) sending observation
dispatch-Sent_example =
    dispatch-Sent texts library connection (λ request. true) WriteOperations.create_issue
      (creates command) observation dispatches

dispatch-trusted_example :
    (remote : RemoteResult) × (trusted_success_result digest "owner/name"
        WriteOperations.create_issue observation
      ≡ ok remote)
dispatch-trusted_example =
    dispatch-trusted texts library connection prints digest (λ request. true)
      WriteOperations.create_issue (creates command) observation "owner/name" validates dispatches
      succeeds
