-- ===== src/Driver/Dispatch.antt =====
-- drivers/github_write.py: one POST for a command, under a credential.
use Prim.Native.Char.{code}
use Prim.Native.String.{◌++◌, count}
use package.text.Mathlib.Text.{find?}
use delivery_system.Base.{
  ℕ, ◌+◌, ◌*◌, ◌-◌, ℕ_eq, String, String_eq, List, [], ◌∷◌, Bool, true, false, not, ◌&&◌, ◌||◌,
  Option, none, some, ◌==◌, ◌!=◌, leb, ltb, if◌then◌else◌, any,
}
use delivery_system.Errors
use delivery_system.Errors.{
  Code, other, Result, ok, err, raised, value_error, integrity_error, ◌>>=◌, ◌>>◌, raise, raise_if,
  repository_identity_invalid, write_reference_invalid, write_operation_kind_invalid,
}
use delivery_system.Value.{Value, text, integer, pos, dict, field, end, Fields, get}
use delivery_system.WriteOperations
use delivery_system.Applier.Commands.{
  Command, creates, relates, TextLibrary, CreateIssueCommand, RelationshipCommand, WriteObservation,
  split_slash, normalize_repository_identity,
}
use delivery_system.Applier.Render.{has_control_character}
use delivery_system.Applier.Evidence.{write_executor_identity, all_digits, starts_with_zero}
use delivery_system.Applier.References.{after_prefix}
use delivery_system.Driver.Response.{
  HttpLibrary, WriteTransportResponse, json_object, ambiguous_with, success_with,
  classify_non_success, normalize_response,
}

-- What `transport.post` comes to: a response, a `DriverError` by its code, or any other exception.
pub data Posted : Type 0 where
  responded : WriteTransportResponse → Posted
  driver_failed : Code → Posted
  failed_otherwise : Posted

-- The transport, by path, request and token; and what `provider.get_token` gives, `none` where it raises
-- or gives no text.
pub record Connection : Type 0 where
  pub post : String → Value → String → Posted
  pub token : Option String

-- One call of `transport.post`.
pub record Post : Type 0 where
  pub path : String
  pub request : Value
  pub token : String

-- What a dispatch comes to: the calls of `transport.post` that it made, in their order, and its result.
pub record Sending : Type 0 where
  pub posts : List Post
  pub result : Result WriteObservation

unfoldable pub without_post : Result WriteObservation → Sending
without_post result = record { posts = []; result = result }

-- A check that raises ends a dispatch before anything is sent.
unfoldable pub after_check {ℓ} : {A : Type ℓ} → Result A → (A → Sending) → Sending
unfolding without_post
after_check (ok a) f = f a
after_check (err e) f = without_post (err e)

-- `raise DriverError(…)`: no `ValueError`
abbrev pub driver_error {ℓ} : {A : Type ℓ} → Result A
driver_error = err (raised "DriverError")

-- `if test: raise DriverError(…)`
unfoldable pub raised_if : Bool → Result (Unit {0})
raised_if true = driver_error
raised_if false = ok tt

-- `"<!-- delivery-system-request:" in body`
unfoldable pub has_marker : String → Bool
has_marker body = elim (find? body "<!-- delivery-system-request:") [ none ↦ false | some i ↦ true ]

unfoldable pub is_credential_required : Code → Bool
is_credential_required Errors.github_write_credential_required = true
is_credential_required _ = false

-- Every character of a text has a code that passes.
unfoldable pub all_codes : (ℕ → Bool) → String → Bool
all_codes p String.[] = true
all_codes p (String.◌∷◌ c s) = p (code c) && all_codes p s

unfoldable pub is_lower_or_digit : ℕ → Bool
is_lower_or_digit c = leb 97 c && leb c 122 || leb 48 c && leb c 57

unfoldable pub is_hex : ℕ → Bool
is_hex c = leb 97 c && leb c 102 || leb 48 c && leb c 57

unfoldable pub first_code : String → Option ℕ
first_code String.[] = none
first_code (String.◌∷◌ c s) = some (code c)

unfoldable pub last_code : String → Option ℕ
last_code String.[] = none
last_code (String.◌∷◌ c s) = elim (last_code s) [ none ↦ some (code c) | some d ↦ some d ]

unfoldable pub is_edge : Option ℕ → Bool
unfolding is_lower_or_digit
is_edge none = false
is_edge (some c) = is_lower_or_digit c

-- A name that starts and ends with a letter or a digit, in the size and with the inner characters given.
unfoldable pub is_name : ℕ → (ℕ → Bool) → String → Bool
unfolding is_edge first_code last_code all_codes
is_name size inner s =
    leb (count s) size && (is_edge (first_code s) && (is_edge (last_code s) && all_codes inner s))

-- `_OWNER` and `_REPOSITORY`
unfoldable pub is_owner_name : String → Bool
unfolding is_name is_lower_or_digit
is_owner_name s = is_name 39 (λ c. is_lower_or_digit c || c == 45) s

unfoldable pub is_repository_name : String → Bool
unfolding is_name is_lower_or_digit
is_repository_name s = is_name 100 (λ c. is_lower_or_digit c || (c == 46 || (c == 95 || c == 45))) s

-- `_REQUEST_ID`
unfoldable pub is_request_id : String → Bool
unfolding after_prefix all_codes is_hex
is_request_id s = elim (after_prefix "application-request-" s) [
  | none ↦ false
  | some hex ↦ count hex == 64 && all_codes is_hex hex
]

-- `int(value)`, of a decimal text, from the number read so far
unfoldable pub parse_decimal : String → ℕ → ℕ
parse_decimal String.[] n = n
parse_decimal (String.◌∷◌ c s) n = parse_decimal s (n * 10 + (code c - 48))

module _ (texts : TextLibrary) (library : HttpLibrary) (connection : Connection) where
  unfoldable pub are_names : List String → Bool
  unfolding is_owner_name is_repository_name
  are_names (owner ∷ name ∷ []) = is_owner_name owner && is_repository_name name
  are_names _ = false

  -- `_validate_repository`; white space and control characters are in no name.
  unfoldable pub validate_repository : String → Result String
  unfolding are_names
  validate_repository repository = do
    raise_if (any (λ part. texts.strip part != part) (split_slash repository))
        repository_identity_invalid
    normalized ← normalize_repository_identity texts repository
    raise_if (not (leb (count normalized) 140) || not (are_names (split_slash normalized)))
        repository_identity_invalid
    ok normalized

  -- `_path`: the characters of a validated name need no quoting.
  unfoldable pub issues_path : String → String → String
  issues_path repository suffix = "/repos/" ++ repository ++ "/issues" ++ suffix

  unfoldable pub is_token : String → Bool
  unfolding all_codes
  is_token token =
      leb 1 (count token)
      && (leb (count token) 4096
          && (token == texts.strip token && all_codes (λ c. leb 33 c && leb c 126) token))

  -- `_credential_headers`
  unfoldable pub credential : Result String
  unfolding is_token
  credential = elim connection.token [
    | none ↦ driver_error
    | some token ↦ if is_token token then ok token else driver_error
  ]

  -- `except DriverError` and `except Exception`: what was sent may have had its effect.
  unfoldable pub observed :
      (WriteTransportResponse → WriteObservation) → Posted → Result WriteObservation
  unfolding is_credential_required
  observed normalize (responded response) = ok (normalize response)
  observed normalize (driver_failed failure) =
      if is_credential_required failure
      then driver_error
      else ok (ambiguous_with texts library failure)
  observed normalize failed_otherwise =
      ok (ambiguous_with texts library Errors.github_write_transport_ambiguous)

  -- The POST, and what its answer is taken for.
  unfoldable pub posted : (WriteTransportResponse → WriteObservation) → Post → Sending
  unfolding observed
  posted normalize p = record {
    posts = p ∷ [];
    result = observed normalize (connection.post p.path p.request p.token);
  }

  -- `_dispatch_relationship`
  unfoldable pub dispatch_relationship : String → Value → Fields → Sending
  unfolding credential posted after_check
  dispatch_relationship path request result = after_check credential (λ token.
      posted (λ response. normalize_response texts library response result)
        (record { path = path; request = request; token = token }))

  -- `_safe_decimal_id`
  unfoldable pub check_decimal_id : String → Result (Unit {0})
  check_decimal_id value =
      raise_if
        (not (
          leb 1 (count value)
          && (leb (count value) 20 && (not (starts_with_zero value) && all_digits value))))
        write_reference_invalid

  -- `_safe_issue_number`
  unfoldable pub check_issue_number : ℕ → Result (Unit {0})
  check_issue_number value =
      raise_if (value == 0 || ltb 20 (count (texts.str (integer (pos value)))))
        write_reference_invalid

  -- The result of a relationship: its two ends under their names, and what the evidence asks for.
  unfoldable pub relationship_result : String → Fields → Fields
  relationship_result repository ends = field "repository_identity" (text repository) (
      field "executor_identity" (text write_executor_identity) (
        field "contract_version" (text "github-rest-write-v1")
          (field "response_status" (integer (pos 201)) ends)))

  -- `_sub_issue_dispatch`
  unfoldable pub add_sub_issue : RelationshipCommand → Sending
  unfolding check_decimal_id check_issue_number relationship_result issues_path parse_decimal
  add_sub_issue command =
      after_check (validate_repository command.repository_identity) (λ repository.
        after_check (check_issue_number command.second.issue_number) (λ numbered.
          after_check (check_decimal_id command.first.numeric_issue_id) (λ identified.
            let number = texts.str (integer (pos command.second.issue_number)) in
            let id : Value = integer (pos (parse_decimal command.first.numeric_issue_id 0)) in
            dispatch_relationship (issues_path repository ("/" ++ number ++ "/sub_issues"))
              (dict (field "sub_issue_id" id end))
              (relationship_result repository (
                field "parent_issue_number" (integer (pos command.second.issue_number)) (
                  field "child_numeric_issue_id" (text (texts.str id))
                    (field "direction" (text "child_to_parent") end)))))))

  -- `_dependency_dispatch`
  unfoldable pub add_dependency : RelationshipCommand → Sending
  unfolding check_decimal_id check_issue_number relationship_result issues_path parse_decimal
  add_dependency command =
      after_check (validate_repository command.repository_identity) (λ repository.
        after_check (check_issue_number command.first.issue_number) (λ numbered.
          after_check (check_decimal_id command.second.numeric_issue_id) (λ identified.
            let number = texts.str (integer (pos command.first.issue_number)) in
            let id : Value = integer (pos (parse_decimal command.second.numeric_issue_id 0)) in
            dispatch_relationship
              (issues_path repository ("/" ++ number ++ "/dependencies/blocked_by"))
              (dict (field "issue_id" id end))
              (relationship_result repository (
                field "dependent_issue_number" (integer (pos command.first.issue_number)) (
                  field "prerequisite_numeric_issue_id" (text (texts.str id))
                    (field "direction" (text "dependent_to_prerequisite") end)))))))

  -- `type(value) is int and 1 <= value <= 10**20 - 1`
  unfoldable pub github_number : Option Value → Option ℕ
  github_number (some (integer (pos n))) =
      if leb 1 n && leb n 99999999999999999999 then some n else none
  github_number _ = none

  unfoldable pub github_node_id : Option Value → Option String
  github_node_id (some (text s)) =
      if leb 1 (count (texts.strip s))
        && (leb (count (texts.strip s)) 512 && not (has_control_character s))
      then some s
      else none
  github_node_id _ = none

  -- The result of a creation.
  unfoldable pub created_result : String → ℕ → ℕ → String → Fields
  created_result repository id number node = field "repository_identity" (text repository) (
      field "issue_number" (integer (pos number)) (
        field "numeric_issue_id" (text (texts.str (integer (pos id)))) (
          field "node_id" (text node) (
            field "executor_identity" (text write_executor_identity) (
              field "contract_version" (text "github-rest-write-v1")
                (field "response_status" (integer (pos 201)) end))))))

  -- The result of the three values of an answer, if each is one.
  unfoldable pub result_of_values : String → Option ℕ → Option ℕ → Option String → Option Fields
  unfolding created_result
  result_of_values repository (some id) (some number) (some node) =
      some (created_result repository id number node)
  result_of_values repository _ _ _ = none

  unfoldable pub result_of_answer : String → Option Fields → Option Fields
  unfolding result_of_values github_number github_node_id
  result_of_answer repository none = none
  result_of_answer repository (some value) =
      result_of_values repository (github_number (get value "id"))
        (github_number (get value "number")) (github_node_id (get value "node_id"))

  -- The result that a created issue's answer holds, if it holds one.
  unfoldable pub read_created : String → WriteTransportResponse → Option Fields
  unfolding result_of_answer
  read_created repository response =
      result_of_answer repository (json_object texts library response)

  -- The answer to a creation, after the POST of `_create_result`.
  unfoldable pub normalize_created : String → WriteTransportResponse → WriteObservation
  unfolding read_created
  normalize_created repository response =
      if response.status == 201
      then elim (read_created repository response) [
        | none ↦ ambiguous_with texts library (other "github_write_response_invalid")
        | some result ↦ success_with texts library result
      ]
      else classify_non_success texts library response

  -- `_create_result`, with `_request_body`, which refuses what is too large, before the credential
  unfoldable pub create_result : String → CreateIssueCommand → Value → Sending
  unfolding credential posted normalize_created issues_path after_check
  create_result repository command request = after_check credential (λ token.
      posted (normalize_created repository)
        (record { path = issues_path repository ""; request = request; token = token }))

  -- `_create_issue_dispatch`; `is_sendable` is whether `_request_body` encodes a request in its bounds.
  unfoldable pub create_issue : (Value → Bool) → CreateIssueCommand → Sending
  unfolding create_result is_request_id raised_if has_marker after_check
  create_issue is_sendable command =
      after_check (validate_repository command.repository_identity) (λ repository.
        after_check (raised_if (not (is_request_id command.request_identity))) (λ requested.
          after_check (raised_if (has_marker command.body)) (λ unmarked.
            let request : Value = dict (
              field "body"
                (text (
                  command.body ++ "\n\n<!-- delivery-system-request:" ++ command.request_identity
                  ++ " -->"))
                (field "title" (text command.title) end)) in
            after_check (raised_if (not (is_sendable request)))
              (λ encoded. create_result repository command request))))

  -- `dispatch` of runtime.py: the executor's method for a kind; a command of another class is refused.
  unfoldable pub dispatch : (Value → Bool) → WriteOperations.OperationKind → Command → Sending
  unfolding create_issue add_sub_issue add_dependency without_post
  dispatch is_sendable WriteOperations.create_issue (creates command) =
      create_issue is_sendable command
  dispatch is_sendable WriteOperations.add_sub_issue (relates command) = add_sub_issue command
  dispatch is_sendable WriteOperations.add_dependency (relates command) = add_dependency command
  dispatch is_sendable (WriteOperations.unsupported kind) command =
      without_post (raise write_operation_kind_invalid)
  dispatch is_sendable _ _ = without_post driver_error
