-- ===== src/Driver/Trusted.antt =====
-- drivers/github_write.py together with applier.py: `_trusted_success_result` accepts what the executor
-- reports as a definitive success.
use Prim.Native.String.{◌++◌, count}
use package.text.Mathlib.TextLemmas.{length-append}
use delivery_system.Base.{
  ◌≡◌, refl, sym, ap, ◌∙◌, ◌≢◌, ℕ_eq, String, String_eq, String-discrete, Bool, true, false, not,
  Option, none, some, ◌==◌, arith, ==_ne, eq_refl, if◌then◌else◌,
}
use delivery_system.Errors
use delivery_system.Errors.{Code, Result, ok, err, ok-injective}
use delivery_system.Value.{Value, Fields, text, get, as_dict}
use delivery_system.WriteOperations
use delivery_system.WriteOperations.{OperationKind}
use delivery_system.Receipts.{RemoteResult}
use delivery_system.Applier.Commands.{
  Command, creates, relates, CreateIssueCommand, TextLibrary, WriteObservation, definitive_success,
}
use delivery_system.Applier.Render.{is_text_value}
use delivery_system.Applier.Evidence.{
  trusted_success_result, check_evidence, kind_text, is_relationship_evidence, is_any_text,
  is_created_status,
}
use delivery_system.Driver.Response.{
  HttpLibrary, WriteTransportResponse, json_object, normalize_response, success_with,
  ambiguous_with, classify_non_success, rejected,
}
use delivery_system.Driver.Dispatch.{
  Connection, without_post, posted, Posted, responded, driver_failed, failed_otherwise, observed,
  relationship_result, read_created, normalize_created, dispatch_relationship, create_result,
  credential, issues_path, dispatch, create_issue, add_sub_issue, add_dependency,
  validate_repository, check_issue_number, check_decimal_id, raised_if, is_request_id, has_marker,
}
use delivery_system.Driver.Evidence.{after_check-then, repository_of}
use delivery_system.Driver.Created.{PrintsDecimals, answer-evidence}

identity-not-empty : (hex : String) → (("github-write-result-" ++ hex) == "") ≡ false
identity-not-empty hex =
    ==_ne ("github-write-result-" ++ hex) ""
      (λ h. omega (arith, length-append "github-write-result-" hex, ap count h))

module _ (texts : TextLibrary) (library : HttpLibrary) (connection : Connection) where
  relationship-evidence :
      (repository : String) (rest : Fields)
      → is_relationship_evidence repository
          (relationship_result texts library connection repository rest)
        ≡ true
  unfolding is_relationship_evidence relationship_result is_text_value is_any_text is_created_status
      get String_eq String-discrete ℕ_eq
  relationship-evidence repository rest = ground (arith, eq_refl repository)

  -- A success with a result that the evidence check accepts is trusted.
  success-trusted :
      (digest : Value → String) (repository : String) (kind : OperationKind) (result : Fields)
      → check_evidence kind repository result ≡ ok tt
      → (remote : RemoteResult) × (trusted_success_result digest repository kind
            (success_with texts library result)
          ≡ ok remote)
  unfolding trusted_success_result success_with as_dict
  success-trusted digest repository kind result accepted = (
    record {
      result_kind = "github." ++ kind_text kind ++ ".v1";
      result_identity = "github-write-result-" ++ library.result_hex result;
      result_digest = digest (Value.dict result);
      result_payload = Value.dict result;
    },
    rw (accepted, identity-not-empty (library.result_hex result)) refl,
  )

  observed-success :
      (normalize : WriteTransportResponse → WriteObservation) (posted : Posted)
      (observation : WriteObservation)
      → observed texts library connection normalize posted ≡ ok observation
      → observation.kind ≡ definitive_success
      → (response : WriteTransportResponse) × (normalize response ≡ observation)
  unfolding observed ambiguous_with
  observed-success normalize (responded response) observation h success =
      (response, ok-injective _ _ h)
  observed-success normalize (driver_failed failure) observation h success = ground arith
  observed-success normalize failed_otherwise observation h success = ground arith

  classify-not-success :
      (response : WriteTransportResponse)
      → (classify_non_success texts library response).kind ≢ definitive_success
  unfolding classify_non_success rejected
  classify-not-success response h = ground arith

  normalize_response-success :
      (response : WriteTransportResponse) (result : Fields)
      → (normalize_response texts library response result).kind ≡ definitive_success
      → normalize_response texts library response result ≡ success_with texts library result
  unfolding normalize_response ambiguous_with success_with
  normalize_response-success response result h = ground (arith, classify-not-success response)

  normalize_created-success :
      (repository : String) (response : WriteTransportResponse)
      → (normalize_created texts library connection repository response).kind ≡ definitive_success
      → (result : Fields) × (read_created texts library connection repository response
          ≡ some result)
        × (normalize_created texts library connection repository response
            ≡ success_with texts library result)
  unfolding normalize_created ambiguous_with success_with
  normalize_created-success repository response h =
      by_status (response.status == 201) (read_created texts library connection repository response)
        refl h
    where
      by_status :
          (created : Bool) (found : Option Fields)
          → read_created texts library connection repository response ≡ found
          → (if created
              then elim found [
                | none ↦ ambiguous_with texts library (Errors.other "github_write_response_invalid")
                | some result ↦ success_with texts library result
              ]
              else classify_non_success texts library response).kind
            ≡ definitive_success
          → (result : Fields) × (read_created texts library connection repository response
              ≡ some result)
            × ((if created
                  then elim found [
                    | none ↦
                        ambiguous_with texts library (Errors.other "github_write_response_invalid")
                    | some result ↦ success_with texts library result
                  ]
                  else classify_non_success texts library response)
                ≡ success_with texts library result)
      by_status true none same k = ground arith
      by_status true (some result) same k = (result, same, refl)
      by_status false found same k = absurd (classify-not-success response k)

  relationship-trusted :
      (digest : Value → String) (repository : String) (kind : OperationKind)
      → ((payload : Fields)
          → is_relationship_evidence repository payload ≡ true
          → check_evidence kind repository payload ≡ ok tt)
      → (path : String) (request : Value) (rest : Fields) (observation : WriteObservation)
      → (dispatch_relationship texts library connection path request
          (relationship_result texts library connection repository rest)).result
        ≡ ok observation
      → observation.kind ≡ definitive_success
      → (remote : RemoteResult) × (trusted_success_result digest repository kind observation
          ≡ ok remote)
  unfolding dispatch_relationship posted
  relationship-trusted digest repository kind accepts path request rest observation h success =
      let result = relationship_result texts library connection repository rest in
      let (token, under, _, h1) = after_check-then (credential texts library connection) _ h in
      let (response, same) =
        observed-success (λ r. normalize_response texts library r result)
          (connection.post path request token) observation h1 success in
      let built =
        normalize_response-success response result
          (ap (λ (o : WriteObservation). o.kind) same ∙ success) in
      let (remote, trusted) =
        success-trusted digest repository kind result
          (accepts result (relationship-evidence repository rest)) in
      (remote, ap (trusted_success_result digest repository kind) (sym same ∙ built) ∙ trusted)

  creation-trusted :
      PrintsDecimals texts
      → (digest : Value → String) (repository : String) (command : CreateIssueCommand)
        (request : Value) (observation : WriteObservation)
      → (create_result texts library connection repository command request).result ≡ ok observation
      → observation.kind ≡ definitive_success
      → (remote : RemoteResult) × (trusted_success_result digest repository
            WriteOperations.create_issue observation
          ≡ ok remote)
  unfolding create_result posted check_evidence read_created
  creation-trusted python digest repository command request observation h success =
      let (token, under, _, h1) = after_check-then (credential texts library connection) _ h in
      let (response, same) =
        observed-success (normalize_created texts library connection repository)
          (connection.post (issues_path texts library connection repository "") request token)
          observation h1 success in
      let (result, read, built) =
        normalize_created-success repository response
          (ap (λ (o : WriteObservation). o.kind) same ∙ success) in
      let evidence =
        answer-evidence texts library connection python repository
          (json_object texts library response) result read in
      let (remote, trusted) =
        success-trusted digest repository WriteOperations.create_issue result (rw evidence refl) in
      (
        remote,
        ap (trusted_success_result digest repository WriteOperations.create_issue)
              (sym same ∙ built)
            ∙ trusted,
      )

  -- Where Python prints numbers as decimals, a definitive success that the executor reports of a
  -- command on a repository is evidence that the Applier trusts for that repository.
  pub dispatch-trusted :
      (python : PrintsDecimals texts) (digest : Value → String) (is_sendable : Value → Bool)
      (kind : OperationKind) (command : Command) (observation : WriteObservation)
      (repository : String)
      → validate_repository texts library connection (repository_of command) ≡ ok repository
      → (dispatch texts library connection is_sendable kind command).result ≡ ok observation
      → observation.kind ≡ definitive_success
      → (remote : RemoteResult) × (trusted_success_result digest repository kind observation
          ≡ ok remote)
  unfolding dispatch without_post create_issue add_sub_issue add_dependency check_evidence
  dispatch-trusted python digest is_sendable WriteOperations.create_issue (creates command)
        observation repository valid h success =
      let (same_repository, at, _, h1) =
        after_check-then (validate_repository texts library connection command.repository_identity)
          _ h in
      let (u1, e1, _, h2) =
        after_check-then (raised_if (not (is_request_id command.request_identity))) _ h1 in
      let (u2, e2, _, h3) = after_check-then (raised_if (has_marker command.body)) _ h2 in
      let (u3, e3, _, h4) = after_check-then (raised_if (not (is_sendable _))) _ h3 in
      let same = ok-injective same_repository repository (sym at ∙ valid) in
      rw⁻¹ same (creation-trusted python digest same_repository command _ observation h4 success)
  dispatch-trusted python digest is_sendable WriteOperations.add_sub_issue (relates command)
        observation repository valid h success =
      let (same_repository, at, _, h1) =
        after_check-then (validate_repository texts library connection command.repository_identity)
          _ h in
      let (u1, e1, _, h2) =
        after_check-then (check_issue_number texts library connection command.second.issue_number) _
          h1 in
      let (u2, e2, _, h3) =
        after_check-then (check_decimal_id texts library connection command.first.numeric_issue_id)
          _ h2 in
      let same = ok-injective same_repository repository (sym at ∙ valid) in
      rw⁻¹ same (
        relationship-trusted digest same_repository WriteOperations.add_sub_issue
          (λ payload evidence. rw evidence refl) _ _ _ observation h3 success)
  dispatch-trusted python digest is_sendable WriteOperations.add_dependency (relates command)
        observation repository valid h success =
      let (same_repository, at, _, h1) =
        after_check-then (validate_repository texts library connection command.repository_identity)
          _ h in
      let (u1, e1, _, h2) =
        after_check-then (check_issue_number texts library connection command.first.issue_number) _
          h1 in
      let (u2, e2, _, h3) =
        after_check-then (check_decimal_id texts library connection command.second.numeric_issue_id)
          _ h2 in
      let same = ok-injective same_repository repository (sym at ∙ valid) in
      rw⁻¹ same (
        relationship-trusted digest same_repository WriteOperations.add_dependency
          (λ payload evidence. rw evidence refl) _ _ _ observation h3 success)
  dispatch-trusted python digest is_sendable WriteOperations.create_issue (relates command)
        observation repository valid h success =
      cc
  dispatch-trusted python digest is_sendable WriteOperations.add_sub_issue (creates command)
        observation repository valid h success =
      cc
  dispatch-trusted python digest is_sendable WriteOperations.add_dependency (creates command)
        observation repository valid h success =
      cc
  dispatch-trusted python digest is_sendable (WriteOperations.unsupported kind) (creates command)
        observation repository valid h success =
      cc
  dispatch-trusted python digest is_sendable (WriteOperations.unsupported kind) (relates command)
        observation repository valid h success =
      cc
