-- ===== src/Driver/Honest.antt =====
-- drivers/github_write.py: what an observation says was answered.
use delivery_system.Base.{
  ◌≡◌, refl, sym, ap, ℕ, ℕ_eq, List, [], ◌∷◌, contains, String, String_eq, true, Option, none, some,
  ◌==◌, arith, Bool-cases, ==_iff, ◌⊎◌, inl, inr,
}
use delivery_system.Errors
use delivery_system.Errors.{Code, Result, ok, err, >>=-eq-ok, ok-injective}
use delivery_system.Value.{Fields}
use delivery_system.Applier.Commands.{
  TextLibrary, WriteObservation, definitive_success, definitive_rejected, ambiguous,
}
use delivery_system.Driver.Response.{
  HttpLibrary, WriteTransportResponse, json_object, ambiguous_with, success_with, rejected,
  classify_non_success, normalize_response, is_redirect, is_known_rejection,
}
use delivery_system.Driver.Dispatch.{
  Connection, Posted, responded, driver_failed, failed_otherwise, observed, read_created,
  normalize_created,
}

-- The statuses that say that nothing was written.
abbrev rejecting_statuses : List ℕ
rejecting_statuses =
    301 ∷ 302 ∷ 303 ∷ 307 ∷ 308 ∷ 400 ∷ 401 ∷ 403 ∷ 404 ∷ 409 ∷ 410 ∷ 422 ∷ 429 ∷ []

module _ (texts : TextLibrary) (library : HttpLibrary) where
  -- An observation that goes no further than the answer: it is ambiguous, or the server
  -- answered, with 201 and a JSON object for a success, with a status that rejects for a rejection.
  pub data Supports (posted : Posted) (observation : WriteObservation) : Type 0 where
    unsure : observation.kind ≡ ambiguous → Supports posted observation
    done :
        (response : WriteTransportResponse) (value : Fields)
        → posted ≡ responded response
        → response.status ≡ 201
        → json_object texts library response ≡ some value
        → observation.kind ≡ definitive_success
        → Supports posted observation
    refused :
        (response : WriteTransportResponse)
        → posted ≡ responded response
        → contains rejecting_statuses response.status ≡ true
        → observation.kind ≡ definitive_rejected
        → Supports posted observation

  classify_non_success-cases :
      (response : WriteTransportResponse)
      → ((classify_non_success texts library response).kind ≡ ambiguous)
        ⊎ ((contains rejecting_statuses response.status ≡ true)
            × ((classify_non_success texts library response).kind ≡ definitive_rejected))
  unfolding classify_non_success is_redirect is_known_rejection rejected
  classify_non_success-cases response = ground arith

  classify-Supports :
      (response : WriteTransportResponse)
      → Supports (responded response) (classify_non_success texts library response)
  classify-Supports response = elim (classify_non_success-cases response) [
    | inl is_ambiguous ↦ unsure is_ambiguous
    | inr (rejects, is_rejected) ↦ refused response refl rejects is_rejected
  ]

  pub normalize_response-Supports :
      (result : Fields) (response : WriteTransportResponse)
      → Supports (responded response) (normalize_response texts library response result)
  unfolding normalize_response ambiguous_with success_with
  normalize_response-Supports result response = elim (Bool-cases (response.status == 201)) [
    | inl created ↦ rw created (
        by_object (json_object texts library response) refl
          ((==_iff response.status 201).0 created))
    | inr other_status ↦ rw other_status (classify-Supports response)
  ]
    where
      by_object :
          (object : Option Fields)
          → json_object texts library response ≡ object
          → response.status ≡ 201
          → Supports (responded response) (elim object [
            | none ↦ ambiguous_with texts library (Errors.other "github_write_response_invalid")
            | some value ↦ success_with texts library result
          ])
      by_object none same created = unsure refl
      by_object (some value) same created = done response value refl created same refl

  module _ (connection : Connection) where
    read_created-object :
        (repository : String) (response : WriteTransportResponse) (result : Fields)
        → read_created texts library connection repository response ≡ some result
        → (value : Fields) × (json_object texts library response ≡ some value)
    unfolding read_created
    read_created-object repository response result h =
        by_object (json_object texts library response) refl
      where
        by_object :
            (object : Option Fields)
            → json_object texts library response ≡ object
            → (value : Fields) × (json_object texts library response ≡ some value)
        by_object none same = ground arith
        by_object (some value) same = (value, same)

    pub normalize_created-Supports :
        (repository : String) (response : WriteTransportResponse)
        → Supports
            (responded response)
            (normalize_created texts library connection repository response)
    unfolding normalize_created ambiguous_with success_with
    normalize_created-Supports repository response = elim (Bool-cases (response.status == 201)) [
      | inl created ↦ rw created (
          by_result (read_created texts library connection repository response) refl
            ((==_iff response.status 201).0 created))
      | inr other_status ↦ rw other_status (classify-Supports response)
    ]
      where
        by_result :
            (result : Option Fields)
            → read_created texts library connection repository response ≡ result
            → response.status ≡ 201
            → Supports (responded response) (elim result [
              | none ↦ ambiguous_with texts library (Errors.other "github_write_response_invalid")
              | some fields ↦ success_with texts library fields
            ])
        by_result none same created = unsure refl
        by_result (some fields) same created =
            let (value, is_object) = read_created-object repository response fields same in
            done response value refl created is_object refl

    pub observed-Supports :
        (normalize : WriteTransportResponse → WriteObservation) (posted : Posted)
        (observation : WriteObservation)
        → ((response : WriteTransportResponse) → Supports (responded response) (normalize response))
        → observed texts library connection normalize posted ≡ ok observation
        → Supports posted observation
    unfolding observed ambiguous_with
    observed-Supports normalize (responded response) observation supports h =
        rw⁻¹ (ok-injective _ _ h) (supports response)
    observed-Supports normalize (driver_failed failure) observation supports h =
        unsure (failed_kind failure observation h)
      where
        failed_kind :
            (failure : Code) (observation : WriteObservation)
            → observed texts library connection normalize (driver_failed failure) ≡ ok observation
            → observation.kind ≡ ambiguous
        failed_kind failure observation h = ground arith
    observed-Supports normalize failed_otherwise observation supports h =
        unsure (ap (λ (o : WriteObservation). o.kind) (sym (ok-injective _ _ h)))
