-- ===== src/Applier/Promises.antt =====
-- What the abstract account of `_apply` of applier.py promises of every run.
use mathlib.Core.Path.{subst}
use delivery_system.Base.{
  ◌≡◌, sym, ap, ◌∙◌, ◌≢◌, ℕ, ◌+◌, ◌≤◌, ◌<◌, zero, suc, List, [], ◌∷◌, ◌++◌, Option, none, some,
  get_elem?, length, arith,
}
use delivery_system.Errors.{
  Code, Error, Result, ok, err, application_recovery_required, ok-injective,
}
use delivery_system.Execution.{Status, applying, applied}
use delivery_system.Receipts.{Digests}
use delivery_system.Context.{ExecutionContext}
use delivery_system.Store.{Caller, Clock}
use delivery_system.Applier.Commands.{TextLibrary, WriteObservation, definitive_success}
use delivery_system.Applier.Settlement.{
  Settled, unknown_outcome, rejected_blocked, rejected_failed, SettledAs,
}
use delivery_system.Applier.References.{SealedContent}
use delivery_system.Applier.Round.{ApplyResult, Round, Dispatch}
use delivery_system.Applier.Trace.{
  Reported, raises, recovers, refuses, settles, Succeeded, Trace, unfinished, finalizes, stops,
  ends, goes_on,
}

get_elem?-lt {ℓ} :
    {A : Type ℓ} (xs : List A) (i : ℕ) {a : A} → get_elem? xs i ≡ some a → i < length xs
get_elem?-lt [] i h = cc
get_elem?-lt (x ∷ xs) zero h = omega arith
get_elem?-lt (x ∷ xs) (suc i) h = omega (arith, get_elem?-lt xs i h)

ok-not-err {ℓ} : {A : Type ℓ} {a : A} {e : Error} → ok a ≢ err e
ok-not-err h = cc

cons-injective {ℓ} : {A : Type ℓ} (x y : A) (xs ys : List A) → x ∷ xs ≡ y ∷ ys → (x ≡ y) × (xs ≡ ys)
cons-injective x y xs ys h = (cc h, cc h)

nil-not-append {ℓ} : {A : Type ℓ} (xs : List A) (y : A) (ys : List A) → [] ≢ xs ++ y ∷ ys
nil-not-append [] y ys h = cc
nil-not-append (x ∷ xs) y ys h = cc

Settled-not-applied :
    (observation : WriteObservation) (code : Code) (status : Status)
    → Settled observation code status
    → status ≢ applied
Settled-not-applied observation code status (unknown_outcome kind) h = cc
Settled-not-applied observation code status (rejected_blocked kind blocking) h = cc
Settled-not-applied observation code status (rejected_failed kind passing) h = cc

-- What a loop reports whose last dispatch was observed without success: an error, or a result that is
-- settled as the observation says, or one that leaves the operation claimed and to be recovered.
pub data EndsWithout (observation : WriteObservation) : Option (Result ApplyResult) → Type 0 where
  raised_error : (e : Error) → EndsWithout observation (some (err e))
  settled_so : (r : ApplyResult) → SettledAs observation r → EndsWithout observation (some (ok r))
  still_held :
      (r : ApplyResult)
      → r.state ≡ applying
      → r.recovery_code ≡ some application_recovery_required
      → EndsWithout observation (some (ok r))

module _ (digests : Digests) (clock : Clock) (texts : TextLibrary) (caller : Caller)
    (context : ExecutionContext) (content : SealedContent) where
  pub data AllSucceeded : List Dispatch → Type 0 where
    no_dispatch : AllSucceeded []
    one_more :
        {d : Dispatch} {ds : List Dispatch}
        → Succeeded digests clock texts caller context content d
        → AllSucceeded ds
        → AllSucceeded (d ∷ ds)

module _ (digests : Digests) (clock : Clock) (texts : TextLibrary) (caller : Caller)
    (context : ExecutionContext) (content : SealedContent) (rounds : ℕ → Round) where
  -- A run that is cut off had too few rounds.
  pub Trace-enough :
      (k fuel index : ℕ) (ds : List Dispatch) (result : Option (Result ApplyResult))
      → Trace digests clock texts caller context content rounds k (suc fuel) index ds result
      → length context.expected_operations ≤ index + fuel
      → result ≢ none
  Trace-enough k fuel index ds result (finalizes r none_left) enough h = cc
  Trace-enough k fuel index ds result (stops r left) enough h = cc
  Trace-enough k fuel index ds result (ends d r is_next reported) enough h = cc
  Trace-enough k zero index ds result (goes_on d rest r is_next success trace) enough h =
      omega (arith, get_elem?-lt context.expected_operations index is_next.operation, enough)
  Trace-enough k (suc fuel) index ds result (goes_on d rest r is_next success trace) enough h =
      Trace-enough (k + 1) fuel (index + 1) rest r trace (omega (arith, enough)) h

  -- No more is dispatched than is left.
  pub Trace-bound :
      (k fuel index : ℕ) (ds : List Dispatch) (result : Option (Result ApplyResult))
      → Trace digests clock texts caller context content rounds k fuel index ds result
      → index ≤ length context.expected_operations
      → index + length ds ≤ length context.expected_operations
  Trace-bound k fuel index ds result unfinished start = omega (arith, start)
  Trace-bound k fuel index ds result (finalizes r none_left) start = omega (arith, start)
  Trace-bound k fuel index ds result (stops r left) start = omega (arith, start)
  Trace-bound k fuel index ds result (ends d r is_next reported) start =
      omega (arith, get_elem?-lt context.expected_operations index is_next.operation)
  Trace-bound k (suc fuel) index ds result (goes_on d rest r is_next success trace) start =
      let here = get_elem?-lt context.expected_operations index is_next.operation in
      omega (arith, Trace-bound (k + 1) fuel (index + 1) rest r trace (omega (arith, here)))

  Reported-not-applied : (d : Dispatch) (r : ApplyResult) → Reported d (ok r) → r.state ≢ applied
  Reported-not-applied d r (recovers x is_applying code) h = ground arith
  Reported-not-applied d r (refuses x code answer blocks is_blocked c) h = ground arith
  Reported-not-applied d r (settles x observation answer settled) h =
      Settled-not-applied observation settled.code r.state settled.state h

  pub Trace-applied :
      (k fuel index : ℕ) (ds : List Dispatch) (r : ApplyResult)
      → Trace digests clock texts caller context content rounds k fuel index ds (some (ok r))
      → r.state ≡ applied
      → AllSucceeded digests clock texts caller context content ds
  Trace-applied k fuel index ds r (finalizes x none_left) h = no_dispatch
  Trace-applied k fuel index ds r (stops x left) h = no_dispatch
  Trace-applied k fuel index ds r (ends d x is_next reported) h =
      absurd (Reported-not-applied d r reported h)
  Trace-applied k (suc fuel) index ds r (goes_on d rest x is_next success trace) h =
      one_more success (Trace-applied (k + 1) fuel (index + 1) rest r trace h)

  Reported-EndsWithout :
      (d : Dispatch) (observation : WriteObservation) (result : Result ApplyResult)
      → d.answer ≡ ok observation
      → Reported d result
      → EndsWithout observation (some result)
  Reported-EndsWithout d observation result answer (raises e) = raised_error e
  Reported-EndsWithout d observation result answer (recovers r is_applying code) =
      still_held r is_applying code
  Reported-EndsWithout d observation result answer (refuses r code refused blocks is_blocked c) =
      absurd (ok-not-err (sym answer ∙ refused))
  Reported-EndsWithout d observation result answer (settles r observed answered settled) =
      let same : observed ≡ observation = ok-injective _ _ (sym answered ∙ answer) in
      settled_so r (subst (λ o. SettledAs o r) same settled)

  pub Trace-unsuccessful :
      (k fuel index : ℕ) (ds earlier later : List Dispatch) (d : Dispatch)
      (observation : WriteObservation) (result : Option (Result ApplyResult))
      → Trace digests clock texts caller context content rounds k fuel index ds result
      → ds ≡ earlier ++ d ∷ later
      → d.answer ≡ ok observation
      → observation.kind ≢ definitive_success
      → (later ≡ []) × EndsWithout observation result
  Trace-unsuccessful k fuel index ds earlier later d observation result unfinished split answer
        kind =
      absurd (nil-not-append earlier d later split)
  Trace-unsuccessful k fuel index ds earlier later d observation result (finalizes x none_left)
        split answer kind =
      absurd (nil-not-append earlier d later split)
  Trace-unsuccessful k fuel index ds earlier later d observation result (stops x left) split answer
        kind =
      absurd (nil-not-append earlier d later split)
  Trace-unsuccessful k fuel index ds [] later d observation result (ends e x is_next reported) split
        answer kind =
      let (same, rest) = cons-injective e d [] later split in
      (
        sym rest,
        Reported-EndsWithout e observation x (ap (λ (c : Dispatch). c.answer) same ∙ answer)
            reported,
      )
  Trace-unsuccessful k fuel index ds (f ∷ earlier) later d observation result
        (ends e x is_next reported) split answer kind =
      absurd (nil-not-append earlier d later (cons-injective e f [] _ split).1)
  Trace-unsuccessful k (suc fuel) index ds [] later d observation result
        (goes_on e rest x is_next success trace) split answer kind =
      let (same, tail) = cons-injective e d rest later split in
      let observed : success.observation ≡ observation =
        ok-injective _ _
          (sym success.answered_so ∙ (ap (λ (c : Dispatch). c.answer) same ∙ answer)) in
      absurd (kind (ap (λ (o : WriteObservation). o.kind) (sym observed) ∙ success.definitive))
  Trace-unsuccessful k (suc fuel) index ds (f ∷ earlier) later d observation result
        (goes_on e rest x is_next success trace) split answer kind =
      Trace-unsuccessful (k + 1) fuel (index + 1) rest earlier later d observation result trace
        (cons-injective e f rest _ split).1 answer kind
