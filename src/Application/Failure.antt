-- ===== src/Application/Failure.antt =====
-- internal/application/failures.go: the failure that an error carries through wraps and joins.
use index_01_hook.Base.{
  ℕ, ◌≡◌, refl, ap, Bool, true, false, Option, none, some, List, [], ◌∷◌, ◌++◌, Bool-cases, inl,
  inr, ◌∙◌, if◌then◌else◌,
}
use index_01_hook.Base.Rows.{find_row}
use index_01_hook.Base.Text.{Text}

-- `FailureKind` is a string; `unclassified` stands for every one that is not a category.
pub data FailureKind : Type 0 where
  authentication configuration retryable malformed review_required : FailureKind
  ambiguous_write terminal unclassified : FailureKind

pub record Failure : Type 0 where
  pub kind : FailureKind
  pub operation : Text
  pub status_code : ℕ
  pub reason : Text

-- `FailureKind.Valid`.
abbrev pub is_valid : FailureKind → Bool
is_valid unclassified = false
is_valid _ = true

abbrev pub is_ambiguous_write : FailureKind → Bool
is_ambiguous_write ambiguous_write = true
is_ambiguous_write _ = false

-- An error: whether it is a FailureSource, by its type or through its `As` method, and what it
-- unwraps to. A nil error unwraps to nothing and is no source.
mutual
  pub data Cause : Type 0 where
    cause : Option Failure → Causes → Cause

  pub data Causes : Type 0 where
    no_cause : Causes
    also : Cause → Causes → Causes

abbrev pub or_else : Option Failure → Option Failure → Option Failure
or_else none o = o
or_else (some f) o = some f

abbrev ambiguous_only : Option Failure → Option Failure
ambiguous_only none = none
ambiguous_only (some f) = if is_ambiguous_write f.kind then some f else none

-- `errors.As(err, &source)`: the first source, an error before what it wraps.
unfoldable mutual
  pub first_source : Cause → Option Failure
  first_source (cause source children) = or_else source (first_sources children)

  pub first_sources : Causes → Option Failure
  first_sources no_cause = none
  first_sources (also e es) = or_else (first_source e) (first_sources es)

-- `ambiguousFailure`.
unfoldable mutual
  pub ambiguous_failure : Cause → Option Failure
  ambiguous_failure (cause source children) =
      or_else (ambiguous_only source) (ambiguous_failures children)

  pub ambiguous_failures : Causes → Option Failure
  ambiguous_failures no_cause = none
  ambiguous_failures (also e es) = or_else (ambiguous_failure e) (ambiguous_failures es)

abbrev pub prefer_ambiguous : Option Failure → Cause → Option Failure
prefer_ambiguous none e = none
prefer_ambiguous (some first) e =
    if is_ambiguous_write first.kind then some first else or_else (ambiguous_failure e) (some first)

-- `FailureOf`.
unfoldable pub failure_of : Cause → Option Failure
failure_of e = prefer_ambiguous (first_source e) e

abbrev own : Option Failure → List Failure
own none = []
own (some f) = f ∷ []

-- The sources of an error, in the order in which it is searched.
unfoldable mutual
  pub sources : Cause → List Failure
  sources (cause source children) = own source ++ sources_of children

  pub sources_of : Causes → List Failure
  sources_of no_cause = []
  sources_of (also e es) = sources e ++ sources_of es

abbrev pub first_of : List Failure → Option Failure
first_of [] = none
first_of (f ∷ fs) = some f

abbrev pub first_ambiguous : List Failure → Option Failure
first_ambiguous = find_row (λ (f : Failure). is_ambiguous_write f.kind)

first_of-append : (fs gs : List Failure) → first_of (fs ++ gs) ≡ or_else (first_of fs) (first_of gs)
first_of-append [] gs = refl
first_of-append (f ∷ fs) gs = refl

first_ambiguous-append :
    (fs gs : List Failure)
    → first_ambiguous (fs ++ gs) ≡ or_else (first_ambiguous fs) (first_ambiguous gs)
unfolding find_row
first_ambiguous-append [] gs = refl
first_ambiguous-append (f ∷ fs) gs = elim (Bool-cases (is_ambiguous_write f.kind)) [
  | inl e ↦ rw e
  | inr e ↦ rw e (first_ambiguous-append fs gs)
]

first_of-own : (o : Option Failure) → first_of (own o) ≡ o
first_of-own none = refl
first_of-own (some f) = refl

first_ambiguous-own : (o : Option Failure) → first_ambiguous (own o) ≡ ambiguous_only o
unfolding find_row
first_ambiguous-own none = refl
first_ambiguous-own (some f) = refl

mutual
  unfolding first_source sources first_sources sources_of

  first_source-sources : (e : Cause) → first_source e ≡ first_of (sources e)
  first_source-sources (cause o es) =
      rw (first_of-append (own o) (sources_of es), first_of-own o, first_sources-sources es)

  first_sources-sources : (es : Causes) → first_sources es ≡ first_of (sources_of es)
  first_sources-sources no_cause = refl
  first_sources-sources (also e es) = rw (
    first_of-append (sources e) (sources_of es),
    first_source-sources e,
    first_sources-sources es,
  )

mutual
  unfolding ambiguous_failure sources ambiguous_failures sources_of find_row

  ambiguous_failure-sources : (e : Cause) → ambiguous_failure e ≡ first_ambiguous (sources e)
  ambiguous_failure-sources (cause o es) = rw (
    first_ambiguous-append (own o) (sources_of es),
    first_ambiguous-own o,
    ambiguous_failures-sources es,
  )

  ambiguous_failures-sources :
      (es : Causes) → ambiguous_failures es ≡ first_ambiguous (sources_of es)
  ambiguous_failures-sources no_cause = refl
  ambiguous_failures-sources (also e es) = rw (
    first_ambiguous-append (sources e) (sources_of es),
    ambiguous_failure-sources e,
    ambiguous_failures-sources es,
  )

first_ambiguous-hit :
    (f : Failure) (fs : List Failure)
    → is_ambiguous_write f.kind ≡ true
    → first_ambiguous (f ∷ fs) ≡ some f
unfolding find_row
first_ambiguous-hit f fs q = rw q

preferred_first :
    (b : Bool) (f : Failure) (fs : List Failure) (e : Cause)
    → is_ambiguous_write f.kind ≡ b
    → ambiguous_failure e ≡ first_ambiguous (f ∷ fs)
    → prefer_ambiguous (some f) e ≡ or_else (first_ambiguous (f ∷ fs)) (some f)
preferred_first true f fs e q h = rw (q, first_ambiguous-hit f fs q)
preferred_first false f fs e q h =
    let left : prefer_ambiguous (some f) e ≡ or_else (ambiguous_failure e) (some f) = rw q in
    left ∙ ap (λ o. or_else o (some f)) h

preferred :
    (fs : List Failure) (e : Cause)
    → ambiguous_failure e ≡ first_ambiguous fs
    → prefer_ambiguous (first_of fs) e ≡ or_else (first_ambiguous fs) (first_of fs)
unfolding find_row
preferred [] e h = refl
preferred (f ∷ fs) e h = preferred_first (is_ambiguous_write f.kind) f fs e refl h

-- The failure of an error is the first ambiguous write among all its sources, at whatever depth
-- and in whatever branch, and the first source where no write is ambiguous.
pub failure_of-sources :
    (e : Cause) → failure_of e ≡ or_else (first_ambiguous (sources e)) (first_of (sources e))
unfolding failure_of
failure_of-sources e =
    rw (first_source-sources e) (preferred (sources e) e (ambiguous_failure-sources e))
