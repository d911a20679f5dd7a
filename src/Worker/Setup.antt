-- ===== src/Worker/Setup.antt =====
-- NewWorker of worker.go, and normalizeTimeZone of config.go.
use index_01_hook.Base.{
  ℕ, ◌≤◌, ◌<◌, ◌≡◌, refl, subst, Bool, true, false, not, ◌&&◌, ◌||◌, Option, none, some, List, ltb,
  if◌then◌else◌, arith,
}
use index_01_hook.Base.Int.{ℤ, pos, negsuc, pos_part, ltb_ℤ}
use index_01_hook.Base.Text.{Text, codes, text_eq, is_blank, trim_space, trim_space_idem}
use index_01_hook.Application.Policy.{normalize_aliases}
use index_01_hook.Worker.{WorkerConfig}

-- The arguments of NewWorker; a field `has_…` says that the argument is not nil.
pub record WorkerOptions : Type 0 where
  pub has_store : Bool
  pub has_extractor : Bool
  pub has_deliverer : Bool
  pub has_verifier : Bool
  pub has_shadow_verifier : Bool
  pub has_logger : Bool
  pub owner : Text
  pub time_zone : Text
  pub lease_duration : ℤ
  pub poll_interval : ℤ
  pub retry_base : ℤ
  pub retry_maximum : ℤ
  pub extraction_max_attempts : ℤ
  pub delivery_max_attempts : ℤ
  pub reconcile_max_attempts : ℤ
  pub project_aliases : List Text
  pub jitter : Option (ℕ → ℤ)

-- The errors of NewWorker, one for each message.
pub data SetupError : Type 0 where
  providers_required both_verifiers owner_required time_zone_invalid : SetupError
  durations_invalid attempts_invalid jitter_required logger_required aliases_invalid : SetupError

pub data Setup : Type 0 where
  worker : WorkerConfig → Setup
  rejected : SetupError → Setup

abbrev pub default_time_zone : Text
default_time_zone = codes "UTC"

abbrev pub positive : ℤ → Bool
positive (pos n) = ltb 0 n
positive (negsuc n) = false

-- `time.LoadLocation` is the parameter `known_zone`.
unfoldable pub normalize_time_zone : (Text → Bool) → Text → Option Text
unfolding text_eq trim_space
normalize_time_zone known_zone value =
    let zone = trim_space value in
    if is_blank zone || text_eq zone (codes "Local")
    then none
    else if known_zone zone
    then some zone
    else none

abbrev pub durations_valid : WorkerOptions → Bool
durations_valid o =
    positive o.lease_duration
    && positive o.poll_interval
    && positive o.retry_base
    && not (ltb_ℤ o.retry_maximum o.retry_base)

abbrev pub attempts_valid : WorkerOptions → Bool
attempts_valid o =
    positive o.extraction_max_attempts
    && positive o.delivery_max_attempts
    && positive o.reconcile_max_attempts

abbrev config_of : WorkerOptions → Text → Text → (ℕ → ℤ) → List Text → WorkerConfig
config_of o owner zone jitter aliases = record {
  owner = owner;
  time_zone = zone;
  lease_duration = pos_part o.lease_duration;
  poll_interval = pos_part o.poll_interval;
  retry_base = pos_part o.retry_base;
  retry_maximum = pos_part o.retry_maximum;
  extraction_max_attempts = pos_part o.extraction_max_attempts;
  delivery_max_attempts = pos_part o.delivery_max_attempts;
  reconcile_max_attempts = pos_part o.reconcile_max_attempts;
  project_aliases = aliases;
  jitter = jitter;
}

abbrev with_aliases : WorkerOptions → Text → Text → (ℕ → ℤ) → Option (List Text) → Setup
with_aliases o owner zone jitter none = rejected aliases_invalid
with_aliases o owner zone jitter (some aliases) = worker (config_of o owner zone jitter aliases)

module _ (fold : ℕ → ℕ) (known_zone : Text → Bool) where
  abbrev with_jitter : WorkerOptions → Text → Text → Option (ℕ → ℤ) → Setup
  with_jitter o owner zone none = rejected jitter_required
  with_jitter o owner zone (some jitter) =
      if not o.has_logger
      then rejected logger_required
      else with_aliases o owner zone jitter (normalize_aliases fold o.project_aliases)

  abbrev with_zone : WorkerOptions → Text → Option Text → Setup
  with_zone o owner none = rejected time_zone_invalid
  with_zone o owner (some zone) =
      if not (durations_valid o)
      then rejected durations_invalid
      else if not (attempts_valid o)
      then rejected attempts_invalid
      else with_jitter o owner zone o.jitter

  abbrev zone_or_default : Text → Text
  zone_or_default zone = if is_blank zone then default_time_zone else zone

  -- `NewWorker`.
  unfoldable pub new_worker : WorkerOptions → Setup
  unfolding trim_space normalize_time_zone normalize_aliases
  new_worker o =
      if not o.has_store || not o.has_extractor || not o.has_deliverer
      then rejected providers_required
      else if o.has_verifier && o.has_shadow_verifier
      then rejected both_verifiers
      else if is_blank (trim_space o.owner)
      then rejected owner_required
      else with_zone o (trim_space o.owner)
          (normalize_time_zone known_zone (zone_or_default (trim_space o.time_zone)))

passed :
    (b : Bool) (e : SetupError) (rest : Setup) {c : WorkerConfig}
    → (if b then rejected e else rest) ≡ worker c
    → (b ≡ false) × (rest ≡ worker c)
passed true e rest h = cc
passed false e rest h = (refl, h)

unless_false : (b : Bool) → not b ≡ false → b ≡ true
unless_false true h = refl
unless_false false h = cc

with_aliases-config :
    (o : WorkerOptions) (owner zone : Text) (jitter : ℕ → ℤ) (aliases : Option (List Text))
    (c : WorkerConfig)
    → with_aliases o owner zone jitter aliases ≡ worker c
    → (found : List Text) × (config_of o owner zone jitter found ≡ c)
with_aliases-config o owner zone jitter none c h = cc
with_aliases-config o owner zone jitter (some found) c h = (found, cc)

-- What a worker may rely on of its configuration.
pub record IsSound (c : WorkerConfig) : Type 0 where
  pub owner_given : is_blank c.owner ≡ false
  pub owner_trimmed : trim_space c.owner ≡ c.owner
  pub lease : 0 < c.lease_duration
  pub poll : 0 < c.poll_interval
  pub base : 0 < c.retry_base
  pub maximum : c.retry_base ≤ c.retry_maximum
  pub extraction : 0 < c.extraction_max_attempts
  pub delivery : 0 < c.delivery_max_attempts
  pub reconciliation : 0 < c.reconcile_max_attempts

positive-pos : (z : ℤ) → positive z ≡ true → 0 < pos_part z
positive-pos (pos n) h = ground arith
positive-pos (negsuc n) h = cc

not_below : (a b : ℤ) → positive a ≡ true → not (ltb_ℤ b a) ≡ true → pos_part a ≤ pos_part b
not_below (pos a) (pos b) h k = ground arith
not_below (pos a) (negsuc b) h k = ground arith
not_below (negsuc a) b h k = cc

durations_valid-parts :
    (o : WorkerOptions)
    → durations_valid o ≡ true
    → (positive o.lease_duration ≡ true)
      × (positive o.poll_interval ≡ true)
      × (positive o.retry_base ≡ true)
      × (not (ltb_ℤ o.retry_maximum o.retry_base) ≡ true)
durations_valid-parts o h = parts _ _ _ _ h
  where
    parts :
        (a b c d : Bool)
        → (a && b && c && d) ≡ true
        → (a ≡ true) × (b ≡ true) × (c ≡ true) × (d ≡ true)
    parts a b c d k = (ground arith, ground arith, ground arith, ground arith)

attempts_valid-parts :
    (o : WorkerOptions)
    → attempts_valid o ≡ true
    → (positive o.extraction_max_attempts ≡ true)
      × (positive o.delivery_max_attempts ≡ true)
      × (positive o.reconcile_max_attempts ≡ true)
attempts_valid-parts o h = parts _ _ _ h
  where
    parts : (a b c : Bool) → (a && b && c) ≡ true → (a ≡ true) × (b ≡ true) × (c ≡ true)
    parts a b c k = (ground arith, ground arith, ground arith)

config_of-IsSound :
    (o : WorkerOptions) (owner zone : Text) (jitter : ℕ → ℤ) (aliases : List Text)
    → is_blank owner ≡ false
    → trim_space owner ≡ owner
    → durations_valid o ≡ true
    → attempts_valid o ≡ true
    → IsSound (config_of o owner zone jitter aliases)
config_of-IsSound o owner zone jitter aliases given trimmed durations attempts =
    let (lease, poll, base, maximum) = durations_valid-parts o durations in
    let (extraction, delivery, reconciliation) = attempts_valid-parts o attempts in
    record {
      owner_given = given;
      owner_trimmed = trimmed;
      lease = positive-pos o.lease_duration lease;
      poll = positive-pos o.poll_interval poll;
      base = positive-pos o.retry_base base;
      maximum = not_below o.retry_base o.retry_maximum base maximum;
      extraction = positive-pos o.extraction_max_attempts extraction;
      delivery = positive-pos o.delivery_max_attempts delivery;
      reconciliation = positive-pos o.reconcile_max_attempts reconciliation;
    }

module _ (fold : ℕ → ℕ) (known_zone : Text → Bool) (o : WorkerOptions) (c : WorkerConfig) where
  with_jitter-config :
      (owner zone : Text) (jitter : Option (ℕ → ℤ))
      → with_jitter fold known_zone o owner zone jitter ≡ worker c
      → (j : ℕ → ℤ) × (found : List Text) × (config_of o owner zone j found ≡ c)
  with_jitter-config owner zone none h = cc
  with_jitter-config owner zone (some jitter) h =
      let (_, rest) = passed (not o.has_logger) logger_required _ h in
      let (found, e) =
        with_aliases-config o owner zone jitter (normalize_aliases fold o.project_aliases) c rest in
      (jitter, found, e)

  with_zone-IsSound :
      (owner : Text) (zone : Option Text)
      → is_blank owner ≡ false
      → trim_space owner ≡ owner
      → with_zone fold known_zone o owner zone ≡ worker c
      → IsSound c
  with_zone-IsSound owner none given trimmed h = cc
  with_zone-IsSound owner (some zone) given trimmed h =
      let (durations, h1) = passed (not (durations_valid o)) durations_invalid _ h in
      let (attempts, h2) = passed (not (attempts_valid o)) attempts_invalid _ h1 in
      let (jitter, aliases, e) = with_jitter-config owner zone o.jitter h2 in
      subst IsSound e (
        config_of-IsSound o owner zone jitter aliases given trimmed (unless_false _ durations)
          (unless_false _ attempts))

  -- A worker that NewWorker makes has a trimmed owner that is not blank, durations and attempt
  -- limits that are positive, and a retry maximum that is not below the base.
  pub new_worker-IsSound : new_worker fold known_zone o ≡ worker c → IsSound c
  unfolding new_worker
  new_worker-IsSound h =
      let (_, h1) =
        passed (not o.has_store || not o.has_extractor || not o.has_deliverer) providers_required _
          h in
      let (_, h2) = passed (o.has_verifier && o.has_shadow_verifier) both_verifiers _ h1 in
      let (given, h3) = passed (is_blank (trim_space o.owner)) owner_required _ h2 in
      with_zone-IsSound (trim_space o.owner) _ given (trim_space_idem o.owner) h3
