-- ===== src/Worker/Tests/Running.antt =====
-- The theorems on Run and NewWorker, at two workers.
use index_01_hook.Base.{◌*◌, ◌≡◌, refl, true, false, none, some, [], ◌∷◌, ◌⊎◌}
use index_01_hook.Base.Int.{pos}
use index_01_hook.Base.Text.{codes, is_space, trim_space, text_eq}
use index_01_hook.Application.Policy.{normalize_aliases}
use index_01_hook.Queue.Step.{Steps}
use index_01_hook.Queue.Tests.{same_rune, minute, extracted_milk}
use index_01_hook.Queue.Tests.Mixed.{mixed_store, mixed_store-Inv}
use index_01_hook.Worker.Provider.{answered}
use index_01_hook.Worker.Verifier.{ExtractionProviders, checked}
use index_01_hook.Worker.Setup.{
  WorkerOptions, worker as made, new_worker, normalize_time_zone, IsSound, new_worker-IsSound,
}
use index_01_hook.Worker.Cycle.{CycleInput, System, cycle, run}
use index_01_hook.Worker.Cycle.Runs.{run-Steps}
use index_01_hook.Worker.Cycle.Idle.{Nothing, Something, cycle_work}
use index_01_hook.Worker.Tests.{config, clock, provider, verdict}

abbrev providers : ExtractionProviders
providers = record {
  screener = none;
  verifier = some (λ transcription item aliases. checked (verdict item));
  extract = λ transcription aliases. answered extracted_milk;
}

abbrev cycle_input : CycleInput
cycle_input = record {
  started_at = 3 * minute;
  extraction_claimed_at = 3 * minute;
  delivery_claimed_at = 3 * minute;
  clock = clock;
  after_verification = clock;
  completed_at = 3 * minute;
  took = λ n. pos 1000;
  recorded_at = λ n. 3 * minute;
  extraction = providers;
  delivery = provider;
}

abbrev system : System
system = record { queue = mixed_store; health = none }

run-Steps_example :
    Steps same_rune system.queue
      (run same_rune config minute (4 * minute) (cycle_input ∷ cycle_input ∷ []) system).queue
run-Steps_example =
    run-Steps same_rune config minute (4 * minute) (cycle_input ∷ cycle_input ∷ []) system

abbrev options : WorkerOptions
options = record {
  has_store = true;
  has_extractor = true;
  has_deliverer = true;
  has_verifier = true;
  has_shadow_verifier = false;
  has_logger = true;
  owner = codes " worker ";
  time_zone = [];
  lease_duration = pos minute;
  poll_interval = pos 5;
  retry_base = pos 30;
  retry_maximum = pos 1800;
  extraction_max_attempts = pos 3;
  delivery_max_attempts = pos 3;
  reconcile_max_attempts = pos 3;
  project_aliases = [];
  jitter = some (λ limit. pos limit);
}

made_is : new_worker same_rune (λ zone. true) options ≡ made config
unfolding new_worker trim_space is_space normalize_time_zone text_eq normalize_aliases
made_is = refl

config-IsSound : IsSound config
config-IsSound = new_worker-IsSound same_rune (λ zone. true) options config made_is

new_worker-IsSound_example : IsSound config
new_worker-IsSound_example = new_worker-IsSound same_rune (λ zone. true) options config made_is

cycle_work_example :
    (Nothing cycle_input mixed_store
      × ((cycle same_rune config cycle_input mixed_store).worked ≡ false)
      × ((cycle same_rune config cycle_input mixed_store).cycle_failed ≡ false)
      × ((cycle same_rune config cycle_input mixed_store).store ≡ mixed_store))
    ⊎ (Something cycle_input mixed_store
        × ((cycle same_rune config cycle_input mixed_store).worked ≡ true))
cycle_work_example =
    cycle_work same_rune config cycle_input mixed_store mixed_store-Inv config-IsSound
