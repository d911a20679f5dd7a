-- ===== src/Queue/Tests/Saving.antt =====
-- The theorems on SaveRecording at a payload that is received twice.
use index_01_hook.Base.{◌*◌, ◌≡◌, refl, arith, true, false, [], length}
use index_01_hook.Base.Rows.{find_row, any_row, count_rows, update_rows, next_id}
use index_01_hook.Base.Text.{text_eq, trim_space}
use index_01_hook.Queue.Types.{Store}
use index_01_hook.Queue.Schema.{ok}
use index_01_hook.Queue.Evaluation.{capture_evaluation_input}
use index_01_hook.Queue.Intake.{
  Receipt, upsert_recording, insert_job, is_queued, queue_job, save_recording,
}
use index_01_hook.Queue.Intake.Payloads.{UniquePayloads}
use index_01_hook.Queue.Intake.Again.{save_recording-UniquePayloads}
use index_01_hook.Queue.Tests.{minute, input, empty, saved, saved_is, store_of}

abbrev first : Receipt
first = record { id = 1; duplicate = false; queued = true }

abbrev saved_again : Store
saved_again = store_of (save_recording saved (2 * minute) input)

saved_again_is :
    save_recording saved (2 * minute) input ≡ ok (saved_again, record first { duplicate = true })
unfolding text_eq save_recording trim_space queue_job upsert_recording find_row any_row update_rows
    capture_evaluation_input next_id is_queued insert_job
saved_again_is = refl

one_recording : length saved_again.recordings ≡ 1
unfolding text_eq save_recording trim_space queue_job upsert_recording find_row any_row update_rows
    capture_evaluation_input next_id is_queued insert_job
one_recording = refl

nothing_twice : UniquePayloads []
unfolding count_rows
nothing_twice f = omega arith

saved_once : UniquePayloads saved.recordings
saved_once = save_recording-UniquePayloads empty saved minute input first saved_is nothing_twice

save_recording-UniquePayloads_example : UniquePayloads saved_again.recordings
save_recording-UniquePayloads_example =
    save_recording-UniquePayloads saved saved_again (2 * minute) input
      (record first { duplicate = true }) saved_again_is saved_once
