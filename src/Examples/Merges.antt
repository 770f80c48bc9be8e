-- ===== src/Examples/Merges.antt =====
-- Two workers whose outputs are merged around a barrier.
use weibo.Base.{
  ℕ, ◌≡◌, ◌≢◌, ◌⊎◌, ◌≤◌, ◌*◌, refl, Bool, true, false, some, none, List, [], ◌∷◌, arith, length,
  ◌==◌, if◌then◌else◌,
}
use weibo.Types.{Record, zero_record}
use weibo.AlignedMerge.{Merge, Turn, forward, wake, receive, is_marker, step, run, start}
use weibo.AlignedMerge.Workers.{InStep, Anywhere}
use weibo.AlignedMerge.Aligned.{merge-InStep}
use weibo.AlignedMerge.Progress.{IsDone, merge_goes_on}
use weibo.AlignedMerge.Counts.{count, count_all, total, merge_keeps_all, merge_ends}

-- The stage of an example's record is the length of its key.
abbrev stage : Record → ℕ
stage r = length r.key

abbrev early : Record
early = record zero_record { value = 1 ∷ [] }

abbrev barrier : Record
barrier = record zero_record { is_barrier = true; checkpoint_id = 7 ∷ [] }

abbrev late : Record
late = record zero_record { key = 5 ∷ []; value = 2 ∷ [] }

abbrev outputs : List (List Record)
outputs = (early ∷ barrier ∷ late ∷ []) ∷ (barrier ∷ []) ∷ []

-- Worker 1 delivers the barrier first; worker 0 is woken and sends a record of the next stage.
abbrev turns : List Turn
turns =
    forward 1
    ∷ forward 0
    ∷ receive
    ∷ receive
    ∷ forward 0
    ∷ receive
    ∷ wake 0
    ∷ forward 0
    ∷ receive
    ∷ wake 1
    ∷ []

abbrev merged : Merge
merged = record {
  workers =
      record { output = []; parked = false; resume = false }
      ∷ record { output = []; parked = false; resume = false }
      ∷ [];
  fan_in = [];
  arrived = 0;
  out = early ∷ barrier ∷ late ∷ [];
}

runs : run turns (start outputs) ≡ some merged
unfolding run start
runs = refl

merge-InStep_example : InStep stage Anywhere 0 merged.out
merge-InStep_example =
    merge-InStep stage outputs turns merged (ground arith)
      ((refl, (refl, (refl, tt))), ((refl, tt), tt)) runs

merge_goes_on_example : IsDone merged ⊎ (t : Turn) × (step t merged ≢ none)
merge_goes_on_example =
    merge_goes_on stage 1 outputs turns merged (ground arith)
      ((refl, (refl, (refl, refl))), ((refl, refl), tt)) runs

abbrev is_data_late : Record → Bool
is_data_late r = if is_marker r then false else length r.key == 1

late_is_data : (r : Record) → is_marker r ≡ true → is_data_late r ≡ false
late_is_data r e = rw e refl

merge_keeps_all_example : count is_data_late merged.out ≡ count_all is_data_late outputs
merge_keeps_all_example =
    merge_keeps_all is_data_late outputs turns merged late_is_data runs
      (refl, ((refl, refl), ((refl, refl), tt)))

merge_ends_example : length turns ≤ 4 * total outputs
merge_ends_example = merge_ends outputs turns merged runs
