-- ===== src/Examples/Recoveries.antt =====
-- A checkpoint whose promotion crashes, and the recovery after it.
use weibo.Base.{arith, ◌≡◌, inl, refl, ◌⊎◌, true, false, none, some, select, [], ◌∷◌, bytes_eq}
use weibo.Base.Int.{pos}
use weibo.Base.Maps.{get, put}
use weibo.State.{bytes_key}
use weibo.Checkpoint.{
  CheckpointData, Storage, prepared, completed, unset, is_completed, with_status,
}
use weibo.Coordinator.{
  Coordinator, Environment, PendingCheckpoint, sink_committed, hook_continue, hook_halt, committed,
  checkpoint_of, finalize,
}
use weibo.Recovery.{resumes, promote_failed, was_committed, resolve_recovery}
use weibo.Recovery.ExactlyOnce.{exactly_once, expected}
use weibo.Coordinator.Order.{Progress, finalize-Progress}
use weibo.FileStorage.{
  FileStorage, precedes, readable, save, update_status, load, load_latest_completed, load_pointer,
  load_specific,
}
use weibo.FileStorage.Saving.{IsNewest}
use weibo.FileStorage.Loads.{IsValid, Points, latest_found, completed_found}
use weibo.FileStorage.Contract.{file_storage, save_found}
use weibo.FileStorage.Saves.{save-IsLogged}
use weibo.FileStorage.Updates.{update_status-found}
use weibo.FileStorage.Succeeds.{checkpoint_completes}
use weibo.Examples.Fixtures.{show_checkpoint, read_checkpoint, toy_checkpoint_codec, three_kept}

-- The process halts once the sink has committed.
abbrev crashing : Environment
crashing = record {
  hook = λ s id. elim s [ sink_committed ↦ hook_halt | _ ↦ hook_continue ];
  commit_sink = λ id. committed;
  has_commit_offsets = true;
  now = λ id. pos 9;
}

abbrev waiting : PendingCheckpoint
waiting = record {
  offsets = some (4 ∷ []);
  state = ([], 7 ∷ []) ∷ [];
  state_dirs = [];
  prepared_by_sink = true;
  sink_err = false;
}

abbrev previous : CheckpointData
previous = record {
  id = 1 ∷ [];
  timestamp = pos 3;
  operators = [];
  source = [];
  status = completed;
  txn_id = 8 ∷ [];
  state_dirs = [];
}

abbrev before : Coordinator FileStorage
before = record {
  txn_id = 8 ∷ [];
  storage = record {
    disk = record {
      files = (1 ∷ [], show_checkpoint previous) ∷ [];
      latest = some (1 ∷ []);
      latest_completed = some (1 ∷ []);
      state_dirs = [];
    };
    answers = [];
  };
  pending = (2 ∷ [], waiting) ∷ [];
  halted = false;
  events = [];
  fatal = none;
  sink_commits = (1 ∷ []) ∷ [];
  sink_aborts = [];
  offset_commits = [];
  completions = [];
}

abbrev toy_storage : Storage
toy_storage = file_storage toy_checkpoint_codec three_kept

abbrev after : Coordinator FileStorage
after = finalize toy_storage crashing (2 ∷ []) before

before_latest : latest_found toy_checkpoint_codec three_kept before.storage ≡ some previous
unfolding load load_pointer load_specific bytes_eq get
before_latest = refl

previous-Points :
    Points toy_checkpoint_codec three_kept (some (1 ∷ [])) before.storage.disk.files previous
unfolding get bytes_eq
previous-Points = record {
  named = refl;
  trimmed = refl;
  bytes = show_checkpoint previous;
  stored = refl;
  parsed = refl;
}

before-IsValid : IsValid toy_checkpoint_codec three_kept before.storage
unfolding select readable is_completed
before-IsValid = record {
  started = refl;
  retains = ground arith;
  counted = ground arith;
  latest_ok = inl (previous, previous-Points);
  completed_ok = inl (previous, previous-Points, refl);
}

abbrev logged_next : CheckpointData
logged_next = checkpoint_of toy_storage crashing (8 ∷ []) (2 ∷ []) waiting

next-IsNewest : IsNewest toy_checkpoint_codec 3 logged_next (before.storage).disk.files
unfolding get bytes_eq readable precedes
next-IsNewest = record {
  encodable = (
    refl,
    λ status.
        elim status
          as (λ x.
            read_checkpoint (show_checkpoint (with_status x logged_next))
            ≡ some (with_status x logged_next)) [
              | prepared ↦ refl
              | completed ↦ refl
              | unset ↦ refl
            ],
  );
  named = refl;
  trimmed = refl;
  fresh = refl;
  older = (refl, tt);
  others = (refl, tt);
}

was_whole : (e : CheckpointData) → toy_storage.load before.storage ≡ some e → is_completed e ≡ true
unfolding is_completed
was_whole e same = cc (before_latest, same)

is_waiting : get (2 ∷ []) before.pending ≡ some waiting
unfolding get bytes_eq
is_waiting = refl

committed_none : was_committed before.sink_commits (2 ∷ []) ≡ false
unfolding bytes_eq
committed_none = refl

same_before : toy_storage.load_latest_completed before.storage ≡ toy_storage.load before.storage
unfolding load load_latest_completed load_pointer load_specific bytes_eq get is_completed
same_before = refl

exactly_once_example :
    ((resolve_recovery toy_storage true after).0
      ≡ resumes (
          expected
            (was_committed after.sink_commits (2 ∷ []))
            (checkpoint_of toy_storage crashing (8 ∷ []) (2 ∷ []) waiting)
            (toy_storage.load before.storage)))
    ⊎ ((resolve_recovery toy_storage true after).0 ≡ promote_failed)
      × (was_committed after.sink_commits (2 ∷ []) ≡ true)
exactly_once_example =
    exactly_once toy_storage crashing (2 ∷ []) waiting before refl is_waiting before-IsValid
      next-IsNewest committed_none same_before was_whole

recovers_committed : was_committed after.sink_commits (2 ∷ []) ≡ true
unfolding finalize bytes_eq get save is_completed select put
recovers_committed = refl

finalize-Progress_example :
    Progress (2 ∷ []) waiting before (finalize toy_storage crashing (2 ∷ []) before)
finalize-Progress_example =
    finalize-Progress toy_storage crashing (2 ∷ []) waiting before is_waiting

abbrev after_save : FileStorage
after_save = (save toy_checkpoint_codec three_kept logged_next before.storage).1

save_found_example :
    ((latest_found toy_checkpoint_codec three_kept after_save ≡ some logged_next)
      ⊎ ((save toy_checkpoint_codec three_kept logged_next before.storage).0 ≡ false)
        × (latest_found toy_checkpoint_codec three_kept after_save
            ≡ latest_found toy_checkpoint_codec three_kept before.storage))
    × (completed_found toy_checkpoint_codec three_kept after_save
        ≡ completed_found toy_checkpoint_codec three_kept before.storage)
save_found_example =
    save_found toy_checkpoint_codec three_kept logged_next before.storage before-IsValid
      next-IsNewest refl

saved_ok : (save toy_checkpoint_codec three_kept logged_next before.storage).0 ≡ true
unfolding save is_completed select put bytes_eq get
saved_ok = refl

update_status-found_example :
    (latest_found toy_checkpoint_codec three_kept
        (update_status toy_checkpoint_codec three_kept logged_next.id completed after_save).1
      ≡ some (with_status completed logged_next))
    ⊎ ((update_status toy_checkpoint_codec three_kept logged_next.id completed after_save).0
        ≡ false)
      × (latest_found toy_checkpoint_codec three_kept
            (update_status toy_checkpoint_codec three_kept logged_next.id completed after_save).1
          ≡ some logged_next)
update_status-found_example =
    update_status-found toy_checkpoint_codec three_kept logged_next after_save (
      save-IsLogged toy_checkpoint_codec three_kept logged_next before.storage before-IsValid
        next-IsNewest refl saved_ok)

checkpoint_completes_example :
    ((save toy_checkpoint_codec three_kept logged_next before.storage).0 ≡ true)
    × ((update_status toy_checkpoint_codec three_kept logged_next.id completed after_save).0 ≡ true)
    × (latest_found toy_checkpoint_codec three_kept
          (update_status toy_checkpoint_codec three_kept logged_next.id completed after_save).1
        ≡ some (with_status completed logged_next))
checkpoint_completes_example =
    checkpoint_completes toy_checkpoint_codec three_kept logged_next before.storage.disk
      before-IsValid next-IsNewest refl
