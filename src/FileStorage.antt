-- ===== src/FileStorage.antt =====
-- checkpoint/checkpoint.go, `FileStorage`: checkpoints as files of a directory, two pointer files, and
-- retention. The operating system's answers to the calls that write come from a list; reads do not
-- fail, and the directory exists. Checkpoint files are keyed by the id in their name.
pub mod Calls
pub mod Age
pub mod Saving
pub mod Promoting
pub mod Loads
pub mod Saves
pub mod Updates
pub mod DirsDeleted
pub mod Contract
pub mod Succeeds
use weibo.Base.{
  ℕ, ◌≡◌, Bool, true, false, not, ◌&&◌, ◌||◌, Option, none, some, List, [], ◌∷◌, ◌==◌,
  if◌then◌else◌, ltb, select, length, bytes_eq,
}
use weibo.Base.Int.{ℤ, ltb_ℤ, eqb_ℤ}
use weibo.Base.Maps.{get, put, delete}
use weibo.State.{Bytes, bytes_key}
use weibo.Checkpoint.{Status, prepared, completed, unset, CheckpointData, is_completed, with_status}

-- `encoding/json` on a checkpoint, `strings.TrimSpace`, and the number that `strconv.ParseInt` returns.
-- `Encodable` are the checkpoints whose texts are valid UTF-8 and whose maps are not nil.
pub record CheckpointCodec : Type 1 where
  pub marshal : CheckpointData → Bytes
  pub unmarshal : Bytes → Option CheckpointData
  pub trim_space : Bytes → Bytes
  pub parse_int : Bytes → ℤ
  pub Encodable : CheckpointData → Type 0
  pub unmarshal-marshal : (d : CheckpointData) → Encodable d → unmarshal (marshal d) ≡ some d
  pub with_status-Encodable :
      (status : Status) (d : CheckpointData) → Encodable d → Encodable (with_status status d)

-- The files `checkpoint-<id>.json`, `latest.json` and `latest-completed.json`, and the directories
-- `checkpoint-<id>.state`.
pub record Disk : Type 0 where
  pub files : List (Bytes × Bytes)
  pub latest : Option Bytes
  pub latest_completed : Option Bytes
  pub state_dirs : List Bytes

-- A call that writes succeeds, or fails without an effect, or takes effect and fails to sync.
pub data Answer : Type 0 where
  done refused unsynced : Answer

-- Where the list of answers ends, calls succeed.
pub record FileStorage : Type 0 where
  pub disk : Disk
  pub answers : List Answer

pub record Options : Type 0 where
  pub retain_completed : ℕ
  pub startup_failed : Bool

-- An operation returns whether it met no error.
abbrev pub Action : Type 0
Action = FileStorage → Bool × FileStorage

abbrev pub answered : Answer → (Disk → Disk) → Disk → List Answer → Bool × FileStorage
answered done f d rest = (true, record { disk = f d; answers = rest })
answered refused f d rest = (false, record { disk = d; answers = rest })
answered unsynced f d rest = (false, record { disk = f d; answers = rest })

unfoldable pub call : (Disk → Disk) → Action
call f s = elim s.answers [
  | [] ↦ (true, record s { disk = f s.disk })
  | a ∷ rest ↦ answered a f s.disk rest
]

infixl 5 ◌>>◌
unfoldable pub ◌>>◌ : Action → Action → Action
(m >> k) s = let (ok, s') = m s in if ok then k s' else (false, s')

-- `writeFileSync`: rename makes the write atomic, the sync of the parent comes after it.
abbrev pub write_checkpoint : Bytes → Bytes → Disk → Disk
write_checkpoint id b d = record d { files = put id b d.files }

abbrev pub point : Bool → Bytes → Disk → Disk
point false id d = record d { latest = some id }
point true id d = record d { latest_completed = some id }

abbrev pub unchanged : Disk → Disk
unchanged d = d

unfoldable pub sync_state_dirs : List (Bytes × Bytes) → Action
unfolding call ◌>>◌
sync_state_dirs [] = λ s. (true, s)
sync_state_dirs (dir ∷ dirs) = call unchanged >> sync_state_dirs dirs

abbrev pub remove_dir : Bytes → List Bytes → List Bytes
remove_dir id [] = []
remove_dir id (j ∷ js) = let rest = remove_dir id js in if bytes_eq j id then rest else j ∷ rest

abbrev pub remove_state : Bytes → Disk → Disk
remove_state id d = record d { state_dirs = remove_dir id d.state_dirs }

abbrev pub remove_checkpoint : Bytes → Disk → Disk
remove_checkpoint id d = record d { files = delete id d.files }

-- The text after the last dash.
abbrev pub last_part : Bytes → Bytes → Bytes
last_part part [] = part
last_part part (c ∷ cs) = if c == b'-' then last_part cs cs else last_part part cs

-- Of a specific checkpoint or a pointer: nothing, an error, or a checkpoint.
pub data Loaded : Type 0 where
  missing load_error : Loaded
  found : CheckpointData → Loaded

abbrev pub newest : List CheckpointData → Loaded
newest [] = missing
newest (d ∷ []) = found d
newest (d ∷ e ∷ es) = newest (e ∷ es)

module _ (codec : CheckpointCodec) where
  open codec use {marshal, unmarshal, trim_space, parse_int}

  -- `checkpointSequence`.
  abbrev pub checkpoint_sequence : Bytes → ℤ
  checkpoint_sequence id = parse_int (last_part id id)

  -- The order of `scanLocked`.
  unfoldable pub precedes : CheckpointData → CheckpointData → Bool
  precedes a b =
      if eqb_ℤ a.timestamp b.timestamp
      then ltb_ℤ (checkpoint_sequence a.id) (checkpoint_sequence b.id)
      else ltb_ℤ a.timestamp b.timestamp

  unfoldable pub insert_by_age : CheckpointData → List CheckpointData → List CheckpointData
  unfolding precedes
  insert_by_age d [] = d ∷ []
  insert_by_age d (e ∷ es) =
      let rest = insert_by_age d es in if precedes e d then e ∷ rest else d ∷ e ∷ es

  unfoldable pub sort_by_age : List CheckpointData → List CheckpointData
  unfolding insert_by_age
  sort_by_age [] = []
  sort_by_age (d ∷ ds) = insert_by_age d (sort_by_age ds)

  abbrev pub add_readable : Option CheckpointData → List CheckpointData → List CheckpointData
  add_readable none ds = ds
  add_readable (some d) ds = if bytes_eq d.id [] then ds else d ∷ ds

  -- The files that parse and have an id.
  unfoldable pub readable : List (Bytes × Bytes) → List CheckpointData
  readable [] = []
  readable ((name, b) ∷ files) = add_readable (unmarshal b) (readable files)

  -- `scanLocked`.
  abbrev pub scan : Disk → List CheckpointData
  scan d = sort_by_age (readable d.files)

  -- The loop of `enforceRetentionLocked` over the completed checkpoints, oldest first.
  unfoldable pub prune : ℕ → List CheckpointData → Action
  unfolding ◌>>◌ call
  prune retain [] = λ s. (true, s)
  prune retain (v ∷ vs) =
      let rest = prune retain vs in
      if ltb retain (length (v ∷ vs))
      then call (remove_checkpoint v.id) >> call (remove_state v.id) >> rest
      else λ s. (true, s)

  abbrev pub sync_if : List CheckpointData → Action
  sync_if [] = λ s. (true, s)
  sync_if (d ∷ ds) = call unchanged

  unfoldable pub enforce_retention : ℕ → Action
  unfolding prune sort_by_age readable
  enforce_retention retain s =
      let all = scan s.disk in
      if ltb retain 1 then (true, s) else (prune retain (select is_completed all) >> sync_if all) s

  -- `saveLocked`: the checkpoint file, then `latest.json`, then `latest-completed.json`.
  abbrev pub with_default : CheckpointData → CheckpointData
  with_default d = record d {
    status = elim d.status [ prepared ↦ prepared | completed ↦ completed | unset ↦ completed ];
  }

  unfoldable pub save_locked : ℕ → CheckpointData → Action
  unfolding sync_state_dirs enforce_retention
  save_locked retain d =
      call unchanged
      >> sync_state_dirs d.state_dirs
      >> call (write_checkpoint d.id (marshal (with_default d)))
      >> call (point false d.id)
      >> (if is_completed d then call (point true d.id) else λ s. (true, s))
      >> enforce_retention retain

  unfoldable pub load_specific : Bytes → Disk → Loaded
  load_specific id d = elim (get id d.files) [
    | none ↦ missing
    | some b ↦ elim (unmarshal b) [ none ↦ load_error | some data_read ↦ found data_read ]
  ]

  -- The fallback of `loadPointerLocked`: the newest that qualifies, which the pointer is set to.
  abbrev pub repair : Bool → Loaded → FileStorage → Loaded × FileStorage
  repair completed_only missing s = (missing, s)
  repair completed_only load_error s = (load_error, s)
  repair completed_only (found d) s =
      let (ok, s') = call (point completed_only d.id) s in (if ok then found d else load_error, s')

  abbrev pub qualifies : Bool → CheckpointData → Bool
  qualifies completed_only d = not completed_only || is_completed d

  abbrev pub pointer : Bool → Disk → Option Bytes
  pointer false d = d.latest
  pointer true d = d.latest_completed

  abbrev pub pointed : Option Bytes → Disk → Loaded
  pointed none d = missing
  pointed (some text) d = load_specific (trim_space text) d

  abbrev pub fallback : Bool → FileStorage → Loaded × FileStorage
  fallback completed_only s =
      repair completed_only (newest (select (qualifies completed_only) (scan s.disk))) s

  abbrev pub use_pointed : Bool → Loaded → FileStorage → Loaded × FileStorage
  use_pointed completed_only missing s = fallback completed_only s
  use_pointed completed_only load_error s = fallback completed_only s
  use_pointed completed_only (found d) s =
      if qualifies completed_only d then (found d, s) else fallback completed_only s

  -- `loadPointerLocked`, with `latest.json` or, for completed ones only, `latest-completed.json`.
  unfoldable pub load_pointer : Bool → FileStorage → Loaded × FileStorage
  unfolding load_specific sort_by_age readable call
  load_pointer completed_only s =
      use_pointed completed_only (pointed (pointer completed_only s.disk) s.disk) s

  module _ (o : Options) where
    unfoldable pub save : CheckpointData → Action
    unfolding save_locked
    save d s = if o.startup_failed then (false, s) else save_locked o.retain_completed d s

    abbrev pub update_loaded : Status → Loaded → Action
    update_loaded status missing s = (false, s)
    update_loaded status load_error s = (false, s)
    update_loaded status (found d) s = save_locked o.retain_completed (with_status status d) s

    unfoldable pub update_status : Bytes → Status → Action
    unfolding load_specific save_locked
    update_status id status s =
        if o.startup_failed then (false, s) else update_loaded status (load_specific id s.disk) s

    unfoldable pub load : FileStorage → Loaded × FileStorage
    unfolding load_pointer
    load s = if o.startup_failed then (load_error, s) else load_pointer false s

    unfoldable pub load_latest_completed : FileStorage → Loaded × FileStorage
    unfolding load_pointer
    load_latest_completed s = if o.startup_failed then (load_error, s) else load_pointer true s

  -- `DeleteStateDirs`, which ignores errors.
  unfoldable pub delete_state_dirs : Bytes → FileStorage → FileStorage
  unfolding call ◌>>◌
  delete_state_dirs id s = ((call (remove_state id) >> call unchanged) s).1

  -- `sweepOrphansLocked`.
  unfoldable pub sweep : List Bytes → Action
  unfolding call ◌>>◌
  sweep [] s = call unchanged s
  sweep (id ∷ ids) s = elim (get id s.disk.files) [
    | none ↦ (call (remove_state id) >> sweep ids) s
    | some _ ↦ sweep ids s
  ]

  abbrev pub pointer_ok : Bool → Action
  pointer_ok completed_only s =
      let (loaded, s') = load_pointer completed_only s in
      (elim loaded [ missing ↦ true | load_error ↦ false | found _ ↦ true ], s')

  -- `maintainLocked`.
  unfoldable pub maintain : ℕ → Action
  unfolding sweep load_pointer enforce_retention ◌>>◌
  maintain retain s =
      (sweep s.disk.state_dirs >> pointer_ok false >> pointer_ok true >> enforce_retention retain) s

  -- `NewFileStorage`: a failed start is kept, and every operation then returns its error.
  unfoldable pub new_file_storage : ℕ → FileStorage → Options × FileStorage
  unfolding maintain
  new_file_storage retain s =
      let (ok, s') = maintain retain s in
      if ltb retain 1
      then (record { retain_completed = retain; startup_failed = true }, s)
      else (record { retain_completed = retain; startup_failed = not ok }, s')
