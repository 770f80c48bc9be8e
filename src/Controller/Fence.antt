-- ===== src/Controller/Fence.antt =====
-- control/controller.go: the states of a job in which its containers are accounted for.
pub mod Rows
pub mod Calls
pub mod Updates
pub mod Launching
pub mod Reconciling
pub mod Passing
pub mod Deleting
pub mod Submitting
pub mod Orphans
pub mod Serving
use weibo.Base.{
  ℕ, ◌≡◌, ◌≢◌, ◌≤◌, ◌⊎◌, inl, inr, Bool, true, false, List, [], ◌∷◌, arith, subst, sym,
}
use weibo.State.{Bytes}
use weibo.Lifecycle.{Phase, restarting, blocked}
use weibo.Controller.{Run, JobState}
use weibo.Controller.Store.{is_active, count_active}

-- A run in one of the other phases has a container only until that has ended.
abbrev pub watched : Phase → Bool
watched restarting = false
watched blocked = false
watched _ = true

abbrev pub Watching : Run → Type 0
Watching r = (is_active r ≡ true) × (watched r.phase ≡ true) × (r.container_id ≢ [])

-- Some active run has the container.
abbrev pub Watches : Bytes → List Run → Type 0
Watches id [] = ⊥
Watches id (r ∷ rs) = (Watching r × (r.container_id ≡ id)) ⊎ Watches id rs

abbrev pub Held : List Bytes → List Run → Type 0
Held [] runs = Unit
Held (id ∷ []) runs = Watches id runs
Held (id ∷ j ∷ ids) runs = ⊥

abbrev pub Safe : JobState → Type 0
Safe s = (count_active s.runs ≤ 1) × (s.most_live ≤ 1) × Held s.live s.runs

abbrev pub Idle : JobState → Type 0
Idle s = (count_active s.runs ≤ 1) × (s.most_live ≤ 1) × (s.live ≡ [])

-- Only the container that was just launched may be live.
abbrev pub Fresh : Bytes → JobState → Type 0
Fresh id s = (count_active s.runs ≤ 1) × (s.most_live ≤ 1) × ((s.live ≡ []) ⊎ (s.live ≡ id ∷ []))

-- Only the container of this run may be live.
abbrev pub Tied : Run → JobState → Type 0
Tied r s =
    (count_active s.runs ≤ 1)
    × (s.most_live ≤ 1)
    × ((s.live ≡ [])
        ⊎ (Watching r × (s.live ≡ r.container_id ∷ []) × Watches r.container_id s.runs))

abbrev pub Stored : Run → List Run → Type 0
Stored r [] = ⊥
Stored r (x ∷ xs) = (r ≡ x) ⊎ Stored r xs

pub Idle-Safe : (s : JobState) → Idle s → Safe s
Idle-Safe s (one, most, none_live) = (one, most, rw none_live tt)

pub Idle-Tied : (r : Run) (s : JobState) → Idle s → Tied r s
Idle-Tied r s (one, most, none_live) = (one, most, inl none_live)

pub Tied-Safe : (r : Run) (s : JobState) → Tied r s → Safe s
Tied-Safe r s (one, most, inl none_live) = (one, most, rw none_live tt)
Tied-Safe r s (one, most, inr (w, one_live, held)) = (one, most, rw one_live held)
