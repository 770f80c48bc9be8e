-- ===== src/FileStorage/Calls.antt =====
-- checkpoint/checkpoint.go: what sequences of calls leave on the disk, whichever of them fail.
use weibo.Base.{◌≡◌, refl, Bool, true, false, List, [], ◌∷◌}
use weibo.State.{Bytes}
use weibo.FileStorage.{
  Disk, Answer, done, refused, unsynced, FileStorage, Action, answered, call, ◌>>◌, unchanged,
  sync_state_dirs,
}

-- The disk satisfies one predicate after success, another after an error.
pub record Ends (Q R : Disk → Type 0) (r : Bool × FileStorage) : Type 0 where
  pub succeeds : r.0 ≡ true → Q r.1.disk
  pub fails : r.0 ≡ false → R r.1.disk

answered-Ends :
    (Q R : Disk → Type 0) (a : Answer) (f : Disk → Disk) (d : Disk) (rest : List Answer)
    → Q (f d)
    → R d
    → R (f d)
    → Ends Q R (answered a f d rest)
answered-Ends Q R done f d rest q r r' = record { succeeds = λ e. q; fails = λ e. cc }
answered-Ends Q R refused f d rest q r r' = record { succeeds = λ e. cc; fails = λ e. r }
answered-Ends Q R unsynced f d rest q r r' = record { succeeds = λ e. cc; fails = λ e. r' }

-- A call takes effect or not.
pub call-Ends :
    (Q R : Disk → Type 0) (f : Disk → Disk) (s : FileStorage)
    → Q (f s.disk)
    → R s.disk
    → R (f s.disk)
    → Ends Q R (call f s)
unfolding call
call-Ends Q R f s q r r' = by_answers s.answers refl
  where
    by_answers : (rest : List Answer) → s.answers ≡ rest → Ends Q R (call f s)
    by_answers [] e = rw (e, call) (record { succeeds = λ _. q; fails = λ e. cc })
    by_answers (a ∷ rest) e = rw (e, call) (answered-Ends Q R a f s.disk rest q r r')

pub ok-Ends : (Q R : Disk → Type 0) (s : FileStorage) → Q s.disk → Ends Q R (true, s)
ok-Ends Q R s q = record { succeeds = λ _. q; fails = λ e. cc }

-- The second action starts where the first succeeded.
pub >>-Ends :
    (P Q R : Disk → Type 0) (m k : Action) (s : FileStorage)
    → Ends P R (m s)
    → ((s' : FileStorage) → P s'.disk → Ends Q R (k s'))
    → Ends Q R ((m >> k) s)
unfolding ◌>>◌
>>-Ends P Q R m k s h next = by_result (m s) refl
  where
    by_result : (r : Bool × FileStorage) → m s ≡ r → Ends Q R ((m >> k) s)
    by_result (true, s') e = rw (e, ◌>>◌) (next s' ((rw e at h).succeeds refl))
    by_result (false, s') e =
        rw (e, ◌>>◌) (record { succeeds = λ e. cc; fails = λ _. (rw e at h).fails refl })

-- Directories are synced without an effect on the files.
pub sync_state_dirs-Ends :
    (P R : Disk → Type 0) (dirs : List (Bytes × Bytes)) (s : FileStorage)
    → ((d : Disk) → P d → R d)
    → P s.disk
    → Ends P R (sync_state_dirs dirs s)
unfolding sync_state_dirs
sync_state_dirs-Ends P R [] s w p = ok-Ends P R s p
sync_state_dirs-Ends P R (dir ∷ dirs) s w p =
    >>-Ends P P R (call unchanged) (sync_state_dirs dirs) s
      (call-Ends P R unchanged s p (w s.disk p) (w s.disk p))
      (λ s' p'. sync_state_dirs-Ends P R dirs s' w p')
