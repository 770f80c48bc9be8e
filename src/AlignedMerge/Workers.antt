-- ===== src/AlignedMerge/Workers.antt =====
-- pipeline/markers.go: what a turn of one worker does to the workers. A worker waits when it is parked and
-- has no token.
use weibo.Base.{
  ℕ, zero, suc, ◌+◌, ◌<◌, ◌≤◌, ◌≡◌, refl, ap, inl, inr, Bool, true, false, not, ◌&&◌, Option, none,
  some, List, [], ◌∷◌, ◌++◌, All, map, if◌then◌else◌, length, arith, Bool-cases,
}
use weibo.Types.{Record}
use weibo.AlignedMerge.{
  Worker, is_marker, forwarded, forward_at, then_rest, in_front, wake_at, cons_some, all_empty,
  give,
}

abbrev pub waits : Worker → Bool
waits w = w.parked && not w.resume

abbrev pub one : Bool → ℕ
one b = if b then 1 else 0

abbrev pub waiting : List Worker → ℕ
waiting [] = 0
waiting (w ∷ ws) = one (waits w) + waiting ws

abbrev pub markers : List Record → ℕ
markers [] = 0
markers (r ∷ rs) = one (is_marker r) + markers rs

pub markers-append : (rs ts : List Record) → markers (rs ++ ts) ≡ markers rs + markers ts
markers-append [] ts = omega arith
markers-append (r ∷ rs) ts = omega (arith, markers-append rs ts)

pub waiting-le-length : (ws : List Worker) → waiting ws ≤ length ws
waiting-le-length [] = ground arith
waiting-le-length (w ∷ ws) = ground (arith, waiting-le-length ws)

-- The stages of the markers: a record belongs to the stage that its number of earlier markers gives.
abbrev pub next_stage : Bool → ℕ → ℕ
next_stage b e = if b then suc e else e

abbrev pub stage_past : ℕ → List Record → ℕ
stage_past e [] = e
stage_past e (r ∷ rs) = stage_past (next_stage (is_marker r) e) rs

pub stage_past-append :
    (e : ℕ) (rs ts : List Record) → stage_past e (rs ++ ts) ≡ stage_past (stage_past e rs) ts
stage_past-append e [] ts = refl
stage_past-append e (r ∷ rs) ts = stage_past-append (next_stage (is_marker r) e) rs ts

-- `finished` is what holds of the stage at the end.
abbrev pub InStep : (Record → ℕ) → (ℕ → Type 0) → ℕ → List Record → Type 0
InStep stage finished e [] = finished e
InStep stage finished e (r ∷ rs) =
    (stage r ≡ e) × InStep stage finished (next_stage (is_marker r) e) rs

abbrev pub Anywhere : ℕ → Type 0
Anywhere e = Unit

pub InStep-append :
    (stage : Record → ℕ) (e : ℕ) (rs ts : List Record)
    → InStep stage Anywhere e rs
    → InStep stage Anywhere (stage_past e rs) ts
    → InStep stage Anywhere e (rs ++ ts)
InStep-append stage e [] ts h k = k
InStep-append stage e (r ∷ rs) ts h k =
    (h.0, InStep-append stage (next_stage (is_marker r) e) rs ts h.1 k)

module _ (stage : Record → ℕ) (finished : ℕ → Type 0) where
  -- A worker with the loop at a stage.
  pub record InTurn (e : ℕ) (w : Worker) : Type 0 where
    pub output_in_step : InStep stage finished (next_stage (waits w) e) w.output
    pub no_token : w.parked ≡ false → w.resume ≡ false

  -- What forwarding does.
  pub record Forwarded (e : ℕ) (ws : List Worker) (r : Record) (ws' : List Worker) : Type 0 where
    pub turns : All (InTurn e) ws'
    pub staged : stage r ≡ e
    pub same_length : length ws' ≡ length ws
    pub more_wait : waiting ws' ≡ waiting ws + one (is_marker r)
    pub data_last : is_marker r ≡ false → waiting ws' < length ws'

  abbrev pub IfForwarded : ℕ → List Worker → Option (Record × List Worker) → Type 0
  IfForwarded e ws none = Unit
  IfForwarded e ws (some (r, ws')) = Forwarded e ws r ws'

  forwarded-first :
      (e : ℕ) (w : Worker) (ws : List Worker) (output : List Record)
      → All (InTurn e) (w ∷ ws)
      → w.parked ≡ false
      → w.output ≡ output
      → IfForwarded e (w ∷ ws) (then_rest ws (forwarded output w))
  forwarded-first e w ws [] h idle o = tt
  forwarded-first e w ws (x ∷ rest) h idle o =
      let empty = h.0.no_token idle in
      let turn : InStep stage finished (next_stage (waits w) e) (x ∷ rest) =
        rw o at h.0.output_in_step in
      let turn' : InStep stage finished e (x ∷ rest) = (rw idle at turn) in
      record {
        turns = (
          record { output_in_step = rw empty (ground (arith, turn'.1)); no_token = λ _. empty },
          h.1,
        );
        staged = turn'.0;
        same_length = refl;
        more_wait = ground (arith, idle, empty);
        data_last = λ e. ground (arith, e, idle, empty, waiting-le-length ws);
      }

  in_front-Forwarded :
      (e : ℕ) (w : Worker) (ws : List Worker) (o : Option (Record × List Worker))
      → InTurn e w
      → IfForwarded e ws o
      → IfForwarded e (w ∷ ws) (in_front w o)
  in_front-Forwarded e w ws none h k = tt
  in_front-Forwarded e w ws (some (r, ws')) h k = record {
    turns = (h, k.turns);
    staged = k.staged;
    same_length = ap suc k.same_length;
    more_wait = omega (arith, k.more_wait);
    data_last = λ d. ground (arith, k.data_last d);
  }

  pub forward_at-Forwarded :
      (e : ℕ) (k : ℕ) (ws : List Worker) → All (InTurn e) ws → IfForwarded e ws (forward_at k ws)
  unfolding forward_at
  forward_at-Forwarded e k [] h = tt
  forward_at-Forwarded e zero (w ∷ ws) h = elim (Bool-cases w.parked) [
    | inl parked ↦ simp parked tt
    | inr idle ↦ simp idle (forwarded-first e w ws w.output h idle refl)
  ]
  forward_at-Forwarded e (suc k) (w ∷ ws) h =
      in_front-Forwarded e w ws (forward_at k ws) h.0 (forward_at-Forwarded e k ws h.1)

  -- What waking does.
  pub record Woken (e : ℕ) (ws ws' : List Worker) : Type 0 where
    pub turns : All (InTurn e) ws'
    pub same_length : length ws' ≡ length ws
    pub same_wait : waiting ws' ≡ waiting ws

  abbrev pub IfWoken : ℕ → List Worker → Option (List Worker) → Type 0
  IfWoken e ws none = Unit
  IfWoken e ws (some ws') = Woken e ws ws'

  cons_some-Woken :
      (e : ℕ) (w : Worker) (ws : List Worker) (o : Option (List Worker))
      → InTurn e w
      → IfWoken e ws o
      → IfWoken e (w ∷ ws) (cons_some w o)
  cons_some-Woken e w ws none h k = tt
  cons_some-Woken e w ws (some ws') h k = record {
    turns = (h, k.turns);
    same_length = ap suc k.same_length;
    same_wait = ap (λ x. one (waits w) + x) k.same_wait;
  }

  wake_first :
      (e : ℕ) (w : Worker) (ws : List Worker)
      → All (InTurn e) (w ∷ ws)
      → w.parked ≡ true
      → w.resume ≡ true
      → Woken e (w ∷ ws) (record w { parked = false; resume = false } ∷ ws)
  wake_first e w ws h parked token = record {
    turns = (
      record { output_in_step = (rw (parked, token) at h.0.output_in_step); no_token = λ _. refl },
      h.1,
    );
    same_length = refl;
    same_wait = ground (arith, parked, token);
  }

  pub wake_at-Woken :
      (e : ℕ) (k : ℕ) (ws : List Worker) → All (InTurn e) ws → IfWoken e ws (wake_at k ws)
  unfolding wake_at
  wake_at-Woken e k [] h = tt
  wake_at-Woken e zero (w ∷ ws) h = elim (Bool-cases w.parked) [
    | inr idle ↦ simp idle tt
    | inl parked ↦ elim (Bool-cases w.resume) [
      | inr empty ↦ simp (parked, empty) tt
      | inl token ↦ simp (parked, token) (wake_first e w ws h parked token)
    ]
  ]
  wake_at-Woken e (suc k) (w ∷ ws) h =
      cons_some-Woken e w ws (wake_at k ws) h.0 (wake_at-Woken e k ws h.1)

  -- Once all workers wait, the tokens bring them to the next stage.
  pub give-InTurn :
      (e : ℕ) (ws : List Worker)
      → waiting ws ≡ length ws
      → All (InTurn e) ws
      → All (InTurn (suc e)) (map give ws)
  give-InTurn e [] full h = tt
  give-InTurn e (w ∷ ws) full h =
      let bound = waiting-le-length ws in
      let waits_now : waits w ≡ true = ground (arith, full, bound) in
      let parked : w.parked ≡ true = ground (arith, waits_now) in
      let output : InStep stage finished (suc e) w.output = (rw waits_now at h.0.output_in_step) in
      (
        record { output_in_step = rw parked output; no_token = λ idle. cc (parked, idle) },
        give-InTurn e ws (ground (arith, full, bound)) h.1,
      )

-- No token is left where all workers wait.
pub all_empty-waiting : (ws : List Worker) → waiting ws ≡ length ws → all_empty ws ≡ true
unfolding all_empty
all_empty-waiting [] full = refl
all_empty-waiting (w ∷ ws) full = ground (arith, full, waiting-le-length ws, all_empty-waiting ws)

pub waiting-give : (ws : List Worker) → waiting (map give ws) ≡ 0
waiting-give [] = refl
waiting-give (w ∷ ws) = ground (arith, waiting-give ws)

pub length-give : (ws : List Worker) → length (map give ws) ≡ length ws
length-give [] = refl
length-give (w ∷ ws) = ap suc (length-give ws)
