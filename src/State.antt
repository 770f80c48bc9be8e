-- ===== src/State.antt =====
-- state/state.go and state/memory.go: keyed state. `ListStore` is the contract of `ListState`, which
-- operators rely on; State/Memory.antt fills it with the in-memory backend.
pub mod Memory
pub mod Values
use mathlib.Core.List.{Memᴰ}
use weibo.Base.{
  ℕ, ◌≡◌, ◌≢◌, Bool, true, false, List, [], ◌∷◌, ◌++◌, All, bytes_eq, bytes_eq_iff, if◌then◌else◌,
}
use weibo.Base.Maps.{Eq}

-- A Go string or byte slice.
abbrev pub Bytes : Type 0
Bytes = List ℕ

instance abbrev pub bytes_key : Eq Bytes
bytes_key = record { beq = bytes_eq; beq_iff = bytes_eq_iff }

-- No key stands twice.
abbrev pub Distinct : List Bytes → Type 0
Distinct [] = Unit {0}
Distinct (k ∷ ks) = All (λ j. bytes_eq k j ≡ false) ks × Distinct ks

-- `ListState`: a cursor set by `SetKey`, and one append-only list for each key. `view` is the
-- list that a key holds, `IsValid` what a reachable state satisfies.
pub record ListStore : Type 1 where
  pub State : Type 0
  pub set_key : Bytes → State → State
  pub append : Bytes → State → State
  pub get_all : State → List Bytes
  pub clear : State → State
  pub keys : State → List Bytes
  pub IsValid : State → Type 0
  pub cursor : State → Bytes
  pub view : State → Bytes → List Bytes
  pub set_key-IsValid : (k : Bytes) (s : State) → IsValid s → IsValid (set_key k s)
  pub append-IsValid : (v : Bytes) (s : State) → IsValid s → IsValid (append v s)
  pub clear-IsValid : (s : State) → IsValid s → IsValid (clear s)
  pub cursor-set_key : (k : Bytes) (s : State) → cursor (set_key k s) ≡ k
  pub cursor-append : (v : Bytes) (s : State) → cursor (append v s) ≡ cursor s
  pub cursor-clear : (s : State) → cursor (clear s) ≡ cursor s
  pub view-set_key : (k j : Bytes) (s : State) → view (set_key k s) j ≡ view s j
  pub view-append :
      (v j : Bytes) (s : State)
      → view (append v s) j ≡ (if bytes_eq (cursor s) j then view s j ++ v ∷ [] else view s j)
  pub view-clear :
      (j : Bytes) (s : State) → view (clear s) j ≡ (if bytes_eq (cursor s) j then [] else view s j)
  pub get_all-view : (s : State) → get_all s ≡ view s (cursor s)
  pub keys-Distinct : (s : State) → IsValid s → Distinct (keys s)
  pub mem-keys : (k : Bytes) (s : State) → view s k ≢ [] → Memᴰ k (keys s)
  pub view-keys : (k : Bytes) (s : State) → IsValid s → Memᴰ k (keys s) → view s k ≢ []
