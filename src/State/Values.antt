-- ===== src/State/Values.antt =====
-- state/memory.go: the in-memory value state, one value for each key of a namespace, with the
-- snapshot and the restore that a checkpoint uses.
use weibo.Base.{
  ◌≡◌, refl, false, Option, none, some, List, [], ◌∷◌, bytes_eq, if◌then◌else◌, Option-cases, inl,
  inr, arith, All, bytes_eq_iff,
}
use weibo.Base.Maps.{get, put, delete, get-put, get-put_self, get-delete}
use weibo.State.{Bytes, bytes_key, Distinct}
use weibo.State.Memory.{or_empty}

abbrev pub Entries : Type 0
Entries = List (Bytes × Bytes)

-- The values of a backend by namespace, and one handle with its current key.
pub record MemoryValueState : Type 0 where
  pub value : List (Bytes × Entries)
  pub name : Bytes
  pub key : Bytes

abbrev pub entries : MemoryValueState → Entries
entries s = or_empty (get s.name s.value)

-- `Get`: no value is `none`.
unfoldable pub get_value : MemoryValueState → Option Bytes
get_value s = get s.key (entries s)

-- `Set`: the namespace is created if it is missing.
unfoldable pub set_value : Bytes → MemoryValueState → MemoryValueState
set_value v s = record s { value = put s.name (put s.key v (entries s)) s.value }

-- `Clear`.
unfoldable pub clear_value : MemoryValueState → MemoryValueState
clear_value s = elim (get s.name s.value) [
  | none ↦ s
  | some es ↦ record s { value = put s.name (delete s.key es) s.value }
]

-- `SnapshotAll`.
unfoldable pub snapshot_all : MemoryValueState → Entries
snapshot_all s = entries s

-- The copies of `RestoreAll`, in a fresh map.
unfoldable pub copy_all : Entries → Entries → Entries
copy_all [] fresh = fresh
copy_all ((k, v) ∷ rest) fresh = copy_all rest (put k v fresh)

-- `RestoreAll`.
unfoldable pub restore_all : Entries → MemoryValueState → MemoryValueState
unfolding copy_all
restore_all es s = record s { value = put s.name (copy_all es []) s.value }

abbrev pub value_keys : Entries → List Bytes
value_keys [] = []
value_keys ((k, v) ∷ m) = k ∷ value_keys m

-- No key has two values, as in a Go map.
abbrev pub IsMap : MemoryValueState → Type 0
IsMap s = Distinct (value_keys (entries s))

get-Apart :
    (k : Bytes) (m : Entries) → All (λ j. bytes_eq k j ≡ false) (value_keys m) → get k m ≡ none
unfolding get
get-Apart k [] h = refl
get-Apart k ((j, w) ∷ m) h = ground (arith, bytes_eq_iff j k, bytes_eq_iff k j, get-Apart k m h.1)

or_else {ℓ} : {A : Type ℓ} → Option A → Option A → Option A
or_else none o = o
or_else (some a) o = some a

get-copy_all :
    (j : Bytes) (es fresh : Entries)
    → Distinct (value_keys es)
    → get j (copy_all es fresh) ≡ or_else (get j es) (get j fresh)
unfolding get copy_all or_else
get-copy_all j [] fresh h = refl
get-copy_all j ((k, v) ∷ es) fresh h = ground (
  arith,
  get-copy_all j es (put k v fresh) h.1,
  get-put j k v fresh,
  bytes_eq_iff k j,
  get-Apart k es h.0,
)

pub entries-set_value :
    (v : Bytes) (s : MemoryValueState) → entries (set_value v s) ≡ put s.key v (entries s)
unfolding set_value
entries-set_value v s = rw get-put_self

pub entries-clear_value :
    (s : MemoryValueState) → entries (clear_value s) ≡ delete s.key (entries s)
unfolding clear_value delete
entries-clear_value s = elim (Option-cases (get s.name s.value)) [
  | inl e ↦ rw (e, clear_value) (rw e)
  | inr (es, e) ↦ rw (e, clear_value) (rw get-put_self)
]

entries-restore_all :
    (es : Entries) (s : MemoryValueState) → entries (restore_all es s) ≡ copy_all es []
unfolding restore_all
entries-restore_all es s = rw get-put_self

or_else-none {ℓ} : {A : Type ℓ} (o : Option A) → or_else o none ≡ o
unfolding or_else
or_else-none none = refl
or_else-none (some a) = refl

-- Restoring the snapshot of a handle with one value for each key into any handle, whatever it
-- holds, gives each key the value that it had when the snapshot was taken, and no value to a key
-- that had none.
pub restore_all-snapshot_all :
    (s t : MemoryValueState) (k : Bytes)
    → IsMap s
    → get_value (record (restore_all (snapshot_all s) t) { key = k })
      ≡ get_value (record s { key = k })
unfolding snapshot_all get_value get
restore_all-snapshot_all s t k h =
    rw (entries-restore_all (entries s) t, get-copy_all k (entries s) [] h) (or_else-none _)

-- After `Set` the current key has the value, after `Clear` it has none, and neither changes the value
-- of another key.
pub get_value_after :
    (v k : Bytes) (s : MemoryValueState)
    → (get_value (record (set_value v s) { key = k })
        ≡ (if bytes_eq s.key k then some v else get_value (record s { key = k })))
      × (get_value (record (clear_value s) { key = k })
          ≡ (if bytes_eq s.key k then none else get_value (record s { key = k })))
unfolding get_value
get_value_after v k s = (
  rw (entries-set_value v s) (get-put k s.key v (entries s)),
  rw (entries-clear_value s) (get-delete k s.key (entries s)),
)
