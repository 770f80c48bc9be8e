-- ===== src/State/Memory.antt =====
-- state/memory.go: the in-memory list state, as an instance of `ListStore`.
use mathlib.Core.List.{Memᴰ}
use weibo.Base.{
  ◌≡◌, ◌≢◌, refl, false, Option, none, some, List, [], ◌∷◌, ◌++◌, All, arith, bytes_eq,
  bytes_eq_iff, if◌then◌else◌, Option-cases, Bool-cases, inl, inr, sym,
}
use weibo.Base.Maps.{get, put, delete, get-put, get-put_self, get-delete}
use weibo.State.{Bytes, bytes_key, Distinct, ListStore}

abbrev pub Lists : Type 0
Lists = List (Bytes × List Bytes)

-- The lists of a backend by namespace, and one handle with its current key.
pub record MemoryListState : Type 0 where
  pub list : List (Bytes × Lists)
  pub name : Bytes
  pub key : Bytes

abbrev pub or_empty {ℓ} : {A : Type ℓ} → Option (List A) → List A
or_empty none = []
or_empty (some xs) = xs

-- `MemoryBackend.ListState`: the namespace is created if it is missing.
unfoldable pub open_list : Bytes → List (Bytes × Lists) → MemoryListState
open_list name list = record {
  list = elim (get name list) [ none ↦ put name [] list | some _ ↦ list ];
  name = name;
  key = [];
}

unfoldable pub set_key : Bytes → MemoryListState → MemoryListState
set_key k s = record s { key = k }

unfoldable pub append : Bytes → MemoryListState → MemoryListState
append v s =
    let entries = or_empty (get s.name s.list) in
    record s {
      list = put s.name (put s.key (or_empty (get s.key entries) ++ v ∷ []) entries) s.list;
    }

unfoldable pub get_all : MemoryListState → List Bytes
get_all s = elim (get s.name s.list) [ none ↦ [] | some entries ↦ or_empty (get s.key entries) ]

unfoldable pub clear : MemoryListState → MemoryListState
clear s = elim (get s.name s.list) [
  | none ↦ s
  | some entries ↦ record s { list = put s.name (delete s.key entries) s.list }
]

abbrev pub map_keys : Lists → List Bytes
map_keys [] = []
map_keys ((k, v) ∷ m) = k ∷ map_keys m

unfoldable pub keys : MemoryListState → List Bytes
keys s = map_keys (or_empty (get s.name s.list))

abbrev pub view : MemoryListState → Bytes → List Bytes
view s k = or_empty (get k (or_empty (get s.name s.list)))

-- Every list that is held has an entry, and no key stands twice.
abbrev pub AllHeld : Lists → Type 0
AllHeld = All (λ (e : Bytes × List Bytes). e.1 ≢ [])

pub record IsHeld (m : Lists) : Type 0 where
  pub filled : AllHeld m
  pub distinct : Distinct (map_keys m)

abbrev pub IsValid : MemoryListState → Type 0
IsValid s = IsHeld (or_empty (get s.name s.list))

put-AllHeld : (k : Bytes) (v : List Bytes) (m : Lists) → v ≢ [] → AllHeld m → AllHeld (put k v m)
unfolding put
put-AllHeld k v [] n h = (n, tt)
put-AllHeld k v ((j, w) ∷ m) n h = ground (arith, put-AllHeld k v m n h.1)

delete-AllHeld : (k : Bytes) (m : Lists) → AllHeld m → AllHeld (delete k m)
unfolding delete
delete-AllHeld k [] h = tt
delete-AllHeld k ((j, w) ∷ m) h = ground (arith, delete-AllHeld k m h.1)

abbrev Apart : Bytes → Lists → Type 0
Apart i m = All (λ j. bytes_eq i j ≡ false) (map_keys m)

put-Apart :
    (i k : Bytes) (v : List Bytes) (m : Lists)
    → bytes_eq i k ≡ false
    → Apart i m
    → Apart i (put k v m)
unfolding put
put-Apart i k v [] n h = (n, tt)
put-Apart i k v ((j, w) ∷ m) n h = ground (arith, put-Apart i k v m n h.1)

put-Distinct :
    (k : Bytes) (v : List Bytes) (m : Lists)
    → Distinct (map_keys m)
    → Distinct (map_keys (put k v m))
unfolding put
put-Distinct k v [] h = (tt, tt)
put-Distinct k v ((j, w) ∷ m) h =
    ground (arith, bytes_eq_iff j k, put-Distinct k v m h.1, put-Apart j k v m)

delete-Apart : (i k : Bytes) (m : Lists) → Apart i m → Apart i (delete k m)
unfolding delete
delete-Apart i k [] h = tt
delete-Apart i k ((j, w) ∷ m) h = ground (arith, delete-Apart i k m h.1)

delete-Distinct : (k : Bytes) (m : Lists) → Distinct (map_keys m) → Distinct (map_keys (delete k m))
unfolding delete
delete-Distinct k [] h = tt
delete-Distinct k ((j, w) ∷ m) h = ground (arith, delete-Distinct k m h.1, delete-Apart j k m h.0)

pub get-mem : (k : Bytes) (m : Lists) → or_empty (get k m) ≢ [] → Memᴰ k (map_keys m)
unfolding get
get-mem k [] h = absurd (h refl)
get-mem k ((j, w) ∷ m) h = elim (Bool-cases (bytes_eq j k)) [
  | inl e ↦ Memᴰ.head (sym ((bytes_eq_iff j k).0 e))
  | inr e ↦ Memᴰ.tail (get-mem k m (rw e at h))
]

pub mem-get : (k : Bytes) (m : Lists) → AllHeld m → Memᴰ k (map_keys m) → or_empty (get k m) ≢ []
unfolding get
mem-get k [] h d = elim d [ ]
mem-get k ((j, w) ∷ m) h (Memᴰ.head e) = rw ((bytes_eq_iff j k).1 (sym e)) h.0
mem-get k ((j, w) ∷ m) h (Memᴰ.tail d) = elim (Bool-cases (bytes_eq j k)) [
  | inl e ↦ rw e h.0
  | inr e ↦ rw e (mem-get k m h.1 d)
]

snoc-filled : (xs : List Bytes) (v : Bytes) → xs ++ v ∷ [] ≢ []
snoc-filled [] v = λ e. cc
snoc-filled (x ∷ xs) v = λ e. cc

abbrev entries : MemoryListState → Lists
entries s = or_empty (get s.name s.list)

entries-append :
    (v : Bytes) (s : MemoryListState)
    → entries (append v s) ≡ put s.key (or_empty (get s.key (entries s)) ++ v ∷ []) (entries s)
unfolding append
entries-append v s = rw get-put_self

entries-clear : (s : MemoryListState) → entries (clear s) ≡ delete s.key (entries s)
unfolding clear delete
entries-clear s = elim (Option-cases (get s.name s.list)) [
  | inl e ↦ rw (e, clear) (rw e)
  | inr (es, e) ↦ rw (e, clear) (rw get-put_self)
]

pub append-IsValid : (v : Bytes) (s : MemoryListState) → IsValid s → IsValid (append v s)
append-IsValid v s h = rw (entries-append v s) (record {
  filled = put-AllHeld s.key _ (entries s) (snoc-filled _ v) h.filled;
  distinct = put-Distinct s.key _ (entries s) h.distinct;
})

pub clear-IsValid : (s : MemoryListState) → IsValid s → IsValid (clear s)
clear-IsValid s h = rw (entries-clear s) (record {
  filled = delete-AllHeld s.key (entries s) h.filled;
  distinct = delete-Distinct s.key (entries s) h.distinct;
})

pub view-append :
    (v j : Bytes) (s : MemoryListState)
    → view (append v s) j ≡ (if bytes_eq s.key j then view s j ++ v ∷ [] else view s j)
view-append v j s =
    rw (entries-append v s, get-put j s.key _ (entries s)) (ground (arith, bytes_eq_iff s.key j))

pub view-clear :
    (j : Bytes) (s : MemoryListState)
    → view (clear s) j ≡ (if bytes_eq s.key j then [] else view s j)
view-clear j s = rw (entries-clear s, get-delete j s.key (entries s)) (ground arith)

pub get_all-view : (s : MemoryListState) → get_all s ≡ view s s.key
unfolding get_all get
get_all-view s = elim (Option-cases (get s.name s.list)) [
  | inl e ↦ rw (e, get_all) refl
  | inr (es, e) ↦ rw (e, get_all) refl
]

pub set_key-IsValid : (k : Bytes) (s : MemoryListState) → IsValid s → IsValid (set_key k s)
unfolding set_key
set_key-IsValid k s h = h

pub cursor-set_key : (k : Bytes) (s : MemoryListState) → (set_key k s).key ≡ k
unfolding set_key
cursor-set_key k s = refl

pub cursor-append : (v : Bytes) (s : MemoryListState) → (append v s).key ≡ s.key
unfolding append
cursor-append v s = refl

pub cursor-clear : (s : MemoryListState) → (clear s).key ≡ s.key
unfolding clear
cursor-clear s = elim (Option-cases (get s.name s.list)) [
  | inl e ↦ rw (e, clear) refl
  | inr (entries, e) ↦ rw (e, clear) refl
]

pub view-set_key : (k j : Bytes) (s : MemoryListState) → view (set_key k s) j ≡ view s j
unfolding set_key
view-set_key k j s = refl

pub keys-Distinct : (s : MemoryListState) → IsValid s → Distinct (keys s)
unfolding keys
keys-Distinct s h = h.distinct

pub mem-keys : (k : Bytes) (s : MemoryListState) → view s k ≢ [] → Memᴰ k (keys s)
unfolding keys
mem-keys k s h = get-mem k (or_empty (get s.name s.list)) h

pub view-keys : (k : Bytes) (s : MemoryListState) → IsValid s → Memᴰ k (keys s) → view s k ≢ []
unfolding keys
view-keys k s h d = mem-get k (or_empty (get s.name s.list)) h.filled d

-- The in-memory backend keeps the contract of `ListState`.
abbrev pub memory_store : ListStore
memory_store = record {
  State = MemoryListState;
  set_key = set_key;
  append = append;
  get_all = get_all;
  clear = clear;
  keys = keys;
  IsValid = IsValid;
  cursor = λ s. s.key;
  view = view;
  set_key-IsValid = set_key-IsValid;
  append-IsValid = append-IsValid;
  clear-IsValid = clear-IsValid;
  cursor-set_key = cursor-set_key;
  cursor-append = cursor-append;
  cursor-clear = cursor-clear;
  view-set_key = view-set_key;
  view-append = view-append;
  view-clear = view-clear;
  get_all-view = get_all-view;
  keys-Distinct = keys-Distinct;
  mem-keys = mem-keys;
  view-keys = view-keys;
}
