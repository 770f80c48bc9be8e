-- ===== src/JoinOperator/Buffers.antt =====
-- operator/join.go: what appending and eviction do to the buffered records of a key.
use mathlib.Core.List.{Memᴰ}
use mathlib.Core.List.Memᴰ
use weibo.Base.{
  ◌≡◌, refl, sym, subst, inl, inr, Bool, true, false, not, List, [], ◌∷◌, ◌++◌, map, select,
  if◌then◌else◌, arith, bytes_eq, bytes_eq_iff, Bool-cases,
}
use weibo.Base.Int.{ℤ, ltb_ℤ, wrap64, wrap64_id, wrap64-IsInt64}
use weibo.State.{Bytes, ListStore}
use weibo.Types.{Record}
use weibo.WindowKey.{Codec}
use weibo.WindowOperator.Entries.{record_to_json, record_from_json, encode_record, decode_record}
use weibo.WindowOperator.Views.{get_all-set_key, view-clear-set_key, view-append_all}
use weibo.JoinOperator.{evict_key, evict_keys}

pub mem-select :
    (p : Record → Bool) (rs : List Record) (r : Record)
    → Memᴰ r rs
    → p r ≡ true
    → Memᴰ r (select p rs)
unfolding select
mem-select p [] r m h = elim m [ ]
mem-select p (x ∷ rs) r (Memᴰ.head e) h = rw (sym e, h) (Memᴰ.head refl)
mem-select p (x ∷ rs) r (Memᴰ.tail m) h = elim (Bool-cases (p x)) [
  | inl e ↦ rw e (Memᴰ.tail (mem-select p rs r m h))
  | inr e ↦ rw e (mem-select p rs r m h)
]

module _ (codec : Codec) where
  -- A record as it is read from a buffer.
  abbrev pub kept : Record → Record
  kept r = record_from_json (record_to_json r)

  pub decode_record-encode_record :
      (r : Record)
      → codec.Encodable (record_to_json r)
      → decode_record codec (encode_record codec r) ≡ kept r
  unfolding decode_record encode_record
  decode_record-encode_record r h = rw (codec.decode-encode (record_to_json r) h)

  -- Writing what has been read gives the same entry.
  pub Stable : Bytes → Type 0
  Stable raw = encode_record codec (decode_record codec raw) ≡ raw

  pub encode_record-Stable :
      (r : Record) → codec.Encodable (record_to_json r) → Stable (encode_record codec r)
  unfolding Stable encode_record record_to_json record_from_json
  encode_record-Stable r h =
      rw (decode_record-encode_record r h, encode_record)
        (rw (wrap64_id (wrap64 r.timestamp) (wrap64-IsInt64 r.timestamp)) refl)

  module _ (st : ListStore) where
    open st use {
      State, set_key, append, get_all, clear, keys, cursor, view, cursor-clear, view-append,
      cursor-set_key, view-set_key,
    }

    -- The entries of a key that an eviction leaves.
    abbrev pub survivors : ℤ → List Bytes → List Bytes
    survivors cutoff raws =
        map (encode_record codec)
          (select (λ (r : Record). not (ltb_ℤ r.timestamp cutoff)) (map (decode_record codec) raws))

    pub view-evict_key :
        (cutoff : ℤ) (k j : Bytes) (s : State)
        → view (evict_key codec st cutoff k s) j
          ≡ (if bytes_eq k j then survivors cutoff (view s k) else view s j)
    unfolding evict_key
    view-evict_key cutoff k j s =
        let entries = survivors cutoff (get_all (set_key k s)) in
        rw
          (
            view-append_all codec st entries (clear (set_key k s)) j,
            cursor-clear (set_key k s),
            cursor-set_key k s,
            view-clear-set_key st k j s,
            get_all-set_key st k s,
          )
          (ground arith)

    pub mem-survivors :
        (cutoff : ℤ) (raws : List Bytes) (raw : Bytes)
        → Stable raw
        → ltb_ℤ (decode_record codec raw).timestamp cutoff ≡ false
        → Memᴰ raw raws
        → Memᴰ raw (survivors cutoff raws)
    unfolding Stable
    mem-survivors cutoff raws raw stable young m =
        subst (λ x. Memᴰ x (survivors cutoff raws)) stable
          (Memᴰ.map (encode_record codec) (
            mem-select (λ (r : Record). not (ltb_ℤ r.timestamp cutoff))
              (map (decode_record codec) raws) (decode_record codec raw)
              (Memᴰ.map (decode_record codec) m) (rw young refl)))

    mem-evict_key :
        (cutoff : ℤ) (k j : Bytes) (s : State) (raw : Bytes)
        → Stable raw
        → ltb_ℤ (decode_record codec raw).timestamp cutoff ≡ false
        → Memᴰ raw (view s j)
        → Memᴰ raw (view (evict_key codec st cutoff k s) j)
    mem-evict_key cutoff k j s raw stable young m = elim (Bool-cases (bytes_eq k j)) [
      | inl e ↦
          let same = (bytes_eq_iff k j).0 e in
          rw (view-evict_key cutoff k j s, e)
            (mem-survivors cutoff (view s k) raw stable young (rw same m))
      | inr e ↦ rw (view-evict_key cutoff k j s, e) m
    ]

    -- Eviction spares the entries of records that are not before the cutoff.
    pub mem-evict_keys :
        (cutoff : ℤ) (ks : List Bytes) (j : Bytes) (s : State) (raw : Bytes)
        → Stable raw
        → ltb_ℤ (decode_record codec raw).timestamp cutoff ≡ false
        → Memᴰ raw (view s j)
        → Memᴰ raw (view (evict_keys codec st cutoff ks s) j)
    unfolding evict_keys
    mem-evict_keys cutoff [] j s raw stable young m = m
    mem-evict_keys cutoff (k ∷ ks) j s raw stable young m =
        mem-evict_keys cutoff ks j (evict_key codec st cutoff k s) raw stable young
          (mem-evict_key cutoff k j s raw stable young m)

    pub view-append-set_key :
        (v k j : Bytes) (s : State)
        → view (append v (set_key k s)) j ≡ (if bytes_eq k j then view s j ++ v ∷ [] else view s j)
    view-append-set_key v k j s =
        rw (view-append v j (set_key k s), cursor-set_key k s, view-set_key k j s)

    -- An appended entry is there, and so are the earlier ones.
    pub mem-append :
        (v k j : Bytes) (s : State) (raw : Bytes)
        → Memᴰ raw (view s j)
        → Memᴰ raw (view (append v (set_key k s)) j)
    mem-append v k j s raw m = elim (Bool-cases (bytes_eq k j)) [
      | inl e ↦ rw (view-append-set_key v k j s, e) (Memᴰ.append_left (v ∷ []) m)
      | inr e ↦ rw (view-append-set_key v k j s, e) m
    ]

    pub mem-append_self : (v k : Bytes) (s : State) → Memᴰ v (view (append v (set_key k s)) k)
    mem-append_self v k s =
        rw (view-append-set_key v k k s, (bytes_eq_iff k k).1 refl)
          (Memᴰ.append_right (view s k) (Memᴰ.head refl))
