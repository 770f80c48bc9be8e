-- ===== src/FileStorage/Age.antt =====
-- checkpoint/checkpoint.go, `scanLocked`: the order of the checkpoints by age.
use weibo.Base.{
  ◌≡◌, refl, ◌∙◌, ap, Bool, true, false, Option, none, some, List, [], ◌∷◌, ◌++◌, All, length,
  select, arith, bytes_eq, Bool-cases, inl, inr, ◌≢◌,
}
use weibo.Base.Maps.{get, put}
use weibo.State.{Bytes, bytes_key}
use weibo.Checkpoint.{CheckpointData}
use weibo.FileStorage.{
  CheckpointCodec, precedes, insert_by_age, sort_by_age, readable, add_readable,
}

module _ (codec : CheckpointCodec) where
  precedes_asym : (a b : CheckpointData) → precedes codec a b ≡ true → precedes codec b a ≡ false
  unfolding precedes
  precedes_asym a b h = ground arith

  insert_by_age-All :
      (P : CheckpointData → Type 0) (d : CheckpointData) (ds : List CheckpointData)
      → P d
      → All P ds
      → All P (insert_by_age codec d ds)
  unfolding insert_by_age
  insert_by_age-All P d [] h k = (h, tt)
  insert_by_age-All P d (e ∷ es) h k = ground (arith, insert_by_age-All P d es h k.1)

  pub sort_by_age-All :
      (P : CheckpointData → Type 0) (ds : List CheckpointData)
      → All P ds
      → All P (sort_by_age codec ds)
  unfolding sort_by_age
  sort_by_age-All P [] h = tt
  sort_by_age-All P (d ∷ ds) h = insert_by_age-All P d _ h.0 (sort_by_age-All P ds h.1)

  insert_by_age-append :
      (d last : CheckpointData) (ds : List CheckpointData)
      → precedes codec last d ≡ false
      → insert_by_age codec d (ds ++ last ∷ []) ≡ insert_by_age codec d ds ++ last ∷ []
  unfolding insert_by_age
  insert_by_age-append d last [] h = rw h refl
  insert_by_age-append d last (e ∷ es) h = ground (arith, insert_by_age-append d last es h)

  -- A checkpoint that all others precede stays last.
  pub sort_by_age-append :
      (ds : List CheckpointData) (last : CheckpointData)
      → All (λ d. precedes codec d last ≡ true) ds
      → sort_by_age codec (ds ++ last ∷ []) ≡ sort_by_age codec ds ++ last ∷ []
  unfolding sort_by_age insert_by_age
  sort_by_age-append [] last h = refl
  sort_by_age-append (d ∷ ds) last h =
      ap (insert_by_age codec d) (sort_by_age-append ds last h.1)
      ∙ insert_by_age-append d last (sort_by_age codec ds) (precedes_asym d last h.0)

  length-select-insert :
      (p : CheckpointData → Bool) (d : CheckpointData) (ds : List CheckpointData)
      → length (select p (insert_by_age codec d ds)) ≡ length (select p (d ∷ ds))
  unfolding select insert_by_age
  length-select-insert p d [] = refl
  length-select-insert p d (e ∷ es) = ground (arith, length-select-insert p d es)

  -- Sorting keeps the number of checkpoints that pass a test.
  pub length-select-sort :
      (p : CheckpointData → Bool) (ds : List CheckpointData)
      → length (select p (sort_by_age codec ds)) ≡ length (select p ds)
  unfolding select sort_by_age
  length-select-sort p [] = refl
  length-select-sort p (d ∷ ds) =
      ground (arith, length-select-insert p d (sort_by_age codec ds), length-select-sort p ds)

  add_readable-append :
      (o : Option CheckpointData) (xs ys : List CheckpointData)
      → add_readable codec o (xs ++ ys) ≡ add_readable codec o xs ++ ys
  add_readable-append none xs ys = refl
  add_readable-append (some d) xs ys = ground arith

  some-ne-none {ℓ} : {A : Type ℓ} {a : A} → some a ≢ none
  some-ne-none e = cc

  -- A file with a new name and a readable checkpoint comes last in the directory's list.
  pub readable-put :
      (k b : Bytes) (d : CheckpointData) (files : List (Bytes × Bytes))
      → get k files ≡ none
      → codec.unmarshal b ≡ some d
      → bytes_eq d.id [] ≡ false
      → readable codec (put k b files) ≡ readable codec files ++ d ∷ []
  unfolding readable put get
  readable-put k b d [] new read named = rw (read, named) refl
  readable-put k b d ((name, c) ∷ files) new read named = elim (Bool-cases (bytes_eq name k)) [
    | inl same ↦ absurd (some-ne-none (rw same at new))
    | inr other ↦ rw other (
        ap (add_readable codec (codec.unmarshal c))
          (readable-put k b d files (rw other at new) read named)
        ∙ add_readable-append (codec.unmarshal c) (readable codec files) (d ∷ []))
  ]

pub select-append {ℓ} :
    {A : Type ℓ} (p : A → Bool) (xs ys : List A) → select p (xs ++ ys) ≡ select p xs ++ select p ys
unfolding select
select-append p [] ys = refl
select-append p (x ∷ xs) ys = ground (arith, select-append p xs ys)
