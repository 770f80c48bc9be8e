-- ===== src/FileStorage/Saves.antt =====
-- checkpoint/checkpoint.go, `Save`: what is found after a prepared checkpoint has been saved.
use weibo.Base.{
  ◌≡◌, refl, sym, ◌∙◌, ap, ◌⊎◌, inl, inr, true, false, none, some, [], ◌∷◌, select, Bool-cases,
  All-append,
}
use weibo.Base.Maps.{put, get-put_self}
use weibo.State.{bytes_key}
use weibo.Checkpoint.{prepared, CheckpointData, is_completed}
use weibo.FileStorage.{
  CheckpointCodec, Disk, FileStorage, Options, call, readable, sort_by_age, insert_by_age,
  load_pointer, save, load,
}
use weibo.FileStorage.Calls.{Ends}
use weibo.FileStorage.Age.{readable-put}
use weibo.FileStorage.Saving.{saved, logged, Stage, save_prepared}
use weibo.FileStorage.Promoting.{whole}
use weibo.FileStorage.Loads.{
  IsLogged, IsNext, IsValid, Points, Points-put, at_disk, completed_found, completed_found-Points,
  completed_found-none, latest_found, latest_found-Points,
}

module _ (codec : CheckpointCodec) (o : Options) where
  module _ (d : CheckpointData) (s : FileStorage) (valid : IsValid codec o s)
      (next : IsNext codec o d s) where
    Points-logged : Points codec o (some d.id) (logged codec o.retain_completed d s.disk).files d
    Points-logged = record {
      named = refl;
      trimmed = next.trimmed;
      bytes = codec.marshal d;
      stored = get-put_self d.id (codec.marshal d) s.disk.files;
      parsed = codec.unmarshal-marshal d next.encodable;
    }

    latest_found-logged :
        latest_found codec o (at_disk (logged codec o.retain_completed d s.disk)) ≡ some d
    latest_found-logged =
        latest_found-Points codec o (at_disk (logged codec o.retain_completed d s.disk)) d
          valid.started Points-logged

    first_saved :
        s.disk.latest ≡ none
        → s.disk.files ≡ []
        → latest_found codec o (at_disk (saved codec o.retain_completed d s.disk)) ≡ some d
    unfolding load load_pointer sort_by_age insert_by_age select call
    first_saved e f =
        rw
          (
            valid.started,
            e,
            readable-put codec d.id (codec.marshal d) d s.disk.files next.fresh
                (codec.unmarshal-marshal d next.encodable) next.named,
            f,
          )
          refl

    latest_found-saved :
        (latest_found codec o (at_disk (saved codec o.retain_completed d s.disk))
          ≡ latest_found codec o s)
        ⊎ (latest_found codec o (at_disk (saved codec o.retain_completed d s.disk)) ≡ some d)
    latest_found-saved = elim valid.latest_ok [
      | inl (e, h) ↦ inl (
          latest_found-Points codec o (at_disk (saved codec o.retain_completed d s.disk)) e
            valid.started
            (Points-put codec o s.disk.latest s.disk.files e d.id (codec.marshal d) next.fresh h)
          ∙ sym (latest_found-Points codec o s e valid.started h))
      | inr (e, f) ↦ inr (first_saved e f)
    ]

    pub latest_found-Stage :
        (disk : Disk)
        → Stage codec o.retain_completed d s.disk disk
        → (latest_found codec o (at_disk disk) ≡ latest_found codec o s)
          ⊎ (latest_found codec o (at_disk disk) ≡ some d)
    latest_found-Stage disk (inl g) = inl (ap (λ x. latest_found codec o (at_disk x)) g)
    latest_found-Stage disk (inr (inl g)) = rw g latest_found-saved
    latest_found-Stage disk (inr (inr g)) = inr (rw g latest_found-logged)

    completed_found-saved :
        (disk : Disk)
        → is_completed d ≡ false
        → disk.files ≡ put d.id (codec.marshal d) s.disk.files
        → disk.latest_completed ≡ s.disk.latest_completed
        → completed_found codec o (at_disk disk) ≡ completed_found codec o s
    completed_found-saved disk part f e = elim valid.completed_ok [
      | inl (c, h, whole) ↦
          completed_found-Points codec o (at_disk disk) c valid.started
            (rw (e, f)
              (Points-put codec o s.disk.latest_completed s.disk.files c d.id (codec.marshal d)
                next.fresh h))
            whole
          ∙ sym (completed_found-Points codec o s c valid.started h whole)
      | inr (absent, none_whole) ↦
          completed_found-none codec o (at_disk disk) (e ∙ absent) (
            rw
              (
                f,
                readable-put codec d.id (codec.marshal d) d s.disk.files next.fresh
                    (codec.unmarshal-marshal d next.encodable) next.named,
              )
              (All-append _ (readable codec s.disk.files) (d ∷ []) none_whole (part, tt)))
          ∙ sym (completed_found-none codec o s absent none_whole)
    ]

    pub completed_found-Stage :
        (disk : Disk)
        → is_completed d ≡ false
        → Stage codec o.retain_completed d s.disk disk
        → completed_found codec o (at_disk disk) ≡ completed_found codec o s
    completed_found-Stage disk part (inl g) = ap (λ x. completed_found codec o (at_disk x)) g
    completed_found-Stage disk part (inr (inl g)) =
        completed_found-saved disk part (ap (λ x. x.files) g) (ap (λ x. x.latest_completed) g)
    completed_found-Stage disk part (inr (inr g)) =
        completed_found-saved disk part (ap (λ x. x.files) g) (ap (λ x. x.latest_completed) g)

    save-Ends :
        d.status ≡ prepared
        → Ends
            (λ x. x ≡ logged codec o.retain_completed d s.disk)
            (Stage codec o.retain_completed d s.disk)
            (save codec o d s)
    unfolding save
    save-Ends e = rw valid.started (save_prepared codec o.retain_completed d s next e valid.counted)

    pub save-Stage :
        d.status ≡ prepared → Stage codec o.retain_completed d s.disk (save codec o d s).1.disk
    save-Stage e = elim (Bool-cases (save codec o d s).0) [
      | inl ok ↦ inr (inr ((save-Ends e).succeeds ok))
      | inr bad ↦ (save-Ends e).fails bad
    ]

    pub save-IsLogged :
        d.status ≡ prepared → (save codec o d s).0 ≡ true → IsLogged codec o d (save codec o d s).1
    save-IsLogged e ok =
        let g = (save-Ends e).succeeds ok in
        record {
          started = valid.started;
          retains = valid.retains;
          older_files = s.disk.files;
          logged_in = record {
            newest = next;
            counted = valid.counted;
            stored = ap (λ (x : Disk). x.files) g;
            latest = ap (λ (x : Disk). x.latest) g;
          };
        }
