-- ===== src/Localfs/Root/Held.antt =====
-- localfs/root.go: what a temporary file holds, and what stands under a name when it is published.
use micawber.Localfs.Errors.{is_cause, classify}
use micawber.Core.Program.{◌>>=◌, >>=-steps, or_fail, Program, next_step}
use micawber.Core.Errors.{name_taken, err, ok, Error, Result}
use micawber.Prelude.{
  false, true, zero, Bool, subst, ◌∙◌, codes, refl, sym, is_nil, suc, if◌then◌else◌, ap, [], length,
  ◌≡◌, ℕ, Bytes,
}
use micawber.Localfs.Disk.{IsDisk, View}
use micawber.Localfs.Root.{
  temp_name, classified, or_next, after_stat, commit, after_sync, after_close, after_rename,
  flush_dir, Progress, ObjectInfo, create_named, TempFile, sync_dir, create_temp, named_temp,
  FileSystem,
}

module _ {World Handle : Type 0} (fs : FileSystem World Handle) (view : View World Handle)
    (disk : IsDisk fs view) where
  named_temp-Filling :
      (d name : Bytes) (again : Error → Program World (TempFile Handle)) (w v last : World)
      (r : Result Handle) {t : TempFile Handle}
      → fs.create_new name w ≡ (v, r)
      → ((e : Error) (x : World) → again e x ≡ (last, ok t) → view.Filling last t.file t.name [])
      → or_fail (or_next fs again) (named_temp fs d name (classified r)) v ≡ (last, ok t)
      → view.Filling last t.file t.name []
  unfolding named_temp
  named_temp-Filling d name again w v last (ok f) {t} made rest ran =
      let there : v ≡ last = ap (λ o. o.0) ran in
      let same : record { dir = d; name = name; file = f } ≡ t = cc (ap (λ o. o.1) ran) in
      subst (λ x. view.Filling x t.file t.name []) there
        (subst (λ u. view.Filling v u.file u.name []) same (disk.creates name w v f made))
  named_temp-Filling d name again w v last (err e) {t} made rest ran =
      go (is_cause (classify e) name_taken) ran
    where
      go :
          (taken : Bool)
          → or_fail (or_next fs again) (if taken then ok (err (classify e)) else err (classify e)) v
            ≡ (last, ok t)
          → view.Filling last t.file t.name []
      go true ran = rest (classify e) v ran
      go false ran = cc (ap (λ o. o.1) ran)

  pub create_temp-Filling :
      (n : ℕ) (d : Bytes) (e : Error) (w last : World) {t : TempFile Handle}
      → create_temp fs n d e w ≡ (last, ok t)
      → view.Filling last t.file t.name []
  unfolding create_temp create_named
  create_temp-Filling zero d e w last ran = cc (ap (λ o. o.1) ran)
  create_temp-Filling (suc n) d e w last {t} ran =
      let (v, raw, drawn, attempted) =
        >>=-steps fs.random
          (λ raw. create_named fs d (temp_name d raw) >>= or_next fs (create_temp fs n d)) w ran in
      named_temp-Filling d (temp_name d raw) (create_temp fs n d) v
        (fs.create_new (temp_name d raw) v).0 last (fs.create_new (temp_name d raw) v).1 refl
        (λ e x. create_temp-Filling n d e x last) attempted

  sync_dir-Named :
      (d name b m : Bytes) (w : World)
      → view.Named w name b m
      → view.Named (sync_dir fs d w).0 name b m
  unfolding sync_dir
  sync_dir-Named d name b m w named =
      let opened = if is_nil d then codes "." else d in
      go (fs.open_file opened w) (disk.opens_other opened name b m w named)
    where
      go :
          (out : World × Result Handle)
          → view.Named out.0 name b m
          → view.Named (next_step (flush_dir fs) out).0 name b m
      go (v, ok f) named = disk.closes f name b m (fs.sync f v).0 (disk.syncs f name b m v named)
      go (v, err e) named = named

  -- The file stands under the name, and the commit tells its length.
  abbrev pub IsHeld : Bytes → Bytes → World → ObjectInfo → Type 0
  IsHeld name b last info = (info.size ≡ length b) × view.Named last name b info.mod_time

  -- A commit that returned what it learnt of the file.
  abbrev Came : World × Result (Progress × Result ObjectInfo) → World → ObjectInfo → Type 0
  Came out last info = (done : Progress) × (out ≡ (last, ok (done, ok info)))

  module _ (t : TempFile Handle) (name b : Bytes) (last : World) (info : ObjectInfo) where
    after_rename-IsHeld :
        (seen : ObjectInfo) (w v : World) (r : Result (Unit {0}))
        → fs.rename t.name name w ≡ (v, r)
        → seen.size ≡ length b
        → view.Named w t.name b seen.mod_time
        → Came (after_rename fs t seen r v) last info
        → IsHeld name b last info
    unfolding after_rename
    after_rename-IsHeld seen w v (err e) ran sized named (done, came) = cc (ap (λ o. o.1) came)
    after_rename-IsHeld seen w v (ok _) ran sized named (done, came) =
        let there : (sync_dir fs t.dir v).0 ≡ last = ap (λ o. o.0) came in
        let same : seen ≡ info = cc (ap (λ o. o.1) came) in
        (
          sym (ap (λ i. i.size) same) ∙ sized,
          subst (λ i. view.Named last name b i.mod_time) same
              (subst (λ x. view.Named x name b seen.mod_time) there
                (sync_dir-Named t.dir name b seen.mod_time v
                  (disk.renames t.name name b seen.mod_time w v named ran))),
        )

    after_close-IsHeld :
        (seen : ObjectInfo) (w : World) (r : Result (Unit {0}))
        → seen.size ≡ length b
        → view.Named w t.name b seen.mod_time
        → Came (after_close fs t name seen r w) last info
        → IsHeld name b last info
    unfolding after_close
    after_close-IsHeld seen w (err e) sized named (done, came) = cc (ap (λ o. o.1) came)
    after_close-IsHeld seen w (ok _) sized named came =
        after_rename-IsHeld seen w (fs.rename t.name name w).0 (fs.rename t.name name w).1 refl
          sized named came

    after_sync-IsHeld :
        (seen : ObjectInfo) (w : World) (r : Result (Unit {0}))
        → seen.size ≡ length b
        → view.Named w t.name b seen.mod_time
        → Came (after_sync fs t name seen r w) last info
        → IsHeld name b last info
    unfolding after_sync
    after_sync-IsHeld seen w (err e) sized named (done, came) = cc (ap (λ o. o.1) came)
    after_sync-IsHeld seen w (ok _) sized named came =
        after_close-IsHeld seen (fs.close t.file w).0 (fs.close t.file w).1 sized
          (disk.closes t.file t.name b seen.mod_time w named) came

    pub commit-IsHeld :
        (w : World)
        → view.Filling w t.file t.name b
        → Came (commit fs t name w) last info
        → IsHeld name b last info
    unfolding commit after_stat
    commit-IsHeld w filling came = go (fs.stat t.file w) refl came
      where
        go :
            (q : World × Result ObjectInfo)
            → fs.stat t.file w ≡ q
            → Came (after_stat fs t name q.1 q.0) last info
            → IsHeld name b last info
        go (v, err e) ran (done, came) = cc (ap (λ o. o.1) came)
        go (v, ok seen) ran came =
            let (sized, named) = disk.measures t.file t.name b w v seen filling ran in
            after_sync-IsHeld seen (fs.sync t.file v).0 (fs.sync t.file v).1 sized
              (disk.syncs t.file t.name b seen.mod_time v named) came
