-- ===== src/Localfs/Store/Held.antt =====
-- localfs/store.go: what stands under the key when Put succeeds.
use micawber.Localfs.Errors.{write_error}
use micawber.Localfs.Root.Held.{commit-IsHeld, create_temp-Filling}
use micawber.Localfs.Store.Copy.{copy_into-world, copy_into-IsCopied, IsCopied}
use micawber.Core.Digest.{Digest}
use micawber.Localfs.Store.Whole.{copy_from-IsContent, IsContent}
use micawber.Core.Errors.{err, Result, Error, ok}
use micawber.Prelude.{refl, ◌∙◌, sym, subst, length, ap, [], Bytes, Option, ◌≡◌}
use micawber.Core.AssetKey.{AssetKey}
use micawber.Localfs.Root.{
  create_temp, temp_attempts, rel_dir, commit, rel_name, ObjectInfo, Progress, TempFile, Context,
}
use micawber.Core.Asset.{AssetRef, Asset}
use micawber.Localfs.Disk.{IsDisk, View}
use micawber.Localfs.Store.{
  committed, filled, limit_of, copy_from, ref_of, open_progress, make_dir, copy_into, checked_put,
  writing, fill_temp, Stream, temp_in, put, aborted, make_temp, write_failed, Setup,
}
use micawber.Core.Program.{lift, or_fail, >>=-steps, next_step, Program, ◌>>=◌}

module _ {World Handle : Type 0} (setup : Setup World Handle) (view : View World Handle)
    (disk : IsDisk setup.fs view) where
  writing-ok :
      {A : Type 0} (key : AssetKey) (m : Program World A) (w last : World) {a : A}
      → writing setup key m w ≡ (last, ok a)
      → m w ≡ (last, ok a)
  unfolding write_failed
  writing-ok {A = A} key m w last {a} ran = go (m w) ran
    where
      go :
          (out : World × Result A)
          → next_step (λ r. lift (write_failed setup key r)) out ≡ (last, ok a)
          → out ≡ (last, ok a)
      go (v, ok x) ran = ran
      go (v, err e) ran = cc (ap (λ o. o.1) ran)

  make_temp-Filling :
      (key : AssetKey) (w last : World) {t : TempFile Handle}
      → make_temp setup key w ≡ (last, ok t)
      → view.Filling last t.file t.name []
  unfolding make_temp temp_in
  make_temp-Filling key w last ran =
      let (v, done, made, rest) =
        >>=-steps (make_dir setup key (rel_dir key)) (λ _. temp_in setup key (rel_dir key).0) w
          ran in
      create_temp-Filling setup.fs view disk temp_attempts (rel_dir key).0 (Error.foreign []) v last
        (writing-ok key (create_temp setup.fs temp_attempts (rel_dir key).0 (Error.foreign [])) v
          last rest)

  -- The reader came to an end, its bytes have the declared size and stand under the key, and what
  -- Put reports is true of them.
  pub record IsPut (a : Asset) (s : Stream) (last : World) (ref : AssetRef) : Type 0 where
    pub content : Bytes
    pub holds : IsContent s content
    pub digest : Digest
    pub checked : IsCopied setup a content digest
    pub info : ObjectInfo
    pub named : view.Named last (rel_name a.key) content info.mod_time
    pub sized : info.size ≡ length content
    pub reported : ref ≡ ref_of setup a digest info

  aborted-fails :
      {A : Type 0} (t : TempFile Handle) (done : Progress) (e : Error) (w last : World) {x : A}
      → aborted setup t done e w ≡ (last, ok x)
      → ⊥
  unfolding aborted
  aborted-fails t done e w last h = cc (ap (λ o. o.1) h)

  module _ (ctx : Context) (a : Asset) (s : Stream) (t : TempFile Handle) (last : World)
      (ref : AssetRef) where
    committed-IsPut :
        (bytes : Bytes) (digest : Digest) (w v : World) (r : Result (Progress × Result ObjectInfo))
        → IsContent s bytes
        → IsCopied setup a bytes digest
        → view.Filling w t.file t.name bytes
        → commit setup.fs t (rel_name a.key) w ≡ (v, r)
        → committed setup a t digest r v ≡ (last, ok ref)
        → IsPut a s last ref
    unfolding committed
    committed-IsPut bytes digest w v (err e) holds checked filling ran h =
        absurd (aborted-fails t open_progress e v last h)
    committed-IsPut bytes digest w v (ok (done, err e)) holds checked filling ran h =
        absurd (aborted-fails t done (write_error "localfs: put %q: %w" a.key e) v last h)
    committed-IsPut bytes digest w v (ok (done, ok info)) holds checked filling ran h =
        let (sized, named) =
          commit-IsHeld setup.fs view disk t (rel_name a.key) bytes v info w filling (done, ran) in
        record {
          content = bytes;
          holds = holds;
          digest = digest;
          checked = checked;
          named =
              subst (λ x. view.Named x (rel_name a.key) bytes info.mod_time) (ap (λ o. o.0) h)
                named;
          info = info;
          sized = sized;
          reported = sym (cc (ap (λ o. o.1) h));
        }

    filled-IsPut :
        (w v : World) (r : Result Digest)
        → view.Filling w t.file t.name []
        → copy_into setup ctx t a s w ≡ (v, r)
        → filled setup a t r v ≡ (last, ok ref)
        → IsPut a s last ref
    unfolding filled
    filled-IsPut w v (err e) filling copied h = absurd (aborted-fails t open_progress e v last h)
    filled-IsPut w v (ok digest) filling copied h =
        let (bytes, read, checked) = copy_into-IsCopied setup ctx t a s w (ap (λ o. o.1) copied) in
        let there : (copy_from setup ctx t (limit_of a.size) 0 [] s w).0 ≡ v =
          sym (copy_into-world setup ctx t a s w) ∙ ap (λ o. o.0) copied in
        let (holds, filled) =
          copy_from-IsContent setup view disk ctx t a.size s w v bytes filling checked.sized (
            ap (λ x. (x, (copy_from setup ctx t (limit_of a.size) 0 [] s w).1)) there
            ∙ ap (λ y. (v, y)) read) in
        committed-IsPut bytes digest v (commit setup.fs t (rel_name a.key) v).0
          (commit setup.fs t (rel_name a.key) v).1 holds checked filled refl h

  pub put-IsPut :
      (ctx : Context) (a : Asset) (r : Option Stream) (w last : World) (ref : AssetRef)
      → put setup ctx a r w ≡ (last, ok ref)
      → (s : Stream) × (checked_put setup ctx a r ≡ ok s) × IsPut a s last ref
  unfolding put fill_temp
  put-IsPut ctx a r w last ref ran = go (checked_put setup ctx a r) refl ran
    where
      go :
          (c : Result Stream)
          → checked_put setup ctx a r ≡ c
          → or_fail (λ s. make_temp setup a.key >>= fill_temp setup ctx a s) c w ≡ (last, ok ref)
          → (s : Stream) × (checked_put setup ctx a r ≡ ok s) × IsPut a s last ref
      go (err e) checked ran = cc (ap (λ o. o.1) ran)
      go (ok s) checked ran =
          let (v, t, made, filled) =
            >>=-steps (make_temp setup a.key) (fill_temp setup ctx a s) w ran in
          (
            s,
            checked,
            filled-IsPut ctx a s t last ref v (copy_into setup ctx t a s v).0
                (copy_into setup ctx t a s v).1 (make_temp-Filling a.key w v made) refl filled,
          )
