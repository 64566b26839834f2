-- ===== src/Localfs/Store/RoundTrip.antt =====
-- localfs/store.go: Get and Stat after Put.
use micawber.Localfs.Store.Reads.{reads_all, open_object-Reading, ReadsTo, Lasts}
use micawber.Localfs.MediaType.{media_type_for}
use micawber.Core.Asset as Asset
use micawber.Localfs.Store.Held.{put-IsPut}
use micawber.Localfs.Store.Copy.{IsCopied}
use micawber.Localfs.Store.Whole.{IsContent}
use micawber.Localfs.Key.{check_key}
use micawber.Core.Errors.{invalid_value, sentinel, wrapped, err, Result, Error, ok}
use micawber.Core.AssetKey.{AssetKey}
use micawber.Core.Asset.{pos, AssetRef, Asset}
use micawber.Localfs.Disk.{IsDisk, View}
use micawber.Localfs.Root.Object.{Object}
use micawber.Prelude.{
  ◌∙◌, some, String, Option, refl, [], ap, sym, subst, arith, suc, length, Bytes, ℕ, none, ◌≡◌,
}
use micawber.Localfs.Store.{
  put, ref_of, read_failed, stat, regular_entry, get, Stream, checked_key, checked_put, resolve,
  Setup,
}
use micawber.Localfs.Root.{ObjectInfo, rel_name, lstat, Context}

module _ {World Handle : Type 0} (setup : Setup World Handle) (view : View World Handle)
    (disk : IsDisk setup.fs view) where
  resolve-Named :
      (ctx : Context) (op : String) (key : AssetKey) (w : World) (b m : Bytes)
      → Lasts ctx
      → check_key setup.to_upper key ≡ ok tt
      → view.Named w (rel_name key) b m
      → (v : World) × (info : ObjectInfo) × (resolve setup ctx op key w ≡ (v, ok info))
        × (info.size ≡ length b)
        × (info.mod_time ≡ m)
        × view.Named v (rel_name key) b m
  unfolding resolve lstat checked_key regular_entry
  resolve-Named ctx op key w b m lasts portable named =
      let (v, info, looked, regular, sized, dated, still) = disk.looks (rel_name key) b m w named in
      (v, info, rw (lasts.0, portable, looked, regular, resolve) refl, sized, dated, still)

  checked_put-ok :
      (ctx : Context) (a : Asset) (r : Option Stream) {s : Stream}
      → checked_put setup ctx a r ≡ ok s
      → (check_key setup.to_upper a.key ≡ ok tt) × (r ≡ some s)
  unfolding checked_put
  checked_put-ok ctx a r h =
      go ctx.at_start (Asset.validate setup.parses_media_type a) (check_key setup.to_upper a.key) r
        h
    where
      go :
          (o : Option Error) (valid portable : Result (Unit {0})) (r : Option Stream) {s : Stream}
          → (elim o as (λ _. Result Stream) [
            | some e ↦ err (wrapped "localfs: put %q: the context is done: %w" a.key.k e)
            | none ↦ elim valid as (λ _. Result Stream) [
              | err e ↦ err e
              | ok _ ↦ elim portable as (λ _. Result Stream) [
                | err e ↦ err e
                | ok _ ↦ elim r as (λ _. Result Stream) [
                  | none ↦ err (
                      wrapped "localfs: put %q: the reader is nil: %w" a.key.k
                        (sentinel invalid_value))
                  | some s ↦ ok s
                ]
              ]
            ]
          ])
            ≡ ok s
          → (portable ≡ ok tt) × (r ≡ some s)
      go (some e) valid portable r h = cc h
      go none (err e) portable r h = cc h
      go none (ok _) (err e) r h = cc h
      go none (ok _) (ok _) none h = cc h
      go none (ok _) (ok _) (some s) h = (refl, cc h)

  -- What was read from the reader of a Put; and what Get then gives to a caller that reads to the
  -- end, and Stat reports.
  pub record IsReadBack (later : Context) (n : ℕ) (a : Asset) (r : Option Stream) (w : World)
      (ref : AssetRef) : Type 0 where
    pub s : Stream
    pub given : r ≡ some s
    pub content : Bytes
    pub holds : IsContent s content
    pub checked : IsCopied setup a content ref.digest
    pub numbered : ref.size ≡ pos (length content)
    pub found : World
    pub o : Object Handle
    pub got : get setup later a.key w ≡ (found, ok o)
    pub reads : ReadsTo setup o (suc n) 0 found content
    pub seen : World
    pub stated : stat setup later a.key w ≡ (seen, ok (record ref { digest = [] }))

  abbrev without_digest : AssetRef → AssetRef
  without_digest ref = record ref { digest = [] }

  -- What Stat reports of a file, by its size and when it was modified.
  abbrev seen_ref : AssetKey → ℕ → Bytes → AssetRef
  seen_ref key size mod_time = record {
    key = key;
    size = pos size;
    content_type = media_type_for setup.to_lower key setup.media;
    digest = [];
    mod_time = mod_time;
  }

  stat-Named :
      (ctx : Context) (key : AssetKey) (w : World) (b m : Bytes)
      → Lasts ctx
      → check_key setup.to_upper key ≡ ok tt
      → view.Named w (rel_name key) b m
      → (v : World) × (stat setup ctx key w ≡ (v, ok (seen_ref key (length b) m)))
  unfolding stat
  stat-Named ctx key w b m lasts portable named =
      let (v, info, resolved, sized, dated, still) =
        resolve-Named ctx "localfs: stat %q: %w" key w b m lasts portable named in
      (v, rw (resolved, sized, dated, stat) refl)

  -- The object of a key that names these bytes.
  get-Reading :
      (ctx : Context) (key : AssetKey) (w : World) (b m : Bytes)
      → Lasts ctx
      → check_key setup.to_upper key ≡ ok tt
      → view.Named w (rel_name key) b m
      → (v : World) × (f : Handle) × (get setup ctx key w
          ≡ (v, ok (record { ctx = ctx; key = key; f = f })))
        × view.Reading v f b
  unfolding get read_failed
  get-Reading ctx key w b m lasts portable named =
      let (seen, info, resolved, sized, dated, still) =
        resolve-Named ctx "localfs: get %q: %w" key w b m lasts portable named in
      let (v, f, opened, left) = open_object-Reading setup view disk ctx key seen b m still in
      (v, f, rw (resolved, opened, get) refl, left)

  -- Of a file system as IsDisk describes it, and a context of Get and Stat that does not end: when
  -- Put returns a reference, the reader came to its end without an error, and its bytes
  -- have the size declared, if there is one. The reference has their number, and a digest made
  -- of their SHA-256. Get of the key then returns an object that, read with a buffer of any size
  -- above zero, gives exactly those bytes and then the end; and Stat returns the same reference,
  -- but for the digest, which is empty.
  pub put_then_get :
      (ctx later : Context) (a : Asset) (r : Option Stream) (n : ℕ) (w last : World)
      (ref : AssetRef)
      → Lasts later
      → put setup ctx a r w ≡ (last, ok ref)
      → IsReadBack later n a r last ref
  unfolding stat ref_of
  put_then_get ctx later a r n w last ref lasts ran =
      let (s, checked, stored) = put-IsPut setup view disk ctx a r w last ref ran in
      let (portable, given) = checked_put-ok ctx a r checked in
      let (opened, f, got, left) =
        get-Reading later a.key last stored.content stored.info.mod_time lasts portable
          stored.named in
      let (seen, stated) =
        stat-Named later a.key last stored.content stored.info.mod_time lasts portable
          stored.named in
      let same : seen_ref a.key stored.info.size stored.info.mod_time ≡ record ref { digest = [] } =
        sym (ap without_digest stored.reported) in
      record {
        s = s;
        given = given;
        content = stored.content;
        holds = stored.holds;
        checked =
            subst (IsCopied setup a stored.content) (sym (ap (λ x. x.digest) stored.reported))
              stored.checked;
        numbered = ap (λ x. x.size) stored.reported ∙ ap pos stored.sized;
        found = opened;
        o = record { ctx = later; key = a.key; f = f };
        got = got;
        reads =
            reads_all setup view disk (length stored.content)
              (record { ctx = later; key = a.key; f = f }) n 0 opened stored.content (omega arith)
              lasts left;
        seen = seen;
        stated =
            stated
            ∙ ap (λ x. (seen, ok x))
                (ap (λ k. seen_ref a.key k stored.info.mod_time) (sym stored.sized) ∙ same);
      }
