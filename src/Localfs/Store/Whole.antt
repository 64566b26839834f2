-- ===== src/Localfs/Store/Whole.antt =====
-- localfs/store.go: a Put that succeeds copies the whole of its reader.
use micawber.Localfs.Store.Room.{
  used_up, HasRoom-less_by, within-whole, stopped-ok, HasRoom-limit_of, HasRoom,
}
use micawber.Localfs.Store.Copy.{HasSize}
use micawber.Core.Asset.{Size}
use micawber.Core.Program.{◌>>◌, or_fail, next_step, Program, lift}
use micawber.Core.Errors.{err, Result, ok}
use micawber.Localfs.Root.{classified, write_temp, TempFile, Context}
use micawber.Localfs.Disk.{IsDisk, View}
use micawber.Prelude.{
  append_assoc, append-nil, ◌∙◌, sym, subst, refl, none, ap, ◌+◌, ◌++◌, [], ◌≡◌, length, some,
  Bytes, ℕ, Option,
}
use micawber.Localfs.Store.{
  limit_of, unless, breaks, copy_from, chunk, within, less_by, eof, stopped, Setup, Stream,
}

-- The bytes of a reader that ends without an error.
pub data IsContent : Stream → Bytes → Type 0 where
  at_end : IsContent eof []
  in_chunk :
      (b : Bytes) {rest : Stream} {c : Bytes} → IsContent rest c → IsContent (chunk b rest) (b ++ c)

module _ {World Handle : Type 0} (setup : Setup World Handle) where
  module _ (view : View World Handle) (disk : IsDisk setup.fs view) (ctx : Context)
      (t : TempFile Handle) where
    -- The rest of the reader was written behind what was copied before.
    record IsWhole (copied : Bytes) (s : Stream) (last : World) (out : Bytes) : Type 0 where
      pub rest : Bytes
      pub holds : IsContent s rest
      pub joined : out ≡ copied ++ rest
      pub fills : view.Filling last t.file t.name out

    stopped-IsWhole :
        (limit : Option ℕ) (k : ℕ) (copied out : Bytes) (r : Result Bytes) (w last : World)
        → stopped setup ctx limit k copied ≡ some r
        → HasRoom limit copied out
        → lift r w ≡ (last, ok out)
        → ⊥
    stopped-IsWhole limit k copied out (err e) w last h room ran = cc (ap (λ o. o.1) ran)
    stopped-IsWhole limit k copied out (ok x) w last h room ran =
        let (same, at) = stopped-ok setup ctx limit k copied x h in
        let e : out ≡ copied = cc (ap (λ o. o.1) ran, same) in
        used_up setup limit copied at (subst (HasRoom limit copied) e room)

    nothing_left :
        (copied : Bytes) (w last : World) (out : Bytes)
        → view.Filling w t.file t.name copied
        → lift (ok copied) w ≡ (last, ok out)
        → IsWhole copied eof last out
    nothing_left copied w last out filling ran =
        let here : w ≡ last = ap (λ o. o.0) ran in
        let same : copied ≡ out = cc (ap (λ o. o.1) ran) in
        record {
          rest = [];
          holds = IsContent.at_end;
          joined = sym same ∙ sym (append-nil copied);
          fills =
              subst (λ v. view.Filling v t.file t.name out) here
                (subst (view.Filling w t.file t.name) same filling);
        }

    then_rest :
        (limit : Option ℕ) (b copied : Bytes) (rest : Stream) (last : World) (out : Bytes)
        → HasRoom limit copied out
        → IsWhole (copied ++ within limit b) rest last out
        → IsWhole copied (chunk b rest) last out
    then_rest limit b copied rest last out room whole =
        let all_of_it = within-whole limit copied b whole.rest out whole.joined room in
        record {
          rest = b ++ whole.rest;
          holds = IsContent.in_chunk b whole.holds;
          joined =
              whole.joined
              ∙ ap (λ p. (copied ++ p) ++ whole.rest) all_of_it
              ∙ append_assoc copied b whole.rest;
          fills = whole.fills;
        }

    -- One turn, where the later ones write the rest.
    turn-IsWhole :
        (limit : Option ℕ) (k : ℕ) (copied b : Bytes) (rest : Stream) (later : Program World Bytes)
        (w last : World) (out : Bytes)
        → HasRoom limit copied out
        → ((v : World)
            → view.Filling v t.file t.name (copied ++ within limit b)
            → later v ≡ (last, ok out)
            → IsWhole (copied ++ within limit b) rest last out)
        → view.Filling w t.file t.name copied
        → unless setup
            (stopped setup ctx limit k copied)
            (write_temp setup.fs t (within limit b) >> later)
            w
          ≡ (last, ok out)
        → IsWhole copied (chunk b rest) last out
    unfolding write_temp
    turn-IsWhole limit k copied b rest later w last out room whole filling ran =
        go (stopped setup ctx limit k copied) refl ran
      where
        wrote :
            (q : World × Result (Unit {0}))
            → setup.fs.write t.file (within limit b) w ≡ q
            → next_step (or_fail (λ _. later)) (next_step (λ r. lift (classified r)) q)
              ≡ (last, ok out)
            → IsWhole copied (chunk b rest) last out
        wrote (v, err e) written ran = cc (ap (λ o. o.1) ran)
        wrote (v, ok _) written ran =
            then_rest limit b copied rest last out room
              (whole v (disk.appends t.file t.name copied (within limit b) w v filling written) ran)

        go :
            (o : Option (Result Bytes))
            → stopped setup ctx limit k copied ≡ o
            → unless setup o (write_temp setup.fs t (within limit b) >> later) w ≡ (last, ok out)
            → IsWhole copied (chunk b rest) last out
        go (some r) h ran = absurd (stopped-IsWhole limit k copied out r w last h room ran)
        go none h ran = wrote (setup.fs.write t.file (within limit b) w) refl ran

    copy_from-IsWhole :
        (limit : Option ℕ) (k : ℕ) (copied : Bytes) (s : Stream) (w last : World) (out : Bytes)
        → view.Filling w t.file t.name copied
        → HasRoom limit copied out
        → copy_from setup ctx t limit k copied s w ≡ (last, ok out)
        → IsWhole copied s last out
    unfolding copy_from write_temp
    copy_from-IsWhole limit k copied eof w last out filling room ran =
        go (stopped setup ctx limit k copied) refl ran
      where
        go :
            (o : Option (Result Bytes))
            → stopped setup ctx limit k copied ≡ o
            → lift (elim o as (λ _. Result Bytes) [ some r ↦ r | none ↦ ok copied ]) w
              ≡ (last, ok out)
            → IsWhole copied eof last out
        go (some r) h ran = absurd (stopped-IsWhole limit k copied out r w last h room ran)
        go none h ran = nothing_left copied w last out filling ran
    copy_from-IsWhole limit k copied (breaks e) w last out filling room ran =
        go (stopped setup ctx limit k copied) refl ran
      where
        go :
            (o : Option (Result Bytes))
            → stopped setup ctx limit k copied ≡ o
            → lift (elim o as (λ _. Result Bytes) [ some r ↦ r | none ↦ err e ]) w ≡ (last, ok out)
            → IsWhole copied (breaks e) last out
        go (some r) h ran = absurd (stopped-IsWhole limit k copied out r w last h room ran)
        go none h ran = cc (ap (λ o. o.1) ran)
    copy_from-IsWhole limit k copied (chunk b rest) w last out filling room ran =
        let piece = within limit b in
        turn-IsWhole limit k copied b rest
          (copy_from setup ctx t (less_by limit (length piece)) (k + 1) (copied ++ piece) rest) w
          last out room
          (λ v filled.
            copy_from-IsWhole (less_by limit (length piece)) (k + 1) (copied ++ piece) rest v last
              out filled (HasRoom-less_by limit copied b out room))
          filling ran

    -- The bytes that were copied are those of the reader, when they have the declared size.
    pub copy_from-IsContent :
        (size : Size) (s : Stream) (w last : World) (out : Bytes)
        → view.Filling w t.file t.name []
        → HasSize size (length out)
        → copy_from setup ctx t (limit_of size) 0 [] s w ≡ (last, ok out)
        → IsContent s out × view.Filling last t.file t.name out
    copy_from-IsContent size s w last out filling sized ran =
        let whole =
          copy_from-IsWhole (limit_of size) 0 [] s w last out filling
            (HasRoom-limit_of setup ctx t size s w last out sized ran) ran in
        (subst (IsContent s) (sym whole.joined) whole.holds, whole.fills)
