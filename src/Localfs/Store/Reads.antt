-- ===== src/Localfs/Store/Reads.antt =====
-- localfs/root.go: the object that Get returns, read to its end.

use micawber.Core.Errors.{ok}
use micawber.Core.AssetKey.{AssetKey}
use micawber.Localfs.Disk.{IsDisk, View}
use micawber.Localfs.Root.Object.{open_object, ending_at, read_ending, read, Object}
use micawber.Prelude.{
  refl, zero, [], ◌++◌, length-append, ap, ◌+◌, sym, subst, arith, ◌∷◌, suc, ◌≤◌, length, Bytes, ℕ,
  none, ◌≡◌,
}
use micawber.Localfs.Store.{Setup}
use micawber.Localfs.Root.{rel_name, goes_on, Ending, at_eof, Context}

-- A context that does not end.
abbrev pub Lasts : Context → Type 0
Lasts ctx = (ctx.at_start ≡ none) × ((k : ℕ) → ctx.at_read k ≡ none)

module _ {World Handle : Type 0} (setup : Setup World Handle) where
  -- What a caller gets that reads with a buffer of n bytes to the end, by what each read gives.
  pub data ReadsTo (o : Object Handle) (n : ℕ) : ℕ → World → Bytes → Type 0 where
    last_read :
        {k : ℕ} {w v : World} {b : Bytes}
        → read setup.fs o k n w ≡ (v, (b, at_eof))
        → ReadsTo o n k w b
    one_read :
        {k : ℕ} {w v : World} {b c : Bytes}
        → read setup.fs o k n w ≡ (v, (b, goes_on))
        → ReadsTo o n (k + 1) v c
        → ReadsTo o n k w (b ++ c)

  module _ (view : View World Handle) (disk : IsDisk setup.fs view) where
    -- One read of a context that lasts is the file's own.
    read-Lasts :
        (o : Object Handle) (k n : ℕ) (w : World) {out : World × (Bytes × Ending)}
        → Lasts o.ctx
        → setup.fs.read o.f n w ≡ out
        → read setup.fs o k n w ≡ read_ending o.key out
    unfolding read ending_at
    read-Lasts o k n w lasts ran = rw (lasts.1 k, ran, read) refl

    pub reads_all :
        (size : ℕ) (o : Object Handle) (n k : ℕ) (w : World) (b : Bytes)
        → length b ≤ size
        → Lasts o.ctx
        → view.Reading w o.f b
        → ReadsTo o (suc n) k w b
    unfolding ending_at
    reads_all size o n k w [] fits lasts left =
        let (v, ran) = disk.ends o.f (suc n) w left in
        ReadsTo.last_read (read-Lasts o k (suc n) w lasts ran)
    reads_all zero o n k w (c ∷ b) fits lasts left = absurd (omega arith)
    reads_all (suc size) o n k w (c ∷ b) fits lasts left =
        let p = disk.reads o.f n c b w left in
        subst (ReadsTo o (suc n) k w) (sym p.splits) (
          ReadsTo.one_read (read-Lasts o k (suc n) w lasts p.gives) (
            reads_all size o n (k + 1) p.later p.rest
              (omega (arith, p.some_bytes, fits, ap length p.splits, length-append p.piece p.rest))
              lasts p.remains))

    pub open_object-Reading :
        (ctx : Context) (key : AssetKey) (w : World) (b m : Bytes)
        → view.Named w (rel_name key) b m
        → (v : World) × (f : Handle) × (open_object setup.fs ctx key w
            ≡ (v, ok (record { ctx = ctx; key = key; f = f })))
          × view.Reading v f b
    unfolding open_object
    open_object-Reading ctx key w b m named =
        let (seen, f, opened, to_read) = disk.opens (rel_name key) b m w named in
        let (v, info, stated, regular, left) = disk.inspects f b seen to_read in
        (v, f, rw (opened, stated, regular, open_object) refl, left)
