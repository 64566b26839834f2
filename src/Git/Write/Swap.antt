-- ===== src/Git/Write/Swap.antt =====
-- git/repository.go: Put and Delete as compare-and-swap operations on the document.
use micawber.Prelude.{ap, inr, false, inl, ◌⊎◌, refl, Bool-cases, true, ◌≡◌, Bool, ℕ, Bytes}
use micawber.Core.Change.{Change}
use micawber.Core.Collection.{Collection}
use micawber.Core.Content.{Content, Revision, revision_is_zero}
use micawber.Core.Errors.{Result, ok, err, Error}
use micawber.Git.Apply.{Backend, Meanwhile, apply, prepare}
use micawber.Core.Program.Invariant.{Keeps}
use micawber.Git.Apply.Prepared.{prepare-IsPrepared}
use micawber.Git.Apply.Safety.{IsCut, IsWritten, IsOutcome, apply-IsOutcome}
use micawber.Git.Object.{ObjectId, BatchEntry}
use micawber.Git.Plan.{Commands, Planned}
use micawber.Git.Plan.Create.{IsFree, plan_create-guarded}
use micawber.Git.Plan.Guards.{IsStored, plan_update-guarded}
use micawber.Core.Program.{or_fail}
use micawber.Git.Write.{checked_put, put_plan, put}
use micawber.Markdown.Codec.{Codecs}

module _ (cs : Codecs) {World : Type 0} (git : Commands World) (root : Collection)
    (backend : Change → Backend World) (meanwhile : Meanwhile World) (Kept : World → Type 0) where
  -- What the caller of Put expects of the document, in the commit that the write is built on, as
  -- cat-file shows it in a world: with no revision, that the path is free; with one, that the blob
  -- there has it.
  abbrev pub IsExpected : Content → Bytes → ObjectId → Bool → World → Type 0
  IsExpected c path parent born w =
      ((revision_is_zero c.revision ≡ true) × IsFree git parent path born w)
      ⊎ ((revision_is_zero c.revision ≡ false)
          × ((entry : BatchEntry) × IsStored git parent path born w entry
              × (entry.oid ≡ c.revision)))

  -- What a write that succeeded did: checked, expected where it was built, and published on the
  -- commit that it was built on.
  pub record IsSwap (c : Content) (ch : Change) (last : World) (rev : Revision) : Type 0 where
    pub path : Bytes
    pub checked : checked_put root c ch ≡ ok path
    pub written : IsWritten (backend ch) (put_plan cs git c path) meanwhile Kept last rev
    pub read : ((backend ch).head written.start).1 ≡ ok (written.a.parent, written.a.born)
    pub expected :
        IsExpected c path written.a.parent written.a.born ((backend ch).head written.start).0

  abbrev pub IsPut : Content → Change → World × Result Revision → Type 0
  IsPut c ch (last, ok rev) = IsSwap c ch last rev
  IsPut c ch (last, err e) =
      Kept last
      ⊎ ((path : Bytes) × (checked_put root c ch ≡ ok path)
          × IsCut (backend ch) (put_plan cs git c path) meanwhile Kept last e)

  put_plan-IsExpected :
      (c : Content) (path : Bytes) (parent : ObjectId) (born : Bool) (w : World) {r : Planned}
      → (put_plan cs git c path parent born w).1 ≡ ok r
      → IsExpected c path parent born w
  unfolding put_plan
  put_plan-IsExpected c path parent born w h = elim (Bool-cases (revision_is_zero c.revision)) [
    | inl none_held ↦ inl (
      none_held,
      (plan_create-guarded git cs c path parent born w (rw (none_held, put_plan) at h)).0,
    )
    | inr held ↦
        let (entry, stored, same, update) =
          plan_update-guarded cs git c path parent born w (rw (held, put_plan) at h) in
        inr (held, (entry, stored, same))
  ]

  module _ (reads : (k : ℕ) (w : World) → Kept w → Kept (meanwhile.before_read k w))
      (waits : (k : ℕ) (w : World) → Kept w → Kept (meanwhile.before_publish k w))
      (prepares : (c : Content) (ch : Change) (path : Bytes)
        → Keeps Kept (prepare (backend ch) (put_plan cs git c path)))
      (refused : (ch : Change) (k : ℕ) (w last : World) (old next : ObjectId) (born : Bool)
          (e : Error)
        → meanwhile.ended_in_publish k last ≡ false
        → Kept w
        → (backend ch).publish old next born w ≡ (last, err e)
        → Kept last) where
    written-IsPut :
        (c : Content) (ch : Change) (path : Bytes) (out : World × Result Revision)
        → checked_put root c ch ≡ ok path
        → IsOutcome (backend ch) (put_plan cs git c path) meanwhile Kept out
        → IsPut c ch out
    written-IsPut c ch path (last, err e) checked (inl kept) = inl kept
    written-IsPut c ch path (last, err e) checked (inr cut) = inr (path, checked, cut)
    written-IsPut c ch path (last, ok rev) checked written =
        let prepared =
          prepare-IsPrepared (backend ch) (put_plan cs git c path) written.start
            (ap (λ out. out.1) written.prepared) in
        record {
          path = path;
          checked = checked;
          written = written;
          read = prepared.read;
          expected = put_plan-IsExpected c path written.a.parent written.a.born _ prepared.made;
        }

    -- For every property Kept of the world that other writers keep, that preparing an attempt
    -- keeps and that a publish keeps when it fails before the context ends: when Put returns an
    -- error, the last world has the property, or is what a publish made that failed behind the end
    -- of the context. When it returns a revision, content and change passed their validation,
    -- and the attempt that it reports was built on the commit that the branch then had. Of a
    -- content without a revision nothing stood at the path there; of one with a revision a blob
    -- with that revision did. The last world is what a successful publish on that commit made, or
    -- the world behind the plan when no byte would have changed.
    pub put-IsPut :
        (c : Content) (ch : Change) (w : World)
        → Kept w
        → IsPut c ch (put cs git root backend meanwhile c ch w)
    unfolding put
    put-IsPut c ch w kept = go (checked_put root c ch) refl
      where
        go :
            (r : Result Bytes)
            → checked_put root c ch ≡ r
            → IsPut c ch
                (or_fail (λ path. apply (backend ch) (put_plan cs git c path) meanwhile) r w)
        go (err e) checked = inl kept
        go (ok path) checked =
            written-IsPut c ch path (apply (backend ch) (put_plan cs git c path) meanwhile w)
              checked
              (apply-IsOutcome (backend ch) (put_plan cs git c path) meanwhile Kept reads waits
                (prepares c ch path) (refused ch) w kept)
