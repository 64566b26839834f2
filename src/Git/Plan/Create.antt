-- ===== src/Git/Plan/Create.antt =====
-- git/repository.go: what planCreate checks before it plans a write.
use micawber.Prelude.{
  refl, subst, arith, [], inr, ◌∷◌, not, ◌⊎◌, true, inl, false, ◌≡◌, Bool, Bytes,
}
use micawber.Core.Content.{Content}
use micawber.Core.Errors.{wrap, ok, refuse-ok_iff}
use micawber.Core.Program.{lift, >>=-ok}
use micawber.Git.Object.{ObjectId, BatchEntry}
use micawber.Git.Plan.{Commands, Planned, place, plan_create, path_is_free, write_blob}
use micawber.Markdown.Codec.{Codecs}
use micawber.Markdown.Serialize.{format}

module _ {World : Type 0} (git : Commands World) where
  -- The branch has no commit, or nothing is at the path in its commit.
  abbrev pub IsFree : ObjectId → Bytes → Bool → World → Type 0
  IsFree parent path born w =
      (born ≡ false)
      ⊎ ((entry : BatchEntry) × ((git.cat_file parent path w).1 ≡ ok entry)
          × (entry.missing ≡ true))

  module _ (cs : Codecs) (c : Content) (path : Bytes) (parent : ObjectId) where
    path_is_free-IsFree :
        (born : Bool) (w : World)
        → (path_is_free cs git c path parent born w).1 ≡ ok tt
        → IsFree parent path born w
    unfolding path_is_free
    path_is_free-IsFree false w h = inl refl
    path_is_free-IsFree true w h =
        let (entry, read, checked) = >>=-ok (git.cat_file parent path) _ w h in
        let passed = (refuse-ok_iff (not entry.missing) _).0 checked in
        inr (entry, read, ground arith)

    pub plan_create-guarded :
        (born : Bool) (w : World) {r : Planned}
        → (plan_create cs git c path parent born w).1 ≡ ok r
        → IsFree parent path born w × (r.wanted ≡ true) × (r.edits ≡ place path r.revision ∷ [])
    unfolding plan_create write_blob
    plan_create-guarded born w {r} h =
        let (_, free, rest) = >>=-ok (path_is_free cs git c path parent born) _ w h in
        let (written, made, stored) =
          >>=-ok (lift (wrap "git: serialize %q: %w" c.path.p (format cs c)))
            (write_blob cs git path) _ rest in
        let (blob, hashed, planned) = >>=-ok (git.hash_object written) _ _ stored in
        let one : Planned = record {
          edits = place path blob ∷ [];
          revision = blob;
          wanted = true;
        } in
        let e : one ≡ r = cc planned in
        subst
          (λ (q : Planned).
            IsFree parent path born w × (q.wanted ≡ true) × (q.edits ≡ place path q.revision ∷ []))
          e (path_is_free-IsFree born w free, refl, refl)
