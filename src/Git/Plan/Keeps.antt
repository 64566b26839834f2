-- ===== src/Git/Plan/Keeps.antt =====
-- git/repository.go: a plan keeps what its two commands keep.
use micawber.Core.Content.{Content}
use micawber.Core.ContentPath.{ContentPath}
use micawber.Core.Content.{Revision}
use micawber.Core.Errors.{wrap}
use micawber.Core.Program.{lift}
use micawber.Core.Program.Invariant.{Keeps, Keeps-bind}
use micawber.Git.Object.{ObjectId, BatchEntry}
use micawber.Git.Plan.{
  Commands, plan_create, plan_update, plan_delete, path_is_free, write_blob, stored_blob, rewrite,
  serialize_into,
}
use micawber.Go.Text.{equal}
use micawber.Markdown.Codec.{Codecs}
use micawber.Markdown.Serialize.{format}
use micawber.Prelude.{if-elim, true, false, Bool, Bytes}

module _ (cs : Codecs) {World : Type 0} (git : Commands World) (Kept : World → Type 0)
    (reads : (parent : ObjectId) (path : Bytes) → Keeps Kept (git.cat_file parent path))
    (hashes : (b : Bytes) → Keeps Kept (git.hash_object b)) where
  Keeps-write_blob : (path written : Bytes) → Keeps Kept (write_blob cs git path written)
  unfolding write_blob
  Keeps-write_blob path written =
      Keeps-bind Kept (git.hash_object written) _ (hashes written) (λ blob w h. h)

  Keeps-path_is_free :
      (c : Content) (path : Bytes) (parent : ObjectId) (born : Bool)
      → Keeps Kept (path_is_free cs git c path parent born)
  unfolding path_is_free
  Keeps-path_is_free c path parent false = λ w h. h
  Keeps-path_is_free c path parent true =
      Keeps-bind Kept (git.cat_file parent path) _ (reads parent path) (λ entry w h. h)

  pub Keeps-plan_create :
      (c : Content) (path : Bytes) (parent : ObjectId) (born : Bool)
      → Keeps Kept (plan_create cs git c path parent born)
  unfolding plan_create
  Keeps-plan_create c path parent born =
      Keeps-bind Kept (path_is_free cs git c path parent born) _
        (Keeps-path_is_free c path parent born)
        (λ _.
          Keeps-bind Kept (lift (wrap "git: serialize %q: %w" c.path.p (format cs c)))
            (write_blob cs git path) (λ w h. h) (Keeps-write_blob path))

  Keeps-stored_blob :
      (p : ContentPath) (path : Bytes) (parent : ObjectId) (born : Bool)
      → Keeps Kept (stored_blob cs git p path parent born)
  unfolding stored_blob
  Keeps-stored_blob p path parent false = λ w h. h
  Keeps-stored_blob p path parent true =
      Keeps-bind Kept (git.cat_file parent path) _ (reads parent path)
        (λ entry. Keeps-bind Kept (lift _) _ (λ w h. h) (λ _ w h. h))

  Keeps-rewrite :
      (c : Content) (path : Bytes) (stored : BatchEntry) → Keeps Kept (rewrite cs git c path stored)
  unfolding rewrite
  Keeps-rewrite c path stored =
      Keeps-bind Kept (lift (serialize_into cs stored.contents c)) _ (λ w h. h)
        (λ written.
          if-elim (Keeps Kept) (equal written stored.contents) (λ w h. h)
            (Keeps-write_blob path written))

  pub Keeps-plan_update :
      (c : Content) (path : Bytes) (parent : ObjectId) (born : Bool)
      → Keeps Kept (plan_update cs git c path parent born)
  unfolding plan_update
  Keeps-plan_update c path parent born =
      Keeps-bind Kept (stored_blob cs git c.path path parent born) _
        (Keeps-stored_blob c.path path parent born)
        (λ stored.
          Keeps-bind Kept (lift _) (λ _. rewrite cs git c path stored) (λ w h. h)
            (λ _. Keeps-rewrite c path stored))

  pub Keeps-plan_delete :
      (p : ContentPath) (rev : Revision) (path : Bytes) (parent : ObjectId) (born : Bool)
      → Keeps Kept (plan_delete cs git p rev path parent born)
  unfolding plan_delete
  Keeps-plan_delete p rev path parent born =
      Keeps-bind Kept (stored_blob cs git p path parent born) _
        (Keeps-stored_blob p path parent born)
        (λ stored. Keeps-bind Kept (lift _) _ (λ w h. h) (λ _ w h. h))
