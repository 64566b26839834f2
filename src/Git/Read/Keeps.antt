-- ===== src/Git/Read/Keeps.antt =====
-- git/repository.go, git/history.go: which commands the reading operations run.
use micawber.Core.Program.Invariant.{Keeps, Keeps-on_result, Keeps-bind, Keeps-or_fail}
use micawber.Git.Plan.{sentinelf, repo_path}
use micawber.Git.Object.{parse_batch, batch_request}
use micawber.Prelude.{
  if-elim, map, some, ◌++◌, length, ℕ, refl, ◌⊎◌, codes, ◌≡◌, sym, [], subst, String, ◌∷◌, inr, inl,
  All, Bytes, List,
}
use micawber.Go.Number.{ℤ, pos}
use micawber.Core.Collection.{Collection}
use micawber.Core.Content.{revision_is_zero, ContentEntry, Revision}
use micawber.Core.ContentPath.{ContentPath}
use micawber.Core.Errors.{wrap, not_found, wrapped, Error, Result, ok, err}
use micawber.Git.Exec.{Invocation, Process, run, operands}
use micawber.Git.Exec.Laws.{IsOperand, run_guarded, executed}
use micawber.Core.Program.{lift, wrapping}
use micawber.Git.Repository.{
  blob_of, read_batch, head_args, Repository, head, cat_file, read_blob, plain,
}
use micawber.Git.Read.{
  document_at, bounded_to, get_at, list_with, listed, list_entries, get, if_unborn, list_args,
}
use micawber.Git.History.{
  has_revision, revision_infos, read_object, parse_log, history_paths, history_at, RevisionInfo,
  logged, LogRecord, history, history_of, read_revision, get_revision, log_args,
}
use micawber.Markdown.Codec.{Codecs}

-- The commands that only read.
abbrev pub IsReading : List Bytes → Type 0
IsReading [] = ⊥
IsReading (name ∷ args) =
    (name ≡ codes "ls-tree")
    ⊎ (name ≡ codes "cat-file")
    ⊎ (name ≡ codes "rev-parse")
    ⊎ (name ≡ codes "log")

module _ {World : Type 0} (Kept : World → Type 0) where
  module _ (os : Process World) (r : Repository)
      (reads : (i : Invocation) (w : World)
        → IsReading i.args
        → All IsOperand (operands i.args)
        → Kept w
        → Kept (executed os r.exec i w).0) where
    pub Keeps-run : (i : Invocation) → IsReading i.args → Keeps Kept (run os r.exec i)
    Keeps-run i reading w h = elim (run_guarded os r.exec i w) [
      | inl (e, stopped, invalid) ↦ subst (λ out. Kept out.0) (sym stopped) h
      | inr (own, safe, env, harmless, went) ↦
          subst (λ out. Kept out.0) (sym went) (reads i w reading safe h)
    ]

    pub Keeps-head : Keeps Kept (head os r)
    unfolding head
    Keeps-head = Keeps-run (plain (head_args os r)) (inr (inr (inl refl)))

    Keeps-if_unborn {ℓ} :
        {A : Type ℓ} (nothing : Result A) (e : Error) → Keeps Kept (if_unborn os r nothing e)
    unfolding if_unborn
    Keeps-if_unborn nothing e = Keeps-head

    Keeps-read_batch : (want : ℕ) (request : Bytes) → Keeps Kept (read_batch os r want request)
    unfolding read_batch
    Keeps-read_batch want request =
        Keeps-bind Kept (run os r.exec i) (λ out. lift (parse_batch out want))
          (Keeps-run i (inr (inl refl))) (λ out w h. h)
      where
        i : Invocation
        i = record {
          args = codes "cat-file" ∷ codes "--batch" ∷ [];
          stdin = some request;
          env = [];
        }

    pub Keeps-cat_file : (specs : List Bytes) → Keeps Kept (cat_file os r specs)
    unfolding cat_file
    Keeps-cat_file [] = λ w h. h
    Keeps-cat_file (spec ∷ specs) =
        Keeps-or_fail Kept (read_batch os r (length (spec ∷ specs)))
          (Keeps-read_batch (length (spec ∷ specs))) (batch_request (spec ∷ specs))

    Keeps-read_blob :
        (spec : Bytes) (what : String) (v : Bytes) → Keeps Kept (read_blob os r spec what v)
    unfolding read_blob
    Keeps-read_blob spec what v =
        Keeps-bind Kept (cat_file os r (spec ∷ [])) (λ entries. lift (blob_of os r what v entries))
          (Keeps-cat_file (spec ∷ [])) (λ entries w h. h)

    Keeps-listed : (c : Collection) (found : Result Bytes) → Keeps Kept (listed os r c found)
    unfolding listed
    Keeps-listed c (err e) =
        Keeps-if_unborn {A = List ContentEntry} (ok []) (wrapped "git: list %q: %w" c.p e)
    Keeps-listed c (ok out) = λ w h. h

    Keeps-list_entries : (c : Collection) → Keeps Kept (list_entries os r c)
    unfolding list_entries list_with
    Keeps-list_entries c =
        Keeps-or_fail Kept (list_with os r c)
          (λ bound.
            Keeps-on_result Kept (run os r.exec (plain (list_args r.ref bound))) (listed os r c)
              (Keeps-run (plain (list_args r.ref bound)) (inl refl)) (Keeps-listed c))
          (bounded_to r.root c)

    Keeps-get : (cs : Codecs) (p : ContentPath) → Keeps Kept (get os r cs p)
    unfolding get get_at
    Keeps-get cs p =
        Keeps-or_fail Kept (get_at os r cs p)
          (λ path.
            Keeps-bind Kept
              (read_blob os r (r.ref ++ (b':' ∷ path)) "git: no document at %q: %w" p.p)
              (λ found. lift (document_at cs "git: document %q: %w" p.p p found))
              (Keeps-read_blob (r.ref ++ (b':' ∷ path)) "git: no document at %q: %w" p.p)
              (λ found w h. h))
          (repo_path r.root p)

    module _ (parse_time : Bytes → Result Bytes) where
      Keeps-history_of :
          (p : ContentPath) (path : Bytes) (commits : List LogRecord)
          → Keeps Kept (history_of os parse_time r p path commits)
      unfolding history_of
      Keeps-history_of p path [] = λ w h. h
      Keeps-history_of p path (c ∷ cs) =
          let specs = map (λ (d : LogRecord). d.commit ++ (b':' ∷ path)) (c ∷ cs) in
          Keeps-bind Kept (wrapping "git: history of %q: %w" p.p (cat_file os r specs))
            (λ blobs. lift (revision_infos (c ∷ cs) blobs)) (Keeps-cat_file specs) (λ blobs w h. h)

      Keeps-logged :
          (p : ContentPath) (path : Bytes) (found : Result Bytes)
          → Keeps Kept (logged os parse_time r p path found)
      unfolding logged
      Keeps-logged p path (err e) =
          Keeps-if_unborn {A = List RevisionInfo}
            (err (sentinelf not_found "git: no document at %q: %w" p))
            (wrapped "git: history of %q: %w" p.p e)
      Keeps-logged p path (ok out) =
          Keeps-or_fail Kept (history_of os parse_time r p path) (Keeps-history_of p path)
            (wrap "git: history of %q: %w" p.p (parse_log parse_time out))

      Keeps-history : (p : ContentPath) (limit : ℤ) → Keeps Kept (history os parse_time r p limit)
      unfolding history history_at log_args
      Keeps-history p limit =
          Keeps-or_fail Kept (history_at os parse_time r p limit)
            (λ (path, spec).
              Keeps-on_result Kept (run os r.exec (plain (log_args r.ref limit spec)))
                (logged os parse_time r p path)
                (Keeps-run (plain (log_args r.ref limit spec)) (inr (inr (inr refl))))
                (Keeps-logged p path))
            (history_paths r.root p)

      Keeps-read_object :
          (cs : Codecs) (p : ContentPath) (rev : Revision)
          → Keeps Kept (read_object os parse_time r cs p rev)
      unfolding read_object
      Keeps-read_object cs p rev =
          Keeps-bind Kept (read_blob os r rev "git: revision %q of %q: %w" rev)
            (λ found. lift (document_at cs "git: document %q at revision %q: %w" rev p found))
            (Keeps-read_blob rev "git: revision %q of %q: %w" rev) (λ found w h. h)

      Keeps-get_revision :
          (cs : Codecs) (p : ContentPath) (rev : Revision)
          → Keeps Kept (get_revision os parse_time r cs p rev)
      unfolding get_revision read_revision
      Keeps-get_revision cs p rev =
          if-elim (Keeps Kept) (revision_is_zero rev) (λ w h. h)
            (Keeps-bind Kept (history os parse_time r p (pos 0))
              (read_revision os parse_time r cs p rev) (Keeps-history p (pos 0))
              (λ infos.
                if-elim (Keeps Kept) (has_revision rev infos) (Keeps-read_object cs p rev)
                  (λ w h. h)))

    -- Of a property of the world that is kept by every ls-tree, cat-file, rev-parse and log
    -- whose operands begin with no dash: List, Get, History and GetRevision keep it,
    -- whatever they return.
    pub reads_keep :
        (parse_time : Bytes → Result Bytes) (cs : Codecs) (c : Collection) (p : ContentPath)
        (limit : ℤ) (rev : Revision) (w : World)
        → Kept w
        → Kept (list_entries os r c w).0
          × Kept (get os r cs p w).0
          × Kept (history os parse_time r p limit w).0
          × Kept (get_revision os parse_time r cs p rev w).0
    reads_keep parse_time cs c p limit rev w kept = (
      Keeps-list_entries c w kept,
      Keeps-get cs p w kept,
      Keeps-history parse_time p limit w kept,
      Keeps-get_revision parse_time cs p rev w kept,
    )
