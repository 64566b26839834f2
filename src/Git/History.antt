-- ===== src/Git/History.antt =====
-- git/history.go: the parser of what log prints, History and GetRevision.
pub mod Guards
pub mod Framing
use micawber.Core.Collection.{Collection}
use micawber.Prelude.{
  zero, suc, ◌%◌, true, length, false, map, any, ◌++◌, ◌==◌, ◌||◌, is_nil, not, Bool, [], ◌∷◌,
  if◌then◌else◌, codes, List, ℕ, Bytes,
}
use micawber.Go.Number.{ℤ, pos, negsuc, itoa}
use micawber.Go.Text.{split, equal}
use micawber.Core.Change.{Author}
use micawber.Core.Content.{Content, Revision, revision_is_zero}
use micawber.Core.ContentPath.{ContentPath}
use micawber.Core.Errors.{
  wrap, Result, ok, err, Error, wrapped, sentinel, foreign, not_found, refuse,
}
use micawber.Git.Exec.{Process, run, operand_separator}
use micawber.Git.Object.{ObjectId, BatchEntry, valid, blob_type, out_of_range}
use micawber.Git.Plan.{repo_path, sentinelf}
use micawber.Core.Program.{Program, lift, on_result, ◌>>=◌, or_fail, next_step, wrapping}
use micawber.Git.Read.{pathspec, if_unborn, document_at}
use micawber.Git.Repository.{Repository, cat_file, read_blob, plain}
use micawber.Markdown.Codec.{Codecs}

-- logFormat, logFields.
abbrev pub log_format : Bytes
log_format = codes "%H%x00%an%x00%ae%x00%aI%x00%B"

abbrev pub log_fields : ℕ
log_fields = 5

-- logRecord; a time is the text that it is formatted to.
pub record LogRecord : Type 0 where
  pub commit : ObjectId
  pub author : Author
  pub when : Bytes
  pub message : Bytes

-- core.RevisionInfo.
pub record RevisionInfo : Type 0 where
  pub revision : Revision
  pub author : Author
  pub time : Bytes
  pub message : Bytes

-- The fields without an empty last one.
unfoldable pub drop_tail : List Bytes → List Bytes
drop_tail [] = []
drop_tail ([] ∷ []) = []
drop_tail ((c ∷ s) ∷ []) = (c ∷ s) ∷ []
drop_tail (x ∷ y ∷ r) = x ∷ drop_tail (y ∷ r)

-- The first argument is time.Parse with the layout RFC3339.
module _ (parse_time : Bytes → Result Bytes) where
  unfoldable pub log_record : Bytes → Bytes → Bytes → Bytes → Bytes → Result LogRecord
  unfolding valid
  log_record commit name email when message =
      if not (valid commit)
      then err (foreign (codes "git log: %q is not an object id"))
      else elim (parse_time when) [
        | err e ↦ err (wrapped "git log: unreadable author time: %w" [] e)
        | ok time ↦ ok (record {
          commit = commit;
          author = record { name = name; email = email };
          when = time;
          message = message;
        })
      ]

  -- The loop of parseLog, five fields a turn.
  unfoldable pub log_records : List Bytes → Result (List LogRecord)
  unfolding log_record
  log_records (commit ∷ name ∷ email ∷ when ∷ message ∷ rest) =
      elim (log_record commit name email when message) [
        | err e ↦ err e
        | ok r ↦ elim (log_records rest) [ err e ↦ err e | ok rs ↦ ok (r ∷ rs) ]
      ]
  log_records [] = ok []
  log_records _ = err out_of_range

  -- parseLog.
  unfoldable pub parse_log : Bytes → Result (List LogRecord)
  unfolding split drop_tail log_records
  parse_log out =
      let parts = drop_tail (split 0 out) in
      if is_nil out
      then ok []
      else if not (length parts % log_fields == 0)
      then err (foreign (codes "git log: %d fields, not a multiple of %d"))
      else log_records parts

-- The revisions that the commits left at the path; a commit that removed it left none.
unfoldable pub revision_infos : List LogRecord → List BatchEntry → Result (List RevisionInfo)
unfolding equal
revision_infos [] blobs = ok []
revision_infos (c ∷ cs) [] = err out_of_range
revision_infos (c ∷ cs) (blob ∷ blobs) = elim (revision_infos cs blobs) [
  | err e ↦ err e
  | ok infos ↦
      if blob.missing || not (equal blob.typ blob_type)
      then ok infos
      else ok (
          record { revision = blob.oid; author = c.author; time = c.when; message = c.message }
          ∷ infos)
]

-- `limit > 0`, and the arguments that it adds.
limit_args : ℤ → List Bytes
unfolding itoa
limit_args (pos zero) = []
limit_args (pos (suc n)) = codes "-n" ∷ itoa (suc n) ∷ []
limit_args (negsuc n) = []

unfoldable pub log_args : Bytes → ℤ → Bytes → List Bytes
unfolding limit_args
log_args ref limit spec =
    codes "log"
    ∷ codes "--no-follow"
    ∷ codes "--no-abbrev"
    ∷ (codes "--format=" ++ log_format)
    ∷ codes "-z"
    ∷ (limit_args limit ++ (ref ∷ operand_separator ∷ spec ∷ []))

-- The path in the repository and the pathspec that History is about.
unfoldable pub history_paths : Collection → ContentPath → Result (Bytes × Bytes)
unfolding repo_path pathspec
history_paths root p = elim (repo_path root p) [
  | err e ↦ err e
  | ok path ↦ elim (pathspec path) [ err e ↦ err e | ok spec ↦ ok (path, spec) ]
]

-- Whether the revision is among those of the history.
unfoldable pub has_revision : Revision → List RevisionInfo → Bool
unfolding equal
has_revision rev infos = any (λ info. equal info.revision rev) infos

module _ {World : Type 0} (os : Process World) (parse_time : Bytes → Result Bytes)
    (r : Repository) where
  -- History behind the log.
  unfoldable pub history_of :
      ContentPath → Bytes → List LogRecord → Program World (List RevisionInfo)
  unfolding cat_file revision_infos
  history_of p path [] = lift (err (sentinelf not_found "git: no document at %q: %w" p))
  history_of p path (c ∷ cs) = do
    blobs ←
        wrapping "git: history of %q: %w" p.p
          (cat_file os r (map (λ d. d.commit ++ (b':' ∷ path)) (c ∷ cs)))
    lift (revision_infos (c ∷ cs) blobs)

  -- History behind its command.
  unfoldable pub logged : ContentPath → Bytes → Result Bytes → Program World (List RevisionInfo)
  unfolding if_unborn parse_log history_of
  logged p path (err e) =
      if_unborn os r (err (sentinelf not_found "git: no document at %q: %w" p))
        (wrapped "git: history of %q: %w" p.p e)
  logged p path (ok out) =
      or_fail (history_of p path) (wrap "git: history of %q: %w" p.p (parse_log parse_time out))

  unfoldable pub history_at : ContentPath → ℤ → Bytes × Bytes → Program World (List RevisionInfo)
  unfolding run log_args logged
  history_at p limit (path, spec) =
      on_result (run os r.exec (plain (log_args r.ref limit spec))) (logged p path)

  -- History.
  unfoldable pub history : ContentPath → ℤ → Program World (List RevisionInfo)
  unfolding history_paths history_at
  history p limit = or_fail (history_at p limit) (history_paths r.root p)

  -- The object that a revision of the history names.
  unfoldable pub read_object : Codecs → ContentPath → Revision → Program World Content
  unfolding read_blob document_at
  read_object cs p rev = do
    found ← read_blob os r rev "git: revision %q of %q: %w" rev
    lift (document_at cs "git: document %q at revision %q: %w" rev p found)

  -- What GetRevision reads once the history is known.
  unfoldable pub read_revision :
      Codecs → ContentPath → Revision → List RevisionInfo → Program World Content
  unfolding has_revision read_object
  read_revision cs p rev infos =
      if has_revision rev infos
      then read_object cs p rev
      else lift (err (sentinelf not_found "git: %q has no such revision: %w" p))

  -- GetRevision.
  unfoldable pub get_revision : Codecs → ContentPath → Revision → Program World Content
  unfolding history read_revision
  get_revision cs p rev =
      if revision_is_zero rev
      then lift (err (sentinelf not_found "git: the zero revision names no version of %q: %w" p))
      else history p (pos 0) >>= read_revision cs p rev
