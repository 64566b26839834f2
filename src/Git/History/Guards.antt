-- ===== src/Git/History/Guards.antt =====
-- git/history.go: what GetRevision checks before it reads an object.
use micawber.Git.Plan.{sentinelf}
use micawber.Prelude.{refl, ◌∙◌, sym, subst, inr, inl, true, Bool-cases, false, List, ◌≡◌, Bytes}
use micawber.Core.Content.{Content, Revision, revision_is_zero}
use micawber.Core.ContentPath.{ContentPath}
use micawber.Core.Errors.{Result, ok, err, Error, is, not_found}
use micawber.Git.Exec.{Process}
use micawber.Git.History.{
  pos, RevisionInfo, history, has_revision, read_object, read_revision, get_revision,
}
use micawber.Git.Object.{ObjectId}
use micawber.Core.Program.{>>=-eq, >>=-ok, lift}
use micawber.Git.Read.{document_at}
use micawber.Git.Repository.{Repository, read_blob}
use micawber.Markdown.Codec.{Codecs}

module _ {World : Type 0} (os : Process World) (parse_time : Bytes → Result Bytes) (r : Repository)
    (cs : Codecs) (p : ContentPath) (rev : Revision) (w : World) where
  -- The revision was found in the path's own history, and the content is that object's.
  pub record IsFromHistory (c : Content) : Type 0 where
    pub asked : revision_is_zero rev ≡ false
    pub infos : List RevisionInfo
    pub known : (history os parse_time r p (pos 0) w).1 ≡ ok infos
    pub member : has_revision rev infos ≡ true
    pub found : ObjectId × Bytes
    pub read :
        (read_blob os r rev "git: revision %q of %q: %w" rev
          (history os parse_time r p (pos 0) w).0).1
        ≡ ok found
    pub decoded : document_at cs "git: document %q at revision %q: %w" rev p found ≡ ok c

  -- No object is read: the last command is one of History's.
  abbrev pub IsRefused : World × Result Content → Type 0
  IsRefused out =
      (out.0 ≡ (history os parse_time r p (pos 0) w).0)
      × ((e : Error) × (out.1 ≡ err e) × (is e not_found ≡ true))

  read_object-IsFromHistory :
      {c : Content} {infos : List RevisionInfo}
      → revision_is_zero rev ≡ false
      → (history os parse_time r p (pos 0) w).1 ≡ ok infos
      → has_revision rev infos ≡ true
      → (read_object os parse_time r cs p rev (history os parse_time r p (pos 0) w).0).1 ≡ ok c
      → IsFromHistory c
  unfolding read_object
  read_object-IsFromHistory {infos = infos} asked known member h =
      let later = (history os parse_time r p (pos 0) w).0 in
      let (found, read, decoded) =
        >>=-ok (read_blob os r rev "git: revision %q of %q: %w" rev)
          (λ o. lift (document_at cs "git: document %q at revision %q: %w" rev p o)) later h in
      record {
        asked = asked;
        infos = infos;
        known = known;
        member = member;
        found = found;
        read = read;
        decoded = decoded;
      }

  -- When GetRevision returns a content, the revision is not empty, History of the path,
  -- without a limit, returned a list that names it, and the content is what the object of
  -- that name decodes to at the path.
  pub get_revision-IsFromHistory :
      {c : Content} → (get_revision os parse_time r cs p rev w).1 ≡ ok c → IsFromHistory c
  unfolding get_revision read_revision
  get_revision-IsFromHistory {c} h = elim (Bool-cases (revision_is_zero rev)) [
    | inl zero ↦ cc (rw (zero, get_revision) at h)
    | inr asked ↦
        let (infos, known, rest) =
          >>=-ok (history os parse_time r p (pos 0)) (read_revision os parse_time r cs p rev) w
            (rw (asked, get_revision) at h) in
        elim (Bool-cases (has_revision rev infos)) [
          | inl member ↦
              read_object-IsFromHistory asked known member (rw (member, read_revision) at rest)
          | inr unknown ↦ cc (rw (unknown, read_revision) at rest)
        ]
  ]

  -- Of a revision that is not empty, when History of the path returns a list that does not
  -- name it: GetRevision returns an error that matches ErrNotFound, and runs no command
  -- beyond those of History.
  pub get_revision-IsRefused :
      (infos : List RevisionInfo)
      → revision_is_zero rev ≡ false
      → (history os parse_time r p (pos 0) w).1 ≡ ok infos
      → has_revision rev infos ≡ false
      → IsRefused (get_revision os parse_time r cs p rev w)
  unfolding get_revision read_revision is
  get_revision-IsRefused infos asked known unknown =
      let later = (history os parse_time r p (pos 0) w).0 in
      let goes : get_revision os parse_time r cs p rev w
          ≡ read_revision os parse_time r cs p rev infos later =
        rw (asked, get_revision)
          (>>=-eq (history os parse_time r p (pos 0)) (read_revision os parse_time r cs p rev) w
            known) in
      let e = sentinelf not_found "git: %q has no such revision: %w" p in
      let ends : read_revision os parse_time r cs p rev infos later ≡ (later, err e) =
        rw (unknown, read_revision) refl in
      subst IsRefused (sym (goes ∙ ends)) (refl, (e, refl, refl))
