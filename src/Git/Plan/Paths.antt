-- ===== src/Git/Plan/Paths.antt =====
-- git/repository.go: contentPath behind repoPath.
use micawber.Prelude.{◌∙◌, ap, inr, inl, Bool-cases, refl, some, ◌≡◌, Bytes}
use micawber.Core.Errors.{invalid_value, sentinel, wrapped_both, Result, ok, err}
use micawber.Core.ContentPath.{ContentPath, new_content_path, is_zero}
use micawber.Core.ContentPath.Laws.{IsContentPath, IsContentPath-new}
use micawber.Core.Collection.{Collection, join}
use micawber.Core.Collection.Laws.{join-eq, join_lands_below}
use micawber.Git.Plan.{repo_path, content_path_of}

-- The joined path that repoPath returns the text of.
repo_path-joined :
    (root : Collection) (p : ContentPath) {s : Bytes}
    → repo_path root p ≡ ok s
    → (q : ContentPath) × (join root p.p ≡ ok q) × (s ≡ q.p)
unfolding repo_path
repo_path-joined root p {s} h = elim (Bool-cases (is_zero p)) [
  | inl empty ↦ cc (rw (empty, repo_path) at h)
  | inr some_bytes ↦ go (join root p.p) refl (rw (some_bytes, repo_path) at h)
]
  where
    go :
        (j : Result ContentPath)
        → join root p.p ≡ j
        → (elim j as (λ _. Result Bytes) [
          | ok joined ↦ ok joined.p
          | err e ↦ err (
              wrapped_both "git: content path %q is not within the content root: %w: %w" p.p
                (sentinel invalid_value)
                e)
        ])
          ≡ ok s
        → (q : ContentPath) × (join root p.p ≡ ok q) × (s ≡ q.p)
    go (ok q) e h = (q, e, cc h)
    go (err reason) e h = cc

-- Of a valid content path: when repoPath returns a path of the repository, contentPath of that
-- path returns the content path.
pub content_path_of-repo_path :
    (root : Collection) (p : ContentPath) {s : Bytes}
    → IsContentPath p.p
    → repo_path root p ≡ ok s
    → content_path_of root s ≡ some p
unfolding content_path_of
content_path_of-repo_path root p {s} valid h =
    let (q, joined, e) = repo_path-joined root p h in
    let (landed, inside, back) = join_lands_below root p.p joined in
    let full : new_content_path s ≡ ok q =
      ap new_content_path (e ∙ ap (λ (z : ContentPath). z.p) landed)
      ∙ (join-eq root p.p joined).1 in
    let again : new_content_path p.p ≡ ok p = IsContentPath-new p.p valid in
    rw (full, back, again, content_path_of) refl
