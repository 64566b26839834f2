-- ===== src/Core/ContentPath/Laws.antt =====
-- What NewContentPath accepts, and what UnmarshalText leaves.
use micawber.Prelude.{true, Bytes, ◌≡◌, ◌↔◌, refl, ap, ◌∙◌, sym}
use micawber.Core.Errors.{
  content_path, Result, ok, err, >>-ok_iff, FailsWith, FailsWith-bind, invalid_value, is,
}
use micawber.Core.RelPath.{max_content_path_bytes, validate_rel_path, reject_git_segment}
use micawber.Core.RelPath.Spec.{IsRelPath, validate_rel_path_iff}
use micawber.Core.RelPath.NoGit.{
  NoGit, reject_git_segment_iff, FailsWith-validate_rel_path, FailsWith-reject_git_segment,
}
use micawber.Core.ContentPath.{ContentPath, new_content_path, marshal_text, unmarshal_text}

-- A content path is a relative path of at most 4096 bytes with no ".git" segment in any casing.
pub record IsContentPath (s : Bytes) : Type 0 where
  pub relative : IsRelPath max_content_path_bytes s
  pub no_git : NoGit s

abbrev pub path_of : Bytes → ContentPath
path_of s = record { p = s }

module _ (s : Bytes) where
  pub new_content_path-ok :
      {p : ContentPath} → new_content_path s ≡ ok p → IsContentPath s × (p ≡ path_of s)
  unfolding new_content_path
  new_content_path-ok h =
      let (v, h') = (>>-ok_iff (validate_rel_path content_path s max_content_path_bytes) _).0 h in
      let (g, e) = (>>-ok_iff (reject_git_segment content_path s) _).0 h' in
      (
        record {
          relative = (validate_rel_path_iff content_path s max_content_path_bytes).0 v;
          no_git = (reject_git_segment_iff content_path s).0 g;
        },
        cc,
      )

  pub IsContentPath-new : IsContentPath s → new_content_path s ≡ ok (path_of s)
  unfolding new_content_path
  IsContentPath-new h = rw (
    (validate_rel_path_iff content_path s max_content_path_bytes).1 h.relative,
    (reject_git_segment_iff content_path s).1 h.no_git,
  )

  -- NewContentPath accepts s, and returns it unchanged, exactly when s is a relative path in the
  -- sense of IsRelPath, of at most 4096 bytes, with no segment that is ".git" in any casing.
  pub new_content_path_iff :
      (p : ContentPath) → (new_content_path s ≡ ok p) ↔ (IsContentPath s × (p ≡ path_of s))
  new_content_path_iff p =
      (λ h. new_content_path-ok h, λ h. IsContentPath-new h.0 ∙ ap ok (sym h.1))

  -- Every refusal matches ErrInvalid.
  pub FailsWith-new_content_path : FailsWith invalid_value (new_content_path s)
  unfolding new_content_path
  FailsWith-new_content_path =
      FailsWith-bind invalid_value (validate_rel_path content_path s max_content_path_bytes) _
        (FailsWith-validate_rel_path content_path s max_content_path_bytes)
        (λ _.
          FailsWith-bind invalid_value (reject_git_segment content_path s) _
            (FailsWith-reject_git_segment content_path s) (λ _. tt))

-- What UnmarshalText leaves and returns, on either branch.
abbrev pub Unmarshals : ContentPath → Bytes → ContentPath × Result (Unit {0}) → Type 0
Unmarshals receiver b (after, ok _) = (marshal_text after ≡ b) × (new_content_path b ≡ ok after)
Unmarshals receiver b (after, err e) = (after ≡ receiver) × (is e invalid_value ≡ true)

-- UnmarshalText of b, over any receiver: it either returns no error and leaves a path that
-- marshals to b and that NewContentPath accepts, or leaves the receiver as it was and returns
-- an error that matches ErrInvalid.
pub unmarshal_text-Unmarshals :
    (receiver : ContentPath) (b : Bytes) → Unmarshals receiver b (unmarshal_text receiver b)
unfolding unmarshal_text
unmarshal_text-Unmarshals receiver b = go (new_content_path b) refl (FailsWith-new_content_path b)
  where
    go :
        (r : Result ContentPath)
        → new_content_path b ≡ r
        → FailsWith invalid_value r
        → Unmarshals receiver b (elim r [ ok parsed ↦ (parsed, ok tt) | err e ↦ (receiver, err e) ])
    go (ok p) h f = (ap marshal_text (new_content_path-ok b h).1, h)
    go (err e) h f = (refl, f)
