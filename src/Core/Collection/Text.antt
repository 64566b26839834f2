-- ===== src/Core/Collection/Text.antt =====
-- core/collection.go: MarshalText and UnmarshalText.
use micawber.Core.RelPath.Spec.{validate_rel_path_iff}
use micawber.Core.RelPath.{reject_git_segment, max_content_path_bytes, validate_rel_path}
use micawber.Core.Errors.{>>-ok_iff, ◌>>◌, collection, ok}
use micawber.Go.Text.{equal}
use micawber.Prelude.{◌∙◌, ap, inr, Bool-cases, refl, inl, ◌∷◌, ◌⊎◌, [], ◌≢◌, codes, ◌≡◌, Bytes}
use micawber.Core.Collection.{new_collection, to_string, marshal_text, unmarshal_text, Collection}

new_collection-eq :
    (s : Bytes) {c : Collection}
    → new_collection s ≡ ok c
    → (c ≡ record { p = [] }) ⊎ ((c ≡ record { p = s }) × (s ≢ []))
unfolding new_collection
new_collection-eq s {c} h = elim (Bool-cases (equal s (codes "."))) [
  | inl dot ↦ inl (cc (rw dot at h))
  | inr other ↦
      let h' : (validate_rel_path collection s max_content_path_bytes
            >> (reject_git_segment collection s >> ok (record { p = s })))
          ≡ ok c =
        rw other at h in
      let (v, h₁) = (>>-ok_iff (validate_rel_path collection s max_content_path_bytes) _).0 h' in
      let (g, e) = (>>-ok_iff (reject_git_segment collection s) _).0 h₁ in
      inr (cc e, ((validate_rel_path_iff collection s max_content_path_bytes).0 v).nonempty)
]

new_collection-dot : new_collection (codes ".") ≡ ok (record { p = [] })
unfolding new_collection equal
new_collection-dot = refl

to_string_of : (s : Bytes) → s ≢ [] → to_string (record { p = s }) ≡ s
unfolding to_string
to_string_of [] h = absurd (h refl)
to_string_of (x ∷ s) h = refl

-- NewCollection's result, written as text and read back into any receiver, is itself again.
pub unmarshal-marshal :
    (s : Bytes) (receiver : Collection) {c : Collection}
    → new_collection s ≡ ok c
    → unmarshal_text receiver (marshal_text c) ≡ (c, ok tt)
unfolding unmarshal_text
unmarshal-marshal s receiver {c} h =
    let again : new_collection (to_string c) ≡ ok c = elim (new_collection-eq s h) [
      | inl root ↦ rw root (unfold to_string in new_collection-dot)
      | inr (e, ne) ↦
          ap (λ z. new_collection (to_string z)) e ∙ ap new_collection (to_string_of s ne) ∙ h
    ] in
    rw (again, unmarshal_text)
