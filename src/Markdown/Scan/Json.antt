-- ===== src/Markdown/Scan/Json.antt =====
-- What a leading JSON object is scanned to.
use micawber.Core.FrontMatter.{json}
use micawber.Markdown.Scan.{
  json_at, json_window, scan_json, json_parts, end_of_line, split_blanks, Parts,
}
use micawber.Prelude.{
  take-append-drop, drop, none, inr, inl, ◌∙◌, zero, append_assoc, refl, Option-cases, ap, suc,
  subst, take, arith, [], some, ◌∷◌, ◌≢◌, ◌≡◌, Option, ◌<◌, ◌++◌, Bool, ℕ, Bytes,
}

split_blanks-append : (s : Bytes) → (split_blanks s).0 ++ (split_blanks s).1 ≡ s
unfolding split_blanks
split_blanks-append [] = refl
split_blanks-append (c ∷ s) = ground (arith, split_blanks-append s)

end_of_line-append :
    (s : Bytes) {t b : Bytes} → end_of_line s ≡ some (t, b) → (t ++ b ≡ s) × (t ≡ [] → b ≡ [])
unfolding end_of_line
end_of_line-append [] h = (ground arith, λ e. ground arith)
end_of_line-append (c ∷ []) h = (ground arith, λ e. ground arith)
end_of_line-append (c ∷ d ∷ s) h = (ground arith, λ e. ground arith)

append-eq-nil : (a b : Bytes) → a ++ b ≡ [] → b ≡ []
append-eq-nil [] b h = h
append-eq-nil (c ∷ a) b h = cc

take-ne-nil : (n : ℕ) (s : Bytes) → 0 < n → s ≢ [] → take n s ≢ []
take-ne-nil zero s h ne = absurd (omega arith)
take-ne-nil (suc n) [] h ne = absurd (ne refl)
take-ne-nil (suc n) (c ∷ s) h ne = λ e. cc

-- What scanJSON returns.
pub record IsJsonScan (has_bom : Bool) (s : Bytes) (p : Parts) : Type 0 where
  pub format_is : p.format ≡ json
  pub layout_is : p.layout ≡ record { has_bom = has_bom; opening = []; closing = p.layout.closing }
  pub whole : p.raw ++ (p.layout.closing ++ p.body) ≡ s
  pub raw_ne_nil : p.raw ≢ []
  pub ends : p.layout.closing ≡ [] → p.body ≡ []

json_parts-IsJsonScan :
    (has_bom : Bool) (raw blanks rest : Bytes) (o : Option (Bytes × Bytes)) {p : Parts}
    → raw ≢ []
    → end_of_line rest ≡ o
    → json_parts has_bom raw blanks o ≡ some p
    → IsJsonScan has_bom (raw ++ (blanks ++ rest)) p
unfolding json_parts
json_parts-IsJsonScan has_bom raw blanks rest none ne e h = cc
json_parts-IsJsonScan has_bom raw blanks rest (some (t, b)) {p} ne e h =
    let (whole, last) = end_of_line-append rest e in
    let q : Parts = record {
      layout = record { has_bom = has_bom; opening = []; closing = blanks ++ t };
      format = json;
      raw = raw;
      body = b;
    } in
    let same : q ≡ p = cc h in
    subst (λ z. IsJsonScan has_bom (raw ++ (blanks ++ rest)) z) same
      (record {
        format_is = refl;
        layout_is = refl;
        whole = ap (λ z. raw ++ z) (append_assoc blanks t b ∙ ap (λ z. blanks ++ z) whole);
        raw_ne_nil = ne;
        ends = λ z. last (append-eq-nil blanks t z);
      })

module _ (json_object_end : Bytes → Option ℕ)
    (consumes : (w : Bytes) (n : ℕ) → json_object_end w ≡ some n → 0 < n) where
  pub scan_json-IsJsonScan :
      (s : Bytes) (has_bom : Bool) {p : Parts}
      → s ≢ []
      → scan_json json_object_end s has_bom ≡ some p
      → IsJsonScan has_bom s p
  unfolding scan_json
  scan_json-IsJsonScan s has_bom {p} ne h = elim (Option-cases (json_object_end (json_window s))) [
    | inl missing ↦ cc (rw (missing, scan_json) at h)
    | inr (n, found) ↦
        let h' : json_at s has_bom n ≡ some p = rw (found, scan_json) at h in
        let tail = drop n s in
        subst (λ z. IsJsonScan has_bom z p)
          (ap (λ z. take n s ++ z) (split_blanks-append tail) ∙ take-append-drop n s)
          (json_parts-IsJsonScan has_bom (take n s) (split_blanks tail).0 (split_blanks tail).1
            (end_of_line (split_blanks tail).1)
            (take-ne-nil n s (consumes (json_window s) n found) ne) refl (unfold json_at in h'))
  ]
