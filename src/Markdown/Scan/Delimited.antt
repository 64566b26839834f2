-- ===== src/Markdown/Scan/Delimited.antt =====
-- What a block between two delimiter lines is scanned to.
use micawber.Markdown.Scan.Shape.{HasShape, IsTerminated}
use micawber.Go.Lines.{ends_newline-append, concat, AreLines}
use micawber.Core.Errors.{ok}
use micawber.Markdown.Scan.{
  max_front_matter_bytes, line_text, is_delimiter_line, opening_delimiter, scan_delimited, Parts,
}
use micawber.Core.FrontMatter.{toml, yaml, Format}
use micawber.Prelude.{
  refl, append_assoc, ◌∙◌, inr, sym, length, subst, inl, ltb, arith, Bool-cases, ◌∷◌, [], ◌⊎◌, ◌≢◌,
  some, ◌++◌, ◌≡◌, List, Bytes, Bool,
}

-- What scanDelimited returns for the block read so far and the lines to come.
pub record IsDelimited (has_bom : Bool) (f : Format) (opening raw : Bytes) (ls : List Bytes)
    (p : Parts) : Type 0 where
  pub same_format : p.format ≡ f
  pub layout_is :
      p.layout ≡ record { has_bom = has_bom; opening = opening; closing = p.layout.closing }
  pub whole : p.raw ++ (p.layout.closing ++ p.body) ≡ raw ++ concat ls
  pub terminated : IsTerminated p.raw

module _ (has_bom : Bool) (f : Format) (delimiter opening : Bytes) where
  scan_delimited-ne-nil :
      (raw : Bytes) (ls : List Bytes) {p : Parts}
      → scan_delimited has_bom f delimiter opening raw ls ≡ ok p
      → ls ≢ []
  unfolding scan_delimited
  scan_delimited-ne-nil raw [] h = cc
  scan_delimited-ne-nil raw (l ∷ ls) h = λ e. cc

  pub scan_delimited-IsDelimited :
      (raw : Bytes) (ls : List Bytes) {p : Parts}
      → AreLines ls
      → IsTerminated raw
      → scan_delimited has_bom f delimiter opening raw ls ≡ ok p
      → IsDelimited has_bom f opening raw ls p
  unfolding scan_delimited
  scan_delimited-IsDelimited raw [] a t h = cc
  scan_delimited-IsDelimited raw (l ∷ ls) {p} a t h =
      elim (Bool-cases (ltb max_front_matter_bytes (length raw))) [
        | inl over ↦ cc (rw over at h)
        | inr fits ↦ elim (Bool-cases (is_delimiter_line (line_text l) delimiter)) [
          | inl closes ↦
              let q : Parts = record {
                layout = record { has_bom = has_bom; opening = opening; closing = l };
                format = f;
                raw = raw;
                body = concat ls;
              } in
              let same : q ≡ p = cc (rw (fits, closes) at h) in
              subst (λ z. IsDelimited has_bom f opening raw (l ∷ ls) z) same
                (record { same_format = refl; layout_is = refl; whole = refl; terminated = t })
          | inr continues ↦
              let h' : scan_delimited has_bom f delimiter opening (raw ++ l) ls ≡ ok p =
                rw (fits, continues) at h in
              let more = scan_delimited-ne-nil (raw ++ l) ls h' in
              let later =
                scan_delimited-IsDelimited (raw ++ l) ls a.1
                  (inr (ends_newline-append raw l (a.0 more))) h' in
              record {
                same_format = later.same_format;
                layout_is = later.layout_is;
                whole = later.whole ∙ append_assoc raw l (concat ls);
                terminated = later.terminated;
              }
        ]
      ]

pub is_delimiter_line-ne-nil :
    (l : Bytes) (d : Format × Bytes) → opening_delimiter (line_text l) ≡ some d → l ≢ []
unfolding opening_delimiter is_delimiter_line
is_delimiter_line-ne-nil [] d h = cc
is_delimiter_line-ne-nil (c ∷ l) d h = λ e. cc

pub opening_delimiter-cases :
    (line : Bytes) {f : Format} {d : Bytes}
    → opening_delimiter line ≡ some (f, d)
    → (f ≡ yaml) ⊎ (f ≡ toml)
unfolding opening_delimiter
opening_delimiter-cases line h = ground arith

pub shape_fenced :
    (f : Format) (p : Parts)
    → (f ≡ yaml) ⊎ (f ≡ toml)
    → p.format ≡ f
    → p.layout.opening ≢ []
    → IsTerminated p.raw
    → HasShape p.format p
shape_fenced f p (inl e) s ne t = subst (λ g. HasShape g p) (sym (s ∙ e)) (ne, t)
shape_fenced f p (inr e) s ne t = subst (λ g. HasShape g p) (sym (s ∙ e)) (ne, t)
