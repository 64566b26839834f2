-- ===== src/Markdown/Scan/Fails.antt =====
-- markdown/parse.go: how scan fails.
use micawber.Go.Lines.{later_lines, lines, first_line}
use micawber.Markdown.Document.{bom}
use micawber.Go.Text.{has_prefix}
use micawber.Core.FrontMatter.{Format}
use micawber.Prelude.{
  false, true, refl, drop, inr, [], codes, inl, ◌++◌, Bool-cases, Option-cases, ◌∷◌, arith, List, ℕ,
  Option, Bool, Bytes,
}
use micawber.Core.Errors.{FailsWith-bind, invalid_value, FailsWith, is}
use micawber.Markdown.Scan.{
  line_text, opening_delimiter, scan_json, Parts, scan, scan_rest, scan_brace, scan_fence,
  reject_nul, scan_delimited,
}

FailsWith-reject_nul : (p : Parts) → FailsWith invalid_value (reject_nul p)
unfolding reject_nul is
FailsWith-reject_nul p = ground arith

FailsWith-scan_delimited :
    (has_bom : Bool) (f : Format) (delimiter opening raw : Bytes) (ls : List Bytes)
    → FailsWith invalid_value (scan_delimited has_bom f delimiter opening raw ls)
unfolding scan_delimited is
FailsWith-scan_delimited has_bom f delimiter opening raw [] = refl
FailsWith-scan_delimited has_bom f delimiter opening raw (l ∷ ls) =
    ground (arith, FailsWith-scan_delimited has_bom f delimiter opening (raw ++ l) ls)

module _ (json_object_end : Bytes → Option ℕ) where
  FailsWith-scan_brace :
      (s rest : Bytes) (has_bom : Bool)
      → FailsWith invalid_value (scan_brace json_object_end s rest has_bom)
  unfolding scan_brace
  FailsWith-scan_brace s rest has_bom =
      elim (Option-cases (scan_json json_object_end rest has_bom)) [
        | inl missing ↦ rw (missing, scan_brace) tt
        | inr (p, found) ↦ rw (found, scan_brace) (FailsWith-reject_nul p)
      ]

  FailsWith-scan_fence :
      (s : Bytes) (has_bom : Bool) (ls : List Bytes)
      → FailsWith invalid_value (scan_fence json_object_end s has_bom ls)
  unfolding scan_fence
  FailsWith-scan_fence s has_bom ls =
      elim (Option-cases (opening_delimiter (line_text (first_line ls)))) [
        | inl missing ↦ rw (missing, scan_fence) tt
        | inr ((f, d), found) ↦
            rw (found, scan_fence)
              (FailsWith-bind invalid_value _ reject_nul
                (FailsWith-scan_delimited has_bom f d (first_line ls) [] (later_lines ls))
                FailsWith-reject_nul)
      ]

  FailsWith-scan_rest :
      (s rest : Bytes) (has_bom : Bool)
      → FailsWith invalid_value (scan_rest json_object_end s rest has_bom)
  unfolding scan_rest
  FailsWith-scan_rest s rest has_bom = elim (Bool-cases (has_prefix rest (codes "{"))) [
    | inl brace ↦ rw (brace, scan_rest) (FailsWith-scan_brace s rest has_bom)
    | inr other ↦ rw (other, scan_rest) (FailsWith-scan_fence s has_bom (lines rest))
  ]

  pub FailsWith-scan : (s : Bytes) → FailsWith invalid_value (scan json_object_end s)
  unfolding scan
  FailsWith-scan s = elim (Bool-cases (has_prefix s bom)) [
    | inl marked ↦ rw marked (FailsWith-scan_rest s (drop 3 s) true)
    | inr plain ↦ rw plain (FailsWith-scan_rest s s false)
  ]
