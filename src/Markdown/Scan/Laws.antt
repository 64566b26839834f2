-- ===== src/Markdown/Scan/Laws.antt =====
-- markdown/parse.go: the slots that scan returns and the file they come from.
use micawber.Markdown.Scan.Delimited.{
  scan_delimited-IsDelimited, is_delimiter_line-ne-nil, shape_fenced, opening_delimiter-cases,
  IsDelimited,
}
use micawber.Go.Text.Prefix.{has_prefix-split}
use micawber.Markdown.Scan.Json.{scan_json-IsJsonScan, IsJsonScan}
use micawber.Core.Errors.{>>=-eq-ok, ok}
use micawber.Markdown.Document.{Layout, bom}
use micawber.Go.Lines.{
  AreLines-lines, concat-lines, first-append-later, concat, first_line, lines, later_lines,
  AreLines,
}
use micawber.Core.FrontMatter.{toml, yaml, json, Format}
use micawber.Markdown.Scan.Shape.{HasShape, slots, mark, IsScan}
use micawber.Markdown.Scan.{
  scan_delimited, line_text, opening_delimiter, scan_json, scan, scan_rest, scan_fence, scan_brace,
  no_parts, Parts, reject_nul,
}
use micawber.Go.Text.{contains_byte, has_prefix, index_byte}
use micawber.Prelude.{
  inr, codes, subst, inl, Bool-cases, sym, Option-cases, arith, ◌⊎◌, ◌≢◌, ◌∙◌, false, refl, ◌<◌,
  drop, [], some, true, ◌∷◌, ap, ◌++◌, none, Option, ◌≡◌, ℕ, List, Bool, Bytes,
}

IsScan-none : (s : Bytes) → IsScan s (no_parts s)
IsScan-none s = record { whole = refl; shape = (refl, refl); no_nul = refl }

index_byte-none : (c : ℕ) (s : Bytes) → index_byte c s ≡ none → contains_byte c s ≡ false
unfolding index_byte
index_byte-none c [] h = refl
index_byte-none c (b ∷ s) h = ground (arith, index_byte-none c s)

reject_nul-eq :
    (p : Parts) {q : Parts} → reject_nul p ≡ ok q → (q ≡ p) × (contains_byte 0 p.raw ≡ false)
unfolding reject_nul
reject_nul-eq p h = elim (Option-cases (index_byte 0 p.raw)) [
  | inl clean ↦ (cc (rw (clean, reject_nul) at h), index_byte-none 0 p.raw clean)
  | inr (i, found) ↦ cc (rw (found, reject_nul) at h)
]

slots-eq :
    (p : Parts) (b : Bool) (o w : Bytes)
    → p.layout ≡ record { has_bom = b; opening = o; closing = p.layout.closing }
    → p.raw ++ (p.layout.closing ++ p.body) ≡ w
    → slots p ≡ mark b ++ (o ++ w)
slots-eq p b o w l e =
    ap (λ (z : Layout). mark z.has_bom ++ (z.opening ++ (p.raw ++ (p.layout.closing ++ p.body)))) l
    ∙ ap (λ z. mark b ++ (o ++ z)) e

opening-eq :
    (p : Parts) (b : Bool) (o : Bytes)
    → p.layout ≡ record { has_bom = b; opening = o; closing = p.layout.closing }
    → p.layout.opening ≡ o
opening-eq p b o l = ap (λ (z : Layout). z.opening) l

shape_json :
    (p : Parts)
    → p.format ≡ json
    → p.layout.opening ≡ []
    → p.raw ≢ []
    → (p.layout.closing ≡ [] → p.body ≡ [])
    → HasShape p.format p
shape_json p f o r e = subst (λ g. HasShape g p) (sym f) (o, r, e)

IsScan-json :
    (has_bom : Bool) (s rest : Bytes) (p : Parts)
    → mark has_bom ++ rest ≡ s
    → IsJsonScan has_bom rest p
    → contains_byte 0 p.raw ≡ false
    → IsScan s p
IsScan-json has_bom s rest p e j n = record {
  whole = slots-eq p has_bom [] rest j.layout_is j.whole ∙ e;
  shape = shape_json p j.format_is (opening-eq p has_bom [] j.layout_is) j.raw_ne_nil j.ends;
  no_nul = n;
}

IsScan-fenced :
    (has_bom : Bool) (f : Format) (s rest : Bytes) (p : Parts)
    → mark has_bom ++ rest ≡ s
    → (f ≡ yaml) ⊎ (f ≡ toml)
    → first_line (lines rest) ≢ []
    → IsDelimited has_bom f (first_line (lines rest)) [] (later_lines (lines rest)) p
    → contains_byte 0 p.raw ≡ false
    → IsScan s p
IsScan-fenced has_bom f s rest p e known ne d n =
    let o = first_line (lines rest) in
    record {
      whole =
          slots-eq p has_bom o (concat (later_lines (lines rest))) d.layout_is d.whole
          ∙ ap (λ z. mark has_bom ++ z) (first-append-later (lines rest) ∙ concat-lines rest)
          ∙ e;
      shape =
          shape_fenced f p known d.same_format
            (λ z. ne (sym (opening-eq p has_bom o d.layout_is) ∙ z)) d.terminated;
      no_nul = n;
    }

AreLines-later : (ls : List Bytes) → AreLines ls → AreLines (later_lines ls)
AreLines-later [] h = tt
AreLines-later (l ∷ ls) h = h.1

has_prefix-ne-nil : (s : Bytes) (c : ℕ) → has_prefix s (c ∷ []) ≡ true → s ≢ []
unfolding has_prefix
has_prefix-ne-nil [] c h = cc
has_prefix-ne-nil (d ∷ s) c h = λ e. cc

mark-drop : (s : Bytes) → has_prefix s bom ≡ true → mark true ++ drop 3 s ≡ s
mark-drop s h = let (r, e) = has_prefix-split s bom h in ap (λ z. bom ++ drop 3 z) e ∙ sym e

module _ (json_object_end : Bytes → Option ℕ)
    (consumes : (w : Bytes) (n : ℕ) → json_object_end w ≡ some n → 0 < n) where
  scan_brace-IsScan :
      (has_bom : Bool) (s rest : Bytes) {p : Parts}
      → mark has_bom ++ rest ≡ s
      → rest ≢ []
      → scan_brace json_object_end s rest has_bom ≡ ok p
      → IsScan s p
  unfolding scan_brace
  scan_brace-IsScan has_bom s rest {p} e ne h =
      elim (Option-cases (scan_json json_object_end rest has_bom)) [
        | inl missing ↦ subst (IsScan s) (cc (rw (missing, scan_brace) at h)) (IsScan-none s)
        | inr (q, found) ↦
            let (same, clean) = reject_nul-eq q (rw (found, scan_brace) at h) in
            subst (IsScan s) (sym same) (
              IsScan-json has_bom s rest q e
                (scan_json-IsJsonScan json_object_end consumes rest has_bom ne found) clean)
      ]

  scan_fence-IsScan :
      (has_bom : Bool) (s rest : Bytes) {p : Parts}
      → mark has_bom ++ rest ≡ s
      → scan_fence json_object_end s has_bom (lines rest) ≡ ok p
      → IsScan s p
  unfolding scan_fence
  scan_fence-IsScan has_bom s rest {p} e h =
      elim (Option-cases (opening_delimiter (line_text (first_line (lines rest))))) [
        | inl missing ↦ subst (IsScan s) (cc (rw (missing, scan_fence) at h)) (IsScan-none s)
        | inr ((f, d), found) ↦
            let o = first_line (lines rest) in
            let ls = later_lines (lines rest) in
            let (q, scanned, kept) =
              >>=-eq-ok (scan_delimited has_bom f d o [] ls) reject_nul
                (rw (found, scan_fence) at h) in
            let (same, clean) = reject_nul-eq q kept in
            subst (IsScan s) (sym same) (
              IsScan-fenced has_bom f s rest q e (opening_delimiter-cases (line_text o) found)
                (is_delimiter_line-ne-nil o (f, d) found)
                (scan_delimited-IsDelimited has_bom f d o [] ls
                  (AreLines-later (lines rest) (AreLines-lines rest)) (inl refl) scanned)
                clean)
      ]

  scan_rest-IsScan :
      (has_bom : Bool) (s rest : Bytes) {p : Parts}
      → mark has_bom ++ rest ≡ s
      → scan_rest json_object_end s rest has_bom ≡ ok p
      → IsScan s p
  unfolding scan_rest
  scan_rest-IsScan has_bom s rest {p} e h = elim (Bool-cases (has_prefix rest (codes "{"))) [
    | inl brace ↦
        scan_brace-IsScan has_bom s rest e (has_prefix-ne-nil rest b'{' brace)
          (rw (brace, scan_rest) at h)
    | inr other ↦ scan_fence-IsScan has_bom s rest e (rw (other, scan_rest) at h)
  ]

  -- The five slots of a file that scan accepts, joined, are the file: nothing is lost and nothing
  -- moves. Without front matter all of it is the body; a fenced block has its opening line and is
  -- empty or ends in a line feed; a JSON block is not empty, and what closes it is empty only at
  -- the end of the file. No block holds a NUL byte.
  pub scan-IsScan : (s : Bytes) {p : Parts} → scan json_object_end s ≡ ok p → IsScan s p
  unfolding scan
  scan-IsScan s {p} h = elim (Bool-cases (has_prefix s bom)) [
    | inl marked ↦ scan_rest-IsScan true s (drop 3 s) (mark-drop s marked) (rw marked at h)
    | inr plain ↦ scan_rest-IsScan false s s refl (rw plain at h)
  ]
