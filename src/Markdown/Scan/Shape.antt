-- ===== src/Markdown/Scan/Shape.antt =====
-- The slots of a scanned file, and what each holds in each format.
use micawber.Go.Lines.{ends_newline}
use micawber.Go.Text.{contains_byte}
use micawber.Markdown.Document.{zero_layout, bom}
use micawber.Core.FrontMatter.{json, toml, yaml, no_format, other_format, Format}
use micawber.Markdown.Scan.{Parts}
use micawber.Prelude.{true, false, ◌≢◌, ◌⊎◌, [], ◌≡◌, ◌++◌, if◌then◌else◌, Bytes, Bool}

abbrev pub mark : Bool → Bytes
mark b = if b then bom else []

-- The concatenation that Bytes writes.
abbrev pub slots : Parts → Bytes
slots p = mark p.layout.has_bom ++ (p.layout.opening ++ (p.raw ++ (p.layout.closing ++ p.body)))

-- An empty block, or one whose last line ends in a line feed.
abbrev pub IsTerminated : Bytes → Type 0
IsTerminated s = (s ≡ []) ⊎ (ends_newline s ≡ true)

-- What the slots hold, by the format that was recognised.
abbrev pub HasShape : Format → Parts → Type 0
HasShape no_format p = (p.layout ≡ zero_layout) × (p.raw ≡ [])
HasShape yaml p = (p.layout.opening ≢ []) × IsTerminated p.raw
HasShape toml p = (p.layout.opening ≢ []) × IsTerminated p.raw
HasShape json p = (p.layout.opening ≡ []) × (p.raw ≢ []) × (p.layout.closing ≡ [] → p.body ≡ [])
HasShape (other_format s) p = ⊥

pub record IsScan (s : Bytes) (p : Parts) : Type 0 where
  pub whole : slots p ≡ s
  pub shape : HasShape p.format p
  pub no_nul : contains_byte 0 p.raw ≡ false
