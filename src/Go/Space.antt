-- ===== src/Go/Space.antt =====
-- unicode.IsSpace, and what strings.Fields and strings.TrimSpace do with white space.
pub mod Laws
use micawber.Go.Text.{cons_head}
use micawber.Go.Utf8.{decode}
use micawber.Prelude.{
  ℕ, zero, suc, Bool, true, false, ◌&&◌, ◌||◌, List, [], ◌∷◌, Bytes, leb, ◌==◌, if◌then◌else◌,
  Option, none, some, is_nil,
}

-- unicode.IsSpace.
abbrev pub is_space : ℕ → Bool
is_space r =
    (leb 0x09 r && leb r 0x0D)
    || r == 0x20
    || r == 0x85
    || r == 0xA0
    || r == 0x1680
    || (leb 0x2000 r && leb r 0x200A)
    || r == 0x2028
    || r == 0x2029
    || r == 0x202F
    || r == 0x205F
    || r == 0x3000

-- The bytes of a string, each with whether its rune is white space. The first argument counts the
-- continuation bytes of the rune that the second one is about.
unfoldable pub mark : ℕ → Bool → Bytes → List (ℕ × Bool)
unfolding decode
mark k blank [] = []
mark (suc k) blank (b ∷ s) = (b, blank) ∷ mark k blank s
mark zero blank (b ∷ s) = elim (decode b s) [
  | none ↦ (b, false) ∷ mark 0 false s
  | some (r, w) ↦ (b, is_space r) ∷ mark w (is_space r) s
]

-- The runs of bytes that are not marked.
unfoldable pub runs : List (ℕ × Bool) → List Bytes
runs [] = []
runs ((b, true) ∷ m) = runs m
runs ((b, false) ∷ []) = (b ∷ []) ∷ []
runs ((b, false) ∷ (c, true) ∷ m) = (b ∷ []) ∷ runs m
runs ((b, false) ∷ (c, false) ∷ m) = cons_head b (runs ((c, false) ∷ m))

-- strings.Fields.
unfoldable pub fields : Bytes → List Bytes
unfolding mark runs
fields s = runs (mark 0 false s)

unfoldable pub trim_left_marked : List (ℕ × Bool) → List (ℕ × Bool)
trim_left_marked [] = []
trim_left_marked ((b, true) ∷ m) = trim_left_marked m
trim_left_marked ((b, false) ∷ m) = (b, false) ∷ m

unfoldable pub trim_right_marked : List (ℕ × Bool) → Bytes
trim_right_marked [] = []
trim_right_marked ((b, blank) ∷ m) =
    let rest = trim_right_marked m in if blank && is_nil rest then [] else b ∷ rest

-- strings.TrimSpace, bytes.TrimSpace.
unfoldable pub trim_space : Bytes → Bytes
unfolding mark trim_left_marked trim_right_marked
trim_space s = trim_right_marked (trim_left_marked (mark 0 false s))
