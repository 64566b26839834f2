-- ===== src/Go/Path.antt =====
-- path.Clean, path.Base, path.Ext and path.Dir.
use micawber.Prelude.{
  not, all, ℕ, Bool, true, false, ◌||◌, List, [], ◌∷◌, ◌++◌, ◌≡◌, ◌≢◌, refl, sym, ap, ◌∙◌, Option,
  none, some, arith, Bytes, ◌==◌, if◌then◌else◌, is_nil, reverse, All, append-nil,
}
use mathlib.Core.List.{append_assoc, reverse-append}
use micawber.Go.Text.{equal, equal_iff, split, join, has_prefix, trim_right}
use micawber.Go.Text.Split.{split-ne-nil, join-split}

-- Where a ".." segment leaves the segments kept so far, last one first: it drops a name, stays
-- at the root of a rooted path, and is kept at the front of a relative one.
up : Bool → List Bytes → List Bytes
up true [] = []
up false [] = (b'.' ∷ b'.' ∷ []) ∷ []
up rooted (x ∷ kept) = if equal x (b'.' ∷ b'.' ∷ []) then (b'.' ∷ b'.' ∷ []) ∷ x ∷ kept else kept

-- The segments that stay, last one first.
kept_after : Bool → List Bytes → Bytes → List Bytes
unfolding up equal
kept_after rooted kept seg =
    if is_nil seg || equal seg (b'.' ∷ [])
    then kept
    else if equal seg (b'.' ∷ b'.' ∷ [])
    then up rooted kept
    else seg ∷ kept

kept_segments : Bool → List Bytes → List Bytes → List Bytes
unfolding kept_after
kept_segments rooted kept [] = reverse kept
kept_segments rooted kept (x ∷ xs) = kept_segments rooted (kept_after rooted kept x) xs

render : Bool → List Bytes → Bytes
unfolding join
render true xs = b'/' ∷ join b'/' xs
render false [] = b'.' ∷ []
render false (x ∷ xs) = join b'/' (x ∷ xs)

-- path.Clean.
unfoldable pub clean : Bytes → Bytes
unfolding kept_segments render has_prefix split
clean s =
    let rooted = has_prefix s (b'/' ∷ []) in render rooted (kept_segments rooted [] (split b'/' s))

-- A segment that path.Clean keeps wherever it stands.
abbrev pub IsName : Bytes → Type 0
IsName x = (x ≢ []) × (x ≢ b'.' ∷ []) × (x ≢ b'.' ∷ b'.' ∷ [])

kept_after_name :
    (rooted : Bool) (kept : List Bytes) (x : Bytes) → IsName x → kept_after rooted kept x ≡ x ∷ kept
unfolding kept_after
kept_after_name rooted kept [] h = absurd (h.0 refl)
kept_after_name rooted kept (c ∷ x) h =
    ground (arith, equal_iff (c ∷ x) (b'.' ∷ []), equal_iff (c ∷ x) (b'.' ∷ b'.' ∷ []))

kept_segments_names :
    (rooted : Bool) (kept xs : List Bytes)
    → All IsName xs
    → kept_segments rooted kept xs ≡ reverse kept ++ xs
unfolding kept_segments
kept_segments_names rooted kept [] h = sym (append-nil (reverse kept))
kept_segments_names rooted kept (x ∷ xs) h = rw (kept_after_name rooted kept x h.0) (
    kept_segments_names rooted (x ∷ kept) xs h.1
    ∙ rw (reverse-append (x ∷ []) kept) (append_assoc (reverse kept) (x ∷ []) xs))

render_relative : (xs : List Bytes) → xs ≢ [] → render false xs ≡ join b'/' xs
unfolding render
render_relative [] h = absurd (h refl)
render_relative (x ∷ xs) h = refl

-- A relative path of names only is already clean.
pub clean_names :
    (s : Bytes) → has_prefix s (b'/' ∷ []) ≡ false → All IsName (split b'/' s) → clean s ≡ s
unfolding clean
clean_names s relative names = rw relative (
    ap (render false) (kept_segments_names false [] (split b'/' s) names)
    ∙ render_relative (split b'/' s) (split-ne-nil b'/' s)
    ∙ join-split b'/' s)

-- path.Base of a path with no trailing slash.
abbrev pub last_or : Bytes → List Bytes → Bytes
last_or d [] = d
last_or d (x ∷ xs) = last_or x xs

-- path.Base: the final segment, trailing slashes removed, "." for the empty string.
unfoldable pub base : Bytes → Bytes
unfolding split trim_right
base s =
    if is_nil s
    then b'.' ∷ []
    else let stripped = trim_right (λ c. c == b'/') s in
      if is_nil stripped then b'/' ∷ [] else last_or [] (split b'/' stripped)

-- path.Ext: from the last dot after the last slash, or nothing.
ext_from : Option Bytes → Bytes → Bytes
ext_from found [] = elim found [ none ↦ [] | some e ↦ e ]
ext_from found (c ∷ s) =
    ext_from (if c == b'/' then none else if c == b'.' then some (c ∷ s) else found) s

unfoldable pub ext : Bytes → Bytes
unfolding ext_from
ext = ext_from none

-- The path up to its last slash, the slash included.
up_to_slash : Bytes → Bytes
up_to_slash [] = []
up_to_slash (c ∷ s) =
    let rest = up_to_slash s in if is_nil rest then (if c == b'/' then c ∷ [] else []) else c ∷ rest

-- path.Dir.
unfoldable pub dir : Bytes → Bytes
unfolding up_to_slash clean
dir s = clean (up_to_slash s)

-- Neither a dot nor a slash.
abbrev pub is_inside_ext : ℕ → Bool
is_inside_ext c = not (c == b'.' || c == b'/')

ext_from_kept : (e t : Bytes) → all is_inside_ext t ≡ true → ext_from (some e) t ≡ e
unfolding ext_from
ext_from_kept e [] h = refl
ext_from_kept e (c ∷ t) h = ground (arith, ext_from_kept e t)

ext_from-append :
    (s t : Bytes) (found : Option Bytes)
    → all is_inside_ext t ≡ true
    → ext_from found (s ++ (b'.' ∷ t)) ≡ b'.' ∷ t
unfolding ext_from
ext_from-append [] t found h = ext_from_kept (b'.' ∷ t) t h
ext_from-append (c ∷ s) t found h = ext_from-append s t _ h

-- The extension of a path that ends in one.
pub ext-append : (s t : Bytes) → all is_inside_ext t ≡ true → ext (s ++ (b'.' ∷ t)) ≡ b'.' ∷ t
unfolding ext
ext-append s t h = ext_from-append s t none h
