-- ===== src/Localfs/Key/Devices.antt =====
-- localfs/key.go: the names of the Windows devices, with what may stand behind them.
use micawber.Prelude.{
  &&_iff, ◌⊎◌, sym, ◌+◌, inr, subst, leb, refl, arith, inl, ◌||◌, if◌then◌else◌, ◌++◌, true, ◌&&◌,
  not, ◌==◌, map, [], ◌≡◌, Bool, all, ◌∷◌, codes, ℕ, Bytes, List,
}
use micawber.Go.Utf8.{decode}
use micawber.Go.Text.{trim_right}
use micawber.Localfs.Key.{is_reserved_base_name, is_reserved_name, stem}

-- What may follow COM and LPT, the superscript digits in UTF-8.
abbrev pub digits : List Bytes
digits =
    codes "1"
    ∷ codes "2"
    ∷ codes "3"
    ∷ codes "4"
    ∷ codes "5"
    ∷ codes "6"
    ∷ codes "7"
    ∷ codes "8"
    ∷ codes "9"
    ∷ (0xC2 ∷ 0xB9 ∷ [])
    ∷ (0xC2 ∷ 0xB2 ∷ [])
    ∷ (0xC2 ∷ 0xB3 ∷ [])
    ∷ []

abbrev pub ports : Bytes → List Bytes
ports kind = map (λ d. kind ++ d) digits

-- The names of the devices, in capitals.
abbrev pub device_names : List Bytes
device_names =
    codes "CON"
    ∷ codes "PRN"
    ∷ codes "AUX"
    ∷ codes "NUL"
    ∷ codes "CONIN$"
    ∷ codes "CONOUT$"
    ∷ (ports (codes "COM") ++ ports (codes "LPT"))

-- Every way to write a text with each of its letters A to Z as it is or small.
abbrev pub spellings : Bytes → List Bytes
spellings [] = [] ∷ []
spellings (c ∷ s) =
    let rest = spellings s in
    let as_it_is = map (λ t. c ∷ t) rest in
    if leb b'A' c && leb c b'Z' then as_it_is ++ map (λ t. (c + 32) ∷ t) rest else as_it_is

abbrev pub IsAmong : Bytes → List Bytes → Type 0
IsAmong s [] = ⊥
IsAmong s (t ∷ ts) = (s ≡ t) ⊎ IsAmong s ts

abbrev pub IsSpelt : Bytes → List Bytes → Type 0
IsSpelt s [] = ⊥
IsSpelt s (name ∷ names) = IsAmong s (spellings name) ⊎ IsSpelt s names

-- Nothing, or text that opens with a dot or a colon.
abbrev pub IsTail : Bytes → Type 0
IsTail [] = Unit
IsTail (c ∷ s) = (c == b'.' || c == b':') ≡ true

-- A device, whatever the case of its letters, with spaces behind it and then a tail.
pub record IsDevice (seg : Bytes) : Type 0 where
  pub name : Bytes
  pub spaces : Bytes
  pub tail : Bytes
  pub named : IsSpelt name device_names
  pub blank : all (λ c. c == b' ') spaces ≡ true
  pub ends : IsTail tail
  pub whole : seg ≡ name ++ (spaces ++ tail)

-- No space, dot or colon.
plain : ℕ → Bool
plain c = not (c == b' ') && not (c == b'.' || c == b':')

module _ (unicode : Bytes → Bytes) where
  known : Bytes → Bool
  known s = all plain s && is_reserved_base_name unicode s

  known-IsAmong :
      (s : Bytes) (texts : List Bytes) → IsAmong s texts → all known texts ≡ true → known s ≡ true
  known-IsAmong s [] none_of h = absurd none_of
  known-IsAmong s (t ∷ texts) (inl same) h = subst (λ x. known x ≡ true) (sym same) (ground arith)
  known-IsAmong s (t ∷ texts) (inr later) h = known-IsAmong s texts later (ground arith)

  known-IsSpelt :
      (s : Bytes) (names : List Bytes)
      → IsSpelt s names
      → all (λ n. all known (spellings n)) names ≡ true
      → known s ≡ true
  known-IsSpelt s [] none_of h = absurd none_of
  known-IsSpelt s (n ∷ names) (inl here) h = known-IsAmong s (spellings n) here (ground arith)
  known-IsSpelt s (n ∷ names) (inr later) h = known-IsSpelt s names later (ground arith)

  devices_known : all (λ n. all known (spellings n)) device_names ≡ true
  unfolding known plain is_reserved_base_name decode
  devices_known = refl

stem_tail : (s : Bytes) → IsTail s → stem s ≡ []
unfolding stem
stem_tail [] h = refl
stem_tail (c ∷ s) h = rw h refl

stem_spaces : (s t : Bytes) → all (λ c. c == b' ') s ≡ true → IsTail t → stem (s ++ t) ≡ s
unfolding stem
stem_spaces [] t h tail = stem_tail t tail
stem_spaces (c ∷ s) t h tail = ground (arith, stem_spaces s t)

stem_plain : (s t : Bytes) → all plain s ≡ true → stem (s ++ t) ≡ s ++ stem t
unfolding stem plain
stem_plain [] t h = refl
stem_plain (c ∷ s) t h = ground (arith, stem_plain s t)

trim_spaces : (s : Bytes) → all (λ c. c == b' ') s ≡ true → trim_right (λ c. c == b' ') s ≡ []
unfolding trim_right
trim_spaces [] h = refl
trim_spaces (c ∷ s) h = ground (arith, trim_spaces s)

trim_plain :
    (s t : Bytes)
    → all plain s ≡ true
    → trim_right (λ c. c == b' ') t ≡ []
    → trim_right (λ c. c == b' ') (s ++ t) ≡ s
unfolding trim_right plain
trim_plain [] t h e = e
trim_plain (c ∷ s) t h e = ground (arith, trim_plain s t)

-- isReservedName tells every device, whatever stands behind it.
pub is_reserved_name-IsDevice :
    (unicode : Bytes → Bytes) (seg : Bytes) → IsDevice seg → is_reserved_name unicode seg ≡ true
unfolding is_reserved_name known
is_reserved_name-IsDevice unicode seg d =
    let known_name = known-IsSpelt unicode d.name device_names d.named (devices_known unicode) in
    let parts = (&&_iff (all plain d.name) (is_reserved_base_name unicode d.name)).0 known_name in
    rw
      (
        d.whole,
        stem_plain d.name (d.spaces ++ d.tail) parts.0,
        stem_spaces d.spaces d.tail d.blank d.ends,
        trim_plain d.name d.spaces parts.0 (trim_spaces d.spaces d.blank),
      )
      parts.1
