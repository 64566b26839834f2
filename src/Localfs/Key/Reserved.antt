-- ===== src/Localfs/Key/Reserved.antt =====
-- localfs/key.go: what isReservedName tells of text that is ASCII is a device.
use micawber.Go.Utf8.{rune_error, decode, decode_ascii, runes_from, runes}
use micawber.Prelude.{
  none, some, take-append-drop, Option, drop, take, ◌==◌, codes, length, true, false, Bool, ltb→lt,
  ap₂, zero, if◌then◌else◌, ◌∙◌, ltb, refl, &&_iff, ◌<◌, ◌-◌, suc, sym, arith, ◌&&◌, [], subst, leb,
  ap, inr, ◌+◌, inl, ◌⊎◌, ◌∷◌, ◌++◌, ◌≤◌, map, ◌≡◌, List, ℕ, Bytes,
}
use micawber.Go.Fold.{upper_byte, fold_rune, is_ascii, to_upper, equal_fold}
use micawber.Go.Text.{equal, equal_iff}
use micawber.Localfs.Key.Spellings.{IsAmong-left, IsAmong-right, IsAmong-map, IsAmong-one_of}
use micawber.Localfs.Key.Devices.{IsAmong, device_names, digits, ports}
use micawber.Localfs.Key.{port_digits, is_port_digit, is_one_of, is_reserved_base_name}

nine : (k : ℕ) → k ≤ 8 → IsAmong (map upper_byte ((49 + k) ∷ [])) digits
unfolding upper_byte
nine zero h = inl refl
nine (suc zero) h = inr (inl refl)
nine (suc (suc zero)) h = inr (inr (inl refl))
nine (suc (suc (suc zero))) h = inr (inr (inr (inl refl)))
nine (suc (suc (suc (suc zero)))) h = inr (inr (inr (inr (inl refl))))
nine (suc (suc (suc (suc (suc zero))))) h = inr (inr (inr (inr (inr (inl refl)))))
nine (suc (suc (suc (suc (suc (suc zero)))))) h = inr (inr (inr (inr (inr (inr (inl refl))))))
nine (suc (suc (suc (suc (suc (suc (suc zero))))))) h =
    inr (inr (inr (inr (inr (inr (inr (inl refl)))))))
nine (suc (suc (suc (suc (suc (suc (suc (suc zero)))))))) h =
    inr (inr (inr (inr (inr (inr (inr (inr (inl refl))))))))
nine (suc (suc (suc (suc (suc (suc (suc (suc (suc k))))))))) h = absurd (omega arith)

port_digit_cases : (s : Bytes) → is_port_digit s ≡ true → IsAmong (map upper_byte s) digits
unfolding is_port_digit equal upper_byte
port_digit_cases [] h = cc
port_digit_cases (d ∷ []) h =
    let back : 49 + (d - 49) ≡ d = ground arith in
    subst (λ x. IsAmong (map upper_byte (x ∷ [])) digits) back (nine (d - 49) (ground arith))
port_digit_cases (c ∷ d ∷ s) h = elim (IsAmong-one_of (c ∷ d ∷ s) port_digits h) [
  | inl same ↦ spelt same (inr (inr (inr (inr (inr (inr (inr (inr (inr (inl refl))))))))))
  | inr (inl same) ↦
      spelt same (inr (inr (inr (inr (inr (inr (inr (inr (inr (inr (inl refl)))))))))))
  | inr (inr (inl same)) ↦
      spelt same (inr (inr (inr (inr (inr (inr (inr (inr (inr (inr (inr (inl refl))))))))))))
  | inr (inr (inr none_of)) ↦ absurd none_of
]
  where
    spelt :
        {x y : Bytes}
        → x ≡ y
        → IsAmong (map upper_byte y) digits
        → IsAmong (map upper_byte x) digits
    spelt same = subst (λ x. IsAmong (map upper_byte x) digits) (sym same)

-- Of an ASCII byte, folding changes the case only.
upper_byte-fold_rune : (c : ℕ) → c < 0x80 → upper_byte (fold_rune c) ≡ upper_byte c
unfolding upper_byte fold_rune
upper_byte-fold_rune c h = ground arith

upper-fold : (s : Bytes) → is_ascii s ≡ true → map upper_byte (map fold_rune s) ≡ map upper_byte s
upper-fold [] h = refl
upper-fold (c ∷ s) h =
    let both = (&&_iff (ltb c 0x80) (is_ascii s)).0 h in
    ap₂ (λ x xs. x ∷ xs) (upper_byte-fold_rune c (ltb→lt c 0x80 both.0)) (upper-fold s both.1)

runes_ascii : (s : Bytes) → is_ascii s ≡ true → runes s ≡ s
unfolding runes runes_from
runes_ascii [] h = refl
runes_ascii (c ∷ s) h =
    let both = (&&_iff (ltb c 0x80) (is_ascii s)).0 h in
    decoded c s (decode c s) (decode_ascii c s (ltb→lt c 0x80 both.0))
    ∙ ap (λ t. c ∷ t) (runes_ascii s both.1)
  where
    decoded :
        (c : ℕ) (s : Bytes) (o : Option (ℕ × ℕ))
        → o ≡ some (c, 0)
        → (elim o as (λ x. List ℕ) [
          | none ↦ rune_error ∷ runes_from 0 s
          | some (r, w) ↦ r ∷ runes_from w s
        ])
          ≡ c ∷ runes_from 0 s
    decoded c s none h = cc
    decoded c s (some (r, w)) h =
        let here : r ≡ c = cc in let width : w ≡ 0 = cc in rw (here, width) refl

-- An ASCII text that folds as a name does has that name's capitals.
equal_fold-capitals :
    (s t : Bytes)
    → is_ascii s ≡ true
    → equal_fold s t ≡ true
    → map upper_byte s ≡ map upper_byte (map fold_rune (runes t))
unfolding equal_fold
equal_fold-capitals s t ascii h =
    sym (upper-fold s ascii)
    ∙ ap (λ x. map upper_byte (map fold_rune x)) (sym (runes_ascii s ascii))
    ∙ ap (map upper_byte) ((equal_iff (map fold_rune (runes s)) (map fold_rune (runes t))).0 h)

to_upper_ascii :
    (unicode : Bytes → Bytes) (s : Bytes)
    → is_ascii s ≡ true
    → to_upper unicode s ≡ map upper_byte s
unfolding to_upper
to_upper_ascii unicode s h = rw h refl

-- Four tests in a row.
four_tests :
    (a b d e f : Bool)
    → (if a then true else if b then d else if e then true else f) ≡ true
    → (a ≡ true) ⊎ (((b ≡ true) × (d ≡ true)) ⊎ ((e ≡ true) ⊎ (f ≡ true)))
four_tests true b d e f h = inl refl
four_tests false true d e f h = inr (inl (refl, h))
four_tests false false d true f h = inr (inr (inl refl))
four_tests false false d false f h = inr (inr (inr h))

is_ascii-take : (n : ℕ) (s : Bytes) → is_ascii s ≡ true → is_ascii (take n s) ≡ true
is_ascii-take zero s h = refl
is_ascii-take (suc n) [] h = refl
is_ascii-take (suc n) (c ∷ s) h = ground (arith, is_ascii-take n s)

port_named : (a b kind : Bytes) → a ≡ kind → IsAmong b digits → IsAmong (a ++ b) (ports kind)
port_named a b kind same h =
    subst (λ x. IsAmong (x ++ b) (ports kind)) (sym same) (IsAmong-map (λ d. kind ++ d) b digits h)

map_upper-append : (a b : Bytes) → map upper_byte (a ++ b) ≡ map upper_byte a ++ map upper_byte b
map_upper-append [] b = refl
map_upper-append (c ∷ a) b = ap (λ s. upper_byte c ∷ s) (map_upper-append a b)

port_capitals :
    (s : Bytes)
    → IsAmong (map upper_byte (take 3 s)) (codes "COM" ∷ codes "LPT" ∷ [])
    → is_port_digit (drop 3 s) ≡ true
    → IsAmong (map upper_byte s) (ports (codes "COM") ++ ports (codes "LPT"))
port_capitals s kind digit =
    let a = map upper_byte (take 3 s) in
    let b = map upper_byte (drop 3 s) in
    let split_up : map upper_byte s ≡ a ++ b =
      ap (map upper_byte) (sym (take-append-drop 3 s)) ∙ map_upper-append (take 3 s) (drop 3 s) in
    let last = port_digit_cases (drop 3 s) digit in
    let of_com = ports (codes "COM") in
    let of_lpt = ports (codes "LPT") in
    subst (λ x. IsAmong x (of_com ++ of_lpt)) (sym split_up)
      (elim kind [
        | inl first ↦ IsAmong-left (a ++ b) of_com of_lpt (port_named a b (codes "COM") first last)
        | inr (inl second) ↦
            IsAmong-right (a ++ b) of_com of_lpt (port_named a b (codes "LPT") second last)
        | inr (inr none_of) ↦ absurd none_of
      ])

-- Of ASCII text, what isReservedBaseName tells has the capitals of a device.
pub reserved-capitals :
    (unicode : Bytes → Bytes) (s : Bytes)
    → is_ascii s ≡ true
    → is_reserved_base_name unicode s ≡ true
    → IsAmong (map upper_byte s) device_names
unfolding is_reserved_base_name decode
reserved-capitals unicode s ascii h =
    let n = length s in
    let plain_names = codes "CON" ∷ codes "PRN" ∷ codes "AUX" ∷ codes "NUL" ∷ [] in
    let kinds = codes "COM" ∷ codes "LPT" ∷ [] in
    let consoles = codes "CONIN$" ∷ codes "CONOUT$" ∷ [] in
    let all_ports = ports (codes "COM") ++ ports (codes "LPT") in
    let u = map upper_byte s in
    elim (four_tests (n == 3 && is_one_of (to_upper unicode s) plain_names)
      (leb 4 n && is_one_of (to_upper unicode (take 3 s)) kinds) (is_port_digit (drop 3 s))
      (n == 6 && equal_fold s (codes "CONIN$")) (n == 7 && equal_fold s (codes "CONOUT$")) h) [
        | inl device ↦
            let named =
              ((&&_iff (n == 3) (is_one_of (to_upper unicode s) plain_names)).0 device).1 in
            IsAmong-left u plain_names (consoles ++ all_ports)
              (IsAmong-one_of u plain_names (rw (to_upper_ascii unicode s ascii) at named))
        | inr (inl (port, digit)) ↦
            let of_kind =
              ((&&_iff (leb 4 n) (is_one_of (to_upper unicode (take 3 s)) kinds)).0 port).1 in
            let capitals =
              IsAmong-one_of (map upper_byte (take 3 s)) kinds
                (rw (to_upper_ascii unicode (take 3 s) (is_ascii-take 3 s ascii)) at of_kind) in
            IsAmong-right u plain_names (consoles ++ all_ports)
              (IsAmong-right u consoles all_ports (port_capitals s capitals digit))
        | inr (inr (inl console)) ↦
            let folds = ((&&_iff (n == 6) (equal_fold s (codes "CONIN$"))).0 console).1 in
            IsAmong-right u plain_names (consoles ++ all_ports)
              (inl (equal_fold-capitals s (codes "CONIN$") ascii folds))
        | inr (inr (inr console)) ↦
            let folds = ((&&_iff (n == 7) (equal_fold s (codes "CONOUT$"))).0 console).1 in
            IsAmong-right u plain_names (consoles ++ all_ports)
              (inr (inl (equal_fold-capitals s (codes "CONOUT$") ascii folds)))
      ]
