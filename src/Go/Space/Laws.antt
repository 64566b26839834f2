-- ===== src/Go/Space/Laws.antt =====
-- The fields of words with spaces between them.
use micawber.Go.Text.{cons_head}
use micawber.Go.Space.{is_space, mark, runs, fields}
use micawber.Go.Utf8.{decode_ascii}
use micawber.Prelude.{
  leb, sym, ◌∙◌, ap, ℕ, Bool, true, false, ◌&&◌, [], ◌∷◌, ◌++◌, ◌≡◌, refl, Bytes, ltb, all, arith,
  ◌<◌, ltb→lt, is_nil,
}

-- A visible character of ASCII.
abbrev pub is_word_byte : ℕ → Bool
is_word_byte b = leb 0x21 b && leb b 0x7E

abbrev pub IsWord : Bytes → Type 0
IsWord w = (is_nil w ≡ false) × (all is_word_byte w ≡ true)

mark_ascii :
    (x y : Bool) (b : ℕ) (s : Bytes) → b < 0x80 → mark 0 x (b ∷ s) ≡ (b, is_space b) ∷ mark 0 y s
unfolding mark
mark_ascii x y b [] h = rw (decode_ascii b [] h, mark) refl
mark_ascii x y b (c ∷ s) h = rw (decode_ascii b (c ∷ s) h, mark) refl

mark_space : (x : Bool) (s : Bytes) → mark 0 x (0x20 ∷ s) ≡ (0x20, true) ∷ mark 0 x s
mark_space x s = mark_ascii x x 0x20 s (omega arith)

mark_word :
    (x : Bool) (b : ℕ) (s : Bytes)
    → is_word_byte b ≡ true
    → mark 0 x (b ∷ s) ≡ (b, false) ∷ mark 0 x s
mark_word x b s h =
    let low : ltb b 0x80 ≡ true = ground arith in
    let seen : is_space b ≡ false = ground arith in
    rw (mark_ascii x x b s (ltb→lt b 0x80 low), seen) refl

fields-nil : fields [] ≡ []
unfolding fields
fields-nil = refl

pub fields-space : (s : Bytes) → fields (0x20 ∷ s) ≡ fields s
unfolding fields runs
fields-space s = ap runs (mark_space false s)

-- One more byte before a run.
fields-cons :
    (b c : ℕ) (s : Bytes)
    → is_word_byte b ≡ true
    → is_word_byte c ≡ true
    → fields (b ∷ c ∷ s) ≡ cons_head b (fields (c ∷ s))
unfolding fields runs
fields-cons b c s here next =
    let second = mark_word false c s next in
    ap runs (mark_word false b (c ∷ s) here ∙ ap (λ m. (b, false) ∷ m) second)
    ∙ ap (λ m. cons_head b (runs m)) (sym second)

pub fields-word_space : (w s : Bytes) → IsWord w → fields (w ++ (0x20 ∷ s)) ≡ w ∷ fields s
unfolding fields runs
fields-word_space [] s h = cc
fields-word_space (b ∷ []) s h =
    let here : is_word_byte b ≡ true = ground arith in
    ap runs (mark_word false b (0x20 ∷ s) here ∙ ap (λ m. (b, false) ∷ m) (mark_space false s))
fields-word_space (b ∷ c ∷ w) s h =
    let here : is_word_byte b ≡ true = ground arith in
    let next : is_word_byte c ≡ true = ground arith in
    let rest : all is_word_byte (c ∷ w) ≡ true = ground arith in
    fields-cons b c (w ++ (0x20 ∷ s)) here next
    ∙ ap (cons_head b) (fields-word_space (c ∷ w) s (refl, rest))

pub fields-word : (w : Bytes) → IsWord w → fields w ≡ w ∷ []
unfolding fields runs
fields-word [] h = cc
fields-word (b ∷ []) h =
    let here : is_word_byte b ≡ true = ground arith in ap runs (mark_word false b [] here)
fields-word (b ∷ c ∷ w) h =
    let here : is_word_byte b ≡ true = ground arith in
    let next : is_word_byte c ≡ true = ground arith in
    let rest : all is_word_byte (c ∷ w) ≡ true = ground arith in
    fields-cons b c w here next ∙ ap (cons_head b) (fields-word (c ∷ w) (refl, rest))
