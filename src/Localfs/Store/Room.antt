-- ===== src/Localfs/Store/Room.antt =====
-- localfs/store.go: the bound on what copyInto reads.
use micawber.Go.Number.{max_int}
use micawber.Localfs.Store.Copy.{HasSize}
use micawber.Core.Asset.{negsuc, pos, Size}
use micawber.Core.Errors.{err, Result, Error, ok}
use micawber.Localfs.Root.{TempFile, Context}
use micawber.Prelude.{
  inr, inl, ◌==◌, Bool-cases, ◌∙◌, sym, false, zero, if◌then◌else◌, refl, length-take-le, ◌∷◌, none,
  Bool, length-append, ap, suc, arith, ◌+◌, true, ◌++◌, take, ◌<◌, [], ◌≡◌, length, some, Bytes, ℕ,
  Option,
}
use micawber.Localfs.Store.{
  limit_of, breaks, copy_from, chunk, within, is_at, less_by, eof, stopped, Setup, Stream,
}

-- The bound is not used up.
abbrev pub HasRoom : Option ℕ → Bytes → Bytes → Type 0
HasRoom none copied out = Unit
HasRoom (some m) copied out = length out < length copied + m

take-short : (m : ℕ) (b : Bytes) → length (take m b) < m → take m b ≡ b
take-short zero b short = absurd (omega arith)
take-short (suc m) [] short = refl
take-short (suc m) (x ∷ b) short = rw (take-short m b (omega arith)) refl

-- A piece behind which the bound has room is the whole of the chunk.
pub within-whole :
    (limit : Option ℕ) (copied b c out : Bytes)
    → out ≡ (copied ++ within limit b) ++ c
    → HasRoom limit copied out
    → within limit b ≡ b
within-whole none copied b c out joined room = refl
within-whole (some m) copied b c out joined room = take-short m b (
    omega (
      arith,
      ap length joined,
      length-append (copied ++ take m b) c,
      length-append copied (take m b),
    ))

pub HasRoom-less_by :
    (limit : Option ℕ) (copied b out : Bytes)
    → HasRoom limit copied out
    → HasRoom (less_by limit (length (within limit b))) (copied ++ within limit b) out
HasRoom-less_by none copied b out room = tt
HasRoom-less_by (some m) copied b out room =
    omega (arith, length-append copied (take m b), length-take-le m b)

module _ {World Handle : Type 0} (setup : Setup World Handle) where
  pub stopped-ok :
      (ctx : Context) (limit : Option ℕ) (k : ℕ) (copied x : Bytes)
      → stopped setup ctx limit k copied ≡ some (ok x)
      → (x ≡ copied) × (is_at limit ≡ true)
  unfolding stopped
  stopped-ok ctx limit k copied x h = go (ctx.at_read k) (is_at limit) h
    where
      go :
          (o : Option Error) (b : Bool)
          → (elim o as (λ _. Option (Result Bytes)) [
            | some e ↦ some (err e)
            | none ↦ if b then some (ok copied) else none
          ])
            ≡ some (ok x)
          → (x ≡ copied) × (b ≡ true)
      go (some e) b h = cc
      go none true h = (cc, refl)
      go none false h = cc

  pub used_up :
      (limit : Option ℕ) (copied : Bytes) → is_at limit ≡ true → HasRoom limit copied copied → ⊥
  used_up none copied at room = cc
  used_up (some m) copied at room = ground (arith, at, room)

  module _ (ctx : Context) (t : TempFile Handle) where
    copy_from-stopped :
        (limit : Option ℕ) (k : ℕ) (copied : Bytes) (s : Stream) (w : World) (r : Result Bytes)
        → stopped setup ctx limit k copied ≡ some r
        → copy_from setup ctx t limit k copied s w ≡ (w, r)
    unfolding copy_from
    copy_from-stopped limit k copied eof w r h = rw h refl
    copy_from-stopped limit k copied (breaks e) w r h = rw h refl
    copy_from-stopped limit k copied (chunk b rest) w r h = rw h refl

    stopped-used_up :
        (k : ℕ) (copied : Bytes)
        → (r : Result Bytes) × (stopped setup ctx (some 0) k copied ≡ some r)
    unfolding stopped
    stopped-used_up k copied = go (ctx.at_read k)
      where
        go :
            (o : Option Error)
            → (r : Result Bytes) × ((elim o as (λ _. Option (Result Bytes)) [
              | some e ↦ some (err e)
              | none ↦ some (ok copied)
            ])
                ≡ some r)
        go (some e) = (err e, refl)
        go none = (ok copied, refl)

    -- The largest size is read as none at all, which is too short.
    pub HasRoom-limit_of :
        (size : Size) (s : Stream) (w last : World) (out : Bytes)
        → HasSize size (length out)
        → copy_from setup ctx t (limit_of size) 0 [] s w ≡ (last, ok out)
        → HasRoom (limit_of size) [] out
    unfolding limit_of
    HasRoom-limit_of (pos n) s w last out sized ran = elim (Bool-cases (n == max_int)) [
      | inl largest ↦
          let (r, h) = stopped-used_up 0 [] in
          let nothing : (w, r) ≡ (last, ok out) =
            sym (copy_from-stopped (some 0) 0 [] s w r h) ∙ rw (largest, limit_of) at ran in
          let (same, at) = stopped-ok ctx (some 0) 0 [] out (h ∙ ap some (ap (λ o. o.1) nothing)) in
          let empty : length out ≡ 0 = ap length same in
          let full : n ≡ max_int = ground (arith, largest) in
          absurd (omega (arith, empty, full, sized))
      | inr smaller ↦ rw (smaller, limit_of) (omega arith)
    ]
    HasRoom-limit_of (negsuc zero) s w last out sized ran = tt
    HasRoom-limit_of (negsuc (suc n)) s w last out sized ran = absurd sized
