-- ===== src/Localfs/Store/Copy.antt =====
-- localfs/store.go: what copyInto writes.
use micawber.Prelude.{
  false, inr, refl, zero, inl, ◌==◌, suc, codes, [], Bool-cases, none, ◌≡◌, length-take-le, Option,
  ◌++◌, ◌-◌, take, arith, some, length, ◌+◌, ◌≤◌, Bytes, ℕ,
}
use micawber.Core.Asset.{negsuc, pos, Asset, Size}
use micawber.Core.Digest.{Digest, new_digest}
use micawber.Core.Errors.{wrap-ok, wrap, Result, ok, err}
use micawber.Core.Program.{Program, lift, or_fail, next_step, ◌>>◌}
use micawber.Go.Number.{max_int}
use micawber.Localfs.Root.{TempFile, write_temp}
use micawber.Localfs.Store.{
  is_wrong_size, unless, Setup, Context, Stream, eof, breaks, chunk, limit_of, copy_from, copy_into,
  stopped, digest_of,
}

-- What a declared size says of the number of bytes: the size itself, or nothing when unknown.
abbrev pub HasSize : Size → ℕ → Type 0
HasSize (pos n) m = n ≡ m
HasSize (negsuc zero) m = Unit
HasSize (negsuc (suc n)) m = ⊥

is_wrong_size-HasSize : (size : Size) (m : ℕ) → is_wrong_size size m ≡ false → HasSize size m
unfolding is_wrong_size
is_wrong_size-HasSize (pos n) m h = ground arith
is_wrong_size-HasSize (negsuc zero) m h = tt
is_wrong_size-HasSize (negsuc (suc n)) m h = cc

limit_of-pos : (n : ℕ) → (m : ℕ) × (limit_of (pos n) ≡ some m) × (m ≤ n + 1)
unfolding limit_of
limit_of-pos n = elim (Bool-cases (n == max_int)) [
  | inl largest ↦ (0, rw (largest, limit_of) refl, omega arith)
  | inr smaller ↦ (n + 1, rw (smaller, limit_of) refl, omega arith)
]

module _ {World Handle : Type 0} (setup : Setup World Handle) where
  -- The digest is made of the world that the copy left.
  pub copy_into-world :
      (ctx : Context) (t : TempFile Handle) (a : Asset) (s : Stream) (w : World)
      → (copy_into setup ctx t a s w).0 ≡ (copy_from setup ctx t (limit_of a.size) 0 [] s w).0
  unfolding copy_into
  copy_into-world ctx t a s w = go (copy_from setup ctx t (limit_of a.size) 0 [] s w)
    where
      go :
          (out : World × Result Bytes)
          → (or_fail
              (λ copied. lift (digest_of setup a copied))
              (wrap "localfs: put %q: %w" a.key.k out.1)
              out.0).0
            ≡ out.0
      go (v, ok copied) = refl
      go (v, err e) = refl

  -- The bytes that were copied have the declared size, and the digest is theirs.
  pub record IsCopied (a : Asset) (copied : Bytes) (digest : Digest) : Type 0 where
    pub sized : HasSize a.size (length copied)
    pub summed : new_digest setup.to_lower (codes "sha256") (setup.sha256 copied) ≡ ok digest

  digest_of-IsCopied :
      (a : Asset) (copied : Bytes) {digest : Digest}
      → digest_of setup a copied ≡ ok digest
      → IsCopied a copied digest
  unfolding digest_of
  digest_of-IsCopied a copied {digest} h =
      elim (Bool-cases (is_wrong_size a.size (length copied))) [
        | inl wrong ↦ cc (rw (wrong, digest_of) at h)
        | inr right ↦ record {
          sized = is_wrong_size-HasSize a.size (length copied) right;
          summed =
              wrap-ok "localfs: put %q: %w" a.key.k
                (new_digest setup.to_lower (codes "sha256") (setup.sha256 copied))
                (rw (right, digest_of) at h);
        }
      ]

  pub copy_into-IsCopied :
      (ctx : Context) (t : TempFile Handle) (a : Asset) (s : Stream) (w : World) {digest : Digest}
      → (copy_into setup ctx t a s w).1 ≡ ok digest
      → (copied : Bytes) × ((copy_from setup ctx t (limit_of a.size) 0 [] s w).1 ≡ ok copied)
        × IsCopied a copied digest
  unfolding copy_into
  copy_into-IsCopied ctx t a s w {digest} h =
      go (copy_from setup ctx t (limit_of a.size) 0 [] s w) h
    where
      go :
          (out : World × Result Bytes)
          → (or_fail
              (λ copied. lift (digest_of setup a copied))
              (wrap "localfs: put %q: %w" a.key.k out.1)
              out.0).1
            ≡ ok digest
          → (copied : Bytes) × (out.1 ≡ ok copied) × IsCopied a copied digest
      go (v, ok copied) h = (copied, refl, digest_of-IsCopied a copied h)
      go (v, err e) h = cc

module _ {World Handle : Type 0} (setup : Setup World Handle) (written : World → ℕ)
    (grows : (file : Handle) (b : Bytes) (w : World)
      → written (setup.fs.write file b w).0 ≤ written w + length b) where
  -- One turn that writes p bytes at most, and leaves what is left of the bound to the others.
  turn-bounded :
      (o : Option (Result Bytes)) (m : Program World (Unit {0})) (later : Program World Bytes)
      (p n : ℕ) (w : World)
      → p ≤ n
      → written (m w).0 ≤ written w + p
      → ((v : World) → written (later v).0 ≤ written v + (n - p))
      → written (unless setup o (m >> later) w).0 ≤ written w + n
  turn-bounded (some r) m later p n w fits one rest = omega arith
  turn-bounded none m later p n w fits one rest = go (m w) one
    where
      go :
          (out : World × Result (Unit {0}))
          → written out.0 ≤ written w + p
          → written (next_step (or_fail (λ _. later)) out).0 ≤ written w + n
      go (v, ok _) one = omega (arith, rest v)
      go (v, err e) one = omega arith

  copy_from-bounded :
      (ctx : Context) (t : TempFile Handle) (n k : ℕ) (copied : Bytes) (s : Stream) (w : World)
      → written (copy_from setup ctx t (some n) k copied s w).0 ≤ written w + n
  unfolding copy_from write_temp
  copy_from-bounded ctx t n k copied eof w = omega arith
  copy_from-bounded ctx t n k copied (breaks e) w = omega arith
  copy_from-bounded ctx t n k copied (chunk b rest) w =
      let piece = take n b in
      turn-bounded (stopped setup ctx (some n) k copied) (write_temp setup.fs t piece)
        (copy_from setup ctx t (some (n - length piece)) (k + 1) (copied ++ piece) rest)
        (length piece) n w (length-take-le n b) (grows t.file piece w)
        (copy_from-bounded ctx t (n - length piece) (k + 1) (copied ++ piece) rest)

  -- Of a measure that a write raises by at most the number of its bytes, such as the length
  -- of the file: when the size n is declared, copyInto raises it by at most n + 1, whatever
  -- the reader gives, and when it fails as well.
  pub copy_into-bounded :
      (ctx : Context) (t : TempFile Handle) (a : Asset) (s : Stream) (n : ℕ) (w : World)
      → a.size ≡ pos n
      → written (copy_into setup ctx t a s w).0 ≤ written w + (n + 1)
  copy_into-bounded ctx t a s n w declared =
      let (m, limit, fits) = limit_of-pos n in
      let bound = copy_from-bounded ctx t m 0 [] s w in
      let same = copy_into-world setup ctx t a s w in rw (same, declared, limit) (omega arith)
