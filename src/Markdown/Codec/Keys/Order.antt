-- ===== src/Markdown/Codec/Keys/Order.antt =====
-- markdown/codec.go: orderedKeys and the order in which a map is walked.
use micawber.Go.Sort.{sort}
use micawber.Go.Sort.Laws.{sort-Permᴰ}
use micawber.Go.Text.{equal}
use micawber.Prelude.{
  false, true, subst, if◌then◌else◌, ◌∙◌, ◌++◌, arith, ap, ◌||◌, refl, ap₂, [], ◌∷◌, any, ◌≡◌, Bool,
  List, Bytes,
}
use mathlib.Core.List.{Permᴰ}
use mathlib.Core.List.Permᴰ
use micawber.Markdown.Codec.Keys.{mem, surviving, unseen, ordered_keys}
use micawber.Core.Value.{Fields, keys, has_key}

any-Permᴰ : (p : Bytes → Bool) {xs ys : List Bytes} → Permᴰ xs ys → any p xs ≡ any p ys
any-Permᴰ p Permᴰ.nil = refl
any-Permᴰ p (Permᴰ.cons e q) = ap₂ (λ z w. p z || w) e (any-Permᴰ p q)
any-Permᴰ p (Permᴰ.swap {a} {b} {l = l} e f) =
    or_swap (p a) (p b) (any p l) ∙ ap₂ (λ z w. p z || (p w || any p l)) f e
  where
    or_swap : (x y z : Bool) → (x || (y || z)) ≡ (y || (x || z))
    or_swap x y z = ground arith
any-Permᴰ p (Permᴰ.trans q r) = any-Permᴰ p q ∙ any-Permᴰ p r

kept_cons :
    (b : Bool) (a : Bytes) {xs ys : List Bytes}
    → Permᴰ xs ys
    → Permᴰ (if b then xs else a ∷ xs) (if b then ys else a ∷ ys)
kept_cons true a p = p
kept_cons false a p = Permᴰ.cons refl p

kept_swap :
    (x y : Bool) (a b : Bytes) (l : List Bytes)
    → Permᴰ
        (if x then (if y then l else b ∷ l) else a ∷ (if y then l else b ∷ l))
        (if y then (if x then l else a ∷ l) else b ∷ (if x then l else a ∷ l))
kept_swap true true a b l = Permᴰ.refl l
kept_swap true false a b l = Permᴰ.refl (b ∷ l)
kept_swap false true a b l = Permᴰ.refl (a ∷ l)
kept_swap false false a b l = Permᴰ.swap refl refl

unseen-Permᴰ :
    (seen : List Bytes) {xs ys : List Bytes} → Permᴰ xs ys → Permᴰ (unseen seen xs) (unseen seen ys)
unfolding unseen
unseen-Permᴰ seen Permᴰ.nil = Permᴰ.nil
unseen-Permᴰ seen (Permᴰ.cons {a} {l₁ = l} {l₂ = m} e q) =
    subst (λ z. Permᴰ (unseen seen (a ∷ l)) (unseen seen (z ∷ m))) e
      (kept_cons (mem a seen) a (unseen-Permᴰ seen q))
unseen-Permᴰ seen (Permᴰ.swap {a} {b} {a'} {l = l} e f) =
    subst (λ z. Permᴰ (unseen seen (a ∷ b ∷ l)) (unseen seen (a' ∷ z ∷ l))) e
      (subst (λ z. Permᴰ (unseen seen (a ∷ b ∷ l)) (unseen seen (z ∷ a ∷ l))) f
        (kept_swap (mem a seen) (mem b seen) a b (unseen seen l)))
unseen-Permᴰ seen (Permᴰ.trans q r) = Permᴰ.trans (unseen-Permᴰ seen q) (unseen-Permᴰ seen r)

surviving-eq :
    (fs gs : Fields) (seen authored : List Bytes)
    → ((k : Bytes) → has_key k fs ≡ has_key k gs)
    → surviving fs seen authored ≡ surviving gs seen authored
unfolding surviving
surviving-eq fs gs seen [] h = refl
surviving-eq fs gs seen (k ∷ ks) h =
    rw (h k, surviving-eq fs gs (k ∷ seen) ks h, surviving-eq fs gs seen ks h)

-- Go walks a map in any order: for two listings of the same keys, one a permutation of the
-- other, orderedKeys returns the same list.
pub ordered_keys-Perm :
    (fs gs : Fields) (authored : List Bytes)
    → Permᴰ (keys fs) (keys gs)
    → ordered_keys fs authored ≡ ordered_keys gs authored
unfolding ordered_keys
ordered_keys-Perm fs gs authored p =
    let kept = surviving fs [] authored in
    let same : kept ≡ surviving gs [] authored =
      surviving-eq fs gs [] authored (λ k. any-Permᴰ (λ j. equal j k) p) in
    ap (λ z. kept ++ z) (sort-Permᴰ (unseen-Permᴰ kept p))
    ∙ ap (λ z. z ++ sort (unseen z (keys gs))) same
