-- ===== src/Localfs/MediaType/Laws.antt =====
-- localfs/mediatype.go: checkMediaTypes against the look-up of mediaTypeFor.
use micawber.Go.Fold.{to_lower}
use micawber.Go.Text.{equal_iff, equal, has_prefix, contains_byte}
use micawber.Prelude.{
  is_nil, sym, ◌∙◌, ==_iff, ap, ◌==◌, inr, subst, refl, inl, arith, Bool-cases, false, true, ◌++◌,
  [], all, some, ◌∷◌, Option, any, ◌≡◌, Bytes,
}
use micawber.Go.Path as GoPath
use micawber.Go.Path.{ext-append, is_inside_ext}
use micawber.Core.AssetKey as AssetKey
use micawber.Core.AssetKey.{AssetKey}
use micawber.Core.Errors.{>>-ok_iff, ok, Error}
use micawber.Localfs.MediaType.{
  type_of, Table, look_up, media_type_for, check_entry, check_media_types,
}

-- A dotted extension that is its own lower case.
pub record IsExtension (unicode : Bytes → Bytes) (e : Bytes) : Type 0 where
  pub tail : Bytes
  pub dotted : e ≡ b'.' ∷ tail
  pub inside : all is_inside_ext tail ≡ true
  pub lower : to_lower unicode e ≡ e

inside-of :
    (t : Bytes)
    → any (λ c. contains_byte c (b'.' ∷ b'/' ∷ b'\\' ∷ [])) t ≡ false
    → all is_inside_ext t ≡ true
inside-of [] h = refl
inside-of (c ∷ t) h = ground (arith, inside-of t)

type_of-found :
    (extra : Table) (e : Bytes) {value : Bytes}
    → is_nil e ≡ false
    → look_up e extra ≡ some value
    → type_of e extra ≡ value
unfolding type_of
type_of-found extra e some_bytes found = rw (some_bytes, found, type_of) refl

module _ (unicode : Bytes → Bytes) (parse : Bytes → Option Error) where
  check_entry-IsExtension :
      (e value : Bytes) → check_entry unicode parse (e, value) ≡ ok tt → IsExtension unicode e
  unfolding check_entry has_prefix
  check_entry-IsExtension [] value h = cc
  check_entry-IsExtension (c ∷ t) value h =
      let dot : (c == b'.') ≡ true = ground arith in
      let low : equal (c ∷ t) (to_lower unicode (c ∷ t)) ≡ true = ground arith in
      let inner : any (λ d. contains_byte d (b'.' ∷ b'/' ∷ b'\\' ∷ [])) t ≡ false = ground arith in
      record {
        tail = t;
        dotted = ap (λ z. z ∷ t) ((==_iff c b'.').0 dot);
        inside = inside-of t inner;
        lower = sym ((equal_iff (c ∷ t) (to_lower unicode (c ∷ t))).0 low);
      }

  accepted-IsExtension :
      (extra : Table) (e : Bytes) {value : Bytes}
      → check_media_types unicode parse extra ≡ ok tt
      → look_up e extra ≡ some value
      → IsExtension unicode e
  unfolding check_media_types look_up
  accepted-IsExtension [] e h found = cc
  accepted-IsExtension ((j, v) ∷ rest) e h found =
      let (first, later) =
        (>>-ok_iff (check_entry unicode parse (j, v)) (check_media_types unicode parse rest)).0 h in
      elim (Bool-cases (equal j e)) [
        | inl same ↦
            subst (IsExtension unicode) ((equal_iff j e).0 same) (check_entry-IsExtension j v first)
        | inr other ↦ accepted-IsExtension rest e later (rw (other, look_up) at found)
      ]

  -- Of a table that checkMediaTypes accepts: when its entry for an extension is a media type,
  -- mediaTypeFor returns that media type for every key that ends in the extension, whatever
  -- stands before it.
  pub media_type_for-accepted :
      (extra : Table) (s e : Bytes) {value : Bytes}
      → check_media_types unicode parse extra ≡ ok tt
      → look_up e extra ≡ some value
      → media_type_for unicode (record { k = s ++ e }) extra ≡ value
  unfolding media_type_for AssetKey.ext
  media_type_for-accepted extra s e {value} h found =
      let x = accepted-IsExtension extra e h found in
      let kept : AssetKey.ext (record { k = s ++ e }) ≡ e =
        ap (λ z. GoPath.ext (s ++ z)) x.dotted ∙ ext-append s x.tail x.inside ∙ sym x.dotted in
      let cased : to_lower unicode (AssetKey.ext (record { k = s ++ e })) ≡ e =
        ap (to_lower unicode) kept ∙ x.lower in
      ap (λ z. type_of z extra) cased ∙ type_of-found extra e (ap (λ z. is_nil z) x.dotted) found
