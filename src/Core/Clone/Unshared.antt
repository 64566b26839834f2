-- ===== src/Core/Clone/Unshared.antt =====
-- core/content.go: what a clone shares with the original, and what not.
-- What was there is still there, in a memory that may hold more.
use micawber.Core.Value.{Value}
use micawber.Core.Clone.Apart.{
  write_nested-arrays, apart, seen_content-parts, AreApart, edit_all-seen_content, get-append_last,
  get-append, seen_content-eq, IsIn, IsNew,
}
use micawber.Prelude.{
  sym, refl, List, [], none, ◌∷◌, ◌++◌, ◌≡◌, length-append, Bytes, ◌∙◌, ◌≤◌, some, arith, ℕ, length,
}
use micawber.Core.Clone.{
  write_nested, Entries, edit_all, Overwrite, seen_content, clone_front_matter, ContentRef,
  entries_at, clone, clone_map, clone_bytes, bytes_at, Ref, Memory,
}

record Grows (m n : Memory) : Type 0 where
  pub same_values : n.values ≡ m.values
  pub more_arrays : length m.arrays ≤ length n.arrays
  pub more_maps : length m.maps ≤ length n.maps
  pub keeps_bytes : (r : Ref) → IsIn r (length m.arrays) → bytes_at n r ≡ bytes_at m r
  pub keeps_fields : (r : Ref) → IsIn r (length m.maps) → entries_at n r ≡ entries_at m r

IsIn-le : (r : Ref) (n k : ℕ) → IsIn r n → n ≤ k → IsIn r k
IsIn-le none n k h le = tt
IsIn-le (some a) n k h le = omega (arith, h, le)

IsNew-le : (r : Ref) (n k : ℕ) → IsNew k r → n ≤ k → IsNew n r
IsNew-le none n k h le = tt
IsNew-le (some a) n k h le = omega (arith, h, le)

Grows-trans : {m n o : Memory} → Grows m n → Grows n o → Grows m o
Grows-trans {m} {n} {o} g h = record {
  same_values = h.same_values ∙ g.same_values;
  more_arrays = omega (arith, g.more_arrays, h.more_arrays);
  more_maps = omega (arith, g.more_maps, h.more_maps);
  keeps_bytes = λ r old.
      h.keeps_bytes r (IsIn-le r (length m.arrays) (length n.arrays) old g.more_arrays)
      ∙ g.keeps_bytes r old;
  keeps_fields = λ r old.
      h.keeps_fields r (IsIn-le r (length m.maps) (length n.maps) old g.more_maps)
      ∙ g.keeps_fields r old;
}

Grows-same : (m : Memory) → Grows m m
Grows-same m = record {
  same_values = refl;
  more_arrays = omega arith;
  more_maps = omega arith;
  keeps_bytes = λ r old. refl;
  keeps_fields = λ r old. refl;
}

Grows-array : (m : Memory) (b : Bytes) → Grows m (record m { arrays = m.arrays ++ (b ∷ []) })
unfolding bytes_at entries_at
Grows-array m b = record {
  same_values = refl;
  more_arrays = omega (arith, length-append m.arrays (b ∷ []));
  more_maps = omega arith;
  keeps_bytes = go;
  keeps_fields = same;
}
  where
    go :
        (r : Ref)
        → IsIn r (length m.arrays)
        → bytes_at (record m { arrays = m.arrays ++ (b ∷ []) }) r ≡ bytes_at m r
    go none old = refl
    go (some a) old = get-append [] m.arrays (b ∷ []) a old

    same :
        (r : Ref)
        → IsIn r (length m.maps)
        → entries_at (record m { arrays = m.arrays ++ (b ∷ []) }) r ≡ entries_at m r
    same none old = refl
    same (some a) old = refl

Grows-map : (m : Memory) (fs : Entries) → Grows m (record m { maps = m.maps ++ (fs ∷ []) })
unfolding bytes_at entries_at
Grows-map m fs = record {
  same_values = refl;
  more_arrays = omega arith;
  more_maps = omega (arith, length-append m.maps (fs ∷ []));
  keeps_bytes = same;
  keeps_fields = go;
}
  where
    go :
        (r : Ref)
        → IsIn r (length m.maps)
        → entries_at (record m { maps = m.maps ++ (fs ∷ []) }) r ≡ entries_at m r
    go none old = refl
    go (some a) old = get-append [] m.maps (fs ∷ []) a old

    same :
        (r : Ref)
        → IsIn r (length m.arrays)
        → bytes_at (record m { maps = m.maps ++ (fs ∷ []) }) r ≡ bytes_at m r
    same none old = refl
    same (some a) old = refl

-- A copy of a slice, behind everything that was there.
record IsBytesCopy (r : Ref) (m : Memory) (out : Memory × Ref) : Type 0 where
  pub grows : Grows m out.0
  pub fresh : IsNew (length m.arrays) out.1
  pub inside : IsIn out.1 (length out.0.arrays)
  pub reads : bytes_at out.0 out.1 ≡ bytes_at m r

record IsMapCopy (r : Ref) (m : Memory) (out : Memory × Ref) : Type 0 where
  pub grows : Grows m out.0
  pub fresh : IsNew (length m.maps) out.1
  pub inside : IsIn out.1 (length out.0.maps)
  pub reads : entries_at out.0 out.1 ≡ entries_at m r

clone_bytes-IsBytesCopy : (r : Ref) (m : Memory) → IsBytesCopy r m (clone_bytes r m)
unfolding clone_bytes bytes_at
clone_bytes-IsBytesCopy none m = record {
  grows = Grows-same m;
  fresh = tt;
  inside = tt;
  reads = refl;
}
clone_bytes-IsBytesCopy (some a) m = record {
  grows = Grows-array m (bytes_at m (some a));
  fresh = omega arith;
  inside = omega (arith, length-append m.arrays (bytes_at m (some a) ∷ []));
  reads = get-append_last [] m.arrays (bytes_at m (some a));
}

clone_map-IsMapCopy : (r : Ref) (m : Memory) → IsMapCopy r m (clone_map r m)
unfolding clone_map entries_at
clone_map-IsMapCopy none m = record { grows = Grows-same m; fresh = tt; inside = tt; reads = refl }
clone_map-IsMapCopy (some a) m = record {
  grows = Grows-map m (entries_at m (some a));
  fresh = omega arith;
  inside = omega (arith, length-append m.maps (entries_at m (some a) ∷ []));
  reads = get-append_last [] m.maps (entries_at m (some a));
}

-- A content that refers to nothing behind the memory's end.
pub record IsInMemory (m : Memory) (c : ContentRef) : Type 0 where
  pub body : IsIn c.body (length m.arrays)
  pub raw : IsIn c.front_matter.raw (length m.arrays)
  pub fields : IsIn c.front_matter.fields (length m.maps)

fresh-AreApart :
    (c d : ContentRef) (m : Memory)
    → IsInMemory m c
    → IsNew (length m.arrays) d.body
    → IsNew (length m.arrays) d.front_matter.raw
    → IsNew (length m.maps) d.front_matter.fields
    → AreApart c d × AreApart d c
fresh-AreApart c d m inside body raw fields =
    let n = length m.arrays in
    let bb = apart c.body d.body n inside.body body in
    let br = apart c.body d.front_matter.raw n inside.body raw in
    let rb = apart c.front_matter.raw d.body n inside.raw body in
    let rr = apart c.front_matter.raw d.front_matter.raw n inside.raw raw in
    let ff =
      apart c.front_matter.fields d.front_matter.fields (length m.maps) inside.fields fields in
    (
      record { body_body = bb.0; body_raw = br.0; raw_body = rb.0; raw_raw = rr.0; maps = ff.0 },
      record { body_body = bb.1; body_raw = rb.1; raw_body = br.1; raw_raw = rr.1; maps = ff.1 },
    )

-- What the two read as in the memory behind a Clone, and after any writes to one of them.
pub record IsUnshared (m : Memory) (c : ContentRef) (later : Memory) (d : ContentRef) : Type 0 where
  pub clone_reads : seen_content later d ≡ seen_content m c
  pub original_reads : seen_content later c ≡ seen_content m c
  pub original_stays :
      (es : List Overwrite) → seen_content (edit_all d es later) c ≡ seen_content m c
  pub values_shared :
      (writes : List (ℕ × Value))
      → seen_content (write_nested writes later) d ≡ seen_content (write_nested writes later) c
  pub clone_stays : (es : List Overwrite) → seen_content (edit_all c es later) d ≡ seen_content m c

-- Of a content whose slices and maps are in memory: its Clone reads as the content did, and the
-- content still does. Whatever is then written to the body, to the raw bytes and to the entries of
-- the map of the one, in any order, the other reads the same. The values that the maps refer to are
-- shared: after any writes into them the two still read the same as each other.
pub clone-IsUnshared :
    (c : ContentRef) (m : Memory) → IsInMemory m c → IsUnshared m c (clone c m).0 (clone c m).1
unfolding clone clone_front_matter
clone-IsUnshared c m inside =
    let raw = clone_bytes c.front_matter.raw m in
    let raw_copy = clone_bytes-IsBytesCopy c.front_matter.raw m in
    let fields = clone_map c.front_matter.fields raw.0 in
    let fields_copy = clone_map-IsMapCopy c.front_matter.fields raw.0 in
    let body = clone_bytes c.body fields.0 in
    let body_copy = clone_bytes-IsBytesCopy c.body fields.0 in
    let behind_raw : Grows raw.0 body.0 = Grows-trans fields_copy.grows body_copy.grows in
    let through : Grows m body.0 = Grows-trans raw_copy.grows behind_raw in
    let to_body : Grows m fields.0 = Grows-trans raw_copy.grows fields_copy.grows in
    let still : seen_content body.0 c ≡ seen_content m c =
      seen_content-eq body.0 m c through.same_values
        (through.keeps_bytes c.front_matter.raw inside.raw)
        (through.keeps_fields c.front_matter.fields inside.fields)
        (through.keeps_bytes c.body inside.body) in
    let raw_reads : bytes_at body.0 raw.1 ≡ bytes_at m c.front_matter.raw =
      behind_raw.keeps_bytes raw.1 raw_copy.inside ∙ raw_copy.reads in
    let fields_reads : entries_at body.0 fields.1 ≡ entries_at m c.front_matter.fields =
      body_copy.grows.keeps_fields fields.1 fields_copy.inside
      ∙ fields_copy.reads
      ∙ raw_copy.grows.keeps_fields c.front_matter.fields inside.fields in
    let body_reads : bytes_at body.0 body.1 ≡ bytes_at m c.body =
      body_copy.reads ∙ to_body.keeps_bytes c.body inside.body in
    let copied : seen_content body.0 (clone c m).1 ≡ seen_content m c =
      seen_content-parts body.0 m c raw.1 fields.1 body.1 through.same_values raw_reads fields_reads
        body_reads in
    let shared = λ (writes : List (ℕ × Value)).
      seen_content-parts (write_nested writes body.0) (write_nested writes body.0) c raw.1 fields.1
        body.1 refl
        ((write_nested-arrays writes body.0 raw.1).0
          ∙ raw_reads
          ∙ sym (through.keeps_bytes c.front_matter.raw inside.raw)
          ∙ sym (write_nested-arrays writes body.0 c.front_matter.raw).0)
        ((write_nested-arrays writes body.0 fields.1).1
          ∙ fields_reads
          ∙ sym (through.keeps_fields c.front_matter.fields inside.fields)
          ∙ sym (write_nested-arrays writes body.0 c.front_matter.fields).1)
        ((write_nested-arrays writes body.0 body.1).0
          ∙ body_reads
          ∙ sym (through.keeps_bytes c.body inside.body)
          ∙ sym (write_nested-arrays writes body.0 c.body).0) in
    let new_body : IsNew (length m.arrays) body.1 =
      IsNew-le body.1 (length m.arrays) (length fields.0.arrays) body_copy.fresh
        to_body.more_arrays in
    let new_fields : IsNew (length m.maps) fields.1 =
      IsNew-le fields.1 (length m.maps) (length raw.0.maps) fields_copy.fresh
        raw_copy.grows.more_maps in
    let (one, other) = fresh-AreApart c (clone c m).1 m inside new_body raw_copy.fresh new_fields in
    record {
      clone_reads = copied;
      original_reads = still;
      values_shared = shared;
      original_stays = λ es. edit_all-seen_content c (clone c m).1 es body.0 one ∙ still;
      clone_stays = λ es. edit_all-seen_content (clone c m).1 c es body.0 other ∙ copied;
    }
