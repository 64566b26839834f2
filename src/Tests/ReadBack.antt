-- ===== src/Tests/ReadBack.antt =====
-- localfs/: Put, then Get and Stat, on a file system that holds one file under every name.
use micawber.Core.Program.{lift}
use micawber.Core.Errors.{ok}
use micawber.Localfs.Store.RoundTrip.{put_then_get, IsReadBack}
use micawber.Core.Asset.{pos, AssetRef, Asset}
use micawber.Localfs.Disk.{IsPiece, IsDisk, View}
use micawber.Localfs.Store.{eof, put, chunk, Stream, Setup}
use micawber.Localfs.Root.{goes_on, at_eof, Ending, Context, FileSystem, ObjectInfo}
use micawber.Prelude.{
  take-append-drop, arith, take, drop, ◌∙◌, suc, sym, is_nil, refl, ap, ◌∷◌, ◌++◌, if◌then◌else◌,
  true, some, codes, none, ◌≡◌, [], length, ℕ, Bytes,
}

-- The world is the file's bytes, and those that are still to be read.
abbrev OneFile : Type 0
OneFile = Bytes × Bytes

abbrev whole_info : OneFile → ObjectInfo
whole_info w = record { size = length w.0; mod_time = codes "t"; regular = true }

abbrev read_some : ℕ → OneFile → OneFile × (Bytes × Ending)
read_some n w = if is_nil w.1 then (w, ([], at_eof)) else ((w.0, drop n w.1), (take n w.1, goes_on))

abbrev one_file : FileSystem OneFile (Unit {0})
one_file = record {
  lstat = λ name w. (w, ok (whole_info w));
  open_file = λ name w. ((w.0, w.0), ok tt);
  create_new = λ name w. (([], []), ok tt);
  stat = λ file w. (w, ok (whole_info w));
  read = λ file n w. read_some n w;
  write = λ file b w. ((w.0 ++ b, w.1), ok tt);
  sync = λ file. lift (ok tt);
  close = λ file. lift (ok tt);
  mkdir_all = λ name. lift (ok tt);
  rename = λ old name. lift (ok tt);
  remove = λ name w. (([], w.1), ok tt);
  close_root = lift (ok tt);
  random = lift (ok (0x1F ∷ []));
}

abbrev setup : Setup OneFile (Unit {0})
setup = record {
  fs = one_file;
  media = [];
  to_lower = λ s. s;
  to_upper = λ s. s;
  parses_media_type = λ s. true;
  sha256 = λ s. codes "ab12";
}

abbrev view : View OneFile (Unit {0})
view = record {
  Filling = λ w file name b. w.0 ≡ b;
  Named = λ w name b m. (w.0 ≡ b) × (m ≡ codes "t");
  Reading = λ w file b. w.1 ≡ b;
}

reads_some :
    (n c : ℕ) (b : Bytes) (w : OneFile)
    → w.1 ≡ (c ∷ b)
    → IsPiece view tt (c ∷ b) (read_some (suc n) w)
reads_some n c b (file, left) same = record {
  piece = c ∷ take n b;
  rest = drop n b;
  later = (file, drop n b);
  gives = rw same refl;
  some_bytes = omega arith;
  splits = ap (λ s. c ∷ s) (sym (take-append-drop n b));
  remains = refl;
}

one_file-IsDisk : IsDisk one_file view
one_file-IsDisk = record {
  creates = λ name w v f made. sym (ap (λ o. o.0.0) made);
  appends = λ f name b c w v there wrote. sym (ap (λ o. o.0.0) wrote) ∙ ap (λ s. s ++ c) there;
  measures = λ f name b w v info there looked. measured b w v info there looked;
  syncs = λ f name b m w there. there;
  closes = λ f name b m w there. there;
  opens_other = λ other name b m w there. there;
  renames = λ old new b m w v there moved. (sym (ap (λ o. o.0.0) moved) ∙ there.0, there.1);
  looks = λ name b m w there. (w, whole_info w, refl, refl, ap length there.0, sym there.1, there);
  opens = λ name b m w there. ((w.0, w.0), tt, refl, there.0);
  inspects = λ f b w left. (w, whole_info w, refl, refl, left);
  ends = λ f n w left. (w, rw left refl);
  reads = λ f n c b w left. reads_some n c b w left;
}
  where
    measured :
        (b : Bytes) (w v : OneFile) (info : ObjectInfo)
        → w.0 ≡ b
        → one_file.stat tt w ≡ (v, ok info)
        → (info.size ≡ length b) × ((v.0 ≡ b) × (info.mod_time ≡ codes "t"))
    measured b w v info there looked =
        let same : whole_info w ≡ info = cc (ap (λ o. o.1) looked) in
        (
          sym (ap (λ i. i.size) same) ∙ ap length there,
          (sym (ap (λ o. o.0.0) looked) ∙ there, sym (ap (λ i. i.mod_time) same)),
        )

abbrev calm : Context
calm = record { at_start = none; at_read = λ k. none }

abbrev picture : Asset
picture = record { key = record { k = codes "a/b.png" }; content_type = []; size = pos 3 }

abbrev three_bytes : Stream
three_bytes = chunk (codes "ab") (chunk (codes "c") eof)

abbrev picture_ref : AssetRef
picture_ref = record {
  key = picture.key;
  size = pos 3;
  content_type = codes "image/png";
  digest = codes "sha256:ab12";
  mod_time = codes "t";
}

stored :
    put setup calm picture (some three_bytes) ([], [])
    ≡ ((codes "abc", codes "abc"), ok picture_ref)
unfolding put micawber.Core.Digest.validate_hex micawber.Go.Utf8.decode micawber.Go.Path.ext
stored = refl

put_then_get_example :
    IsReadBack setup view one_file-IsDisk calm 1 picture
      (some three_bytes)
      (codes "abc", codes "abc")
      picture_ref
put_then_get_example =
    put_then_get setup view one_file-IsDisk calm calm picture (some three_bytes) 1 ([], [])
      (codes "abc", codes "abc") picture_ref (refl, λ k. refl) stored
