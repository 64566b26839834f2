-- ===== src/Tests/Store.antt =====
-- localfs/: Put on a small file system.
use micawber.Localfs.Key.{check_key}
use micawber.Localfs.Store.{get, stat, delete}
use micawber.Localfs.Store.Absent.{IsAbsence, absent_everywhere}
use micawber.Prelude.{
  length-append, arith, ◌+◌, ◌∷◌, ◌++◌, refl, ◌≤◌, true, length, some, ◌≡◌, codes, none, [], Bytes,
}
use micawber.Core.Asset.{pos, Asset}
use micawber.Core.Errors.{ok, err, Error, enoent, errno, path_error, link_error}
use micawber.Core.Program.{lift}
use micawber.Localfs.Errors.{classify}
use micawber.Localfs.Errors.Laws.{Matches, Over, number, classify-Matches}
use micawber.Localfs.Root.{Context, at_eof, FileSystem, TempFile}
use micawber.Localfs.Store.{Setup, Stream, eof, chunk, put, copy_into}
use micawber.Localfs.Store.Copy.{copy_into-bounded}

-- The world is what the temporary file holds and what is published; every name is free.
abbrev Disk : Type 0
Disk = Bytes × Bytes

abbrev disk : FileSystem Disk (Unit {0})
disk = record {
  lstat = λ name. lift (err (path_error (errno enoent)));
  open_file = λ name. lift (err (path_error (errno enoent)));
  create_new = λ name w. (([], w.1), ok tt);
  stat = λ file w. (w, ok (record { size = length w.0; mod_time = codes "t"; regular = true }));
  read = λ file n w. (w, ([], at_eof));
  write = λ file b w. ((w.0 ++ b, w.1), ok tt);
  sync = λ file. lift (ok tt);
  close = λ file. lift (ok tt);
  mkdir_all = λ name. lift (ok tt);
  rename = λ old name w. ((w.0, w.0), ok tt);
  remove = λ name w. (([], w.1), ok tt);
  close_root = lift (ok tt);
  random = lift (ok (0x1F ∷ []));
}

-- A stand-in for sha256.
abbrev setup : Setup Disk (Unit {0})
setup = record {
  fs = disk;
  media = [];
  to_lower = λ s. s;
  to_upper = λ s. s;
  parses_media_type = λ s. true;
  sha256 = λ s. codes "ab12";
}

abbrev calm : Context
calm = record { at_start = none; at_read = λ k. none }

abbrev picture : Asset
picture = record { key = record { k = codes "a/b.png" }; content_type = []; size = pos 3 }

abbrev three_bytes : Stream
three_bytes = chunk (codes "ab") (chunk (codes "c") eof)

abbrev Free : Disk → Type 0
Free w = w.1 ≡ codes "old"

stored :
    (put setup calm picture (some three_bytes) ([], codes "old")).0 ≡ (codes "abc", codes "abc")
unfolding put micawber.Core.Digest.validate_hex micawber.Go.Utf8.decode
stored = refl

-- A stream that is too long publishes nothing, and only one byte past the declared size is read.
too_long :
    (put setup calm picture (some (chunk (codes "abcdef") eof)) ([], codes "old")).0
    ≡ ([], codes "old")
unfolding put
too_long = refl

abbrev temp : TempFile (Unit {0})
temp = record { dir = []; name = codes ".micawber-00.tmp"; file = tt }

copy_into-bounded_example :
    length (copy_into setup calm temp picture (chunk (codes "abcdef") eof) ([], [])).0.0 ≤ 4
copy_into-bounded_example =
    copy_into-bounded setup (λ w. length w.0) appends calm temp picture (chunk (codes "abcdef") eof)
      3 ([], []) refl
  where
    appends : (file : Unit {0}) (b : Bytes) (w : Disk) → length (w.0 ++ b) ≤ length w.0 + length b
    appends file b w = omega (arith, length-append w.0 b)

abbrev not_there : Error
not_there = path_error (link_error (errno enoent))

classify-Matches_example :
    Matches
      (number enoent)
      "localfs: get %q: %w"
      (record { k = codes "a.png" })
      (classify not_there)
classify-Matches_example =
    classify-Matches (number enoent) "localfs: get %q: %w" (record { k = codes "a.png" }) not_there
      (Over.in_path (Over.in_link Over.bare))

portable : check_key (λ s. s) (record { k = codes "a.png" }) ≡ ok tt
unfolding check_key
portable = refl

-- No object is there.
absent_everywhere_example :
    IsAbsence ([], []) (get setup calm (record { k = codes "a.png" }) ([], []))
    × IsAbsence ([], []) (stat setup calm (record { k = codes "a.png" }) ([], []))
    × IsAbsence ([], []) (delete setup calm (record { k = codes "a.png" }) ([], []))
absent_everywhere_example =
    absent_everywhere setup calm (record { k = codes "a.png" }) ([], []) ([], [])
      (err (path_error (errno enoent))) refl portable refl
      (number enoent, Over.in_path Over.bare, refl)
