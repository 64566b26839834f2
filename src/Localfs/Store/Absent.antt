-- ===== src/Localfs/Store/Absent.antt =====
-- localfs/store.go: Get, Stat and Delete of a key with no object.
use micawber.Prelude.{refl, ◌∙◌, ap, String, none, true, false, ◌≡◌}
use micawber.Core.AssetKey.{AssetKey}
use micawber.Core.Errors.{Result, ok, err, Error, is, not_found, cause, not_regular}
use micawber.Core.Program.{>>=-err, Program, lift, on_result, or_fail, ◌>>=◌}
use micawber.Localfs.Errors.{sentinelf, classify, read_error}
use micawber.Localfs.Errors.Laws.{Leaf, Over, is_absent, classify-Matches}
use micawber.Localfs.Key.{check_key}
use micawber.Localfs.Root.{classified, ObjectInfo, lstat, rel_name}
use micawber.Localfs.Store.{Setup, Context, resolve, checked_key, regular_entry, get, stat, delete}

-- What lstat returns where there is no object: an entry that is no regular file, or an error that
-- says that nothing is there.
abbrev pub IsNoObject : Result ObjectInfo → Type 0
IsNoObject (ok info) = info.regular ≡ false
IsNoObject (err e) = (leaf : Leaf) × Over leaf e × (is_absent leaf ≡ true)

-- ErrNotFound, and nothing done behind lstat.
abbrev pub IsAbsence {ℓ} : {World : Type 0} {A : Type ℓ} → World → World × Result A → Type ℓ
IsAbsence seen out = (e : Error) × (out ≡ (seen, err e)) × (is e not_found ≡ true)

module _ {World Handle : Type 0} (setup : Setup World Handle) (ctx : Context) (key : AssetKey)
    (w seen : World) (r : Result ObjectInfo) (goes : ctx.at_start ≡ none)
    (portable : check_key setup.to_upper key ≡ ok tt)
    (looked : setup.fs.lstat (rel_name key) w ≡ (seen, r)) (no_object : IsNoObject r) where
  regular_entry-absent :
      (op : String)
      → (e : Error) × (regular_entry setup op key (classified r) ≡ err e) × (is e not_found ≡ true)
  unfolding regular_entry is read_error
  regular_entry-absent op = go r no_object
    where
      go :
          (q : Result ObjectInfo)
          → IsNoObject q
          → (e : Error) × (regular_entry setup op key (classified q) ≡ err e)
            × (is e not_found ≡ true)
      go (ok info) irregular =
          (sentinelf not_found (cause not_regular) op key, rw irregular refl, refl)
      go (err e) (leaf, over, absent) =
          (read_error op key (classify e), refl, (classify-Matches leaf op key e over).0 ∙ absent)

  resolve-IsAbsence : (op : String) → IsAbsence seen (resolve setup ctx op key w)
  unfolding resolve lstat checked_key
  resolve-IsAbsence op =
      let (e, refused, absent) = regular_entry-absent op in
      let passed : checked_key setup ctx op key ≡ ok tt = rw (goes, checked_key) portable in
      let look = λ (u : Unit {0}).
        on_result (lstat setup.fs (rel_name key))
          λ found. lift (regular_entry setup op key found) in
      (
        e,
        ap (λ c. or_fail look c w) passed
            ∙ ap
                (λ (o : World × Result ObjectInfo).
                  (o.0, regular_entry setup op key (classified o.1)))
                looked
            ∙ ap (λ q. (seen, q)) refused,
        absent,
      )

  -- What an operation that begins with resolve returns.
  then-IsAbsence {ℓ} :
      {A : Type ℓ} (op : String) (k : ObjectInfo → Program World A)
      → IsAbsence seen ((resolve setup ctx op key >>= k) w)
  then-IsAbsence op k =
      let (e, refused, absent) = resolve-IsAbsence op in
      (e, >>=-err (resolve setup ctx op key) k w refused, absent)

  -- Before the context ends, and of a key that checkKey accepts: when lstat returns an entry
  -- that is no regular file, or an error that ends in ENOENT, ENOTDIR, EISDIR or the text of
  -- an escape, then Get, Stat and Delete each return an error that matches ErrNotFound, and
  -- do nothing behind lstat.
  pub absent_everywhere :
      IsAbsence seen (get setup ctx key w)
      × IsAbsence seen (stat setup ctx key w)
      × IsAbsence seen (delete setup ctx key w)
  unfolding get stat delete
  absent_everywhere = (then-IsAbsence _ _, then-IsAbsence _ _, then-IsAbsence _ _)
