-- ===== src/Localfs/Open.antt =====
-- localfs/store.go: the settings of a store, and Open.
use micawber.Core.Program.{lift, on_result, or_fail, Program}
use micawber.Localfs.Root.{open_root}
use micawber.Core.Errors.{invalid_value, sentinel, wrapped_both, wrapped, err, ok, Error, Result}
use micawber.Go.Space.{trim_space}
use micawber.Prelude.{none, is_nil, if◌then◌else◌, [], ◌++◌, some, ◌∷◌, List, Option, Bytes}
use micawber.Localfs.MediaType.{check_media_types, Table}

-- Store: the root directory and the media types that a deployment adds.
pub record Store (Root : Type 0) : Type 0 where
  pub root : Root
  pub media : Table

-- options: the media types added so far; a nil Option is none in a list of them.
abbrev pub Setting : Type 0
Setting = Table → Result Table

-- WithMediaTypes: the entries of the table replace those that were there.
unfoldable pub with_media_types : (Bytes → Bytes) → (Bytes → Option Error) → Table → Setting
unfolding check_media_types
with_media_types unicode parse m media = elim (check_media_types unicode parse m) [
  | err e ↦ err e
  | ok _ ↦ ok (m ++ media)
]

unfoldable pub apply_settings : Bytes → List (Option Setting) → Table → Result Table
apply_settings dir [] media = ok media
apply_settings dir (none ∷ settings) media =
    err (wrapped "localfs: open %q: a nil Option was given: %w" dir (sentinel invalid_value))
apply_settings dir (some setting ∷ settings) media = elim (setting media) [
  | err e ↦ err e
  | ok added ↦ apply_settings dir settings added
]

-- What Open checks before it opens the directory; the media types of the store.
unfoldable pub checked_open : Option Error → Bytes → List (Option Setting) → Result Table
unfolding apply_settings trim_space
checked_open ended dir settings = elim ended [
  | some e ↦ err (wrapped "localfs: open: the context is done: %w" [] e)
  | none ↦ elim (apply_settings dir settings []) [
    | err e ↦ err e
    | ok media ↦
        if is_nil (trim_space dir)
        then err (wrapped "localfs: open: the directory is empty: %w" [] (sentinel invalid_value))
        else ok media
  ]
]

opened : {Root : Type 0} → Bytes → Table → Result Root → Result (Store Root)
opened dir media (ok root) = ok (record { root = root; media = media })
opened dir media (err e) =
    err (
      wrapped_both "localfs: open %q: not a usable directory: %w: %w" dir (sentinel invalid_value)
        e)

-- Open; the first argument is os.OpenRoot.
unfoldable pub open_store :
    {World Root : Type 0}
    → (Bytes → Program World Root)
    → Option Error
    → Bytes
    → List (Option Setting)
    → Program World (Store Root)
unfolding checked_open opened open_root
open_store opens ended dir settings =
    or_fail (λ media. on_result (open_root opens dir) λ r. lift (opened dir media r))
      (checked_open ended dir settings)
