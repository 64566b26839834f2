-- ===== src/Tests/Localfs.antt =====
-- localfs/: the theorems at concrete inputs, and the definitions evaluated.
use micawber.Go.Text.{split}
use micawber.Prelude.{All, none, refl, [], some, ◌∷◌, ◌↔◌, Option, ◌≡◌, codes, Bytes}
use micawber.Core.AssetKey.{AssetKey}
use micawber.Core.Errors.{ok, err, Error, invalidf, asset_key, device_name}
use micawber.Localfs.Key.{check_key}
use micawber.Localfs.Key.Laws.{IsPortable, check_key-ok_iff}
use micawber.Localfs.MediaType.{look_up, Table, check_media_types, media_type_for}

-- The case maps of text that is not ASCII, and a parser that accepts every media type.
abbrev same_case : Bytes → Bytes
same_case s = s

abbrev accept_all : Bytes → Option Error
accept_all s = none

abbrev logo : AssetKey
logo = record { k = codes "img/logo.data" }

check_key-ok_iff_example :
    (check_key same_case logo ≡ ok tt) ↔ All (IsPortable same_case) (split b'/' logo.k)
check_key-ok_iff_example = check_key-ok_iff same_case logo

logo_accepted : check_key same_case logo ≡ ok tt
unfolding check_key
logo_accepted = refl

device_refused :
    check_key same_case (record { k = codes "img/nul.png" })
    ≡ err (invalidf asset_key (codes "img/nul.png") (device_name (codes "nul.png")))
unfolding check_key
device_refused = refl

console_refused :
    check_key same_case (record { k = codes "conin$" })
    ≡ err (invalidf asset_key (codes "conin$") (device_name (codes "conin$")))
unfolding check_key micawber.Go.Utf8.decode
console_refused = refl

abbrev data_table : Table
data_table = (codes ".data", codes "application/x-data") ∷ []

data_table_accepted : check_media_types same_case accept_all data_table ≡ ok tt
unfolding check_media_types
data_table_accepted = refl

data_found : look_up (codes ".data") data_table ≡ some (codes "application/x-data")
unfolding look_up
data_found = refl

png_known : media_type_for same_case (record { k = codes "a/b.PNG" }) [] ≡ codes "image/png"
unfolding media_type_for micawber.Go.Path.ext
png_known = refl
