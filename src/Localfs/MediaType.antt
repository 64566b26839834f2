-- ===== src/Localfs/MediaType.antt =====
-- localfs/mediatype.go: the media type of a key, and the tables that a deployment adds.
pub mod Laws
use micawber.Go.Fold.{to_lower}
use micawber.Go.Text.{contains_byte, has_prefix, equal}
use micawber.Prelude.{
  drop, any, length, ltb, some, not, is_nil, [], none, if◌then◌else◌, ◌∷◌, Option, Bytes, String,
  codes, List,
}
use micawber.Core.AssetKey as AssetKey
use micawber.Core.AssetKey.{AssetKey}
use micawber.Core.Errors.{
  ◌>>◌, Result, ok, err, Error, sentinel, wrapped, wrapped_both, foreign, invalid_value,
}

-- map[string]string, as a list of its entries.
abbrev pub Table : Type 0
Table = List (Bytes × Bytes)

unfoldable pub look_up : Bytes → Table → Option Bytes
unfolding equal
look_up k [] = none
look_up k ((j, v) ∷ rest) = if equal j k then some v else look_up k rest

-- mediaTypes.
abbrev pub media_types : Table
media_types =
    (codes ".png", codes "image/png")
    ∷ (codes ".jpg", codes "image/jpeg")
    ∷ (codes ".jpeg", codes "image/jpeg")
    ∷ (codes ".gif", codes "image/gif")
    ∷ (codes ".webp", codes "image/webp")
    ∷ (codes ".avif", codes "image/avif")
    ∷ (codes ".heic", codes "image/heic")
    ∷ (codes ".heif", codes "image/heif")
    ∷ (codes ".bmp", codes "image/bmp")
    ∷ (codes ".tif", codes "image/tiff")
    ∷ (codes ".tiff", codes "image/tiff")
    ∷ (codes ".ico", codes "image/x-icon")
    ∷ (codes ".svg", codes "image/svg+xml")
    ∷ (codes ".otf", codes "font/otf")
    ∷ (codes ".ttf", codes "font/ttf")
    ∷ (codes ".woff", codes "font/woff")
    ∷ (codes ".woff2", codes "font/woff2")
    ∷ (codes ".pdf", codes "application/pdf")
    ∷ (codes ".txt", codes "text/plain; charset=utf-8")
    ∷ (codes ".md", codes "text/markdown; charset=utf-8")
    ∷ (codes ".csv", codes "text/csv; charset=utf-8")
    ∷ (codes ".html", codes "text/html; charset=utf-8")
    ∷ (codes ".css", codes "text/css; charset=utf-8")
    ∷ (codes ".js", codes "text/javascript; charset=utf-8")
    ∷ (codes ".json", codes "application/json")
    ∷ (codes ".xml", codes "application/xml")
    ∷ (codes ".yaml", codes "application/yaml")
    ∷ (codes ".yml", codes "application/yaml")
    ∷ (codes ".toml", codes "application/toml")
    ∷ (codes ".mp3", codes "audio/mpeg")
    ∷ (codes ".m4a", codes "audio/mp4")
    ∷ (codes ".ogg", codes "audio/ogg")
    ∷ (codes ".opus", codes "audio/ogg")
    ∷ (codes ".wav", codes "audio/wav")
    ∷ (codes ".flac", codes "audio/flac")
    ∷ (codes ".mp4", codes "video/mp4")
    ∷ (codes ".m4v", codes "video/mp4")
    ∷ (codes ".webm", codes "video/webm")
    ∷ (codes ".mov", codes "video/quicktime")
    ∷ (codes ".zip", codes "application/zip")
    ∷ (codes ".gz", codes "application/gzip")
    ∷ (codes ".tar", codes "application/x-tar")
    ∷ (codes ".7z", codes "application/x-7z-compressed")
    ∷ []

-- The two tables for an extension in lower case: the deployment's entry is preferred.
unfoldable pub type_of : Bytes → Table → Bytes
unfolding look_up
type_of ext extra = if is_nil ext then [] else elim (look_up ext extra) [
  | some value ↦ value
  | none ↦ elim (look_up ext media_types) [ none ↦ [] | some value ↦ value ]
]

-- mediaTypeFor; the first argument is strings.ToLower on text that is not ASCII.
unfoldable pub media_type_for : (Bytes → Bytes) → AssetKey → Table → Bytes
unfolding AssetKey.ext to_lower type_of
media_type_for unicode key extra = type_of (to_lower unicode (AssetKey.ext key)) extra

-- sentinelf(core.ErrInvalid, nil, format, ext)
abbrev invalid_table : String → Bytes → Error
invalid_table f e = wrapped f e (sentinel invalid_value)

-- One turn of checkMediaTypes's loop. The parser of media types returns its error, if any.
unfoldable pub check_entry :
    (Bytes → Bytes) → (Bytes → Option Error) → Bytes × Bytes → Result (Unit {0})
unfolding has_prefix to_lower equal
check_entry unicode parse (ext, value) =
    if not (has_prefix ext (codes "."))
    then err (invalid_table "localfs: WithMediaTypes: %q is not a dotted extension: %w" ext)
    else if ltb (length ext) 2
    then err (invalid_table "localfs: WithMediaTypes: %q has no extension after the dot: %w" ext)
    else if not (equal ext (to_lower unicode ext))
    then err (invalid_table "localfs: WithMediaTypes: %q is not lower case: %w" ext)
    else if any (λ c. contains_byte c (b'.' ∷ b'/' ∷ b'\\' ∷ [])) (drop 1 ext)
    then err (invalid_table "localfs: WithMediaTypes: %q is not a single extension: %w" ext)
    else elim (parse value) [
      | none ↦ ok tt
      | some e ↦ err (
          wrapped_both "localfs: WithMediaTypes: the value for %q is not a media type: %w: %w" ext
            (sentinel invalid_value) e)
    ]

-- checkMediaTypes.
unfoldable pub check_media_types :
    (Bytes → Bytes) → (Bytes → Option Error) → Table → Result (Unit {0})
unfolding check_entry
check_media_types unicode parse [] = ok tt
check_media_types unicode parse (e ∷ es) = do
  check_entry unicode parse e
  check_media_types unicode parse es
