-- ===== src/Lib.antt =====
-- micawber: what is modelled of the library, and what is proved of it.
--
-- The program has four parts. core/ holds the domain model: the values that name and describe a
-- site's content (paths, collections, asset keys, digests, changes, front matter) with their
-- validation, the errors, and the interfaces of repositories and stores. markdown/ splits a
-- Markdown file into a layout, front matter and a body, decodes the front matter with one of three
-- codecs, and writes documents back. localfs/ and git/ implement the interfaces of core/ on a
-- directory and on a Git repository. All three use core/, and git/ uses markdown/ to read and write
-- the documents that it stores.
--
-- Files:
--   Prelude         names passed on from the libraries, Boolean tests on ℕ, list lemmas.
--   Go              what the program uses of Go's standard library, over byte lists: strings and
--                   bytes (Go/Text), unicode/utf8 (Go/Utf8), strings.EqualFold and ToLower (Go/Fold),
--                   path.Clean and the rest of path (Go/Path), lines of a file (Go/Lines),
--                   slices.Sort on strings (Go/Sort), white space and strings.Fields (Go/Space),
--                   strconv's decimal numbers (Go/Number), a for loop that counts its turns
--                   (Go/Loop).
--   Core            core/: Errors (errors.go), RelPath and ContentPath (path.go), AssetKey
--                   (asset_key.go), Collection (collection.go), Digest and Asset (asset.go), Change
--                   (change.go), Value and FrontMatter (frontmatter.go), Content (content.go),
--                   Clone (the two functions Clone, on a memory of slices, maps and values). A Go
--                   function NewContentPath is new_content_path, a method Contains is contains; a
--                   module Laws or Spec below a file proves what its functions do. Program is what a function
--                   with a context is in git/ and localfs/: a step from a world to a world and a
--                   Result.
--   Markdown        markdown/: Document (document.go), Scan and Parse (parse.go), Codec (codec.go,
--                   and the key order of toml.go), Lines (errorLine and lineAtOffset, which find the
--                   line that an error names), Toml (the rest of toml.go), Json (json.go),
--                   Yaml (yaml.go), Codecs (the three codecs of codecFor), Serialize (serialize.go).
--   Localfs         localfs/: Key (key.go; Key/Devices lists the devices that a key must not
--                   name), MediaType (mediatype.go), Errors (errors.go, and classify
--                   of root.go), Root (the rest of root.go, with Object, the reader that
--                   Get returns), Store (store.go), Open (its settings and Open), Disk (what is used
--                   of a file system).
--   Git             git/: Exec (exec.go), Object (the ids and parsers of object.go), Repository
--                   (Open and its options, and catFile, readBlob and head of object.go), Read (List
--                   and Get), History (history.go), Plan (the plans of Put and Delete and the
--                   paths, in repository.go), Apply (its loop of publishing; what other writers do
--                   meanwhile is the record Meanwhile), Tree (tree.go), Write (Put and Delete),
--                   Live (Put and Delete on the commands of Repository and Tree).
--   Tests           the theorems at concrete inputs, and the definitions evaluated.
--
-- Representation. A string or a []byte is a list of numbers, its bytes. An error is a value of
-- Error, whose constructors are ValidationError, a sentinel, and fmt.Errorf with one or two %w; the
-- reason of a ValidationError is a constructor for each format string, with its operands. A result
-- with an error is a Result. map[string]any is a list of entries, with all keys different where a
-- theorem needs it (IsGoMap); a nil map and an empty one are not told apart. A float64 is its 64
-- bits. UnmarshalText returns the receiver that it leaves. An index into a text is the text that
-- is still to come behind it. Recursion is structural, but for three loops of toml.go and
-- one of json.go, which are given one turn more than the text has bytes; Toml/Bounds, Toml/Returns
-- and Json/Keys show that it is enough.
--
-- Parameters, for code that is not in the repository: strings.ToLower and ToUpper on text that is
-- not ASCII, mime.ParseMediaType, time.Parse, the three codecs' decoders and encoders (a YAML and a
-- TOML library, encoding/json; Toml/Encode takes the TOML library's encoder of one entry) and
-- encoding/json's end of a leading object. Json.Library is encoding/json's decoder, as tokens and
-- values on what is left of a text, and its encoder; Json.Keys.ReadsOn states that a token takes up
-- at least one byte and a value gives none back. Yaml.Library is the YAML library on nodes of any
-- type, Toml/Decode takes what tomlInvalid reads of an error. Codec.IsCodec and Codec.AreCodecs
-- state what is used of the codecs: a decoder returns a map with different keys, nothing for an
-- empty block, errors that match ErrInvalid, and a JSON object takes up at least one byte. Codecs
-- builds the three codecs on the libraries, of which AreLibraries states what is used.
--
-- Other systems are records of operations on a world that is any type: Exec.Process runs a git
-- command, Tree.Scratch makes the directory of a scratch index, Root.FileSystem is os.Root with its
-- files and crypto/rand. What ctx.Err() returns at the places where the code looks is given as well
-- (Meanwhile, in git/), and a reader is the list of its reads. Plan and Apply take the commands of
-- a write as the records Commands and Backend; Live fills them with the functions of object.go and
-- tree.go on a Process. Live.Branch.IsGit states what is used of git: rev-parse prints the commit
-- of the branch, update-ref moves the branch from the old value given or leaves it as it is, and
-- the other commands leave it as it is. When run reports an error of update-ref, the branch was
-- left, or the context had ended and it was left or moved; behind such a command the context is
-- still ended where apply looks. The theorem on localfs's Put takes as a hypothesis that a failed
-- rename leaves the objects as they were; the one on Put and then Get, Disk.IsDisk, which states
-- what is used of a file system: a write appends, a rename moves the file, and a file that is there
-- can be looked at, opened and read to its end. The theorem on the reading operations that ls-tree,
-- cat-file, rev-parse and log keep the property it speaks of. A slice expression out of range is
-- the error out_of_range.
--
-- Bounds. maxPublishAttempts is 5 and tempAttempts 8, as in the code. parseBatch recurs on the number
-- of entries still wanted, copyInto on the reads. Int64 sums that may wrap around are written out
-- (is_short in Git/Object, limit_of in Localfs/Store).
--
-- Not modelled: the texts of error messages; the inside of YAML nodes and of the
-- encoders, which are other libraries'; the file system and the git process themselves; the length
-- of the wait before a retry; the signal that stops a cancelled git.
pub mod Prelude
pub mod Go
pub mod Core
pub mod Markdown
pub mod Localfs
pub mod Git
pub mod Tests
