-- ===== src/Git/Live.antt =====
-- git/repository.go: a write on the git commands of object.go and tree.go.
pub mod Keeps
pub mod Branch
pub mod Moved
pub mod Swap
use micawber.Core.Change.{Change}
use micawber.Core.Content.{Content, Revision}
use micawber.Core.ContentPath.{ContentPath}
use micawber.Core.Errors.{Result, ok, err}
use micawber.Core.Program.{Program, lift, ◌>>=◌}
use micawber.Git.Apply.{Backend, Meanwhile}
use micawber.Git.Exec.{Process}
use micawber.Git.Object.{ObjectId, BatchEntry, out_of_range}
use micawber.Git.Plan.{Commands}
use micawber.Git.Repository as Repository
use micawber.Git.Repository.{Repository, head}
use micawber.Git.Tree as Tree
use micawber.Git.Tree.{Scratch}
use micawber.Git.Write as Write
use micawber.Markdown.Codec.{Codecs}
use micawber.Prelude.{◌++◌, ◌∷◌, [], List, Bytes}

-- `entries[0]`
abbrev first_entry : List BatchEntry → Result BatchEntry
first_entry [] = err out_of_range
first_entry (entry ∷ entries) = ok entry

module _ {World : Type 0} (os : Process World) (scratch : Scratch World) (r : Repository) where
  -- The object at a path of a commit, which all three plans read.
  unfoldable pub read_entry : ObjectId → Bytes → Program World BatchEntry
  unfolding Repository.cat_file
  read_entry parent path = do
    entries ← Repository.cat_file os r ((parent ++ (b':' ∷ path)) ∷ [])
    lift (first_entry entries)

  abbrev pub commands : Commands World
  commands = record { cat_file = read_entry; hash_object = Tree.hash_object os r }

  abbrev pub backend : Change → Backend World
  backend ch = record {
    head = head os r;
    write_tree = Tree.write_tree os r scratch;
    commit_tree = λ tree parent born. Tree.commit_tree os r tree parent born ch;
    publish = Tree.publish os r;
  }

  -- Repository.Put and Repository.Delete.
  unfoldable pub put_document : Codecs → Meanwhile World → Content → Change → Program World Revision
  unfolding Write.put
  put_document cs meanwhile = Write.put cs commands r.root backend meanwhile

  unfoldable pub delete_document :
      Codecs → Meanwhile World → ContentPath → Revision → Change → Program World (Unit {0})
  unfolding Write.delete
  delete_document cs meanwhile = Write.delete cs commands r.root backend meanwhile
