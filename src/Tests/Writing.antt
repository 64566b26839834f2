-- ===== src/Tests/Writing.antt =====
-- git/repository.go: Put where another writer moves the branch once.
use micawber.Core.Value.{Fields}
use micawber.Core.FrontMatter.{no_format}
use micawber.Prelude.{none, [], codes}
use micawber.Core.Change.{Change}
use micawber.Core.Content.{Content}
use micawber.Core.ContentPath.Laws.{path_of}

abbrev pub new_note : Content
new_note = record {
  path = path_of (codes "a.md");
  front_matter = record { format = no_format; fields = Fields.end; raw = [] };
  body = codes "hi";
  revision = [];
}

abbrev pub a_change : Change
a_change = record {
  message = codes "add a note";
  author = record { name = codes "A"; email = codes "a@b" };
  time = none;
}
