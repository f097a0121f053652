-- ===== src/Examples/Folders.antt =====
-- The backend on the file system, over a function from paths to files.
use text.Mathlib.Text.{starts_with}
use intelli_store.Prelude.{◌<>◌, ◌==◌, if◌then◌else◌}
use intelli_store.Effects.{ok}
use intelli_store.Storage.LocalFs.{NodeFs}
use intelli_store.Examples.Shelf.{Store, backend}

-- One key leads out of the directory, into one whose name begins like it.
abbrev folders : NodeFs Store
folders = record {
  normalize = λ path. path;
  absolute = λ path. path;
  resolve = λ dir path. if path == "../data2/secret" then "/data2/secret" else (dir <> "/") <> path;
  dirname = λ path. "/data/chunks";
  sep = "/";
  starts_with = starts_with;
  mkdir = λ path w. (ok tt, w);
  write_file = backend.put;
  read_file = backend.get;
  rm = backend.delete;
  access = λ path w. (ok tt, w);
}
