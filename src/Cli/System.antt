-- ===== src/Cli/System.antt =====
-- What the commands of internal/cli take from the operating system: files, directories, commands.
use go_run.Prelude.{◌≡◌, String, Bool, Option, none, some}
use go_run.Strings.{◌<>◌}
use go_run.Country.{Dir}
use go_run.Linux.{Runner}

-- Over the state of a machine: `Stat` (whether a path is a directory), the reading of a directory
-- and of a whole file, `Create`, the writing of one text to a file that was created, and the runner
-- of commands. An operation that writes returns its error, if it has one.
pub record Machine (W : Type 0) : Type 0 where
  pub stat : W → String → Option Bool
  pub dir : W → String → Dir
  pub read_file : W → String → Option String
  pub create : String → W → Option String × W
  pub append : String → String → W → Option String × W
  pub runner : Runner W

-- What the documentation of `os` says of a file that is created and written: it is empty at first,
-- and a text that is written without an error stands at its end.
pub record WritesFiles {W : Type 0} (m : Machine W) : Type 0 where
  pub created :
      (path : String) (w w' : W) → m.create path w ≡ (none, w') → m.read_file w' path ≡ some ""
  pub appended :
      (path text old : String) (w w' : W)
      → m.append path text w ≡ (none, w')
      → m.read_file w path ≡ some old
      → m.read_file w' path ≡ some (old <> text)
