-- ===== src/Agent/Container.antt =====
-- RunInContainer of pkg/agent/runner.go. Docker, the working directory and the clock are what os/exec
-- and filepath.Abs give; outputs are texts whose characters are bytes.
use Prim.Native.String.{[], ◌∷◌, ◌++◌}
use mc_prototype.Base.{
  ℕ, ℤ, pos, negsuc, eq_ℤ, String, Option, none, some, Bool, not, ◌&&◌, ◌||◌, if◌then◌else◌,
}
use mc_prototype.Text.{contains}
use mc_prototype.Agent.Attempt.{Attempt, done, error, crash}
use mathlib.Core.List.{List, [], ◌∷◌, ◌++◌ as append}

-- How cmd.Run ends: the program's exit code is 0, or is that of an ExitError, which is -1 after a
-- signal; or Docker could not be run, with the error's text.
pub data Exit : Type 0 where
  finished : Exit
  exited : ℤ → Exit
  not_started : String → Exit

pub record Ran : Type 0 where
  pub exit : Exit
  pub stdout : String
  pub stderr : String
  pub duration : ℕ

-- What the machine gives: exec.LookPath("docker"), filepath.Abs, and cmd.Run of docker's arguments.
pub record Machine : Type 0 where
  pub look_path : Option String
  pub abs : String → Attempt String
  pub run : List String → Ran

pub record RunResult : Type 0 where
  pub exit_code : ℤ
  pub stdout : String
  pub stderr : String
  pub duration : ℕ

-- The arguments of docker.
unfoldable pub docker_args : String → String → List String → List String
docker_args dir image command =
    append ("run" ∷ "--rm" ∷ "-w" ∷ "/app" ∷ "-v" ∷ (dir ++ ":/app") ∷ image ∷ []) command

abbrev pub exit_of : Exit → ℤ
exit_of finished = pos 0
exit_of (exited code) = code
exit_of (not_started e) = negsuc 0

-- The errors of ImageMagick that the runner forgives.
unfoldable pub is_unreadable : String → Bool
is_unreadable stderr =
    contains stderr "unable to open image"
    || contains stderr "no decode delegate for this image format"

unfoldable pub exit_code_of : Exit → String → ℤ
exit_code_of exit stderr =
    if not (eq_ℤ 0 (exit_of exit)) && is_unreadable stderr then pos 0 else exit_of exit

result_of : Ran → RunResult
unfolding exit_code_of
result_of r = record {
  exit_code = exit_code_of r.exit r.stderr;
  stdout = r.stdout;
  stderr = r.stderr;
  duration = r.duration;
}

run_at : Machine → String → List String → Attempt String → Attempt RunResult
unfolding result_of docker_args
run_at m image command (error e) = error ("could not get absolute path for work dir: " ++ e)
run_at m image command crash = crash
run_at m image command (done dir) = done (result_of (m.run (docker_args dir image command)))

-- The files of _logs are written on the way, with errors ignored.
unfoldable pub run_in_container : Machine → String → String → List String → Attempt RunResult
unfolding run_at
run_in_container m dir image command = elim m.look_path [
  | some e ↦ error ("docker command not found: " ++ e)
  | none ↦ run_at m image command (m.abs dir)
]
