-- ===== src/Command.antt =====
-- src/packagecmd.cpp and src/packagecmd.hpp: the commands that packages run, their environment,
-- the verdict on how a command ended, and the splitting of its output into log lines.
pub mod Env
pub mod Output
use buildsyspp.Shared.{
  ℕ, zero, suc, ◌+◌, ◌≡◌, Bool, true, false, not, ◌&&◌, ◌||◌, Option, none, some, List, [], ◌∷◌,
  ◌++◌, ◌==◌, if◌then◌else◌, Text, empty, split_first, starts_with,
}

pub record PackageCmd : Type 0 where
  pub path : Text
  pub app : Text
  pub args : List Text
  pub envp : List Text
  pub log_output : Bool
  pub failure_expected : Bool

unfoldable pub add_arg : PackageCmd → Text → PackageCmd
add_arg pc arg = record pc { args = pc.args ++ arg ∷ [] }

-- `environ` is the environment of the process, which the constructor copies.
unfoldable pub package_cmd : List Text → Text → Text → PackageCmd
unfolding add_arg
package_cmd environ path app =
    add_arg
      (record {
        path = path;
        app = app;
        args = [];
        envp = environ;
        log_output = true;
        failure_expected = false;
      })
      app

unfoldable pub add_args : PackageCmd → List Text → PackageCmd
unfolding add_arg
add_args pc [] = pc
add_args pc (a ∷ as') = add_args (add_arg pc a) as'

unfoldable pub disable_logging : PackageCmd → PackageCmd
disable_logging pc = record pc { log_output = false }

unfoldable pub allow_failure : PackageCmd → PackageCmd
allow_failure pc = record pc { failure_expected = true }

-- The loop of `addEnv`: the first entry that begins with the key is replaced, and without one the
-- new entry goes to the end.
unfoldable pub replace_entry : Text → Text → List Text → List Text
replace_entry key env [] = env ∷ []
replace_entry key env (e ∷ es) =
    if starts_with key e then env ∷ es else e ∷ replace_entry key env es

unfoldable pub add_env : PackageCmd → Text → PackageCmd
unfolding replace_entry
add_env pc env = elim (split_first b'=' env) [
  | none ↦ record pc { envp = pc.envp ++ env ∷ [] }
  | some (k, v) ↦ record pc { envp = replace_entry (k ++ b'=' ∷ []) env pc.envp }
]

-- How a child ended, as `waitpid` reports it.
pub data Status : Type 0 where
  exited : ℕ → Status
  signaled : ℕ → Status

-- The messages of `Run` and `printCmd`, with the values that they show.
pub data LogLine : Type 0 where
  killed_by_signal : Text → ℕ → Text → LogLine
  error_running : Text → Text → ℕ → LogLine
  path_line : Text → LogLine
  arg_line : ℕ → Text → LogLine

arg_lines : ℕ → List Text → List LogLine
arg_lines i [] = []
arg_lines i (a ∷ as') = arg_line i a ∷ arg_lines (i + 1) as'

unfoldable pub print_cmd : PackageCmd → List LogLine
unfolding arg_lines
print_cmd pc = path_line pc.path ∷ arg_lines 0 pc.args

-- What `Run` does once the child has ended: its result, and what it logs.
unfoldable pub run_verdict : PackageCmd → Status → Bool × List LogLine
unfolding print_cmd
run_verdict pc (exited zero) = (true, [])
run_verdict pc (exited (suc code)) =
    if pc.failure_expected
    then (false, [])
    else (false, error_running pc.app pc.path (suc code) ∷ print_cmd pc)
run_verdict pc (signaled sig) = (false, killed_by_signal pc.app sig pc.path ∷ print_cmd pc)

-- The reading loop of `pipe_data_thread`, over the bytes that arrive before the end of the pipe:
-- the lines that it logs, from what is in the buffer.
unfoldable pub pipe_data : Text → Text → List Text
pipe_data recv_buf [] = if empty recv_buf then [] else recv_buf ∷ []
pipe_data recv_buf (recv_byte ∷ rest) =
    let go_on = pipe_data (recv_buf ++ recv_byte ∷ []) rest in
    let next_line = recv_buf ∷ pipe_data [] rest in if recv_byte == b'\n' then next_line else go_on
