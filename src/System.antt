-- ===== src/System.antt =====
-- The two versions of `system`: `mysystem` of my-src/Chapter-10/10-26.c, without a care for signals, and
-- `mysystem2` of 10-28.c, which ignores two signals and blocks a third while its child runs.
pub mod Runs
mod Tests
use my_apue.Prelude.{ℕ, Option, none, some, Bool, true, false, List, [], ◌∷◌, ◌==◌, if◌then◌else◌}
use my_apue.Prelude.Int.{ℤ, pos, minus_one}

-- What is done with a signal.
pub data Handler : Type 0 where
  default ignored : Handler
  caught : ℕ → Handler

-- The handlers of SIGINT and SIGQUIT, and the signals that are blocked.
pub record Signals : Type 0 where
  pub sigint : Handler
  pub sigquit : Handler
  pub blocked : ℕ → Bool

-- `execl` sets what is caught to the default, and leaves what is ignored and the mask.
abbrev pub at_exec : Handler → Handler
at_exec default = default
at_exec ignored = ignored
at_exec (caught n) = default

abbrev pub exec_signals : Signals → Signals
exec_signals s = record s { sigint = at_exec s.sigint; sigquit = at_exec s.sigquit }

abbrev pub sigchld : ℕ
sigchld = 17

-- An answer of `waitpid`: the status, EINTR, or another error.
pub data Wait : Type 0 where
  exited : ℤ → Wait
  interrupted failed : Wait

-- Which calls succeed, and the answers of `waitpid`.
pub record Calls : Type 0 where
  pub ignore_int : Bool
  pub ignore_quit : Bool
  pub block : Bool
  pub fork : Bool
  pub waits : List Wait
  pub restore_int : Bool
  pub restore_quit : Bool
  pub restore_mask : Bool

-- A return, with the signals of the caller after it and those that the shell started with, if it did; or
-- a `waitpid` that has not returned.
pub data Ended : Type 0 where
  returned : ℤ → Signals → Option Signals → Ended
  waiting : Ended

-- The loop of `mysystem`: it leaves at EINTR and goes on after any other error.
unfoldable pub wait_1 : List Wait → Option ℤ
wait_1 [] = none
wait_1 (exited status ∷ waits) = some status
wait_1 (interrupted ∷ waits) = some minus_one
wait_1 (failed ∷ waits) = wait_1 waits

abbrev pub after_wait_1 : Option ℤ → Signals → Ended
after_wait_1 none s = waiting
after_wait_1 (some status) s = returned status s (some (exec_signals s))

unfoldable pub mysystem : Calls → Option (List ℕ) → Signals → Ended
unfolding wait_1
mysystem c none s = returned (pos 1) s none
mysystem c (some cmdstring) s =
    if c.fork then after_wait_1 (wait_1 c.waits) s else returned minus_one s none

-- The loop of `mysystem2`: it leaves at an error other than EINTR.
unfoldable pub wait_2 : List Wait → Option ℤ
wait_2 [] = none
wait_2 (exited status ∷ waits) = some status
wait_2 (interrupted ∷ waits) = wait_2 waits
wait_2 (failed ∷ waits) = some minus_one

-- `saved` is what the calls before the `fork` have saved; SIGQUIT too is given the handler of SIGINT.
abbrev pub restore : Calls → Signals → ℤ → Signals → Option Signals → Ended
restore c saved status s child =
    if c.restore_int
    then (let s1 : Signals = record s { sigint = saved.sigint } in
        (if c.restore_quit
          then (let s2 : Signals = record s1 { sigquit = saved.sigint } in
              (if c.restore_mask
                then returned status (record s2 { blocked = saved.blocked }) child
                else returned minus_one s2 child))
          else returned minus_one s1 child))
    else returned minus_one s child

abbrev pub after_wait_2 : Calls → Signals → Option ℤ → Signals → Ended
after_wait_2 c saved none s = waiting
after_wait_2 c saved (some status) s = restore c saved status s (some (exec_signals saved))

-- From the `fork` on; the child restores the signals before its `execl`.
abbrev pub run_shell : Calls → Signals → Signals → Ended
run_shell c saved s =
    if c.fork then after_wait_2 c saved (wait_2 c.waits) s else restore c saved minus_one s none

abbrev pub with_ignored : Signals → Signals
with_ignored s = record s { sigint = ignored; sigquit = ignored }

abbrev pub with_blocked : Signals → Signals
with_blocked s = record s { blocked = λ n. if n == sigchld then true else s.blocked n }

unfoldable pub mysystem2 : Calls → Option (List ℕ) → Signals → Ended
unfolding wait_2
mysystem2 c none s = returned (pos 1) s none
mysystem2 c (some cmdstring) s =
    if c.ignore_int
    then (if c.ignore_quit
        then (if c.block
            then run_shell c s (with_blocked (with_ignored s))
            else returned minus_one (with_ignored s) none)
        else returned minus_one (record s { sigint = ignored }) none)
    else returned minus_one s none
