-- ===== src/Gpredict/Commands.antt =====
-- The operator commands of gpredict/src/gpredict_commands.c. A handler takes the values of its
-- arguments, and fills the result that the command service hands it. A formatted detail is kept as
-- its arguments; its buffer, and the truncation to it, are the service's.
pub mod Outcomes
pub mod Registry
use Prim.Native.String.{String}
use kfsw_modules.Prelude.{
  ℕ, ◌%◌, Bool, true, false, Option, none, some, List, ltb, ◌==◌, if◌then◌else◌, u8_max,
}
use kfsw_modules.Errno.{Errno, Ret, ok, err, einval, enoent, eperm, ebusy, ealready}
use kfsw_modules.Gpredict.Config.{Config}
use kfsw_modules.Gpredict.Machine.{State, state_name}
use kfsw_modules.Gpredict.Tracker
use kfsw_modules.Gpredict.Profiles.{Profile, Node, select, enable, get}

-- The KFSW_COMMAND_* statuses that the handlers set.
pub data CommandStatus : Type 0 where
  done invalid_argument denied busy failed : CommandStatus

pub data Detail : Type 0 where
  reason : String → Detail
  reason_code : String → Ret → Detail
  selected : ℕ → List ℕ → ℕ → Detail
  profile_enabled : ℕ → ℕ → Detail
  state : String → Detail

-- struct kfsw_command_result
pub record CommandResult : Type 0 where
  pub status : CommandStatus
  pub detail : Detail

unfoldable pub say : Ret → String → CommandResult
say (err Errno.enoent) text = record { status = invalid_argument; detail = Detail.reason text }
say (err Errno.eperm) text = record { status = denied; detail = Detail.reason text }
say (err Errno.ebusy) text = record { status = busy; detail = Detail.reason text }
say (err Errno.ealready) text = record { status = busy; detail = Detail.reason text }
say outcome text = record { status = failed; detail = Detail.reason_code text outcome }

-- The slot that an argument names, or what profile_index() says where it names none.
unfoldable pub profile_index : ℕ → Option ℕ
profile_index value = if ltb u8_max value then none else some (value % 256)

abbrev no_profile : String
no_profile = "no profile is defined there"

unfoldable pub say_state : ℕ → Node → Node × CommandResult
say_state now n =
    let (t, _, _) = Tracker.get_status now true n.tracker in
    (
      record n { tracker = t },
      record { status = done; detail = Detail.state (state_name n.tracker.status.state) },
    )

is_eperm : Ret → Bool
is_eperm (err Errno.eperm) = true
is_eperm _ = false

is_ebusy : Ret → Bool
is_ebusy (err Errno.ebusy) = true
is_ebusy _ = false

-- The end of command_select, on the outcome of the selection and of the read that follows it.
report_select : ℕ → Ret → Option Profile → Node → Node × CommandResult × Ret
unfolding is_eperm say
report_select index ok (some p) n =
    (n, record { status = done; detail = Detail.selected index p.name p.catalogue }, ok)
report_select index outcome _ n = (
  n,
  say outcome (if is_eperm outcome then "the profile is disabled; enable it first" else no_profile),
  outcome,
)

-- `if (outcome == 0) outcome = kfsw_gpredict_profile_get(index, &profile);`
read_selected : ℕ → Ret → Node → Ret × Option Profile
read_selected index ok n = get index true n
read_selected index outcome n = (outcome, none)

select_slot : Option ℕ → Node → Node × CommandResult × Ret
unfolding read_selected report_select select get say
select_slot none n = (n, say (err enoent) no_profile, err einval)
select_slot (some index) n =
    let (n', outcome) = select index n in
    let (outcome', profile) = read_selected index outcome n' in
    report_select index outcome' profile n'

unfoldable pub command_select : ℕ → Node → Node × CommandResult × Ret
unfolding profile_index select_slot
command_select value n = select_slot (profile_index value) n

report_enable : ℕ → ℕ → Node → Ret → Node × CommandResult × Ret
unfolding is_ebusy say
report_enable index flag n ok =
    (n, record { status = done; detail = Detail.profile_enabled index flag }, ok)
report_enable index flag n outcome = (
  n,
  say outcome
      (if is_ebusy outcome then "the profile is selected; select another first" else no_profile),
  outcome,
)

enable_slot : Option ℕ → ℕ → Node → Node × CommandResult × Ret
unfolding report_enable enable say
enable_slot none flag n = (n, say (err enoent) no_profile, err einval)
enable_slot (some index) flag n =
    if ltb 1 flag
    then (
      n,
      record {
        status = invalid_argument;
        detail = Detail.reason "write 1 to enable or 0 to disable";
      },
      err einval,
    )
    else let (n', outcome) = enable index (flag == 1) n in report_enable index flag n' outcome

unfoldable pub command_enable : ℕ → ℕ → Node → Node × CommandResult × Ret
unfolding profile_index enable_slot
command_enable value flag n = enable_slot (profile_index value) flag n

-- `if (outcome != 0) { say(result, outcome, reason); return outcome; } say_state(result);`
report_state : ℕ → String → Node → Ret → Node × CommandResult × Ret
unfolding say say_state
report_state now text n ok = let (n', r) = say_state now n in (n', r, ok)
report_state now text n outcome = (n, say outcome text, outcome)

unfoldable pub command_park : Config → ℕ → Node → Node × CommandResult × Ret
unfolding report_state
command_park c now n =
    let (t, outcome) = Tracker.park c n.tracker in
    report_state now "the tracker is in fault; clear it first" (record n { tracker = t }) outcome

unfoldable pub command_clear : Config → ℕ → Node → Node × CommandResult × Ret
unfolding report_state
command_clear c now n =
    let (t, outcome) = Tracker.clear c n.tracker in
    report_state now "the tracker is not in fault" (record n { tracker = t }) outcome
