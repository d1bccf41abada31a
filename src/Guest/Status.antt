-- ===== src/Guest/Status.antt =====
-- packages/linux-guest/src/abi.ts, the wait-status macros, and process.ts, how a process ended. A
-- status is the word that wait returns, below 2 ^ 32.
use distro.Common.{
  ℕ, ◌+◌, ◌-◌, ◌*◌, ◌/◌, ◌%◌, ◌^◌, ◌<◌, ◌≡◌, refl, ap, ◌∙◌, Bool, true, false, ◌&&◌, Option, none,
  some, ltb, ◌==◌, if◌then◌else◌, arith, if_true, if_false,
}

abbrev pub wifexited : ℕ → Bool
wifexited status = status % 128 == 0

abbrev pub wexitstatus : ℕ → ℕ
wexitstatus status = status % 65536 / 256

-- The subtraction wraps around: `>>> 0` makes 2 ^ 32 - 1 of -1.
abbrev pub wifsignaled : ℕ → Bool
wifsignaled status = ltb ((status % 65536 + (2 ^ 32 - 1)) % 2 ^ 32) 255

abbrev pub wtermsig : ℕ → ℕ
wtermsig status = status % 128

pub data Signal : Type 0 where
  sighup sigint sigquit sigkill sigterm sigusr1 sigusr2 : Signal

abbrev pub signal_numbers : Signal → ℕ
signal_numbers sighup = 1
signal_numbers sigint = 2
signal_numbers sigquit = 3
signal_numbers sigkill = 9
signal_numbers sigterm = 15
signal_numbers sigusr1 = 10
signal_numbers sigusr2 = 12

unfoldable pub signal_names : ℕ → Option Signal
signal_names n =
    if n == 1
    then some sighup
    else if n == 2
    then some sigint
    else if n == 3
    then some sigquit
    else if n == 9
    then some sigkill
    else if n == 15
    then some sigterm
    else if n == 10
    then some sigusr1
    else if n == 12
    then some sigusr2
    else none

-- `Signal | number | null`.
pub data EndSignal : Type 0 where
  no_signal : EndSignal
  named : Signal → EndSignal
  numbered : ℕ → EndSignal

pub record CommandStatus : Type 0 where
  pub success : Bool
  pub code : ℕ
  pub signal : EndSignal

abbrev pub signal_of : ℕ → Option Signal → EndSignal
signal_of n none = numbered n
signal_of n (some name) = named name

-- The status that `#reap` makes of what wait returned, where the process was not aborted.
unfoldable pub command_status : ℕ → CommandStatus
command_status status = record {
  success = wifexited status && (wexitstatus status == 0);
  code = wexitstatus status;
  signal =
      if wifsignaled status
      then signal_of (wtermsig status) (signal_names (wtermsig status))
      else no_signal;
}

-- How a process ends: with a code, or by a signal, with a core dumped or not.
pub data Ending : Type 0 where
  exited : ℕ → Ending
  killed : Signal → Bool → Ending
  killed_by : ℕ → Bool → Ending

abbrev pub core : Bool → ℕ
core dumped = if dumped then 128 else 0

-- The word that the kernel encodes it in.
abbrev pub wait_status : Ending → ℕ
wait_status (exited code) = code * 256
wait_status (killed signal dumped) = signal_numbers signal + core dumped
wait_status (killed_by n dumped) = n + core dumped

-- The codes of a byte, and the signals that have no name here.
abbrev pub IsEnding : Ending → Type 0
IsEnding (exited code) = code < 256
IsEnding (killed signal dumped) = Unit {0}
IsEnding (killed_by n dumped) = (0 < n) × (n < 127) × (signal_names n ≡ none)

abbrev pub status_of : Ending → CommandStatus
status_of (exited code) = record { success = code == 0; code = code; signal = no_signal }
status_of (killed signal dumped) = record { success = false; code = 0; signal = named signal }
status_of (killed_by n dumped) = record { success = false; code = 0; signal = numbered n }

same_status :
    (success success' : Bool) (code code' : ℕ) (sent sent' : EndSignal)
    → success ≡ success'
    → code ≡ code'
    → sent ≡ sent'
    → ◌≡◌ {A = CommandStatus}
        (record { success = success; code = code; signal = sent })
        (record { success = success'; code = code'; signal = sent' })
same_status success success' code code' sent sent' e f g = cc

killed_status :
    (n : ℕ) (dumped : Bool)
    → 0 < n
    → n < 127
    → command_status (n + core dumped)
      ≡ record { success = false; code = 0; signal = signal_of n (signal_names n) }
unfolding command_status
killed_status n true p l =
    let low : (n + 128) % 128 ≡ n = omega arith in
    let unexited : wifexited (n + 128) ≡ false = ground arith in
    let signaled : wifsignaled (n + 128) ≡ true = ground arith in
    same_status _ _ _ _ _ _ (ap (λ b. b && (wexitstatus (n + 128) == 0)) unexited) (omega arith)
      (if_true (wifsignaled (n + 128)) _ _ signaled ∙ ap (λ k. signal_of k (signal_names k)) low)
killed_status n false p l =
    let low : (n + 0) % 128 ≡ n = omega arith in
    let unexited : wifexited (n + 0) ≡ false = ground arith in
    let signaled : wifsignaled (n + 0) ≡ true = ground arith in
    same_status _ _ _ _ _ _ (ap (λ b. b && (wexitstatus (n + 0) == 0)) unexited) (omega arith)
      (if_true (wifsignaled (n + 0)) _ _ signaled ∙ ap (λ k. signal_of k (signal_names k)) low)

signal_names-signal_numbers : (signal : Signal) → signal_names (signal_numbers signal) ≡ some signal
unfolding signal_names
signal_names-signal_numbers sighup = refl
signal_names-signal_numbers sigint = refl
signal_names-signal_numbers sigquit = refl
signal_names-signal_numbers sigkill = refl
signal_names-signal_numbers sigterm = refl
signal_names-signal_numbers sigusr1 = refl
signal_names-signal_numbers sigusr2 = refl

signal_numbers-bounds :
    (signal : Signal) → (0 < signal_numbers signal) × (signal_numbers signal < 127)
signal_numbers-bounds sighup = (omega arith, omega arith)
signal_numbers-bounds sigint = (omega arith, omega arith)
signal_numbers-bounds sigquit = (omega arith, omega arith)
signal_numbers-bounds sigkill = (omega arith, omega arith)
signal_numbers-bounds sigterm = (omega arith, omega arith)
signal_numbers-bounds sigusr1 = (omega arith, omega arith)
signal_numbers-bounds sigusr2 = (omega arith, omega arith)

-- A process that exits is reported with its code, and with success exactly for the code 0; one that
-- a signal kills, with core or without, with the code 0, no success and its signal: by name if
-- it is one of the seven, and else by its number, from 1 to 126.
pub command_status-wait_status :
    (ending : Ending) → IsEnding ending → command_status (wait_status ending) ≡ status_of ending
unfolding command_status
command_status-wait_status (exited code) h =
    let done : wifexited (code * 256) ≡ true = ground arith in
    let same_code : wexitstatus (code * 256) ≡ code = omega arith in
    let unsignaled : wifsignaled (code * 256) ≡ false = ground arith in
    same_status _ _ _ _ _ _
      (ap (λ b. b && (wexitstatus (code * 256) == 0)) done ∙ ap (λ c. c == 0) same_code) same_code
      (if_false (wifsignaled (code * 256)) _ _ unsignaled)
command_status-wait_status (killed signal dumped) h =
    let (p, l) = signal_numbers-bounds signal in
    killed_status (signal_numbers signal) dumped p l
    ∙ ap
        (λ name. record {
          success = false;
          code = 0;
          signal = signal_of (signal_numbers signal) name;
        })
        (signal_names-signal_numbers signal)
command_status-wait_status (killed_by n dumped) (p, l, e) =
    killed_status n dumped p l
    ∙ ap (λ name. record { success = false; code = 0; signal = signal_of n name }) e
