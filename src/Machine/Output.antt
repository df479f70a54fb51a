-- ===== src/Machine/Output.antt =====
-- machine.go: a finished run of a script, and the output that is kept of it.
use incident_controller.Prelude.{
  ℕ, zero, suc, ◌/◌, ℤ, equals, Text, Bool, false, not, ◌||◌, Option, none, some, [], ◌∷◌, leb,
  ◌==◌, if◌then◌else◌, length, take, trim_space,
}
use incident_controller.Api.Meta.{Time, Duration, minute}
use incident_controller.Api.Incident.{Script}

pub record Config : Type 0 where
  pub poll_interval : Duration
  pub settle_window : Duration
  pub check_timeout : Duration

abbrev pub pending_grace : Duration
pending_grace = minute

pub record Result : Type 0 where
  pub script : Script
  pub exit : Option ℤ
  pub at : Time
  pub output : Text

abbrev pub max_output : ℕ
max_output = 512

unfoldable pub known : Option ℤ → Bool
known none = false
known (some z) = equals z 0 || equals z 1

-- utf8.RuneStart: any byte but a continuation byte, 10xxxxxx.
abbrev pub rune_start : ℕ → Bool
rune_start b = not (b / 64 == 2)

-- `out[i]` tested by `utf8.RuneStart`, false past the end.
abbrev pub starts_at : Text → ℕ → Bool
starts_at [] i = false
starts_at (b ∷ s) zero = rune_start b
starts_at (b ∷ s) (suc i) = starts_at s i

-- `for cut > 0 && !utf8.RuneStart(out[cut]) { cut-- }`
unfoldable pub back_to_start : Text → ℕ → ℕ
back_to_start out zero = zero
back_to_start out (suc cut) =
    let back = back_to_start out cut in if starts_at out (suc cut) then suc cut else back

unfoldable pub cut_output : Text → Text
unfolding back_to_start
cut_output out =
    if leb (length out) max_output then out else take (back_to_start out max_output) out

-- The output kept of a run: for a verdict none, else the start of the trimmed text.
unfoldable pub output_of : Option ℤ → Text → Text
unfolding known cut_output
output_of exit out = if known exit then [] else cut_output (trim_space out)
