-- ===== src/Apply/Output.antt =====
-- apply.go: podLogs, the end of an apply pod's output as valid UTF-8.
use incident_controller.Prelude.{
  ◌||◌, ℕ, zero, suc, ◌==◌, Text, Bool, ◌&&◌, Option, none, some, List, [], ◌∷◌, leb, ltb,
  if◌then◌else◌,
}
use incident_controller.Api.IncidentApply.{max_apply_output}
use incident_controller.Apply.Tail.{copy}
use incident_controller.Apply.Observe.{Logs, logged, unlogged}

-- What the apiserver answers to a request for logs: no stream, or what is read of it until its end
-- or an error.
pub data Stream : Type 0 where
  refused : Text → Stream
  streamed : List Text → Option Text → Stream

-- A byte of a text, 0 past its end. No rune but the byte 0 itself has a byte 0.
unfoldable pub byte : Text → ℕ → ℕ
byte [] i = 0
byte (b ∷ s) zero = b
byte (b ∷ s) (suc i) = byte s i

unfoldable pub lies : ℕ → ℕ → ℕ → Bool
lies low b high = leb low b && leb b high

-- The bytes of a rune, by its first one; 0 for a byte that starts none.
unfoldable pub first_width : ℕ → ℕ
unfolding lies
first_width a =
    if ltb a 0x80
    then 1
    else if lies 0xc2 a 0xdf
    then 2
    else if lies 0xe0 a 0xef
    then 3
    else if lies 0xf0 a 0xf4
    then 4
    else 0

-- The second byte of a rune, which excludes overlong forms, surrogates and too great values.
unfoldable pub second_of : ℕ → ℕ → Bool
unfolding lies
second_of a b =
    let low = if a == 0xe0 then 0xa0 else if a == 0xf0 then 0x90 else 0x80 in
    let high = if a == 0xed then 0x9f else if a == 0xf4 then 0x8f else 0xbf in lies low b high

-- Whether the n-th byte of a rune may be b.
unfoldable pub nth_of : ℕ → ℕ → ℕ → Bool
unfolding lies
nth_of n width b = ltb width n || lies 0x80 b 0xbf

-- utf8.DecodeRune: the bytes of the rune that starts with these, 0 if none does.
unfoldable pub width_of : ℕ → ℕ → ℕ → ℕ → ℕ
unfolding first_width second_of nth_of
width_of a b c d =
    let w = first_width a in
    if leb w 1 || second_of a b && (nth_of 3 w c && nth_of 4 w d) then w else 0

-- The bytes of the first rune of a text that is not empty.
unfoldable pub rune_width : Text → ℕ
unfolding width_of byte
rune_width s = width_of (byte s 0) (byte s 1) (byte s 2) (byte s 3)

-- The text without its invalid bytes, where the first bytes belong to a rune found before.
unfoldable pub valid_after : ℕ → Text → Text
valid_after keep [] = []
valid_after (suc keep) (b ∷ s) = b ∷ valid_after keep s
valid_after zero (b ∷ s) = elim (rune_width (b ∷ s)) [
  | zero ↦ valid_after zero s
  | suc more ↦ b ∷ valid_after more s
]

-- `strings.ToValidUTF8(s, "")`.
unfoldable pub to_valid_utf8 : Text → Text
unfolding valid_after
to_valid_utf8 s = valid_after 0 s

unfoldable pub pod_logs : Stream → Logs
unfolding copy to_valid_utf8
pod_logs (refused e) = unlogged e
pod_logs (streamed chunks (some e)) = unlogged e
pod_logs (streamed chunks none) =
    logged (to_valid_utf8 (copy (record { b = []; max = max_apply_output }) chunks).b)
