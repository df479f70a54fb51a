-- ===== src/Apply/Valid.antt =====
-- apply.go: the output of a request is valid UTF-8 of a bounded length.
use incident_controller.Prelude.{
  subst, length-take, ◌∙◌, ℕ, zero, suc, ◌≤◌, ◌<◌, ◌≡◌, ◌⊎◌, ◌++◌, inl, inr, refl, sym, ap, Text,
  true, none, some, List, [], ◌∷◌, arith, All, take, length,
}
use incident_controller.Api.Meta.{Time}
use incident_controller.Api.IncidentApply.{IncidentApply, max_apply_output}
use incident_controller.Platform.{Platform}
use incident_controller.Machine.Runes.{encode}
use incident_controller.Apply.Access.{Libraries, ApiServer}
use incident_controller.Apply.Latest.{joined, length-last_bytes, copy-last_bytes}
use incident_controller.Apply.Plan.{ApplyConfig}
use incident_controller.Apply.Observe.{Logs, logged, unlogged, Answers, observe_apply}
use incident_controller.Apply.Output.{
  nth_of, width_of, Stream, refused, streamed, byte, rune_width, valid_after, to_valid_utf8,
  pod_logs,
}

-- The bytes of one rune.
abbrev pub IsUtf8Rune : Text → Type 0
IsUtf8Rune r = (rune_width r ≡ length r) × (0 < length r)

byte-take : (n i : ℕ) (s : Text) → i < n → byte (take n s) i ≡ byte s i
unfolding byte
byte-take zero i s h = absurd (omega arith)
byte-take (suc n) i [] h = refl
byte-take (suc n) zero (b ∷ s) h = refl
byte-take (suc n) (suc i) (b ∷ s) h = byte-take n i s (omega arith)

byte-past : (s : Text) (i : ℕ) → length s ≤ i → byte s i ≡ 0
unfolding byte
byte-past [] i h = refl
byte-past (b ∷ s) zero h = absurd (omega arith)
byte-past (b ∷ s) (suc i) h = byte-past s i (omega arith)

-- A rune has all its bytes in the text.
rune_width-length : (s : Text) → 0 < length s → rune_width s ≤ length s
unfolding rune_width
rune_width-length s h = ground (arith, byte-past s 1, byte-past s 2, byte-past s 3)

nth_of_past : (n width b : ℕ) → width < n → nth_of n width b ≡ true
unfolding nth_of
nth_of_past n width b h = ground arith

-- The width of a rune depends on its own bytes only.
width_of_own :
    (a b c d b' c' d' n : ℕ)
    → width_of a b c d ≡ n
    → 0 < n
    → (1 < n → b' ≡ b)
    → (2 < n → c' ≡ c)
    → (3 < n → d' ≡ d)
    → width_of a b' c' d' ≡ n
unfolding width_of
width_of_own a b c d b' c' d' n e h eb ec ed =
    ground (arith, nth_of_past 3 n c', nth_of_past 4 n d')

-- The rune alone is decoded as it is in the text.
rune_width-take : (n : ℕ) (s : Text) → rune_width s ≡ n → 0 < n → rune_width (take n s) ≡ n
unfolding rune_width
rune_width-take n s e h = rw (byte-take n 0 s h) (
    width_of_own (byte s 0) (byte s 1) (byte s 2) (byte s 3) _ _ _ n e h (byte-take n 1 s)
      (byte-take n 2 s) (byte-take n 3 s))

take-IsUtf8Rune :
    (n : ℕ) (s : Text) → rune_width s ≡ n → 0 < n → 0 < length s → IsUtf8Rune (take n s)
take-IsUtf8Rune n s e h l =
    let whole = length-take n s in
    let fits = rune_width-length s l in (rune_width-take n s e h ∙ omega arith, omega arith)

-- Some whole runes, behind a part of one.
abbrev IsRest : Text → Text → Type 0
IsRest part s = (rs : List Text) × All IsUtf8Rune rs × (s ≡ part ++ encode rs)

valid_after-rune :
    (b : ℕ) (s : Text) (w : ℕ)
    → rune_width (b ∷ s) ≡ w
    → ((keep : ℕ) → IsRest (take keep s) (valid_after keep s))
    → IsRest [] (valid_after 0 (b ∷ s))
unfolding valid_after
valid_after-rune b s zero e rest = let (rs, v, same) = rest 0 in (rs, v, rw (valid_after, e) same)
valid_after-rune b s (suc more) e rest =
    let (rs, v, same) = rest more in
    (
      take (suc more) (b ∷ s) ∷ rs,
      (take-IsUtf8Rune (suc more) (b ∷ s) e (omega arith) (omega arith), v),
      rw (valid_after, e) (ap (◌∷◌ b) same),
    )

-- What is left of a text is the rest of a rune and whole runes.
valid_after-runes : (keep : ℕ) (s : Text) → IsRest (take keep s) (valid_after keep s)
unfolding valid_after
valid_after-runes zero [] = ([], tt, refl)
valid_after-runes (suc keep) [] = ([], tt, refl)
valid_after-runes (suc keep) (b ∷ s) =
    let (rs, v, e) = valid_after-runes keep s in (rs, v, ap (◌∷◌ b) e)
valid_after-runes zero (b ∷ s) =
    valid_after-rune b s (rune_width (b ∷ s)) refl (λ k. valid_after-runes k s)

valid_after-length : (keep : ℕ) (s : Text) → length (valid_after keep s) ≤ length s
unfolding valid_after
valid_after-length keep [] = omega arith
valid_after-length zero (b ∷ s) =
    elim (rune_width (b ∷ s))
      as (λ w.
        length
          (elim w as (λ x. Text) [ zero ↦ valid_after 0 s | suc more ↦ b ∷ valid_after more s ])
        ≤ suc (length s)) [
          | zero ↦ let ih = valid_after-length 0 s in omega arith
          | suc more ↦ let ih = valid_after-length more s in omega arith
        ]
valid_after-length (suc keep) (b ∷ s) = let ih = valid_after-length keep s in omega arith

-- Whole runes of UTF-8, of no more bytes than the API allows.
abbrev pub IsOutput : Text → Type 0
IsOutput s =
    (length s ≤ max_apply_output) × ((rs : List Text) × All IsUtf8Rune rs × (s ≡ encode rs))

abbrev AllOutput : Logs → Type 0
AllOutput (logged out) = IsOutput out
AllOutput (unlogged e) = Unit

to_valid_utf8-IsOutput : (s : Text) → length s ≤ max_apply_output → IsOutput (to_valid_utf8 s)
unfolding to_valid_utf8
to_valid_utf8-IsOutput s h =
    let shorter = valid_after-length 0 s in (omega arith, valid_after-runes 0 s)

pod_logs-AllOutput : (stream : Stream) → AllOutput (pod_logs stream)
unfolding pod_logs
pod_logs-AllOutput (refused e) = tt
pod_logs-AllOutput (streamed chunks (some e)) = tt
pod_logs-AllOutput (streamed chunks none) = to_valid_utf8-IsOutput _ (
    rw (copy-last_bytes max_apply_output chunks)
      (length-last_bytes max_apply_output (joined chunks)))

module _ ⦃p : Platform⦄ ⦃lib : Libraries⦄ where
  observe_apply-outputs :
      (api : ApiServer) (cfg : ApplyConfig) (answers : Answers) (now : Time) (ia : IncidentApply)
      → let out = (observe_apply api cfg answers now ia).0.ia.status.output in
        (out ≡ ia.status.output) ⊎ (out ≡ []) ⊎ (answers.logs ≡ logged out)
  unfolding observe_apply
  observe_apply-outputs api cfg answers now ia = ground arith

  -- Whatever bytes a run writes and however the stream of them is read, the output that Observe
  -- leaves in a request is whole runes of UTF-8, of at most MaxApplyOutput bytes, if that held of
  -- the output before.
  pub observe_apply-IsOutput :
      (api : ApiServer) (cfg : ApplyConfig) (answers : Answers) (now : Time) (ia : IncidentApply)
      (stream : Stream)
      → answers.logs ≡ pod_logs stream
      → IsOutput ia.status.output
      → IsOutput (observe_apply api cfg answers now ia).0.ia.status.output
  observe_apply-IsOutput api cfg answers now ia stream e h =
      elim (observe_apply-outputs api cfg answers now ia) [
        | inl same ↦ rw same h
        | inr (inl empty) ↦ rw empty (omega arith, ([], tt, refl))
        | inr (inr read) ↦ subst AllOutput (sym e ∙ read) (pod_logs-AllOutput stream)
      ]
