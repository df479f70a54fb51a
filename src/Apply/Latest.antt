-- ===== src/Apply/Latest.antt =====
-- apply.go: what the buffer holds after any sequence of writes.
use incident_controller.Prelude.{
  drop-drop, drop-append, ◌≡⟨◌⟩◌, ◌∎, length-drop, sym, ◌∙◌, ap, length-append, ◌+◌, ◌-◌, ◌≤◌, ◌++◌,
  Text, ℕ, List, [], ◌∷◌, ◌≡◌, arith, length, drop, append_assoc, append-nil,
}
use incident_controller.Apply.Tail.{TailBuffer, write, copy}

-- All that was written.
pub joined : List Text → Text
joined [] = []
joined (chunk ∷ chunks) = chunk ++ joined chunks

-- The last n bytes of a text.
pub last_bytes : ℕ → Text → Text
last_bytes n s = drop (length s - n) s

pub length-last_bytes : (n : ℕ) (s : Text) → length (last_bytes n s) ≤ n
unfolding last_bytes
length-last_bytes n s = let e = length-drop (length s - n) s in omega arith

last_bytes-append :
    (n : ℕ) (s t : Text) → last_bytes n (last_bytes n s ++ t) ≡ last_bytes n (s ++ t)
unfolding last_bytes
last_bytes-append n s t =
    let k = length s - n in
    let kept = drop k s ++ t in
    let shorter : length kept ≡ length s - k + length t =
      ground (arith, length-append (drop k s) t, length-drop k s) in
    drop (length kept - n) kept
    ≡⟨ ap (drop (length kept - n)) (sym (drop-append k s t (omega arith))) ⟩
      drop (length kept - n) (drop k (s ++ t))
    ≡⟨ drop-drop (length kept - n) k (s ++ t) ⟩ drop (k + (length kept - n)) (s ++ t)
    ≡⟨ ap (λ m. drop m (s ++ t)) (omega (arith, shorter, length-append s t)) ⟩
      drop (length (s ++ t) - n) (s ++ t) ∎

-- A text that fits is its own end.
last_bytes_all : (n : ℕ) (s : Text) → length s ≤ n → last_bytes n s ≡ s
unfolding last_bytes
last_bytes_all n s h = let e : length s - n ≡ 0 = omega arith in ap (λ m. drop m s) e

write-last_bytes :
    (t : TailBuffer) (chunk : Text) → (write t chunk).b ≡ last_bytes t.max (t.b ++ chunk)
unfolding write last_bytes
write-last_bytes t chunk = ground (arith, last_bytes_all t.max (t.b ++ chunk))

last_bytes-copy :
    (t : TailBuffer) (before : Text) (chunks : List Text)
    → t.b ≡ last_bytes t.max before
    → (copy t chunks).b ≡ last_bytes t.max (before ++ joined chunks)
unfolding copy joined write
last_bytes-copy t before [] e = e ∙ ap (last_bytes t.max) (sym (append-nil before))
last_bytes-copy t before (chunk ∷ chunks) e =
    last_bytes-copy (write t chunk) (before ++ chunk) chunks (
      write-last_bytes t chunk
      ∙ ap (λ s. last_bytes t.max (s ++ chunk)) e
      ∙ last_bytes-append t.max before chunk)
    ∙ ap (last_bytes t.max) (append_assoc before chunk (joined chunks))

-- Whatever is written, and in whatever chunks, a buffer that starts empty holds the last `max`
-- bytes of all of it.
pub copy-last_bytes :
    (max : ℕ) (chunks : List Text)
    → (copy (record { b = []; max = max }) chunks).b ≡ last_bytes max (joined chunks)
copy-last_bytes max chunks =
    last_bytes-copy (record { b = []; max = max }) [] chunks
      (sym (last_bytes_all max [] (omega arith)))
