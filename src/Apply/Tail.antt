-- ===== src/Apply/Tail.antt =====
-- apply.go: the end of an apply pod's output.
use incident_controller.Prelude.{
  Text, ℕ, ◌-◌, ◌++◌, List, [], ◌∷◌, ltb, if◌then◌else◌, length, drop,
}

pub record TailBuffer : Type 0 where
  pub b : Text
  pub max : ℕ

-- Write appends, then keeps the last `max` bytes. It returns the length written and no error.
unfoldable pub write : TailBuffer → Text → TailBuffer
write t chunk =
    let all = t.b ++ chunk in
    let n = length all in record t { b = if ltb t.max n then drop (n - t.max) all else all }

-- io.Copy: the chunks that are read, one after the other.
unfoldable pub copy : TailBuffer → List Text → TailBuffer
copy t [] = t
copy t (chunk ∷ chunks) = copy (write t chunk) chunks
