-- ===== src/Heartbeat/Keys.antt =====
-- services/heartbeat_service.py: the Redis keys of the workers.
use Prim.Native.String.{◌++◌}
use text.Mathlib.TextLemmas.{append_cancel_left, append_cancel_right, nil-append, cons-append}
use Prim.Native.Char.{code}
use schedora.Base.{ap, ℕ, String, ◌≡◌, ◌≢◌, ◌∙◌, arith}
use schedora.Heartbeat.{heartbeat_key, jobs_key}

-- The last character of a text.
abbrev last : String → ℕ → ℕ
last String.[] d = d
last (String.◌∷◌ c s) d = last s (code c)

last_append : (s t : String) (d : ℕ) → last (s ++ t) d ≡ last t (last s d)
last_append String.[] t d = ap (λ u. last u d) (nil-append t)
last_append (String.◌∷◌ c s) t d = ap (λ u. last u d) (cons-append c s t) ∙ last_append s t (code c)

-- Different workers have different heartbeat keys and different job keys.
pub keys-injective :
    (a b : String) → a ≢ b → (heartbeat_key a ≢ heartbeat_key b) × (jobs_key a ≢ jobs_key b)
keys-injective a b h = (
  λ same. h (append_cancel_right a b ":heartbeat" (append_cancel_left "worker:" _ _ same)),
  λ same. h (append_cancel_right a b ":jobs" (append_cancel_left "worker:" _ _ same)),
)

-- No heartbeat key is a job key, whatever the workers are called.
pub heartbeat-ne-jobs : (a b : String) → heartbeat_key a ≢ jobs_key b
heartbeat-ne-jobs a b same = omega (
  arith,
  last_append a ":heartbeat" 0,
  last_append b ":jobs" 0,
  ap (λ s. last s 0) (append_cancel_left "worker:" _ _ same),
)
