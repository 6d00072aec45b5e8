-- ===== src/Identity/RateLimiter/Tests.antt =====
-- login-rate-limiter.service.ts: a Redis that keeps its counters as a function of the key.
use versi_go.Prelude.{
  ℕ, suc, ◌≡◌, refl, Text, eq_text, codes, true, false, none, some, if◌then◌else◌, leb, ◌==◌, arith,
}
use versi_go.Identity.RateLimiter.{
  login, register, Redis, after_incr, record_attempt, is_blocked, reset_attempts,
}
use versi_go.Identity.RateLimiter.Attempts.{attempts, attempts-is_blocked}

limiter : Unit {0}
unfolding after_incr record_attempt is_blocked reset_attempts eq_text
limiter = tt

abbrev set_counter : Text → ℕ → (Text → ℕ) → Text → ℕ
set_counter key n s other = if eq_text other key then n else s other

abbrev memory : Redis
memory = record {
  Store = Text → ℕ;
  incr = λ key s. some (suc (s key), set_counter key (suc (s key)) s);
  pexpire = λ key ms s. some (1, s);
  del = λ key s. some (set_counter key 0 s);
  get = λ key s. some (if s key == 0 then none else some (s key));
  counter = λ key s. s key;
  incr_counts = λ key s. (set_counter key (suc (s key)) s, refl, λ other. refl);
  pexpire_keeps = λ key ms s exists positive. (s, refl, λ other. refl);
  del_clears = λ key s. (set_counter key 0 s, refl, λ other. refl);
  get_reads = λ key s. refl;
}

abbrev address : Text
address = codes "10.0.0.1"

abbrev nothing : Text → ℕ
nothing key = 0

runs :
    (is_blocked memory 2 1000 address login (attempts memory 2 1000 1 address login nothing)
      ≡ false)
    × (is_blocked memory 2 1000 address login (attempts memory 2 1000 2 address login nothing)
        ≡ true)
    × (is_blocked memory 2 1000 address register (attempts memory 2 1000 2 address login nothing)
        ≡ false)
unfolding limiter
runs = (refl, refl, refl)

attempts-is_blocked_example :
    is_blocked memory 2 1000 address login
      (attempts memory 2 1000 3 address login (reset_attempts memory 2 1000 address login nothing))
    ≡ leb 2 3
attempts-is_blocked_example =
    attempts-is_blocked memory 2 1000 (omega arith) 3 address login nothing (omega arith)
