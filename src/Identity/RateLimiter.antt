-- ===== src/Identity/RateLimiter.antt =====
-- apps/api/src/features/identity/login-rate-limiter.service.ts: failed attempts per address. Redis is a
-- parameter: its commands, of which each may fail, and what they do while the server answers and the
-- window of a counter is open. A pending deletion after a failed `pexpire` may itself fail.
pub mod Attempts
mod Tests
use versi_go.Prelude.{
  ℕ, zero, suc, ◌+◌, ◌<◌, ◌≡◌, ◌≢◌, Text, eq_text, codes, Bool, true, false, Option, none, some,
  ◌++◌, if◌then◌else◌, leb, ◌==◌,
}

pub data RateScope : Type 0 where
  login register change_password : RateScope

abbrev pub scope_text : RateScope → Text
scope_text login = codes "login"
scope_text register = codes "register"
scope_text change_password = codes "change-password"

-- `${scope}:attempts:${ip}`
abbrev pub redis_key : RateScope → Text → Text
redis_key scope ip = scope_text scope ++ codes ":attempts:" ++ ip

pub record Redis : Type 1 where
  pub Store : Type 0
  -- The commands; `none` is an exception of the client.
  pub incr : Text → Store → Option (ℕ × Store)
  pub pexpire : Text → ℕ → Store → Option (ℕ × Store)
  pub del : Text → Store → Option Store
  pub get : Text → Store → Option (Option ℕ)
  -- The counter of a key, 0 where there is none, in a store whose server answers.
  pub counter : Text → Store → ℕ
  pub incr_counts :
      (key : Text) (s : Store)
      → (next : Store) × (incr key s ≡ some (suc (counter key s), next))
        × ((other : Text)
            → counter other next
              ≡ (if eq_text other key then suc (counter key s) else counter other s))
  -- A key that exists gets a window that is not yet over.
  pub pexpire_keeps :
      (key : Text) (ms : ℕ) (s : Store)
      → 0 < counter key s
      → 0 < ms
      → (next : Store) × (pexpire key ms s ≡ some (1, next))
        × ((other : Text) → counter other next ≡ counter other s)
  pub del_clears :
      (key : Text) (s : Store)
      → (next : Store) × (del key s ≡ some next)
        × ((other : Text) → counter other next ≡ (if eq_text other key then 0 else counter other s))
  pub get_reads :
      (key : Text) (s : Store)
      → get key s ≡ some (if counter key s == 0 then none else some (counter key s))

module _ (redis : Redis) (max_attempts window_ms : ℕ) where
  open redis use {Store, incr, pexpire, del, get}

  -- The state behind a command that may fail.
  abbrev kept : Store → Option Store → Store
  kept s none = s
  kept s (some next) = next

  -- What follows the count of an attempt.
  unfoldable pub after_incr : Text → Store → Option (ℕ × Store) → ℕ × Store
  after_incr key s none = (1, s)
  after_incr key s (some (count, counted)) =
      if count == 1
      then (elim (pexpire key window_ms counted) [
        | none ↦ (1, counted)
        | some (ttl_set, expiring) ↦
            if ttl_set == 1 then (count, expiring) else (1, kept expiring (del key expiring))
      ])
      else (count, counted)

  unfoldable pub record_attempt : Text → RateScope → Store → ℕ × Store
  unfolding after_incr
  record_attempt ip scope s = after_incr (redis_key scope ip) s (incr (redis_key scope ip) s)

  unfoldable pub is_blocked : Text → RateScope → Store → Bool
  is_blocked ip scope s = elim (get (redis_key scope ip) s) [
    | none ↦ false
    | some none ↦ false
    | some (some count) ↦ leb max_attempts count
  ]

  unfoldable pub reset_attempts : Text → RateScope → Store → Store
  reset_attempts ip scope s = kept s (del (redis_key scope ip) s)
