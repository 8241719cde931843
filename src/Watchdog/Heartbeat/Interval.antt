-- ===== src/Watchdog/Heartbeat/Interval.antt =====
-- Which interval the two variables of systemd give.
use uds_policy.Common.{
  ℕ, ◌+◌, ◌*◌, ◌/◌, ◌≤◌, ◌<◌, ◌≡◌, ◌≢◌, ◌↔◌, refl, inl, inr, true, Option, none, some, Text,
  decimal, parse_uint, parse-decimal, parse_uint-le, u32_max, u64_max, arith, Bool-cases,
  Option-cases, subst,
}
use uds_policy.System.{Duration, from_micros}
use uds_policy.Watchdog.Heartbeat.{heartbeat_from, half_of, for_me, is_mine, timeout_of}

-- The process that systemd aimed the watchdog at is this one, if it named one.
abbrev pub IsForMe : Option Text → ℕ → Type 0
IsForMe none current_pid = Unit
IsForMe (some pid) current_pid = parse_uint u32_max pid ≡ some current_pid

abbrev pub Reads : Option Text → ℕ → Type 0
Reads none u = ⊥
Reads (some usec) u = parse_uint u64_max usec ≡ some u

is_mine_iff :
    (o : Option ℕ) (current_pid : ℕ) → (is_mine o current_pid ≡ true) ↔ (o ≡ some current_pid)
unfolding is_mine
is_mine_iff none c = ground arith
is_mine_iff (some pid) c = ground arith

for_me_iff :
    (pid : Option Text) (current_pid : ℕ)
    → (for_me pid current_pid ≡ true) ↔ IsForMe pid current_pid
unfolding for_me
for_me_iff none c = ground arith
for_me_iff (some pid) c = is_mine_iff (parse_uint u32_max pid) c

-- What systemd writes is read back: with the timeout in microseconds and the pid of this process, or
-- no pid, the heartbeat has half the timeout; with the pid of another process there is none.
pub heartbeat_from-decimal :
    (usec current_pid other : ℕ)
    → 0 < usec
    → usec ≤ u64_max
    → current_pid ≤ u32_max
    → other ≤ u32_max
    → other ≢ current_pid
    → (heartbeat_from (some (decimal usec)) (some (decimal current_pid)) current_pid
        ≡ some (from_micros (usec / 2)))
      × (heartbeat_from (some (decimal usec)) none current_pid ≡ some (from_micros (usec / 2)))
      × (heartbeat_from (some (decimal usec)) (some (decimal other)) current_pid ≡ none)
unfolding heartbeat_from
heartbeat_from-decimal usec current_pid other pos fits me you ne =
    rw
      (
        parse-decimal u64_max usec fits,
        parse-decimal u32_max current_pid me,
        parse-decimal u32_max other you,
      )
      (ground arith, ground arith, ground arith)

timeout_of-Reads :
    (usec : Option Text) (d : Duration)
    → timeout_of usec ≡ some d
    → (u : ℕ) × Reads usec u × (0 < u) × (d ≡ from_micros (u / 2))
unfolding timeout_of half_of
timeout_of-Reads none d e = absurd (cc e)
timeout_of-Reads (some usec) d e = elim (Option-cases (parse_uint u64_max usec)) [
  | inl bad ↦ absurd (cc (rw bad at e))
  | inr (u, good) ↦ (u, good, ground (arith, rw good at e), ground (arith, rw good at e))
]

Reads-le : (usec : Option Text) (u : ℕ) → Reads usec u → u ≤ u64_max
Reads-le none u r = absurd r
Reads-le (some usec) u r = parse_uint-le u64_max usec u r

-- Any interval comes from a positive 64-bit timeout aimed at this process, and it is half of that
-- timeout, rounded down to microseconds: a pet after each interval keeps within the timeout.
pub heartbeat_from-half :
    (usec pid : Option Text) (current_pid : ℕ) (d : Duration)
    → heartbeat_from usec pid current_pid ≡ some d
    → (u : ℕ) × Reads usec u
      × IsForMe pid current_pid
      × (0 < u)
      × (u ≤ u64_max)
      × (2 * d ≤ from_micros u)
      × (from_micros u < 2 * d + 2_000)
unfolding heartbeat_from
heartbeat_from-half usec pid current_pid d e = elim (Bool-cases (for_me pid current_pid)) [
  | inr other ↦ absurd (cc (rw other at e))
  | inl me ↦
      let (u, reads, pos, half) = timeout_of-Reads usec d (rw me at e) in
      (
        u,
        reads,
        (for_me_iff pid current_pid).0 me,
        pos,
        Reads-le usec u reads,
        omega arith,
        omega arith,
      )
]

-- The interval is zero exactly for a timeout of one microsecond that is aimed at this process.
pub zero_interval_iff :
    (usec pid : Option Text) (current_pid : ℕ)
    → (heartbeat_from usec pid current_pid ≡ some 0) ↔ (Reads usec 1 × IsForMe pid current_pid)
unfolding heartbeat_from timeout_of half_of
zero_interval_iff usec pid current_pid = (
  λ e.
      let (u, reads, me, pos, fits, low, high) = heartbeat_from-half usec pid current_pid 0 e in
      (subst (Reads usec) (one u pos high) reads, me),
  λ (reads, me). backwards usec reads me,
)
  where
    one : (u : ℕ) → 0 < u → from_micros u < 2_000 → u ≡ 1
    one u pos high = omega arith

    backwards :
        (usec : Option Text)
        → Reads usec 1
        → IsForMe pid current_pid
        → heartbeat_from usec pid current_pid ≡ some 0
    backwards none r me = absurd r
    backwards (some usec) r me = rw ((for_me_iff pid current_pid).1 me, r) refl
