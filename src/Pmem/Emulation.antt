-- ===== src/Pmem/Emulation.antt =====
-- include/pmemcpy/memcpy.h: the waits of a build with PMEMULATION.
use pmemcpy.Base.{
  Bool, true, ℕ, ◌+◌, ◌-◌, ◌/◌, ◌%◌, ◌^◌, ◌<◌, ◌≡◌, refl, ap, ◌↔◌, Bool-cases, inl, inr, Option,
  none, some, ltb, if◌then◌else◌, arith,
}
use mathlib.Core.Option.{some-injective}
use pmemcpy.Util.Numbers.{ℤ}
use pmemcpy.Serialize.Dimensions.{size_t_mod}

abbrev pub dram_bw : ℕ
dram_bw = 68

abbrev pub dram_latency : ℕ
dram_latency = 100

abbrev pub pmem_read_bw : ℕ
pmem_read_bw = 30

abbrev pub pmem_write_bw : ℕ
pmem_write_bw = 8

abbrev pub pmem_read_latency : ℕ
pmem_read_latency = 300

abbrev pub pmem_write_latency : ℕ
pmem_write_latency = 125

-- READ_PENALTY and WRITE_PENALTY, in `size_t`: a difference below 0 wraps around.
unfoldable pub read_penalty : ℕ → ℕ
read_penalty size =
    (pmem_read_latency - dram_latency + (size / pmem_read_bw + size_t_mod - size / dram_bw))
    % size_t_mod

unfoldable pub write_penalty : ℕ → ℕ
write_penalty size =
    (pmem_write_latency - dram_latency + (size / pmem_write_bw + size_t_mod - size / dram_bw))
    % size_t_mod

-- What is asked of `nanosleep`: seconds, which the code leaves unset and which may be any number, and
-- nanoseconds. It refuses negative seconds, and a second or more of nanoseconds, and then does not wait.
unfoldable pub nsleep : ℤ → ℕ → Option (ℕ × ℕ)
nsleep (ℤ.pos seconds) delay = if ltb delay (10 ^ 9) then some (seconds, delay) else none
nsleep (ℤ.negsuc n) delay = none

-- ADD_READ_PENALTY and ADD_WRITE_PENALTY, in a build with PMEMULATION or without.
unfoldable pub add_read_penalty : Bool → ℤ → ℕ → Option (ℕ × ℕ)
unfolding nsleep read_penalty
add_read_penalty emulated unset size = if emulated then nsleep unset (read_penalty size) else none

unfoldable pub add_write_penalty : Bool → ℤ → ℕ → Option (ℕ × ℕ)
unfolding nsleep write_penalty
add_write_penalty emulated unset size = if emulated then nsleep unset (write_penalty size) else none

read_penalty-exact :
    (size : ℕ) → size < size_t_mod → read_penalty size + size / dram_bw ≡ 200 + size / pmem_read_bw
unfolding read_penalty
read_penalty-exact size h = omega arith

write_penalty-exact :
    (size : ℕ) → size < size_t_mod → write_penalty size + size / dram_bw ≡ 25 + size / pmem_write_bw
unfolding write_penalty
write_penalty-exact size h = omega arith

-- The wait for a penalty is asked for exactly if the seconds are not negative and the difference of the
-- transfer times is small enough.
penalty-nsleep :
    (unset : ℤ) (seconds base slow fast penalty : ℕ)
    → base < 10 ^ 9
    → penalty + fast ≡ base + slow
    → ((unset ≡ ℤ.pos seconds) × (slow < 10 ^ 9 - base + fast))
      ↔ (nsleep unset penalty ≡ some (seconds, penalty))
unfolding nsleep
penalty-nsleep (ℤ.pos n) seconds base slow fast penalty small exact = (
  λ p.
      let same : n ≡ seconds = cc p.0 in
      let less : ltb penalty (10 ^ 9) ≡ true = ground (arith, exact, p.1) in rw (less, same) refl,
  λ e. elim (Bool-cases (ltb penalty (10 ^ 9))) [
    | inl less ↦
        let pair = some-injective (n, penalty) (seconds, penalty) (rw less at e) in
        (ap (λ (x : ℕ × ℕ). ℤ.pos x.0) pair, ground (arith, exact))
    | inr more ↦ absurd (cc (rw more at e))
  ],
)
penalty-nsleep (ℤ.negsuc n) seconds base slow fast penalty small exact =
    (λ p. absurd (cc p.0), λ e. absurd (cc e))

-- For every size of a value below 2 ^ 64, in an emulation build, and whatever number the seconds are, which the code
-- leaves unset: the penalty of a read is the 200 ns by which the latencies differ and the difference of
-- the two transfer times, that of a write has 25 ns in their place, and neither is ever negative; a wait
-- of so many seconds and of the penalty is asked for and not refused exactly if the unset number is that
-- of the seconds, which are not negative, and the difference of the transfer times is less than a second
-- without these ns.
pub nsleep-penalties :
    (unset : ℤ) (seconds size : ℕ)
    → size < size_t_mod
    → (read_penalty size + size / dram_bw ≡ 200 + size / pmem_read_bw)
      × (write_penalty size + size / dram_bw ≡ 25 + size / pmem_write_bw)
      × (((unset ≡ ℤ.pos seconds) × (size / pmem_read_bw < 10 ^ 9 - 200 + size / dram_bw))
          ↔ (add_read_penalty true unset size ≡ some (seconds, read_penalty size)))
      × (((unset ≡ ℤ.pos seconds) × (size / pmem_write_bw < 10 ^ 9 - 25 + size / dram_bw))
          ↔ (add_write_penalty true unset size ≡ some (seconds, write_penalty size)))
unfolding add_read_penalty add_write_penalty
nsleep-penalties unset seconds size h =
    let reading : read_penalty size + size / 68 ≡ 200 + size / 30 = read_penalty-exact size h in
    let writing : write_penalty size + size / 68 ≡ 25 + size / 8 = write_penalty-exact size h in
    (
      reading,
      writing,
      penalty-nsleep unset seconds 200 (size / 30) (size / 68) (read_penalty size) (omega arith)
          reading,
      penalty-nsleep unset seconds 25 (size / 8) (size / 68) (write_penalty size) (omega arith)
          writing,
    )
