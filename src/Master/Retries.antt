-- ===== src/Master/Retries.antt =====
-- The wait for the operational state.
use kddv.Base.{
  ℕ, zero, suc, ◌+◌, ◌*◌, ◌≤◌, ◌<◌, ◌≡◌, refl, ap, ℤ, true, false, not, ◌⊎◌, inl, inr, List, length,
  if◌then◌else◌, arith,
}
use kddv.Slave.{EthercatSlave}
use kddv.Generator.{is_positive}
use kddv.Master.{Exchange, wait_operational, is_count, running, idle, start}

-- From exchange `i` on, with enough retries left for exchange `n`.
wait_stops :
    (exchange : ℕ → Exchange) (num_retries i k n : ℕ)
    → k ≤ num_retries
    → i + k ≡ n
    → (exchange n).operational ≡ true
    → ((j : ℕ) → i ≤ j → j < n → (exchange j).operational ≡ false)
    → wait_operational exchange num_retries i ≡ (exchange n, suc n)
unfolding wait_operational
wait_stops exchange zero i zero n h at on off = ap (λ x. (exchange x, suc x)) (omega (arith, at))
wait_stops exchange (suc num_retries) i zero n h at on off =
    let here : i ≡ n = omega (arith, at) in rw here (rw on refl)
wait_stops exchange zero i (suc k) n h at on off = absurd (omega (arith, h))
wait_stops exchange (suc num_retries) i (suc k) n h at on off =
    rw (off i (omega arith) (omega (arith, at))) (
      wait_stops exchange num_retries (suc i) k n (omega (arith, h)) (omega (arith, at)) on
        (λ j above below. off j (omega (arith, above)) below))

-- Otherwise it makes every exchange that it may.
wait_gives_up :
    (exchange : ℕ → Exchange) (num_retries i n : ℕ)
    → i + num_retries ≡ n
    → ((j : ℕ) → i ≤ j → j < n → (exchange j).operational ≡ false)
    → wait_operational exchange num_retries i ≡ (exchange n, suc n)
unfolding wait_operational
wait_gives_up exchange zero i n at off = ap (λ x. (exchange x, suc x)) (omega (arith, at))
wait_gives_up exchange (suc num_retries) i n at off = rw (off i (omega arith) (omega (arith, at))) (
    wait_gives_up exchange num_retries (suc i) n (omega (arith, at))
      (λ j above below. off j (omega (arith, above)) below))

-- With the interface open and slaves configured, `start` exchanges process data until the bus is
-- operational, at most 201 times. Exchange `n` is the last if no earlier one found the bus
-- operational and it does itself or is the one with number 200. The threads run exactly if it does;
-- if not, nothing runs and there is no error either. The working counter of this exchange is what
-- is compared.
pub start_exchanges :
    (config_init : ℤ) (exchange : ℕ → Exchange) (slaves : List EthercatSlave) (n : ℕ)
    → is_positive config_init ≡ true
    → n ≤ 200
    → ((j : ℕ) → j < n → (exchange j).operational ≡ false)
    → ((exchange n).operational ≡ true) ⊎ (n ≡ 200)
    → (wait_operational exchange 200 0 ≡ (exchange n, suc n))
      × (start true config_init exchange slaves ≡ (
          if (exchange n).operational
          then running (not (is_count (length slaves * 3) (exchange n).wkcnt))
          else idle (not (is_count (length slaves * 3) (exchange n).wkcnt))))
unfolding start
start_exchanges config_init exchange slaves n configured h off last =
    let waits : wait_operational exchange 200 0 ≡ (exchange n, suc n) = elim last [
      | inl on ↦ wait_stops exchange 200 0 n n h (omega arith) on (λ j _ below. off j below)
      | inr e ↦ wait_gives_up exchange 200 0 n (omega (arith, e)) (λ j _ below. off j below)
    ] in
    (waits, rw (configured, waits) refl)
