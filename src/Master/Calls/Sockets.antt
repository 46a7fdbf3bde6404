-- ===== src/Master/Calls/Sockets.antt =====
-- Which sessions of src/ethercat_master.cpp close the socket again.
use kddv.Base.{
  ◌≡◌, refl, sym, ap, ◌∙◌, ℕ, zero, suc, ℤ, Bool, true, false, not, ◌&&◌, Bool-cases, inl, inr,
  Option, some, some-injective, >>=-eq-some, List, [], ◌∷◌, ◌++◌, if◌then◌else◌, arith,
}
use kddv.Text.{Text, is_empty}
use kddv.Slave.{EthercatSlave}
use kddv.Generator.{is_positive}
use kddv.Generator.Info.{Bus}
use kddv.Master.{Fresh, Exchange, wait_operational, get_slaves, poll_slaves, start}
use kddv.Master.Calls.{
  Call, ec_init, ec_close, get_slaves_calls, start_calls, exchange_calls, is_running, end_calls,
  session_calls,
}

-- SOEM has one socket for the process; `lost` counts those that were replaced while they were open,
-- and `closed_again` the calls of `ec_close` without an open one.
pub record Sockets : Type 0 where
  pub is_open : Bool
  pub lost : ℕ
  pub closed_again : ℕ

abbrev pub none_open : Sockets
none_open = record { is_open = false; lost = 0; closed_again = 0 }

abbrev pub after_call : Call → Sockets → Sockets
after_call (ec_init true) s = record s {
  is_open = true;
  lost = if s.is_open then suc s.lost else s.lost;
}
after_call ec_close s = record s {
  is_open = false;
  closed_again = if s.is_open then s.closed_again else suc s.closed_again;
}
after_call _ s = s

unfoldable pub after_calls : List Call → Sockets → Sockets
after_calls [] s = s
after_calls (c ∷ calls) s = after_calls calls (after_call c s)

after_calls-append :
    (xs ys : List Call) (s : Sockets) → after_calls (xs ++ ys) s ≡ after_calls ys (after_calls xs s)
unfolding after_calls
after_calls-append [] ys s = refl
after_calls-append (c ∷ xs) ys s = after_calls-append xs ys (after_call c s)

exchanges_apart : (n : ℕ) (s : Sockets) → after_calls (exchange_calls n) s ≡ s
unfolding after_calls
exchanges_apart zero s = refl
exchanges_apart (suc n) s = exchanges_apart n s

-- After `start`: open exactly if it could be opened.
start_calls_open :
    (init : Bool) (config_init : ℤ) (exchange : ℕ → Exchange)
    → after_calls (start_calls init config_init exchange) none_open
      ≡ record none_open { is_open = init }
unfolding after_calls start_calls
start_calls_open false config_init exchange = refl
start_calls_open true config_init exchange = elim (Bool-cases (is_positive config_init)) [
  | inl some_slaves ↦ rw some_slaves (exchanges_apart (wait_operational exchange 200 0).1 _)
  | inr no_slaves ↦ rw no_slaves refl
]

-- What `getSlaves` leaves: the socket is open where it was opened and there is an error, and without
-- one it had been opened.
record Left (bus : Bus) (error : Text) : Type 0 where
  calls :
      after_calls (get_slaves_calls bus) none_open
      ≡ record none_open { is_open = bus.init && not (is_empty error) }
  had_opened : is_empty error ≡ true → bus.init ≡ true

error_is :
    {slaves slaves' : List EthercatSlave} {error error' : Text}
    → ◌≡◌ {A = Option (List EthercatSlave × Text)} (some (slaves', error')) (some (slaves, error))
    → is_empty error ≡ is_empty error'
error_is h = ap (λ r. is_empty r.1) (sym (some-injective _ _ h))

get_slaves-Left :
    (fresh : Fresh) (bus : Bus) (slaves : List EthercatSlave) (error : Text)
    → get_slaves fresh bus [] ≡ some (slaves, error)
    → Left bus error
unfolding get_slaves get_slaves_calls after_calls
get_slaves-Left fresh bus slaves error h = elim (Bool-cases bus.init) [
  | inr shut ↦
      let e = error_is (rw shut at h) in
      record { calls = rw shut refl; had_opened = λ none_set. ground (arith, none_set, e) }
  | inl opened ↦ elim (Bool-cases (is_positive bus.config)) [
    | inr no_slaves ↦
        let e = error_is (rw (opened, no_slaves) at h) in
        record { calls = rw (opened, no_slaves, e) refl; had_opened = λ none_set. opened }
    | inl found ↦ elim (Bool-cases bus.safe_op) [
      | inr unsafe ↦
          let e = error_is (rw (opened, found, unsafe) at h) in
          record { calls = rw (opened, found, unsafe, e) refl; had_opened = λ none_set. opened }
      | inl safe ↦
          let (list, polled, made) =
            >>=-eq-some (poll_slaves fresh bus.slaves 1 []) _ (rw (opened, found, safe) at h) in
          let e = error_is made in
          record { calls = rw (opened, found, safe, e) refl; had_opened = λ none_set. opened }
    ]
  ]
]

end_calls_closed :
    (ran : Bool)
    → after_calls (end_calls ran) (record none_open { is_open = true })
      ≡ record { is_open = not ran; lost = 0; closed_again = if ran then 1 else 0 }
unfolding after_calls
end_calls_closed true = refl
end_calls_closed false = refl

-- A UI looks for slaves, starts where there is no error, and stops once the threads run. No socket
-- is replaced while it is open; at the end the socket is closed exactly if it could not be opened or
-- the threads ran, so that every error and a start without an effect leave it open; and where the
-- threads ran, the second of them closes what the first has closed.
pub session_sockets :
    (fresh : Fresh) (bus : Bus) (config_init : ℤ) (exchange : ℕ → Exchange)
    (slaves : List EthercatSlave) (error : Text)
    → get_slaves fresh bus [] ≡ some (slaves, error)
    → after_calls (session_calls bus config_init exchange slaves error) none_open ≡ (
        let ran = is_empty error && is_running (start bus.init config_init exchange slaves) in
        record { is_open = bus.init && not ran; lost = 0; closed_again = if ran then 1 else 0 })
unfolding after_calls
session_sockets fresh bus config_init exchange slaves error h =
    let left = get_slaves-Left fresh bus slaves error h in
    elim (Bool-cases (is_empty error)) [
      | inr failed ↦ rw failed (
          after_calls-append (get_slaves_calls bus) [] none_open
          ∙ ap (after_calls []) (rw failed at left.calls))
      | inl fine ↦
          let opened = left.had_opened fine in
          let ran = is_running (start bus.init config_init exchange slaves) in
          let begun : after_calls (get_slaves_calls bus) none_open ≡ none_open =
            left.calls ∙ rw (fine, opened) refl in
          rw fine (
            after_calls-append (get_slaves_calls bus)
              (start_calls bus.init config_init exchange ++ end_calls ran) none_open
            ∙ ap (after_calls (start_calls bus.init config_init exchange ++ end_calls ran)) begun
            ∙ after_calls-append (start_calls bus.init config_init exchange) (end_calls ran)
                none_open
            ∙ ap (after_calls (end_calls ran)) (start_calls_open bus.init config_init exchange)
            ∙ rw opened (end_calls_closed (is_running (start true config_init exchange slaves))))
    ]
