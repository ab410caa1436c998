-- ===== src/Pool/Capacity.antt =====
-- pool.go: a returned slot always finds room, so Release never blocks its caller.
use code_runner_backend.Prelude.{
  ℕ, suc, ◌+◌, ◌≤◌, ◌≡◌, ◌≢◌, refl, inl, inr, ap, ◌∙◌, Bool, true, List, [], ◌∷◌, ◌++◌, none, some,
  arith, count_if, length, Option-cases,
}
use code_runner_backend.Prelude.Text.{Text, same_iff, same_refl}
use code_runner_backend.Prelude.TextMap.{TextMap, load, load-store}
use code_runner_backend.Prelude.Chan.{send, close}
use code_runner_backend.Pool.{
  ContainerSlot, ContainerPool, text_at, lang_host_dir, new_container_pool, put_back,
  put_back_waits, got, acquire, back, close_idle, mark_closed,
}
use code_runner_backend.Pool.System.{
  Loan, System, Action, acquires, releases, sends, rebuilds, closes, closes_idle, take_at, step,
  run, start, tally, idle_tally, is_loan,
}
use code_runner_backend.Pool.Conservation.{
  acquire-got, acquire-cases, put_back-cases, take_at-count, run-tally,
}
use code_runner_backend.Pool.Setup.{new_pool-cases, full_pool, length-slots}

-- The capacity of a language's channel.
unfoldable pub room : Text → ContainerPool → ℕ
room lang p = elim (load lang p.pools) [ none ↦ 0 | some lp ↦ lp.idle.capacity ]

abbrev pub any_slot : ContainerSlot → Bool
any_slot _ = true

module _ (lang : Text) where
  acquire-room :
      (pool : ContainerPool) (l : Text) (cancelled : Bool) (slot : ContainerSlot)
      (q : ContainerPool)
      → acquire pool l cancelled ≡ got slot q
      → room lang q ≡ room lang pool
  unfolding room
  acquire-room pool l cancelled slot q e =
      let (lp, rest, found, b, r) = acquire-got pool l cancelled slot q e in
      ground (
        arith,
        same_iff l lang,
        load-store l lang (record lp { idle = record lp.idle { buffer = rest } }) pool.pools,
      )

  put_back-room :
      (pool : ContainerPool) (l : Text) (slot : ContainerSlot) (q : ContainerPool)
      → put_back pool l slot ≡ back q
      → room lang q ≡ room lang pool
  unfolding put_back room send
  put_back-room pool l slot q e = elim (Option-cases (load l pool.pools)) [
    | inl missing ↦ ground arith
    | inr (lp, found) ↦ ground (
      arith,
      same_iff l lang,
      load-store l lang
          (record lp { idle = record lp.idle { buffer = lp.idle.buffer ++ slot ∷ [] } }) pool.pools,
    )
  ]

  close_idle-room :
      (l : Text) (pool : ContainerPool) → room lang (close_idle l pool) ≡ room lang pool
  unfolding close_idle room close
  close_idle-room l pool = elim (Option-cases (load l pool.pools)) [
    | inl missing ↦ ground arith
    | inr (lp, found) ↦
        ground (
          arith,
          same_iff l lang,
          load-store l lang (record lp { idle = close lp.idle }) pool.pools,
        )
  ]

  step-room : (s : System) (a : Action) → room lang (step s a).pool ≡ room lang s.pool
  unfolding step
  step-room s (acquires l cancelled) = elim (acquire-cases (acquire s.pool l cancelled)) [
    | inl (slot, q, e) ↦ rw (e, step) (acquire-room s.pool l cancelled slot q e)
    | inr e ↦ ap (λ (t : System). room lang t.pool) (e s l)
  ]
  step-room s (releases i healthy) = ground arith
  step-room s (sends i) = elim (Option-cases (take_at i s.returning)) [
    | inl e ↦ ground arith
    | inr ((l, rest), e) ↦ elim (put_back-cases (put_back s.pool l.lang l.slot)) [
      | inl (q, b) ↦ rw (e, step) (rw b (put_back-room s.pool l.lang l.slot q b))
      | inr b ↦ ground arith
    ]
  ]
  step-room s (rebuilds i starts) = ground arith
  step-room s closes = mark_closed-room s
    where
      mark_closed-room : (t : System) → room lang (mark_closed t.pool) ≡ room lang t.pool
      mark_closed-room t = unfold mark_closed room in refl
  step-room s (closes_idle l) = close_idle-room l s.pool

  run-room :
      (s : System) (actions : List Action) → room lang (run s actions).pool ≡ room lang s.pool
  unfolding run
  run-room s [] = refl
  run-room s (a ∷ rest) = run-room (step s a) rest ∙ step-room s a

count_any : (xs : List ContainerSlot) → count_if any_slot xs ≡ length xs
count_any [] = refl
count_any (x ∷ xs) = ap suc (count_any xs)

-- A pending send of a system whose slots fit in the channel finds room.
fits-send :
    (s : System) (i : ℕ) (l : Loan) (rest : List Loan)
    → tally l.lang any_slot s ≤ room l.lang s.pool
    → take_at i s.returning ≡ some (l, rest)
    → put_back s.pool l.lang l.slot ≢ put_back_waits
unfolding tally idle_tally room put_back send
fits-send s i l rest h e w =
    let mine : count_if (is_loan l.lang any_slot) s.returning
        ≡ 1 + count_if (is_loan l.lang any_slot) rest =
      rw (take_at-count (is_loan l.lang any_slot) i s.returning l rest e, same_refl l.lang) refl in
    elim (Option-cases (load l.lang s.pool.pools)) [
      | inl missing ↦ ground arith
      | inr (lp, found) ↦ ground (arith, count_any lp.idle.buffer)
    ]

module _ (sizes : List (Text × ℕ)) (images : TextMap Text) (p : ContainerPool)
    (made : new_container_pool sizes images ≡ some p) where
  start-fits : (lang : Text) → tally lang any_slot (start p) ≤ room lang p
  unfolding tally idle_tally start room full_pool
  start-fits lang = elim (new_pool-cases sizes images p made lang) [
    | inl e ↦ rw (e, tally, idle_tally, room) (omega arith)
    | inr (n, e) ↦
        rw (e, tally, idle_tally, room)
          (omega (
            arith,
            count_any (full_pool images lang n).idle.buffer,
            length-slots (text_at lang images) (text_at lang lang_host_dir) n 0,
          ))
  ]

  -- After any history of a new pool, a release that has come to its send is not held up: the channel
  -- takes the slot, or Close has closed it and the slot is dropped.
  pub send_never_waits :
      (actions : List Action) (i : ℕ) (l : Loan) (rest : List Loan)
      → take_at i (run (start p) actions).returning ≡ some (l, rest)
      → put_back (run (start p) actions).pool l.lang l.slot ≢ put_back_waits
  unfolding start
  send_never_waits actions i l rest e =
      fits-send (run (start p) actions) i l rest
        (rw (run-tally l.lang any_slot (start p) actions, run-room l.lang (start p) actions)
          (start-fits l.lang))
        e
