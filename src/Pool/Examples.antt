-- ===== src/Pool/Examples.antt =====
-- Runs of the container pool, and its theorems at concrete inputs.
use code_runner_backend.Prelude.{ℕ, ◌≤◌, ◌≡◌, ◌≢◌, refl, true, false, List, [], ◌∷◌, some}
use code_runner_backend.Prelude.Text.{Text, codes, same, decimal, has_prefix}
use code_runner_backend.Prelude.TextMap.{TextMap, of_list, load, store, empty}
use code_runner_backend.Prelude.Chan.{send, make, receive}
use code_runner_backend.Pool.{
  ContainerSlot, ContainerPool, make_slot, fill_idle, new_lang_pool, fill_pools, new_container_pool,
  lang_host_dir, acquire, release_plan, put_back, put_back_waits, mark_closed,
}
use code_runner_backend.Pool.System.{
  Loan, Action, acquires, releases, closes, take_at, step, run, start,
}
use code_runner_backend.Pool.Startup.{Daemon, Container, ensure_container, images, languages}
use code_runner_backend.Pool.Capacity.{send_never_waits}
use code_runner_backend.Pool.Places.{places, names_differ, one_place}

abbrev c_only : List (Text × ℕ)
c_only = (codes "c", 2) ∷ []

abbrev c_image : TextMap Text
unfolding of_list
c_image = of_list ((codes "c", codes "cpp") ∷ [])

abbrev c_slot : ℕ → ContainerSlot
unfolding make_slot
c_slot i = make_slot (codes "cpp") (codes "c") i

abbrev c_pool : ContainerPool
unfolding store empty
c_pool = record {
  pools =
      store (codes "c")
        (record {
          idle = record { buffer = c_slot 0 ∷ c_slot 1 ∷ []; capacity = 2; is_closed = false };
          lang = codes "c";
          size = 2;
          image = codes "cpp";
        })
        empty;
  closed = false;
}

c_pool_made : new_container_pool c_only c_image ≡ some c_pool
unfolding new_container_pool fill_pools new_lang_pool fill_idle make_slot decimal lang_host_dir
    of_list load store empty make send
c_pool_made = refl

-- Two callers, one gives its slot back, then the pool is closed.
abbrev c_history : List Action
c_history = acquires (codes "c") false ∷ acquires (codes "c") false ∷ releases 0 true ∷ closes ∷ []

abbrev c_loan : Loan
unfolding make_slot
c_loan = record { lang = codes "c"; slot = c_slot 1 }

c_returning : take_at 0 (run (start c_pool) c_history).returning ≡ some (c_loan, [])
unfolding run step start acquire release_plan mark_closed take_at make_slot decimal load store empty
    receive
c_returning = refl

send_never_waits_example :
    put_back (run (start c_pool) c_history).pool (codes "c") (c_slot 1) ≢ put_back_waits
unfolding make_slot store empty
send_never_waits_example =
    send_never_waits c_only c_image c_pool c_pool_made c_history 0 c_loan [] c_returning

-- The languages of the program name their containers differently.
languages_differ : names_differ images languages ≡ true
unfolding names_differ images of_list load same
languages_differ = refl

abbrev cpp_slot : ℕ → ContainerSlot
unfolding make_slot
cpp_slot i = make_slot (codes "code-runner-cpp") (codes "c") i

abbrev cpp_pool : ContainerPool
unfolding store empty
cpp_pool = record {
  pools =
      store (codes "c")
        (record {
          idle = record { buffer = cpp_slot 0 ∷ cpp_slot 1 ∷ []; capacity = 2; is_closed = false };
          lang = codes "c";
          size = 2;
          image = codes "code-runner-cpp";
        })
        empty;
  closed = false;
}

cpp_pool_made : new_container_pool c_only images ≡ some cpp_pool
unfolding new_container_pool fill_pools new_lang_pool fill_idle make_slot decimal lang_host_dir
    of_list load store empty make send images cpp_slot cpp_pool
cpp_pool_made = refl

one_place_example :
    places languages (codes "code-runner-cpp-1") (run (start cpp_pool) c_history) ≤ 1
one_place_example =
    one_place c_only images cpp_pool cpp_pool_made c_history languages (codes "code-runner-cpp-1")
      languages_differ

-- The daemon's filter lets through every container whose name begins with the name: the first of the
-- list is taken for the one asked for.
abbrev prefix_daemon : Daemon
prefix_daemon = record {
  matches = λ name c. has_prefix c name;
  list_fails = λ name. false;
  start_fails = λ name. false;
}

abbrev ten_and_one : List Container
ten_and_one =
    record { name = codes "code-runner-go-10"; is_running = true }
    ∷ record { name = codes "code-runner-go-1"; is_running = false }
    ∷ []

not_started : ensure_container prefix_daemon (codes "code-runner-go-1") ten_and_one ≡ ten_and_one
unfolding ensure_container has_prefix
not_started = refl
