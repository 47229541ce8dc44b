-- ===== src/Examples/Cache.antt =====
-- The token cache of one process.
use qoder2api.Prelude.{
  ℕ, ◌≡◌, refl, arith, List, [], ◌∷◌, ◌++◌, none, some, find, store, retain, delete,
}
use qoder2api.Prelude.Text.{Text, codes, trim_space, text_eq}
use qoder2api.Cache.Entries.{fetch, sweep, drop_expired}
use qoder2api.Cache.Memory.{
  MemoryTokenCache, new_memory, acquire_refresh_lock, set_session_affinity, get_session_affinity,
  delete_session_affinity, cleanup, runtime_map_key,
}
use qoder2api.Cache.Sessions.{Call, bind, unbind, ask, clean, run_calls, replay, run_calls_refines}
use qoder2api.Cache.Waiting.{tick, wait_from, refreshed, finish_refresh, wait_from-finish_refresh}
use qoder2api.Cache.RuntimeKeys.{cut, cut-runtime_map_key}

abbrev empty : MemoryTokenCache
empty = new_memory 10

abbrev calls : List (ℕ × Call)
calls =
    (5, bind (codes " s") (record { account_id = 7; proxy_url = [] }) 20)
    ∷ (10, ask (codes "s"))
    ∷ (26, ask (codes "s"))
    ∷ (30, clean)
    ∷ (31, unbind (codes "s") 7)
    ∷ (32, ask (codes "s"))
    ∷ []

run_calls_refines_example : run_calls calls empty ≡ replay calls (λ j t. none)
unfolding new_memory find
run_calls_refines_example =
    run_calls_refines 0 calls empty (λ j t. none)
      (omega arith, (omega arith, (omega arith, (omega arith, (omega arith, (omega arith, tt))))))
      tt (λ j t le. refl)

-- The binding is there at first, and is over after its time to live.
answers :
    run_calls calls empty ≡ some (record { account_id = 7; proxy_url = [] }) ∷ none ∷ none ∷ []
unfolding find store retain delete fetch sweep drop_expired text_eq trim_space run_calls
    set_session_affinity get_session_affinity delete_session_affinity cleanup new_memory
answers = refl

wait_from-finish_refresh_example :
    (token : Text) × ((wait_from 3 100 10
        ((tick 40 (λ tc. tc) ∷ [])
          ++ (tick 70 (finish_refresh 3 (codes "t") 400_000_000_000 60 (λ tc. tc)) ∷ []))
        (acquire_refresh_lock 3 0 5 empty).1).0
      ≡ refreshed token)
unfolding text_eq
wait_from-finish_refresh_example =
    wait_from-finish_refresh 3 60 70 400_000_000_000 (codes "t") (λ tc. tc) refl (omega arith)
      (omega arith) (λ tc. refl) 100 10 (tick 40 (λ tc. tc) ∷ []) []
      (acquire_refresh_lock 3 0 5 empty).1 (omega arith) (omega arith) (omega arith, tt)

cut-runtime_map_key_example :
    cut (runtime_map_key (codes " a") (codes "b "))
    ≡ (trim_space (codes " a"), trim_space (codes "b "))
unfolding trim_space text_eq
cut-runtime_map_key_example = cut-runtime_map_key (codes " a") (codes "b ") refl refl (refl, tt)
