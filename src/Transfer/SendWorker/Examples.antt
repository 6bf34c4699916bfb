-- ===== src/Transfer/SendWorker/Examples.antt =====
-- The theorem about the send worker at a concrete schedule.
use unseen_fyi.Prelude.{◌+◌, ◌≡◌, refl, List, [], ◌∷◌}
use unseen_fyi.Wire.Bytes.{Bytes}
use unseen_fyi.Transfer.Chunks.{all_pieces}
use unseen_fyi.Transfer.Chunks.Cuts.{stream_bytes}
use unseen_fyi.Transfer.SendWorker.{ended, initial_state, on_init, on_pull, has_read}
use unseen_fyi.Transfer.SendWorker.Order.{joined, Act, pull, answer, grants}
use unseen_fyi.Transfer.SendWorker.Schedule.{act_all, Shown, act_all-Shown}

abbrev example_acts : List Act
example_acts = answer ∷ answer ∷ answer ∷ pull ∷ []

abbrev example_values : List Bytes
example_values = (7 ∷ 8 ∷ []) ∷ (9 ∷ []) ∷ []

act_all-Shown_example :
    Shown
      (λ fed. "abc")
      (1 ∷ 2 ∷ [])
      (all_pieces [] example_values)
      (grants example_acts + 0)
      (act_all (λ fed. "abc") example_acts (example_values, on_init (1 ∷ 2 ∷ []) 0 initial_state)).1
    × (joined (all_pieces [] example_values) ≡ stream_bytes example_values)
act_all-Shown_example = act_all-Shown (λ fed. "abc") example_acts (1 ∷ 2 ∷ []) 0 example_values

-- The pull lets the worker end.
example_ends :
    (act_all
      (λ fed. "abc")
      example_acts
      (example_values, on_init (1 ∷ 2 ∷ []) 0 initial_state)).1.phase
    ≡ ended
unfolding on_init on_pull has_read
example_ends = refl
