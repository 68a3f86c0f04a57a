-- ===== src/Keyboard/Tests.antt =====
-- The theorems about the keyboard buffer at a new buffer, and at a full one.
use serpae_os.Common.{
  ℕ, ◌+◌, ◌%◌, ◌≡◌, refl, some, List, [], ◌∷◌, replicate, arith, get_or-replicate, length-replicate,
}
use serpae_os.Keyboard.{Keyboard, buffer_size, push}
use serpae_os.Keyboard.Queue.{Holds, push-Holds}
use serpae_os.Keyboard.Refine.{Event, key, read, run, run_queue, run_refines}

abbrev new : Keyboard
new = record { buffer = replicate 1024 0; tail = 0; head = 0 }

new-Holds : Holds new []
new-Holds = record {
  size = length-replicate {A = ℕ} 1024 0;
  room = omega arith;
  front = omega arith;
  back = refl;
  cells = λ i lt. get_or-replicate 1024 ((0 + i) % buffer_size) 0 0 (omega arith);
  key = λ i lt. absurd (omega arith);
}

-- 1024 keys 7.
abbrev full : Keyboard
full = record { buffer = replicate 1024 7; tail = 1024; head = 0 }

abbrev events : List Event
events = key 97 ∷ key 98 ∷ read ∷ key 0 ∷ read ∷ read ∷ []

run_refines_example : run events (some new) ≡ run_queue events []
run_refines_example =
    run_refines events new [] new-Holds (omega arith, (omega arith, (omega arith, tt)))

one_key : (l : Keyboard) × (push 97 (some new) ≡ some l) × Holds l (97 ∷ [])
one_key = push-Holds new [] 97 new-Holds (ground arith) (omega arith)
