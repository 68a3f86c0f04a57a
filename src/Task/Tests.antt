-- ===== src/Task/Tests.antt =====
-- The theorems about tasks, at two tasks.
use serpae_os.Common.{
  ℕ, zero, suc, ◌≤◌, ◌<◌, ◌≡◌, ◌≢◌, inl, refl, true, false, none, some, [], ◌∷◌, ◌==◌,
  if◌then◌else◌, get_or, arith, ap, sym, some_cancel, ok,
}
use serpae_os.Task.FreeAll.{task_free_all_for_process-freed}
use serpae_os.Task.{Ptr, null, Task, Tasks, new_task, task_new, task_free}
use serpae_os.Task.Walks.{panic, task_free_all_for_process, task_next}
use serpae_os.Task.Links.{IsList}
use serpae_os.Task.Remove.{task_free-IsList}
use serpae_os.Task.Append.{IsLinked, task_free-task_new}
use serpae_os.Task.Next.{run, run-reaches, task_next-panic}

-- Tasks at 16 and 32, of the processes 1 and 2.
abbrev first : Task
first = record (new_task 4096 0x400000 1 true) { next = 32 }

abbrev second : Task
second = record (new_task 8192 0x400000 2 true) { prev = 16 }

abbrev tasks : Tasks
tasks = record {
  memory = λ p. if p == 16 then some first else if p == 32 then some second else none;
  task_head = 16;
  task_tail = 32;
  current_task = 32;
  freed = [];
}

valid : IsList tasks (16 ∷ 32 ∷ [])
valid = record {
  forward = (
    λ e. absurd (omega (arith, e)),
    refl,
    (first, refl, refl),
    (λ e. absurd (omega (arith, e)), refl, (second, refl, refl), tt),
  );
  head = refl;
  tail = refl;
  current = inl refl;
}

task_free-IsList_example :
    (s' : Tasks) × (task_free 16 tasks ≡ some s')
    × IsList s' (32 ∷ [])
    × (s'.memory 16 ≡ none)
    × ((q : Ptr) → q ≢ 16 → q ≢ null → s'.memory q ≡ tasks.memory q)
task_free-IsList_example = task_free-IsList tasks [] 16 (32 ∷ []) first valid refl refl

task_free-task_new_example :
    (s' s'' : Tasks) × (task_new 48 12288 0x400000 3 tasks ≡ some (ok 48, s'))
    × IsLinked s' (16 ∷ 32 ∷ 48 ∷ [])
    × (task_free 48 s' ≡ some s'')
    × IsList s'' (16 ∷ 32 ∷ [])
task_free-task_new_example =
    task_free-task_new tasks (16 ∷ 32 ∷ []) 48 12288 0x400000 3
      (record { list = valid; backward = ((first, refl, refl), ((second, refl, refl), tt)) })
      (λ e. absurd (omega (arith, e))) (λ e. absurd (omega (arith, e))) refl

run-reaches_example :
    (k : ℕ) × (0 < k)
    × (k ≤ 2)
    × (run k (λ _. false) tasks ≡ some (record tasks { current_task = 16 }))
run-reaches_example =
    run-reaches tasks (16 ∷ 32 ∷ []) 1 0 (λ _. false) (λ _. refl) valid (omega arith) (omega arith)
      refl

-- Process 2 hosts another, and process 1 does not.
abbrev at_first : Tasks
at_first = record tasks { current_task = 16 }

asleep :
    (m : ℕ) (t : Task)
    → 0 < m
    → m < 2
    → at_first.memory (get_or (16 ∷ 32 ∷ []) m null) ≡ some t
    → (t.process == 2) ≡ true
asleep zero t low high e = absurd (omega arith)
asleep (suc zero) t low high e = sym (ap (λ t. t.process == 2) (some_cancel e))
asleep (suc (suc m)) t low high e = absurd (omega arith)

task_next-panic_example : task_next 2 (λ process. process == 2) at_first ≡ panic
task_next-panic_example =
    task_next-panic 2 at_first (16 ∷ 32 ∷ []) 0 (λ process. process == 2)
      (record { forward = valid.forward; head = refl; tail = refl; current = inl refl })
      (omega arith) refl asleep (omega arith)

task_free_all_for_process-freed_example :
    (s' : Tasks) × (task_free 32 tasks ≡ some s')
    × (s'.memory 32 ≡ none)
    × (task_free_all_for_process 2 2 tasks ≡ some none)
task_free_all_for_process-freed_example =
    task_free_all_for_process-freed 2 2 tasks (16 ∷ []) 32 [] second valid
      ((λ t at e. absurd (omega (arith, ap (λ t. t.process) (some_cancel at), e))), tt) refl refl
      refl (omega arith)
