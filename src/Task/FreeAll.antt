-- ===== src/Task/FreeAll.antt =====
-- The tasks of a process that ends, task_free_all_for_process of src/task/task.c.
use serpae_os.Common.{
  ℕ, zero, suc, ◌<◌, ◌≡◌, ◌≢◌, refl, Option, none, some, List, [], ◌∷◌, ◌++◌, length, arith, ap,
  ◌∙◌,
}
use serpae_os.Task.{Ptr, null, Task, Tasks, task_free}
use serpae_os.Task.Walks.{free_all_loop, task_free_all_for_process}
use serpae_os.Task.Links.{head_of, last_of, Forward, IsList}
use serpae_os.Task.Remove.{task_free-IsList, eq_true, eq_false}

-- The tasks of a list are of other processes.
abbrev pub Others : (Ptr → Option Task) → ℕ → List Ptr → Type 0
Others memory process [] = Unit {0}
Others memory process (p ∷ ps) =
    ((t : Task) → memory p ≡ some t → t.process ≢ process) × Others memory process ps

free_all_loop_step :
    (fuel process : ℕ) (s : Tasks) (p : Ptr) (t : Task)
    → p ≢ null
    → s.memory p ≡ some t
    → t.process ≢ process
    → free_all_loop (suc fuel) process p s ≡ free_all_loop fuel process t.next s
unfolding free_all_loop
free_all_loop_step fuel process s p t some_p at other =
    rw (free_all_loop, eq_false p null some_p, at, eq_false t.process process other)

free_all_loop_end :
    (fuel process : ℕ) (s : Tasks) (ps : List Ptr)
    → Forward s.memory ps
    → Others s.memory process ps
    → length ps < fuel
    → free_all_loop fuel process (head_of ps) s ≡ some (some s)
unfolding free_all_loop
free_all_loop_end zero process s ps f others enough = absurd (omega (arith, enough))
free_all_loop_end (suc fuel) process s [] f others enough = refl
free_all_loop_end (suc fuel) process s (p ∷ ps) f others enough =
    let (t, at, next) = f.2 in
    free_all_loop_step fuel process s p t f.0 at (others.0 t at)
    ∙ ap (λ q. free_all_loop fuel process q s) next
    ∙ free_all_loop_end fuel process s ps f.3 others.1 (omega (arith, enough))

free_all_loop_freed :
    (fuel process : ℕ) (s s' : Tasks) (xs : List Ptr) (p : Ptr) (ys : List Ptr) (t : Task)
    → Forward s.memory (xs ++ p ∷ ys)
    → Others s.memory process xs
    → s.memory p ≡ some t
    → t.process ≡ process
    → task_free p s ≡ some s'
    → s'.memory p ≡ none
    → length xs < fuel
    → free_all_loop fuel process (head_of (xs ++ p ∷ ys)) s ≡ some none
unfolding free_all_loop
free_all_loop_freed zero process s s' xs p ys t f others at own freed gone enough =
    absurd (omega (arith, enough))
free_all_loop_freed (suc fuel) process s s' [] p ys t f others at own freed gone enough =
    rw (free_all_loop, eq_false p null f.0, at, eq_true t.process process own, freed, gone)
free_all_loop_freed (suc fuel) process s s' (x ∷ xs) p ys t f others at own freed gone enough =
    let (t', at', next) = f.2 in
    free_all_loop_step fuel process s x t' f.0 at' (others.0 t' at')
    ∙ ap (λ q. free_all_loop fuel process q s) next
    ∙ free_all_loop_freed fuel process s s' xs p ys t f.3 others.1 at own freed gone
        (omega (arith, enough))

-- With a round for each task of the list and one more, task_free_all_for_process of a process without a
-- task leaves all as it was.
pub task_free_all_for_process_none :
    (fuel process : ℕ) (s : Tasks) (ps : List Ptr)
    → IsList s ps
    → Others s.memory process ps
    → length ps < fuel
    → task_free_all_for_process fuel process s ≡ some (some s)
unfolding task_free_all_for_process
task_free_all_for_process_none fuel process s ps valid others enough =
    ap (λ q. free_all_loop fuel process q s) valid.head
    ∙ free_all_loop_end fuel process s ps valid.forward others enough

-- With a round for each task up to the first one of a process in the list, whose prev is right,
-- task_free_all_for_process of the process frees that task and then reads it for the next one.
pub task_free_all_for_process-freed :
    (fuel process : ℕ) (s : Tasks) (xs : List Ptr) (p : Ptr) (ys : List Ptr) (t : Task)
    → IsList s (xs ++ p ∷ ys)
    → Others s.memory process xs
    → s.memory p ≡ some t
    → t.process ≡ process
    → t.prev ≡ last_of null xs
    → length xs < fuel
    → (s' : Tasks) × (task_free p s ≡ some s')
      × (s'.memory p ≡ none)
      × (task_free_all_for_process fuel process s ≡ some none)
unfolding task_free_all_for_process
task_free_all_for_process-freed fuel process s xs p ys t valid others at own back enough =
    let (s', freed, valid', gone, rest) = task_free-IsList s xs p ys t valid at back in
    let start = ap (λ q. free_all_loop fuel process q s) valid.head in
    (
      s',
      freed,
      gone,
      start
          ∙ free_all_loop_freed fuel process s s' xs p ys t valid.forward others at own freed gone
              enough,
    )
