-- ===== src/Task/Next.antt =====
-- The task that runs next, task_get_next and task_next of src/task/task.c.
use serpae_os.Common.{
  ℕ, zero, suc, ◌+◌, ◌-◌, ◌≤◌, ◌<◌, ◌≡◌, ◌≢◌, inl, inr, refl, Bool, true, false, Option, none, some,
  List, [], ◌∷◌, ◌==◌, if◌then◌else◌, length, get_or, arith, ap, sym, ◌∙◌, get_or_out, Bool-cases,
  dec_lt,
}
use serpae_os.Task.{Ptr, null, Task, Tasks, task_get_next}
use serpae_os.Task.Walks.{switched, panic, bad_read, running, next_loop, task_next}
use serpae_os.Task.Remove.{eq_true, eq_false}
use serpae_os.Task.Links.{has, head_of, Forward, IsList}

-- The number behind the number `i` of a list of `n`, from 0 again behind the last.
abbrev pub after : ℕ → ℕ → ℕ
after n i = if suc i == n then 0 else suc i

node_at :
    (memory : Ptr → Option Task) (ps : List Ptr) (i : ℕ)
    → Forward memory ps
    → i < length ps
    → (get_or ps i null ≢ null)
      × ((t : Task) × (memory (get_or ps i null) ≡ some t) × (t.next ≡ get_or ps (suc i) null))
node_at memory [] i f h = absurd (omega arith)
node_at memory (p ∷ []) zero f h = (f.0, f.2)
node_at memory (p ∷ q ∷ ps) zero f h = (f.0, f.2)
node_at memory (p ∷ ps) (suc i) f h = node_at memory ps i f.3 (omega arith)

head_lem : (ps : List Ptr) → head_of ps ≡ get_or ps 0 null
head_lem [] = refl
head_lem (p ∷ ps) = refl

last_lem : (i n : ℕ) → (suc i == n) ≡ true → n ≤ suc i
last_lem i n e = ground (arith, e)

get_next_lem :
    (s : Tasks) (ps : List Ptr) (i : ℕ)
    → IsList s ps
    → i < length ps
    → s.current_task ≡ get_or ps i null
    → task_get_next s ≡ some (get_or ps (after (length ps) i) null)
unfolding task_get_next
get_next_lem s ps i valid h at =
    let (some_p, (t, here, next)) = node_at s.memory ps i valid.forward h in
    let current : s.memory s.current_task ≡ some t = ap s.memory at ∙ here in
    elim (Bool-cases (suc i == length ps)) [
      | inl last ↦
          let end : (t.next == null) ≡ true =
            eq_true t.next null (next ∙ get_or_out ps null (suc i) (last_lem i (length ps) last)) in
          rw (task_get_next, current, end, last, valid.head) (ap some (head_lem ps))
      | inr more ↦
          let inside : suc i < length ps = ground (arith, more) in
          let some_next = (node_at s.memory ps (suc i) valid.forward inside).0 in
          let on : (t.next == null) ≡ false =
            eq_false t.next null (λ e. some_next (sym next ∙ e)) in
          rw (task_get_next, current, on, more, next)
    ]

-- Calls of `task_next`, with one round of the loop each.
unfoldable pub run : ℕ → (ℕ → Bool) → Tasks → Option Tasks
run zero hosting s = some s
run (suc rounds) hosting s = elim (task_next 1 hosting s) [
  | panic ↦ none
  | bad_read ↦ none
  | running ↦ none
  | switched s' ↦ run rounds hosting s'
]

step :
    (s : Tasks) (ps : List Ptr) (i : ℕ) (hosting : ℕ → Bool)
    → ((process : ℕ) → hosting process ≡ false)
    → IsList s ps
    → i < length ps
    → s.current_task ≡ get_or ps i null
    → task_next 1 hosting s
      ≡ switched (record s { current_task = get_or ps (after (length ps) i) null })
unfolding task_next next_loop
step s ps i hosting awake valid h at =
    let j = after (length ps) i in
    let inside : j < length ps = ground arith in
    let next = get_next_lem s ps i valid h at in
    let (some_q, (t, here, rest)) = node_at s.memory ps j valid.forward inside in
    let runs : (get_or ps j null == null) ≡ false = ground (arith, some_q) in
    rw (task_next, next, next_loop, runs, here, awake t.process, runs)

has-get_or : (ps : List Ptr) (j : ℕ) → j < length ps → has (get_or ps j null) ps ≡ true
has-get_or [] j h = absurd (omega arith)
has-get_or (p ∷ ps) zero h = let own : (p == p) ≡ true = ground arith in rw own
has-get_or (p ∷ ps) (suc j) h = rw (has-get_or ps j (omega arith)) (ground arith)

-- The list does not read which task is current, but for its being in it.
moved :
    (s : Tasks) (ps : List Ptr) (j : ℕ)
    → IsList s ps
    → j < length ps
    → IsList (record s { current_task = get_or ps j null }) ps
moved s ps j valid h = record {
  forward = valid.forward;
  head = valid.head;
  tail = valid.tail;
  current = inl (has-get_or ps j h);
}

abbrev pub rounds_after : ℕ → ℕ → ℕ → ℕ
rounds_after n zero i = i
rounds_after n (suc k) i = rounds_after n k (after n i)

run-rounds_after :
    (k : ℕ) (s : Tasks) (ps : List Ptr) (i : ℕ) (hosting : ℕ → Bool)
    → ((process : ℕ) → hosting process ≡ false)
    → IsList s ps
    → i < length ps
    → s.current_task ≡ get_or ps i null
    → run k hosting s
      ≡ some (record s { current_task = get_or ps (rounds_after (length ps) k i) null })
unfolding run
run-rounds_after zero s ps i hosting awake valid h at =
    let current : Ptr → Option Tasks = λ q. some (record s { current_task = q }) in ap current at
run-rounds_after (suc k) s ps i hosting awake valid h at =
    let j = after (length ps) i in
    let inside : j < length ps = ground arith in
    rw (run, step s ps i hosting awake valid h at)
      (run-rounds_after k (record s { current_task = get_or ps j null }) ps j hosting awake
        (moved s ps j valid inside) inside refl)

rounds_up : (n k i : ℕ) → i + k < n → rounds_after n k i ≡ i + k
rounds_up n zero i h = omega arith
rounds_up n (suc k) i h =
    let on : (suc i == n) ≡ false = ground arith in
    rw on (rounds_up n k (suc i) (omega arith) ∙ omega arith)

rounds_over : (n k i : ℕ) → i < n → n ≤ i + k → i + k < n + n → rounds_after n k i ≡ i + k - n
rounds_over n zero i h a b = absurd (omega arith)
rounds_over n (suc k) i h a b = elim (Bool-cases (suc i == n)) [
  | inl last ↦
      let e : suc i ≡ n = ground (arith, last) in
      rw last (rounds_up n k 0 (omega (arith, e)) ∙ omega (arith, e))
  | inr more ↦
      rw more
        (rounds_over n k (suc i) (ground (arith, more)) (omega arith) (omega arith) ∙ omega arith)
]

-- If no process hosts another, every task of the list runs within as many calls of task_next as the
-- list has tasks, from any current task of the list on.
pub run-reaches :
    (s : Tasks) (ps : List Ptr) (i j : ℕ) (hosting : ℕ → Bool)
    → ((process : ℕ) → hosting process ≡ false)
    → IsList s ps
    → i < length ps
    → j < length ps
    → s.current_task ≡ get_or ps i null
    → (k : ℕ) × (0 < k)
      × (k ≤ length ps)
      × (run k hosting s ≡ some (record s { current_task = get_or ps j null }))
run-reaches s ps i j hosting awake valid h h' at = elim (dec_lt i j) [
  | yes below ↦
      let k = j - i in
      let e : rounds_after (length ps) k i ≡ j =
        rounds_up (length ps) k i (omega arith) ∙ omega arith in
      (k, omega arith, omega arith, run-rounds_after k s ps i hosting awake valid h at ∙ rw e refl)
  | no above ↦
      let k = length ps + j - i in
      let e : rounds_after (length ps) k i ≡ j =
        rounds_over (length ps) k i h (omega arith) (omega arith) ∙ omega arith in
      (k, omega arith, omega arith, run-rounds_after k s ps i hosting awake valid h at ∙ rw e refl)
]

next_loop_panic :
    (fuel : ℕ) (s : Tasks) (ps : List Ptr) (j : ℕ) (hosting : ℕ → Bool)
    → IsList s ps
    → ((m : ℕ) (t : Task)
        → j ≤ m
        → m < length ps
        → s.memory (get_or ps m null) ≡ some t
        → hosting t.process ≡ true)
    → length ps < fuel + j
    → j ≤ length ps
    → next_loop fuel hosting (get_or ps j null) s ≡ some (some null)
unfolding next_loop
next_loop_panic zero s ps j hosting valid asleep enough h = absurd (omega arith)
next_loop_panic (suc fuel) s ps j hosting valid asleep enough h = elim (dec_lt j (length ps)) [
  | no end ↦
      let over : (get_or ps j null == null) ≡ true =
        eq_true (get_or ps j null) null (get_or_out ps null j (omega arith)) in
      rw (next_loop, over)
  | yes inside ↦
      let (some_p, (t, at, next)) = node_at s.memory ps j valid.forward inside in
      let on = eq_false (get_or ps j null) null some_p in
      let rest =
        next_loop_panic fuel s ps (suc j) hosting valid (λ m t' l. asleep m t' (omega arith))
          (omega arith) (omega arith) in
      rw (next_loop, on, at, asleep j t (omega arith) inside at, next, rest)
]

-- In a right list whose current task is not the last, if the process of every task behind the current
-- one hosts another, task_next, with a round for each task, ends at the end of the list and panics,
-- whether or not a task before could run.
pub task_next-panic :
    (fuel : ℕ) (s : Tasks) (ps : List Ptr) (i : ℕ) (hosting : ℕ → Bool)
    → IsList s ps
    → suc i < length ps
    → s.current_task ≡ get_or ps i null
    → ((m : ℕ) (t : Task)
        → i < m
        → m < length ps
        → s.memory (get_or ps m null) ≡ some t
        → hosting t.process ≡ true)
    → length ps ≤ fuel
    → task_next fuel hosting s ≡ panic
unfolding task_next
task_next-panic fuel s ps i hosting valid more at asleep enough =
    let behind : (suc i == length ps) ≡ false = ground arith in
    let next = get_next_lem s ps i valid (omega arith) at in
    let ends = next_loop_panic fuel s ps (suc i) hosting valid asleep (omega arith) (omega arith) in
    rw (task_next, next, behind, ends)
