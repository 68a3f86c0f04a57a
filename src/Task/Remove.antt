-- ===== src/Task/Remove.antt =====
-- Tasks that leave the list, task_list_remove and task_free of src/task/task.c.
use serpae_os.Common.{
  ℕ, ◌≡◌, ◌≢◌, ◌⊎◌, inl, inr, refl, true, false, Option, none, some, List, [], ◌∷◌, ◌++◌, ◌==◌,
  if◌then◌else◌, length, set, arith, ap, sym, ◌∙◌, length-append, some_cancel, Bool-cases,
}
use serpae_os.Task.{
  Ptr, null, Task, Tasks, write, set_next, task_get_next, task_list_remove, task_free,
}
use serpae_os.Task.Links.{
  has, head_of, last_of, Forward, IsList, has-append, has-null, has-last_of, last_of-append,
  Forward-same, Forward-at, has_ne,
}

-- The list without a task, if the task before it names the one behind it.
Forward-without :
    (memory memory' : Ptr → Option Task) (xs : List Ptr) (p : Ptr) (ys : List Ptr)
    → Forward memory (xs ++ p ∷ ys)
    → ((q : Ptr) → q ≢ p → q ≢ last_of null xs → memory' q ≡ memory q)
    → ((a : Task)
        → has (last_of null xs) xs ≡ true
        → memory (last_of null xs) ≡ some a
        → memory' (last_of null xs) ≡ some (record a { next = head_of ys }))
    → Forward memory' (xs ++ ys)
Forward-without memory memory' [] p ys f same before =
    Forward-same memory memory' ys f.3
      (λ q i. same q (has_ne q p ys i f.1) (has_ne q null ys i (has-null memory ys f.3)))
Forward-without memory memory' (x ∷ []) p ys f same before =
    let (t, at, next) = f.2 in
    let (some_p, behind, node, rest) = f.3 in
    let out : has x ys ≡ false = ground (arith, f.1) in
    (
      f.0,
      out,
      (record t { next = head_of ys }, before t (has-last_of x []) at, refl),
      Forward-same memory memory' ys rest
          (λ q i. same q (has_ne q p ys i behind) (has_ne q x ys i out)),
    )
Forward-without memory memory' (x ∷ y ∷ r) p ys f same before =
    let (t, at, next) = f.2 in
    let out : has x ((y ∷ r) ++ ys) ≡ false =
      ground (arith, f.1, has-append x (y ∷ r) (p ∷ ys), has-append x (y ∷ r) ys) in
    let apart : x ≢ p = λ e. ground (arith, f.1, e, has-append x (y ∷ r) (p ∷ ys)) in
    let last : x ≢ last_of y r = λ e.
      has_ne (last_of y r) x (y ∷ r) (has-last_of y r)
        (ground (arith, f.1, has-append x (y ∷ r) (p ∷ ys))) (sym e) in
    (
      f.0,
      out,
      (t, same x apart last ∙ at, next),
      Forward-without memory memory' (y ∷ r) p ys f.3 same
          (λ a i e. before a (has-last_of x (y ∷ r)) e),
    )

-- The last of some tasks is one of them.
pub last_node :
    (memory : Ptr → Option Task) (x : Ptr) (r zs : List Ptr)
    → Forward memory ((x ∷ r) ++ zs)
    → (a : Task) × (memory (last_of x r) ≡ some a)
last_node memory x [] zs f = (f.2.0, f.2.1)
last_node memory x (y ∷ r) zs f = last_node memory y r zs f.3

append_nil : (prev : Ptr) (xs : List Ptr) → last_of prev (xs ++ []) ≡ last_of prev xs
append_nil prev [] = refl
append_nil prev (x ∷ xs) = append_nil x xs

head_without :
    (xs : List Ptr) (p : Ptr) (ys : List Ptr)
    → has p xs ≡ false
    → (if p == head_of (xs ++ p ∷ ys) then head_of ys else head_of (xs ++ p ∷ ys))
      ≡ head_of (xs ++ ys)
head_without [] p ys out = let own : (p == p) ≡ true = ground arith in rw own
head_without (x ∷ xs) p ys out = let other : (p == x) ≡ false = ground (arith, out) in rw other

tail_without :
    (xs : List Ptr) (p : Ptr) (ys : List Ptr)
    → has p ys ≡ false
    → (if p == last_of p ys then last_of null xs else last_of p ys) ≡ last_of null (xs ++ ys)
tail_without xs p [] out =
    let own : (p == p) ≡ true = ground arith in rw own (sym (append_nil null xs))
tail_without xs p (y ∷ r) out =
    let apart : last_of y r ≢ p = has_ne (last_of y r) p (y ∷ r) (has-last_of y r) out in
    let other : (p == last_of y r) ≡ false = ground (arith, apart) in
    rw other (sym (last_of-append null y xs r))

-- The task that runs when the current one leaves is in the list, if any is left.
next_without :
    (xs ys : List Ptr) (next : Ptr)
    → next ≡ head_of ys
    → has null ys ≡ false
    → (has (if next == null then head_of (xs ++ ys) else next) (xs ++ ys) ≡ true) ⊎ (xs ++ ys ≡ [])
next_without [] [] next e some_tasks = inr refl
next_without (x ∷ xs) [] next e some_tasks =
    let end : (next == null) ≡ true = ground (arith, e) in
    let own : (x == x) ≡ true = ground arith in inl (rw (end, own))
next_without xs (y ∷ r) next e some_tasks =
    let on : (next == null) ≡ false = ground (arith, e, some_tasks) in
    let own : (y == y) ≡ true = ground arith in
    inl (rw (on, e) (has-append y xs (y ∷ r) ∙ ground (arith, own)))

has_without :
    (q p : Ptr) (xs ys : List Ptr) → q ≢ p → has q (xs ++ p ∷ ys) ≡ true → has q (xs ++ ys) ≡ true
has_without q p xs ys ne i = ground (arith, has-append q xs (p ∷ ys), has-append q xs ys, i, ne)

-- The write to the task before.
set_next-before :
    (memory : Ptr → Option Task) (xs : List Ptr) (p : Ptr) (ys : List Ptr) (next : Ptr)
    → Forward memory (xs ++ p ∷ ys)
    → (after : Ptr → Option Task) × (set_next (last_of null xs) next memory ≡ some after)
      × ((q : Ptr) → q ≢ last_of null xs → after q ≡ memory q)
      × ((a : Task)
          → has (last_of null xs) xs ≡ true
          → memory (last_of null xs) ≡ some a
          → after (last_of null xs) ≡ some (record a { next = next }))
unfolding set_next
set_next-before memory [] p ys next f = (memory, refl, λ q ne. refl, λ a i e. ground (arith, i))
set_next-before memory (x ∷ r) p ys next f =
    let last = last_of x r in
    let (a, at) = last_node memory x r (p ∷ ys) f in
    let inside : last ≢ null = λ e. ground (
      arith,
      has-last_of x r,
      ap (λ q. has q (x ∷ r)) e,
      has-append null (x ∷ r) (p ∷ ys),
      has-null memory ((x ∷ r) ++ p ∷ ys) f,
    ) in
    let some_last : (last == null) ≡ false = ground (arith, inside) in
    let own : (last == last) ≡ true = ground arith in
    (
      write memory last (some (record a { next = next })),
      rw (set_next, some_last, at),
      λ q ne. let other : (q == last) ≡ false = ground (arith, ne) in rw other,
      λ b i e.
          let named : Task → Option Task = λ b. some (record b { next = next }) in
          rw own (ap named (some_cancel (sym at ∙ e))),
    )

pub eq_false : (a b : ℕ) → a ≢ b → (a == b) ≡ false
eq_false a b ne = ground arith

pub eq_true : (a b : ℕ) → a ≡ b → (a == b) ≡ true
eq_true a b e = ground arith

pub before_lem : (xs : List Ptr) (p : Ptr) → p ≢ null → has p xs ≡ false → p ≢ last_of null xs
before_lem [] p ne out = ne
before_lem (x ∷ r) p ne out = λ e. has_ne (last_of x r) p (x ∷ r) (has-last_of x r) out (sym e)

-- The task that is current when a task leaves.
abbrev current_without : Ptr → Task → Ptr → Ptr → Ptr
current_without p t head current =
    if p == current then (if t.next == null then head else t.next) else current

remove_lem :
    (s : Tasks) (p : Ptr) (t : Task) (after : Ptr → Option Task) (head tail : Ptr)
    → set_next t.prev t.next s.memory ≡ some after
    → after p ≡ some t
    → (if p == s.task_head then t.next else s.task_head) ≡ head
    → (if p == s.task_tail then t.prev else s.task_tail) ≡ tail
    → task_list_remove p t s
      ≡ some (record s {
        memory = after;
        task_head = head;
        task_tail = tail;
        current_task = current_without p t head s.current_task;
      })
unfolding task_list_remove task_get_next
remove_lem s p t after head tail named at e1 e2 = elim (Bool-cases (p == s.current_task)) [
  | inr other ↦ rw (task_list_remove, named, other, e1, e2)
  | inl running ↦
      let same : s.current_task ≡ p = ground (arith, running) in
      let here : after s.current_task ≡ some t = ap after same ∙ at in
      rw (task_list_remove, named, running, task_get_next, here, e1, e2)
]

current_lem :
    (xs : List Ptr) (p : Ptr) (ys : List Ptr) (t : Task) (current : Ptr)
    → t.next ≡ head_of ys
    → has null ys ≡ false
    → (has current (xs ++ p ∷ ys) ≡ true) ⊎ (xs ++ p ∷ ys ≡ [])
    → (has (current_without p t (head_of (xs ++ ys)) current) (xs ++ ys) ≡ true) ⊎ (xs ++ ys ≡ [])
current_lem xs p ys t current next some_tasks i = elim (Bool-cases (p == current)) [
  | inl running ↦ rw running (next_without xs ys t.next next some_tasks)
  | inr other ↦ elim i [
    | inl inside ↦ rw other (inl (has_without current p xs ys (ground (arith, other)) inside))
    | inr empty ↦ absurd (omega (arith, length-append xs (p ∷ ys), ap (λ ps. length ps) empty))
  ]
]

-- A task of the list whose own `prev` is right is freed: the list goes on without it, with its head,
-- its tail and its current task, and the memory of all other tasks but the one before stays.
pub task_free-IsList :
    (s : Tasks) (xs : List Ptr) (p : Ptr) (ys : List Ptr) (t : Task)
    → IsList s (xs ++ p ∷ ys)
    → s.memory p ≡ some t
    → t.prev ≡ last_of null xs
    → (s' : Tasks) × (task_free p s ≡ some s')
      × IsList s' (xs ++ ys)
      × (s'.memory p ≡ none)
      × ((q : Ptr) → q ≢ p → q ≢ last_of null xs → s'.memory q ≡ s.memory q)
unfolding task_free
task_free-IsList s xs p ys t valid at back =
    let memory = s.memory in
    let f = valid.forward in
    let (some_p, out, behind, (t', at', next')) = Forward-at memory xs p ys f in
    let next : t.next ≡ head_of ys = ap (λ t. t.next) (some_cancel (sym at ∙ at')) ∙ next' in
    let (after, set, kept, linked) = set_next-before memory xs p ys t.next f in
    let own : (p == p) ≡ true = ground arith in
    let before : p ≢ last_of null xs = before_lem xs p some_p out in
    let after_p : after p ≡ some t = kept p before ∙ at in
    let no_null : has null ys ≡ false =
      ground (arith, has-null memory (xs ++ p ∷ ys) f, has-append null xs (p ∷ ys)) in
    let head : (if p == s.task_head then t.next else s.task_head) ≡ head_of (xs ++ ys) =
      rw (valid.head, next) (head_without xs p ys out) in
    let tail : (if p == s.task_tail then t.prev else s.task_tail) ≡ last_of null (xs ++ ys) =
      rw (valid.tail, back, last_of-append null p xs ys) (tail_without xs p ys behind) in
    let same : (q : Ptr) → q ≢ p → q ≢ last_of null xs → write after p none q ≡ memory q =
      λ q ne apart. let test : (q == p) ≡ false = eq_false q p ne in rw test (kept q apart) in
    let chain : Forward (write after p none) (xs ++ ys) =
      Forward-without memory (write after p none) xs p ys f same (λ a i e.
        let test = eq_false (last_of null xs) p (λ e. before (sym e)) in
        let named : Ptr → Option Task = λ n. some (record a { next = n }) in
        rw test (linked a i e ∙ ap named next)) in
    let removed =
      remove_lem s p t after (head_of (xs ++ ys)) (last_of null (xs ++ ys))
        (ap (λ q. set_next q t.next memory) back ∙ set) after_p head tail in
    (
      record s {
        memory = write after p none;
        task_head = head_of (xs ++ ys);
        task_tail = last_of null (xs ++ ys);
        current_task = current_without p t (head_of (xs ++ ys)) s.current_task;
        freed = if t.main_task then t.page_directory ∷ s.freed else s.freed;
      },
      rw (task_free, at, removed),
      record {
        forward = chain;
        head = refl;
        tail = refl;
        current = current_lem xs p ys t s.current_task next no_null valid.current;
      },
      rw own,
      same,
    )
