-- ===== src/Task/Append.antt =====
-- New tasks, task_new and task_add_to_process of src/task/task.c.
use serpae_os.Common.{
  ℕ, ◌≡◌, ◌≢◌, ◌⊎◌, inl, inr, refl, true, false, Option, some, List, [], ◌∷◌, ◌++◌, ◌==◌, length,
  arith, ap, sym, ◌∙◌, some_cancel, ok,
}
use serpae_os.Task.{Ptr, null, Task, Tasks, write, append, new_task, task_new, task_free}
use serpae_os.Task.Links.{
  has, last_of, Forward, Backward, IsList, has-append, has-last_of, last_of-append, has_ne,
}
use mathlib.Core.Path.{subst}
use serpae_os.Task.Remove.{eq_false, task_free-IsList}

last_some :
    (memory : Ptr → Option Task) (x : Ptr) (r : List Ptr)
    → Forward memory (x ∷ r)
    → (a : Task) × (memory (last_of x r) ≡ some a)
last_some memory x [] f = (f.2.0, f.2.1)
last_some memory x (y ∷ r) f = last_some memory y r f.3

Forward-append :
    (memory memory' : Ptr → Option Task) (x : Ptr) (r : List Ptr) (p : Ptr) (t a : Task)
    → Forward memory (x ∷ r)
    → p ≢ null
    → has p (x ∷ r) ≡ false
    → memory (last_of x r) ≡ some a
    → ((q : Ptr) → q ≢ p → q ≢ last_of x r → memory' q ≡ memory q)
    → memory' (last_of x r) ≡ some (record a { next = p })
    → memory' p ≡ some t
    → t.next ≡ null
    → Forward memory' ((x ∷ r) ++ p ∷ [])
Forward-append memory memory' x [] p t a f some_p out at same before placed end =
    let apart : has x (p ∷ []) ≡ false = ground (arith, out) in
    (f.0, apart, (record a { next = p }, before, refl), (some_p, refl, (t, placed, end), tt))
Forward-append memory memory' x (y ∷ r) p t a f some_p out at same before placed end =
    let apart : x ≢ p = λ e. ground (arith, out, e) in
    let out' : has p (y ∷ r) ≡ false = ground (arith, out) in
    let last : x ≢ last_of y r =
      λ e. has_ne (last_of y r) x (y ∷ r) (has-last_of y r) f.1 (sym e) in
    let new : has x ((y ∷ r) ++ p ∷ []) ≡ false =
      ground (arith, has-append x (y ∷ r) (p ∷ []), f.1, apart) in
    let (n, at_x, next) = f.2 in
    (
      f.0,
      new,
      (n, same x apart last ∙ at_x, next),
      Forward-append memory memory' y r p t a f.3 some_p out' at same before placed end,
    )

-- The node before changes its `next` only.
Backward-append :
    (memory memory' : Ptr → Option Task) (prev x : Ptr) (r : List Ptr) (p : Ptr) (t a : Task)
    → Forward memory (x ∷ r)
    → Backward memory prev (x ∷ r)
    → has p (x ∷ r) ≡ false
    → memory (last_of x r) ≡ some a
    → ((q : Ptr) → q ≢ p → q ≢ last_of x r → memory' q ≡ memory q)
    → memory' (last_of x r) ≡ some (record a { next = p })
    → memory' p ≡ some t
    → t.prev ≡ last_of x r
    → Backward memory' prev ((x ∷ r) ++ p ∷ [])
Backward-append memory memory' prev x [] p t a f b out at same before placed end =
    let (n, at_x, back) = b.0 in
    let back' : a.prev ≡ prev = ap (λ n. n.prev) (some_cancel (sym at ∙ at_x)) ∙ back in
    ((record a { next = p }, before, back'), ((t, placed, end), tt))
Backward-append memory memory' prev x (y ∷ r) p t a f b out at same before placed end =
    let apart : x ≢ p = λ e. ground (arith, out, e) in
    let out' : has p (y ∷ r) ≡ false = ground (arith, out) in
    let last : x ≢ last_of y r =
      λ e. has_ne (last_of y r) x (y ∷ r) (has-last_of y r) f.1 (sym e) in
    let (n, at_x, back) = b.0 in
    (
      (n, same x apart last ∙ at_x, back),
      Backward-append memory memory' x y r p t a f.3 b.1 out' at same before placed end,
    )

-- The list, with the `prev` pointers.
pub record IsLinked (s : Tasks) (ps : List Ptr) : Type 0 where
  pub list : IsList s ps
  pub backward : Backward s.memory null ps

current_kept :
    (q x : Ptr) (r : List Ptr) (p : Ptr)
    → (has q (x ∷ r) ≡ true) ⊎ (x ∷ r ≡ [])
    → has q ((x ∷ r) ++ p ∷ []) ≡ true
current_kept q x r p (inl i) = ground (arith, has-append q (x ∷ r) (p ∷ []), i)
current_kept q x r p (inr empty) = absurd (omega (arith, ap (λ ps. length ps) empty))

-- A task at an address that is not in the list, with null pointers, is put behind the last one.
append-IsLinked :
    (s : Tasks) (ps : List Ptr) (p : Ptr) (t : Task)
    → IsLinked s ps
    → p ≢ null
    → has p ps ≡ false
    → t.next ≡ null
    → t.prev ≡ null
    → (s' : Tasks) × (append p t s ≡ some s')
      × IsLinked s' (ps ++ p ∷ [])
      × (s'.memory p ≡ some (record t { prev = last_of null ps }))
unfolding append
append-IsLinked s [] p t valid some_p out next prev =
    let empty : (s.task_head == null) ≡ true = ground (arith, valid.list.head) in
    let own : (p == p) ≡ true = ground arith in
    (
      record s {
        memory = write s.memory p (some t);
        task_head = p;
        task_tail = p;
        current_task = p;
      },
      rw (append, empty),
      record {
        list = record {
          forward = (some_p, refl, (t, (rw own), next), tt);
          head = refl;
          tail = refl;
          current = inl (rw own);
        };
        backward = ((t, (rw own), prev), tt);
      },
      rw own (let linked : Ptr → Option Task = λ q. some (record t { prev = q }) in ap linked prev),
    )
append-IsLinked s (x ∷ r) p t valid some_p out next prev =
    let memory = s.memory in
    let f = valid.list.forward in
    let (a, at) = last_some memory x r f in
    let last = last_of x r in
    let some_head : (s.task_head == null) ≡ false = ground (arith, valid.list.head, f.0) in
    let at_tail : memory s.task_tail ≡ some a = ap memory valid.list.tail ∙ at in
    let own : (p == p) ≡ true = ground arith in
    let own_last : (last == last) ≡ true = ground arith in
    let apart : last ≢ p = has_ne last p (x ∷ r) (has-last_of x r) out in
    let test = eq_false last p apart in
    let placed : Task = record t { prev = last } in
    let memory' : Ptr → Option Task =
      write (write memory last (some (record a { next = p }))) p (some placed) in
    let same : (q : Ptr) → q ≢ p → q ≢ last → memory' q ≡ memory q =
      λ q ne other. rw (eq_false q p ne, eq_false q last other) in
    let before : memory' last ≡ some (record a { next = p }) = rw (test, own_last) in
    let here : memory' p ≡ some placed = rw own in
    (
      record s { memory = memory'; task_tail = p },
      rw (append, some_head, at_tail, valid.list.tail),
      record {
        list = record {
          forward =
              Forward-append memory memory' x r p placed a f some_p out at same before here next;
          head = valid.list.head;
          tail = sym (last_of-append null p (x ∷ r) []);
          current = inl (current_kept s.current_task x r p valid.list.current);
        };
        backward =
            Backward-append memory memory' null x r p placed a f valid.backward out at same before
              here refl;
      },
      here,
    )

nil_append : (ps : List Ptr) → ps ++ [] ≡ ps
nil_append [] = refl
nil_append (p ∷ ps) = ap (λ r. p ∷ r) (nil_append ps)

-- A task that is made at a new address with a page directory is put behind the last task of the list,
-- whose pointers in both directions are right again; and if it is freed next, the list is the one from
-- before.
pub task_free-task_new :
    (s : Tasks) (ps : List Ptr) (p directory ip process : ℕ)
    → IsLinked s ps
    → p ≢ null
    → directory ≢ 0
    → has p ps ≡ false
    → (s' s'' : Tasks) × (task_new p directory ip process s ≡ some (ok p, s'))
      × IsLinked s' (ps ++ p ∷ [])
      × (task_free p s' ≡ some s'')
      × IsList s'' ps
unfolding task_new
task_free-task_new s ps p directory ip process valid some_p some_directory out =
    let t = new_task directory ip process true in
    let (s', made, valid', at) = append-IsLinked s ps p t valid some_p out refl refl in
    let (s'', freed, valid'', gone, rest) =
      task_free-IsList s' ps p [] (record t { prev = last_of null ps }) valid'.list at refl in
    let a = eq_false p null some_p in
    let b = eq_false directory 0 some_directory in
    (
      s',
      s'',
      rw (task_new, a, b, made),
      valid',
      freed,
      subst (λ ps. IsList s'' ps) (nil_append ps) valid'',
    )
