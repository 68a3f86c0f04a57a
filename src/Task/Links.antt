-- ===== src/Task/Links.antt =====
-- What the tasks of src/task/task.c stand for: the list of their addresses.
use serpae_os.Common.{
  ◌≡◌, ◌≢◌, ◌⊎◌, inl, inr, refl, Bool, true, false, ◌||◌, Option, some, List, [], ◌∷◌, ◌++◌, ◌==◌,
  arith, ap, ◌∙◌, Bool-cases,
}
use serpae_os.Task.{Ptr, null, Task, Tasks}

abbrev pub has : Ptr → List Ptr → Bool
has q [] = false
has q (p ∷ ps) = (q == p) || has q ps

abbrev pub head_of : List Ptr → Ptr
head_of [] = null
head_of (p ∷ ps) = p

-- The last of a list, or what stands before it.
abbrev pub last_of : Ptr → List Ptr → Ptr
last_of prev [] = prev
last_of prev (p ∷ ps) = last_of p ps

-- The `next` pointers lead through different tasks to the null pointer.
abbrev pub Forward : (Ptr → Option Task) → List Ptr → Type 0
Forward memory [] = Unit {0}
Forward memory (p ∷ ps) =
    (p ≢ null)
    × (has p ps ≡ false)
    × ((t : Task) × (memory p ≡ some t) × (t.next ≡ head_of ps))
    × Forward memory ps

-- The `prev` pointers name the task before.
abbrev pub Backward : (Ptr → Option Task) → Ptr → List Ptr → Type 0
Backward memory prev [] = Unit {0}
Backward memory prev (p ∷ ps) =
    ((t : Task) × (memory p ≡ some t) × (t.prev ≡ prev)) × Backward memory p ps

-- The three pointers of the file stand for the list.
pub record IsList (s : Tasks) (ps : List Ptr) : Type 0 where
  pub forward : Forward s.memory ps
  pub head : s.task_head ≡ head_of ps
  pub tail : s.task_tail ≡ last_of null ps
  pub current : (has s.current_task ps ≡ true) ⊎ (ps ≡ [])

pub has-append : (q : Ptr) (xs ys : List Ptr) → has q (xs ++ ys) ≡ (has q xs || has q ys)
has-append q [] ys = refl
has-append q (x ∷ xs) ys = elim (Bool-cases (q == x)) [
  | inl e ↦ rw e
  | inr e ↦ rw e (has-append q xs ys)
]

pub has-null :
    (memory : Ptr → Option Task) (ps : List Ptr) → Forward memory ps → has null ps ≡ false
has-null memory [] f = refl
has-null memory (p ∷ ps) f =
    let other : (null == p) ≡ false = ground (arith, f.0) in rw other (has-null memory ps f.3)

-- The last of a list that is not empty is in it.
pub has-last_of : (p : Ptr) (ps : List Ptr) → has (last_of p ps) (p ∷ ps) ≡ true
has-last_of p [] = ground arith
has-last_of p (q ∷ ps) = elim (Bool-cases (last_of q ps == p)) [
  | inl e ↦ rw e
  | inr e ↦ rw e (has-last_of q ps)
]

pub last_of-append : (prev p : Ptr) (xs ys : List Ptr) → last_of prev (xs ++ p ∷ ys) ≡ last_of p ys
last_of-append prev p [] ys = refl
last_of-append prev p (x ∷ xs) ys = last_of-append x p xs ys

pub Forward-same :
    (memory memory' : Ptr → Option Task) (ps : List Ptr)
    → Forward memory ps
    → ((q : Ptr) → has q ps ≡ true → memory' q ≡ memory q)
    → Forward memory' ps
Forward-same memory memory' [] f same = tt
Forward-same memory memory' (p ∷ ps) f same =
    let own : (p == p) ≡ true = ground arith in
    let (t, at, next) = f.2 in
    (
      f.0,
      f.1,
      (t, same p (rw own) ∙ at, next),
      Forward-same memory memory' ps f.3
          (λ q i. same q (elim (Bool-cases (q == p)) [ inl e ↦ rw e | inr e ↦ rw (e, i) ])),
    )

pub Backward-same :
    (memory memory' : Ptr → Option Task) (prev : Ptr) (ps : List Ptr)
    → Backward memory prev ps
    → ((q : Ptr) → has q ps ≡ true → memory' q ≡ memory q)
    → Backward memory' prev ps
Backward-same memory memory' prev [] b same = tt
Backward-same memory memory' prev (p ∷ ps) b same =
    let own : (p == p) ≡ true = ground arith in
    let (t, at, back) = b.0 in
    (
      (t, same p (rw own) ∙ at, back),
      Backward-same memory memory' p ps b.1
          (λ q i. same q (elim (Bool-cases (q == p)) [ inl e ↦ rw e | inr e ↦ rw (e, i) ])),
    )

-- The node in the middle of a list.
pub Forward-at :
    (memory : Ptr → Option Task) (xs : List Ptr) (p : Ptr) (ys : List Ptr)
    → Forward memory (xs ++ p ∷ ys)
    → (p ≢ null)
      × (has p xs ≡ false)
      × (has p ys ≡ false)
      × ((t : Task) × (memory p ≡ some t) × (t.next ≡ head_of ys))
Forward-at memory [] p ys f = (f.0, refl, f.1, f.2)
Forward-at memory (x ∷ xs) p ys f =
    let (some_p, out, behind, node) = Forward-at memory xs p ys f.3 in
    let apart : (p == x) ≡ false = ground (arith, has-append x xs (p ∷ ys), f.1) in
    (some_p, rw (apart, out), behind, node)

pub has_ne : (q p : Ptr) (ps : List Ptr) → has q ps ≡ true → has p ps ≡ false → q ≢ p
has_ne q p ps a b e = ground (arith, a, b, ap (λ x. has x ps) e)
