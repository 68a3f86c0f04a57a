-- ===== src/Keyboard/Refine.antt =====
-- Any sequence of keys and reads, against a queue.
use serpae_os.Common.{
  ℕ, ◌<◌, ◌≡◌, refl, true, false, Option, some, List, [], ◌∷◌, ◌++◌, ◌==◌, if◌then◌else◌, length,
  arith, ap, ℕ_discrete,
}
use mathlib.Core.Path.{subst}
use serpae_os.Keyboard.{Keyboard, buffer_size, push, pop}
use serpae_os.Keyboard.Queue.{Holds, push-Holds, pop_empty, pop-Holds}

-- What happens to the buffer of the current process.
pub data Event : Type 0 where
  key : ℕ → Event
  read : Event

skip : (c : ℕ) (k : Keyboard) → c ≡ 0 → push c (some k) ≡ some k
unfolding push
skip c k e = let no_key : (c == 0) ≡ true = ground arith in rw no_key

-- The answers of the reads.
pub run : List Event → Option Keyboard → List ℕ
run [] k = []
run (key c ∷ events) k = run events (push c k)
run (read ∷ events) k = let (c, l) = pop k in c ∷ run events l

-- The same of a queue without bound: a key 0 is no key, and a read of the empty queue answers 0.
pub run_queue : List Event → List ℕ → List ℕ
run_queue [] keys = []
run_queue (key c ∷ events) keys = run_queue events (if c == 0 then keys else keys ++ c ∷ [])
run_queue (read ∷ events) [] = 0 ∷ run_queue events []
run_queue (read ∷ events) (c ∷ keys) = c ∷ run_queue events keys

-- No key comes while 1024 keys wait.
abbrev pub Fits : List Event → List ℕ → Type 0
Fits [] keys = Unit {0}
Fits (key c ∷ events) keys =
    (length keys < buffer_size) × Fits events (if c == 0 then keys else keys ++ c ∷ [])
Fits (read ∷ events) [] = Fits events []
Fits (read ∷ events) (c ∷ keys) = Fits events keys

-- A buffer that holds some keys answers the reads as the queue of these keys does, for any sequence
-- of keys and reads in which no key comes while 1024 keys wait.
pub run_refines :
    (events : List Event) (k : Keyboard) (keys : List ℕ)
    → Holds k keys
    → Fits events keys
    → run events (some k) ≡ run_queue events keys
unfolding run run_queue
run_refines [] k keys h fits = refl
run_refines (key c ∷ events) k keys h fits = elim (ℕ_discrete c 0) [
  | yes none_pressed ↦
      let no_key : (c == 0) ≡ true = ground arith in
      rw (skip c k none_pressed, no_key)
        (run_refines events k keys h
          (subst (λ b. Fits events (if b then keys else keys ++ c ∷ [])) no_key fits.1))
  | no press ↦
      let (l, e, holds) = push-Holds k keys c h press fits.0 in
      let other : (c == 0) ≡ false = ground arith in
      rw (e, other)
        (run_refines events l (keys ++ c ∷ []) holds
          (subst (λ b. Fits events (if b then keys else keys ++ c ∷ [])) other fits.1))
]
run_refines (read ∷ events) k [] h fits =
    rw (pop_empty k h) (ap (λ r. 0 ∷ r) (run_refines events k [] h fits))
run_refines (read ∷ events) k (c ∷ keys) h fits =
    let (l, e, holds) = pop-Holds k keys c h in
    rw e (ap (λ r. c ∷ r) (run_refines events l keys holds fits))
