-- ===== src/Keyboard.antt =====
-- The keyboard buffer of a process, src/keyboard/keyboard.c and `struct keyboard_buffer` of
-- src/task/process.h. `tail` and `head` are taken as words of 32 bits, since `%` by a `sizeof` is
-- unsigned, also for a tail below 0.
pub mod Queue
pub mod Refine
mod Tests
use serpae_os.Common.{
  ℕ, zero, suc, ◌+◌, ◌-◌, ◌*◌, ◌/◌, ◌%◌, ◌^◌, ◌≤◌, ◌<◌, ◌≡◌, ◌≢◌, ◌↔◌, ◌⊎◌, inl, inr, refl, Bool,
  true, false, not, ◌&&◌, ◌||◌, Option, none, some, List, [], ◌∷◌, ◌++◌, map, ltb, leb, ◌==◌,
  if◌then◌else◌, length, take, drop, set, get_or, get_elem?, replicate, arith, ap, ap₂, sym, ◌∙◌,
  length-append, length-set, get_or-set_self, get_or-set_ne, set-set, get_or-replicate, get_or_ext,
  length-replicate, length-take, length-drop, List-cases, Option-cases, Bool-cases, range_cases,
  tests, dec_lt, dec_le, ℕ_discrete, Status, ok, err,
}

abbrev pub buffer_size : ℕ
buffer_size = 1024

pub record Keyboard : Type 0 where
  pub buffer : List ℕ
  pub tail : ℕ
  pub head : ℕ

unfoldable pub get_tail_index : Keyboard → ℕ
get_tail_index k = k.tail % buffer_size

pub backspace : Keyboard → Keyboard
unfolding get_tail_index
backspace k =
    let tail = (k.tail + (2 ^ 32 - 1)) % 2 ^ 32 in
    let real_index = get_tail_index (record { buffer = k.buffer; tail = tail; head = k.head }) in
    record { buffer = set k.buffer real_index 0; tail = tail; head = k.head }

-- `none` is that there is no current process.
unfoldable pub push : ℕ → Option Keyboard → Option Keyboard
push c none = none
push c (some k) =
    if c == 0
    then some k
    else some (record {
      buffer = set k.buffer (get_tail_index k) c;
      tail = (k.tail + 1) % 2 ^ 32;
      head = k.head;
    })

pub pop : Option Keyboard → ℕ × Option Keyboard
pop none = (0, none)
pop (some k) =
    let real_index = k.head % buffer_size in
    let c = get_or k.buffer real_index 0 in
    if c == 0 then (0, some k) else (
      c,
      some (record {
        buffer = set k.buffer real_index 0;
        tail = k.tail;
        head = (k.head + 1) % 2 ^ 32;
      }),
    )
