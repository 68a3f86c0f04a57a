-- ===== src/Keyboard/Queue.antt =====
-- The keyboard buffer holds a queue of at most 1024 keys, and behaves as one until a key too many.
use serpae_os.Common.{
  ℕ, suc, ◌+◌, ◌-◌, ◌%◌, ◌^◌, ◌≤◌, ◌<◌, ◌≡◌, ◌≢◌, false, some, List, [], ◌∷◌, ◌++◌, ◌==◌, length,
  set, get_or, arith, length-append, length-set, get_or-set_self, get_or-set_ne, get_or-snoc_self,
  get_or-snoc_ne, get_or_out, dec_lt, ℕ_discrete,
}
use serpae_os.Keyboard.{Keyboard, buffer_size, get_tail_index, backspace, push, pop}

-- The cells from the head on hold the keys, the first to be read first. All other cells hold 0.
pub record Holds (k : Keyboard) (keys : List ℕ) : Type 0 where
  pub size : length k.buffer ≡ buffer_size
  pub room : length keys ≤ buffer_size
  pub front : k.head < 2 ^ 32
  pub back : k.tail ≡ (k.head + length keys) % 2 ^ 32
  pub cells :
      (i : ℕ) → i < buffer_size → get_or k.buffer ((k.head + i) % buffer_size) 0 ≡ get_or keys i 0
  pub key : (i : ℕ) → i < length keys → get_or keys i 0 ≢ 0

module _ (k : Keyboard) (keys : List ℕ) (c : ℕ) (h : Holds k keys) (press : c ≢ 0) where
  pushed : Keyboard
  pushed = record {
    buffer = set k.buffer (get_tail_index k) c;
    tail = (k.tail + 1) % 2 ^ 32;
    head = k.head;
  }

  push-pushed : push c (some k) ≡ some pushed
  unfolding push pushed
  push-pushed = let other : (c == 0) ≡ false = ground arith in rw other

  pushed-Holds : length keys < buffer_size → Holds pushed (keys ++ c ∷ [])
  unfolding pushed get_tail_index
  pushed-Holds room =
      let n = length keys in
      let slot : k.tail % buffer_size ≡ (k.head + n) % buffer_size = omega (arith, h.back) in
      let full : length (keys ++ c ∷ []) ≡ n + 1 = length-append keys (c ∷ []) in
      record {
        size = omega (arith, h.size, length-set k.buffer (k.tail % buffer_size) c);
        room = omega arith;
        front = h.front;
        back = omega (arith, h.back, full);
        cells = λ i lt. elim (ℕ_discrete i n) [
          | yes e ↦
              rw (e, slot, get_or-snoc_self keys c 0)
                (get_or-set_self k.buffer ((k.head + n) % buffer_size) c 0 (omega (arith, h.size)))
          | no ne ↦
              rw (get_or-snoc_ne keys c 0 i ne, ← h.cells i lt)
                (get_or-set_ne k.buffer (k.tail % buffer_size) ((k.head + i) % buffer_size) c 0
                  (omega arith))
        ];
        key = λ i lt. elim (ℕ_discrete i n) [
          | yes e ↦ rw (e, get_or-snoc_self keys c 0) press
          | no ne ↦ rw (get_or-snoc_ne keys c 0 i ne) (h.key i (omega arith))
        ];
      }

  -- A key that is pressed while fewer than 1024 keys wait is put behind them.
  pub push-Holds :
      length keys < buffer_size
      → (l : Keyboard) × (push c (some k) ≡ some l) × Holds l (keys ++ c ∷ [])
  push-Holds room = (pushed, push-pushed, pushed-Holds room)

module _ (k : Keyboard) (h : Holds k []) where
  -- A read of an empty buffer answers 0 and changes nothing.
  pub pop_empty : pop (some k) ≡ (0, some k)
  unfolding pop
  pop_empty =
      let cell : get_or k.buffer (k.head % buffer_size) 0 ≡ 0 =
        let at : (k.head + 0) % buffer_size ≡ k.head % buffer_size = omega arith in
        rw (← at) (h.cells 0 (omega arith)) in
      ground (arith, cell)

module _ (k : Keyboard) (keys : List ℕ) (c : ℕ) (h : Holds k (c ∷ keys)) where
  popped : Keyboard
  popped = record {
    buffer = set k.buffer (k.head % buffer_size) 0;
    tail = k.tail;
    head = (k.head + 1) % 2 ^ 32;
  }

  pop-popped : pop (some k) ≡ (c, some popped)
  unfolding pop popped
  pop-popped =
      let cell : get_or k.buffer (k.head % buffer_size) 0 ≡ c =
        let at : (k.head + 0) % buffer_size ≡ k.head % buffer_size = omega arith in
        rw (← at) (h.cells 0 (omega arith)) in
      let other : (c == 0) ≡ false = let ne : c ≢ 0 = h.key 0 (omega arith) in ground arith in
      rw (cell, other)

  popped-Holds : Holds popped keys
  unfolding popped
  popped-Holds =
      let at = k.head % buffer_size in
      record {
        size = omega (arith, h.size, length-set k.buffer at 0);
        room = omega (arith, h.room);
        front = omega arith;
        back = omega (arith, h.back);
        cells = λ i lt. elim (dec_lt i (buffer_size - 1)) [
          | yes small ↦
              let slot : ((k.head + 1) % 2 ^ 32 + i) % buffer_size
                  ≡ (k.head + suc i) % buffer_size =
                omega arith in
              rw
                (slot, get_or-set_ne k.buffer at ((k.head + suc i) % buffer_size) 0 0 (omega arith))
                (h.cells (suc i) (omega arith))
          | no big ↦
              let slot : ((k.head + 1) % 2 ^ 32 + i) % buffer_size ≡ at = omega arith in
              rw (
                slot,
                get_or-set_self k.buffer at 0 0 (omega (arith, h.size)),
                get_or_out keys 0 i (omega (arith, h.room)),
              )
        ];
        key = λ i lt. h.key (suc i) (omega arith);
      }

  -- A read of a buffer that is not empty takes the first key out.
  pub pop-Holds : (l : Keyboard) × (pop (some k) ≡ (c, some l)) × Holds l keys
  pop-Holds = (popped, pop-popped, popped-Holds)

-- A backspace in a buffer that holds keys takes the last one back.
pub backspace-Holds :
    (k : Keyboard) (keys : List ℕ) (c : ℕ) → Holds k (keys ++ c ∷ []) → Holds (backspace k) keys
unfolding backspace get_tail_index
backspace-Holds k keys c h =
    let n = length keys in
    let full : length (keys ++ c ∷ []) ≡ n + 1 = length-append keys (c ∷ []) in
    let at : (k.tail + (2 ^ 32 - 1)) % 2 ^ 32 % buffer_size ≡ (k.head + n) % buffer_size =
      omega (arith, h.back, full) in
    record {
      size =
          omega
            (arith, h.size, length-set k.buffer ((k.tail + (2 ^ 32 - 1)) % 2 ^ 32 % buffer_size) 0);
      room = omega (arith, h.room, full);
      front = h.front;
      back = omega (arith, h.back, full, h.room);
      cells = λ i lt. elim (ℕ_discrete i n) [
        | yes e ↦
            rw (e, at, get_or_out keys 0 n (omega arith))
              (get_or-set_self k.buffer ((k.head + n) % buffer_size) 0 0 (omega (arith, h.size)))
        | no ne ↦
            rw
              (
                at,
                get_or-set_ne k.buffer ((k.head + n) % buffer_size) ((k.head + i) % buffer_size) 0 0
                    (omega (arith, h.room, full)),
                ← get_or-snoc_ne keys c 0 i ne,
              )
              (h.cells i lt)
      ];
      key = λ i lt.
          let ne : i ≢ n = omega arith in
          rw (← get_or-snoc_ne keys c 0 i ne) (h.key i (omega arith));
    }

-- A key, not 0, that is pressed while 1024 keys wait overwrites the first: it is read next.
pub pop-push_full :
    (k : Keyboard) (keys : List ℕ) (c : ℕ)
    → Holds k keys
    → c ≢ 0
    → length keys ≡ buffer_size
    → (pop (push c (some k))).0 ≡ c
unfolding pop push get_tail_index
pop-push_full k keys c h press full =
    let other : (c == 0) ≡ false = ground arith in
    let slot : k.tail % buffer_size ≡ k.head % buffer_size = omega (arith, h.back) in
    rw (
      other,
      slot,
      get_or-set_self k.buffer (k.head % buffer_size) c 0 (omega (arith, h.size)),
      other,
    )

-- A backspace in an empty buffer takes the tail below the head: the next key is not read.
pub push-backspace_empty :
    (k : Keyboard) (c : ℕ) → Holds k [] → c ≢ 0 → (pop (push c (some (backspace k)))).0 ≡ 0
unfolding pop push backspace get_tail_index
push-backspace_empty k c h press =
    let other : (c == 0) ≡ false = ground arith in
    let at = (k.tail + (2 ^ 32 - 1)) % 2 ^ 32 % buffer_size in
    let apart : at ≢ k.head % buffer_size = omega (arith, h.back, h.front) in
    let slot : (k.head + 0) % buffer_size ≡ k.head % buffer_size = omega arith in
    let cell : get_or k.buffer (k.head % buffer_size) 0 ≡ 0 =
      rw (← slot) (h.cells 0 (omega arith)) in
    rw (
      other,
      pop,
      get_or-set_ne (set k.buffer at 0) at (k.head % buffer_size) c 0 apart,
      get_or-set_ne k.buffer at (k.head % buffer_size) 0 0 apart,
      cell,
    )
