-- ===== src/Process/Slots.antt =====
-- The table of processes, process_get, process_get_free_slot, process_get_child_slot and process_unlink
-- of src/task/process.c. A process is its address, and 0 is null.
use serpae_os.Common.{
  Bool, true, false, ◌||◌, List, [], ◌∷◌, ◌⊎◌, inl, inr, ◌==◌, ℕ, zero, suc, ◌+◌, ◌-◌, ◌≤◌, ◌<◌,
  ◌≡◌, ◌≢◌, refl, Option, none, some, leb, if◌then◌else◌, length, set, get_or, arith, ap, sym, ◌∙◌,
  get_or-set_self, get_or-set_ne, get_or_out, Bool-cases, dec_lt, ℕ_discrete, Status, ok, err,
  eistkn,
}
use serpae_os.Common.Int.{ℤ, pos, negsuc}
use serpae_os.Screen.{Display, process_switch}

abbrev pub max_processes : ℕ
max_processes = 13

abbrev pub total_max_processes : ℕ
total_max_processes = 50

-- The table, the processes that were given to kfree, and the display with the current process.
pub record Slots : Type 0 where
  pub processes : List ℕ
  pub freed : List ℕ
  pub display : Display

-- The end of a function: done, a panic, or a read of a process that is freed.
pub data Ended : Type 0 where
  done : Slots → Ended
  panic : Ended
  stale : Ended

abbrev pub has : ℕ → List ℕ → Bool
has p [] = false
has p (q ∷ qs) = (p == q) || has p qs

unfoldable pub process_get : ℤ → List ℕ → ℕ
process_get (negsuc n) processes = 0
process_get (pos n) processes = if leb total_max_processes n then 0 else get_or processes n 0

-- The first entry that is null from `i` on, in `rounds` entries.
unfoldable pub slot_loop : ℕ → ℕ → List ℕ → Status ℕ
slot_loop zero i processes = err eistkn
slot_loop (suc rounds) i processes =
    let rest = slot_loop rounds (i + 1) processes in
    if get_or processes i 0 == 0 then ok i else rest

unfoldable pub process_get_free_slot : List ℕ → Status ℕ
process_get_free_slot processes = slot_loop max_processes 0 processes

unfoldable pub process_get_child_slot : List ℕ → Status ℕ
process_get_child_slot processes =
    slot_loop (total_max_processes - max_processes) max_processes processes

-- The first process from `i` on that is not null, in `rounds` entries.
unfoldable pub any_loop : ℕ → ℕ → List ℕ → Option ℕ
any_loop zero i processes = none
any_loop (suc rounds) i processes =
    let rest = any_loop rounds (i + 1) processes in
    if get_or processes i 0 == 0 then rest else some (get_or processes i 0)

-- process_switch saves the video memory to the screen of the current process, which it reads from the
-- process.
unfoldable pub process_switch_to_any : Slots → Ended
process_switch_to_any s = elim (any_loop max_processes 0 s.processes) [
  | none ↦ panic
  | some process ↦
      if has s.display.current s.freed
      then stale
      else done (record s { display = process_switch s.display process })
]

-- `id` is the field of the process.
unfoldable pub process_unlink : ℕ → ℕ → Slots → Ended
process_unlink process id s =
    let cleared : Slots = record s {
      processes = set s.processes id 0;
      freed = process ∷ s.freed;
    } in
    if s.display.current == process then process_switch_to_any cleared else done cleared

-- What a search for a slot in `rounds` entries from `i` on answers: the first that is null, or an error
-- if none is.
abbrev pub Slot : ℕ → ℕ → List ℕ → Status ℕ → Type 0
Slot rounds i processes answer =
    ((j : ℕ) × (answer ≡ ok j)
      × (i ≤ j)
      × (j < i + rounds)
      × (get_or processes j 0 ≡ 0)
      × ((k : ℕ) → i ≤ k → k < j → get_or processes k 0 ≢ 0))
    ⊎ ((answer ≡ err eistkn) × ((k : ℕ) → i ≤ k → k < i + rounds → get_or processes k 0 ≢ 0))

slot_loop-Slot :
    (rounds i : ℕ) (processes : List ℕ) → Slot rounds i processes (slot_loop rounds i processes)
unfolding slot_loop
slot_loop-Slot zero i processes = inr (refl, λ k low high. absurd (omega (arith, low, high)))
slot_loop-Slot (suc rounds) i processes = elim (ℕ_discrete (get_or processes i 0) 0) [
  | yes null ↦
      let test : (get_or processes i 0 == 0) ≡ true = ground (arith, null) in
      rw (slot_loop, test)
        (inl (
          i,
          refl,
          omega arith,
          omega arith,
          null,
          λ k low high. absurd (omega (arith, low, high)),
        ))
  | no taken ↦
      let test : (get_or processes i 0 == 0) ≡ false = ground (arith, taken) in
      let more : (k : ℕ) → i ≤ k → ((k ≡ i) ⊎ (i + 1 ≤ k)) =
        λ k low. elim (ℕ_discrete k i) [ yes e ↦ inl e | no ne ↦ inr (omega (arith, low, ne)) ] in
      elim (slot_loop-Slot rounds (i + 1) processes) [
        | inl (j, found, low, high, null, before) ↦
            rw (slot_loop, test)
              (inl (
                j,
                found,
                omega (arith, low),
                omega (arith, high),
                null,
                λ k a b. elim (more k a) [ inl e ↦ rw e taken | inr later ↦ before k later b ],
              ))
        | inr (full, all) ↦
            rw (slot_loop, test)
              (inr (
                full,
                λ k a b. elim (more k a) [
                  | inl e ↦ rw e taken
                  | inr later ↦ all k later (omega (arith, b))
                ],
              ))
      ]
]

-- process_get_free_slot answers the first null entry of the 13 slots of main processes, and
-- process_get_child_slot the first one of the 37 behind them, below 50; and each the error EISTKN only if
-- none of its entries is null.
pub get_slots-Slot :
    (processes : List ℕ)
    → Slot 13 0 processes (process_get_free_slot processes)
      × Slot 37 13 processes (process_get_child_slot processes)
unfolding process_get_free_slot process_get_child_slot
get_slots-Slot processes = (slot_loop-Slot 13 0 processes, slot_loop-Slot 37 13 processes)

-- The first main process is not null.
any_loop-some :
    (rounds i j : ℕ) (processes : List ℕ)
    → i ≤ j
    → j < i + rounds
    → get_or processes j 0 ≢ 0
    → (k : ℕ) × (k < i + rounds)
      × (get_or processes k 0 ≢ 0)
      × (any_loop rounds i processes ≡ some (get_or processes k 0))
unfolding any_loop
any_loop-some zero i j processes low high taken = absurd (omega (arith, low, high))
any_loop-some (suc rounds) i j processes low high taken =
    elim (ℕ_discrete (get_or processes i 0) 0) [
      | yes null ↦
          let test : (get_or processes i 0 == 0) ≡ true = ground (arith, null) in
          let later : i ≢ j = λ e. taken (ap (λ i. get_or processes i 0) (sym e) ∙ null) in
          let (k, below, other, found) =
            any_loop-some rounds (i + 1) j processes (omega (arith, low, later))
              (omega (arith, high)) taken in
          (k, omega (arith, below), other, rw (any_loop, test) found)
      | no here ↦
          let test : (get_or processes i 0 == 0) ≡ false = ground (arith, here) in
          (i, omega arith, here, rw (any_loop, test) refl)
    ]

-- The process that is shown is one of the table.
abbrev pub IsLive : Slots → Type 0
IsLive s = (i : ℕ) × (get_or s.processes i 0 ≡ s.display.current) × (s.display.current ≢ 0)

-- A process that is in an entry of the table, but not in the first, which is taken, is unlinked. If it is
-- not the current one, its entry is null, every other entry is as before, the process is freed, and the
-- current process is one of the table still. If it is, the switch to another process reads the process
-- that is freed.
pub process_unlink-stale :
    (s : Slots) (process id : ℕ)
    → get_or s.processes 0 0 ≢ 0
    → id ≢ 0
    → process ≢ 0
    → get_or s.processes id 0 ≡ process
    → IsLive s
    → ((s.display.current ≢ process)
        × ((s' : Slots) × (process_unlink process id s ≡ done s')
            × (process_get (pos id) s'.processes ≡ 0)
            × ((i : ℕ) → i ≢ id → get_or s'.processes i 0 ≡ get_or s.processes i 0)
            × (s'.freed ≡ process ∷ s.freed)
            × IsLive s'))
      ⊎ ((s.display.current ≡ process) × (process_unlink process id s ≡ stale))
unfolding process_unlink process_switch_to_any process_get
process_unlink-stale s process id home other nonnull own (i, at, live) =
    let processes = set s.processes id 0 in
    let low : id < length s.processes = elim (dec_lt id (length s.processes)) [
      | yes h ↦ h
      | no above ↦
          let out : length s.processes ≤ id = omega arith in
          absurd (nonnull (sym own ∙ get_or_out s.processes 0 id out))
    ] in
    let gone : process_get (pos id) processes ≡ 0 = elim (Bool-cases (leb total_max_processes id)) [
      | inl e ↦ rw (process_get, e)
      | inr e ↦ rw (process_get, e) (get_or-set_self s.processes id 0 0 low)
    ] in
    elim (ℕ_discrete s.display.current process) [
      | yes e ↦
          let test : (s.display.current == process) ≡ true = ground (arith, e) in
          let home' : get_or processes 0 0 ≢ 0 =
            λ z. home (sym (get_or-set_ne s.processes id 0 0 0 other) ∙ z) in
          let (k, below, taken, found) =
            any_loop-some 13 0 0 processes (omega arith) (omega arith) home' in
          inr (e, rw (process_unlink, test, process_switch_to_any, found, test))
      | no ne ↦
          let test : (s.display.current == process) ≡ false = ground (arith, ne) in
          let apart : id ≢ i = λ e. ne (sym at ∙ ap (λ i. get_or s.processes i 0) (sym e) ∙ own) in
          inl (
            ne,
            (
              record s { processes = processes; freed = process ∷ s.freed },
              rw (process_unlink, test) refl,
              gone,
              λ k apart_k. get_or-set_ne s.processes id k 0 0 (λ e. apart_k (sym e)),
              refl,
              (i, get_or-set_ne s.processes id i 0 0 apart ∙ at, live),
            ),
          )
    ]
