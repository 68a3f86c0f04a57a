-- ===== src/Paging/Map.antt =====
-- `paging_set`, `paging_map`, `paging_map_range` and `paging_map_to`: which pages they map, and that
-- they leave all others as they were.
use serpae_os.Common.{
  ℕ, zero, suc, ◌+◌, ◌-◌, ◌*◌, ◌/◌, ◌%◌, ◌^◌, bit_or, ◌≤◌, ◌<◌, ◌≡◌, ◌≢◌, ◌⊎◌, refl, ltb, ◌==◌,
  if◌then◌else◌, ok, err, arith, sym, ◌∙◌, einvarg, ok-injective, leb, ◌&&◌,
}
use serpae_os.Common.Bits.{bit_or_flags, page_mask}
use serpae_os.Paging.{
  Memory, store, page_size, table_of, set, get, map, map_range, map_to, get_physical_address,
  align_to_lower_page,
}
use serpae_os.Paging.Layout.{Layout, entry_address, get-entry, set-store, entry-store, Layout-store}

-- What is read through `paging_get` after `paging_set`: the new entry at its page, the old one at
-- every other; and the directory keeps its layout.
pub get-set :
    (m m' : Memory) (directory p q val : ℕ)
    → Layout m directory
    → p < 2 ^ 20
    → q < 2 ^ 20
    → set m directory (p * page_size) val ≡ ok m'
    → Layout m' directory
      × (get m' directory (q * page_size)
          ≡ (if q == p then val else get m directory (q * page_size)))
get-set m m' directory p q val l hp hq e =
    let same : m' ≡ store m (entry_address m directory p) val =
      ok-injective (sym e ∙ set-store m directory p val hp) in
    rw (same, get-entry m directory q hq, get-entry _ directory q hq)
      (Layout-store l p val hp, entry-store l p q val hp hq)

-- An address that is not that of a page is refused, and so is a frame.
pub map-einvarg :
    (m : Memory) (directory virt phys flags : ℕ)
    → (virt % page_size ≢ 0) ⊎ (phys % page_size ≢ 0)
    → map m directory virt phys flags ≡ err einvarg
unfolding map
map-einvarg m directory virt phys flags h = ground arith

-- The entry for a frame: its number, with the flags in the low bits.
pub frame_entry :
    (f flags : ℕ) → flags < page_size → bit_or (f * page_size) flags ≡ f * page_size + flags
frame_entry f flags h = bit_or_flags 12 f flags h

map-store :
    (m : Memory) (directory p f flags : ℕ)
    → p < 2 ^ 20
    → flags < page_size
    → map m directory (p * page_size) (f * page_size) flags
      ≡ ok (store m (entry_address m directory p) (f * page_size + flags))
unfolding map
map-store m directory p f flags hp hf =
    rw (frame_entry f flags hf, set-store m directory p (f * page_size + flags) hp) (ground arith)

-- The pages `p`, …, `p + count - 1` are mapped to the frames from `f` on, and no other page has
-- changed.
pub record Mapped (m : Memory) (directory p f count flags : ℕ) (m' : Memory) : Type 0 where
  pub layout : Layout m' directory
  pub entries :
      (q : ℕ)
      → q < 2 ^ 20
      → get m' directory (q * page_size) ≡ (
          if leb p q && ltb q (p + count)
          then (f + (q - p)) * page_size + flags
          else get m directory (q * page_size))

-- Between whole frames `paging_map_to` is `paging_map_range`.
map_to-pages :
    (m : Memory) (directory p f count flags : ℕ)
    → map_to m directory (p * page_size) (f * page_size) ((f + count) * page_size) flags
      ≡ map_range m directory (p * page_size) (f * page_size) count flags
unfolding map_to
map_to-pages m directory p f count flags =
    let pages : ((f + count) * page_size - f * page_size) / page_size ≡ count = omega arith in
    ground arith

module _ (directory flags : ℕ) (small : flags < page_size) where
  Mapped-map :
      {m m'' : Memory} (p f count : ℕ)
      → Layout m directory
      → p + suc count ≤ 2 ^ 20
      → Mapped
          (store m (entry_address m directory p) (f * page_size + flags))
          directory
          (p + 1)
          (f + 1)
          count
          flags
          m''
      → Mapped m directory p f (suc count) flags m''
  Mapped-map {m} {m''} p f count l fits r = record {
    layout = r.layout;
    entries = λ q hq.
        let value = f * page_size + flags in
        let m' = store m (entry_address m directory p) value in
        ground (
          arith,
          r.entries q hq,
          get-entry m' directory q hq,
          get-entry m directory q hq,
          entry-store l p q value (omega arith) hq,
        );
  }

  map_range-Mapped :
      (count : ℕ) {m : Memory} (virt phys p f : ℕ)
      → Layout m directory
      → p + count ≤ 2 ^ 20
      → f + count ≤ 2 ^ 20
      → (0 < count → (virt ≡ p * page_size) × (phys ≡ f * page_size))
      → ((map_range m directory virt phys count flags).res ≡ ok tt)
        × Mapped m directory p f count flags (map_range m directory virt phys count flags).memory
  unfolding map_range
  map_range-Mapped zero virt phys p f l hp hf at =
      (refl, record { layout = l; entries = λ q hq. ground arith })
  map_range-Mapped (suc count) {m} virt phys p f l hp hf at =
      let (v, w) = at (omega arith) in
      let value = f * page_size + flags in
      let one : map m directory virt phys flags ≡ ok (store m (entry_address m directory p) value) =
        rw (v, w) (map-store m directory p f flags (omega arith) small) in
      let rest =
        map_range-Mapped count ((virt + page_size) % 2 ^ 32) ((phys + page_size) % 2 ^ 32) (p + 1)
          (f + 1) (Layout-store l p value (omega arith)) (omega arith) (omega arith)
          (λ pos. (omega arith, omega arith)) in
      rw (one, map_range) (rest.0, Mapped-map p f count l hp rest.1)

  -- `paging_map_to` of whole frames to whole pages maps them in order.
  pub map_to-Mapped :
      (m : Memory) (p f count : ℕ)
      → Layout m directory
      → p + count ≤ 2 ^ 20
      → f + count < 2 ^ 20
      → (let r =
            map_to m directory (p * page_size) (f * page_size) ((f + count) * page_size) flags in
          (r.res ≡ ok tt) × Mapped m directory p f count flags r.memory)
  map_to-Mapped m p f count l hp hf = rw (map_to-pages m directory p f count flags) (
      map_range-Mapped count (p * page_size) (f * page_size) p f l hp (omega arith)
        (λ pos. (refl, refl)))

-- Each of the four tests of `paging_map_to` refuses, and then nothing is written.
pub map_to-einvarg :
    (m : Memory) (directory virt phys phys_end flags : ℕ)
    → (virt % page_size ≢ 0)
      ⊎ (phys % page_size ≢ 0)
      ⊎ (phys_end % page_size ≢ 0)
      ⊎ (phys_end < phys)
    → map_to m directory virt phys phys_end flags ≡ record { memory = m; res = err einvarg }
unfolding map_to
map_to-einvarg m directory virt phys phys_end flags h = ground arith

-- The address that `paging_get_physical_address` answers in a page, from the entry of the page.
pub get-get_physical_address :
    (m : Memory) (directory q frame flags offset : ℕ)
    → frame < 2 ^ 20
    → flags < page_size
    → offset < page_size
    → get m directory (q * page_size) ≡ frame * page_size + flags
    → get_physical_address m directory (q * page_size + offset) ≡ frame * page_size + offset
unfolding get_physical_address align_to_lower_page table_of
get-get_physical_address m directory q frame flags offset hf small ho read =
    let lower : q * page_size + offset - (q * page_size + offset) % page_size ≡ q * page_size =
      omega arith in
    rw (lower, read) (omega (arith, page_mask (frame * page_size + flags) (omega arith)))

-- In a range that `paging_map_to` has mapped, `paging_get_physical_address` keeps the offset of an
-- address in its page, and changes the page for its frame.
pub map_to-get_physical_address :
    (m : Memory) (directory p f count flags q offset : ℕ)
    → Layout m directory
    → flags < page_size
    → p + count ≤ 2 ^ 20
    → f + count < 2 ^ 20
    → p ≤ q
    → q < p + count
    → offset < page_size
    → get_physical_address
        (map_to m directory (p * page_size) (f * page_size) ((f + count) * page_size) flags).memory
        directory
        (q * page_size + offset)
      ≡ (f + (q - p)) * page_size + offset
map_to-get_physical_address m directory p f count flags q offset l small hp hf le lt ho =
    let r = map_to m directory (p * page_size) (f * page_size) ((f + count) * page_size) flags in
    let read : get r.memory directory (q * page_size) ≡ (f + (q - p)) * page_size + flags = ground (
      arith,
      (map_to-Mapped directory flags small m p f count l hp hf).1.entries q (omega arith),
    ) in
    get-get_physical_address r.memory directory q (f + (q - p)) flags offset (omega arith) small ho
      read
