-- ===== src/Paging/Tests.antt =====
-- The theorems about paging at a new directory.
use serpae_os.Common.{ℕ, ◌+◌, ◌*◌, ◌≡◌, inl, refl, ok, err, arith, einvarg}
use serpae_os.Paging.{
  Memory, store, get_indexes, align_address, map, map_to, get_physical_address, new_4gb,
}
use serpae_os.Paging.Layout.{Layout, entry_address}
use serpae_os.Paging.Map.{map-einvarg, Mapped, map_to-Mapped}
use serpae_os.Paging.Identity.{Separate, new_4gb-Layout, new_4gb-get_physical_address}

abbrev zeros : Memory
zeros _ = 0

abbrev directory : ℕ
directory = 0x0100_0000

abbrev table : ℕ → ℕ
table i = 0x0200_0000 + i * 4096

pages : Separate directory table
pages = record {
  page = refl;
  pages = λ i h. omega arith;
  words = λ i h. omega arith;
  outside = λ i h. omega arith;
  distinct = λ i j p q ne. omega arith;
}

-- Present, and open to user programs: 5.
memory : Memory
memory = new_4gb zeros directory table 5

indexes : get_indexes 0x0040_3000 ≡ ok (1, 3)
unfolding get_indexes
indexes = refl

aligned_up : align_address 0x3_1234 ≡ 0x3_2000
unfolding align_address
aligned_up = refl

new_4gb-Layout_example : Layout memory directory
unfolding memory
new_4gb-Layout_example = new_4gb-Layout directory table 5 pages zeros (omega arith)

new_4gb-get_physical_address_example :
    get_physical_address memory directory 0x0040_3abc ≡ 0x0040_3abc
unfolding memory
new_4gb-get_physical_address_example =
    new_4gb-get_physical_address directory table 5 pages zeros 0x0040_3abc (omega arith)
      (omega arith)

abbrev changed : Memory
changed = store memory (entry_address memory directory 0x403) 0x7007

map-einvarg_example : map memory directory 0x1234 0x5000 7 ≡ err einvarg
map-einvarg_example = map-einvarg memory directory 0x1234 0x5000 7 (inl (omega arith))

map_to-Mapped_example :
    let r = map_to memory directory (0x400 * 4096) (0x1800 * 4096) ((0x1800 + 4) * 4096) 7 in
    (r.res ≡ ok tt) × Mapped memory directory 0x400 0x1800 4 7 r.memory
map_to-Mapped_example =
    map_to-Mapped directory 7 (omega arith) memory 0x400 0x1800 4 new_4gb-Layout_example
      (omega arith) (omega arith)
