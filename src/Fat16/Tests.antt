-- ===== src/Fat16/Tests.antt =====
-- The theorems about FAT16 volumes, on a disk whose sectors are a function.
use serpae_os.Common.{
  ℕ, zero, suc, ◌++◌, get_or, ◌+◌, ◌-◌, ◌*◌, ◌%◌, ◌^◌, ◌≤◌, ◌<◌, ◌≡◌, ◌≢◌, ◌⊎◌, inl, refl, true,
  false, ◌&&◌, ◌||◌, none, some, List, [], ◌∷◌, ltb, leb, ◌==◌, if◌then◌else◌, take, drop,
  get_elem?, arith, ok, err, enodiskspace,
}
use serpae_os.Streamer.{sector_size, Controller, Disk, read_block, write_block}
use serpae_os.Streamer.Read.{bytes_of, Readable}
use serpae_os.Streamer.Write.{Works, put_all}
use serpae_os.Fat16.{
  Volume, read_internal, write_at, follow, get_cluster_for_offset, cluster_to_sector,
  sector_to_absolute,
}
use serpae_os.Fat16.Table.{fat_of, read_at-bytes_of}
use serpae_os.Fat16.Follow.{ArePlain}
use serpae_os.Fat16.Reads.{IsPlaced, file_bytes, read_internal-file_bytes}
use serpae_os.Fat16.Chains.{
  find_last_cluster_of_chain, get_cluster_chain, count_clusters_in_chain, u16, cluster_limit,
  add_cluster_to_chain,
}
use serpae_os.Fat16.Chains.Walk.{IsChain, walk-IsChain}
use serpae_os.Fat16.Names.RoundTrip.{string_to_fat_filename-full_name}
use serpae_os.Fat16.Directory.{
  has_name, bytes_of_item, get_first_cluster, new_fat_item_for_directory_item, load_fat_directory,
  items_of, DirectoryItem, Directory, file, directory, find_entry_in_directory,
}
use serpae_os.Fat16.Directory.Find.{HasName, IsFirst, find_entry_in_directory-IsFirst}
use serpae_os.Fat16.Directory.Count.{get_total_items_for_directory-live}
use serpae_os.Fat16.Files.{FatFile}
use serpae_os.Fat16.Lookup.{
  find_item_in_directory, get_directory_entry, get_directory_entry-Leads, found, get_parent_dir,
}
use serpae_os.Fat16.Update.{with_filesize, item_position}
use serpae_os.Fat16.Write.{grown_size}
use serpae_os.Str.{istrncmp, tolower, toupper}
use serpae_os.Fat16.Chains.Grow.{FirstFree, linked, add_cluster_to_chain-IsChain}
use serpae_os.Fat16.Names.{
  get_full_relative_filename, full_name, to_proper_string, string_to_fat_filename,
}

abbrev Sectors : Type 0
Sectors = ℕ → List ℕ

abbrev ata : Controller Sectors
ata = record {
  read_sector = λ lba s. ok (s lba);
  write_sector = λ lba buf s l. if l == lba then buf else s l;
}

abbrev disk : Disk
disk = record { dev = 1; is_partition = true; offset = 63 }

-- A table of 256 sectors behind one reserved, and a root directory of 16 entries.
abbrev volume : Volume
volume = record {
  sectors_per_cluster = 1;
  reserved_sectors = 1;
  fat_copies = 1;
  sectors_per_fat = 256;
  root_dir_entries = 16;
  sectors_big = 20;
  ending_sector_pos = 258;
}

-- The entry of foo.txt, whose first cluster is 3.
abbrev foo : DirectoryItem
foo = record {
  filename = 70 ∷ 79 ∷ 79 ∷ 32 ∷ 32 ∷ 32 ∷ 32 ∷ 32 ∷ [];
  ext = 84 ∷ 88 ∷ 84 ∷ [];
  attribute = 0;
  reserved = 0;
  creation_time_tenths_of_a_sec = 0;
  creation_time = 0;
  creation_date = 0;
  last_access = 0;
  high_16_bits_first_cluster = 0;
  last_mod_time = 0;
  last_mod_date = 0;
  low_16_bits_first_cluster = 3;
  filesize = 600;
}

-- The entry of the directory sub, whose cluster is 5.
abbrev sub : DirectoryItem
sub = record {
  filename = 83 ∷ 85 ∷ 66 ∷ 32 ∷ 32 ∷ 32 ∷ 32 ∷ 32 ∷ [];
  ext = 32 ∷ 32 ∷ 32 ∷ [];
  attribute = 0x10;
  reserved = 0;
  creation_time_tenths_of_a_sec = 0;
  creation_time = 0;
  creation_date = 0;
  last_access = 0;
  high_16_bits_first_cluster = 0;
  last_mod_time = 0;
  last_mod_date = 0;
  low_16_bits_first_cluster = 5;
  filesize = 0;
}

-- Sector 257 holds the two entries. Cluster 3 leads to cluster 4, the last; their bytes are not 0. Sector 262 starts with 0xE5.
abbrev contents : ℕ → ℕ
contents p =
    if p == 518
    then 4
    else if p == 520 || p == 521
    then 255
    else if leb 131584 p && ltb p 131648
    then get_or (bytes_of_item foo ++ bytes_of_item sub) (p - 131584) 0
    else if leb 132608 p && ltb p 133632
    then 1 + p % 255
    else if p == 134144
    then 0xE5
    else 0

abbrev sectors : Sectors
sectors l = bytes_of contents ((l - 63) * sector_size) sector_size

readable : Readable ata disk sectors contents
unfolding read_block
readable = record { block = λ lba. let l : lba + 63 - 63 ≡ lba = omega arith in rw l }

works : Works ata disk
unfolding read_block write_block
works = record {
  stored = λ s lba buf size. (
    _,
    refl,
    (let same : (lba + 63 == lba + 63) ≡ true = ground arith in rw same),
    λ other ne. let apart : (other + 63 == lba + 63) ≡ false = ground arith in rw apart,
  );
}

abbrev root : Directory
root = record { items = foo ∷ sub ∷ []; total = 2; sector_pos = 257 }

chain : IsChain (fat_of volume contents) 3 (4 ∷ [])
chain = (refl, omega arith, (omega arith, omega arith))

plain : ArePlain (4 ∷ [])
plain = (
  (
    λ e. absurd (omega (arith, e)),
    λ e. absurd (omega (arith, e)),
    λ e. absurd (omega (arith, e)),
    λ e. absurd (omega (arith, e)),
    λ e. absurd (omega (arith, e)),
    λ e. absurd (omega (arith, e)),
  ),
  tt,
)

placed : (q : ℕ) → q ≤ 1 → IsPlaced volume (get_or (3 ∷ 4 ∷ []) q 0)
placed zero h = (omega arith, omega arith)
placed (suc zero) h = (omega arith, omega arith)
placed (suc (suc q)) h = absurd (omega (arith, h))

read_internal-file_bytes_example :
    read_internal ata disk volume 2 3 0 600 sectors
    ≡ some (file_bytes volume contents (3 ∷ 4 ∷ []) 0 600, 0)
read_internal-file_bytes_example =
    read_internal-file_bytes ata disk volume sectors contents readable 3 (4 ∷ []) chain plain
      (omega arith) placed 2 0 0 600 (omega arith) (inl refl) (omega arith) (omega arith)
      (omega arith)

walk-IsChain_example :
    (find_last_cluster_of_chain ata disk volume 2 3 sectors ≡ some 4)
    × (get_cluster_chain ata disk volume 2 3 sectors ≡ some (3 ∷ 4 ∷ []))
    × (count_clusters_in_chain ata disk volume 2 1 3 sectors ≡ some 2)
walk-IsChain_example =
    walk-IsChain ata disk volume sectors contents readable (4 ∷ []) 2 3 chain (omega arith)

add_cluster_to_chain-IsChain_example :
    ((f : ℕ) × (after : Sectors) × FirstFree (fat_of volume contents) (cluster_limit volume) 3 f
      × (add_cluster_to_chain ata disk volume [] 2 3 sectors
          ≡ some (record { disk = after; res = ok 0 }))
      × Readable ata disk after (linked volume contents 4 f)
      × IsChain (fat_of volume (linked volume contents 4 f)) 3 (4 ∷ f ∷ [])
      × ((x : ℕ)
          → x < 2 ^ 16
          → x ≢ 4
          → x ≢ f
          → fat_of volume (linked volume contents 4 f) x ≡ fat_of volume contents x))
    ⊎ (((x : ℕ) → 3 ≤ x → x ≤ cluster_limit volume → u16 (fat_of volume contents x) ≢ 0)
        × (add_cluster_to_chain ata disk volume [] 2 3 sectors
            ≡ some (record { disk = sectors; res = err enodiskspace })))
add_cluster_to_chain-IsChain_example =
    add_cluster_to_chain-IsChain ata disk volume [] sectors contents readable works (omega arith)
      (omega arith) (omega arith) 3 (4 ∷ []) chain plain (omega arith) 2 (omega arith)

-- The path 0:/foo.txt, open for writing.
abbrev path : List ℕ × List (List ℕ)
path = (102 ∷ 111 ∷ 111 ∷ 46 ∷ 116 ∷ 120 ∷ 116 ∷ [], [])

abbrev opened : FatFile
opened = record { path = path; item = file foo; pos = 512; mode = 2 }

-- The text a.c.
string_to_fat_filename-full_name_example :
    (string_to_fat_filename (97 ∷ 46 ∷ 99 ∷ [])
      ≡ 65 ∷ 32 ∷ 32 ∷ 32 ∷ 32 ∷ 32 ∷ 32 ∷ 32 ∷ 67 ∷ 32 ∷ 32 ∷ [])
    × (full_name
          (take 8 (string_to_fat_filename (97 ∷ 46 ∷ 99 ∷ [])))
          (drop 8 (string_to_fat_filename (97 ∷ 46 ∷ 99 ∷ [])))
        ≡ 65 ∷ 46 ∷ 67 ∷ [])
unfolding toupper
string_to_fat_filename-full_name_example =
    string_to_fat_filename-full_name (97 ∷ []) (99 ∷ [])
      (
        (
          λ e. absurd (omega (arith, e)),
          λ e. absurd (omega (arith, e)),
          λ e. absurd (omega (arith, e)),
        ),
        tt,
      )
      (
        (
          λ e. absurd (omega (arith, e)),
          λ e. absurd (omega (arith, e)),
          λ e. absurd (omega (arith, e)),
        ),
        tt,
      )
      (omega arith) (omega arith) (omega arith)

-- The part sub.
abbrev sub_part : List ℕ
sub_part = 115 ∷ 117 ∷ 98 ∷ []

abbrev sub_directory : Directory
sub_directory = record { items = []; total = 0; sector_pos = 261 }

sub_entry : find_entry_in_directory root.items 2 sub_part ≡ some 1
unfolding find_entry_in_directory has_name get_full_relative_filename full_name to_proper_string
    istrncmp tolower
sub_entry = refl

no_bytes : read_internal ata disk volume 1 5 0 0 sectors ≡ some ([], 0)
unfolding read_internal get_cluster_for_offset follow cluster_to_sector sector_to_absolute
no_bytes =
    let copied = read_at-bytes_of ata disk sectors contents readable 133632 0 in
    rw (read_internal, get_cluster_for_offset, follow, copied, copied)

sub_found :
    find_item_in_directory ata disk volume 1 sectors root sub_part ≡ found (directory sub_directory)
unfolding cluster_to_sector find_item_in_directory new_fat_item_for_directory_item
    load_fat_directory items_of get_first_cluster
sub_found =
    let total =
      (get_total_items_for_directory-live ata disk sectors contents readable 0 1 261 refl
        (omega arith)).0 in
    rw (
      find_item_in_directory, sub_entry, new_fat_item_for_directory_item, load_fat_directory, total,
      no_bytes,
    )

get_directory_entry-Leads_example :
    (get_directory_entry ata disk volume 1 sectors root sub_part ((120 ∷ []) ∷ [])
      ≡ find_item_in_directory ata disk volume 1 sectors sub_directory (120 ∷ []))
    × (get_parent_dir ata disk volume 1 sectors root sub_part ((120 ∷ []) ∷ [])
        ≡ found (directory sub_directory))
get_directory_entry-Leads_example =
    get_directory_entry-Leads ata disk volume 1 sectors root sub_directory sub_part (120 ∷ []) []
      (sub_directory, sub_found, refl)

find_entry_in_directory-IsFirst_example :
    ((i : ℕ) × (find_entry_in_directory root.items 2 sub_part ≡ some i)
      × IsFirst root.items 2 sub_part i)
    ⊎ ((find_entry_in_directory root.items 2 sub_part ≡ none)
        × ((j : ℕ) (item : DirectoryItem)
            → j < 2
            → get_elem? root.items j ≡ some item
            → ¬ HasName sub_part item))
find_entry_in_directory-IsFirst_example = find_entry_in_directory-IsFirst root.items 2 sub_part

-- What the disk holds with the entry of foo.txt stored with ten bytes more.
abbrev stored : Sectors
stored =
    write_at ata disk [] (item_position root 0)
      (bytes_of_item (with_filesize foo (grown_size foo 10))) sectors

-- Ten bytes are lost: the position is 512, the start of the second cluster.
abbrev stored_contents : ℕ → ℕ
stored_contents =
    put_all contents (item_position root 0) (bytes_of_item (with_filesize foo (grown_size foo 10)))
