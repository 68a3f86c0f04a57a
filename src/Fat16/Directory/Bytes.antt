-- ===== src/Fat16/Directory/Bytes.antt =====
-- An entry of a directory and its 32 bytes, src/fs/fat/fat16_common.h.
use serpae_os.Common.{
  ℕ, zero, suc, ◌+◌, ◌*◌, ◌/◌, ◌%◌, ◌^◌, ◌<◌, ◌≡◌, refl, List, [], ◌∷◌, length, drop, get_or, arith,
  ap,
}
use mathlib.Core.Path.{subst}
use serpae_os.Fat16.Directory.{item_size, DirectoryItem, item_of, bytes_of_item}

-- An entry whose fields fit their bytes.
pub record IsPacked (i : DirectoryItem) : Type 0 where
  pub name : length i.filename ≡ 8
  pub extension : length i.ext ≡ 3
  pub times : (i.creation_time < 2 ^ 16) × (i.creation_date < 2 ^ 16) × (i.last_access < 2 ^ 16)
  pub mods : (i.last_mod_time < 2 ^ 16) × (i.last_mod_date < 2 ^ 16)
  pub clusters : (i.high_16_bits_first_cluster < 2 ^ 16) × (i.low_16_bits_first_cluster < 2 ^ 16)
  pub size : i.filesize < 2 ^ 32

word : (w : ℕ) → w < 2 ^ 16 → w % 256 + 256 * (w / 256 % 256) ≡ w
word w h = omega arith

-- The first elements of a list, with 0 where it is shorter.
firsts : ℕ → List ℕ → List ℕ
firsts zero xs = []
firsts (suc n) xs = get_or xs 0 0 ∷ firsts n (drop 1 xs)

firsts_lem : (n : ℕ) (xs : List ℕ) → length xs ≡ n → firsts n xs ≡ xs
unfolding firsts
firsts_lem zero [] h = refl
firsts_lem zero (x ∷ xs) h = absurd (omega arith)
firsts_lem (suc n) [] h = absurd (omega arith)
firsts_lem (suc n) (x ∷ xs) h = ap (λ r. x ∷ r) (firsts_lem n xs (omega arith))

named : List ℕ → List ℕ → DirectoryItem → DirectoryItem
named name extension i = record {
  filename = name;
  ext = extension;
  attribute = i.attribute;
  reserved = i.reserved;
  creation_time_tenths_of_a_sec = i.creation_time_tenths_of_a_sec;
  creation_time = i.creation_time;
  creation_date = i.creation_date;
  last_access = i.last_access;
  high_16_bits_first_cluster = i.high_16_bits_first_cluster;
  last_mod_time = i.last_mod_time;
  last_mod_date = i.last_mod_date;
  low_16_bits_first_cluster = i.low_16_bits_first_cluster;
  filesize = i.filesize;
}

Kept : DirectoryItem → Type 0
Kept i = (item_of (bytes_of_item i) ≡ i) × (length (bytes_of_item i) ≡ item_size)

firsts-Kept :
    (i : DirectoryItem) → IsPacked i → Kept (named (firsts 8 i.filename) (firsts 3 i.ext) i)
unfolding item_of bytes_of_item firsts named Kept
firsts-Kept i p =
    let low = word (i.filesize % 65536) (omega arith) in
    let high = word (i.filesize / 65536) (omega (arith, p.size)) in
    let both : i.filesize % 65536 + 65536 * (i.filesize / 65536) ≡ i.filesize = omega arith in
    (
      rw (
        word i.creation_time p.times.0,
        word i.creation_date p.times.1,
        word i.last_access p.times.2,
        word i.last_mod_time p.mods.0,
        word i.last_mod_date p.mods.1,
        word i.high_16_bits_first_cluster p.clusters.0,
        word i.low_16_bits_first_cluster p.clusters.1,
        low,
        high,
        both,
      ),
      refl,
    )

-- The bytes of an entry whose fields fit are 32, and give the entry back.
pub item_of-bytes_of_item :
    (i : DirectoryItem)
    → IsPacked i
    → (item_of (bytes_of_item i) ≡ i) × (length (bytes_of_item i) ≡ item_size)
unfolding named Kept
item_of-bytes_of_item i p =
    subst (λ name. Kept (named name i.ext i)) (firsts_lem 8 i.filename p.name)
      (subst (λ e. Kept (named (firsts 8 i.filename) e i)) (firsts_lem 3 i.ext p.extension)
        (firsts-Kept i p))
