-- ===== src/Files/Tests.antt =====
-- The theorems about open files, with a driver that always succeeds.
use serpae_os.Common.{
  ℕ, ◌+◌, ◌≡◌, ◌≢◌, Option, none, some, List, [], ◌∷◌, ◌++◌, length, get_or, replicate, arith, sym,
  ◌∙◌, length-replicate, get_or-replicate_same, some_ne, ok, err, eio, einvarg,
}
use serpae_os.PathParser.{PathRoot, parse}
use serpae_os.PathParser.RoundTrip.{print, parse-print}
use serpae_os.Files.{
  Filesystem, Disk, Files, FileDescriptor, first_free, new_descriptor, get_mode_by_string,
  mode_loop, disk_get, open_with, fopen, fclose, fdelete,
}
use serpae_os.Files.Table.{IsTable}
use serpae_os.Files.Descriptors.{fclose-fopen_last}

-- The state counts the calls. Private pointers are 7, and no file can be deleted.
driver : ℕ → Filesystem ℕ (Unit {0})
driver _ = record {
  open_file = λ disk parts mode s. (ok 7, s + 1);
  read = λ disk private size s. (ok (1, replicate size 0), s + 1);
  seek = λ private offset whence s. (ok 0, s + 1);
  stat = λ disk private s. (ok (0, tt), s + 1);
  close = λ private s. (ok 0, s + 1);
  write = λ disk private buf s. (ok (length buf), s + 1);
  delete = λ disk private s. (err eio, s + 1);
  ftell = λ private s. (ok 0, s + 1);
}

-- Drive 0 has a file system.
abbrev disks : List Disk
disks = record { dev = 1; filesystem = 1 } ∷ replicate 12 (record { dev = 0; filesystem = 0 })

abbrev empty : Files ℕ
empty = record { descriptors = replicate 512 none; freed = []; fs = 0 }

-- "0:/a"
abbrev root : PathRoot
root = record { drive_no = 0; parts = (97 ∷ []) ∷ [] }

parsed : parse (print root) ≡ some root
parsed =
    parse-print root (omega arith) (ground arith, (ground arith, ground arith, tt), tt)
      (omega arith)

-- "r"
abbrev mode : List ℕ
mode = 114 ∷ []

opened : (fopen driver disks (print root) mode empty).0 ≡ ok 1
unfolding fopen open_with get_mode_by_string mode_loop disk_get first_free new_descriptor driver
opened = rw (fopen, parsed)

empty-IsTable : IsTable empty.descriptors
empty-IsTable = record {
  size = length-replicate {A = Option FileDescriptor} 512 none;
  indexes = λ i desc e. absurd (some_ne desc (sym e ∙ get_or-replicate_same 512 i none));
}

-- All entries but the last are taken.
abbrev nearly_full : Files ℕ
nearly_full = record {
  descriptors =
      replicate 511 (some (record { index = 1; filesystem = 1; private = 7; disk = 0; mode = 1 }))
      ++ none ∷ [];
  freed = [];
  fs = 0;
}

opened_last : (fopen driver disks (print root) mode nearly_full).0 ≡ ok 512
unfolding fopen open_with get_mode_by_string mode_loop disk_get first_free new_descriptor driver
opened_last = rw (fopen, parsed)

fclose-fopen_last_example :
    let g = (fopen driver disks (print root) mode nearly_full).1 in
    (get_or g.descriptors 511 none ≢ none)
    × (fclose driver disks 512 g ≡ (err eio, g))
    × (fdelete driver disks 512 g ≡ (err einvarg, g))
fclose-fopen_last_example = fclose-fopen_last driver disks nearly_full (print root) mode opened_last
