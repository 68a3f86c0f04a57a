-- ===== src/Files.antt =====
-- Open files, src/fs/file.c, over the drivers of the file systems. A pointer to a `struct
-- filesystem` is a number, 0 for null; what its functions do is a parameter. As the code does, the
-- model takes it for granted that `kzalloc` succeeds.
pub mod Table
mod Tests
pub mod Close
pub mod Descriptors
pub mod Open
pub mod Balance
pub mod Mode
use serpae_os.Common.{
  ℕ, zero, suc, ◌+◌, ◌-◌, ◌*◌, ◌/◌, ◌%◌, ◌^◌, ◌≤◌, ◌<◌, ◌≡◌, ◌≢◌, ◌↔◌, ◌⊎◌, inl, inr, refl, Bool,
  true, false, not, ◌&&◌, ◌||◌, Option, none, some, List, [], ◌∷◌, ◌++◌, map, ltb, leb, ◌==◌,
  if◌then◌else◌, length, take, drop, set, get_or, get_elem?, replicate, arith, ap, ap₂, sym, ◌∙◌,
  length-append, length-set, get_or-set_self, get_or-set_ne, set-set, get_or-replicate, get_or_ext,
  length-replicate, length-take, length-drop, get_or-snoc_self, get_or-snoc_ne, get_or_out,
  List-cases, Option-cases, Bool-cases, range_cases, tests, dec_lt, dec_le, ℕ_discrete, Status, ok,
  err, bit_or, eio, einvarg, enomem,
}
use serpae_os.PathParser.{PathRoot, parse}
use serpae_os.Str.{peek, next}

abbrev pub max_file_descriptors : ℕ
max_file_descriptors = 512

abbrev pub max_disks : ℕ
max_disks = 13

abbrev pub mode_read : ℕ
mode_read = 1

abbrev pub mode_write : ℕ
mode_write = 2

abbrev pub mode_append : ℕ
mode_append = 4

-- `struct filesystem` on a state `S`: the contents of the disks, and what stands behind the private
-- pointers. `open_file`, its `open`, answers a private pointer. `Stat` is `struct filestat`.
pub record Filesystem (S Stat : Type 0) : Type 0 where
  pub open_file : ℕ → List (List ℕ) → ℕ → S → Status ℕ × S
  pub read : ℕ → ℕ → ℕ → S → Status (ℕ × List ℕ) × S
  pub seek : ℕ → ℕ → ℕ → S → Status ℕ × S
  pub stat : ℕ → ℕ → S → Status (ℕ × Stat) × S
  pub close : ℕ → S → Status ℕ × S
  pub write : ℕ → ℕ → List ℕ → S → Status ℕ × S
  pub delete : ℕ → ℕ → S → Status ℕ × S
  pub ftell : ℕ → S → Status ℕ × S

-- The fields of `struct disk` that are used here.
pub record Disk : Type 0 where
  pub dev : ℕ
  pub filesystem : ℕ

pub record FileDescriptor : Type 0 where
  pub index : ℕ
  pub filesystem : ℕ
  pub private : ℕ
  pub disk : ℕ
  pub mode : ℕ

abbrev pub Table : Type 0
Table = List (Option FileDescriptor)

-- The table of descriptors, the private pointers that were given to `kfree` here, and the state of
-- the file systems.
pub record Files (S : Type 0) : Type 0 where
  pub descriptors : Table
  pub freed : List ℕ
  pub fs : S

-- The number of the first entry that is null.
unfoldable pub first_free : Table → Option ℕ
first_free [] = none
first_free (none ∷ table) = some 0
first_free (some desc ∷ table) = elim (first_free table) [ none ↦ none | some i ↦ some (suc i) ]

free_descriptor : FileDescriptor → Table → Table
free_descriptor desc table = set table (desc.index - 1) none

-- `file_new_descriptor`, which leaves all fields but the index 0: descriptors start at 1.
unfoldable pub new_descriptor : Table → Status FileDescriptor × Table
new_descriptor table = elim (first_free table) [
  | none ↦ (err enomem, table)
  | some i ↦
      let desc : FileDescriptor = record {
        index = i + 1;
        filesystem = 0;
        private = 0;
        disk = 0;
        mode = 0;
      } in
      (ok desc, set table i (some desc))
]

unfoldable pub get_descriptor : ℕ → Table → Option FileDescriptor
get_descriptor fd table =
    if leb fd 0 || leb max_file_descriptors fd then none else get_or table (fd - 1) none

-- `disk_get` of src/disk/disk.c.
unfoldable pub disk_get : List Disk → ℕ → Option Disk
disk_get disks index =
    let disk = get_or disks index (record { dev = 0; filesystem = 0 }) in
    if ltb (max_disks - 1) index then none else if leb disk.dev 0 then none else some disk

unfoldable pub mode_loop : ℕ → List ℕ → ℕ
mode_loop mode [] = mode
mode_loop mode (c ∷ str) =
    let one =
      if c == b'r' || c == b'R'
      then bit_or mode mode_read
      else if c == b'w' || c == b'W'
      then bit_or mode mode_write
      else if c == b'a' || c == b'A'
      then bit_or mode mode_append
      else mode in
    let rest = mode_loop one str in if c == 0 then mode else rest

unfoldable pub get_mode_by_string : List ℕ → ℕ
unfolding mode_loop
get_mode_by_string str = mode_loop 0 str

module _ {S Stat : Type 0} (driver : ℕ → Filesystem S Stat) (disks : List Disk) where
  -- The end of `fopen` after an error: the private pointer is freed if it is not null. `open`
  -- answers its errors as pointers.
  fail : ℕ → ℕ → Files S → Status ℕ × Files S
  fail e private f = (
    err e,
    record {
      descriptors = f.descriptors;
      freed = if private == 0 then f.freed else private ∷ f.freed;
      fs = f.fs;
    },
  )

  -- `fopen` with a driver that is known, the path parsed, and the mode read.
  unfoldable pub open_with : ℕ → ℕ → List (List ℕ) → ℕ → Files S → Status ℕ × Files S
  unfolding fail new_descriptor
  open_with filesystem disk parts mode f =
      let (opened, fs) = (driver filesystem).open_file disk parts mode f.fs in
      let after : Files S = record { descriptors = f.descriptors; freed = f.freed; fs = fs } in
      elim opened [
        | err e ↦ fail e (2 ^ 32 - e) after
        | ok private ↦
            let (found, table) = new_descriptor f.descriptors in
            elim found [
              | err e ↦ fail e private after
              | ok desc ↦
                  let filled : FileDescriptor = record {
                    index = desc.index;
                    filesystem = filesystem;
                    private = private;
                    disk = disk;
                    mode = mode;
                  } in
                  (
                    ok desc.index,
                    record {
                      descriptors = set table (desc.index - 1) (some filled);
                      freed = f.freed;
                      fs = fs;
                    },
                  )
            ]
      ]

  -- The `path_root` that `fopen` frees holds nothing else that is modelled, and is left out.
  unfoldable pub fopen : List ℕ → List ℕ → Files S → Status ℕ × Files S
  unfolding open_with fail
  fopen filename mode_str f = elim (parse filename) [
    | none ↦ fail einvarg 0 f
    | some root ↦ elim root.parts [
      | [] ↦ fail einvarg 0 f
      | part ∷ parts ↦ elim (disk_get disks root.drive_no) [
        | none ↦ fail eio 0 f
        | some disk ↦
            let mode = get_mode_by_string mode_str in
            if disk.filesystem == 0
            then fail eio 0 f
            else if mode == 0
            then fail einvarg 0 f
            else open_with disk.filesystem root.drive_no (part ∷ parts) mode f
      ]
    ]
  ]

  -- A call of the driver of an open file, with the error that the function answers for others.
  unfoldable pub with_descriptor {ℓ} :
      {A : Type ℓ}
      → ℕ
      → ℕ
      → (FileDescriptor → Filesystem S Stat → S → Status A × S)
      → Files S
      → Status A × Files S
  with_descriptor fd refused call f = elim (get_descriptor fd f.descriptors) [
    | none ↦ (err refused, f)
    | some desc ↦
        let (res, fs) = call desc (driver desc.filesystem) f.fs in
        (res, record { descriptors = f.descriptors; freed = f.freed; fs = fs })
  ]

  unfoldable pub fstat : ℕ → Files S → Status (ℕ × Stat) × Files S
  unfolding with_descriptor
  fstat fd f = with_descriptor fd eio (λ desc fs s. fs.stat desc.disk desc.private s) f

  pub fclose : ℕ → Files S → Status ℕ × Files S
  unfolding free_descriptor
  fclose fd f = elim (get_descriptor fd f.descriptors) [
    | none ↦ (err eio, f)
    | some desc ↦
        let (res, fs) = (driver desc.filesystem).close desc.private f.fs in
        (
          res,
          record {
            descriptors = elim res [
              | ok n ↦ if n == 0 then free_descriptor desc f.descriptors else f.descriptors
              | err e ↦ f.descriptors
            ];
            freed = f.freed;
            fs = fs;
          },
        )
  ]

  pub fseek : ℕ → ℕ → ℕ → Files S → Status ℕ × Files S
  unfolding with_descriptor
  fseek fd offset whence f =
      with_descriptor fd eio (λ desc fs s. fs.seek desc.private offset whence s) f

  -- The answer is the number of items that were read, and the bytes.
  unfoldable pub fread : ℕ → ℕ → Files S → Status (ℕ × List ℕ) × Files S
  unfolding with_descriptor
  fread fd size f =
      if size == 0 || ltb fd 1
      then (err einvarg, f)
      else with_descriptor fd einvarg (λ desc fs s. fs.read desc.disk desc.private size s) f

  -- `none` is a null buffer.
  pub fwrite : ℕ → Option (List ℕ) → ℕ → Files S → Status ℕ × Files S
  unfolding with_descriptor
  fwrite fd none size f = (err einvarg, f)
  fwrite fd (some buf) size f =
      if leb fd 0 || size == 0
      then (err einvarg, f)
      else with_descriptor fd einvarg
          (λ desc fs s. fs.write desc.disk desc.private (take size buf) s) f

  pub ftell : ℕ → Files S → Status ℕ × Files S
  unfolding with_descriptor
  ftell fd f =
      if leb fd 0
      then (err einvarg, f)
      else with_descriptor fd einvarg (λ desc fs s. fs.ftell desc.private s) f

  -- The descriptor is freed also if the file could not be deleted.
  pub fdelete : ℕ → Files S → Status ℕ × Files S
  unfolding free_descriptor
  fdelete fd f = if ltb fd 1 then (err einvarg, f) else elim (get_descriptor fd f.descriptors) [
    | none ↦ (err einvarg, f)
    | some desc ↦
        let (res, fs) = (driver desc.filesystem).delete desc.disk desc.private f.fs in
        (res, record { descriptors = free_descriptor desc f.descriptors; freed = f.freed; fs = fs })
  ]
