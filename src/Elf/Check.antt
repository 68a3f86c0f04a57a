-- ===== src/Elf/Check.antt =====
-- The header that elf_validate_loaded of src/loader/formats/elfloader.c accepts.
use serpae_os.Common.{
  ℕ, zero, suc, ◌+◌, ◌<◌, ◌≡◌, ◌≢◌, ◌↔◌, ◌⊎◌, refl, true, arith, ap, sym, ◌∙◌, ok,
}
use serpae_os.Bytes.{Memory, memcmp}
use serpae_os.Elf.{
  elf_validate_loaded, elf_valid_signature, elf_valid_class, elf_valid_encoding,
  elf_has_program_header, e_phoff, ei_class, ei_data,
}
use serpae_os.Common.Int.{ℤ, pos, negsuc}
use serpae_os.Bytes.Copy.{memcmp_iff}

-- The four bytes 0x7f, 'E', 'L' and 'F'.
pub record IsMagic (m : Memory) (a : ℕ) : Type 0 where
  pub byte_0 : m a ≡ 127
  pub byte_1 : m (a + 1) ≡ 69
  pub byte_2 : m (a + 2) ≡ 76
  pub byte_3 : m (a + 3) ≡ 70

-- A header of a program of 32 bits, or of no class, in the low byte first, or in no order, with program
-- headers.
pub record IsElf (m : Memory) (header : ℕ) : Type 0 where
  pub magic : IsMagic m header
  pub class : (m (header + ei_class) ≡ 0) ⊎ (m (header + ei_class) ≡ 1)
  pub encoding : (m (header + ei_data) ≡ 0) ⊎ (m (header + ei_data) ≡ 1)
  pub headers : e_phoff m header ≢ 0

elf_valid_signature_equal :
    (m : Memory) (signature header : ℕ)
    → elf_valid_signature m signature header ≡ true
    → memcmp m header signature 4 ≡ pos 0
unfolding elf_valid_signature
elf_valid_signature_equal m signature header e = go (memcmp m header signature 4) refl
  where
    go : (z : ℤ) → memcmp m header signature 4 ≡ z → z ≡ pos 0
    go (pos zero) at = refl
    go (pos (suc n)) at = absurd (ground (arith, e, at))
    go (negsuc n) at = absurd (ground (arith, e, at))

elf_valid_signature-IsMagic :
    (m : Memory) (signature header : ℕ)
    → IsMagic m signature
    → elf_valid_signature m signature header ≡ true
    → IsMagic m header
elf_valid_signature-IsMagic m signature header own e =
    let same =
      (memcmp_iff 4 m header signature).0 (elf_valid_signature_equal m signature header e) in
    record {
      byte_0 = ap m (omega arith) ∙ same 0 (omega arith) ∙ ap m (omega arith) ∙ own.byte_0;
      byte_1 = same 1 (omega arith) ∙ own.byte_1;
      byte_2 = same 2 (omega arith) ∙ own.byte_2;
      byte_3 = same 3 (omega arith) ∙ own.byte_3;
    }

IsMagic-elf_valid_signature :
    (m : Memory) (signature header : ℕ)
    → IsMagic m signature
    → IsMagic m header
    → elf_valid_signature m signature header ≡ true
unfolding elf_valid_signature
IsMagic-elf_valid_signature m signature header own magic =
    let same : (i : ℕ) → i < 4 → m (header + i) ≡ m (signature + i) = λ i lt. equal i lt in
    rw (elf_valid_signature, (memcmp_iff 4 m header signature).1 same)
  where
    equal : (i : ℕ) → i < 4 → m (header + i) ≡ m (signature + i)
    equal zero lt = ap m (omega arith) ∙ magic.byte_0 ∙ sym own.byte_0 ∙ ap m (omega arith)
    equal (suc zero) lt = magic.byte_1 ∙ sym own.byte_1
    equal (suc (suc zero)) lt = magic.byte_2 ∙ sym own.byte_2
    equal (suc (suc (suc zero))) lt = magic.byte_3 ∙ sym own.byte_3
    equal (suc (suc (suc (suc i)))) lt = absurd (omega (arith, lt))

-- In a memory with the bytes of the signature, elf_validate_loaded accepts exactly the headers with the
-- magic bytes, a class and an encoding that are none or the ones of this machine, and program headers.
pub elf_validate_loaded_iff :
    (m : Memory) (signature header : ℕ)
    → IsMagic m signature
    → (elf_validate_loaded m signature header ≡ ok tt) ↔ IsElf m header
unfolding elf_validate_loaded elf_valid_class elf_valid_encoding elf_has_program_header
elf_validate_loaded_iff m signature header own = (
  λ e. record {
    magic = elf_valid_signature-IsMagic m signature header own (ground (arith, e));
    class = ground (arith, e);
    encoding = ground (arith, e);
    headers = ground (arith, e);
  },
  λ valid.
      let a = IsMagic-elf_valid_signature m signature header own valid.magic in
      ground (arith, a, valid.class, valid.encoding, valid.headers),
)
