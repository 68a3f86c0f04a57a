-- ===== src/Fat16/Files/Dates.antt =====
-- Dates of directory entries, packed and unpacked.
use serpae_os.Common.{ℕ, ◌+◌, ◌-◌, ◌*◌, ◌/◌, ◌%◌, ◌^◌, ◌≤◌, ◌<◌, ◌≡◌, arith, ◌∙◌, bit_and, bit_or}
use serpae_os.Common.Bits.{bit_or_high, bit_and_mask}
use serpae_os.Fat16.Files.{DateTime, unpack, pack_date}

-- A date in its fields.
pack_date-sum :
    (now : DateTime)
    → now.day < 2 ^ 5
    → now.month < 2 ^ 4
    → 1980 ≤ now.year
    → now.year < 2108
    → pack_date now ≡ (now.year - 1980) * 2 ^ 9 + (now.month * 2 ^ 5 + now.day)
unfolding pack_date
pack_date-sum now day month early late =
    let d : bit_and now.day 31 ≡ now.day = bit_and_mask 5 now.day ∙ omega arith in
    let m : bit_or now.day (now.month * 2 ^ 5) ≡ now.month * 2 ^ 5 + now.day =
      bit_or_high 5 now.month now.day day in
    let y = bit_or_high 9 (now.year - 1980) (now.month * 2 ^ 5 + now.day) (omega arith) in
    let fits : ((now.year - 1980) * 2 ^ 9 + (now.month * 2 ^ 5 + now.day)) % 2 ^ 16
        ≡ (now.year - 1980) * 2 ^ 9 + (now.month * 2 ^ 5 + now.day) =
      omega arith in
    rw (pack_date, d, m, y, fits)

-- The date that is stored with a new file is the one that stat reads back, for a day of the month, a
-- month, and a year from 1980 to 2107.
pub unpack-pack_date :
    (now : DateTime) (time : ℕ)
    → now.day < 2 ^ 5
    → now.month < 2 ^ 4
    → 1980 ≤ now.year
    → now.year < 2108
    → ((unpack time (pack_date now)).day ≡ now.day)
      × ((unpack time (pack_date now)).month ≡ now.month)
      × ((unpack time (pack_date now)).year ≡ now.year)
unfolding unpack
unpack-pack_date now time day month early late =
    let packed = pack_date-sum now day month early late in
    let all = pack_date now in
    (
      bit_and_mask 5 all ∙ omega (arith, packed),
      bit_and_mask 4 (all / 2 ^ 5) ∙ omega (arith, packed),
      omega (arith, packed),
    )

-- The fields of a time are in the ranges of a clock with 2 seconds to a tick, or just above them:
-- seconds up to 62, minutes up to 63, hours up to 31.
pub unpack_bounds :
    (time date : ℕ)
    → time < 2 ^ 16
    → date < 2 ^ 16
    → ((unpack time date).seconds ≤ 62)
      × ((unpack time date).minutes ≤ 63)
      × ((unpack time date).hours ≤ 31)
      × ((unpack time date).day ≤ 31)
      × ((unpack time date).month ≤ 15)
      × ((unpack time date).year ≤ 2107)
unfolding unpack
unpack_bounds time date ht hd = (
  omega (arith, bit_and_mask 5 time),
  omega (arith, bit_and_mask 6 (time / 2 ^ 5)),
  omega arith,
  omega (arith, bit_and_mask 5 date),
  omega (arith, bit_and_mask 4 (date / 2 ^ 5)),
  omega arith,
)
