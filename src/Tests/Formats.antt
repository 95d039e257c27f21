-- ===== src/Tests/Formats.antt =====
-- A format over the buffer cache, where `malloc` leaves zeros.
use kw_home_work.Common.{◌≡◌, refl, some, [], arith}
use kw_home_work.Disk.{zero_block}
use kw_home_work.Cache.{Cache}
use kw_home_work.Bitmap.{is_bit_clear}
use kw_home_work.Bitmap.Search.{Lowest}
use kw_home_work.Fs.{Mounted}
use kw_home_work.Fs.Format.{format}
use kw_home_work.Fs.Format.Root.{Formatted, root_counted, format-Formatted}
use kw_home_work.Tests.Blocks.{store, start, start-IsValid, zero_block-IsBytes, length-zero_block}
use kw_home_work.Tests.Files.{info}

zero-Lowest : Lowest 8 zero_block (some 0)
unfolding zero_block is_bit_clear
zero-Lowest = (omega arith, refl, λ j h. absurd (omega arith))

abbrev mounted : Mounted Cache
mounted = record { store = start; info = info; file_desc = [] }

format-Formatted_example :
    (s : Cache) × (format store (λ _. zero_block) info zero_block mounted
      ≡ some (tt, record mounted { store = s; info = root_counted info }))
    × Formatted store 0 zero_block zero_block s
format-Formatted_example =
    format-Formatted store (λ _. zero_block) info zero_block 0 mounted (start-IsValid.0)
      (λ _. length-zero_block) (λ _. zero_block-IsBytes) zero-Lowest
