-- ===== src/Ime/Dict.antt =====
-- firmware/core1/src/ime/mie_dict_loader.c with mie_dict_partition.h: the dictionary blob in flash,
-- checked by its header and copied to PSRAM. The flash partition is a function from offsets to bytes.
-- Offsets count from the start of the blob in flash and from the base of PSRAM.
pub mod Copies
pub mod Loads
pub mod Shown
pub mod Outcome
use mokya_lora.Prelude.{
  ℕ, ◌+◌, ◌-◌, ◌*◌, ◌/◌, Bool, true, false, not, ◌&&◌, ◌||◌, Option, none, some, ltb, leb, ◌==◌,
  if◌then◌else◌,
}

-- PSRAM, and where the cached alias may show other bytes than the chip holds
pub record Psram : Type 0 where
  pub chip : ℕ → ℕ
  pub stale : ℕ → Bool

-- a pair of `mie_dict_pointers_t`; `none` is `NULL`
pub record Area : Type 0 where
  pub pointer : Option ℕ
  pub size : ℕ

-- `mie_dict_pointers_t`
pub record Pointers : Type 0 where
  pub zh_dat : Area
  pub zh_val : Area
  pub en_dat : Area
  pub en_val : Area
  pub v4_blob : Area

-- `g_mie_dict_load_status`, `g_mie_dict_format` and the memory
pub record Loader : Type 0 where
  pub status : ℕ
  pub format : ℕ
  pub psram : Psram
  pub out : Option Pointers

-- `mie_dict_load_status_t` and `mie_dict_format_t`
abbrev pub load_ok : ℕ
load_ok = 1

abbrev pub err_magic : ℕ
err_magic = 2

abbrev pub err_version : ℕ
err_version = 3

abbrev pub err_geometry : ℕ
err_geometry = 4

abbrev pub err_no_psram : ℕ
err_no_psram = 5

abbrev pub fmt_mie4 : ℕ
fmt_mie4 = 1

abbrev pub fmt_mdbl : ℕ
fmt_mdbl = 2

-- mie_dict_partition.h
abbrev pub partition_size : ℕ
partition_size = 0x600000

abbrev pub mdbl_magic : ℕ
mdbl_magic = 0x4C42444D

abbrev pub mdbl_version : ℕ
mdbl_version = 1

abbrev pub mdbl_header_size : ℕ
mdbl_header_size = 0x28

abbrev pub mie4_magic : ℕ
mie4_magic = 0x3445494D

abbrev pub mie4_header_size : ℕ
mie4_header_size = 0x40

-- the places of the sections in PSRAM, and their budgets
abbrev pub zh_dat_at : ℕ
zh_dat_at = 0

abbrev pub zh_val_at : ℕ
zh_val_at = 0x200000

abbrev pub en_dat_at : ℕ
en_dat_at = 0x500000

abbrev pub en_val_at : ℕ
en_val_at = 0x510000

abbrev pub zh_dat_budget : ℕ
zh_dat_budget = 0x200000

abbrev pub zh_val_budget : ℕ
zh_val_budget = 0x300000

abbrev pub en_dat_budget : ℕ
en_dat_budget = 0x10000

abbrev pub en_val_budget : ℕ
en_val_budget = 0x40000

-- `PSRAM_READ_ADDR` and `PSRAM_XIP_OFFSET`
abbrev pub read_addr : ℕ → ℕ
read_addr offset = 0x11000000 + offset

abbrev pub xip_offset : ℕ
xip_offset = 0x01000000

-- a little-endian halfword or word
abbrev pub half_at : (ℕ → ℕ) → ℕ → ℕ
half_at blob k = blob k + 256 * blob (k + 1)

abbrev pub word_at : (ℕ → ℕ) → ℕ → ℕ
word_at blob k = half_at blob k + 65536 * half_at blob (k + 2)

-- `memcpy` of `n` bytes from the blob through the uncached alias: the cache does not see it.
unfoldable pub copy : (ℕ → ℕ) → ℕ → ℕ → ℕ → Psram → Psram
copy blob dst src n m = record {
  chip = λ a. if leb dst a && ltb a (dst + n) then blob (src + (a - dst)) else m.chip a;
  stale = λ a. (leb dst a && ltb a (dst + n)) || m.stale a;
}

-- `xip_cache_invalidate_range`, whose offset counts from the base of XIP
unfoldable pub invalidate : ℕ → ℕ → Psram → Psram
invalidate offset n m = record m {
  stale = λ a. not (leb offset (xip_offset + a) && ltb (xip_offset + a) (offset + n)) && m.stale a;
}

-- `CACHE_LINE_ALIGN`
abbrev pub line_align : ℕ → ℕ
line_align n = (n + 7) / 8 * 8

-- a copy, or an invalidation, of a section that is there
abbrev pub copy_section : (ℕ → ℕ) → ℕ → ℕ × ℕ → Psram → Psram
copy_section blob dst (src, n) m = if n == 0 then m else copy blob dst src n m

abbrev pub drop_lines : ℕ → ℕ → Psram → Psram
drop_lines dst n m = if n == 0 then m else invalidate (xip_offset + dst) (line_align n) m

abbrev pub no_area : Area
no_area = record { pointer = none; size = 0 }

-- `memset` of `*out`
abbrev pub no_pointers : Pointers
no_pointers = record {
  zh_dat = no_area;
  zh_val = no_area;
  en_dat = no_area;
  en_val = no_area;
  v4_blob = no_area;
}

abbrev pub area_at : ℕ → ℕ → Area
area_at offset n = record { pointer = some (read_addr offset); size = n }

abbrev pub area_if : ℕ → ℕ → Area
area_if offset n = if n == 0 then no_area else area_at offset n

abbrev pub fill : Option Pointers → Pointers → Option Pointers
fill none p = none
fill (some old) p = some p

abbrev pub fail : ℕ → Loader → Bool × Loader
fail status s = (false, record s { status = status })

module _ (blob : ℕ → ℕ) where
  -- `header[0x20]`, and the offset and size of the English sections
  abbrev pub total_size : ℕ
  total_size = word_at blob 0x20

  abbrev pub section : ℕ → ℕ × ℕ
  section k = (word_at blob k, word_at blob (k + 4))

  abbrev pub total_bad : Bool
  total_bad =
      ltb total_size mie4_header_size
      || (ltb partition_size total_size || ltb (zh_dat_budget + zh_val_budget) total_size)

  abbrev pub beyond : ℕ × ℕ → Bool
  beyond (offset, n) = not (n == 0) && ltb total_size (offset + n)

  abbrev pub v4_loaded : Psram → Psram
  v4_loaded m =
      invalidate (xip_offset + zh_dat_at) (line_align total_size)
        (copy blob zh_dat_at 0 total_size m)

  abbrev pub v4_pointers : Pointers
  v4_pointers = record no_pointers {
    v4_blob = area_at zh_dat_at total_size;
    en_dat = area_if (zh_dat_at + (section 0x30).0) (section 0x30).1;
    en_val = area_if (zh_dat_at + (section 0x38).0) (section 0x38).1;
  }

  -- `mie_dict_load_v4_to_psram`; its test of the total against the header's size always holds
  unfoldable pub load_v4 : Loader → Bool × Loader
  load_v4 s =
      if total_bad
      then fail err_geometry s
      else if beyond (section 0x30) || beyond (section 0x38)
      then fail err_geometry s
      else (
        true,
        record s { status = load_ok; psram = v4_loaded s.psram; out = fill s.out v4_pointers },
      )

  -- `CHECK_RANGE`
  abbrev pub out_of_range : ℕ × ℕ → Bool
  out_of_range (offset, n) =
      not (n == 0) && (ltb offset mdbl_header_size || ltb partition_size (offset + n))

  abbrev pub over_budget : Bool
  over_budget =
      ltb zh_dat_budget (section 0x08).1
      || (ltb zh_val_budget (section 0x10).1
          || (ltb en_dat_budget (section 0x18).1 || ltb en_val_budget (section 0x20).1))

  abbrev pub mdbl_copied : Psram → Psram
  mdbl_copied m = copy_section blob en_val_at (section 0x20) (
      copy_section blob en_dat_at (section 0x18)
        (copy_section blob zh_val_at (section 0x10) (copy_section blob zh_dat_at (section 0x08) m)))

  abbrev pub mdbl_loaded : Psram → Psram
  mdbl_loaded m = drop_lines en_val_at (section 0x20).1 (
      drop_lines en_dat_at (section 0x18).1 (
        drop_lines zh_val_at (section 0x10).1
          (drop_lines zh_dat_at (section 0x08).1 (mdbl_copied m))))

  abbrev pub mdbl_pointers : Pointers
  mdbl_pointers = record {
    zh_dat = area_at zh_dat_at (section 0x08).1;
    zh_val = area_at zh_val_at (section 0x10).1;
    en_dat = area_at en_dat_at (section 0x18).1;
    en_val = area_at en_val_at (section 0x20).1;
    v4_blob = no_area;
  }

  -- the part of `mie_dict_load_to_psram` behind the dispatch on the magic
  unfoldable pub load_mdbl : Loader → Bool × Loader
  load_mdbl s =
      if not (word_at blob 0 == mdbl_magic)
      then fail err_magic s
      else if not (half_at blob 4 == mdbl_version)
      then fail err_version s
      else if out_of_range (section 0x08)
          || (out_of_range (section 0x10)
              || (out_of_range (section 0x18) || out_of_range (section 0x20)))
      then fail err_geometry s
      else if over_budget
      then fail err_geometry s
      else (
        true,
        record s { status = load_ok; psram = mdbl_loaded s.psram; out = fill s.out mdbl_pointers },
      )

  -- `mie_dict_load_to_psram`; the identification bytes of the chip are read before
  unfoldable pub load : ℕ × ℕ → Loader → Bool × Loader
  load (mfid, kgd) s =
      let s = record s { out = fill s.out no_pointers } in
      if not (mfid == 0x0D) || not (kgd == 0x5D)
      then fail err_no_psram s
      else if word_at blob 0 == mie4_magic
      then load_v4 (record s { format = fmt_mie4 })
      else load_mdbl (if word_at blob 0 == mdbl_magic then record s { format = fmt_mdbl } else s)
