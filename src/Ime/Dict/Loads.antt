-- ===== src/Ime/Dict/Loads.antt =====
-- What the consumers of a loaded dictionary read is what stands in flash.
use mokya_lora.Prelude.{ℕ, ◌+◌, ◌≤◌, ◌<◌, ◌≡◌, ◌≢◌, Bool, true, false, ◌||◌, some, ◌==◌, arith, ◌⊎◌}
use mokya_lora.Ime.Dict.{
  Psram, Area, Pointers, Loader, load_ok, partition_size, mdbl_magic, mie4_magic, zh_dat_budget,
  zh_val_budget, en_dat_budget, en_val_budget, read_addr, half_at, word_at, section, total_size,
  total_bad, beyond, v4_loaded, v4_pointers, load_v4, out_of_range, over_budget, mdbl_loaded,
  mdbl_pointers, load_mdbl, fill, no_area, mdbl_header_size, mdbl_version, mie4_header_size,
}

-- `MOKYA_PSRAM_SIZE`
abbrev pub psram_size : ℕ
psram_size = 0x800000

module _ (blob : ℕ → ℕ) where
  -- Where the bytes of a section are shown: at a place in PSRAM that the cache shows as it is.
  abbrev pub ShowsAt : Psram → ℕ → ℕ → ℕ → Type 0
  ShowsAt m at src n =
      (at + n ≤ psram_size)
      × (src + n ≤ partition_size)
      × ((i : ℕ) → i < n → (m.chip (at + i) ≡ blob (src + i)) × (m.stale (at + i) ≡ false))

  -- An area of the pointer pack has the size of a section and shows it, unless the section is empty.
  abbrev pub Shows : Psram → Area → ℕ × ℕ → Type 0
  Shows m area (src, n) =
      (area.size ≡ n)
      × ((n ≡ 0) ⊎ ((at : ℕ) × (area.pointer ≡ some (read_addr at)) × ShowsAt m at src n))

  abbrev pub MdblShows : Psram → Pointers → Type 0
  MdblShows m p =
      Shows m p.zh_dat (section blob 0x08)
      × Shows m p.zh_val (section blob 0x10)
      × Shows m p.en_dat (section blob 0x18)
      × Shows m p.en_val (section blob 0x20)
      × (p.v4_blob ≡ no_area)

  abbrev pub Mie4Shows : Psram → Pointers → Type 0
  Mie4Shows m p =
      Shows m p.v4_blob (0, total_size blob)
      × Shows m p.en_dat (section blob 0x30)
      × Shows m p.en_val (section blob 0x38)
      × (p.zh_dat ≡ no_area)
      × (p.zh_val ≡ no_area)

  -- a section that passes the tests of an MDBL header
  abbrev pub Fits : ℕ × ℕ → ℕ → Type 0
  Fits (src, n) budget =
      (n ≤ budget) × (n ≢ 0 → (mdbl_header_size ≤ src) × (src + n ≤ partition_size))

  pub record IsMdbl : Type 0 where
    pub magic : word_at blob 0 ≡ mdbl_magic
    pub version : half_at blob 4 ≡ mdbl_version
    pub zh_dat : Fits (section blob 0x08) zh_dat_budget
    pub zh_val : Fits (section blob 0x10) zh_val_budget
    pub en_dat : Fits (section blob 0x18) en_dat_budget
    pub en_val : Fits (section blob 0x20) en_val_budget

  abbrev pub Within : ℕ × ℕ → Type 0
  Within (src, n) = n ≢ 0 → src + n ≤ total_size blob

  pub record IsMie4 : Type 0 where
    pub magic : word_at blob 0 ≡ mie4_magic
    pub least : mie4_header_size ≤ total_size blob
    pub most : total_size blob ≤ zh_dat_budget + zh_val_budget
    pub en_dat : Within (section blob 0x30)
    pub en_val : Within (section blob 0x38)

  in_range-Fits :
      (s : ℕ × ℕ) (budget : ℕ) → out_of_range blob s ≡ false → s.1 ≤ budget → Fits s budget
  in_range-Fits (src, n) budget h k = (k, λ ne. ground (arith, h, ne))

  pub load_mdbl-accepts : (s : Loader) → (load_mdbl blob s).0 ≡ true → IsMdbl
  unfolding load_mdbl
  load_mdbl-accepts s h = record {
    magic = ground (arith, h);
    version = ground (arith, h);
    zh_dat =
        in_range-Fits (section blob 0x08) zh_dat_budget (ground (arith, h)) (ground (arith, h));
    zh_val =
        in_range-Fits (section blob 0x10) zh_val_budget (ground (arith, h)) (ground (arith, h));
    en_dat =
        in_range-Fits (section blob 0x18) en_dat_budget (ground (arith, h)) (ground (arith, h));
    en_val =
        in_range-Fits (section blob 0x20) en_val_budget (ground (arith, h)) (ground (arith, h));
  }

  abbrev pub mdbl_result : Loader → Bool × Loader
  mdbl_result s = (
    true,
    record s {
      status = load_ok;
      psram = mdbl_loaded blob s.psram;
      out = fill s.out (mdbl_pointers blob);
    },
  )

  in_range : (s : ℕ × ℕ) (budget : ℕ) → Fits s budget → out_of_range blob s ≡ false
  in_range (src, n) budget (le, fits) = ground (arith, fits)

  pub load_mdbl-IsMdbl : (s : Loader) → IsMdbl → load_mdbl blob s ≡ mdbl_result s
  unfolding load_mdbl
  load_mdbl-IsMdbl s v = rw (magic, version, ranges, budgets)
    where
      magic : (word_at blob 0 == mdbl_magic) ≡ true
      magic = ground (arith, v.magic)

      version : (half_at blob 4 == mdbl_version) ≡ true
      version = ground (arith, v.version)

      ranges :
          (out_of_range blob (section blob 0x08)
            || (out_of_range blob (section blob 0x10)
                || (out_of_range blob (section blob 0x18)
                    || out_of_range blob (section blob 0x20))))
          ≡ false
      ranges = rw (
        in_range (section blob 0x08) zh_dat_budget v.zh_dat,
        in_range (section blob 0x10) zh_val_budget v.zh_val,
        in_range (section blob 0x18) en_dat_budget v.en_dat,
        in_range (section blob 0x20) en_val_budget v.en_val,
      )

      budgets : over_budget blob ≡ false
      budgets = ground (arith, v.zh_dat.0, v.zh_val.0, v.en_dat.0, v.en_val.0)

  abbrev pub v4_result : Loader → Bool × Loader
  v4_result s = (
    true,
    record s {
      status = load_ok;
      psram = v4_loaded blob s.psram;
      out = fill s.out (v4_pointers blob);
    },
  )

  pub load_v4-accepts :
      (s : Loader) → word_at blob 0 ≡ mie4_magic → (load_v4 blob s).0 ≡ true → IsMie4
  unfolding load_v4
  load_v4-accepts s e h = record {
    magic = e;
    least = ground (arith, h);
    most = ground (arith, h);
    en_dat = λ ne. ground (arith, h, ne);
    en_val = λ ne. ground (arith, h, ne);
  }

  not_beyond : (s : ℕ × ℕ) → Within s → beyond blob s ≡ false
  not_beyond (src, n) fits = ground (arith, fits)

  pub load_v4-IsMie4 : (s : Loader) → IsMie4 → load_v4 blob s ≡ v4_result s
  unfolding load_v4
  load_v4-IsMie4 s v = rw (total, english)
    where
      total : total_bad blob ≡ false
      total = ground (arith, v.least, v.most)

      english : (beyond blob (section blob 0x30) || beyond blob (section blob 0x38)) ≡ false
      english =
          rw (not_beyond (section blob 0x30) v.en_dat, not_beyond (section blob 0x38) v.en_val)
