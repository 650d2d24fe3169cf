-- ===== src/Ime/Dict/Shown.antt =====
-- The sections in PSRAM: each in its own region, and the cache without old lines of it.
use mokya_lora.Prelude.{
  ℕ, ◌+◌, ◌≤◌, ◌<◌, ◌≡◌, ◌≢◌, refl, ap, ◌∙◌, false, ◌==◌, arith, inl, inr, Bool-cases,
}
use mokya_lora.Ime.Dict.{
  Psram, zh_dat_at, zh_val_at, en_dat_at, en_val_at, zh_dat_budget, zh_val_budget, en_dat_budget,
  en_val_budget, copy_section, drop_lines, section, total_size, v4_loaded, v4_pointers, mdbl_copied,
  mdbl_loaded, mdbl_pointers, area_if, area_at,
}
use mokya_lora.Ime.Dict.Copies.{
  chip-copy_section_in, chip-copy_section_out, chip-drop_lines, stale-drop_lines_in,
  stale-drop_lines-false,
}
use mokya_lora.Ime.Dict.Loads.{Shows, MdblShows, Mie4Shows, IsMdbl, IsMie4, Fits}

module _ (blob : ℕ → ℕ) (m : Psram) where
  -- A section that is alone in its region shows its bytes.
  shown-alone :
      (dst src n i : ℕ) → i < n → (copy_section blob dst (src, n) m).chip (dst + i) ≡ blob (src + i)
  shown-alone dst src n i h =
      chip-copy_section_in blob dst src n (dst + i) m (omega arith) (omega arith)
      ∙ ap (λ k. blob (src + k)) (omega arith)

module _ (blob : ℕ → ℕ) (v : IsMdbl blob) (m : Psram) where
  abbrev s1 : ℕ × ℕ
  s1 = section blob 0x08

  abbrev s2 : ℕ × ℕ
  s2 = section blob 0x10

  abbrev s3 : ℕ × ℕ
  s3 = section blob 0x18

  abbrev s4 : ℕ × ℕ
  s4 = section blob 0x20

  abbrev m1 : Psram
  m1 = copy_section blob zh_dat_at s1 m

  abbrev m2 : Psram
  m2 = copy_section blob zh_val_at s2 m1

  abbrev m3 : Psram
  m3 = copy_section blob en_dat_at s3 m2

  abbrev l0 : Psram
  l0 = mdbl_copied blob m

  abbrev l1 : Psram
  l1 = drop_lines zh_dat_at s1.1 l0

  abbrev l2 : Psram
  l2 = drop_lines zh_val_at s2.1 l1

  abbrev l3 : Psram
  l3 = drop_lines en_dat_at s3.1 l2

  chip-mdbl : (a : ℕ) → (mdbl_loaded blob m).chip a ≡ l0.chip a
  chip-mdbl a =
      chip-drop_lines en_val_at s4.1 a l3
      ∙ chip-drop_lines en_dat_at s3.1 a l2
      ∙ chip-drop_lines zh_val_at s2.1 a l1
      ∙ chip-drop_lines zh_dat_at s1.1 a l0

  behind_en_val : (a : ℕ) → a < en_val_at → l0.chip a ≡ m3.chip a
  behind_en_val a h = chip-copy_section_out blob en_val_at s4.0 s4.1 a m3 (inl h)

  behind_en_dat : (a : ℕ) → a < en_dat_at → l0.chip a ≡ m2.chip a
  behind_en_dat a h =
      behind_en_val a (omega arith) ∙ chip-copy_section_out blob en_dat_at s3.0 s3.1 a m2 (inl h)

  behind_zh_val : (a : ℕ) → a < zh_val_at → l0.chip a ≡ m1.chip a
  behind_zh_val a h =
      behind_en_dat a (omega arith) ∙ chip-copy_section_out blob zh_val_at s2.0 s2.1 a m1 (inl h)

  abbrev Clean : ℕ → ℕ → Type 0
  Clean at n = (i : ℕ) → i < n → (mdbl_loaded blob m).stale (at + i) ≡ false

  Clean-en_val : Clean en_val_at s4.1
  Clean-en_val i h =
      stale-drop_lines_in en_val_at s4.1 (en_val_at + i) l3 (omega arith) (omega arith)

  Clean-en_dat : Clean en_dat_at s3.1
  Clean-en_dat i h =
      stale-drop_lines-false en_val_at s4.1 (en_dat_at + i) l3
        (stale-drop_lines_in en_dat_at s3.1 (en_dat_at + i) l2 (omega arith) (omega arith))

  Clean-zh_val : Clean zh_val_at s2.1
  Clean-zh_val i h = stale-drop_lines-false en_val_at s4.1 (zh_val_at + i) l3 (
      stale-drop_lines-false en_dat_at s3.1 (zh_val_at + i) l2
        (stale-drop_lines_in zh_val_at s2.1 (zh_val_at + i) l1 (omega arith) (omega arith)))

  Clean-zh_dat : Clean zh_dat_at s1.1
  Clean-zh_dat i h = stale-drop_lines-false en_val_at s4.1 (zh_dat_at + i) l3 (
      stale-drop_lines-false en_dat_at s3.1 (zh_dat_at + i) l2 (
        stale-drop_lines-false zh_val_at s2.1 (zh_dat_at + i) l1
          (stale-drop_lines_in zh_dat_at s1.1 (zh_dat_at + i) l0 (omega arith) (omega arith))))

  -- a section and its pointers
  shows :
      (at budget : ℕ) (s : ℕ × ℕ)
      → Fits blob s budget
      → at + budget ≤ 0x800000
      → ((i : ℕ) → i < s.1 → l0.chip (at + i) ≡ blob (s.0 + i))
      → Clean at s.1
      → Shows blob (mdbl_loaded blob m) (area_at at s.1) s
  shows at budget s fits room bytes clean = (
    refl,
    elim (Bool-cases (s.1 == 0)) [
      | inl none_there ↦ inl (ground (arith, none_there))
      | inr there ↦ inr (
        at,
        refl,
        (
          omega (arith, fits.0, room),
          (fits.1 (ground (arith, there))).1,
          λ i h. (chip-mdbl (at + i) ∙ bytes i h, clean i h),
        ),
      )
    ],
  )

  pub mdbl_loaded-Shows : MdblShows blob (mdbl_loaded blob m) (mdbl_pointers blob)
  mdbl_loaded-Shows = (
    shows zh_dat_at zh_dat_budget s1 v.zh_dat (omega arith)
        (λ i h.
          behind_zh_val (zh_dat_at + i) (omega (arith, v.zh_dat.0))
          ∙ shown-alone blob m zh_dat_at s1.0 s1.1 i h)
        Clean-zh_dat,
    shows zh_val_at zh_val_budget s2 v.zh_val (omega arith)
        (λ i h.
          behind_en_dat (zh_val_at + i) (omega (arith, v.zh_val.0))
          ∙ shown-alone blob m1 zh_val_at s2.0 s2.1 i h)
        Clean-zh_val,
    shows en_dat_at en_dat_budget s3 v.en_dat (omega arith)
        (λ i h.
          behind_en_val (en_dat_at + i) (omega (arith, v.en_dat.0))
          ∙ shown-alone blob m2 en_dat_at s3.0 s3.1 i h)
        Clean-en_dat,
    shows en_val_at en_val_budget s4 v.en_val (omega arith)
        (λ i h. shown-alone blob m3 en_val_at s4.0 s4.1 i h) Clean-en_val,
    refl,
  )

module _ (blob : ℕ → ℕ) (v : IsMie4 blob) (m : Psram) where
  abbrev total : ℕ
  total = total_size blob

  v4_loaded-drop_lines :
      v4_loaded blob m ≡ drop_lines zh_dat_at total (copy_section blob zh_dat_at (0, total) m)
  v4_loaded-drop_lines = rw empty
    where
      empty : (total == 0) ≡ false
      empty = ground (arith, v.least)

  shown-v4 :
      (a : ℕ)
      → a < total
      → ((v4_loaded blob m).chip a ≡ blob a) × ((v4_loaded blob m).stale a ≡ false)
  shown-v4 a h = (
    ap (λ l. l.chip a) v4_loaded-drop_lines
        ∙ chip-drop_lines zh_dat_at total a (copy_section blob zh_dat_at (0, total) m)
        ∙ chip-copy_section_in blob zh_dat_at 0 total a m (omega arith) (omega arith)
        ∙ ap blob (omega arith),
    ap (λ l. l.stale a) v4_loaded-drop_lines
        ∙ stale-drop_lines_in zh_dat_at total a (copy_section blob zh_dat_at (0, total) m)
            (omega arith) (omega arith),
  )

  -- a section inside the blob
  embedded :
      (src n : ℕ)
      → (n ≢ 0 → src + n ≤ total)
      → Shows blob (v4_loaded blob m) (area_if (zh_dat_at + src) n) (src, n)
  embedded src n fits = elim (Bool-cases (n == 0)) [
    | inl none_there ↦ rw none_there (ground (arith, none_there), inl (ground (arith, none_there)))
    | inr there ↦ rw there (
      refl,
      inr (
        zh_dat_at + src,
        refl,
        (
          omega (arith, fits (ground (arith, there)), v.most),
          omega (arith, fits (ground (arith, there)), v.most),
          λ i h. elsewhere i (omega (arith, fits (ground (arith, there)))),
        ),
      ),
    )
  ]
    where
      elsewhere :
          (i : ℕ)
          → src + i < total
          → ((v4_loaded blob m).chip (zh_dat_at + src + i) ≡ blob (src + i))
            × ((v4_loaded blob m).stale (zh_dat_at + src + i) ≡ false)
      elsewhere i h =
          let (c, e) = shown-v4 (src + i) h in
          (
            ap (v4_loaded blob m).chip (omega arith) ∙ c,
            ap (v4_loaded blob m).stale (omega arith) ∙ e,
          )

  pub v4_loaded-Shows : Mie4Shows blob (v4_loaded blob m) (v4_pointers blob)
  v4_loaded-Shows = (
    (
      refl,
      inr (
        0,
        refl,
        (
          omega (arith, v.most),
          omega (arith, v.most),
          λ i h. (
            ap (v4_loaded blob m).chip (omega arith) ∙ (shown-v4 i h).0 ∙ ap blob (omega arith),
            ap (v4_loaded blob m).stale (omega arith) ∙ (shown-v4 i h).1,
          ),
        ),
      ),
    ),
    embedded (section blob 0x30).0 (section blob 0x30).1 v.en_dat,
    embedded (section blob 0x38).0 (section blob 0x38).1 v.en_val,
    refl,
    refl,
  )
