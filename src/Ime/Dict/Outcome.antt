-- ===== src/Ime/Dict/Outcome.antt =====
-- How a load ends.
use mokya_lora.Prelude.{
  ℕ, ◌≡◌, ◌≢◌, refl, sym, ap, ◌∙◌, subst, Bool, true, false, not, ◌||◌, ◌↔◌, some, ◌==◌,
  if◌then◌else◌, arith, ◌⊎◌, inl, inr, Bool-cases,
}
use mokya_lora.Ime.Dict.{
  Pointers, Loader, load_ok, err_no_psram, err_magic, err_version, err_geometry, half_at,
  mdbl_version, fmt_mie4, fmt_mdbl, mdbl_magic, mie4_magic, word_at, load_v4, load_mdbl, load, fill,
  fail, no_pointers, v4_pointers, mdbl_pointers,
}
use mokya_lora.Ime.Dict.Loads.{
  MdblShows, Mie4Shows, IsMdbl, IsMie4, load_mdbl-accepts, load_mdbl-IsMdbl, load_v4-accepts,
  load_v4-IsMie4,
}
use mokya_lora.Ime.Dict.Shown.{mdbl_loaded-Shows, v4_loaded-Shows}

-- the identification of the PSRAM chip
abbrev pub IsKnown : ℕ → ℕ → Type 0
IsKnown mfid kgd = (mfid ≡ 0x0D) × (kgd ≡ 0x5D)

abbrev cleared : Loader → Loader
cleared s = record s { out = fill s.out no_pointers }

abbrev as_mie4 : Loader → Loader
as_mie4 s = record (cleared s) { format = fmt_mie4 }

module _ (blob : ℕ → ℕ) where
  abbrev as_mdbl : Loader → Loader
  as_mdbl s =
      if word_at blob 0 == mdbl_magic then record (cleared s) { format = fmt_mdbl } else cleared s

  as_mdbl-magic : (s : Loader) → IsMdbl blob → as_mdbl s ≡ record (cleared s) { format = fmt_mdbl }
  as_mdbl-magic s v = rw found
    where
      found : (word_at blob 0 == mdbl_magic) ≡ true
      found = ground (arith, v.magic)

  -- the way that a load takes
  data Way (mfid kgd : ℕ) (s : Loader) : Bool × Loader → Type 0 where
    unknown : ¬ IsKnown mfid kgd → Way mfid kgd s (fail err_no_psram (cleared s))
    mie4 :
        IsKnown mfid kgd → word_at blob 0 ≡ mie4_magic → Way mfid kgd s (load_v4 blob (as_mie4 s))
    mdbl :
        IsKnown mfid kgd → word_at blob 0 ≢ mie4_magic → Way mfid kgd s (load_mdbl blob (as_mdbl s))

  load-Way : (mfid kgd : ℕ) (s : Loader) → Way mfid kgd s (load blob (mfid, kgd) s)
  unfolding load
  load-Way mfid kgd s =
      chosen (not (mfid == 0x0D) || not (kgd == 0x5D)) (word_at blob 0 == mie4_magic) refl refl
    where
      chosen :
          (bad v4 : Bool)
          → (not (mfid == 0x0D) || not (kgd == 0x5D)) ≡ bad
          → (word_at blob 0 == mie4_magic) ≡ v4
          → Way mfid kgd s (
              if bad
              then fail err_no_psram (cleared s)
              else if v4
              then load_v4 blob (as_mie4 s)
              else load_mdbl blob (as_mdbl s))
      chosen true v4 e f = unknown (λ k. absurd (ground (arith, k, e)))
      chosen false true e f = mie4 (ground (arith, e)) (ground (arith, f))
      chosen false false e f = mdbl (ground (arith, e)) (ground (arith, f))

  module _ (mfid kgd : ℕ) (s : Loader) where
    accepts :
        (r : Bool × Loader)
        → Way mfid kgd s r
        → r.0 ≡ true
        → IsKnown mfid kgd × (IsMie4 blob ⊎ IsMdbl blob)
    accepts _ (unknown no_chip) h = absurd (ground (arith, h))
    accepts _ (mie4 k e) h = (k, inl (load_v4-accepts blob (as_mie4 s) e h))
    accepts _ (mdbl k e) h = (k, inr (load_mdbl-accepts blob (as_mdbl s) h))

    accepted :
        (r : Bool × Loader)
        → Way mfid kgd s r
        → IsKnown mfid kgd × (IsMie4 blob ⊎ IsMdbl blob)
        → r.0 ≡ true
    accepted _ (unknown no_chip) (k, v) = absurd (no_chip k)
    accepted _ (mie4 k e) (k', inl v) = ap (λ r. r.0) (load_v4-IsMie4 blob (as_mie4 s) v)
    accepted _ (mie4 k e) (k', inr v) = absurd (omega (arith, e, v.magic))
    accepted _ (mdbl k e) (k', inl v) = absurd (e v.magic)
    accepted _ (mdbl k e) (k', inr v) = ap (λ r. r.0) (load_mdbl-IsMdbl blob (as_mdbl s) v)

    -- `mie_dict_load_to_psram` succeeds exactly if the PSRAM chip identified itself and the partition
    -- starts with a sound header: either that of an MIE4 blob of at most 5 MB that holds its English
    -- sections, or that of an MDBL blob of version 1 whose sections lie in the partition behind the
    -- header and within their budgets.
    pub load-accepts :
        ((load blob (mfid, kgd) s).0 ≡ true) ↔ (IsKnown mfid kgd × (IsMie4 blob ⊎ IsMdbl blob))
    load-accepts = (
      accepts (load blob (mfid, kgd) s) (load-Way mfid kgd s),
      accepted (load blob (mfid, kgd) s) (load-Way mfid kgd s),
    )

    abbrev Loaded : Bool × Loader → Type 0
    Loaded r =
        (p : Pointers) × (r.1.out ≡ some p)
        × (r.1.status ≡ load_ok)
        × (((r.1.format ≡ fmt_mie4) × IsMie4 blob × Mie4Shows blob r.1.psram p)
            ⊎ ((r.1.format ≡ fmt_mdbl) × IsMdbl blob × MdblShows blob r.1.psram p))

    shows :
        (old : Pointers) (r : Bool × Loader)
        → Way mfid kgd s r
        → s.out ≡ some old
        → r.0 ≡ true
        → Loaded r
    shows old _ (unknown no_chip) e h = absurd (ground (arith, h))
    shows old _ (mie4 k m) e h =
        let v = load_v4-accepts blob (as_mie4 s) m h in
        subst Loaded (sym (load_v4-IsMie4 blob (as_mie4 s) v)) (
          v4_pointers blob,
          ap (λ o. fill (fill o no_pointers) (v4_pointers blob)) e,
          refl,
          inl (refl, v, v4_loaded-Shows blob v s.psram),
        )
    shows old _ (mdbl k m) e h =
        let v = load_mdbl-accepts blob (as_mdbl s) h in
        subst Loaded (sym (load_mdbl-IsMdbl blob (as_mdbl s) v)) (
          mdbl_pointers blob,
          ap (λ t. fill t.out (mdbl_pointers blob)) (as_mdbl-magic s v)
              ∙ ap (λ o. fill (fill o no_pointers) (mdbl_pointers blob)) e,
          refl,
          inr (
            ap (λ t. t.format) (as_mdbl-magic s v),
            v,
            mdbl_loaded-Shows blob v (as_mdbl s).psram,
          ),
        )

    -- After a load that succeeds, each area of the pointer pack that the format has (of an MIE4 blob
    -- the blob as a whole and its two English sections, else the four sections) has the size of its
    -- section in the header, and the other areas are cleared. Unless its size is 0, such an area shows
    -- the section's bytes: they lie in PSRAM, the section they were copied
    -- from lies in the partition, and through the cached alias the consumers read the bytes in flash,
    -- since no old line of the cache covers them and no later copy wrote over them.
    pub load-shows :
        (old : Pointers)
        → s.out ≡ some old
        → (load blob (mfid, kgd) s).0 ≡ true
        → let s' = (load blob (mfid, kgd) s).1 in
          (p : Pointers) × (s'.out ≡ some p)
          × (s'.status ≡ load_ok)
          × (((s'.format ≡ fmt_mie4) × IsMie4 blob × Mie4Shows blob s'.psram p)
              ⊎ ((s'.format ≡ fmt_mdbl) × IsMdbl blob × MdblShows blob s'.psram p))
    load-shows old e h = shows old (load blob (mfid, kgd) s) (load-Way mfid kgd s) e h

    -- the way in which the partition's header is not one of an MDBL blob
    abbrev pub MdblFault : ℕ → Type 0
    MdblFault status =
        ((word_at blob 0 ≢ mdbl_magic) × (status ≡ err_magic))
        ⊎ ((word_at blob 0 ≡ mdbl_magic) × (half_at blob 4 ≢ mdbl_version) × (status ≡ err_version))
        ⊎ ((word_at blob 0 ≡ mdbl_magic)
            × (half_at blob 4 ≡ mdbl_version)
            × (¬ IsMdbl blob)
            × (status ≡ err_geometry))

    -- what a load finds fault with, and the status that says so
    abbrev pub Fault : ℕ → Type 0
    Fault status =
        ((¬ IsKnown mfid kgd) × (status ≡ err_no_psram))
        ⊎ (IsKnown mfid kgd
            × (word_at blob 0 ≡ mie4_magic)
            × (¬ IsMie4 blob)
            × (status ≡ err_geometry))
        ⊎ (IsKnown mfid kgd × (word_at blob 0 ≢ mie4_magic) × MdblFault status)

    abbrev Refused : Bool × Loader → Type 0
    Refused r = (r.1.psram ≡ s.psram) × (r.1.out ≡ fill s.out no_pointers) × Fault r.1.status

    load_v4-fails :
        (t : Loader)
        → (load_v4 blob t).0 ≡ false
        → ((load_v4 blob t).1.psram ≡ t.psram)
          × ((load_v4 blob t).1.out ≡ t.out)
          × ((load_v4 blob t).1.status ≡ err_geometry)
    unfolding load_v4
    load_v4-fails t h = ground (arith, h)

    load_mdbl-fails :
        (t : Loader)
        → (load_mdbl blob t).0 ≡ false
        → ((load_mdbl blob t).1.psram ≡ t.psram) × ((load_mdbl blob t).1.out ≡ t.out)
    unfolding load_mdbl
    load_mdbl-fails t h = ground (arith, h)

    load_mdbl-geometry :
        (t : Loader)
        → (load_mdbl blob t).0 ≡ false
        → (word_at blob 0 == mdbl_magic) ≡ true
        → (half_at blob 4 == mdbl_version) ≡ true
        → (load_mdbl blob t).1.status ≡ err_geometry
    unfolding load_mdbl
    load_mdbl-geometry t h m v = ground (arith, h, m, v)

    load_mdbl-MdblFault :
        (t : Loader) → (load_mdbl blob t).0 ≡ false → MdblFault (load_mdbl blob t).1.status
    load_mdbl-MdblFault t h = elim (Bool-cases (word_at blob 0 == mdbl_magic)) [
      | inr f ↦ inl (ground (arith, f), (unfold load_mdbl in ground (arith, f)))
      | inl m ↦ elim (Bool-cases (half_at blob 4 == mdbl_version)) [
        | inr f ↦
            inr (
              inl
                (ground (arith, m), ground (arith, f), (unfold load_mdbl in ground (arith, m, f))))
        | inl v ↦ inr (
            inr (
              ground (arith, m),
              ground (arith, v),
              λ i. absurd (false_ne_true (sym h ∙ ap (λ r. r.0) (load_mdbl-IsMdbl blob t i))),
              load_mdbl-geometry t h m v,
            ))
      ]
    ]
      where
        false_ne_true : ¬ (false ≡ true)
        false_ne_true e = ground (arith, e)

    as_mdbl-keeps : ((as_mdbl s).psram ≡ s.psram) × ((as_mdbl s).out ≡ fill s.out no_pointers)
    as_mdbl-keeps = ground arith

    refuses : (r : Bool × Loader) → Way mfid kgd s r → r.0 ≡ false → Refused r
    refuses _ (unknown no_chip) h = (refl, refl, inl (no_chip, refl))
    refuses _ (mie4 k m) h =
        let (a, b, c) = load_v4-fails (as_mie4 s) h in
        (
          a,
          b,
          inr (
              inl (
                k,
                m,
                λ i. absurd (ground (arith, h, ap (λ r. r.0) (load_v4-IsMie4 blob (as_mie4 s) i))),
                c,
              )),
        )
    refuses _ (mdbl k m) h =
        let (a, b) = load_mdbl-fails (as_mdbl s) h in
        (
          a ∙ as_mdbl-keeps.0,
          b ∙ as_mdbl-keeps.1,
          inr (inr (k, m, load_mdbl-MdblFault (as_mdbl s) h)),
        )

    -- A load that fails leaves PSRAM and the cache alone, clears the pointer pack, and its load status
    -- says what was wrong: 5 the PSRAM chip, 4 the geometry of an MIE4 header, 2 a magic that is
    -- neither of the two, 3 the version of an MDBL header and 4 its sections.
    pub load-refused :
        (load blob (mfid, kgd) s).0 ≡ false
        → let s' = (load blob (mfid, kgd) s).1 in
          (s'.psram ≡ s.psram) × (s'.out ≡ fill s.out no_pointers) × Fault s'.status
    load-refused h = refuses (load blob (mfid, kgd) s) (load-Way mfid kgd s) h
