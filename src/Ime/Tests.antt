-- ===== src/Ime/Tests.antt =====
-- A small MIE4 blob with eight bytes of English behind its header.
use mokya_lora.Prelude.{
  ℕ, ◌%◌, ◌≡◌, ◌↔◌, ◌⊎◌, refl, true, some, [], ◌∷◌, ltb, if◌then◌else◌, get_or,
}
use mokya_lora.Ime.Dict.{
  Loader, Pointers, load, load_v4, no_pointers, load_ok, fmt_mie4, fmt_mdbl, fill,
}
use mokya_lora.Ime.Dict.Loads.{IsMie4, IsMdbl, Mie4Shows, MdblShows}
use mokya_lora.Ime.Dict.Outcome.{IsKnown, Fault, load-accepts, load-shows, load-refused}

-- the bytes from 0 and those from 0x20 of the header
abbrev small : ℕ → ℕ
small k =
    if ltb k 4
    then get_or (0x4D ∷ 0x49 ∷ 0x45 ∷ 0x34 ∷ []) k 0
    else if ltb k 0x40
    then get_or
        (0 ∷ 0 ∷ 0 ∷ 0 ∷ 0 ∷ 0 ∷ 0 ∷ 0 ∷ 0 ∷ 0 ∷ 0 ∷ 0 ∷ 0 ∷ 0 ∷ 0 ∷ 0 ∷ 0 ∷ 0 ∷ 0 ∷ 0 ∷ 0 ∷ 0 ∷ 0
          ∷ 0 ∷ 0 ∷ 0 ∷ 0 ∷ 0 ∷ 0 ∷ 0 ∷ 0 ∷ 0 ∷ 0x48 ∷ 0 ∷ 0 ∷ 0 ∷ 0 ∷ 0 ∷ 0 ∷ 0 ∷ 0 ∷ 0 ∷ 0 ∷ 0 ∷ 0
          ∷ 0 ∷ 0 ∷ 0 ∷ 0x40 ∷ 0 ∷ 0 ∷ 0 ∷ 8 ∷ 0 ∷ 0 ∷ 0 ∷ [])
        k 0
    else k % 256

abbrev boot : Loader
boot = record {
  status = 0;
  format = 0;
  psram = record { chip = λ a. 0xFF; stale = λ a. true };
  out = some no_pointers;
}

load-accepts_example :
    ((load small (0x0D, 0x5D) boot).0 ≡ true) ↔ (IsKnown 0x0D 0x5D × (IsMie4 small ⊎ IsMdbl small))
load-accepts_example = load-accepts small 0x0D 0x5D boot

load-shows_example :
    let s' = (load small (0x0D, 0x5D) boot).1 in
    (p : Pointers) × (s'.out ≡ some p)
    × (s'.status ≡ load_ok)
    × (((s'.format ≡ fmt_mie4) × IsMie4 small × Mie4Shows small s'.psram p)
        ⊎ ((s'.format ≡ fmt_mdbl) × IsMdbl small × MdblShows small s'.psram p))
unfolding load load_v4
load-shows_example = load-shows small 0x0D 0x5D boot no_pointers refl refl

load-refused_example :
    let s' = (load small (0, 0x5D) boot).1 in
    (s'.psram ≡ boot.psram)
    × (s'.out ≡ fill boot.out no_pointers)
    × Fault small 0 0x5D boot s'.status
unfolding load
load-refused_example = load-refused small 0 0x5D boot refl
