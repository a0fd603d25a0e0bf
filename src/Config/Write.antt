-- ===== src/Config/Write.antt =====
-- config.go: writeFileAtomic, by its calls to the file system. A file is its content and whether the
-- content has reached the disk; a failing write may leave any content in the temporary file.
use fmon.Base.{
  ◌≡◌, refl, ◌⊎◌, inl, inr, Bool, true, false, Option, none, some, List, [], ◌∷◌, if◌then◌else◌,
  All, Text,
}

pub record DiskFile : Type 0 where
  pub content : Text
  pub is_synced : Bool

-- The configuration file and the temporary file beside it.
pub record Disk : Type 0 where
  pub target : Option DiskFile
  pub temporary : Option DiskFile

-- The error of each call, if it fails, in the order of the calls; what a failing write leaves; and
-- whether removing the temporary file works.
pub record WriteFaults : Type 0 where
  pub at_create : Option Text
  pub at_write : Option Text
  pub at_chmod : Option Text
  pub at_sync : Option Text
  pub at_close : Option Text
  pub at_rename : Option Text
  pub partial : Text
  pub is_removed : Bool

pub data WriteStep : Type 0 where
  step_create step_write step_chmod step_sync step_close step_rename : WriteStep

abbrev fault_of : WriteFaults → WriteStep → Option Text
fault_of f step_create = f.at_create
fault_of f step_write = f.at_write
fault_of f step_chmod = f.at_chmod
fault_of f step_sync = f.at_sync
fault_of f step_close = f.at_close
fault_of f step_rename = f.at_rename

abbrev synced : DiskFile → DiskFile
synced x = record x { is_synced = true }

-- What a call does that succeeds.
unfoldable pub after_step : Text → WriteStep → Disk → Disk
after_step text step_create d = record d {
  temporary = some (record { content = []; is_synced = false });
}
after_step text step_write d = record d {
  temporary = some (record { content = text; is_synced = false });
}
after_step text step_sync d = record d {
  temporary = elim d.temporary [ none ↦ none | some x ↦ some (synced x) ];
}
after_step text step_rename d = record { target = d.temporary; temporary = none }
after_step text step_chmod d = d
after_step text step_close d = d

-- What a call leaves that fails.
unfoldable pub after_fault : Text → WriteStep → Disk → Disk
after_fault partial step_write d = record d {
  temporary = some (record { content = partial; is_synced = false });
}
after_fault partial s d = d

-- The closure `cleanup`
unfoldable pub cleanup : Bool → Disk → Disk
cleanup is_removed d = if is_removed then record d { temporary = none } else d

-- Without a temporary file there is nothing to clean up.
unfoldable pub give_up : Bool → WriteStep → Disk → List Disk
unfolding cleanup
give_up is_removed step_create d = d ∷ []
give_up is_removed s d = d ∷ cleanup is_removed d ∷ []

-- The error, and the disk after each call, to the last.
unfoldable pub run_steps : WriteFaults → Text → List WriteStep → Disk → Option Text × List Disk
unfolding after_step after_fault give_up
run_steps f text [] d = (none, [])
run_steps f text (s ∷ steps) d =
    let d' = after_step text s d in
    let rest = run_steps f text steps d' in
    let broken = after_fault f.partial s d in
    elim (fault_of f s) [
      | some m ↦ (some m, give_up f.is_removed s broken)
      | none ↦ (rest.0, d' ∷ rest.1)
    ]

unfoldable pub write_file_atomic : WriteFaults → Text → Disk → Option Text × List Disk
unfolding run_steps
write_file_atomic f text d =
    run_steps f text
      (step_create ∷ step_write ∷ step_chmod ∷ step_sync ∷ step_close ∷ step_rename ∷ []) d

-- ---- atomicity ---------------------------------------------------------------------

-- The old file, or the whole new one, on the disk.
abbrev pub IsWhole : Text → Disk → Disk → Type 0
IsWhole text before d =
    (d.target ≡ before.target) ⊎ (d.target ≡ some (record { content = text; is_synced = true }))

abbrev last_disk : Disk → List Disk → Disk
last_disk d [] = d
last_disk d (x ∷ xs) = last_disk x xs

-- What is left at the end: the new file and no temporary one, or an error and the old file.
abbrev pub IsFinished : Text → Disk → Option Text × List Disk → Type 0
IsFinished text before (none, disks) =
    last_disk before disks
    ≡ record { target = some (record { content = text; is_synced = true }); temporary = none }
IsFinished text before (some m, disks) = (last_disk before disks).target ≡ before.target

cleanup-target : (b : Bool) (d : Disk) → (cleanup b d).target ≡ d.target
unfolding cleanup
cleanup-target true d = refl
cleanup-target false d = refl

atomic_by_faults :
    (c w h s l r : Option Text) (partial text : Text) (b : Bool) (d : Disk)
    → let f : WriteFaults = record {
      at_create = c;
      at_write = w;
      at_chmod = h;
      at_sync = s;
      at_close = l;
      at_rename = r;
      partial = partial;
      is_removed = b;
    } in
      All (IsWhole text d) (write_file_atomic f text d).1
      × IsFinished text d (write_file_atomic f text d)
unfolding write_file_atomic
atomic_by_faults (some m) w h s l r partial text b d = ((inl refl, tt), refl)
atomic_by_faults none (some m) h s l r partial text b d =
    let kept =
      cleanup-target b
        (record d { temporary = some (record { content = partial; is_synced = false }) }) in
    ((inl refl, (inl refl, (inl kept, tt))), kept)
atomic_by_faults none none (some m) s l r partial text b d =
    let kept =
      cleanup-target b
        (record d { temporary = some (record { content = text; is_synced = false }) }) in
    ((inl refl, (inl refl, (inl refl, (inl kept, tt)))), kept)
atomic_by_faults none none none (some m) l r partial text b d =
    let kept =
      cleanup-target b
        (record d { temporary = some (record { content = text; is_synced = false }) }) in
    ((inl refl, (inl refl, (inl refl, (inl refl, (inl kept, tt))))), kept)
atomic_by_faults none none none none (some m) r partial text b d =
    let kept =
      cleanup-target b
        (record d { temporary = some (record { content = text; is_synced = true }) }) in
    ((inl refl, (inl refl, (inl refl, (inl refl, (inl refl, (inl kept, tt)))))), kept)
atomic_by_faults none none none none none (some m) partial text b d =
    let kept =
      cleanup-target b
        (record d { temporary = some (record { content = text; is_synced = true }) }) in
    ((inl refl, (inl refl, (inl refl, (inl refl, (inl refl, (inl refl, (inl kept, tt))))))), kept)
atomic_by_faults none none none none none none partial text b d =
    ((inl refl, (inl refl, (inl refl, (inl refl, (inl refl, (inr refl, tt)))))), refl)

-- Writing fmon.toml is atomic: after each call, so also if the machine stops there, the file is the old
-- one or the whole new one with its content on the disk, whichever call fails and whatever a failing
-- write leaves. Without an error it is the new one, with an error the old one.
pub write_file_atomic-IsWhole :
    (f : WriteFaults) (text : Text) (d : Disk)
    → All (IsWhole text d) (write_file_atomic f text d).1
      × IsFinished text d (write_file_atomic f text d)
write_file_atomic-IsWhole f text d =
    atomic_by_faults f.at_create f.at_write f.at_chmod f.at_sync f.at_close f.at_rename f.partial
      text f.is_removed d
