-- ===== src/ProfileLocking/Exclusion.antt =====
-- src/libprofilemanifest/profilelocking.c: the lock file of a profile.
use disnix.Prelude.{
  ◌≡◌, refl, sym, ap, subst, ◌∙◌, String, Bool, true, false, some, eq_refl, arith, Bool-cases, inl,
  inr,
}
use disnix.ProfileLocking.{
  LockState, Machine, IsMachine, ProfileManifest, is_locked, create_lock_filename, lock_profile,
  acquire_locks,
}
use disnix.ProfileLocking.Notifications.{acquire_locks_cases}

module _ {x : Machine} (laws : IsMachine x) (tmpdir profile : String) where
  abbrev pub held : LockState → Bool
  held s = is_locked (create_lock_filename tmpdir profile) s.lock_files

  lock_profile-taken :
      (s : LockState)
      → (lock_profile x tmpdir profile s).0 ≡ true
      → (held s ≡ false) × (held (lock_profile x tmpdir profile s).1 ≡ true)
  unfolding lock_profile
  lock_profile-taken s e =
      let filename = create_lock_filename tmpdir profile in
      ground (arith, laws.exclusive s.lock_files filename, eq_refl filename)

  lock_profile-refused :
      (s : LockState)
      → (lock_profile x tmpdir profile s).0 ≡ false
      → (lock_profile x tmpdir profile s).1.lock_files ≡ s.lock_files
  unfolding lock_profile
  lock_profile-refused s e = ground arith

  acquire_locks-held :
      (m : ProfileManifest) (s s' : LockState) (success : Bool)
      → acquire_locks x tmpdir m profile s ≡ some (success, s')
      → (success ≡ true → (held s ≡ false) × (held s' ≡ true))
        × (success ≡ false → s'.lock_files ≡ s.lock_files)
  acquire_locks-held m s s' success e =
      let run = acquire_locks_cases x tmpdir m profile s s' success e in
      elim run.ending [
        | inl (locked, ended) ↦
            let files = run.told.same_files in
            (
              (λ t.
                  let h = lock_profile-taken run.locked (ap (λ r. r.0) ended ∙ t) in
                  (
                    subst (λ fs. is_locked (create_lock_filename tmpdir profile) fs ≡ false) files
                        h.0,
                    subst (λ (r : LockState). held r ≡ true) (ap (λ r. r.1) ended) h.1,
                  )),
              (λ t.
                  sym (ap (λ (r : Bool × LockState). r.1.lock_files) ended)
                  ∙ lock_profile-refused run.locked (ap (λ r. r.0) ended ∙ t)
                  ∙ files),
            )
        | inr (failed, no_success, undone) ↦
            ((λ t. absurd (ground arith)), (λ t. undone.same_files ∙ run.told.same_files))
      ]

  -- On a file system that creates no file that exists: an acquire_locks that returns true has found
  -- no lock file for the profile, and there is one afterwards.
  pub acquire_locks-free :
      (m : ProfileManifest) (s s' : LockState)
      → acquire_locks x tmpdir m profile s ≡ some (true, s')
      → (held s ≡ false) × (held s' ≡ true)
  acquire_locks-free m s s' e = (acquire_locks-held m s s' true e).0 refl

  -- On a file system that creates no file that exists: after an acquire_locks on a profile that has
  -- returned true, a further one on it that returns has returned false, and the lock file is still
  -- there.
  pub acquire_locks-exclusive :
      (m n : ProfileManifest) (s s₁ s₂ : LockState) (success : Bool)
      → acquire_locks x tmpdir m profile s ≡ some (true, s₁)
      → acquire_locks x tmpdir n profile s₁ ≡ some (success, s₂)
      → (success ≡ false) × (held s₂ ≡ true)
  acquire_locks-exclusive m n s s₁ s₂ success e f =
      let first = (acquire_locks-held m s s₁ true e).0 refl in
      let second = acquire_locks-held n s₁ s₂ success f in
      elim (Bool-cases success) [
        | inl t ↦ absurd (ground (arith, (second.0 t).0, first.1))
        | inr t ↦ (
          t,
          subst (λ fs. is_locked (create_lock_filename tmpdir profile) fs ≡ true) (sym (second.1 t))
              first.1,
        )
      ]
