-- ===== src/Vfs/Registered.antt =====
-- File systems that are registered, and those that are not, in `vfs_mountFilesystemType`.
use hexahedron.Base.{
  ℕ, ◌≡◌, ◌≢◌, refl, ◌∙◌, Bool, true, false, Option, none, some, arith, ◌==◌, if◌then◌else◌, sym,
  Bool-cases, inl, inr,
}
use hexahedron.Base.Outcome.{done, Op}
use hexahedron.Libc.Strings.Compare.{IsText}
use hexahedron.Hashmap.{Hashmap, same_key}
use hexahedron.Hashmap.Chains.{same_key_iff, or_null}
use hexahedron.Hashmap.Map.{IsValid, value_of, set_lem, get-has}
use hexahedron.Vfs.{Name}
use hexahedron.Vfs.Tree.{Vfs}
use hexahedron.Vfs.Filesystems.{
  Filesystem, vfs_register_filesystem, with_node, vfs_mount_filesystem_type,
}

module _ (files : ℕ → Filesystem) (run : ℕ → Option Name → Option Name → Op Vfs (Option ℕ))
    (null_ends : Bool) (fuel : ℕ) (argp mountpoint : Option Name) where
  -- the call for a name, by the address that the table has for it
  mount_type-value_of :
      (name : Name) (table : Hashmap) (s : Vfs)
      → s.vfs_filesystems ≡ some table
      → IsValid table
      → vfs_mount_filesystem_type files run null_ends fuel (some name) argp mountpoint s ≡ (
          if or_null (value_of table name) == 0
          then done none s
          else elim ((files (or_null (value_of table name))).mount) [
            | none ↦ done none s
            | some callback ↦
                with_node files run null_ends fuel name mountpoint (run callback argp mountpoint s)
          ])
  unfolding vfs_mount_filesystem_type
  mount_type-value_of name table s at v =
      simp (vfs_mount_filesystem_type, at, (get-has name v).0) refl

  -- Let the table of file systems be well-formed and lack no string for its keys, and let a file system
  -- with a callback stand at an address other than NULL under a name that is a string. Then
  -- `vfs_registerFilesystem` returns 0 and the table stays well-formed, and `vfs_mountFilesystemType` of
  -- the name then goes on with the result of this callback; a name that is neither this one nor was in
  -- the table gives NULL and changes nothing.
  pub mount_type-register :
      (fs callback : ℕ) (table : Hashmap) (s : Vfs) (other : Name)
      → s.vfs_filesystems ≡ some table
      → IsValid table
      → IsText (files fs).name
      → fs ≢ 0
      → (files fs).mount ≡ some callback
      → IsText other
      → other ≢ (files fs).name
      → value_of table other ≡ none
      → (t : Vfs) × (vfs_register_filesystem fs (files fs) s ≡ done 0 t)
        × (vfs_mount_filesystem_type files run null_ends fuel
              (some (files fs).name)
              argp
              mountpoint
              t
            ≡ with_node files run null_ends fuel
                (files fs).name
                mountpoint
                (run callback argp mountpoint t))
        × (vfs_mount_filesystem_type files run null_ends fuel (some other) argp mountpoint t
            ≡ done none t)
  unfolding vfs_register_filesystem
  mount_type-register fs callback table s other at v text real has other_text apart missing =
      let name = (files fs).name in
      let (table', called, values, v') = set_lem name fs v text in
      let t : Vfs = record s { vfs_filesystems = some table' } in
      let same : same_key name name ≡ true = (same_key_iff name name text text).1 refl in
      let found : value_of table' name ≡ some fs = values name text ∙ rw same refl in
      let differ : same_key name other ≡ false = elim (Bool-cases (same_key name other)) [
        | inl hit ↦ absurd (apart (sym ((same_key_iff name other text other_text).0 hit)))
        | inr miss ↦ miss
      ] in
      let lost : value_of table' other ≡ none = values other other_text ∙ rw differ missing in
      let set_up : (fs == 0) ≡ false = ground arith in
      (
        t,
        simp (vfs_register_filesystem, at, called) refl,
        mount_type-value_of name table' t refl v' ∙ rw (found, set_up, has) refl,
        mount_type-value_of other table' t refl v' ∙ rw lost refl,
      )
