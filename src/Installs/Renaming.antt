-- ===== src/Installs/Renaming.antt =====
-- src/installer.ts: the root after a replacement of a directory.
use dsh_ai_coding.Base.{
  Bool, false, not, ◌||◌, ◌≡◌, refl, sym, ap, ◌∙◌, Option, none, some, List, String, ok, err,
  str_eq, eq_iff, str_eq_refl, str_eq-sym, is_none, Bool-cases, inl, inr, some_inj, by_if,
  by_option, arith, from_none, from_false, if◌then◌else◌,
}
use dsh_ai_coding.Installs.Artifact.{ArtifactFile}
use dsh_ai_coding.Installs.Installer.{
  is_free, InstallFailure, raised, Entries, put, Faults, rename, Written, replace_directory,
}

-- Both roots have the same files in every directory.
abbrev pub Alike : Entries → Entries → Type 0
Alike d e = (path : String) → d path ≡ e path

-- How a replacement ends: with the new files in place, or with the entries as they were but for the
-- temporary directory.
pub data Settled (target temporary : String) (files : List ArtifactFile) (disk : Entries)
    : Written → Type 0 where
  replaced :
      (d : Entries)
      → Alike d (put target (some files) disk)
      → Settled target temporary files disk (d, ok tt)
  left :
      (d : Entries) (e : InstallFailure)
      → Alike (put temporary none d) disk
      → Settled target temporary files disk (d, err e)

-- A rename that succeeds moves the files of its source.
rename-moved :
    (fault : Bool) (source target : String) (disk d : Entries)
    → rename fault source target disk ≡ some d
    → (tree : List ArtifactFile) × (disk source ≡ some tree)
      × Alike d (put target (some tree) (put source none disk))
rename-moved fault source target disk d e = moved (disk source) refl e
  where
    moved :
        (o : Option (List ArtifactFile))
        → disk source ≡ o
        → elim o [
          | none ↦ none
          | some tree ↦
              if fault || not (is_free (disk target))
              then none
              else some (put target (some tree) (put source none disk))
        ]
          ≡ some d
        → (tree : List ArtifactFile) × (disk source ≡ some tree)
          × Alike d (put target (some tree) (put source none disk))
    moved none s e = from_none e
    moved (some tree) s e = elim (Bool-cases (fault || not (is_free (disk target)))) [
      | inl t ↦ from_none (
          ap (λ b. if b then none else some (put target (some tree) (put source none disk))) (sym t)
          ∙ e)
      | inr t ↦ (
        tree,
        s,
        λ p.
            ap (λ (k : Entries). k p)
              (some_inj (
                sym e
                ∙ ap (λ b. if b then none else some (put target (some tree) (put source none disk)))
                    t)),
      )
    ]

-- A rename that does not raise succeeds, from a directory to a free place.
rename-some :
    (fault : Bool) (source target : String) (disk : Entries) (tree : List ArtifactFile)
    → fault ≡ false
    → disk source ≡ some tree
    → disk target ≡ none
    → rename fault source target disk ≡ none
    → ⊥
rename-some fault source target disk tree f s t e = ground (arith, f, s, t, e)

module _ (faults : Faults) (temporary target backup : String) (files : List ArtifactFile)
    (disk : Entries) (apart : str_eq temporary target ≡ false)
    (beside : str_eq backup target ≡ false) (distinct : str_eq temporary backup ≡ false)
    (new_temporary : disk temporary ≡ none) (new_backup : disk backup ≡ none)
    (restores : faults.restores ≡ false) (cleans : faults.cleans ≡ false) where
  abbrev w : Entries
  w = put temporary (some files) disk

  unwritten : Alike (put temporary none w) disk
  unwritten p = ground (arith, eq_iff p temporary, new_temporary)

  -- The new directory in the place of the target.
  swapped :
      (tree : List ArtifactFile) (d : Entries)
      → w temporary ≡ some tree
      → Alike d (put target (some tree) (put temporary none w))
      → Alike d (put target (some files) disk)
  swapped tree d e h p =
      ground (arith, e, h p, str_eq_refl temporary, eq_iff p temporary, new_temporary)

  -- The backup in the place of the target again.
  restored :
      (tree old : List ArtifactFile) (k d : Entries)
      → w target ≡ some tree
      → Alike k (put backup (some tree) (put target none w))
      → k backup ≡ some old
      → Alike d (put target (some old) (put backup none k))
      → Alike (put temporary none d) disk
  restored tree old k d e hk o hd p = ground (
    arith,
    e,
    hk p,
    hk backup,
    o,
    hd p,
    str_eq_refl backup,
    eq_iff p temporary,
    eq_iff p target,
    eq_iff p backup,
    eq_iff target temporary,
    apart,
    str_eq-sym temporary target,
    new_temporary,
    new_backup,
  )

  -- The new directory in the place of the target, and the backup removed.
  cleaned :
      (tree new : List ArtifactFile) (k d : Entries)
      → Alike k (put backup (some tree) (put target none w))
      → k temporary ≡ some new
      → Alike d (put target (some new) (put temporary none k))
      → Alike (put backup none d) (put target (some files) disk)
  cleaned tree new k d hk o hd p = ground (
    arith,
    hk p,
    hk temporary,
    o,
    hd p,
    str_eq_refl temporary,
    eq_iff p temporary,
    eq_iff p target,
    eq_iff p backup,
    apart,
    beside,
    distinct,
    new_temporary,
    new_backup,
  )

  not_restored :
      (tree : List ArtifactFile) (k : Entries)
      → Alike k (put backup (some tree) (put target none w))
      → rename faults.restores backup target k ≡ none
      → ⊥
  not_restored tree k hk x =
      rename-some faults.restores backup target k tree restores
        (ground (arith, hk backup, str_eq_refl backup))
        (ground (arith, hk target, str_eq_refl target, str_eq-sym target backup, beside)) x

  replace_directory-Settled :
      Settled target temporary files disk
        (replace_directory faults temporary target backup (put temporary (some files) disk))
  unfolding replace_directory
  replace_directory-Settled =
      by_if S (is_none (w target))
        (λ n.
          by_option S (rename faults.swaps temporary target w) (λ _. left w raised unwritten)
            (λ d e.
              let m = rename-moved faults.swaps temporary target w d e in
              replaced d (swapped m.0 d m.1 m.2)))
        (λ n.
          by_option S (rename faults.backs_up target backup w) (λ _. left w raised unwritten)
            (λ k ek.
              let mk = rename-moved faults.backs_up target backup w k ek in
              by_option S (rename faults.swaps temporary target k)
                (λ _.
                  by_option S (rename faults.restores backup target k)
                    (λ x. elim (not_restored mk.0 k mk.2 x) [ ])
                    (λ d e.
                      let mr = rename-moved faults.restores backup target k d e in
                      left d raised (restored mk.0 mr.0 k d mk.1 mk.2 mr.1 mr.2)))
                (λ d e.
                  let ms = rename-moved faults.swaps temporary target k d e in
                  by_if S faults.cleans (λ c. from_false (sym cleans ∙ c))
                    (λ _. replaced (put backup none d) (cleaned mk.0 ms.0 k d mk.2 ms.1 ms.2)))))
    where
      S : Written → Type 0
      S = Settled target temporary files disk

  spoiled : Alike (put temporary none (put temporary (some faults.written) disk)) disk
  spoiled p = ground (arith, eq_iff p temporary, new_temporary)

  pub written-Settled : Settled target temporary files disk (
      if faults.writes
      then (put temporary (some faults.written) disk, err raised)
      else replace_directory faults temporary target backup w)
  written-Settled =
      by_if (Settled target temporary files disk) faults.writes
        (λ _. left (put temporary (some faults.written) disk) raised spoiled)
        (λ _. replace_directory-Settled)
