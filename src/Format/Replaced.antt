-- ===== src/Format/Replaced.antt =====
-- Proofs about `FormatProject` of internal/compiler/format.go: which files it changes.
use ghi.Prelude.{
  ℕ, suc, String, ◌≡◌, refl, sym, ◌∙◌, ap, subst, ◌⊎◌, inl, inr, Bool, true, false, ◌&&◌, not,
  Option, none, some, List, [], ◌∷◌, ◌++◌, if◌then◌else◌, str_eq, Bool-cases, Option-cases, &&-true,
}
use ghi.Format.Project.{
  FilePath, Node, dir, file, broken, Nodes, no_nodes, more_nodes, Change, FormatError, Walk, Walked,
  failed, walked, skips_dir, skips_file, Writing, Effect, staged, replaced, dropped, Report,
  write_file, placing, format_file, visit_file, visit, visit_all, write_all, write_walked,
  format_project,
}

pub record Source : Type 0 where
  pub path : FilePath
  pub text : String

abbrev source_of : Bool → FilePath → Option String → List Source
source_of true path source = []
source_of false path none = []
source_of false path (some content) = record { path = path; text = content } ∷ []

-- The sources of a tree: hidden entries, other files and skipped directories are left out.
unfoldable mutual
  pub sources : Node → (root : Bool) → FilePath → List Source
  sources (dir name nodes) root path =
      let inner = all_sources nodes (name ∷ path) in
      if not root && skips_dir name then [] else inner
  sources (file name ext symlink source info) root path =
      source_of (skips_file name ext) (name ∷ path) source
  sources broken root path = []

  pub all_sources : Nodes → FilePath → List Source
  all_sources no_nodes path = []
  all_sources (more_nodes n ns) path = sources n false path ++ all_sources ns path

-- The files that were replaced, with the texts that they have now.
abbrev pub replacements : List Effect → List Change
replacements [] = []
replacements (replaced c ∷ effects) = c ∷ replacements effects
replacements (_ ∷ effects) = replacements effects

abbrev pub paths_of : List Change → List FilePath
paths_of [] = []
paths_of (c ∷ cs) = c.path ∷ paths_of cs

append_assoc {ℓ} : {A : Type ℓ} (xs ys zs : List A) → (xs ++ ys) ++ zs ≡ xs ++ (ys ++ zs)
append_assoc [] ys zs = refl
append_assoc (x ∷ xs) ys zs = ap (λ r. x ∷ r) (append_assoc xs ys zs)

append-nil {ℓ} : {A : Type ℓ} (xs : List A) → xs ++ [] ≡ xs
append-nil [] = refl
append-nil (x ∷ xs) = ap (λ r. x ∷ r) (append-nil xs)

Walked-cases : (r : Walked) → ((e : FormatError) × (r ≡ failed e)) ⊎ ((w : Walk) × (r ≡ walked w))
Walked-cases (failed e) = inl (e, refl)
Walked-cases (walked w) = inr (w, refl)

replacements-append :
    (xs ys : List Effect) → replacements (xs ++ ys) ≡ replacements xs ++ replacements ys
replacements-append [] ys = refl
replacements-append (replaced c ∷ xs) ys = ap (λ r. c ∷ r) (replacements-append xs ys)
replacements-append (staged p ∷ xs) ys = replacements-append xs ys
replacements-append (dropped p ∷ xs) ys = replacements-append xs ys

write_file-created : (w : Writing) (c : Change) → write_file w c ≡ true → w.created ≡ true
unfolding write_file
write_file-created w c h = (&&-true w.created _ h).0

placing-replaced :
    (made : Bool) (c : Change) → made ≡ true → replacements (placing made true c) ≡ c ∷ []
placing-replaced true c h = refl
placing-replaced false c h = cc

placing-kept : (made : Bool) (c : Change) → replacements (placing made false c) ≡ []
placing-kept true c = refl
placing-kept false c = refl

abbrev changes_of : Walked → List Change
changes_of (failed e) = []
changes_of (walked w) = w.changes

module _ (cancelled : ℕ → Bool) (format : FilePath → String → Option String) where
  abbrev pub change_from : FilePath → String → Option String → List Change
  change_from path content none = []
  change_from path content (some output) =
      if str_eq content output then [] else record { path = path; text = output } ∷ []

  -- The sources whose formatted text is another one, with that text.
  abbrev pub needed : List Source → List Change
  needed [] = []
  needed (s ∷ ss) = change_from s.path s.text (format s.path s.text) ++ needed ss

  needed-append : (xs ys : List Source) → needed (xs ++ ys) ≡ needed xs ++ needed ys
  needed-append [] ys = refl
  needed-append (x ∷ xs) ys =
      ap (λ r. change_from x.path x.text (format x.path x.text) ++ r) (needed-append xs ys)
      ∙ sym
          (append_assoc (change_from x.path x.text (format x.path x.text)) (needed xs) (needed ys))

  format_file-changes :
      (path : FilePath) (content : String) (info : Bool) (w w' : Walk)
      → format_file cancelled format path content info w ≡ walked w'
      → w'.changes ≡ w.changes ++ change_from path content (format path content)
  unfolding format_file
  format_file-changes path content info w w' h = elim (Option-cases (format path content)) [
    | inl bad ↦ absurd (cc (rw (bad, format_file) at h))
    | inr (output, good) ↦ elim (Bool-cases (str_eq content output)) [
      | inl same ↦
          rw (good, same)
            (ap changes_of (sym (rw (good, same, format_file) at h)) ∙ sym (append-nil w.changes))
      | inr other ↦ elim (Bool-cases info) [
        | inl there ↦
            rw (good, other) (ap changes_of (sym (rw (good, other, there, format_file) at h)))
        | inr absent ↦ absurd (cc (rw (good, other, absent, format_file) at h))
      ]
    ]
  ]

  visit_file-changes :
      (name ext : String) (symlink : Bool) (source : Option String) (info : Bool) (path : FilePath)
      (w w' : Walk)
      → visit_file cancelled format name ext symlink source info path w ≡ walked w'
      → w'.changes ≡ w.changes ++ needed (source_of (skips_file name ext) path source)
  unfolding visit_file
  visit_file-changes name ext symlink source info path w w' h =
      elim (Bool-cases (skips_file name ext)) [
        | inl skips ↦ rw skips (ap changes_of (sym (rw skips at h)) ∙ sym (append-nil w.changes))
        | inr reads ↦ elim (Bool-cases symlink) [
          | inl linked ↦ absurd (cc (rw (reads, linked) at h))
          | inr plain ↦ elim (Option-cases source) [
            | inl missing ↦ absurd (cc (rw (reads, plain, missing) at h))
            | inr (content, found) ↦
                rw (reads, found)
                  (format_file-changes path content info w w' (rw (reads, plain, found) at h)
                    ∙ ap (λ r. w.changes ++ r)
                        (sym (append-nil (change_from path content (format path content)))))
          ]
        ]
      ]

  mutual
    unfolding visit sources

    visit-changes :
        (n : Node) (root : Bool) (path : FilePath) (w w' : Walk)
        → visit cancelled format n root path w ≡ walked w'
        → w'.changes ≡ w.changes ++ needed (sources n root path)
    visit-changes (dir name nodes) root path w w' h = elim (Bool-cases (cancelled w.polls)) [
      | inl stopped ↦ absurd (cc (rw stopped at h))
      | inr going ↦ elim (Bool-cases (not root && skips_dir name)) [
        | inl skips ↦
            rw skips (ap changes_of (sym (rw (going, skips) at h)) ∙ sym (append-nil w.changes))
        | inr enters ↦ rw enters (
            visit_all-changes nodes (name ∷ path) (record w { polls = suc w.polls }) w'
              (rw (going, enters) at h))
      ]
    ]
    visit-changes (file name ext symlink source info) root path w w' h =
        elim (Bool-cases (cancelled w.polls)) [
          | inl stopped ↦ absurd (cc (rw stopped at h))
          | inr going ↦
              visit_file-changes name ext symlink source info (name ∷ path)
                (record w { polls = suc w.polls }) w' (rw going at h)
        ]
    visit-changes broken root path w w' h = elim (Bool-cases (cancelled w.polls)) [
      | inl stopped ↦ absurd (cc (rw stopped at h))
      | inr going ↦ absurd (cc (rw going at h))
    ]

    visit_all-changes :
        (ns : Nodes) (path : FilePath) (w w' : Walk)
        → visit_all cancelled format ns path w ≡ walked w'
        → w'.changes ≡ w.changes ++ needed (all_sources ns path)
    visit_all-changes no_nodes path w w' h = ap changes_of (sym h) ∙ sym (append-nil w.changes)
    visit_all-changes (more_nodes n ns) path w w' h =
        elim (Walked-cases (visit cancelled format n false path w)) [
          | inl (e, stopped) ↦ absurd (cc (rw stopped at h))
          | inr (v, there) ↦
              visit_all-changes ns path v w' (rw there at h)
              ∙ ap (λ r. r ++ needed (all_sources ns path)) (visit-changes n false path w v there)
              ∙ append_assoc w.changes (needed (sources n false path))
                  (needed (all_sources ns path))
              ∙ ap (λ r. w.changes ++ r)
                  (sym (needed-append (sources n false path) (all_sources ns path)))
        ]

  -- What a report says of the changes that were due: in check mode nothing is done to the disk and
  -- otherwise the files replaced are the paths reported; they are the first of those due, and all
  -- of them if there is no error.
  abbrev pub Reports : (check : Bool) → List Change → Report → Type 0
  Reports check due r =
      (cs rest : List Change) × (due ≡ cs ++ rest)
      × (r.paths ≡ paths_of cs)
      × (replacements r.effects ≡ (if check then [] else cs))
      × (r.error ≡ none → rest ≡ [])
      × (check ≡ true → r.effects ≡ [])

  write_all-Reports :
      (check : Bool) (writing : ℕ → Writing) (polls i : ℕ) (due : List Change)
      → Reports check due (write_all cancelled format check writing polls i due)
  unfolding write_all
  write_all-Reports true writing polls i [] = ([], [], refl, refl, refl, λ e. refl, λ c. refl)
  write_all-Reports false writing polls i [] =
      ([], [], refl, refl, refl, λ e. refl, λ h. absurd (cc))
  write_all-Reports true writing polls i (c ∷ due) = elim (Bool-cases (cancelled polls)) [
    | inl stopped ↦ rw stopped ([], c ∷ due, refl, refl, refl, λ e. absurd (cc), λ h. refl)
    | inr going ↦
        let (cs, rest, split, same, done, full, idle) =
          write_all-Reports true writing (suc polls) (suc i) due in
        rw going (c ∷ cs, rest, ap (λ r. c ∷ r) split, ap (λ r. c.path ∷ r) same, done, full, idle)
  ]
  write_all-Reports false writing polls i (c ∷ due) = elim (Bool-cases (cancelled polls)) [
    | inl stopped ↦ rw stopped ([], c ∷ due, refl, refl, refl, λ e. absurd (cc), λ h. absurd (cc))
    | inr going ↦ elim (Bool-cases (write_file (writing i) c)) [
      | inl wrote ↦
          let (cs, rest, split, same, done, full, idle) =
            write_all-Reports false writing (suc polls) (suc i) due in
          rw (going, wrote)
            (
              c ∷ cs,
              rest,
              ap (λ r. c ∷ r) split,
              ap (λ r. c.path ∷ r) same,
              replacements-append (placing (writing i).created true c) _
                  ∙ ap
                      (λ r.
                        r
                        ++ replacements
                            (write_all cancelled format false writing (suc polls) (suc i)
                              due).effects)
                      (placing-replaced (writing i).created c
                        (write_file-created (writing i) c wrote))
                  ∙ ap (λ r. c ∷ r) done,
              full,
              λ h. absurd (cc),
            )
      | inr refused ↦
          rw (going, refused)
            (
              [],
              c ∷ due,
              refl,
              refl,
              placing-kept (writing i).created c,
              λ e. absurd (cc),
              λ h. absurd (cc),
            )
    ]
  ]

  Reports-error :
      (check : Bool) (due : List Change) (e : FormatError)
      → Reports check due (record { paths = []; error = some e; effects = [] })
  Reports-error true due e = ([], due, refl, refl, refl, λ none_here. absurd (cc), λ h. refl)
  Reports-error false due e =
      ([], due, refl, refl, refl, λ none_here. absurd (cc), λ h. absurd (cc))

  write_walked-Reports :
      (check : Bool) (writing : ℕ → Writing) (root : Node) (start : Walk) (r : Walked)
      → start.changes ≡ []
      → visit cancelled format root true [] start ≡ r
      → Reports check
          (needed (sources root true []))
          (write_walked cancelled format check writing r)
  unfolding write_walked
  write_walked-Reports check writing root start (failed e) fresh stopped =
      Reports-error check (needed (sources root true [])) e
  write_walked-Reports check writing root start (walked w) fresh there =
      subst
        (λ due. Reports check due (write_all cancelled format check writing w.polls 0 w.changes))
        (visit-changes root true [] start w there
          ∙ ap (λ r. r ++ needed (sources root true [])) fresh)
        (write_all-Reports check writing w.polls 0 w.changes)

  -- Whatever happens to the context, the walk and the file operations: in check mode nothing is
  -- done to the disk, and otherwise the files replaced are exactly the paths reported, each with its
  -- formatted text; they are the first, in the order of the walk, of the sources whose formatted
  -- text is another one; and if no error is reported, they are all of them.
  pub format_project-Reports :
      (check : Bool) (writing : ℕ → Writing) (root : Node)
      → Reports check
          (needed (sources root true []))
          (format_project cancelled format check writing root)
  unfolding format_project
  format_project-Reports check writing root =
      write_walked-Reports check writing root start (visit cancelled format root true [] start) refl
        refl
    where
      start : Walk
      start = record { polls = 0; changes = [] }
