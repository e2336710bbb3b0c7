-- ===== src/Cache/Safe.antt =====
-- Proofs about `store` and `valid` of internal/compiler/build_cache.go.
use ghi.Prelude.{
  String, ◌≡◌, refl, sym, subst, length, ◌==◌, not, ◌&&◌, ◌⊎◌, inl, inr, Bool, true, false, none,
  some, List, [], ◌∷◌, ◌++◌, eq_iff, Bool-cases, if◌then◌else◌,
}
use ghi.Cache.Store.{
  Entry, CacheState, StateFile, absent, unreadable, state, Disk, same_files, snapshot, read_state,
  has_key, valid, removals, updates, Operation, remove_file, write_file, Outcome, done, failed,
  cut_off, perform, interrupt, Progress, stopped, went_on, perform_all, write_state, publish, store,
}

-- What `store` may leave: the disk as it was, a cache without a state that can be read, or the
-- state of this generation over a workspace that has its files.
abbrev pub Left : CacheState → (before after : Disk) → Type 0
Left s before after =
    (after ≡ before)
    ⊎ (after.state_file ≡ absent)
    ⊎ (after.state_file ≡ unreadable)
    ⊎ ((after.state_file ≡ state s) × (same_files s.files after.workspace ≡ true))

abbrev disk_of : Progress → Disk
disk_of (stopped d) = d
disk_of (went_on d outcomes) = d

perform-absent :
    (op : Operation) (d : Disk) → d.state_file ≡ absent → (perform op d).state_file ≡ absent
perform-absent (remove_file name) d h = h
perform-absent (write_file e) d h = h

interrupt-absent :
    (op : Operation) (digest : String) (d : Disk)
    → d.state_file ≡ absent
    → (interrupt op digest d).state_file ≡ absent
interrupt-absent (remove_file name) digest d h = h
interrupt-absent (write_file e) digest d h = h

perform_all-absent :
    (ops : List Operation) (outcomes : List Outcome) (d : Disk)
    → d.state_file ≡ absent
    → (disk_of (perform_all ops outcomes d)).state_file ≡ absent
unfolding perform_all
perform_all-absent [] outcomes d h = h
perform_all-absent (op ∷ ops) [] d h = h
perform_all-absent (op ∷ ops) (done ∷ outcomes) d h =
    perform_all-absent ops outcomes (perform op d) (perform-absent op d h)
perform_all-absent (op ∷ ops) (failed ∷ outcomes) d h = h
perform_all-absent (op ∷ ops) (cut_off digest ∷ outcomes) d h = interrupt-absent op digest d h

publish-Left :
    (s : CacheState) (before : Disk) (p : Progress)
    → (disk_of p).state_file ≡ absent
    → Left s before (publish s p)
unfolding publish
publish-Left s before (stopped d) h = inr (inl h)
publish-Left s before (went_on d outcomes) h = elim (Bool-cases (same_files s.files d.workspace)) [
  | inl same ↦ rw same (written outcomes same)
  | inr different ↦ rw different (inr (inl h))
]
  where
    written :
        (outcomes : List Outcome)
        → same_files s.files d.workspace ≡ true
        → Left s before (write_state s outcomes d)
    written [] same = inr (inl h)
    written (done ∷ rest) same = inr (inr (inr (refl, same)))
    written (failed ∷ rest) same = inr (inl h)
    written (cut_off digest ∷ rest) same = inr (inr (inl refl))

store-Left :
    (key : String) (files : List Entry) (outcomes : List Outcome) (d : Disk)
    → Left (record { key = key; files = files }) d (store key files outcomes d)
unfolding store
store-Left key files [] d = inl refl
store-Left key files (failed ∷ outcomes) d = inl refl
store-Left key files (cut_off digest ∷ outcomes) d = inl refl
store-Left key files (done ∷ outcomes) d =
    let ops = removals d.workspace files ++ updates files d.workspace in
    let emptied : Disk = record d { state_file = absent } in
    publish-Left (record { key = key; files = files }) d (perform_all ops outcomes emptied)
      (perform_all-absent ops outcomes emptied refl)

read_state-key :
    (key : String) (s : CacheState) (workspace : List Entry)
    → has_key (read_state (state s) workspace) key ≡ true
    → s.key ≡ key
unfolding read_state
read_state-key key s workspace h =
    key_of (not (length s.files == 0) && same_files workspace s.files) h
  where
    key_of : (b : Bool) → has_key (if b then some s else none) key ≡ true → s.key ≡ key
    key_of true e = (eq_iff s.key key).0 e
    key_of false e = cc

-- Wherever `store` fails or is cut off: if the cache is valid for some key afterwards, then either the
-- disk is as it was before, or the key is that of the new generation and the workspace has exactly
-- its files. An interrupted `store` is never taken for a complete one.
pub store-valid :
    (key wanted : String) (files : List Entry) (outcomes : List Outcome) (d : Disk)
    → valid wanted (store key files outcomes d) ≡ true
    → (store key files outcomes d ≡ d)
      ⊎ ((wanted ≡ key) × (same_files files (store key files outcomes d).workspace ≡ true))
unfolding valid snapshot read_state
store-valid key wanted files outcomes d h =
    let after = store key files outcomes d in
    let holds : (f : StateFile)
        → after.state_file ≡ f
        → has_key (read_state f after.workspace) wanted ≡ true =
      λ f same. subst (λ g. has_key (read_state g after.workspace) wanted ≡ true) same h in
    elim (store-Left key files outcomes d) [
      | inl kept ↦ inl kept
      | inr (inl gone) ↦ absurd (cc (holds absent gone))
      | inr (inr (inl bad)) ↦ absurd (cc (holds unreadable bad))
      | inr (inr (inr (now, same))) ↦ inr (
        sym (
            read_state-key wanted (record { key = key; files = files }) after.workspace
              (holds (state (record { key = key; files = files })) now)),
        same,
      )
    ]
