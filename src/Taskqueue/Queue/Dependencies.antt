-- ===== src/Taskqueue/Queue/Dependencies.antt =====
-- `dependencies_met` and `blocked_reason` against a test that does not change the state.
use iddo_harness.Prelude.{
  ◌∙◌, fun_ext, ap, inl, inr, ℕ, String, ◌≡◌, refl, eq_iff, Bool, true, ◌&&◌, ◌||◌, not, List, [],
  ◌∷◌, arith, all, is_none, Bool-cases,
}
use iddo_harness.Prelude.Ids
use iddo_harness.Prelude.Ids.{contains, contains-add}
use iddo_harness.Taskqueue.Queue.{Entry, dependencies_met, blocked_reason, too_early}

-- A dependency counts as done if it is recorded, or if the outside check confirms it.
abbrev pub done : (String → Bool) → List String → String → Bool
done probe completed d = contains completed d || probe d

module _ (probe : String → Bool) where
  done-add :
      (dep : String) (completed : List String) (d : String)
      → probe dep ≡ true
      → done probe (Ids.add dep completed) d ≡ done probe completed d
  done-add dep completed d h = ground (arith, contains-add dep d completed, eq_iff dep d)

  -- Recording what was found changes no later answer.
  pub done-dependencies_met :
      (deps completed : List String) (d : String)
      → done probe (dependencies_met probe deps completed).1 d ≡ done probe completed d
  unfolding dependencies_met
  done-dependencies_met [] completed d = refl
  done-dependencies_met (dep ∷ deps) completed d = elim (Bool-cases (contains completed dep)) [
    | inl known ↦ rw known (done-dependencies_met deps completed d)
    | inr new ↦ elim (Bool-cases (probe dep)) [
      | inl found ↦
          rw (new, found)
            (done-dependencies_met deps (Ids.add dep completed) d ∙ done-add dep completed d found)
      | inr missing ↦ rw (new, missing)
    ]
  ]

  all-done-add :
      (dep : String) (completed deps : List String)
      → probe dep ≡ true
      → all (done probe (Ids.add dep completed)) deps ≡ all (done probe completed) deps
  all-done-add dep completed deps h =
      ap (λ (f : String → Bool). all f deps) (fun_ext (λ d. done-add dep completed d h))

  pub dependencies_met-eq-all :
      (deps completed : List String)
      → (dependencies_met probe deps completed).0 ≡ all (done probe completed) deps
  unfolding dependencies_met
  dependencies_met-eq-all [] completed = refl
  dependencies_met-eq-all (dep ∷ deps) completed = elim (Bool-cases (contains completed dep)) [
    | inl known ↦ rw known (dependencies_met-eq-all deps completed)
    | inr new ↦ elim (Bool-cases (probe dep)) [
      | inl found ↦
          rw (new, found)
            (dependencies_met-eq-all deps (Ids.add dep completed)
              ∙ all-done-add dep completed deps found)
      | inr missing ↦ rw (new, missing)
    ]
  ]

-- May the entry run now, if `known` tells which dependencies are done?
abbrev pub ready : (String → Bool) → ℕ → Entry → Bool
ready known now e = not (too_early now e.schedule) && all known e.schedule.depends_on

module _ (probe : String → Bool) (now : ℕ) (e : Entry) (completed : List String) where
  -- An entry has no reason to wait exactly when it is ready.
  pub blocked_reason-eq-ready :
      is_none (blocked_reason probe now e completed).0 ≡ ready (done probe completed) now e
  unfolding blocked_reason
  blocked_reason-eq-ready =
      ground (arith, dependencies_met-eq-all probe e.schedule.depends_on completed)

  pub done-blocked_reason :
      (d : String) → done probe (blocked_reason probe now e completed).1 d ≡ done probe completed d
  unfolding blocked_reason
  done-blocked_reason d =
      ground (arith, done-dependencies_met probe e.schedule.depends_on completed d)
