-- ===== src/Tests/Termination.antt =====
-- The activation and the deactivation of the example configuration, in a world where each new process has a pid above
-- those of its siblings and the wait at the third tick is interrupted.
use disnix.Prelude.{
  ℕ, suc, ◌+◌, ◌==◌, ltb, ◌≤◌, ◌<◌, ◌≡◌, ◌≢◌, refl, subst, some, none, String, str_eq, eq_iff, List,
  [], ◌∷◌, Memᴰ, true, false, All, Bool-cases, inl, inr, arith, lookup, if◌then◌else◌,
}
use disnix.Platform.{Table}
use disnix.Platform.Posix.{World, IsWorld, Exit}
use disnix.Model.{ManifestService}
use disnix.Traverse.State.{TraverseState, unfinished}
use disnix.Transition.{Setting, setting, activate_array}
use disnix.Transition.Termination.{activation_terminates}
use disnix.Tests.Checks.{lookup-All}
use disnix.Tests.Machine.{platform, platform-IsPlatform, exits_with}
use disnix.Tests.Upgrade.{old_manifest, old, old_sorted, no_flags, start, machines}

abbrev total : List ℕ → ℕ
total [] = 0
total (n ∷ rest) = n + total rest

total-bound : (pid : ℕ) (children : List ℕ) → Memᴰ pid children → pid ≤ total children
total-bound pid [] m = elim m [ ]
total-bound pid (n ∷ rest) (Memᴰ.head e) = omega (arith, e)
total-bound pid (n ∷ rest) (Memᴰ.tail m) = omega (arith, total-bound pid rest m)

abbrev pub fresh : World
fresh = record {
  fork = λ tick children. some (suc (total children));
  wait = λ tick children. if tick == 2 then none else exits_with true children;
  interrupted = λ tick. false;
}

exits_with_child :
    (children : List ℕ) (e : Exit) → exits_with true children ≡ some e → Memᴰ e.pid children
exits_with_child [] e h = cc
exits_with_child (n ∷ rest) e h = Memᴰ.head (ground arith)

exits_with_some : (children : List ℕ) → children ≢ [] → exits_with true children ≢ none
exits_with_some [] h = λ e. h refl
exits_with_some (n ∷ rest) h = λ e. cc

not_interrupted :
    (tick : ℕ) (children : List ℕ) (e : Exit)
    → fresh.wait tick children ≡ some e
    → exits_with true children ≡ some e
not_interrupted tick children e h = elim (Bool-cases (tick == 2)) [
  | inl same ↦ absurd (ground (arith, rw same at h))
  | inr other ↦ rw other at h
]

abbrev fresh_laws : IsWorld fresh
fresh_laws = record {
  fork_fresh = λ tick children pid e m. ground (arith, e, total-bound pid children m);
  wait_child = λ tick children e h. exits_with_child children e (not_interrupted tick children e h);
  signals = λ tick. if ltb tick 3 then 1 else 0;
  signals_pass = λ tick. ground arith;
  wait_interrupted = λ tick children h e. elim (Bool-cases (tick == 2)) [
    | inl same ↦ ground (arith, same)
    | inr other ↦ absurd (exits_with_some children h (rw other at e))
  ];
}

found-All :
    (P : String → ManifestService → Type 0) (table : Table ManifestService)
    → All (λ e. P e.0 e.1) table
    → (name : String) (service : ManifestService) → lookup name table ≡ some service
    → P name service
found-All P [] h name service e = cc
found-All P ((k, s) ∷ rest) h name service e = elim (Bool-cases (str_eq k name)) [
  | inl same ↦
      let found : s ≡ service = ground arith in
      let named : k ≡ name = (eq_iff k name).0 same in
      subst (P name) found (subst (λ n. P n s) named h.0)
  | inr other ↦ found-All P rest h.1 name service (rw other at e)
]

abbrev rank : String → ℕ
rank name = if str_eq name "s1" then 0 else 1

abbrev example : Setting
example = setting platform fresh 3 6 old_manifest.services_table no_flags

abbrev pool : TraverseState
pool = record start { mappings = old }

activation_terminates_example : (activate_array example old pool).0 ≢ unfinished
activation_terminates_example =
    activation_terminates example platform-IsPlatform fresh_laws (λ tick children e. cc) rank
      (found-All (λ name service. All (λ key. rank key.service < rank name) service.depends_on)
        old_manifest.services_table (tt, ((omega arith, tt), tt)))
      old pool old_sorted ((λ e. cc), ((λ e. cc), tt))
      (lookup-All (λ t. 1 ≤ t.available_cores) machines (omega arith, (omega arith, tt)))
      (omega arith, (omega arith, tt)) (omega arith)

abbrev height : String → ℕ
height name = if str_eq name "s1" then 1 else 0
