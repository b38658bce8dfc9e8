-- ===== src/Service/Commands.antt =====
-- What src/service.rs asks of the system: whose manager, and which file.
use mathlib.Core.List.{◌++◌}
use joycast.Prelude.{
  String, ◌≡◌, refl, Bool, true, false, not, List, [], ◌∷◌, if◌then◌else◌, arith, inl, inr,
  Option-cases,
}
use joycast.Prelude.Outcome.{Result-cases}
use joycast.Prelude.Map.{string_eq, ◌==◌}
use joycast.Prelude.Sort.{AllPass}
use joycast.Service.{
  ServiceManager, Request, run, System, unit_path, generate_unit_content, run_systemctl,
  install_file, install_at, install, remove_unit, uninstall, control, status_of, logs,
}

-- the request does not concern another manager than the service's: the user's own one (`--user`) or
-- the system's
abbrev pub right_manager : ServiceManager → Request → Bool
right_manager sm (run program []) = not sm.is_user
right_manager sm (run program (a ∷ args)) =
    if sm.is_user then a == "--user" else not (a == "--user")
right_manager sm _ = true

pub AllPass-append :
    {A : Type 0} (p : A → Bool) (xs ys : List A)
    → AllPass p xs
    → AllPass p ys
    → AllPass p (xs ++ ys)
AllPass-append p [] ys h k = k
AllPass-append p (x ∷ xs) ys h k = (h.0, AllPass-append p xs ys h.1 k)

module _ (sys : System) (sm : ServiceManager) where
  run_systemctl-AllPass :
      (verb : String) (args : List String)
      → (verb == "--user") ≡ false
      → AllPass (right_manager sm) (run_systemctl sys sm (verb ∷ args)).1
  unfolding run_systemctl
  run_systemctl-AllPass verb args h = ground arith

  install_file-AllPass :
      (path content : String) → AllPass (right_manager sm) (install_file sys sm path content).1
  unfolding install_file
  install_file-AllPass path content =
      let both =
        AllPass-append (right_manager sm) _ _ (run_systemctl-AllPass "daemon-reload" [] refl)
          (run_systemctl-AllPass "enable" ("joycast" ∷ []) refl) in
      elim (Result-cases (sys.write_file path content)) [
        | inl (u, e) ↦ rw (e, install_file) (refl, both)
        | inr (x, e) ↦ rw (e, install_file) (refl, tt)
      ]

  install_at-AllPass :
      (path content : String) → AllPass (right_manager sm) (install_at sys sm path content).1
  unfolding install_at
  install_at-AllPass path content =
      let later = install_file-AllPass path content in
      elim (Option-cases (sys.parent path)) [
        | inl e ↦ rw (e, install_at) later
        | inr (dir, e) ↦ elim (Result-cases (sys.create_dir_all dir)) [
          | inl (u, o) ↦ rw (e, install_at, o) (refl, later)
          | inr (x, o) ↦ rw (e, install_at, o) (refl, tt)
        ]
      ]

  install-AllPass : AllPass (right_manager sm) (install sys sm).1
  unfolding install
  install-AllPass = elim (Result-cases sys.current_exe) [
    | inl (exec, e) ↦ elim (Result-cases (unit_path sys.home sm)) [
      | inl (path, o) ↦ rw (e, o, install) (install_at-AllPass path (generate_unit_content exec sm))
      | inr (x, o) ↦ rw (e, o, install) tt
    ]
    | inr (x, e) ↦ rw (e, install) tt
  ]

  remove_unit-AllPass : (path : String) → AllPass (right_manager sm) (remove_unit sys path).1
  unfolding remove_unit
  remove_unit-AllPass path = ground arith

  uninstall-AllPass : AllPass (right_manager sm) (uninstall sys sm).1
  unfolding uninstall
  uninstall-AllPass = elim (Result-cases (unit_path sys.home sm)) [
    | inr (x, o) ↦ rw (o, uninstall) tt
    | inl (path, o) ↦
        let before =
          AllPass-append (right_manager sm) _ _ (run_systemctl-AllPass "stop" ("joycast" ∷ []) refl)
            (run_systemctl-AllPass "disable" ("joycast" ∷ []) refl) in
        let removed = remove_unit-AllPass path in
        let last = run_systemctl-AllPass "daemon-reload" [] refl in
        elim (Result-cases (remove_unit sys path).0) [
          | inl (u, e) ↦
              rw (o, uninstall, e) (AllPass-append _ _ _ before (AllPass-append _ _ _ removed last))
          | inr (x, e) ↦ rw (o, uninstall, e) (AllPass-append _ _ _ before removed)
        ]
  ]

  -- Whatever the system answers, each program that a method runs is told to work on the user's own
  -- manager (`--user`) exactly if the service is the user's. A method that takes the verb is given
  -- another word than the flag.
  pub methods-AllPass :
      (verb : String)
      → (verb == "--user") ≡ false
      → AllPass (right_manager sm) (install sys sm).1
        × AllPass (right_manager sm) (uninstall sys sm).1
        × AllPass (right_manager sm) (control sys sm verb).1
        × AllPass (right_manager sm) (status_of sm)
        × AllPass (right_manager sm) (logs sm)
  unfolding control status_of logs
  methods-AllPass verb h = (
    install-AllPass,
    uninstall-AllPass,
    run_systemctl-AllPass verb ("joycast" ∷ []) h,
    ground arith,
    ground arith,
  )
