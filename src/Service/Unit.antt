-- ===== src/Service/Unit.antt =====
-- The file of src/service.rs: the unit, and nothing else.
use joycast.Prelude.{
  String, ◌≡◌, refl, ◌∙◌, Bool, true, false, not, List, [], ◌∷◌, arith, inl, inr, Option-cases,
}
use joycast.Prelude.Outcome.{ok, Result-cases}
use joycast.Prelude.Map.{string_eq, ◌==◌}
use joycast.Prelude.Files.{FileSystem, write, set_content}
use joycast.Prelude.Sort.{AllPass}
use joycast.Service.{
  ServiceManager, Request, run, create_dir_all, remove_file, write_file, System, unit_path,
  generate_unit_content, run_systemctl, install_file, install_at, install, remove_unit, uninstall,
  remove_content, perform, perform_all,
}
use joycast.Service.Commands.{AllPass-append}

-- the request does not change the file at `p`
abbrev pub spares : String → Request → Bool
spares p (write_file path content) = not (path == p)
spares p (remove_file path) = not (path == p)
spares p _ = true

module _ (sys : System) (p : String) where
  perform_spared :
      (request : Request) (fs : FileSystem)
      → spares p request ≡ true
      → perform sys request fs p ≡ fs p
  unfolding perform remove_content write set_content
  perform_spared (write_file path content) fs h = ground arith
  perform_spared (remove_file path) fs h = elim (Result-cases (sys.remove_file path)) [
    | inl (u, e) ↦ ground arith
    | inr (x, e) ↦ ground arith
  ]
  perform_spared (run program args) fs h = refl
  perform_spared (create_dir_all path) fs h = refl

  -- Requests that spare a file leave it as it was.
  pub perform_all_spared :
      (requests : List Request) (fs : FileSystem)
      → AllPass (spares p) requests
      → perform_all sys requests fs p ≡ fs p
  unfolding perform_all
  perform_all_spared [] fs h = refl
  perform_all_spared (request ∷ rest) fs (h, k) =
      perform_all_spared rest (perform sys request fs) k ∙ perform_spared request fs h

  -- no program changes a file by itself here
  pub run_systemctl-spares :
      (sm : ServiceManager) (args : List String) → AllPass (spares p) (run_systemctl sys sm args).1
  unfolding run_systemctl
  run_systemctl-spares sm args = ground arith

  module _ (sm : ServiceManager) (path : String) (other : path == p ≡ false) where
    install_file-spares :
        (content : String) → AllPass (spares p) (install_file sys sm path content).1
    unfolding install_file
    install_file-spares content =
        let both =
          AllPass-append (spares p) _ _ (run_systemctl-spares sm ("daemon-reload" ∷ []))
            (run_systemctl-spares sm ("enable" ∷ "joycast" ∷ [])) in
        elim (Result-cases (sys.write_file path content)) [
          | inl (u, e) ↦ rw (e, install_file) (rw other refl, both)
          | inr (x, e) ↦ rw (e, install_file) (rw other refl, tt)
        ]

    install_at-spares : (content : String) → AllPass (spares p) (install_at sys sm path content).1
    unfolding install_at
    install_at-spares content = elim (Option-cases (sys.parent path)) [
      | inl e ↦ rw (e, install_at) (install_file-spares content)
      | inr (dir, e) ↦ elim (Result-cases (sys.create_dir_all dir)) [
        | inl (u, o) ↦ rw (e, install_at, o) (refl, install_file-spares content)
        | inr (x, o) ↦ rw (e, install_at, o) (refl, tt)
      ]
    ]

    pub install-spares : unit_path sys.home sm ≡ ok path → AllPass (spares p) (install sys sm).1
    unfolding install
    install-spares o = elim (Result-cases sys.current_exe) [
      | inl (exec, e) ↦ rw (e, o, install) (install_at-spares (generate_unit_content exec sm))
      | inr (x, e) ↦ rw (e, install) tt
    ]

    remove_unit-spares : AllPass (spares p) (remove_unit sys path).1
    unfolding remove_unit
    remove_unit-spares = ground arith

    pub uninstall-spares : unit_path sys.home sm ≡ ok path → AllPass (spares p) (uninstall sys sm).1
    unfolding uninstall
    uninstall-spares o =
        let before =
          AllPass-append (spares p) _ _ (run_systemctl-spares sm ("stop" ∷ "joycast" ∷ []))
            (run_systemctl-spares sm ("disable" ∷ "joycast" ∷ [])) in
        let last = run_systemctl-spares sm ("daemon-reload" ∷ []) in
        elim (Result-cases (remove_unit sys path).0) [
          | inl (u, e) ↦
              rw (o, uninstall, e)
                (AllPass-append _ _ _ before (AllPass-append _ _ _ remove_unit-spares last))
          | inr (x, e) ↦ rw (o, uninstall, e) (AllPass-append _ _ _ before remove_unit-spares)
        ]
