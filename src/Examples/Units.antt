-- ===== src/Examples/Units.antt =====
-- The unit of a user's service, on a system that refuses to enable it.
use joycast.Prelude.{refl, true, false, some}
use joycast.Prelude.Outcome.{ok}
use joycast.Prelude.Sort.{AllPass}
use joycast.Service.{ServiceManager, System, install, uninstall, control, status_of, logs}
use joycast.Service.Commands.{right_manager, methods-AllPass}

abbrev of_user : ServiceManager
of_user = record { is_user = true }

abbrev pub system : System
system = record {
  home = some "/home/ada";
  current_exe = ok "/usr/bin/joycast";
  status = λ program args. ok false;
  create_dir_all = λ path. ok tt;
  write_file = λ path content. ok tt;
  remove_file = λ path. ok tt;
  exists = λ path. true;
  parent = λ path. some "/home/ada/.config/systemd/user";
}

methods-AllPass_example :
    AllPass (right_manager of_user) (install system of_user).1
    × AllPass (right_manager of_user) (uninstall system of_user).1
    × AllPass (right_manager of_user) (control system of_user "start").1
    × AllPass (right_manager of_user) (status_of of_user)
    × AllPass (right_manager of_user) (logs of_user)
methods-AllPass_example = methods-AllPass system of_user "start" refl
